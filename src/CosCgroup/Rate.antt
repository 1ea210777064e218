-- ===== src/CosCgroup/Rate.antt =====
-- Histories of calls on one `CosCgroup`: what the kernel is asked, what the callers are told, and the
-- object at the end.
use cos_userspace.Base.{
  ℕ, ◌≡◌, refl, sym, ap, subst, ◌∙◌, Option, some, none, List, [], ◌∷◌, ◌++◌, map, All, Bool, true,
  false, ◌⊎◌, inl, inr, arith,
}
use mathlib.Core.List.{append-nil, append_assoc}
use cos_userspace.CosCgroup.{
  ℤ, pos, negsuc, CosCgroup, adjust_rate, control, add_thread, erase_thread,
}
use cos_userspace.SystemCalls.{Argument, int, Syscall, coscg_ctl, coscg_rate, cos_calls}

pub data Call : Type 0 where
  adjust : ℤ → Call
  add erase : ℕ → Call

-- The numbers and arguments of system calls, in their order.
abbrev pub Log : Type 0
Log = List (ℕ × List Argument)

-- The system call that a call on the object number `id` is to make.
abbrev pub asked : ℤ → Call → ℕ × List Argument
asked id (adjust rate) = (458, int id ∷ int rate ∷ [])
asked id (add pid) = (457, int id ∷ int (pos pid) ∷ int (pos 1) ∷ [])
asked id (erase pid) = (457, int id ∷ int (pos pid) ∷ int (pos 2) ∷ [])

-- What the caller is to be told on an answer of the kernel.
abbrev pub told : Call → ℤ → Option ℤ
told (adjust rate) (pos n) = none
told (adjust rate) (negsuc n) = some (negsuc n)
told (add pid) (pos n) = some (pos 0)
told (add pid) (negsuc n) = some (negsuc n)
told (erase pid) (pos n) = some (pos 0)
told (erase pid) (negsuc n) = some (negsuc n)

ℤ-cases : (z : ℤ) → ((n : ℕ) × (z ≡ pos n)) ⊎ ((n : ℕ) × (z ≡ negsuc n))
ℤ-cases (pos n) = inl (n, refl)
ℤ-cases (negsuc n) = inr (n, refl)

module _ {K : Type 0} (syscall : Syscall K) where
  -- The kernel, with a log of what it is asked.
  abbrev pub recorded : Syscall (K × Log)
  recorded number arguments k =
      let (res, k') = syscall number arguments k.0 in (res, (k', k.1 ++ (number, arguments) ∷ []))

  unfoldable pub perform : Call → CosCgroup → K × Log → Option ℤ × (CosCgroup × (K × Log))
  perform (adjust rate) g k = adjust_rate (cos_calls recorded) rate g k
  perform (add pid) g k =
      let (res, made) = add_thread (cos_calls recorded) pid g k in (some res, made)
  perform (erase pid) g k =
      let (res, made) = erase_thread (cos_calls recorded) pid g k in (some res, made)

  -- The calls one after the other, with the kernel in any state at the start of each.
  unfoldable pub history : List (Call × K) → CosCgroup → Log → List (Option ℤ) × (CosCgroup × Log)
  history [] g log = ([], (g, log))
  history ((c, k) ∷ cs) g log =
      let (res, made) = perform c g (k, log) in
      let (replies, ended) = history cs made.0 made.1.1 in (res ∷ replies, ended)

  abbrev pub answer : ℤ → Call × K → ℤ
  answer id c = (syscall (asked id c.0).0 (asked id c.0).1 c.1).0

  abbrev pub grants : Call → ℤ → Bool
  grants (adjust rate) (pos n) = true
  grants _ _ = false

  -- The rate is the one of the last call of `adjust_rate` that the kernel grants, if there is one.
  abbrev pub IsLastRate : ℤ → List (Call × K) → ℤ → ℤ → Type 0
  IsLastRate id cs before rate =
      (All (λ c. grants c.0 (answer id c) ≡ false) cs × (rate ≡ before))
      ⊎ ((earlier later : List (Call × K)) × (k : K) × (cs ≡ earlier ++ (adjust rate, k) ∷ later)
          × (grants (adjust rate) (answer id (adjust rate, k)) ≡ true)
          × All (λ c. grants c.0 (answer id c) ≡ false) later)

  pub record Recorded (cs : List (Call × K)) (g : CosCgroup) (log : Log)
      (end : List (Option ℤ) × (CosCgroup × Log)) : Type 0 where
    pub replies_are : end.0 ≡ map (λ c. told c.0 (answer g.coscg_id c)) cs
    pub log_is : end.1.1 ≡ log ++ map (λ c. asked g.coscg_id c.0) cs
    pub same_id : end.1.0.coscg_id ≡ g.coscg_id
    pub rate_is : IsLastRate g.coscg_id cs g.rate end.1.0.rate

  abbrev new_rate : Call → ℤ → ℤ → ℤ
  new_rate (adjust rate) (pos n) before = rate
  new_rate _ _ before = before

  abbrev set_rate : Call → ℤ → CosCgroup → CosCgroup
  set_rate c z g = record g { rate = new_rate c z g.rate }

  -- What is left after the answer `r` of the kernel to a call.
  abbrev ended : Call → ℤ × K → CosCgroup → Log → Option ℤ × (CosCgroup × (K × Log))
  ended c r g log = (told c r.0, (set_rate c r.0 g, (r.1, log ++ asked g.coscg_id c ∷ [])))

  abbrev reached : ℤ → Call × K → ℤ × K
  reached id c = syscall (asked id c.0).0 (asked id c.0).1 c.1

  perform_lem :
      (c : Call) (g : CosCgroup) (k : K) (log : Log)
      → perform c g (k, log) ≡ ended c (reached g.coscg_id (c, k)) g log
  unfolding perform adjust_rate add_thread erase_thread control coscg_ctl coscg_rate
  perform_lem (adjust rate) g k log = elim (ℤ-cases (answer g.coscg_id (adjust rate, k))) [
    | inl (n, e) ↦ ground (arith, e)
    | inr (n, e) ↦ ground (arith, e)
  ]
  perform_lem (add pid) g k log = elim (ℤ-cases (answer g.coscg_id (add pid, k))) [
    | inl (n, e) ↦ ground (arith, e)
    | inr (n, e) ↦ ground (arith, e)
  ]
  perform_lem (erase pid) g k log = elim (ℤ-cases (answer g.coscg_id (erase pid, k))) [
    | inl (n, e) ↦ ground (arith, e)
    | inr (n, e) ↦ ground (arith, e)
  ]

  kept_rate :
      (id : ℤ) (c : Call) (k : K) (cs : List (Call × K)) (before rate : ℤ)
      → grants c (answer id (c, k)) ≡ false
      → IsLastRate id cs before rate
      → IsLastRate id ((c, k) ∷ cs) before rate
  kept_rate id c k cs before rate e (inl (none_later, same)) = inl ((e, none_later), same)
  kept_rate id c k cs before rate e (inr (earlier, later, l, split, given, others)) =
      inr ((c, k) ∷ earlier, later, l, ap (◌∷◌ (c, k)) split, given, others)

  IsLastRate-step :
      (id : ℤ) (c : Call) (k : K) (cs : List (Call × K)) (before rate : ℤ)
      → IsLastRate id cs (new_rate c (answer id (c, k)) before) rate
      → IsLastRate id ((c, k) ∷ cs) before rate
  IsLastRate-step id (add pid) k cs before rate h = kept_rate id (add pid) k cs before rate refl h
  IsLastRate-step id (erase pid) k cs before rate h =
      kept_rate id (erase pid) k cs before rate refl h
  IsLastRate-step id (adjust r) k cs before rate h = elim (ℤ-cases (answer id (adjust r, k))) [
    | inl (n, e) ↦ elim (subst (λ z. IsLastRate id cs (new_rate (adjust r) z before) rate) e h) [
      | inl (none_later, same) ↦ inr (
        [],
        cs,
        k,
        ap (λ x. (adjust x, k) ∷ cs) (sym same),
        subst (λ z. grants (adjust rate) z ≡ true)
            (sym (ap (λ x. answer id (adjust x, k)) same ∙ e)) refl,
        none_later,
      )
      | inr (earlier, later, l, split, given, others) ↦
          inr ((adjust r, k) ∷ earlier, later, l, ap (◌∷◌ (adjust r, k)) split, given, others)
    ]
    | inr (n, e) ↦
        kept_rate id (adjust r) k cs before rate
          (subst (λ z. grants (adjust r) z ≡ false) (sym e) refl)
          (subst (λ z. IsLastRate id cs (new_rate (adjust r) z before) rate) e h)
  ]

  -- What the first call has left, and what the others leave.
  Recorded-step :
      (c : Call) (k : K) (cs : List (Call × K)) (g : CosCgroup) (log : Log)
      → Recorded cs
          (set_rate c (answer g.coscg_id (c, k)) g)
          (log ++ asked g.coscg_id c ∷ [])
          (history cs (set_rate c (answer g.coscg_id (c, k)) g) (log ++ asked g.coscg_id c ∷ []))
      → Recorded ((c, k) ∷ cs) g log (history ((c, k) ∷ cs) g log)
  unfolding history
  Recorded-step c k cs g log h = rw (perform_lem c g k log) (record {
    replies_are = ap (λ rs. told c (answer g.coscg_id (c, k)) ∷ rs) h.replies_are;
    log_is =
        h.log_is ∙ append_assoc log (asked g.coscg_id c ∷ []) (map (λ d. asked g.coscg_id d.0) cs);
    same_id = h.same_id;
    rate_is = IsLastRate-step g.coscg_id c k cs g.rate _ h.rate_is;
  })

  -- A history of calls on one object, with any answers of the kernel, makes one system call for
  -- each of them, in their order: 458 with the object's number and the rate, or 457 with its
  -- number, the thread and mode 1 to add or 2 to erase. A refusal is passed on, a granted
  -- `adjust_rate` gives no value, and the other calls give 0. At the end the object's number is
  -- the same and its rate is the last that was granted, if one was.
  pub history-Recorded :
      (cs : List (Call × K)) (g : CosCgroup) (log : Log) → Recorded cs g log (history cs g log)
  unfolding history
  history-Recorded [] g log = record {
    replies_are = refl;
    log_is = sym (append-nil log);
    same_id = refl;
    rate_is = inl (tt, refl);
  }
  history-Recorded ((c, k) ∷ cs) g log = Recorded-step c k cs g log (
      history-Recorded cs (set_rate c (answer g.coscg_id (c, k)) g)
        (log ++ asked g.coscg_id c ∷ []))
