-- ===== src/Rocksdb/Handover/Once.antt =====
-- Where the requests are: with which worker, handled or not.
use cos_userspace.Base.{
  ℕ, ◌+◌, ◌<◌, ◌≡◌, refl, sym, ap, subst, ◌∙◌, Bool, true, false, List, [], ◌∷◌, arith, ltb, ◌==◌,
  ◌&&◌, if◌then◌else◌, inl, inr, Bool-cases, drop, drop-get_elem?, drop-length, count, count-append,
  count-snoc, total, total_congr, total_grown, total-zero,
}
use cos_userspace.Epistle.{epistle_thread_runnable, epistle_thread_idle}
use cos_userspace.Rocksdb.Handover.{
  batch, Pc, start, named, top, look, saw, go, busy, rest, ended, failed, Worker, Generator,
  waiting, head, visit, check, fill, publish, sent, mark, drain_head, drain, finished, aborted,
  State, busy_step, worker_step, set_worker, go_on, push, publish_step, generator_step, Step, work,
  generate, release, stop, stop_generator, Reach, here, next,
}
use cos_userspace.Rocksdb.Handover.Protocol.{
  Role, away, checking, filling, publishing, sending, role, is_parked, IsLoaded, Alone, Sound, Inv,
  List-cases, get_elem?-some, worker_at, parked_step, Reach-Inv,
}

-- The requests that a worker has been given, or is being given, and has not handled.
abbrev pub held : Role → Worker → List ℕ
held away w = elim w.pc [
  | busy n k ↦ drop k w.requests
  | start ↦ []
  | named ↦ []
  | rest ↦ []
  | _ ↦ if w.num_requests == 0 then [] else w.requests
]
held checking w = []
held _ w = w.requests

-- How often a request is with a worker, handled or not.
unfoldable pub seen : ℕ → Role → Worker → ℕ
seen r role w = count r w.handled + count r (held role w)

busy_seen :
    (r n k : ℕ) (w : Worker)
    → w.pc ≡ busy n k
    → Alone (busy n k) w
    → seen r away (busy_step n k w) ≡ seen r away w
unfolding busy_step seen count
busy_seen r n k w e h = elim (Bool-cases (ltb k n)) [
  | inl more ↦
      let (x, at) = get_elem?-some w.requests k (ground arith) in
      rw (more, at, busy_step)
        (ground (arith, drop-get_elem? w.requests k x at, count-append r w.handled (x ∷ [])))
  | inr done ↦ rw done (ground (arith, drop-length w.requests k))
]

Alone-seen :
    (exit_all : Bool) (r : ℕ) (p : Pc) (flag n : ℕ) (requests handled : List ℕ)
    → Alone p (worker_at p flag n requests handled)
    → seen r away (worker_step exit_all (worker_at p flag n requests handled))
      ≡ seen r away (worker_at p flag n requests handled)
unfolding worker_step seen count drop
Alone-seen exit_all r (busy m k) flag n requests handled h =
    busy_seen r m k (worker_at (busy m k) flag n requests handled) refl h
Alone-seen true r top flag n requests handled h = refl
Alone-seen false r top flag n requests handled h = refl
Alone-seen exit_all r start flag n requests handled h = refl
Alone-seen exit_all r named flag n requests handled h = ground arith
Alone-seen exit_all r look flag n requests handled h = ground arith
Alone-seen exit_all r saw flag n requests handled h = ground arith
Alone-seen exit_all r go flag n requests handled h = ground arith
Alone-seen exit_all r rest flag n requests handled h = ground arith
Alone-seen exit_all r ended flag n requests handled h = refl
Alone-seen exit_all r failed flag n requests handled h = refl

-- A parked worker steps without touching its requests.
parked_seen :
    (exit_all : Bool) (r : ℕ) (w : Worker) (held_there : Worker → List ℕ)
    → ((p : Pc) → held_there (record w { pc = p }) ≡ held_there w)
    → (is_parked w.pc ≡ true) × (w.flag ≡ epistle_thread_idle)
    → count r (worker_step exit_all w).handled + count r (held_there (worker_step exit_all w))
      ≡ count r w.handled + count r (held_there w)
parked_seen exit_all r w held_there same (h, e) =
    let (p', h', run) = parked_step exit_all w.pc w.flag w.num_requests w.requests w.handled h e in
    subst
      (λ w'.
        count r w'.handled + count r (held_there w') ≡ count r w.handled + count r (held_there w))
      (sym run) (ap (λ xs. count r w.handled + count r xs) (same p'))

-- A step of a worker moves requests from those that it holds to those that it has handled.
worker_step-seen :
    (exit_all : Bool) (r : ℕ) (role : Role) (w : Worker)
    → Sound role w
    → seen r role (worker_step exit_all w) ≡ seen r role w
unfolding seen
worker_step-seen exit_all r away w h =
    Alone-seen exit_all r w.pc w.flag w.num_requests w.requests w.handled h
worker_step-seen exit_all r checking w h =
    parked_seen exit_all r w (held checking) (λ p. refl) (h.0, h.1)
worker_step-seen exit_all r (filling k) w h =
    parked_seen exit_all r w (held (filling k)) (λ p. refl) (h.0, h.1)
worker_step-seen exit_all r publishing w h =
    parked_seen exit_all r w (held publishing) (λ p. refl) (h.0, h.1)
worker_step-seen exit_all r sending w h =
    parked_seen exit_all r w (held sending) (λ p. refl) (h.0, h.1)

abbrev pub seen_by : ℕ → State → ℕ → ℕ
seen_by r s i = seen r (role s.generator i) (s.workers i)

-- What has arrived is with one worker, once.
abbrev pub Once : ℕ → State → Type 0
Once n s = (r : ℕ) → total n (seen_by r s) ≡ (if ltb r s.arrivals then 1 else 0)

publish_seen :
    (n r i j : ℕ) (s : State)
    → j < n
    → Inv n (go_on s (publish i))
    → seen_by r (publish_step (go_on s (publish i)) i) j ≡ seen_by r (go_on s (publish i)) j
unfolding publish_step seen count
publish_seen n r i j s lt v = elim (List-cases (s.workers i).requests) [
  | inl none_came ↦ rw (none_came, publish_step) (ground (arith, v.sound j lt, v.sound i v.within))
  | inr (x, xs, came) ↦ rw (came, publish_step) (ground (arith, v.sound j lt, v.sound i v.within))
]

moved-Once :
    (n : ℕ) (s t : State)
    → t.arrivals ≡ s.arrivals
    → ((r j : ℕ) → j < n → seen_by r t j ≡ seen_by r s j)
    → Once n s
    → Once n t
moved-Once n s t e same h r =
    total_congr n (seen_by r t) (seen_by r s) (same r)
    ∙ h r
    ∙ ap (λ m. if ltb r m then 1 else 0) (sym e)

-- A request that has just arrived.
pushed-Once :
    (n i k : ℕ) (s : State)
    → i < n
    → Once n (go_on s (fill i k))
    → Once n (go_on (push (go_on s (fill i k)) i) (fill i (k + 1)))
unfolding seen
pushed-Once n i k s lt h r =
    let before = go_on s (fill i k) in
    let after = go_on (push before i) (fill i (k + 1)) in
    let grown =
      total_grown n i (if r == s.arrivals then 1 else 0) (seen_by r before) (seen_by r after) lt
        (λ j small. ground (arith, count-snoc r (s.workers i).requests s.arrivals)) in
    ground (arith, grown, h r)

publish-arrivals :
    (s : State) (i : ℕ) → (publish_step (go_on s (publish i)) i).arrivals ≡ s.arrivals
unfolding publish_step
publish-arrivals s i = elim (List-cases (s.workers i).requests) [
  | inl none_came ↦ rw (none_came, publish_step) refl
  | inr (x, xs, came) ↦ rw (came, publish_step) (ground arith)
]

-- A batch whose counter says 0 is empty.
loaded_all :
    (w : Worker) → IsLoaded w → (if w.num_requests == 0 then [] else w.requests) ≡ w.requests
loaded_all w h = elim (List-cases w.requests) [
  | inl empty ↦ rw empty (ground arith)
  | inr (x, xs, more) ↦ ground (arith, more)
]

abbrev is_filling : Generator → Bool
is_filling (fill i k) = true
is_filling _ = false

generator_seen :
    (n : ℕ) (arrived : Bool) (r j : ℕ) (s : State) (g : Generator)
    → j < n
    → is_filling g ≡ false
    → Inv n (go_on s g)
    → seen_by r (generator_step n arrived (go_on s g)) j ≡ seen_by r (go_on s g) j
unfolding generator_step seen count
generator_seen n arrived r j s (publish i) lt e v = publish_seen n r i j s lt v
generator_seen n arrived r j s (fill i k) lt e v = cc
generator_seen n arrived r j s waiting lt e v = ground (arith, v.sound j lt)
generator_seen n arrived r j s head lt e v = ground (arith, v.sound j lt)
generator_seen n arrived r j s (visit i) lt e v = ground (arith, v.sound j lt)
generator_seen n arrived r j s (check i) lt e v = ground (arith, v.sound j lt, v.sound i v.within)
generator_seen n arrived r j s (sent i) lt e v = ground (arith, v.sound j lt, v.sound i v.within)
generator_seen n arrived r j s (mark i) lt e v =
    ground
      (arith, v.sound j lt, v.sound i v.within, loaded_all (s.workers i), loaded_all (s.workers j))
generator_seen n arrived r j s drain_head lt e v = ground (arith, v.sound j lt)
generator_seen n arrived r j s (drain i) lt e v = ground (arith, v.sound j lt)
generator_seen n arrived r j s finished lt e v = ground (arith, v.sound j lt)
generator_seen n arrived r j s aborted lt e v = ground (arith, v.sound j lt)

generator-arrivals :
    (n : ℕ) (arrived : Bool) (s : State) (g : Generator)
    → is_filling g ≡ false
    → (generator_step n arrived (go_on s g)).arrivals ≡ s.arrivals
unfolding generator_step
generator-arrivals n arrived s waiting e = ground arith
generator-arrivals n arrived s head e = refl
generator-arrivals n arrived s (visit i) e = ground arith
generator-arrivals n arrived s (check i) e = ground arith
generator-arrivals n arrived s (fill i k) e = cc
generator-arrivals n arrived s (publish i) e = publish-arrivals s i
generator-arrivals n arrived s (sent i) e = refl
generator-arrivals n arrived s (mark i) e = refl
generator-arrivals n arrived s drain_head e = refl
generator-arrivals n arrived s (drain i) e = ground arith
generator-arrivals n arrived s finished e = refl
generator-arrivals n arrived s aborted e = refl

still-Once :
    (n : ℕ) (arrived : Bool) (s : State) (g : Generator)
    → is_filling g ≡ false
    → Inv n (go_on s g)
    → Once n (go_on s g)
    → Once n (generator_step n arrived (go_on s g))
still-Once n arrived s g e v h =
    moved-Once n (go_on s g) (generator_step n arrived (go_on s g))
      (generator-arrivals n arrived s g e) (λ r j lt. generator_seen n arrived r j s g lt e v) h

fill_step-Once :
    (n : ℕ) (arrived : Bool) (s : State) (i k : ℕ)
    → Inv n (go_on s (fill i k))
    → Once n (go_on s (fill i k))
    → Once n (generator_step n arrived (go_on s (fill i k)))
unfolding generator_step seen
fill_step-Once n arrived s i k v h = elim (Bool-cases (ltb k batch && arrived)) [
  | inl more ↦ rw more (pushed-Once n i k s v.within h)
  | inr done ↦
      rw done
        (moved-Once n (go_on s (fill i k)) (go_on s (publish i)) refl (λ r j lt. ground arith) h)
]

generator_step-Once :
    (n : ℕ) (arrived : Bool) (s : State) (g : Generator)
    → Inv n (go_on s g)
    → Once n (go_on s g)
    → Once n (generator_step n arrived (go_on s g))
generator_step-Once n arrived s (fill i k) v h = fill_step-Once n arrived s i k v h
generator_step-Once n arrived s g v h = still-Once n arrived s g refl v h

Step-Once : {n : ℕ} {s t : State} → Step n s t → Inv n s → Once n s → Once n t
Step-Once {n} {s} (work i lt) v h =
    moved-Once n s (set_worker s i (worker_step s.exit_all (s.workers i))) refl
      (λ r j small.
        ground
          (arith, worker_step-seen s.exit_all r (role s.generator i) (s.workers i) (v.sound i lt)))
      h
Step-Once {n} {s} (generate arrived) v h = generator_step-Once n arrived s s.generator v h
Step-Once (release g) v h = h
Step-Once (stop g) v h = h
Step-Once (stop_generator g) v h = h

-- From a page that says runnable for each worker with a number below `n`, in every reachable state
-- a request that has arrived is with exactly one of the `n` workers, which has handled it or still
-- has to, and it is there once; a number that has not arrived yet is with none.
pub Reach-Once :
    {n : ℕ} {flags : ℕ → ℕ} {s : State}
    → ((i : ℕ) → i < n → flags i ≡ epistle_thread_runnable)
    → Reach n flags s
    → Once n s
unfolding seen count
Reach-Once {n} fresh here = λ r. total-zero n ∙ ground arith
Reach-Once fresh (next r st) = Step-Once st (Reach-Inv fresh r) (Reach-Once fresh r)
