-- ===== src/Rocksdb/Handover/Protocol.antt =====
-- What the flag, the counter and the requests of a worker say about where the two threads stand.
use cos_userspace.Base.{
  ℕ, zero, suc, ◌<◌, ◌≤◌, ◌≡◌, refl, sym, subst, Bool, true, false, List, [], ◌∷◌, arith, ltb, ◌==◌,
  if◌then◌else◌, length, length-append, get_elem?, ◌⊎◌, inl, inr, Bool-cases, some,
}
use cos_userspace.Epistle.{epistle_thread_runnable, epistle_thread_idle}
use cos_userspace.Rocksdb.Handover.{
  batch, Pc, start, named, top, look, saw, go, busy, rest, ended, failed, Worker, Generator,
  waiting, head, visit, check, fill, publish, sent, mark, drain_head, drain, finished, aborted,
  State, busy_step, worker_step, go_on, publish_step, generator_step, Step, work, generate, release,
  stop, stop_generator, Reach, here, next,
}

-- What the generator does with one worker.
pub data Role : Type 0 where
  away checking : Role
  filling : ℕ → Role
  publishing sending : Role

abbrev pub role : Generator → ℕ → Role
role (check i) j = if j == i then checking else away
role (fill i k) j = if j == i then filling k else away
role (publish i) j = if j == i then publishing else away
role (sent i) j = if j == i then sending else away
role (mark i) j = if j == i then sending else away
role _ j = away

-- A worker that reads its flag next, or that has ended.
abbrev pub is_parked : Pc → Bool
is_parked top = true
is_parked look = true
is_parked ended = true
is_parked _ = false

abbrev pub IsLoaded : Worker → Type 0
IsLoaded w = (w.num_requests ≡ length w.requests) × (w.num_requests ≤ batch)

abbrev pub IsMarked : Worker → Type 0
IsMarked w = (w.flag ≡ epistle_thread_runnable) × ((w.num_requests ≡ 0) ⊎ IsLoaded w)

abbrev pub IsBlank : Worker → Type 0
IsBlank w = (w.flag ≡ epistle_thread_idle) × (w.num_requests ≡ 0)

-- A worker that the generator is not at.
abbrev pub Alone : Pc → Worker → Type 0
Alone start w = (w.flag ≡ epistle_thread_runnable) × (w.num_requests ≡ 0)
Alone named w = (w.flag ≡ epistle_thread_runnable) × (w.num_requests ≡ 0)
Alone saw w = IsMarked w
Alone go w = IsMarked w
Alone (busy n k) w =
    (w.flag ≡ epistle_thread_runnable) × (w.num_requests ≡ n) × IsLoaded w × (k ≤ n)
Alone rest w = (w.flag ≡ epistle_thread_runnable) × (w.num_requests ≡ 0)
Alone failed w = ⊥
Alone _ w = IsBlank w ⊎ IsMarked w

abbrev pub Filled : Role → Worker → Type 0
Filled away w = Unit
Filled checking w = w.num_requests ≡ 0
Filled (filling k) w = (w.num_requests ≡ 0) × (length w.requests ≡ k) × (k ≤ batch)
Filled publishing w = (w.num_requests ≡ 0) × (length w.requests ≤ batch)
Filled sending w = IsLoaded w

abbrev pub Sound : Role → Worker → Type 0
Sound away w = Alone w.pc w
Sound r w = (is_parked w.pc ≡ true) × (w.flag ≡ epistle_thread_idle) × Filled r w

-- The generator is not past the last worker, and no assertion has failed.
abbrev pub IsWithin : ℕ → Generator → Type 0
IsWithin n (check i) = i < n
IsWithin n (fill i k) = i < n
IsWithin n (publish i) = i < n
IsWithin n (sent i) = i < n
IsWithin n (mark i) = i < n
IsWithin n aborted = ⊥
IsWithin n _ = Unit

pub record Inv (n : ℕ) (s : State) : Type 0 where
  pub sound : (i : ℕ) → i < n → Sound (role s.generator i) (s.workers i)
  pub within : IsWithin n s.generator

pub get_elem?-some : (xs : List ℕ) (k : ℕ) → k < length xs → (x : ℕ) × (get_elem? xs k ≡ some x)
get_elem?-some [] k h = absurd (omega arith)
get_elem?-some (x ∷ xs) zero h = (x, refl)
get_elem?-some (x ∷ xs) (suc k) h = get_elem?-some xs k (omega arith)

pub List-cases : (xs : List ℕ) → (xs ≡ []) ⊎ ((y : ℕ) × (ys : List ℕ) × (xs ≡ y ∷ ys))
List-cases [] = inl refl
List-cases (y ∷ ys) = inr (y, ys, refl)

busy_step-Sound :
    (n k : ℕ) (w : Worker) → w.pc ≡ busy n k → Alone (busy n k) w → Sound away (busy_step n k w)
unfolding busy_step
busy_step-Sound n k w e h = elim (Bool-cases (ltb k n)) [
  | inl more ↦
      let (r, at) = get_elem?-some w.requests k (ground (arith)) in
      rw (more, at, busy_step) (ground arith)
  | inr done ↦ rw done (ground arith)
]

-- A worker at `p`.
abbrev pub worker_at : Pc → ℕ → ℕ → List ℕ → List ℕ → Worker
worker_at p flag n requests handled = record {
  flag = flag;
  num_requests = n;
  requests = requests;
  handled = handled;
  pc = p;
}

Alone-worker_step :
    (exit_all : Bool) (p : Pc) (flag n : ℕ) (requests handled : List ℕ)
    → Alone p (worker_at p flag n requests handled)
    → Sound away (worker_step exit_all (worker_at p flag n requests handled))
unfolding worker_step
Alone-worker_step exit_all (busy m k) flag n requests handled h =
    busy_step-Sound m k (worker_at (busy m k) flag n requests handled) refl h
Alone-worker_step true top flag n requests handled h = h
Alone-worker_step false top flag n requests handled h = h
Alone-worker_step exit_all start flag n requests handled h = h
Alone-worker_step exit_all named flag n requests handled h = ground arith
Alone-worker_step exit_all look flag n requests handled h = ground arith
Alone-worker_step exit_all saw flag n requests handled h = ground arith
Alone-worker_step exit_all go flag n requests handled h = ground arith
Alone-worker_step exit_all rest flag n requests handled h = ground arith
Alone-worker_step exit_all ended flag n requests handled h = h
Alone-worker_step exit_all failed flag n requests handled h = h

pub parked_step :
    (exit_all : Bool) (p : Pc) (flag n : ℕ) (requests handled : List ℕ)
    → is_parked p ≡ true
    → flag ≡ epistle_thread_idle
    → (p' : Pc) × (is_parked p' ≡ true)
      × (worker_step exit_all (worker_at p flag n requests handled)
          ≡ worker_at p' flag n requests handled)
unfolding worker_step
parked_step true top flag n requests handled h e = (ended, refl, refl)
parked_step false top flag n requests handled h e = (look, refl, refl)
parked_step exit_all look flag n requests handled h e = (top, refl, ground arith)
parked_step exit_all ended flag n requests handled h e = (ended, refl, refl)
parked_step exit_all start flag n requests handled h e = cc
parked_step exit_all named flag n requests handled h e = cc
parked_step exit_all saw flag n requests handled h e = cc
parked_step exit_all go flag n requests handled h e = cc
parked_step exit_all (busy m k) flag n requests handled h e = cc
parked_step exit_all rest flag n requests handled h e = cc
parked_step exit_all failed flag n requests handled h e = cc

parked-Sound :
    (exit_all : Bool) (w : Worker) (P : Worker → Type 0)
    → ((p : Pc) → P w → P (record w { pc = p }))
    → (is_parked w.pc ≡ true) × (w.flag ≡ epistle_thread_idle) × P w
    → let w' = worker_step exit_all w in
      (is_parked w'.pc ≡ true) × (w'.flag ≡ epistle_thread_idle) × P w'
parked-Sound exit_all w P keep (h, e, f) =
    let (p', h', run) = parked_step exit_all w.pc w.flag w.num_requests w.requests w.handled h e in
    subst (λ w'. (is_parked w'.pc ≡ true) × (w'.flag ≡ epistle_thread_idle) × P w') (sym run)
      (h', e, keep p' f)

-- A step of a worker keeps what its role says.
worker_step-Sound :
    (exit_all : Bool) (r : Role) (w : Worker) → Sound r w → Sound r (worker_step exit_all w)
worker_step-Sound exit_all away w h =
    Alone-worker_step exit_all w.pc w.flag w.num_requests w.requests w.handled h
worker_step-Sound exit_all checking w h = parked-Sound exit_all w (Filled checking) (λ p f. f) h
worker_step-Sound exit_all (filling k) w h =
    parked-Sound exit_all w (Filled (filling k)) (λ p f. f) h
worker_step-Sound exit_all publishing w h = parked-Sound exit_all w (Filled publishing) (λ p f. f) h
worker_step-Sound exit_all sending w h = parked-Sound exit_all w (Filled sending) (λ p f. f) h

publish_step-Inv :
    (n : ℕ) (s : State) (i : ℕ)
    → Inv n (go_on s (publish i))
    → Inv n (publish_step (go_on s (publish i)) i)
unfolding publish_step
publish_step-Inv n s i v = elim (List-cases (s.workers i).requests) [
  | inl none_came ↦
      rw (none_came, publish_step)
        (record { sound = λ j lt. ground (arith, v.sound j lt, v.sound i v.within); within = tt })
  | inr (r, rs, came) ↦
      rw (came, publish_step)
        (record {
          sound = λ j lt. ground (arith, v.sound j lt, v.sound i v.within);
          within = ground (arith, v.sound i v.within);
        })
]

generator_step-Inv :
    (n : ℕ) (arrived : Bool) (s : State) (g : Generator)
    → Inv n (go_on s g)
    → Inv n (generator_step n arrived (go_on s g))
unfolding generator_step
generator_step-Inv n arrived s waiting v = record {
  sound = λ j lt. ground (arith, v.sound j lt);
  within = ground arith;
}
generator_step-Inv n arrived s head v = record {
  sound = λ j lt. ground (arith, v.sound j lt);
  within = ground arith;
}
generator_step-Inv n arrived s (visit i) v = record {
  sound = λ j lt. ground (arith, v.sound j lt);
  within = ground arith;
}
generator_step-Inv n arrived s (check i) v = record {
  sound = λ j lt. ground (arith, v.sound j lt, v.sound i v.within);
  within = ground (arith, v.sound i v.within);
}
generator_step-Inv n arrived s (fill i k) v = record {
  sound = λ j lt. ground (
    arith,
    v.sound j lt,
    v.sound i v.within,
    length-append (s.workers i).requests (s.arrivals ∷ []),
  );
  within = ground arith;
}
generator_step-Inv n arrived s (publish i) v = publish_step-Inv n s i v
generator_step-Inv n arrived s (sent i) v = record {
  sound = λ j lt. ground (arith, v.sound j lt, v.sound i v.within);
  within = ground (arith, v.sound i v.within);
}
generator_step-Inv n arrived s (mark i) v = record {
  sound = λ j lt. ground (arith, v.sound j lt, v.sound i v.within);
  within = ground (arith, v.sound i v.within);
}
generator_step-Inv n arrived s drain_head v = record {
  sound = λ j lt. ground (arith, v.sound j lt);
  within = ground arith;
}
generator_step-Inv n arrived s (drain i) v = record {
  sound = λ j lt. ground (arith, v.sound j lt);
  within = ground arith;
}
generator_step-Inv n arrived s finished v = v
generator_step-Inv n arrived s aborted v = v

-- Every step keeps the protocol.
pub Step-Inv : {n : ℕ} {s t : State} → Step n s t → Inv n s → Inv n t
Step-Inv {s} (work i lt) v = record {
  sound = λ j small. ground (
    arith,
    v.sound j small,
    worker_step-Sound s.exit_all (role s.generator i) (s.workers i) (v.sound i lt),
  );
  within = v.within;
}
Step-Inv {n} {s} (generate arrived) v = generator_step-Inv n arrived s s.generator v
Step-Inv (release g) v = record { sound = v.sound; within = v.within }
Step-Inv (stop g) v = record { sound = v.sound; within = v.within }
Step-Inv (stop_generator g) v = record { sound = v.sound; within = v.within }

-- From a page that says runnable for each worker, in every reachable state the protocol holds, and
-- no assertion has failed.
pub Reach-Inv :
    {n : ℕ} {flags : ℕ → ℕ} {s : State}
    → ((i : ℕ) → i < n → flags i ≡ epistle_thread_runnable)
    → Reach n flags s
    → Inv n s
Reach-Inv fresh here = record { sound = λ i lt. (fresh i lt, refl); within = tt }
Reach-Inv fresh (next r st) = Step-Inv st (Reach-Inv fresh r)
