-- ===== src/Rocksdb/Handover/Safety.antt =====
-- What the protocol of the hand-over gives, and what a worker does with a batch.
use cos_userspace.Base.{
  ℕ, zero, suc, ◌+◌, ◌<◌, ◌≤◌, ◌≡◌, ◌≢◌, refl, sym, ap, ◌∙◌, Bool, true, [], ◌∷◌, ◌++◌, arith, some,
  length, get_elem?, drop, drop-get_elem?, drop-length,
}
use mathlib.Core.List.{append-nil, append_assoc}
use cos_userspace.Epistle.{epistle_thread_runnable, epistle_thread_idle}
use cos_userspace.Rocksdb.Handover.{
  batch, top, look, busy, failed, Worker, Generator, check, fill, publish, aborted, State,
  worker_step, busy_step, Reach,
}
use cos_userspace.Rocksdb.Handover.Protocol.{is_parked, get_elem?-some, Reach-Inv}

-- From a page that says runnable for each worker with a number below `n`, in every state that the
-- steps of the workers, the generator and `main`, in whatever order, reach, the generator has not
-- aborted and no worker with a number below `n` has failed: none of the assertions of `Worker` and
-- `LoadGenerator` that the steps check fails.
pub Reach-runs :
    {n : ℕ} {flags : ℕ → ℕ} {s : State}
    → ((i : ℕ) → i < n → flags i ≡ epistle_thread_runnable)
    → Reach n flags s
    → (s.generator ≢ aborted) × ((i : ℕ) → i < n → (s.workers i).pc ≢ failed)
Reach-runs {n} {s = s} fresh r =
    let v = Reach-Inv fresh r in (ground (arith, v.within), λ i lt. ground (arith, v.sound i lt))

-- The worker whose requests the generator reads or writes next.
abbrev pub Touches : Generator → ℕ → Type 0
Touches (check i) j = i ≡ j
Touches (fill i k) j = i ≡ j
Touches (publish i) j = i ≡ j
Touches _ j = ⊥

-- From a page that says runnable for each worker with a number below `n`, in every reachable state
-- in which the generator is at the requests of a worker with a number below `n`, from the test of
-- its counter to the store of the new one, that worker is marked as idle, its counter is 0, and it
-- stands before the loop's test or before a look at its mark, or it has ended.
pub Reach-exclusive :
    {n : ℕ} {flags : ℕ → ℕ} {s : State}
    → ((i : ℕ) → i < n → flags i ≡ epistle_thread_runnable)
    → Reach n flags s
    → (i : ℕ) → i < n
    → Touches s.generator i
    → ((s.workers i).flag ≡ epistle_thread_idle)
      × ((s.workers i).num_requests ≡ 0)
      × (is_parked (s.workers i).pc ≡ true)
Reach-exclusive fresh r i lt t = ground (arith, (Reach-Inv fresh r).sound i lt)

-- So many steps of one worker.
unfoldable pub steps : ℕ → Bool → Worker → Worker
steps zero exit_all w = w
steps (suc n) exit_all w = steps n exit_all (worker_step exit_all w)

steps_add :
    (m n : ℕ) (exit_all : Bool) (w : Worker)
    → steps (m + n) exit_all w ≡ steps n exit_all (steps m exit_all w)
unfolding steps
steps_add zero n exit_all w = let e : 0 + n ≡ n = omega arith in ap (λ k. steps k exit_all w) e
steps_add (suc m) n exit_all w =
    let e : suc m + n ≡ suc (m + n) = omega arith in
    ap (λ k. steps k exit_all w) e ∙ steps_add m n exit_all (worker_step exit_all w)

busy_one :
    (n k r : ℕ) (w : Worker)
    → get_elem? w.requests k ≡ some r
    → k < n
    → busy_step n k (record w { pc = busy n k })
      ≡ record w { handled = w.handled ++ r ∷ []; pc = busy n (k + 1) }
unfolding busy_step
busy_one n k r w at h = ground (arith, at)

-- The loop over the requests, from the one with number `k` on.
busy_steps :
    (m n k : ℕ) (exit_all : Bool) (w : Worker)
    → k + m ≡ n
    → n ≡ length w.requests
    → steps m exit_all (record w { pc = busy n k })
      ≡ record w { handled = w.handled ++ drop k w.requests; pc = busy n n }
unfolding steps worker_step
busy_steps zero n k exit_all w e l =
    let here : k ≡ n = omega (arith, e) in
    let all = drop-length w.requests k (omega (arith, e, l)) in
    rw (all, append-nil) (ap (λ j. record w { pc = busy n j }) here)
busy_steps (suc m) n k exit_all w e l =
    let (r, at) = get_elem?-some w.requests k (omega (arith, e, l)) in
    let w' = record w { handled = w.handled ++ r ∷ [] } in
    let one : busy_step n k (record w { pc = busy n k }) ≡ record w' { pc = busy n (k + 1) } =
      busy_one n k r w at (omega (arith, e)) in
    ap (steps m exit_all) one
    ∙ busy_steps m n (k + 1) exit_all w' (omega (arith, e)) l
    ∙ ap (λ hs. record w { handled = hs; pc = busy n n })
        (append_assoc w.handled (r ∷ []) (drop (k + 1) w.requests)
          ∙ ap (λ xs. w.handled ++ xs) (sym (drop-get_elem? w.requests k r at)))

-- A worker that is about to look at its mark, is marked as runnable and has a counter between 1
-- and `batch` that is the number of its requests handles each of them in order, clears the
-- counter, marks itself as idle and is back at the loop's test, after as many of its own steps as
-- it has requests and five more.
pub worker_finishes :
    (exit_all : Bool) (w : Worker)
    → w.flag ≡ epistle_thread_runnable
    → w.num_requests ≡ length w.requests
    → 0 < w.num_requests
    → w.num_requests ≤ batch
    → steps (3 + (length w.requests + 2)) exit_all (record w { pc = look }) ≡ record w {
      flag = epistle_thread_idle;
      num_requests = 0;
      handled = w.handled ++ w.requests;
      pc = top;
    }
unfolding steps worker_step busy_step drop
worker_finishes exit_all w marked counted some_there few =
    let n = length w.requests in
    let begun : steps 3 exit_all (record w { pc = look }) ≡ record w { pc = busy n 0 } =
      ground (arith, marked, counted, few) in
    let done = busy_steps n n 0 exit_all w (omega arith) refl in
    let ended_so : steps 2 exit_all (record w { handled = w.handled ++ w.requests; pc = busy n n })
        ≡ record w {
          flag = epistle_thread_idle;
          num_requests = 0;
          handled = w.handled ++ w.requests;
          pc = top;
        } =
      ground arith in
    steps_add 3 (n + 2) exit_all (record w { pc = look })
    ∙ ap (steps (n + 2) exit_all) begun
    ∙ steps_add n 2 exit_all (record w { pc = busy n 0 })
    ∙ ap (steps 2 exit_all) done
    ∙ ended_so
