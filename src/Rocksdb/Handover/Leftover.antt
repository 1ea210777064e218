-- ===== src/Rocksdb/Handover/Leftover.antt =====
-- A page on which an earlier run has left that worker 0 is idle, as `main` of workload/rocksdb.cpp
-- opens the page without clearing it.
use cos_userspace.Base.{
  ℕ, zero, suc, ◌<◌, ◌≤◌, ◌≡◌, refl, subst, Bool, true, false, [], arith, ltb, if◌then◌else◌,
  fun_ext,
}
use cos_userspace.Epistle.{epistle_thread_idle}
use cos_userspace.Rocksdb.Handover.{
  start, named, Worker, visit, check, aborted, State, init, set_worker, go_on, worker_step,
  publish_step, generator_step, work, generate, release, Reach, here, next,
}
use cos_userspace.Rocksdb.Handover.Protocol.{worker_at}

module _ (flags : ℕ → ℕ) where
  -- The workers below `k` have told that they are there.
  abbrev told : ℕ → ℕ → Worker
  told k j = worker_at (if ltb j k then named else start) (flags j) 0 [] []

  abbrev begun : ℕ → State
  begun k = record (init flags) { workers = told k }

  told_one :
      (k j : ℕ) → (set_worker (begun k) k (worker_step false (told k k))).workers j ≡ told (suc k) j
  unfolding worker_step
  told_one k j = ground arith

  told_some : (n k : ℕ) → k ≤ n → Reach n flags (begun k)
  told_some n zero h =
      subst (λ ws. Reach n flags (record (init flags) { workers = ws }))
        (fun_ext (λ j. ground arith)) here
  told_some n (suc k) h =
      subst (λ ws. Reach n flags (record (init flags) { workers = ws })) (fun_ext (told_one k))
        (next (told_some n k (omega (arith, h))) (work k (omega (arith, h))))

  abbrev ready : ℕ → State
  ready n = record (begun n) { generator_lock = true }

  all_ready : (n : ℕ) → Reach n flags (ready n)
  all_ready n = next (told_some n n (omega arith)) (release (λ i lt. ground arith))

  -- Worker 0 is `w`, and the others are those of `ws`.
  abbrev spread : Worker → (ℕ → Worker) → ℕ → Worker
  spread w ws zero = w
  spread w ws (suc j) = ws j

  abbrev late : Worker
  late = worker_at named epistle_thread_idle 0 [] []

  abbrev place : (ℕ → Worker) → State
  place ws = record (begun 0) { workers = ws; generator_lock = true }

  spread_one :
      (n j : ℕ)
      → flags 0 ≡ epistle_thread_idle
      → 0 < n
      → told n j ≡ spread late (λ k. told n (suc k)) j
  spread_one n zero e h = ground (arith, e)
  spread_one n (suc j) e h = refl

  begun_late :
      (n : ℕ)
      → flags 0 ≡ epistle_thread_idle
      → 0 < n
      → Reach n flags (place (spread late (λ k. told n (suc k))))
  begun_late n e h =
      subst (λ ws. Reach n flags (place ws)) (fun_ext (λ j. spread_one n j e h)) (all_ready n)

  abbrev Place : ℕ → Type 0
  Place n = (s : State) × Reach n flags s

  abbrev worked : (n i : ℕ) → i < n → Place n → Place n
  worked n i lt p =
      (set_worker p.0 i (worker_step p.0.exit_all (p.0.workers i)), next p.1 (work i lt))

  abbrev generated : (n : ℕ) → Bool → Place n → Place n
  generated n arrived p = (generator_step n arrived p.0, next p.1 (generate arrived))

  abbrev quiet : (n : ℕ) → Place n → Place n
  quiet n p = generated n false p

  -- A visit of the generator to a worker with the mark of an idle one.
  visit_step :
      (n i : ℕ) (s : State)
      → s.generator ≡ visit i
      → i < n
      → (s.workers i).flag ≡ epistle_thread_idle
      → generator_step n false s ≡ go_on s (check i)
  unfolding generator_step
  visit_step n i s g lt e = ground (arith, g, lt, e)

  abbrev visited :
      (n i : ℕ) (p : Place n)
      → p.0.generator ≡ visit i
      → i < n
      → (p.0.workers i).flag ≡ epistle_thread_idle
      → Place n
  visited n i p g lt e = (
    go_on p.0 (check i),
    subst (Reach n flags) (visit_step n i p.0 g lt e) (next p.1 (generate false)),
  )

  -- From the test of the counter of worker 0 on: a batch of one request, and its mark.
  abbrev filled : (n : ℕ) → Place n → Place n
  filled n p = quiet n (quiet n (quiet n (generated n true (quiet n p))))

  -- One worker.
  lone_aborts :
      flags 0 ≡ epistle_thread_idle → (s : State) × Reach 1 flags s × (s.generator ≡ aborted)
  unfolding worker_step generator_step publish_step
  lone_aborts e =
      let p : Place 1 = (place (spread late (λ k. told 1 (suc k))), begun_late 1 e (omega arith)) in
      let first = visited 1 0 (quiet 1 (quiet 1 p)) refl (omega arith) refl in
      let back = quiet 1 (quiet 1 (worked 1 0 (omega arith) (quiet 1 (filled 1 first)))) in
      let again = quiet 1 (visited 1 0 back refl (omega arith) refl) in (again.0, again.1, refl)

  -- The workers from 1 on.
  abbrev seconds : ℕ → ℕ → Worker
  seconds n = spread (worker_at named (flags 1) 0 [] []) (λ k. told (suc (suc n)) (suc (suc k)))

  spread_two : (n j : ℕ) → told (suc (suc n)) (suc j) ≡ seconds n j
  spread_two n zero = ground arith
  spread_two n (suc j) = refl

  two_named :
      (n : ℕ)
      → flags 0 ≡ epistle_thread_idle
      → Reach (suc (suc n)) flags (place (spread late (seconds n)))
  two_named n e =
      subst (λ ws. Reach (suc (suc n)) flags (place (spread late ws)))
        (fun_ext (λ j. spread_two n j)) (begun_late (suc (suc n)) e (omega arith))

  -- Two workers or more: worker 1 waits, the generator finds nothing for it and starts anew.
  more_abort :
      (n : ℕ)
      → flags 0 ≡ epistle_thread_idle
      → (s : State) × Reach (suc (suc n)) flags s × (s.generator ≡ aborted)
  unfolding worker_step generator_step publish_step
  more_abort n e =
      let m = suc (suc n) in
      let p = worked m 1 (omega arith) (place (spread late (seconds n)), two_named n e) in
      let first = visited m 0 (quiet m (quiet m p)) refl (omega arith) refl in
      let marked = worked m 0 (omega arith) (quiet m (filled m first)) in
      let second = visited m 1 marked refl (omega arith) refl in
      let back = quiet m (quiet m (quiet m (quiet m second))) in
      let again = quiet m (visited m 0 back refl (omega arith) refl) in (again.0, again.1, refl)

  -- With one worker or more and a page that says idle for worker 0 when the program starts, some
  -- steps of the workers, the generator and `main` lead to a state in which the generator has
  -- aborted: an assertion of `LoadGenerator` has failed.
  pub leftover_aborts :
      (n : ℕ)
      → 0 < n
      → flags 0 ≡ epistle_thread_idle
      → (s : State) × Reach n flags s × (s.generator ≡ aborted)
  leftover_aborts zero h e = absurd (omega (arith, h))
  leftover_aborts (suc zero) h e = lone_aborts e
  leftover_aborts (suc (suc n)) h e = more_abort n e
