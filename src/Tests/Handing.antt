-- ===== src/Tests/Handing.antt =====
-- One worker and the generator of the benchmark, step by step.
use cos_userspace.Base.{ℕ, zero, suc, ◌<◌, ◌≡◌, ◌≢◌, refl, Bool, true, false, [], ◌∷◌, arith}
use cos_userspace.Epistle.{epistle_thread_runnable, epistle_thread_idle}
use cos_userspace.Rocksdb.Handover.{
  start, look, top, failed, Worker, aborted, State, init, busy_step, worker_step, publish_step,
  set_worker, generator_step, work, generate, release, Reach, here, next,
}
use cos_userspace.Rocksdb.Handover.Protocol.{is_parked}
use cos_userspace.Rocksdb.Handover.Once.{Once, Reach-Once}
use cos_userspace.Rocksdb.Handover.Safety.{Reach-runs, Reach-exclusive, steps, worker_finishes}
use cos_userspace.Rocksdb.Handover.Leftover.{leftover_aborts}

-- A page on which nothing is left over.
abbrev clean : ℕ → ℕ
clean i = epistle_thread_runnable

abbrev Place : Type 0
Place = (s : State) × Reach 1 clean s

abbrev worked : Place → Place
worked p =
    (set_worker p.0 0 (worker_step p.0.exit_all (p.0.workers 0)), next p.1 (work 0 (omega arith)))

abbrev generated : Bool → Place → Place
generated arrived p = (generator_step 1 arrived p.0, next p.1 (generate arrived))

abbrev named : Place
named = worked (init clean, here)

named_told : (i : ℕ) → i < 1 → (named.0.workers i).pc ≢ start
unfolding worker_step
named_told zero h = cc
named_told (suc i) h = absurd (omega (arith, h))

-- The worker waits, and the generator fills a batch for it that has one request.
abbrev filled : Place
filled = generated true (
    generated false (
      generated false (
        generated false (
          generated false (
            worked
              (record named.0 { generator_lock = true }, next named.1 (release named_told)))))))

Reach-exclusive_example :
    ((filled.0.workers 0).flag ≡ epistle_thread_idle)
    × ((filled.0.workers 0).num_requests ≡ 0)
    × (is_parked (filled.0.workers 0).pc ≡ true)
unfolding worker_step generator_step publish_step busy_step
Reach-exclusive_example = Reach-exclusive (λ i lt. refl) filled.1 0 (omega arith) refl

-- The worker has handled the request.
abbrev handled : Place
handled = worked (
    worked (
      worked (
        worked
          (worked (generated false (generated false (generated false (generated false filled))))))))

handled_one : (handled.0.workers 0).handled ≡ 0 ∷ []
unfolding worker_step generator_step publish_step busy_step
handled_one = refl

Reach-runs_example :
    (handled.0.generator ≢ aborted) × ((i : ℕ) → i < 1 → (handled.0.workers i).pc ≢ failed)
Reach-runs_example = Reach-runs (λ i lt. refl) handled.1

Reach-Once_example : Once 1 handled.0
Reach-Once_example = Reach-Once (λ i lt. refl) handled.1

-- Three workers, for each of which the page still says that it is idle.
abbrev stale : ℕ → ℕ
stale i = epistle_thread_idle

leftover_aborts_example : (s : State) × Reach 3 stale s × (s.generator ≡ aborted)
leftover_aborts_example = leftover_aborts stale 3 (omega arith) refl

abbrev given : Worker
given = record {
  flag = epistle_thread_runnable;
  num_requests = 2;
  requests = 4 ∷ 5 ∷ [];
  handled = 3 ∷ [];
  pc = look;
}

worker_finishes_example : steps 7 true given ≡ record given {
  flag = epistle_thread_idle;
  num_requests = 0;
  handled = 3 ∷ 4 ∷ 5 ∷ [];
  pc = top;
}
worker_finishes_example = worker_finishes true given refl refl (omega arith) (omega arith)
