-- ===== src/Tests/Starting.antt =====
-- The start of the benchmark with one worker, up to its first batch.
use cos_userspace.Base.{ℕ, ◌+◌, arith, ◌≡◌, refl}
use cos_userspace.Thread.{thread_step}
use cos_userspace.Rocksdb.Lifecycle.{
  Process, init, main_step, worker_goes, generator_goes, give, Reach, here, next, main_goes, works,
  generates, visit, work_step, set_up_worker, visit_step,
}
use cos_userspace.Rocksdb.Lifecycle.Orderly.{Orderly, Reach-Orderly}

-- Worker 0 has the number 7.
abbrev seven : ℕ → ℕ
seven i = i + 7

abbrev main_does : Process → Process
main_does = main_step 1

abbrev worker_does : Process → Process
worker_does s = record s { shared = worker_goes (seven 0) s.exit_all s.shared 0 }

abbrev generator_does : Process → Process
generator_does = generator_goes 1 give

-- Main has started both threads and waits; the worker tells that it is there.
abbrev told : Process
told = worker_does (worker_does (worker_does (main_does (main_does (main_does (main_does init))))))

-- Main sets the worker up and lets the generator go, which gives the worker a batch.
abbrev served : Process
served =
    generator_does
      (generator_does (generator_does (main_does (main_does (main_does (main_does told))))))

told-Reach : Reach 1 seven told
told-Reach =
    next
      (next
        (next (next (next (next (next here main_goes) main_goes) main_goes) main_goes)
          (works 0 (omega arith)))
        (works 0 (omega arith)))
      (works 0 (omega arith))

served-Reach : Reach 1 seven served
served-Reach =
    next
      (next
        (next (next (next (next (next told-Reach main_goes) main_goes) main_goes) main_goes)
          (generates give))
        (generates give))
      (generates give)

-- The run goes where it should.
served_there : served.generator ≡ visit 1
unfolding main_step worker_goes generator_goes thread_step work_step set_up_worker visit_step
served_there = refl

Reach-Orderly_example : Orderly 1 seven served
Reach-Orderly_example = Reach-Orderly 1 seven served served-Reach
