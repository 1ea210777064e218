-- ===== src/Tests/Measuring.antt =====
-- The program of task_delegation_latency_load.cpp, until one of its loads has ended, and a test.
use cos_userspace.Base.{◌≡◌, refl}
use cos_userspace.Thread.{finished, thread_step}
use cos_userspace.Programs.{cos_step, cfs_step}
use cos_userspace.Programs.Delegation.{
  Program, join_cfs, fresh_program, set_cfs, delegation_step, main_runs, cos_runs, cfs_runs, Reach,
  here, next,
}
use cos_userspace.Programs.Delegation.Measured.{Ordered, Reach-Ordered}
use cos_userspace.Programs.SimpleTest.{passed, fresh_run, set_cos, test_step}

abbrev Place : Type 0
Place = (s : Program) × Reach 7 s

abbrev acted : Place → Place
acted p = (delegation_step p.0, next p.1 main_runs)

abbrev measured : Place → Place
measured p = (record p.0 { t = cos_step 7 p.0.t }, next p.1 cos_runs)

abbrev loaded : Place → Place
loaded p = (set_cfs p.0 0 (cfs_step p.0.should_exit (p.0.cfs_workers 0)), next p.1 (cfs_runs 0))

-- All threads are started, and the measured one is done.
abbrev under_way : Place
under_way =
    let started = acted (acted (acted (acted (acted (acted (fresh_program, here)))))) in
    let all = acted (acted (acted (acted (acted (acted started))))) in
    measured (measured (measured all))

-- The COS thread is joined, the others are told to end, and one of them has ended and is joined.
abbrev one_ended : Place
one_ended = acted (loaded (acted (acted under_way)))

one_ended_there : one_ended.0.cfs_workers 0 ≡ finished
unfolding delegation_step cos_step cfs_step thread_step
one_ended_there = refl

one_joined : one_ended.0.main ≡ join_cfs 1
unfolding delegation_step cos_step cfs_step thread_step
one_joined = refl

Reach-Ordered_example : Ordered one_ended.0
Reach-Ordered_example = Reach-Ordered one_ended.1

-- `TestOne` passes when its thread has run.
test_one_passes :
    let started = test_step 1 (test_step 1 fresh_run) in
    let ran = set_cos started 0 (cos_step 7 (cos_step 7 (cos_step 7 (started.threads 0)))) in
    (test_step 1 (test_step 1 ran)).test ≡ passed
unfolding test_step cos_step thread_step
test_one_passes = refl
