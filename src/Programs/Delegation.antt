-- ===== src/Programs/Delegation.antt =====
-- `main` of workload/task_delegation_latency_load.cpp: ten threads of CFS spin while a COS thread
-- reads the clock.
pub mod Measured
use cos_userspace.Base.{ℕ, ◌+◌, Bool, true, false, ltb, ◌==◌, if◌then◌else◌}
use cos_userspace.Thread.{CosThread, Stage, unborn, working, fresh_thread, spawn, can_join}
use cos_userspace.Programs.{cos_step, cfs_step, has_finished}

-- Where `main` stands: before round `i` of the loop that starts the threads of CFS, at the start
-- of the COS thread, at its `join`, at the store of `should_exit`, before round `i` of the loop
-- that joins the others, at its end.
pub data Point : Type 0 where
  start_cfs : ℕ → Point
  start_cos join_cos tell_exit : Point
  join_cfs : ℕ → Point
  returned : Point

pub record Program : Type 0 where
  pub main : Point
  pub t : CosThread
  pub cfs_workers : ℕ → Stage
  pub should_exit : Bool

abbrev pub fresh_program : Program
fresh_program = record {
  main = start_cfs 0;
  t = fresh_thread;
  cfs_workers = λ _. unborn;
  should_exit = false;
}

abbrev pub set_cfs : Program → ℕ → Stage → Program
set_cfs s i stage = record s { cfs_workers = λ j. if j == i then stage else s.cfs_workers j }

-- The next statement of `main`, which waits where a thread that it joins is not done.
unfoldable pub delegation_step : Program → Program
delegation_step s = elim s.main [
  | start_cfs i ↦
      if ltb i 10
      then record (set_cfs s i working) { main = start_cfs (i + 1) }
      else record s { main = start_cos }
  | start_cos ↦ record s { t = spawn s.t; main = join_cos }
  | join_cos ↦ if can_join s.t then record s { main = tell_exit } else s
  | tell_exit ↦ record s { should_exit = true; main = join_cfs 0 }
  | join_cfs i ↦
      if ltb i 10
      then (if has_finished (s.cfs_workers i) then record s { main = join_cfs (i + 1) } else s)
      else record s { main = returned }
  | returned ↦ s
]

pub data Step (tid : ℕ) (s : Program) : Program → Type 0 where
  main_runs : Step tid s (delegation_step s)
  cos_runs : Step tid s (record s { t = cos_step tid s.t })
  cfs_runs : (i : ℕ) → Step tid s (set_cfs s i (cfs_step s.should_exit (s.cfs_workers i)))

pub data Reach (tid : ℕ) : Program → Type 0 where
  here : Reach tid fresh_program
  next : {s t : Program} → Reach tid s → Step tid s t → Reach tid t
