-- ===== src/Programs/SimpleTest.antt =====
-- The tests of workload/simple_exp.cpp: COS threads are started and joined.
pub mod Passed
use cos_userspace.Base.{ℕ, ◌+◌, ltb, ◌==◌, if◌then◌else◌}
use cos_userspace.Thread.{CosThread, fresh_thread, spawn, can_join}
use cos_userspace.Programs.{cos_step}

-- Where a test stands, before round `i` of its first or its second loop.
pub data Test : Type 0 where
  start_cos join_cos : ℕ → Test
  passed : Test

pub record Run : Type 0 where
  pub test : Test
  pub threads : ℕ → CosThread

abbrev pub fresh_run : Run
fresh_run = record { test = start_cos 0; threads = λ _. fresh_thread }

abbrev pub set_cos : Run → ℕ → CosThread → Run
set_cos s i t = record s { threads = λ j. if j == i then t else s.threads j }

-- `TestMany` and `TestBusy`, with `n = 5`, and `TestOne`, with `n = 1`, whose thread needs no loop.
unfoldable pub test_step : ℕ → Run → Run
test_step n s = elim s.test [
  | start_cos i ↦
      if ltb i n
      then record (set_cos s i (spawn (s.threads i))) { test = start_cos (i + 1) }
      else record s { test = join_cos 0 }
  | join_cos i ↦
      if ltb i n
      then (if can_join (s.threads i) then record s { test = join_cos (i + 1) } else s)
      else record s { test = passed }
  | passed ↦ s
]

pub data Step (n : ℕ) (tids : ℕ → ℕ) (s : Run) : Run → Type 0 where
  test_runs : Step n tids s (test_step n s)
  thread_runs : (i : ℕ) → Step n tids s (set_cos s i (cos_step (tids i) (s.threads i)))

pub data Reach (n : ℕ) (tids : ℕ → ℕ) : Run → Type 0 where
  here : Reach n tids fresh_run
  next : {s t : Run} → Reach n tids s → Step n tids s t → Reach n tids t
