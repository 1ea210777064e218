-- ===== src/Programs.antt =====
-- The small programs of workload/: the tests of simple_exp.cpp and task_delegation_latency_load.cpp.
-- Each starts threads, waits for them, and tells some to end. The work of a COS thread there (to
-- sleep, print, read the clock or spin) is a step that ends it, and a thread of CFS runs until it
-- sees `should_exit`.
pub mod Delegation
pub mod SimpleTest
use cos_userspace.Base.{ℕ, ◌≡◌, arith, Bool, true, false, if◌then◌else◌}
use cos_userspace.Thread.{CosThread, Stage, working, finished, thread_step}

-- A step of a COS thread, whose number is `tid`; when it is at its work, the step ends it.
unfoldable pub cos_step : ℕ → CosThread → CosThread
cos_step tid t = elim t.stage [ working ↦ record t { stage = finished } | _ ↦ thread_step tid t ]

-- `while (!should_exit)`
unfoldable pub cfs_step : Bool → Stage → Stage
cfs_step should_exit working = if should_exit then finished else working
cfs_step should_exit t = t

abbrev pub has_finished : Stage → Bool
has_finished finished = true
has_finished _ = false

pub cos_step-finished :
    (tid : ℕ) (t : CosThread) → t.stage ≡ finished → (cos_step tid t).stage ≡ finished
unfolding cos_step thread_step
cos_step-finished tid t e = ground (arith, e)
