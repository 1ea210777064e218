-- ===== src/Shinjuku.antt =====
-- The state and the message handlers of `ShinjukuLord` (scheduler/shinjuku/shinjuku_lord.h).
-- `cpu_num` is the number that `sysconf` gives at the start.
pub mod Invariant
pub mod Phases
pub mod Handlers
pub mod Schedule
pub mod Marks
pub mod Main
use cos_userspace.Base.{
  ℕ, zero, suc, Bool, true, false, Option, none, some, List, [], Result, ok, err, exit_failure,
  assert_failed, out_of_bounds, ◌>>=◌, ◌>>◌, require, ltb, ◌==◌, if◌then◌else◌,
}
use cos_userspace.MessageQueue.{CosMsg}
use cos_userspace.RunQueue.{enqueue, remove_from_rq}
use cos_userspace.TaskMap.{Slot, absent, null_entry, live, TaskMap, insert}
use cos_userspace.Epistle.{Table, cleared}
use cos_userspace.Lord.{Policy}

-- `enum class ShinjukuRunState`
pub data ShinjukuRunState : Type 0 where
  queued on_cpu blocked : ShinjukuRunState

-- `enum class ThreadType`
pub data ThreadType : Type 0 where
  idle cos cfs : ThreadType

-- `struct CpuState`
pub record CpuState : Type 0 where
  pub type : ThreadType
  pub pid : ℕ

abbrev pub is_cos : ThreadType → Bool
is_cos cos = true
is_cos _ = false

-- `struct ShinjukuTask`; `none` is the `cpu_id` -1 of a task that has not run.
pub record ShinjukuTask : Type 0 where
  pub last_shoot_time : ℕ
  pub state : ShinjukuRunState
  pub pid : ℕ
  pub cpu_id : Option ℕ

-- The constructor `ShinjukuTask(pid)`.
abbrev pub new_task : ℕ → ShinjukuTask
new_task pid = record { last_shoot_time = 0; state = blocked; pid = pid; cpu_id = none }

-- The fields of `ShinjukuLord` beside those of its base class, with the page that `epistle_` shows.
-- `cpu_states_` is read and written at indices below `cpu_num`, the storage that the constructor
-- reserves.
pub record Shinjuku : Type 0 where
  pub shinjuku_rq : List ℕ
  pub alive_tasks : TaskMap ShinjukuTask
  pub cpu_states : ℕ → CpuState
  pub epistle : Table

abbrev pub no_thread : CpuState
no_thread = record { type = idle; pid = 0 }

-- The constructor: every processor is idle, and the page is new.
abbrev pub init : Shinjuku
init = record {
  shinjuku_rq = [];
  alive_tasks = λ _. absent;
  cpu_states = λ _. no_thread;
  epistle = cleared;
}

abbrev pub write_cpu : (ℕ → CpuState) → ℕ → CpuState → ℕ → CpuState
write_cpu cpus c s i = if i == c then s else cpus i

abbrev pub set_state : Shinjuku → ℕ → ShinjukuTask → ShinjukuRunState → Shinjuku
set_state f tid task s = record f {
  alive_tasks = insert f.alive_tasks tid (live (record task { state = s }));
}

-- `shinjuku_rq_.enqueue(tid); task->state = ShinjukuRunState::Queued;`
unfoldable pub put_back : Shinjuku → ℕ → ShinjukuTask → Shinjuku
put_back f tid task =
    set_state (record f { shinjuku_rq = enqueue f.shinjuku_rq tid }) tid task queued

module _ (cpu_num : ℕ) where
  -- An index into `cpu_states_`.
  abbrev pub cpu_index : Option ℕ → Result ℕ
  cpu_index none = err out_of_bounds
  cpu_index (some c) = if ltb c cpu_num then ok c else err out_of_bounds

  -- The type becomes IDLE and the pid 0.
  unfoldable pub free_cpu : Shinjuku → ShinjukuTask → Result Shinjuku
  free_cpu f task = cpu_index task.cpu_id >>= λ c.
      ok (record f { cpu_states = write_cpu f.cpu_states c no_thread })

  -- `cpu_states_[task->cpu_id].type = ThreadType::CFS;`
  unfoldable pub give_to_cfs : Shinjuku → ShinjukuTask → Result Shinjuku
  give_to_cfs f task = cpu_index task.cpu_id >>= λ c. ok (record f {
    cpu_states = write_cpu f.cpu_states c (record { type = cfs; pid = (f.cpu_states c).pid });
  })

  -- The lines that `blocked` and `dead` share: a queued task leaves the queue, a running one frees
  -- its processor.
  unfoldable pub take_off : Shinjuku → ℕ → ShinjukuTask → Result Shinjuku
  take_off f tid task = elim task.state [
    | queued ↦ remove_from_rq f.shinjuku_rq tid >>= λ rq. ok (record f { shinjuku_rq = rq })
    | on_cpu ↦ free_cpu f task
    | blocked ↦ ok f
  ]

  unfoldable pub consume_msg_task_runnable : Shinjuku → CosMsg → Result Shinjuku
  consume_msg_task_runnable f msg = elim (f.alive_tasks msg.pid) [
    | absent ↦ ok f
    | null_entry ↦ err exit_failure
    | live task ↦ elim task.state [ queued ↦ ok f | _ ↦ ok (put_back f msg.pid task) ]
  ]

  unfoldable pub consume_msg_task_blocked : Shinjuku → CosMsg → Result Shinjuku
  consume_msg_task_blocked f msg = elim (f.alive_tasks msg.pid) [
    | absent ↦ ok f
    | null_entry ↦ err exit_failure
    | live task ↦ take_off f msg.pid task >>= λ f'. ok (set_state f' msg.pid task blocked)
  ]

  unfoldable pub consume_msg_task_new : Shinjuku → CosMsg → Result Shinjuku
  consume_msg_task_new f msg = elim (f.alive_tasks msg.pid) [
    | absent ↦ ok (put_back f msg.pid (new_task msg.pid))
    | _ ↦ err exit_failure
  ]

  unfoldable pub consume_msg_task_new_blocked : Shinjuku → CosMsg → Result Shinjuku
  consume_msg_task_new_blocked f msg = elim (f.alive_tasks msg.pid) [
    | absent ↦
        ok (record f { alive_tasks = insert f.alive_tasks msg.pid (live (new_task msg.pid)) })
    | _ ↦ err exit_failure
  ]

  unfoldable pub consume_msg_task_dead : Shinjuku → CosMsg → Result Shinjuku
  consume_msg_task_dead f msg = elim (f.alive_tasks msg.pid) [
    | absent ↦ err exit_failure
    | null_entry ↦ err exit_failure
    | live task ↦ take_off f msg.pid task >>= λ f'.
        ok (record f' { alive_tasks = insert f'.alive_tasks msg.pid absent })
  ]

  -- The task was preempted by a task of CFS.
  unfoldable pub consume_msg_task_preempt : Shinjuku → CosMsg → Result Shinjuku
  consume_msg_task_preempt f msg = elim (f.alive_tasks msg.pid) [
    | absent ↦ err exit_failure
    | null_entry ↦ err exit_failure
    | live task ↦ elim task.state [
      | blocked ↦ err assert_failed
      | queued ↦ ok f
      | on_cpu ↦ give_to_cfs (put_back f msg.pid task) task
    ]
  ]

  -- The task was preempted in favour of another COS task.
  unfoldable pub consume_msg_task_preempt_cos : Shinjuku → CosMsg → Result Shinjuku
  consume_msg_task_preempt_cos f msg = elim (f.alive_tasks msg.pid) [
    | absent ↦ err exit_failure
    | null_entry ↦ err exit_failure
    | live task ↦ elim task.state [
      | blocked ↦ err assert_failed
      | queued ↦ ok f
      | on_cpu ↦ do
        c ← cpu_index task.cpu_id
        require (is_cos (f.cpu_states c).type) assert_failed
        ok (put_back f msg.pid task)
    ]
  ]

  abbrev pub shinjuku_policy : Policy Shinjuku
  shinjuku_policy = record {
    runnable = consume_msg_task_runnable;
    blocked = consume_msg_task_blocked;
    create = consume_msg_task_new;
    create_blocked = consume_msg_task_new_blocked;
    dead = consume_msg_task_dead;
    preempt = consume_msg_task_preempt;
    preempt_cos = consume_msg_task_preempt_cos;
  }
