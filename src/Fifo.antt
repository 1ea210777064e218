-- ===== src/Fifo.antt =====
-- The state and the message handlers of `FifoLord` (scheduler/fifo/fifo_lord.h). `cpu_num` is the
-- number that `sysconf` gives at the start.
pub mod Invariant
pub mod Phases
pub mod Handlers
pub mod Schedule
pub mod Main
pub mod Leak
pub mod Conserving
use cos_userspace.Base.{
  ℕ, zero, suc, ◌≡◌, Bool, true, false, not, Option, none, some, List, [], Result, ok, err,
  exit_failure, assert_failed, out_of_bounds, ◌>>=◌, ◌>>◌, require, ltb, ◌==◌, if◌then◌else◌,
}
use cos_userspace.MessageQueue.{CosMsg}
use cos_userspace.RunQueue.{enqueue, remove_from_rq}
use cos_userspace.TaskMap.{Slot, absent, null_entry, live, TaskMap, insert}
use cos_userspace.Lord.{Policy}

-- `enum class FifoRunState`
pub data FifoRunState : Type 0 where
  queued on_cpu blocked : FifoRunState

-- `enum class CpuState`
pub data CpuState : Type 0 where
  idle cos nocos : CpuState

abbrev pub is_cos : CpuState → Bool
is_cos cos = true
is_cos _ = false

-- `struct FifoTask`; `none` is the `cpu_id` -1 of a task that has not run.
pub record FifoTask : Type 0 where
  pub state : FifoRunState
  pub pid : ℕ
  pub cpu_id : Option ℕ

-- The constructor `FifoTask(pid)`.
abbrev pub new_task : ℕ → FifoTask
new_task pid = record { state = blocked; pid = pid; cpu_id = none }

-- The fields of `FifoLord` beside those of its base class. `cpu_states_` is read and written at
-- indices below `cpu_num`, the storage that the constructor reserves.
pub record Fifo : Type 0 where
  pub fifo_rq : List ℕ
  pub alive_tasks : TaskMap FifoTask
  pub cpu_states : ℕ → CpuState

-- The constructor: every processor is idle.
abbrev pub init : Fifo
init = record { fifo_rq = []; alive_tasks = λ _. absent; cpu_states = λ _. idle }

abbrev pub write_cpu : (ℕ → CpuState) → ℕ → CpuState → ℕ → CpuState
write_cpu cpus c s i = if i == c then s else cpus i

abbrev pub set_state : Fifo → ℕ → FifoTask → FifoRunState → Fifo
set_state f tid task s = record f {
  alive_tasks = insert f.alive_tasks tid (live (record task { state = s }));
}

-- `fifo_rq_.enqueue(tid); task->state = FifoRunState::Queued;`
unfoldable pub put_back : Fifo → ℕ → FifoTask → Fifo
put_back f tid task = set_state (record f { fifo_rq = enqueue f.fifo_rq tid }) tid task queued

module _ (cpu_num : ℕ) where
  -- An index into `cpu_states_`.
  abbrev pub cpu_index : Option ℕ → Result ℕ
  cpu_index none = err out_of_bounds
  cpu_index (some c) = if ltb c cpu_num then ok c else err out_of_bounds

  -- `cpu_states_[task->cpu_id] = s`
  unfoldable pub set_cpu : Fifo → FifoTask → CpuState → Result Fifo
  set_cpu f task s =
      cpu_index task.cpu_id >>= λ c. ok (record f { cpu_states = write_cpu f.cpu_states c s })

  -- The lines that `blocked` and `dead` share: a queued task leaves the queue, a running one frees
  -- its processor.
  unfoldable pub take_off : Fifo → ℕ → FifoTask → Result Fifo
  take_off f tid task = elim task.state [
    | queued ↦ remove_from_rq f.fifo_rq tid >>= λ rq. ok (record f { fifo_rq = rq })
    | on_cpu ↦ set_cpu f task idle
    | blocked ↦ ok f
  ]

  unfoldable pub consume_msg_task_runnable : Fifo → CosMsg → Result Fifo
  consume_msg_task_runnable f msg = elim (f.alive_tasks msg.pid) [
    | absent ↦ ok f
    | null_entry ↦ err exit_failure
    | live task ↦ elim task.state [ queued ↦ ok f | _ ↦ ok (put_back f msg.pid task) ]
  ]

  unfoldable pub consume_msg_task_blocked : Fifo → CosMsg → Result Fifo
  consume_msg_task_blocked f msg = elim (f.alive_tasks msg.pid) [
    | absent ↦ ok f
    | null_entry ↦ err exit_failure
    | live task ↦ take_off f msg.pid task >>= λ f'. ok (set_state f' msg.pid task blocked)
  ]

  unfoldable pub consume_msg_task_new : Fifo → CosMsg → Result Fifo
  consume_msg_task_new f msg = elim (f.alive_tasks msg.pid) [
    | absent ↦ ok (put_back f msg.pid (new_task msg.pid))
    | _ ↦ err exit_failure
  ]

  unfoldable pub consume_msg_task_new_blocked : Fifo → CosMsg → Result Fifo
  consume_msg_task_new_blocked f msg = elim (f.alive_tasks msg.pid) [
    | absent ↦
        ok (record f { alive_tasks = insert f.alive_tasks msg.pid (live (new_task msg.pid)) })
    | _ ↦ err exit_failure
  ]

  unfoldable pub consume_msg_task_dead : Fifo → CosMsg → Result Fifo
  consume_msg_task_dead f msg = elim (f.alive_tasks msg.pid) [
    | absent ↦ err exit_failure
    | null_entry ↦ err exit_failure
    | live task ↦ take_off f msg.pid task >>= λ f'.
        ok (record f' { alive_tasks = insert f'.alive_tasks msg.pid absent })
  ]

  -- The task was preempted in favour of another COS task.
  unfoldable pub consume_msg_task_preempt_cos : Fifo → CosMsg → Result Fifo
  consume_msg_task_preempt_cos f msg = elim (f.alive_tasks msg.pid) [
    | absent ↦ err exit_failure
    | null_entry ↦ err exit_failure
    | live task ↦ elim task.state [
      | blocked ↦ err assert_failed
      | queued ↦ ok f
      | on_cpu ↦ do
        c ← cpu_index task.cpu_id
        require (is_cos (f.cpu_states c)) assert_failed
        ok (put_back f msg.pid task)
    ]
  ]

  -- The task was preempted by a task of CFS.
  unfoldable pub consume_msg_task_preempt : Fifo → CosMsg → Result Fifo
  consume_msg_task_preempt f msg = elim (f.alive_tasks msg.pid) [
    | absent ↦ err exit_failure
    | null_entry ↦ err exit_failure
    | live task ↦ elim task.state [
      | blocked ↦ err assert_failed
      | queued ↦ ok f
      | on_cpu ↦ set_cpu (put_back f msg.pid task) task nocos
    ]
  ]

  abbrev pub fifo_policy : Policy Fifo
  fifo_policy = record {
    runnable = consume_msg_task_runnable;
    blocked = consume_msg_task_blocked;
    create = consume_msg_task_new;
    create_blocked = consume_msg_task_new_blocked;
    dead = consume_msg_task_dead;
    preempt = consume_msg_task_preempt;
    preempt_cos = consume_msg_task_preempt_cos;
  }
