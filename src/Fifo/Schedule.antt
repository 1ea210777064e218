-- ===== src/Fifo/Schedule.antt =====
-- `FifoLord::schedule` (scheduler/fifo/fifo_lord.h). `shoot_task`, the system call, is a parameter:
-- from the mask and the page it makes the call's result and the page as the kernel leaves it. The
-- time stamp that the method prints is left out.
pub mod Plan
pub mod Assign
pub mod Revert
pub mod Answer
pub mod Round
use cos_userspace.Base.{
  ℕ, zero, suc, ◌+◌, ◌≡◌, Bool, true, false, Option, none, some, List, [], ◌∷◌, ◌++◌, Result, ok,
  err, exit_failure, out_of_bounds, ◌>>=◌, ◌>>◌, require, ltb, ◌==◌, if◌then◌else◌, ◌||◌,
}
use cos_userspace.RunQueue.{enqueue, dequeue, peek}
use cos_userspace.TaskMap.{Slot, absent, null_entry, live, TaskMap, insert, deref, is_there}
use cos_userspace.ShootArea.{CosShootArg, ShootArea, commit_shoot_message, check_shoot_state}
use cos_userspace.Lord.{Lord}
use cos_userspace.Fifo.{
  queued, on_cpu, CpuState, cos, is_cos, FifoTask, Fifo, write_cpu, set_state, put_back,
}

-- `cpu_set_t`: `CPU_ZERO` and `CPU_SET`.
abbrev pub CpuSet : Type 0
CpuSet = ℕ → Bool

abbrev pub cpu_zero : CpuSet
cpu_zero _ = false

abbrev pub cpu_set : CpuSet → ℕ → CpuSet
cpu_set mask c i = if i == c then true else mask i

-- `shoot_task`: not 0 is a failure of the call.
abbrev pub ShootTask : Type 0
ShootTask = CpuSet → ShootArea → ℕ × ShootArea

-- The local variables of `schedule` beside the scheduler's state.
pub record Batch : Type 0 where
  pub old_cpu_states : List (ℕ × CpuState)
  pub assigned : List (ℕ × CosShootArg)
  pub assigned_mask : CpuSet
  pub state : Fifo

abbrev pub first_batch : Fifo → Batch
first_batch f = record { old_cpu_states = []; assigned = []; assigned_mask = cpu_zero; state = f }

-- The body of the loop from the assignment to `next` on. `cpu_states_[cpu]` is saved after it is
-- overwritten, as the code does it.
unfoldable pub place : Batch → ℕ → ℕ → FifoTask → Batch
place b cpu tid next =
    let f = b.state in
    let cpus = write_cpu f.cpu_states cpu cos in
    record {
      old_cpu_states = b.old_cpu_states ++ (cpu, cpus cpu) ∷ [];
      assigned = b.assigned ++ (cpu, record { pid = next.pid; info = 0 }) ∷ [];
      assigned_mask = cpu_set b.assigned_mask cpu;
      state = record {
        fifo_rq = dequeue f.fifo_rq;
        alive_tasks =
            insert f.alive_tasks tid (live (record next { state = on_cpu; cpu_id = some cpu }));
        cpu_states = cpus;
      };
    }

-- The task of that number is looked up; the process exits where the map has none.
unfoldable pub pick : Batch → ℕ → ℕ → Result Batch
pick b cpu tid =
    let slot = b.state.alive_tasks tid in
    require (is_there slot) exit_failure >> (deref slot >>= λ next. ok (place b cpu tid next))

module _ (lord_cpu : ℕ) where
  -- The processors that the loop passes over.
  abbrev pub skips : Batch → ℕ → Bool
  skips b cpu = cpu == lord_cpu || is_cos (b.state.cpu_states cpu)

  -- The rounds of `for (int cpu = 0; cpu < cpu_num; cpu ++)` that are left, from `cpu` on.
  unfoldable pub assign_loop : ℕ → ℕ → Batch → Result Batch
  assign_loop zero cpu b = ok b
  assign_loop (suc n) cpu b = elim (skips b cpu) [
    | true ↦ assign_loop n (cpu + 1) b
    | false ↦
        let tid = peek b.state.fifo_rq in
        elim (tid == 0) [ true ↦ ok b | false ↦ pick b cpu tid >>= assign_loop n (cpu + 1) ]
  ]

-- `fifo_rq_.enqueue(pid); task = alive_tasks_[pid]; task->state = FifoRunState::Queued;`
unfoldable pub requeue : Fifo → ℕ → Result Fifo
requeue f pid = deref (f.alive_tasks pid) >>= λ task. ok (put_back f pid task)

-- After a call that failed: all the tasks, in order.
unfoldable pub requeue_all : List (ℕ × CosShootArg) → Fifo → Result Fifo
requeue_all [] f = ok f
requeue_all ((cpu, arg) ∷ args) f = requeue f arg.pid >>= requeue_all args

-- After a call that failed: all the saved processor states, in order.
unfoldable pub restore_all : List (ℕ × CpuState) → Fifo → Fifo
restore_all [] f = f
restore_all ((cpu, s) ∷ olds) f =
    restore_all olds (record f { cpu_states = write_cpu f.cpu_states cpu s })

-- The first saved state of that processor is put back.
unfoldable pub restore_one : List (ℕ × CpuState) → ℕ → Fifo → Fifo
restore_one [] c f = f
restore_one ((cpu, s) ∷ olds) c f =
    if cpu == c then record f { cpu_states = write_cpu f.cpu_states c s } else restore_one olds c f

-- After a call that came back: the processors that the kernel reports.
unfoldable pub revert_failed : List (ℕ × ℕ) → List (ℕ × CpuState) → Fifo → Result Fifo
revert_failed [] olds f = ok f
revert_failed ((cpu, pid) ∷ fail) olds f =
    requeue f pid >>= λ f'. revert_failed fail olds (restore_one olds cpu f')

module _ (cpu_num : ℕ) (shoot_task : ShootTask) where
  -- What follows the commit.
  unfoldable pub shoot : Batch → Lord Fifo → ShootArea → Result (Lord Fifo)
  shoot b l sa =
      let (shoot_err, answer) = shoot_task b.assigned_mask sa in
      if shoot_err == 0
      then (check_shoot_state cpu_num answer >>= λ checked.
          revert_failed checked.0 b.old_cpu_states b.state >>= λ f.
          ok (record l { sa = checked.1; policy = f }))
      else (requeue_all b.assigned b.state >>= λ f.
          ok (record l { sa = answer; policy = restore_all b.old_cpu_states f }))

  -- `if (assigned.empty()) return;`, and else the commit and the call.
  unfoldable pub send : Lord Fifo → Batch → List (ℕ × CosShootArg) → Result (Lord Fifo)
  send l b [] = ok (record l { policy = b.state })
  send l b (e ∷ args) = commit_shoot_message (e ∷ args) l.seq l.sa >>= shoot b l

  unfoldable pub schedule : Lord Fifo → Result (Lord Fifo)
  schedule l = assign_loop l.lord_cpu cpu_num 0 (first_batch l.policy) >>= λ b. send l b b.assigned
