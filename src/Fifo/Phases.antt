-- ===== src/Fifo/Phases.antt =====
-- The abstract account of one task of the FIFO scheduler: which messages are taken in which phase
-- of the task, and what becomes of the task, the queue, the processors and the other tasks.
use cos_userspace.Base.{
  ℕ, ◌≡◌, ◌≢◌, Bool, true, false, Option, none, some, List, [], ◌∷◌, ◌++◌, Result, err, Fault, ◌==◌,
  if◌then◌else◌, Returns,
}
use cos_userspace.RunQueue.Order.{without}
use cos_userspace.TaskMap.{Slot, live}
use cos_userspace.Lord.{
  msg_task_runnable, msg_task_blocked, msg_task_new, msg_task_dead, msg_task_preempt,
  msg_task_new_blocked, msg_task_cos_preempt,
}
use cos_userspace.Fifo.{
  FifoRunState, queued, on_cpu, blocked, CpuState, idle, nocos, FifoTask, Fifo,
}
use cos_userspace.Fifo.Invariant.{seat, Inv, remark}

-- What a task is to the scheduler; `none` is a number that it does not know.
abbrev pub phase : Slot FifoTask → Option FifoRunState
phase (live task) = some task.state
phase _ = none

-- What a message makes of its task: the phase after it, and the mark that the task's processor
-- gets if it ran, `none` where the mark stays.
abbrev pub Outcome : Type 0
Outcome = Option FifoRunState × Option CpuState

-- A preempted task must be known and not be blocked.
abbrev pub woken : Option CpuState → Option FifoRunState → Option Outcome
woken k (some queued) = some (some queued, none)
woken k (some on_cpu) = some (some queued, k)
woken k _ = none

-- The outcome of a message, by its type; `none` where the message is refused.
unfoldable pub next_phase : ℕ → Option FifoRunState → Option Outcome
next_phase type p =
    if type == msg_task_runnable
    then elim p [ none ↦ some (none, none) | some _ ↦ some (some queued, none) ]
    else if type == msg_task_blocked
    then elim p [ none ↦ some (none, none) | some _ ↦ some (some blocked, some idle) ]
    else if type == msg_task_new
    then elim p [ none ↦ some (some queued, none) | some _ ↦ none ]
    else if type == msg_task_dead
    then elim p [ none ↦ none | some _ ↦ some (none, some idle) ]
    else if type == msg_task_preempt
    then woken (some nocos) p
    else if type == msg_task_new_blocked
    then elim p [ none ↦ some (some blocked, none) | some _ ↦ none ]
    else if type == msg_task_cos_preempt
    then woken none p
    else some (p, none)

-- The queue when a task passes from one phase to another.
abbrev pub is_queued : Option FifoRunState → Bool
is_queued (some queued) = true
is_queued _ = false

unfoldable pub next_rq : List ℕ → ℕ → Option FifoRunState → Option FifoRunState → List ℕ
next_rq rq t old new =
    if is_queued old
    then (if is_queued new then rq else without rq t)
    else if is_queued new
    then rq ++ t ∷ []
    else rq

module _ (cpu_num : ℕ) where
  -- The state after a message for task `t` with outcome `o`.
  pub record After (f : Fifo) (t : ℕ) (o : Outcome) (f' : Fifo) : Type 0 where
    pub good : Inv cpu_num f'
    pub phase_is : phase (f'.alive_tasks t) ≡ o.0
    pub queue_is : f'.fifo_rq ≡ next_rq f.fifo_rq t (phase (f.alive_tasks t)) o.0
    pub others : (u : ℕ) → u ≢ t → f'.alive_tasks u ≡ f.alive_tasks u
    -- No message starts a task.
    pub no_start : (c : ℕ) → seat (f'.alive_tasks t) ≡ some c → seat (f.alive_tasks t) ≡ some c
    pub marks_are :
        (c : ℕ) → f'.cpu_states c ≡ remark o.1 (seat (f.alive_tasks t)) c (f.cpu_states c)

  -- A refused message ends in a fault, any other in the state that the phases say.
  abbrev pub Meets : Fifo → ℕ → Option Outcome → Result Fifo → Type 0
  Meets f t none r = (e : Fault) × (r ≡ err e)
  Meets f t (some o) r = Returns r (After f t o)
