-- ===== src/Shinjuku/Phases.antt =====
-- The abstract account of one task of the Shinjuku scheduler: which messages are taken in which phase
-- of the task, and what becomes of the task, the queue, the processors and the other tasks.
use cos_userspace.Base.{
  ℕ, ◌≡◌, ◌≢◌, Bool, true, false, Option, none, some, List, [], ◌∷◌, ◌++◌, Result, err, Fault, ◌==◌,
  if◌then◌else◌, Returns,
}
use cos_userspace.RunQueue.Order.{without}
use cos_userspace.TaskMap.{Slot, live}
use cos_userspace.Lord.{
  msg_task_runnable, msg_task_blocked, msg_task_new, msg_task_dead, msg_task_preempt,
  msg_task_new_blocked, msg_task_cos_preempt,
}
use cos_userspace.Shinjuku.{
  ShinjukuRunState, queued, on_cpu, blocked, is_cos, ShinjukuTask, Shinjuku,
}
use cos_userspace.Shinjuku.Invariant.{Mark, freed, given, seat, Inv, remark}

-- What a task is to the scheduler; `none` is a number that it does not know.
abbrev pub phase : Slot ShinjukuTask → Option ShinjukuRunState
phase (live task) = some task.state
phase _ = none

-- What a message makes of its task: the phase after it, and the mark that the task's processor
-- gets if it ran, `none` where the mark stays.
abbrev pub Outcome : Type 0
Outcome = Option ShinjukuRunState × Option Mark

-- A task that CFS preempted must be known and not be blocked.
abbrev pub woken : Option Mark → Option ShinjukuRunState → Option Outcome
woken k (some queued) = some (some queued, none)
woken k (some on_cpu) = some (some queued, k)
woken k _ = none

-- So must one that gave way to a COS task, and if it runs its processor must be marked as COS.
abbrev pub gave_way : Bool → Option ShinjukuRunState → Option Outcome
gave_way marked (some queued) = some (some queued, none)
gave_way true (some on_cpu) = some (some queued, none)
gave_way marked _ = none

-- Is the processor of a running task marked as COS?
abbrev pub on_cos : Shinjuku → Slot ShinjukuTask → Bool
on_cos f s = elim (seat s) [ none ↦ false | some c ↦ is_cos (f.cpu_states c).type ]

-- The outcome of a message, by its type; `marked` says whether the task's processor is
-- marked as COS; `none` where the message is refused.
unfoldable pub next_phase : ℕ → Bool → Option ShinjukuRunState → Option Outcome
next_phase type marked p =
    if type == msg_task_runnable
    then elim p [ none ↦ some (none, none) | some _ ↦ some (some queued, none) ]
    else if type == msg_task_blocked
    then elim p [ none ↦ some (none, none) | some _ ↦ some (some blocked, some freed) ]
    else if type == msg_task_new
    then elim p [ none ↦ some (some queued, none) | some _ ↦ none ]
    else if type == msg_task_dead
    then elim p [ none ↦ none | some _ ↦ some (none, some freed) ]
    else if type == msg_task_preempt
    then woken (some given) p
    else if type == msg_task_new_blocked
    then elim p [ none ↦ some (some blocked, none) | some _ ↦ none ]
    else if type == msg_task_cos_preempt
    then gave_way marked p
    else some (p, none)

-- The queue when a task passes from one phase to another.
abbrev pub is_queued : Option ShinjukuRunState → Bool
is_queued (some queued) = true
is_queued _ = false

unfoldable pub next_rq : List ℕ → ℕ → Option ShinjukuRunState → Option ShinjukuRunState → List ℕ
next_rq rq t old new =
    if is_queued old
    then (if is_queued new then rq else without rq t)
    else if is_queued new
    then rq ++ t ∷ []
    else rq

module _ (cpu_num : ℕ) where
  -- The state after a message for task `t` with outcome `o`.
  pub record After (f : Shinjuku) (t : ℕ) (o : Outcome) (f' : Shinjuku) : Type 0 where
    pub good : Inv cpu_num f'
    pub phase_is : phase (f'.alive_tasks t) ≡ o.0
    pub queue_is : f'.shinjuku_rq ≡ next_rq f.shinjuku_rq t (phase (f.alive_tasks t)) o.0
    pub others : (u : ℕ) → u ≢ t → f'.alive_tasks u ≡ f.alive_tasks u
    -- No message starts a task.
    pub no_start : (c : ℕ) → seat (f'.alive_tasks t) ≡ some c → seat (f.alive_tasks t) ≡ some c
    pub marks_are :
        (c : ℕ) → f'.cpu_states c ≡ remark o.1 (seat (f.alive_tasks t)) c (f.cpu_states c)

  -- A refused message ends in a fault, any other in the state that the phases say.
  abbrev pub Meets : Shinjuku → ℕ → Option Outcome → Result Shinjuku → Type 0
  Meets f t none r = (e : Fault) × (r ≡ err e)
  Meets f t (some o) r = Returns r (After f t o)
