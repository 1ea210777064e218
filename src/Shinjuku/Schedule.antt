-- ===== src/Shinjuku/Schedule.antt =====
-- `ShinjukuLord::schedule` (scheduler/shinjuku/shinjuku_lord.h). `shoot_task` and the clock's
-- reading `now` are parameters. The shared page is read as it is at the start of the call.
pub mod Plan
pub mod Ready
pub mod Chosen
pub mod Choice
pub mod Sort
pub mod Filter
pub mod Start
pub mod Revert
pub mod Answer
pub mod Outcome
pub mod Round
pub mod Undo
use cos_userspace.Base.{
  ℕ, zero, suc, ◌+◌, ◌-◌, ◌*◌, ◌%◌, ◌^◌, Bool, true, false, Option, none, some, List, [], ◌∷◌, ◌++◌,
  Result, ok, err, exit_failure, assert_failed, out_of_fuel, ◌>>=◌, ◌>>◌, require, leb, ◌==◌,
  if◌then◌else◌,
}
use cos_userspace.RunQueue.{enqueue, dequeue, peek}
use cos_userspace.TaskMap.{live, insert, deref, is_there}
use cos_userspace.ShootArea.{CosShootArg, ShootArea, commit_shoot_message, check_shoot_state}
use cos_userspace.Lord.{Lord}
use cos_userspace.Epistle.{Table, capacity, epistle_thread_idle, get}
use cos_userspace.Fifo.Schedule.{CpuSet, cpu_zero, cpu_set, ShootTask}
use cos_userspace.Shinjuku.{
  ShinjukuRunState, on_cpu, idle, cos, cfs, CpuState, ShinjukuTask, Shinjuku, write_cpu, put_back,
}

-- 0.4 milliseconds, in nanoseconds.
abbrev pub preempt_time_slice : ℕ
preempt_time_slice = 1000 * 400

-- `current_time - task->last_shoot_time`, in 64 bits.
abbrev pub elapsed : ℕ → ℕ → ℕ
elapsed now last = (now + 2 ^ 64 - last) % 2 ^ 64

-- The deques of processors that can be given away.
pub record Cpus : Type 0 where
  pub idle_cpu : List ℕ
  pub cos_cpu : List ℕ
  pub cfs_cpu : List ℕ

-- `epistle_->get(pid) == EPISTLE_THREAD_IDLE`
unfoldable pub is_idle : Table → ℕ → Result Bool
is_idle epistle pid = get capacity pid epistle >>= λ v. ok (v == epistle_thread_idle)

-- May the task on a COS processor be preempted? The page is read only if its slice is not over.
unfoldable pub preemptable : ℕ → Table → ShinjukuTask → Result Bool
preemptable now epistle task = elim (leb preempt_time_slice (elapsed now task.last_shoot_time)) [
  | true ↦ ok true
  | false ↦ is_idle epistle task.pid
]

abbrev pub is_on_cpu : ShinjukuRunState → Bool
is_on_cpu on_cpu = true
is_on_cpu _ = false

-- The body of the loop that sorts the processors, for one that is not the lord's.
unfoldable pub sort_cpu : ℕ → Shinjuku → ℕ → Cpus → Result Cpus
sort_cpu now f cpu q = elim (f.cpu_states cpu).type [
  | idle ↦ ok (record q { idle_cpu = q.idle_cpu ++ cpu ∷ [] })
  | cfs ↦ ok (record q { cfs_cpu = q.cfs_cpu ++ cpu ∷ [] })
  | cos ↦ do
    task ← deref (f.alive_tasks (f.cpu_states cpu).pid)
    require (is_on_cpu task.state) assert_failed
    yield ← preemptable now f.epistle task
    ok (if yield then record q { cos_cpu = q.cos_cpu ++ cpu ∷ [] } else q)
]

-- The rounds of `for (int cpu = 3; cpu < cpu_num; cpu++)` that are left, from `cpu` on.
unfoldable pub sort_loop : ℕ → ℕ → Shinjuku → ℕ → ℕ → Cpus → Result Cpus
sort_loop lord_cpu now f zero cpu q = ok q
sort_loop lord_cpu now f (suc n) cpu q =
    (if cpu == lord_cpu then ok q else sort_cpu now f cpu q)
    >>= sort_loop lord_cpu now f n (cpu + 1)

-- The next processor: an idle one, else one of CFS, else one with a task that may be preempted.
unfoldable pub next_cpu : Cpus → Option (ℕ × Cpus)
next_cpu q = elim q.idle_cpu [
  | c ∷ rest ↦ some (c, record q { idle_cpu = rest })
  | [] ↦ elim q.cfs_cpu [
    | c ∷ rest ↦ some (c, record q { cfs_cpu = rest })
    | [] ↦ elim q.cos_cpu [ c ∷ rest ↦ some (c, record q { cos_cpu = rest }) | [] ↦ none ]
  ]
]

-- The local variables of `schedule` beside the processors, with the scheduler's state.
pub record Batch : Type 0 where
  pub old_cpu_states : List (ℕ × CpuState)
  pub assigned : List (ℕ × CosShootArg)
  pub assigned_mask : CpuSet
  pub onqueue_idle : List ℕ
  pub state : Shinjuku

abbrev pub first_batch : Shinjuku → Batch
first_batch f = record {
  old_cpu_states = [];
  assigned = [];
  assigned_mask = cpu_zero;
  onqueue_idle = [];
  state = f;
}

-- The front of the queue is set aside.
unfoldable pub set_aside : Batch → ℕ → Batch
set_aside b tid =
    let f = b.state in
    record b {
      onqueue_idle = enqueue b.onqueue_idle tid;
      state = record f { shinjuku_rq = dequeue f.shinjuku_rq };
    }

-- The part of the loop from the assignment to `next` on. `cpu_states_[cpu]` is saved before it is
-- overwritten.
unfoldable pub place : ℕ → Batch → ℕ → ℕ → ShinjukuTask → Batch
place now b cpu tid next =
    let f = b.state in
    let started = record next { state = on_cpu; cpu_id = some cpu; last_shoot_time = now } in
    record b {
      old_cpu_states = b.old_cpu_states ++ (cpu, f.cpu_states cpu) ∷ [];
      assigned = b.assigned ++ (cpu, record { pid = next.pid; info = 0 }) ∷ [];
      assigned_mask = cpu_set b.assigned_mask cpu;
      state = record f {
        shinjuku_rq = dequeue f.shinjuku_rq;
        alive_tasks = insert f.alive_tasks tid (live started);
        cpu_states = write_cpu f.cpu_states cpu (record { type = cos; pid = next.pid });
      };
    }

unfoldable pub pick : ℕ → Batch → ℕ → ℕ → Result Batch
pick now b cpu tid =
    let slot = b.state.alive_tasks tid in
    require (is_there slot) exit_failure >> (deref slot >>= λ next. ok (place now b cpu tid next))

-- `while (true)`, with fuel for its rounds.
unfoldable pub choose_loop : ℕ → ℕ → Cpus → Batch → Result Batch
choose_loop now zero q b = err out_of_fuel
choose_loop now (suc fuel) q b =
    let tid = peek b.state.shinjuku_rq in
    elim (tid == 0) [
      | true ↦ ok b
      | false ↦ is_idle b.state.epistle tid >>= λ resting. elim resting [
        | true ↦ choose_loop now fuel q (set_aside b tid)
        | false ↦ elim (next_cpu q) [
          | none ↦ ok b
          | some (cpu, q') ↦ pick now b cpu tid >>= choose_loop now fuel q'
        ]
      ]
    ]

-- `while (onqueue_idle.peek() != 0)`
unfoldable pub flush : List ℕ → List ℕ → List ℕ
flush rq [] = rq
flush rq (t ∷ ts) = if t == 0 then rq else flush (enqueue rq t) ts

abbrev pub flush_idle : Batch → Batch
flush_idle b =
    let f = b.state in
    record b { state = record f { shinjuku_rq = flush f.shinjuku_rq b.onqueue_idle } }

-- `shinjuku_rq_.enqueue(pid); task = alive_tasks_[pid]; task->state = Queued;`
unfoldable pub requeue : Shinjuku → ℕ → Result Shinjuku
requeue f pid = deref (f.alive_tasks pid) >>= λ task. ok (put_back f pid task)

unfoldable pub requeue_all : List (ℕ × CosShootArg) → Shinjuku → Result Shinjuku
requeue_all [] f = ok f
requeue_all ((cpu, arg) ∷ args) f = requeue f arg.pid >>= requeue_all args

unfoldable pub restore_all : List (ℕ × CpuState) → Shinjuku → Shinjuku
restore_all [] f = f
restore_all ((cpu, s) ∷ olds) f =
    restore_all olds (record f { cpu_states = write_cpu f.cpu_states cpu s })

-- The first saved state of that processor is put back.
unfoldable pub restore_one : List (ℕ × CpuState) → ℕ → Shinjuku → Shinjuku
restore_one [] c f = f
restore_one ((cpu, s) ∷ olds) c f =
    if cpu == c then record f { cpu_states = write_cpu f.cpu_states c s } else restore_one olds c f

unfoldable pub revert_failed : List (ℕ × ℕ) → List (ℕ × CpuState) → Shinjuku → Result Shinjuku
revert_failed [] olds f = ok f
revert_failed ((cpu, pid) ∷ fail) olds f =
    requeue f pid >>= λ f'. revert_failed fail olds (restore_one olds cpu f')

module _ (cpu_num : ℕ) (shoot_task : ShootTask) (now : ℕ) where
  -- What follows the commit.
  unfoldable pub shoot : Batch → Lord Shinjuku → ShootArea → Result (Lord Shinjuku)
  shoot b l sa =
      let (shoot_err, answer) = shoot_task b.assigned_mask sa in
      if shoot_err == 0
      then (check_shoot_state cpu_num answer >>= λ checked.
          revert_failed checked.0 b.old_cpu_states b.state >>= λ f.
          ok (record l { sa = checked.1; policy = f }))
      else (requeue_all b.assigned b.state >>= λ f.
          ok (record l { sa = answer; policy = restore_all b.old_cpu_states f }))

  -- `if (assigned.empty()) return;`, and else the commit and the call.
  unfoldable pub send : Lord Shinjuku → Batch → List (ℕ × CosShootArg) → Result (Lord Shinjuku)
  send l b [] = ok (record l { policy = b.state })
  send l b (e ∷ args) = commit_shoot_message (e ∷ args) l.seq l.sa >>= shoot b l

  -- `fuel` bounds the rounds of the loop that chooses.
  unfoldable pub schedule : ℕ → Lord Shinjuku → Result (Lord Shinjuku)
  schedule fuel l = do
    q ←
        sort_loop l.lord_cpu now l.policy (cpu_num - 3) 3
          (record { idle_cpu = []; cos_cpu = []; cfs_cpu = [] })
    b ← choose_loop now fuel q (first_batch l.policy)
    send l (flush_idle b) b.assigned
