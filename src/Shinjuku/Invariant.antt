-- ===== src/Shinjuku/Invariant.antt =====
-- What holds of the Shinjuku scheduler's state between two messages, and two moves that keep it.
use cos_userspace.Base.{
  ℕ, ◌≡◌, ◌≢◌, ◌<◌, refl, Option, none, some, List, arith, ◌==◌, if◌then◌else◌, count, Returns,
  Option-cases, inl, inr, ◌⊎◌,
}
use cos_userspace.RunQueue.Order.{count-enqueue, count-without, without, remove_from_rq-without}
use cos_userspace.TaskMap.{Slot, absent, null_entry, live, insert}
use cos_userspace.Shinjuku.{
  ShinjukuRunState, queued, on_cpu, blocked, CpuState, cfs, no_thread, ShinjukuTask, Shinjuku, init,
  write_cpu, free_cpu, put_back, take_off,
}

pub ShinjukuRunState-cases : (s : ShinjukuRunState) → (s ≡ queued) ⊎ ((s ≡ on_cpu) ⊎ (s ≡ blocked))
ShinjukuRunState-cases queued = inl refl
ShinjukuRunState-cases on_cpu = inr (inl refl)
ShinjukuRunState-cases blocked = inr (inr refl)

-- How often a task stands in the run queue.
abbrev pub queued_count : Slot ShinjukuTask → ℕ
queued_count (live task) = elim task.state [ queued ↦ 1 | _ ↦ 0 ]
queued_count _ = 0

-- The processor of a running task.
abbrev pub seat : Slot ShinjukuTask → Option ℕ
seat (live task) = elim task.state [ on_cpu ↦ task.cpu_id | _ ↦ none ]
seat _ = none

-- A task is filed under its own number, and if it runs it has a processor.
abbrev pub WellFiled : ℕ → Slot ShinjukuTask → Type 0
WellFiled t absent = Unit
WellFiled t null_entry = ⊥
WellFiled t (live task) = (task.pid ≡ t) × (t ≢ 0) × (task.state ≡ on_cpu → task.cpu_id ≢ none)

-- The queue after a task in that state is taken off.
abbrev pub leave_rq : List ℕ → ℕ → ShinjukuRunState → List ℕ
leave_rq rq t queued = without rq t
leave_rq rq t _ = rq

-- Any entry that is neither queued nor running may take a task's place once it is off.
abbrev pub Gone : Slot ShinjukuTask → Type 0
Gone s = (queued_count s ≡ 0) × (seat s ≡ none)

-- The state after `take_off`, with `s` in the task's place.
abbrev pub left : Shinjuku → ℕ → Slot ShinjukuTask → Shinjuku
left f t s = record f { alive_tasks = insert f.alive_tasks t s }

-- What a message does to a processor: it becomes idle, or it goes to CFS.
pub data Mark : Type 0 where
  freed given : Mark

-- A processor's state when the processor `seat` gets the mark `k`, if it is to get one.
abbrev pub remark : Option Mark → Option ℕ → ℕ → CpuState → CpuState
remark (some freed) (some d) c old = if c == d then no_thread else old
remark (some given) (some d) c old = if c == d then record { type = cfs; pid = old.pid } else old
remark _ _ c old = old

module _ (cpu_num : ℕ) where
  pub record Inv (f : Shinjuku) : Type 0 where
    -- The run queue holds each queued task once, and nothing else.
    pub once : (t : ℕ) → count t f.shinjuku_rq ≡ queued_count (f.alive_tasks t)
    pub filed : (t : ℕ) → WellFiled t (f.alive_tasks t)
    -- A running task is on a processor of the machine. A task that was preempted counts as running
    -- until the kernel's message says so; two such tasks may have one processor.
    pub seated : (t c : ℕ) → seat (f.alive_tasks t) ≡ some c → c < cpu_num

  pub init-Inv : Inv init
  unfolding count
  init-Inv = record { once = λ t. refl; filed = λ t. tt; seated = λ t c h. ground arith }

  -- A task that is not queued goes to the end of the queue.
  pub put_back-Inv :
      (f : Shinjuku) (t : ℕ) (task : ShinjukuTask)
      → Inv f
      → queued_count (f.alive_tasks t) ≡ 0
      → (task.pid ≡ t) × (t ≢ 0)
      → Inv (put_back f t task)
  unfolding put_back
  put_back-Inv f t task v fresh name = record {
    once = λ u. ground (arith, v.once u, v.once t, count-enqueue u f.shinjuku_rq t);
    filed = λ u. ground (arith, v.filed u);
    seated = λ u c h. ground (arith, v.seated u c);
  }

  -- The invariant is about tasks: a processor may get any state.
  pub write_cpu-Inv :
      (f : Shinjuku) (c : ℕ) (s : CpuState)
      → Inv f
      → Inv (record f { cpu_states = write_cpu f.cpu_states c s })
  write_cpu-Inv f c s v = record { once = v.once; filed = v.filed; seated = v.seated }

  pub seat-lt :
      (f : Shinjuku) (t : ℕ) (task : ShinjukuTask)
      → Inv f
      → f.alive_tasks t ≡ live task
      → task.state ≡ on_cpu
      → (c : ℕ) × (task.cpu_id ≡ some c) × (c < cpu_num)
  seat-lt f t task v e h = elim (Option-cases task.cpu_id) [
    | inl none_yet ↦ absurd (ground (arith, v.filed t))
    | inr (c, at) ↦ (c, at, ground (arith, v.seated t c))
  ]

  module _ (f : Shinjuku) (t : ℕ) (task : ShinjukuTask) (s : Slot ShinjukuTask) (v : Inv f) where
    take_off_queued :
        f.alive_tasks t ≡ live task
        → task.state ≡ queued
        → Gone s
        → WellFiled t s
        → Returns (take_off cpu_num f t task) (λ f'.
          Inv (left f' t s)
          × (f'.alive_tasks ≡ f.alive_tasks)
          × (f'.shinjuku_rq ≡ leave_rq f.shinjuku_rq t task.state)
          × ((c : ℕ) → f'.cpu_states c ≡ remark (some freed) (seat (live task)) c (f.cpu_states c)))
    unfolding take_off
    take_off_queued e q g w =
        let some_there : 0 < count t f.shinjuku_rq = ground (arith, v.once t) in
        (
          record f { shinjuku_rq = without f.shinjuku_rq t },
          rw (q, remove_from_rq-without f.shinjuku_rq t some_there, take_off),
          (
            record {
              once = λ u. ground (arith, v.once u, count-without u f.shinjuku_rq t some_there);
              filed = λ u. ground (arith, v.filed u);
              seated = λ u c h. ground (arith, v.seated u c);
            },
            refl,
            ground arith,
            λ c. ground arith,
          ),
        )

    take_off_running :
        f.alive_tasks t ≡ live task
        → task.state ≡ on_cpu
        → Gone s
        → WellFiled t s
        → Returns (take_off cpu_num f t task) (λ f'.
          Inv (left f' t s)
          × (f'.alive_tasks ≡ f.alive_tasks)
          × (f'.shinjuku_rq ≡ leave_rq f.shinjuku_rq t task.state)
          × ((c : ℕ) → f'.cpu_states c ≡ remark (some freed) (seat (live task)) c (f.cpu_states c)))
    unfolding take_off free_cpu
    take_off_running e r g w =
        let (c, at, small) = seat-lt f t task v e r in
        (
          record f { cpu_states = write_cpu f.cpu_states c no_thread },
          ground arith,
          (
            record {
              once = λ u. ground (arith, v.once u);
              filed = λ u. ground (arith, v.filed u);
              seated = λ u d h. ground (arith, v.seated u d);
            },
            refl,
            ground arith,
            λ c. ground arith,
          ),
        )

    take_off_blocked :
        f.alive_tasks t ≡ live task
        → task.state ≡ blocked
        → Gone s
        → WellFiled t s
        → Returns (take_off cpu_num f t task) (λ f'.
          Inv (left f' t s)
          × (f'.alive_tasks ≡ f.alive_tasks)
          × (f'.shinjuku_rq ≡ leave_rq f.shinjuku_rq t task.state)
          × ((c : ℕ) → f'.cpu_states c ≡ remark (some freed) (seat (live task)) c (f.cpu_states c)))
    unfolding take_off
    take_off_blocked e b g w = (
      f,
      ground arith,
      (
        record {
          once = λ u. ground (arith, v.once u);
          filed = λ u. ground (arith, v.filed u);
          seated = λ u c h. ground (arith, v.seated u c);
        },
        refl,
        ground arith,
        λ c. ground arith,
      ),
    )

  -- Taking a task off never fails, and leaves a good state once the task's place is filled.
  pub take_off-Inv :
      (f : Shinjuku) (t : ℕ) (task : ShinjukuTask) (s : Slot ShinjukuTask)
      → Inv f
      → f.alive_tasks t ≡ live task
      → Gone s
      → WellFiled t s
      → Returns (take_off cpu_num f t task) (λ f'.
        Inv (left f' t s)
        × (f'.alive_tasks ≡ f.alive_tasks)
        × (f'.shinjuku_rq ≡ leave_rq f.shinjuku_rq t task.state)
        × ((c : ℕ) → f'.cpu_states c ≡ remark (some freed) (seat (live task)) c (f.cpu_states c)))
  take_off-Inv f t task s v e g w = elim (ShinjukuRunState-cases task.state) [
    | inl q ↦ take_off_queued f t task s v e q g w
    | inr (inl r) ↦ take_off_running f t task s v e r g w
    | inr (inr b) ↦ take_off_blocked f t task s v e b g w
  ]
