-- ===== src/Fifo/Invariant.antt =====
-- What holds of the FIFO scheduler's state between two messages, and two moves that keep it.
use cos_userspace.Base.{
  ℕ, ◌≡◌, ◌≢◌, ◌<◌, refl, Option, none, some, List, arith, ◌==◌, if◌then◌else◌, count, Returns,
  Option-cases, inl, inr, ◌⊎◌,
}
use cos_userspace.RunQueue.Order.{count-enqueue, count-without, without, remove_from_rq-without}
use cos_userspace.TaskMap.{Slot, absent, null_entry, live, insert}
use cos_userspace.Fifo.{
  FifoRunState, queued, on_cpu, blocked, CpuState, idle, cos, FifoTask, Fifo, init, write_cpu,
  set_cpu, put_back, take_off,
}

pub FifoRunState-cases : (s : FifoRunState) → (s ≡ queued) ⊎ ((s ≡ on_cpu) ⊎ (s ≡ blocked))
FifoRunState-cases queued = inl refl
FifoRunState-cases on_cpu = inr (inl refl)
FifoRunState-cases blocked = inr (inr refl)

-- How often a task stands in the run queue.
abbrev pub queued_count : Slot FifoTask → ℕ
queued_count (live task) = elim task.state [ queued ↦ 1 | _ ↦ 0 ]
queued_count _ = 0

-- The processor of a running task.
abbrev pub seat : Slot FifoTask → Option ℕ
seat (live task) = elim task.state [ on_cpu ↦ task.cpu_id | _ ↦ none ]
seat _ = none

-- A task is filed under its own number, and if it runs it has a processor.
abbrev pub WellFiled : ℕ → Slot FifoTask → Type 0
WellFiled t absent = Unit
WellFiled t null_entry = ⊥
WellFiled t (live task) = (task.pid ≡ t) × (t ≢ 0) × (task.state ≡ on_cpu → task.cpu_id ≢ none)

-- The queue after a task in that state is taken off.
abbrev pub leave_rq : List ℕ → ℕ → FifoRunState → List ℕ
leave_rq rq t queued = without rq t
leave_rq rq t _ = rq

-- Any entry that is neither queued nor running may take a task's place once it is off.
abbrev pub Gone : Slot FifoTask → Type 0
Gone s = (queued_count s ≡ 0) × (seat s ≡ none)

-- The state after `take_off`, with `s` in the task's place.
abbrev pub left : Fifo → ℕ → Slot FifoTask → Fifo
left f t s = record f { alive_tasks = insert f.alive_tasks t s }

-- A processor's mark when the processor `seat` gets the mark `k`, if it is to get one.
abbrev pub remark : Option CpuState → Option ℕ → ℕ → CpuState → CpuState
remark (some k) (some d) c old = if c == d then k else old
remark _ _ c old = old

module _ (cpu_num : ℕ) where
  pub record Inv (f : Fifo) : Type 0 where
    -- The run queue holds each queued task once, and nothing else.
    pub once : (t : ℕ) → count t f.fifo_rq ≡ queued_count (f.alive_tasks t)
    pub filed : (t : ℕ) → WellFiled t (f.alive_tasks t)
    -- A running task is on a processor of the machine that is marked as COS.
    pub seated :
        (t c : ℕ) → seat (f.alive_tasks t) ≡ some c → (c < cpu_num) × (f.cpu_states c ≡ cos)
    -- No two tasks run on one processor.
    pub alone :
        (t u c : ℕ) → seat (f.alive_tasks t) ≡ some c → seat (f.alive_tasks u) ≡ some c → t ≡ u

  pub init-Inv : Inv init
  unfolding count
  init-Inv = record {
    once = λ t. refl;
    filed = λ t. tt;
    seated = λ t c h. ground arith;
    alone = λ t u c h k. ground arith;
  }

  -- A task that is not queued goes to the end of the queue.
  pub put_back-Inv :
      (f : Fifo) (t : ℕ) (task : FifoTask)
      → Inv f
      → queued_count (f.alive_tasks t) ≡ 0
      → (task.pid ≡ t) × (t ≢ 0)
      → Inv (put_back f t task)
  unfolding put_back
  put_back-Inv f t task v fresh name = record {
    once = λ u. ground (arith, v.once u, v.once t, count-enqueue u f.fifo_rq t);
    filed = λ u. ground (arith, v.filed u);
    seated = λ u c h. ground (arith, v.seated u c);
    alone = λ u w c h k. ground (arith, v.alone u w c);
  }

  -- Writing a processor on which nothing runs changes nothing for the tasks.
  pub write_cpu-Inv :
      (f : Fifo) (c : ℕ) (s : CpuState)
      → Inv f
      → ((t : ℕ) → seat (f.alive_tasks t) ≢ some c)
      → Inv (record f { cpu_states = write_cpu f.cpu_states c s })
  write_cpu-Inv f c s v free = record {
    once = v.once;
    filed = v.filed;
    seated = λ t d h. ground (arith, v.seated t d, free t);
    alone = v.alone;
  }

  pub seat-lt :
      (f : Fifo) (t : ℕ) (task : FifoTask)
      → Inv f
      → f.alive_tasks t ≡ live task
      → task.state ≡ on_cpu
      → (c : ℕ) × (task.cpu_id ≡ some c) × (c < cpu_num) × (f.cpu_states c ≡ cos)
  seat-lt f t task v e h = elim (Option-cases task.cpu_id) [
    | inl none_yet ↦ absurd (ground (arith, v.filed t))
    | inr (c, at) ↦ (c, at, ground (arith, v.seated t c), ground (arith, v.seated t c))
  ]

  module _ (f : Fifo) (t : ℕ) (task : FifoTask) (s : Slot FifoTask) (v : Inv f) where
    take_off_queued :
        f.alive_tasks t ≡ live task
        → task.state ≡ queued
        → Gone s
        → WellFiled t s
        → Returns (take_off cpu_num f t task) (λ f'.
          Inv (left f' t s)
          × (f'.alive_tasks ≡ f.alive_tasks)
          × (f'.fifo_rq ≡ leave_rq f.fifo_rq t task.state)
          × ((c : ℕ) → f'.cpu_states c ≡ remark (some idle) (seat (live task)) c (f.cpu_states c)))
    unfolding take_off
    take_off_queued e q g w =
        let some_there : 0 < count t f.fifo_rq = ground (arith, v.once t) in
        (
          record f { fifo_rq = without f.fifo_rq t },
          rw (q, remove_from_rq-without f.fifo_rq t some_there, take_off),
          (
            record {
              once = λ u. ground (arith, v.once u, count-without u f.fifo_rq t some_there);
              filed = λ u. ground (arith, v.filed u);
              seated = λ u c h. ground (arith, v.seated u c);
              alone = λ u x c h k. ground (arith, v.alone u x c);
            },
            refl,
            ground arith,
            λ c. ground arith,
          ),
        )

    take_off_running :
        f.alive_tasks t ≡ live task
        → task.state ≡ on_cpu
        → Gone s
        → WellFiled t s
        → Returns (take_off cpu_num f t task) (λ f'.
          Inv (left f' t s)
          × (f'.alive_tasks ≡ f.alive_tasks)
          × (f'.fifo_rq ≡ leave_rq f.fifo_rq t task.state)
          × ((c : ℕ) → f'.cpu_states c ≡ remark (some idle) (seat (live task)) c (f.cpu_states c)))
    unfolding take_off set_cpu
    take_off_running e r g w =
        let (c, at, small, marked) = seat-lt f t task v e r in
        (
          record f { cpu_states = write_cpu f.cpu_states c idle },
          ground arith,
          (
            record {
              once = λ u. ground (arith, v.once u);
              filed = λ u. ground (arith, v.filed u);
              seated = λ u d h. ground (arith, v.seated u d, v.alone u t c);
              alone = λ u x d h k. ground (arith, v.alone u x d);
            },
            refl,
            ground arith,
            λ c. ground arith,
          ),
        )

    take_off_blocked :
        f.alive_tasks t ≡ live task
        → task.state ≡ blocked
        → Gone s
        → WellFiled t s
        → Returns (take_off cpu_num f t task) (λ f'.
          Inv (left f' t s)
          × (f'.alive_tasks ≡ f.alive_tasks)
          × (f'.fifo_rq ≡ leave_rq f.fifo_rq t task.state)
          × ((c : ℕ) → f'.cpu_states c ≡ remark (some idle) (seat (live task)) c (f.cpu_states c)))
    unfolding take_off
    take_off_blocked e b g w = (
      f,
      ground arith,
      (
        record {
          once = λ u. ground (arith, v.once u);
          filed = λ u. ground (arith, v.filed u);
          seated = λ u c h. ground (arith, v.seated u c);
          alone = λ u x c h k. ground (arith, v.alone u x c);
        },
        refl,
        ground arith,
        λ c. ground arith,
      ),
    )

  -- Taking a task off never fails, and leaves a good state once the task's place is filled.
  pub take_off-Inv :
      (f : Fifo) (t : ℕ) (task : FifoTask) (s : Slot FifoTask)
      → Inv f
      → f.alive_tasks t ≡ live task
      → Gone s
      → WellFiled t s
      → Returns (take_off cpu_num f t task) (λ f'.
        Inv (left f' t s)
        × (f'.alive_tasks ≡ f.alive_tasks)
        × (f'.fifo_rq ≡ leave_rq f.fifo_rq t task.state)
        × ((c : ℕ) → f'.cpu_states c ≡ remark (some idle) (seat (live task)) c (f.cpu_states c)))
  take_off-Inv f t task s v e g w = elim (FifoRunState-cases task.state) [
    | inl q ↦ take_off_queued f t task s v e q g w
    | inr (inl r) ↦ take_off_running f t task s v e r g w
    | inr (inr b) ↦ take_off_blocked f t task s v e b g w
  ]
