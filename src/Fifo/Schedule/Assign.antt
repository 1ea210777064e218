-- ===== src/Fifo/Schedule/Assign.antt =====
-- The loop of `schedule` that assigns tasks to processors, against the plan of Plan.antt.
use cos_userspace.Base.{
  ℕ, zero, suc, ◌+◌, ◌≡◌, ◌≢◌, ◌<◌, ◌≤◌, refl, sym, ap, ◌∙◌, subst, false, some, List, [], ◌∷◌,
  ◌++◌, ok, arith, ◌==◌, ◌>>=◌, All, All-append, Returns, Bool-cases, inl, inr, count,
}
use mathlib.Core.List.{append-nil, append_assoc}
use cos_userspace.RunQueue.{dequeue, peek}
use cos_userspace.RunQueue.Order.{count-peek, peek-dequeue}
use cos_userspace.TaskMap.{Slot, absent, null_entry, live}
use cos_userspace.ShootArea.{CosShootArg}
use cos_userspace.Fifo.{queued, CpuState, cos, is_cos, FifoTask, Fifo}
use cos_userspace.Fifo.Invariant.{Inv, queued_count, seat}
use cos_userspace.Fifo.Schedule.{Batch, place, pick, skips, assign_loop}
use cos_userspace.Fifo.Schedule.Plan.{
  free_cpus, plan, unplaced, marked, free_cpus-write, plan-nil, unplaced-nil,
}

abbrev pub IsCos : ℕ × CpuState → Type 0
IsCos e = e.1 ≡ cos

-- A pair of a processor and a task that runs on it.
abbrev pub Runs : Fifo → ℕ → ℕ → Type 0
Runs f c t = seat (f.alive_tasks t) ≡ some c

abbrev pub AllRun : Fifo → List (ℕ × CosShootArg) → Type 0
AllRun f = All (λ e. Runs f e.0 e.1.pid)

-- A processor that is marked as COS while nothing runs on it.
pub record Lost (f : Fifo) (c : ℕ) : Type 0 where
  pub marked_cos : f.cpu_states c ≡ cos
  pub nobody : (t : ℕ) → ¬ Runs f c t

module _ (cpu_num : ℕ) where
  -- The front of the queue is a task that is known and queued.
  front_is_live :
      (f : Fifo) (t : ℕ)
      → Inv cpu_num f
      → peek f.fifo_rq ≡ t
      → t ≢ 0
      → (task : FifoTask) × (f.alive_tasks t ≡ live task) × (task.state ≡ queued) × (task.pid ≡ t)
  front_is_live f t v e n =
      go (f.alive_tasks t) refl (ground (arith, v.once t, count-peek t f.fifo_rq))
    where
      go :
          (s : Slot FifoTask)
          → f.alive_tasks t ≡ s
          → 0 < queued_count s
          → (task : FifoTask) × (f.alive_tasks t ≡ live task)
            × (task.state ≡ queued)
            × (task.pid ≡ t)
      go absent a h = absurd (omega arith)
      go null_entry a h = absurd (omega arith)
      go (live task) a h = (task, a, ground arith, ground (arith, v.filed t))

  place-Inv :
      (b : Batch) (cpu t : ℕ) (task : FifoTask)
      → Inv cpu_num b.state
      → b.state.alive_tasks t ≡ live task
      → task.state ≡ queued
      → peek b.state.fifo_rq ≡ t
      → t ≢ 0
      → cpu < cpu_num
      → is_cos (b.state.cpu_states cpu) ≡ false
      → Inv cpu_num (place b cpu t task).state
  unfolding place
  place-Inv b cpu t task v e q p n small free = record {
    once = λ u. ground (arith, v.once u, count-peek u b.state.fifo_rq);
    filed = λ u. ground (arith, v.filed u, v.filed t);
    seated = λ u c h. ground (arith, v.seated u c);
    alone = λ u w c h k. ground (arith, v.alone u w c, v.seated u c, v.seated w c);
  }

  -- From `b` to `b'` the processors `cs` were filled from the queue.
  pub record Filled (cs : List ℕ) (b b' : Batch) : Type 0 where
    pub good : Inv cpu_num b'.state
    pub plan_is : b'.assigned ≡ b.assigned ++ plan cs b.state.fifo_rq
    pub rest_is : b'.state.fifo_rq ≡ unplaced cs b.state.fifo_rq
    pub marks : b'.assigned_mask ≡ marked (plan cs b.state.fifo_rq) b.assigned_mask
    pub still : (t c : ℕ) → Runs b.state c t → Runs b'.state c t
    pub started : AllRun b'.state (plan cs b.state.fifo_rq)
    pub olds : All IsCos b.old_cpu_states → All IsCos b'.old_cpu_states
    pub keeps_lost : (c : ℕ) → Lost b.state c → Lost b'.state c
    pub bystanders :
        (u : ℕ) → count u b.state.fifo_rq ≡ 0 → b'.state.alive_tasks u ≡ b.state.alive_tasks u

  nothing_left : (f : Fifo) → Inv cpu_num f → peek f.fifo_rq ≡ 0 → f.fifo_rq ≡ []
  unfolding peek count
  nothing_left f v p = go f.fifo_rq (λ t. v.once t) p
    where
      go :
          (rq : List ℕ)
          → ((t : ℕ) → count t rq ≡ queued_count (f.alive_tasks t))
          → peek rq ≡ 0
          → rq ≡ []
      go [] h e = refl
      go (t ∷ rq) h e = absurd (ground (arith, h 0, v.filed 0))

  Filled-none :
      (cs : List ℕ) (b : Batch)
      → Inv cpu_num b.state
      → plan cs b.state.fifo_rq ≡ []
      → unplaced cs b.state.fifo_rq ≡ b.state.fifo_rq
      → Filled cs b b
  unfolding marked
  Filled-none cs b v e r = record {
    good = v;
    plan_is = sym (append-nil b.assigned) ∙ ap (◌++◌ b.assigned) (sym e);
    rest_is = sym r;
    marks = ap (λ a. marked a b.assigned_mask) (sym e);
    still = λ t c h. h;
    started = subst (AllRun b.state) (sym e) tt;
    olds = λ h. h;
    keeps_lost = λ c h. h;
    bystanders = λ u h. refl;
  }

  Filled-dry :
      (cs : List ℕ) (b : Batch) → Inv cpu_num b.state → peek b.state.fifo_rq ≡ 0 → Filled cs b b
  Filled-dry cs b v p =
      let e = nothing_left b.state v p in
      Filled-none cs b v (ap (plan cs) e ∙ plan-nil cs)
        (ap (unplaced cs) e ∙ unplaced-nil cs ∙ sym e)

  Filled-more :
      (cs : List ℕ) (cpu t : ℕ) (task : FifoTask) (b b' : Batch)
      → Inv cpu_num b.state
      → b.state.alive_tasks t ≡ live task
      → task.state ≡ queued
      → task.pid ≡ t
      → b.state.fifo_rq ≡ t ∷ dequeue b.state.fifo_rq
      → is_cos (b.state.cpu_states cpu) ≡ false
      → Filled cs (place b cpu t task) b'
      → Filled (cpu ∷ cs) b b'
  unfolding place plan unplaced marked count
  Filled-more cs cpu t task b b' v e q p front free g =
      let ahead : plan (cpu ∷ cs) b.state.fifo_rq
          ≡ (cpu, record { pid = t; info = 0 }) ∷ plan cs (dequeue b.state.fifo_rq) =
        ap (plan (cpu ∷ cs)) front in
      record {
        good = g.good;
        plan_is =
            g.plan_is
            ∙ append_assoc b.assigned _ _
            ∙ ap (◌++◌ b.assigned) (
                sym (
                  ahead
                  ∙ ap
                      (λ n. (cpu, record { pid = n; info = 0 }) ∷ plan cs (dequeue b.state.fifo_rq))
                      (sym p)));
        rest_is = g.rest_is ∙ sym (ap (unplaced (cpu ∷ cs)) front);
        marks = g.marks ∙ ap (λ a. marked a b.assigned_mask) (sym ahead);
        still = λ u c h. g.still u c (ground arith);
        started = subst (AllRun b'.state) (sym ahead) (g.still t cpu (ground arith), g.started);
        olds = λ h. g.olds (All-append IsCos b.old_cpu_states _ h (ground arith));
        keeps_lost = λ c h. g.keeps_lost c (record {
          marked_cos = ground (arith, h.marked_cos);
          nobody = λ u r. ground (arith, h.nobody u, h.marked_cos);
        });
        bystanders = λ u h. ground (arith, ap (count u) front, g.bystanders u);
      }

  pick-place :
      (b : Batch) (cpu t : ℕ) (task : FifoTask)
      → b.state.alive_tasks t ≡ live task
      → pick b cpu t ≡ ok (place b cpu t task)
  unfolding pick
  pick-place b cpu t task e = rw e

  placed :
      (lord_cpu n cpu : ℕ) (b : Batch)
      → Inv cpu_num b.state
      → cpu < cpu_num
      → skips lord_cpu b cpu ≡ false
      → peek b.state.fifo_rq ≢ 0
      → ((b' : Batch)
          → Inv cpu_num b'.state
          → Returns
              (assign_loop lord_cpu n (cpu + 1) b')
              (Filled (free_cpus lord_cpu n (cpu + 1) b'.state.cpu_states) b'))
      → Returns
          (pick b cpu (peek b.state.fifo_rq) >>= assign_loop lord_cpu n (cpu + 1))
          (Filled (cpu ∷ free_cpus lord_cpu n (cpu + 1) b.state.cpu_states) b)
  unfolding place
  placed lord_cpu n cpu b v small take more rest =
      let t = peek b.state.fifo_rq in
      let (task, e, q, p) = front_is_live b.state t v refl more in
      let (b', run, g) =
        rest (place b cpu t task) (place-Inv b cpu t task v e q refl more small (ground arith)) in
      (
        b',
        rw (pick-place b cpu t task e) run,
        Filled-more _ cpu t task b b' v e q p (peek-dequeue b.state.fifo_rq more) (ground arith) (
            subst (λ cs. Filled cs (place b cpu t task) b')
              (free_cpus-write lord_cpu n (cpu + 1) cpu b.state.cpu_states cos (omega arith)) g),
      )

  -- From a state that keeps the scheduler's invariant, over processors below `cpu_num`, the loop
  -- ends without a fault and satisfies `Filled`: the free processors that it passes, in ascending
  -- order, get the front of the queue, and the invariant still holds.
  pub assign_loop-Filled :
      (lord_cpu n cpu : ℕ) (b : Batch)
      → Inv cpu_num b.state
      → cpu + n ≤ cpu_num
      → Returns
          (assign_loop lord_cpu n cpu b)
          (Filled (free_cpus lord_cpu n cpu b.state.cpu_states) b)
  unfolding assign_loop free_cpus plan unplaced
  assign_loop-Filled lord_cpu zero cpu b v h = (b, refl, Filled-none [] b v refl refl)
  assign_loop-Filled lord_cpu (suc n) cpu b v h = elim (Bool-cases (skips lord_cpu b cpu)) [
    | inl skip ↦ rw (skip, assign_loop) (assign_loop-Filled lord_cpu n (cpu + 1) b v (omega arith))
    | inr take ↦ elim (Bool-cases (peek b.state.fifo_rq == 0)) [
      | inl dry ↦ rw (take, dry, assign_loop) (b, refl, Filled-dry _ b v (ground arith))
      | inr more ↦
          rw (take, more, assign_loop)
            (placed lord_cpu n cpu b v (omega arith) (ground arith) (ground arith)
              (λ b' v'. assign_loop-Filled lord_cpu n (cpu + 1) b' v' (omega arith)))
    ]
  ]
