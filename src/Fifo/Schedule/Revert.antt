-- ===== src/Fifo/Schedule/Revert.antt =====
-- The part of `schedule` that takes assignments back, after a call of `shoot_task` that failed or
-- for the processors that the kernel reports.
use cos_userspace.Base.{
  ℕ, suc, ◌≡◌, ◌≢◌, ◌<◌, refl, sym, ap, ◌∙◌, subst, List, [], ◌∷◌, ◌++◌, map, arith, ◌==◌, All,
  Returns, Bool-cases, inl, inr,
}
use mathlib.Core.List.{append-nil, append_assoc}
use cos_userspace.RunQueue.{enqueue}
use cos_userspace.TaskMap.{Slot, absent, null_entry, live}
use cos_userspace.ShootArea.{CosShootArg}
use cos_userspace.Fifo.{CpuState, cos, FifoTask, Fifo, write_cpu, put_back}
use cos_userspace.Fifo.Invariant.{Inv, seat, WellFiled, put_back-Inv}
use cos_userspace.Fifo.Schedule.{requeue, requeue_all, restore_all, restore_one, revert_failed}
use cos_userspace.Fifo.Schedule.Plan.{Ascends, pairs}
use cos_userspace.Fifo.Schedule.Assign.{IsCos, Runs}

abbrev pub AllRuns : Fifo → List (ℕ × ℕ) → Type 0
AllRuns f = All (λ e. Runs f e.0 e.1)

abbrev pub numbers : List (ℕ × ℕ) → List ℕ
numbers = map (λ e. e.1)

-- Only processor marks differ, and no mark of COS is lost.
pub record OnlyMarks (f g : Fifo) : Type 0 where
  pub same_rq : g.fifo_rq ≡ f.fifo_rq
  pub same_tasks : g.alive_tasks ≡ f.alive_tasks
  pub keeps_cos : (c : ℕ) → f.cpu_states c ≡ cos → g.cpu_states c ≡ cos

restore_one-OnlyMarks :
    (olds : List (ℕ × CpuState)) (c : ℕ) (f : Fifo)
    → All IsCos olds
    → OnlyMarks f (restore_one olds c f)
unfolding restore_one
restore_one-OnlyMarks [] c f h = record { same_rq = refl; same_tasks = refl; keeps_cos = λ d e. e }
restore_one-OnlyMarks ((cpu, s) ∷ olds) c f h = elim (Bool-cases (cpu == c)) [
  | inl hit ↦
      rw (hit, restore_one)
        (record { same_rq = refl; same_tasks = refl; keeps_cos = λ d e. ground arith })
  | inr miss ↦ rw (miss, restore_one) (restore_one-OnlyMarks olds c f h.1)
]

restore_all-OnlyMarks :
    (olds : List (ℕ × CpuState)) (f : Fifo) → All IsCos olds → OnlyMarks f (restore_all olds f)
unfolding restore_all
restore_all-OnlyMarks [] f h = record { same_rq = refl; same_tasks = refl; keeps_cos = λ d e. e }
restore_all-OnlyMarks ((cpu, s) ∷ olds) f h =
    let o =
      restore_all-OnlyMarks olds (record f { cpu_states = write_cpu f.cpu_states cpu s }) h.1 in
    record {
      same_rq = o.same_rq;
      same_tasks = o.same_tasks;
      keeps_cos = λ d e. o.keeps_cos d (ground arith);
    }

module _ (cpu_num : ℕ) where
  OnlyMarks-Inv : (f g : Fifo) → OnlyMarks f g → Inv cpu_num f → Inv cpu_num g
  OnlyMarks-Inv f g o v =
      let at = λ (t : ℕ). ap (λ (a : ℕ → Slot FifoTask). a t) o.same_tasks in
      record {
        once = λ t. ground (arith, v.once t, at t, o.same_rq);
        filed = λ t. subst (WellFiled t) (sym (at t)) (v.filed t);
        seated = λ t c h. ground (arith, v.seated t c, at t, o.keeps_cos c);
        alone = λ t u c h k. ground (arith, v.alone t u c, at t, at u);
      }

  -- The tasks of `ps` were taken off their processors and stand at the end of the queue, in order.
  pub record Reverted (f : Fifo) (ps : List (ℕ × ℕ)) (f' : Fifo) : Type 0 where
    pub good : Inv cpu_num f'
    pub queue : f'.fifo_rq ≡ f.fifo_rq ++ numbers ps
    pub keeps_cos : (c : ℕ) → f.cpu_states c ≡ cos → f'.cpu_states c ≡ cos
    pub off : (t c : ℕ) → Runs f' c t → Runs f c t × All (λ e. e.0 ≢ c) ps
    pub on : (t c : ℕ) → Runs f c t → All (λ e. e.0 ≢ c) ps → Runs f' c t

  pub nothing : (f : Fifo) → Inv cpu_num f → Reverted f [] f
  nothing f v = record {
    good = v;
    queue = sym (append-nil f.fifo_rq);
    keeps_cos = λ d e. e;
    off = λ u d h. (h, tt);
    on = λ u d h away. h;
  }

  requeue-Reverted :
      (f : Fifo) (c t : ℕ)
      → Inv cpu_num f
      → Runs f c t
      → Returns (requeue f t) (Reverted f ((c, t) ∷ []))
  unfolding requeue put_back enqueue
  requeue-Reverted f c t v r = go (f.alive_tasks t) refl
    where
      go :
          (s : Slot FifoTask)
          → f.alive_tasks t ≡ s
          → Returns (requeue f t) (Reverted f ((c, t) ∷ []))
      go absent e = absurd (ground arith)
      go null_entry e = absurd (ground arith)
      go (live task) e = (
        put_back f t task,
        rw e,
        record {
          good = put_back-Inv cpu_num f t task v (ground arith) (ground (arith, v.filed t));
          queue = refl;
          keeps_cos = λ d h. h;
          off = λ u d h. (ground arith, ((λ k. ground (arith, v.alone u t c)), tt));
          on = λ u d h away. ground (arith, away.0);
        },
      )

  then_more :
      (f g f' : Fifo) (c t : ℕ) (ps : List (ℕ × ℕ))
      → Reverted f ((c, t) ∷ []) g
      → Reverted g ps f'
      → Reverted f ((c, t) ∷ ps) f'
  then_more f g f' c t ps a b = record {
    good = b.good;
    queue = b.queue ∙ ap (λ q. q ++ numbers ps) a.queue ∙ append_assoc f.fifo_rq _ _;
    keeps_cos = λ d e. b.keeps_cos d (a.keeps_cos d e);
    off = λ u d h.
        let (r, away) = b.off u d h in let (r', away') = a.off u d r in (r', (away'.0, away));
    on = λ u d h away. b.on u d (a.on u d h (away.0, tt)) away.1;
  }

  marks_after :
      (f g h : Fifo) (ps : List (ℕ × ℕ)) → Reverted f ps g → OnlyMarks g h → Reverted f ps h
  marks_after f g h ps a o =
      let at = λ (t : ℕ). ap (λ (m : ℕ → Slot FifoTask). m t) o.same_tasks in
      record {
        good = OnlyMarks-Inv g h o a.good;
        queue = o.same_rq ∙ a.queue;
        keeps_cos = λ d e. o.keeps_cos d (a.keeps_cos d e);
        off = λ u d r. a.off u d (ap seat (sym (at u)) ∙ r);
        on = λ u d r away. ap seat (at u) ∙ a.on u d r away;
      }

  -- Who is still on a processor above `c`, once the pair of `c` is taken back.
  still_there :
      (f g : Fifo) (c t lo : ℕ) (ps : List (ℕ × ℕ))
      → Reverted f ((c, t) ∷ []) g
      → c < lo
      → Ascends lo ps
      → AllRuns f ps
      → AllRuns g ps
  still_there f g c t lo [] a small h r = tt
  still_there f g c t lo ((d, u) ∷ ps) a small h r = (
    a.on u d r.0 ((λ e. omega arith), tt),
    still_there f g c t (suc d) ps a (omega arith) h.1 r.1,
  )

  pub requeue_all-Reverted :
      (args : List (ℕ × CosShootArg)) (lo : ℕ) (f : Fifo)
      → Inv cpu_num f
      → Ascends lo (pairs args)
      → AllRuns f (pairs args)
      → Returns (requeue_all args f) (Reverted f (pairs args))
  unfolding requeue_all pairs
  requeue_all-Reverted [] lo f v h r = (f, refl, nothing f v)
  requeue_all-Reverted ((c, arg) ∷ args) lo f v h r =
      let (g, run, a) = requeue-Reverted f c arg.pid v r.0 in
      let (f', run', b) =
        requeue_all-Reverted args (suc c) g a.good h.1
          (still_there f g c arg.pid (suc c) (pairs args) a (omega arith) h.1 r.1) in
      (f', rw run run', then_more f g f' c arg.pid (pairs args) a b)

  pub revert_failed-Reverted :
      (fail : List (ℕ × ℕ)) (olds : List (ℕ × CpuState)) (lo : ℕ) (f : Fifo)
      → All IsCos olds
      → Inv cpu_num f
      → Ascends lo fail
      → AllRuns f fail
      → Returns (revert_failed fail olds f) (Reverted f fail)
  unfolding revert_failed
  revert_failed-Reverted [] olds lo f o v h r = (f, refl, nothing f v)
  revert_failed-Reverted ((c, t) ∷ fail) olds lo f o v h r =
      let (g, run, a) = requeue-Reverted f c t v r.0 in
      let g' = restore_one olds c g in
      let a' = marks_after f g g' ((c, t) ∷ []) a (restore_one-OnlyMarks olds c g o) in
      let (f', run', b) =
        revert_failed-Reverted fail olds (suc c) g' o a'.good h.1
          (still_there f g' c t (suc c) fail a' (omega arith) h.1 r.1) in
      (f', rw run run', then_more f g' f' c t fail a' b)

  pub restore_all-Reverted :
      (olds : List (ℕ × CpuState)) (f g : Fifo) (ps : List (ℕ × ℕ))
      → All IsCos olds
      → Reverted f ps g
      → Reverted f ps (restore_all olds g)
  restore_all-Reverted olds f g ps o a =
      marks_after f g (restore_all olds g) ps a (restore_all-OnlyMarks olds g o)
