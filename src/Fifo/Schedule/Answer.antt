-- ===== src/Fifo/Schedule/Answer.antt =====
-- The kernel's answer to a round, and what `schedule` does with it.
use cos_userspace.Base.{
  ℕ, zero, suc, ◌+◌, ◌≡◌, ◌≢◌, ◌<◌, ◌≤◌, refl, sym, ◌∙◌, subst, true, false, List, [], ◌∷◌, arith,
  ◌==◌, if◌then◌else◌, All, Returns, Bool-cases, ==_iff, inl, inr,
}
use cos_userspace.ShootArea.{CosShootArg, ShootArea, shoot_area_size, sa_right, write}
use cos_userspace.ShootArea.Commit.{overlay}
use cos_userspace.ShootArea.Check.{failed_from, cleared_from, check_shoot_state_lem}
use cos_userspace.Lord.{Lord}
use cos_userspace.Fifo.{Fifo}
use cos_userspace.Fifo.Invariant.{Inv}
use cos_userspace.Fifo.Schedule.{CpuSet, cpu_set, ShootTask, Batch, restore_all, shoot}
use cos_userspace.Fifo.Schedule.Plan.{plan, marked, Ascends, Ascends-mono, pairs}
use cos_userspace.Fifo.Schedule.Assign.{IsCos, Runs, AllRun}
use cos_userspace.Fifo.Schedule.Revert.{
  AllRuns, Reverted, requeue_all-Reverted, revert_failed-Reverted, restore_all-Reverted,
}

-- What the code relies on in the kernel: `shoot_task` leaves the pids, answers only for the
-- processors of the mask, and answers nothing when the call fails.
pub record Honest (shoot_task : ShootTask) : Type 0 where
  pub keeps_pid :
      (mask : CpuSet) (sa : ShootArea) (i : ℕ)
      → ((shoot_task mask sa).1.area i).pid ≡ (sa.area i).pid
  pub only_masked :
      (mask : CpuSet) (sa : ShootArea) (i : ℕ)
      → mask i ≡ false
      → ((shoot_task mask sa).1.area i).info ≡ (sa.area i).info
  pub silent_failure :
      (mask : CpuSet) (sa : ShootArea) (i : ℕ)
      → (shoot_task mask sa).0 ≢ 0
      → ((shoot_task mask sa).1.area i).info ≡ (sa.area i).info

-- No answer of an earlier round is left.
abbrev pub Clean : ℕ → ShootArea → Type 0
Clean cpu_num sa = (i : ℕ) → i < cpu_num → (sa.area i).info ≡ 0

-- What `commit_shoot_message` wrote for the processors of the mask.
pub overlay-marked {κ} :
    (Q : ℕ → ℕ → Type κ) (args : List (ℕ × CosShootArg)) (mask : CpuSet) (area : ℕ → CosShootArg)
    (i : ℕ)
    → All (λ e. Q e.0 e.1.pid) args
    → (mask i ≡ true → Q i (area i).pid)
    → marked args mask i ≡ true
    → Q i (overlay args area i).pid
unfolding overlay marked
overlay-marked Q [] mask area i h k m = k m
overlay-marked Q ((c, arg) ∷ args) mask area i h k m =
    overlay-marked Q args (cpu_set mask c) (write area c arg) i h.1 at m
  where
    at : cpu_set mask c i ≡ true → Q i (write area c arg i).pid
    at m' = elim (Bool-cases (i == c)) [
      | inl hit ↦ rw hit (subst (λ j. Q j arg.pid) (sym ((==_iff i c).0 hit)) h.0)
      | inr miss ↦ rw miss (k (rw miss at m'))
    ]

pub overlay-info :
    (cs rq : List ℕ) (area : ℕ → CosShootArg) (i : ℕ)
    → (area i).info ≡ 0
    → (overlay (plan cs rq) area i).info ≡ 0
unfolding overlay plan
overlay-info [] rq area i h = h
overlay-info (c ∷ cs) [] area i h = h
overlay-info (c ∷ cs) (t ∷ rq) area i h = overlay-info cs rq _ i (ground arith)

pub failed_from-Ascends : (n i : ℕ) (area : ℕ → CosShootArg) → Ascends i (failed_from n i area)
unfolding failed_from
failed_from-Ascends zero i area = tt
failed_from-Ascends (suc n) i area =
    let rest = failed_from-Ascends n (i + 1) area in
    elim (Bool-cases ((area i).info == sa_right)) [
      | inl right ↦
          rw right (Ascends-mono (i + 1) i (failed_from n (i + 1) area) (omega arith) rest)
      | inr wrong ↦ rw wrong (
        omega arith,
        Ascends-mono (i + 1) (suc i) (failed_from n (i + 1) area) (omega arith) rest,
      )
    ]

pub failed_from-All {κ} :
    (Q : ℕ → ℕ → Type κ) (n i : ℕ) (area : ℕ → CosShootArg)
    → ((j : ℕ) → j < i + n → (area j).info ≢ 0 → Q j (area j).pid)
    → All (λ e. Q e.0 e.1) (failed_from n i area)
unfolding failed_from
failed_from-All Q zero i area h = tt
failed_from-All Q (suc n) i area h =
    let rest = failed_from-All Q n (i + 1) area (λ j small. h j (omega arith)) in
    elim (Bool-cases ((area i).info == sa_right)) [
      | inl right ↦ rw right rest
      | inr wrong ↦ rw wrong (h i (omega arith) (ground arith), rest)
    ]

pub cleared-Clean :
    (cpu_num seq : ℕ) (area : ℕ → CosShootArg)
    → Clean cpu_num (record { seq = seq; area = cleared_from cpu_num 0 area })
unfolding cleared_from
cleared-Clean cpu_num seq area i h = ground arith

pub pairs-AllRuns :
    (f : Fifo) (args : List (ℕ × CosShootArg)) → AllRun f args → AllRuns f (pairs args)
unfolding pairs
pairs-AllRuns f [] h = tt
pairs-AllRuns f (e ∷ args) h = (h.0, pairs-AllRuns f args h.1)

module _ (cpu_num : ℕ) (shoot_task : ShootTask) where
  -- The assignments that are taken back after the call: all of them when it failed, else those
  -- that the kernel reports.
  abbrev pub answered : List (ℕ × CosShootArg) → ℕ × ShootArea → List (ℕ × ℕ)
  answered args (shoot_err, answer) =
      if shoot_err == 0 then failed_from cpu_num 0 answer.area else pairs args

  -- What `shoot` leaves of the assignments in `b`.
  pub record Shot (b : Batch) (l : Lord Fifo) (ps : List (ℕ × ℕ)) (l' : Lord Fifo) : Type 0 where
    pub reverted : Reverted cpu_num b.state ps l'.policy
    pub clean : Clean cpu_num l'.sa
    pub kept : (l'.lord_cpu ≡ l.lord_cpu) × (l'.lord_pid ≡ l.lord_pid) × (l'.mq ≡ l.mq)

  module _ (kernel : Honest shoot_task) (fits : cpu_num ≤ shoot_area_size) (b : Batch)
      (l : Lord Fifo) (sa : ShootArea) (v : Inv cpu_num b.state) (runs : AllRun b.state b.assigned)
      (order : Ascends 0 (pairs b.assigned)) (olds : All IsCos b.old_cpu_states)
      (shown : (i : ℕ) → b.assigned_mask i ≡ true → Runs b.state i (sa.area i).pid)
      (clean : Clean cpu_num sa) where
    abbrev pub reply : ℕ × ShootArea
    reply = shoot_task b.assigned_mask sa

    -- A processor that the kernel reports was assigned, with the task of the plan.
    reported :
        (i : ℕ) → i < 0 + cpu_num → (reply.1.area i).info ≢ 0 → Runs b.state i (reply.1.area i).pid
    reported i small bad = elim (Bool-cases (b.assigned_mask i)) [
      | inl is_set ↦
          subst (Runs b.state i) (sym (kernel.keeps_pid b.assigned_mask sa i)) (shown i is_set)
      | inr unset ↦
          absurd (bad (kernel.only_masked b.assigned_mask sa i unset ∙ clean i (omega arith)))
    ]

    pub answered-AllRuns : AllRuns b.state (answered b.assigned reply)
    answered-AllRuns = elim (Bool-cases (reply.0 == 0)) [
      | inl came ↦ rw came (failed_from-All (Runs b.state) cpu_num 0 reply.1.area reported)
      | inr failed ↦ rw failed (pairs-AllRuns b.state b.assigned runs)
    ]

    shoot_came :
        (reply.0 == 0) ≡ true
        → Returns (shoot cpu_num shoot_task b l sa) (Shot b l (answered b.assigned reply))
    unfolding shoot
    shoot_came came =
        let fail = failed_from cpu_num 0 reply.1.area in
        let (f', run, a) =
          revert_failed-Reverted cpu_num fail b.old_cpu_states 0 b.state olds v
            (failed_from-Ascends cpu_num 0 reply.1.area)
            (failed_from-All (Runs b.state) cpu_num 0 reply.1.area reported) in
        (
          record l {
            sa = record { seq = reply.1.seq; area = cleared_from cpu_num 0 reply.1.area };
            policy = f';
          },
          rw (came, shoot, check_shoot_state_lem cpu_num reply.1 fits, run),
          record {
            reverted = rw came a;
            clean = cleared-Clean cpu_num reply.1.seq reply.1.area;
            kept = (refl, refl, refl);
          },
        )

    shoot_failed :
        (reply.0 == 0) ≡ false
        → Returns (shoot cpu_num shoot_task b l sa) (Shot b l (answered b.assigned reply))
    unfolding shoot
    shoot_failed failed =
        let (f', run, a) =
          requeue_all-Reverted cpu_num b.assigned 0 b.state v order
            (pairs-AllRuns b.state b.assigned runs) in
        (
          record l { sa = reply.1; policy = restore_all b.old_cpu_states f' },
          rw (failed, shoot, run),
          record {
            reverted = rw failed (
                restore_all-Reverted cpu_num b.old_cpu_states b.state f' (pairs b.assigned) olds a);
            clean = λ i small.
                kernel.silent_failure b.assigned_mask sa i (λ e. ground arith) ∙ clean i small;
            kept = (refl, refl, refl);
          },
        )

    pub shoot-Shot :
        Returns (shoot cpu_num shoot_task b l sa) (Shot b l (answered b.assigned reply))
    shoot-Shot = elim (Bool-cases (reply.0 == 0)) [
      | inl came ↦ shoot_came came
      | inr failed ↦ shoot_failed failed
    ]
