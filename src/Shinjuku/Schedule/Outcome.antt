-- ===== src/Shinjuku/Schedule/Outcome.antt =====
-- What a call of Shinjuku's `schedule` is to do, and how the parts of the call make that up.
use cos_userspace.Base.{
  ℕ, ◌+◌, ◌-◌, ◌≡◌, ◌≢◌, ◌<◌, ◌%◌, ◌^◌, refl, ap, ◌∙◌, List, [], ◌∷◌, ◌++◌, arith, All, In, All-In,
  In-All, inl, inr, count, count-append,
}
use mathlib.Core.List.{append-nil}
use cos_userspace.ShootArea.{CosShootArg, ShootArea}
use cos_userspace.ShootArea.Commit.{overlay}
use cos_userspace.Lord.{Lord}
use cos_userspace.Fifo.Schedule.{cpu_zero, ShootTask}
use cos_userspace.Fifo.Schedule.Plan.{plan, marked, pairs}
use cos_userspace.Fifo.Schedule.Revert
use cos_userspace.Fifo.Schedule.Answer.{Clean}
use cos_userspace.Fifo.Schedule.Round.{taken_from}
use cos_userspace.Shinjuku.{Shinjuku}
use cos_userspace.Shinjuku.Invariant.{Inv}
use cos_userspace.Shinjuku.Schedule.{Batch, first_batch}
use cos_userspace.Shinjuku.Schedule.Plan.{awake, Runs, numbers, given_to}
use cos_userspace.Shinjuku.Schedule.Ready.{gathered}
use cos_userspace.Shinjuku.Schedule.Chosen.{Chosen}
use cos_userspace.Shinjuku.Schedule.Filter.{those, is_free, is_cfs, may_be_taken}
use cos_userspace.Shinjuku.Schedule.Revert.{AllRuns, not_given, All-pairs}
use cos_userspace.Shinjuku.Schedule.Answer.{Shot}

module _ (cpu_num : ℕ) (shoot_task : ShootTask) (now : ℕ) where
  -- The processors from 3 on that can be given away, the lord's not among them, idle ones first, then those of CFS, then those whose
  -- task may be preempted.
  abbrev pub round_cpus : Lord Shinjuku → List ℕ
  round_cpus l =
      let n = cpu_num - 3 in
      those (is_free l.lord_cpu now l.policy) n 3
      ++ (those (is_cfs l.lord_cpu now l.policy) n 3
          ++ those (may_be_taken l.lord_cpu now l.policy) n 3)

  -- The plan of a round: those processors meet the tasks of the queue that are not marked as idle.
  abbrev pub round_plan : Lord Shinjuku → List (ℕ × CosShootArg)
  round_plan l = plan (round_cpus l) (awake l.policy.epistle l.policy.shinjuku_rq)

  -- The kernel's answer to the page of a round.
  abbrev pub round_answer : Lord Shinjuku → ℕ × ShootArea
  round_answer l =
      shoot_task (marked (round_plan l) cpu_zero)
        (record { seq = l.seq % 2 ^ 16; area = overlay (round_plan l) l.sa.area })

  abbrev pub taken_back : Lord Shinjuku → List (ℕ × ℕ)
  taken_back l = taken_from cpu_num shoot_task (round_plan l) (round_answer l)

  -- The state after a round.
  pub record Rounded (l l' : Lord Shinjuku) : Type 0 where
    pub good : Inv cpu_num l'.policy
    pub clean : Clean cpu_num l'.sa
    -- No task is lost: a task of the plan leaves the queue, one that is taken back is in it again.
    pub tasks :
        (t : ℕ)
        → count t l'.policy.shinjuku_rq + count t (numbers (round_plan l))
          ≡ count t l.policy.shinjuku_rq + count t (Revert.numbers (taken_back l))
    -- A planned task runs where the plan says and its processor is marked with it, unless that was
    -- taken back.
    pub started :
        (c t : ℕ)
        → In (c, t) (pairs (round_plan l))
        → All (λ e. e.0 ≢ c) (taken_back l)
        → Runs l'.policy c t × (l'.policy.cpu_states c ≡ given_to t)
    -- What is taken back runs nowhere, and its processor is as before the round.
    pub undone :
        (c t : ℕ)
        → In (c, t) (taken_back l)
        → (l'.policy.cpu_states c ≡ l.policy.cpu_states c) × ((d : ℕ) → ¬ Runs l'.policy d t)
    -- A processor that is not in the plan is as before.
    pub bystanders :
        (c : ℕ)
        → All (λ e. e.0 ≢ c) (pairs (round_plan l))
        → l'.policy.cpu_states c ≡ l.policy.cpu_states c
    -- A task that ran counts as running, where it ran.
    pub still : (c t : ℕ) → Runs l.policy c t → Runs l'.policy c t
    pub kept : (l'.lord_cpu ≡ l.lord_cpu) × (l'.lord_pid ≡ l.lord_pid) × (l'.mq ≡ l.mq)
    pub same_page : l'.policy.epistle ≡ l.policy.epistle
    -- Only what was planned is taken back.
    pub planned : (c t : ℕ) → In (c, t) (taken_back l) → In (c, t) (pairs (round_plan l))

  -- Of a list of tasks on different processors, a task whose processor is not among those.
  apart_tasks :
      (f : Shinjuku) (c t : ℕ) (ps : List (ℕ × ℕ))
      → AllRuns f ps
      → Runs f c t
      → All (λ e. e.0 ≢ c) ps
      → All (λ e. e.1 ≢ t) ps
  apart_tasks f c t [] r on away = tt
  apart_tasks f c t ((d, u) ∷ ps) r on away =
      ((λ e. ground (arith, r.0, on, away.0)), apart_tasks f c t ps r.1 on away.1)

  planned_number :
      (c t : ℕ) (args : List (ℕ × CosShootArg))
      → In (c, t) (pairs args)
      → 0 < count t (numbers args)
  unfolding pairs count
  planned_number c t [] i = absurd i
  planned_number c t ((d, arg) ∷ args) (inl e) = ground (arith, ap (λ (p : ℕ × ℕ). p.1) e)
  planned_number c t ((d, arg) ∷ args) (inr i) = ground (arith, planned_number c t args i)

  module _ (l l' : Lord Shinjuku) (b : Batch) (v : Inv cpu_num l.policy)
      (g : Chosen cpu_num l.policy.cpu_states (round_cpus l) (first_batch l.policy) b)
      (h : Shot cpu_num shoot_task now l.policy.cpu_states
        (record b { state = gathered b })
        l
        (taken_back l)
        l')
      (planned : (c t : ℕ) → In (c, t) (taken_back l) → In (c, t) (pairs (round_plan l))) where
    runs_now : AllRuns b.state (pairs (round_plan l))
    runs_now = All-pairs (Runs b.state) (round_plan l) g.started

    queue_holds :
        (t : ℕ)
        → count t b.state.shinjuku_rq + count t b.onqueue_idle + count t (numbers (round_plan l))
          ≡ count t l.policy.shinjuku_rq
    queue_holds t = omega (
      arith,
      g.tasks t,
      count-append t b.state.shinjuku_rq b.onqueue_idle,
      ap (count t) (append-nil l.policy.shinjuku_rq),
    )

    -- A task that ran before the round is not in the plan.
    not_planned : (c t : ℕ) → Runs l.policy c t → All (λ e. e.1 ≢ t) (taken_back l)
    not_planned c t r =
        In-All (λ e. e.1 ≢ t) (taken_back l)
          λ e i same.
            let waits : 0 < count e.1 l.policy.shinjuku_rq =
              omega (
                arith,
                queue_holds e.1,
                planned_number e.0 e.1 (round_plan l) (planned e.0 e.1 i),
              ) in
            absurd (ground (arith, waits, v.once e.1, same, r))

    taken-AllRuns : AllRuns b.state (taken_back l)
    taken-AllRuns =
        In-All (λ e. Runs b.state e.0 e.1) (taken_back l)
          λ e i.
            All-In (λ p. Runs b.state p.0 p.1) e (pairs (round_plan l)) runs_now (planned e.0 e.1 i)

    pub finish : Rounded l l'
    finish = record {
      good = h.reverted.good;
      clean = h.clean;
      tasks = λ t. omega (
        arith,
        ap (count t) h.reverted.queue,
        count-append t (b.state.shinjuku_rq ++ b.onqueue_idle) (Revert.numbers (taken_back l)),
        count-append t b.state.shinjuku_rq b.onqueue_idle,
        queue_holds t,
      );
      started = λ c t i away.
          let on = All-In (λ p. Runs b.state p.0 p.1) (c, t) (pairs (round_plan l)) runs_now i in
          (
            h.reverted.on t c on (apart_tasks b.state c t (taken_back l) taken-AllRuns on away),
            h.back.same c away
                ∙ All-In (λ p. b.state.cpu_states p.0 ≡ given_to p.1) (c, t) (pairs (round_plan l))
                    (All-pairs (λ d u. b.state.cpu_states d ≡ given_to u) (round_plan l)
                      g.marked_new)
                    i,
          );
      undone = λ c t i. (
        h.back.undone c t i,
        λ d r. All-In (λ e. e.1 ≢ t) (c, t) (taken_back l) (h.reverted.off t d r).1 i refl,
      );
      bystanders = λ c away.
          h.back.same c (
            In-All (λ e. e.0 ≢ c) (taken_back l)
              (λ e i. All-In (λ p. p.0 ≢ c) e (pairs (round_plan l)) away (planned e.0 e.1 i)))
          ∙ g.marked_old c (not_given c (round_plan l) away);
      still = λ c t r. h.reverted.on t c (g.still c t r) (not_planned c t r);
      kept = h.kept;
      same_page = h.reverted.same_page ∙ g.same_page;
      planned = planned;
    }
