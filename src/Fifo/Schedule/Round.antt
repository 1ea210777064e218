-- ===== src/Fifo/Schedule/Round.antt =====
-- One whole call of `schedule`, under the contract of `shoot_task`.
use cos_userspace.Base.{
  ℕ, ◌≡◌, ◌≢◌, ◌<◌, ◌≤◌, ◌%◌, ◌^◌, refl, sym, ap, ◌∙◌, subst, true, List, [], ◌∷◌, ◌++◌, ok, arith,
  All, Returns, In, All-In,
}
use cos_userspace.ShootArea.{CosShootArg, ShootArea, shoot_area_size}
use cos_userspace.ShootArea.Commit.{overlay, commit_shoot_message_lem}
use cos_userspace.Lord.{Lord}
use cos_userspace.Fifo.{cos, Fifo}
use cos_userspace.Fifo.Invariant.{Inv}
use cos_userspace.Fifo.Schedule.{
  CpuSet, cpu_zero, ShootTask, Batch, first_batch, assign_loop, send, schedule,
}
use cos_userspace.Fifo.Schedule.Plan.{
  free_cpus, plan, unplaced, marked, Ascends, pairs, free_cpus-Between, plan-Ascends, plan-below,
}
use cos_userspace.Fifo.Schedule.Assign.{Runs, Lost, AllRun, Filled, assign_loop-Filled}
use cos_userspace.Fifo.Schedule.Answer.{
  pairs-AllRuns, Honest, Clean, overlay-marked, overlay-info, answered, Shot, answered-AllRuns,
  shoot-Shot,
}
use cos_userspace.Fifo.Schedule.Revert.{AllRuns, numbers, nothing}

module _ (cpu_num : ℕ) (shoot_task : ShootTask) where
  -- The plan of a round, the page that the kernel sees and its answer.
  abbrev pub round_cpus : Lord Fifo → List ℕ
  round_cpus l = free_cpus l.lord_cpu cpu_num 0 l.policy.cpu_states

  abbrev pub round_plan : Lord Fifo → List (ℕ × CosShootArg)
  round_plan l = plan (round_cpus l) l.policy.fifo_rq

  abbrev pub round_answer : Lord Fifo → ℕ × ShootArea
  round_answer l =
      shoot_task (marked (round_plan l) cpu_zero)
        (record { seq = l.seq % 2 ^ 16; area = overlay (round_plan l) l.sa.area })

  -- The assignments that are taken back; with an empty plan there is no call.
  abbrev pub taken_from : List (ℕ × CosShootArg) → ℕ × ShootArea → List (ℕ × ℕ)
  taken_from [] reply = []
  taken_from (e ∷ args) reply = answered cpu_num shoot_task (e ∷ args) reply

  abbrev pub taken_back : Lord Fifo → List (ℕ × ℕ)
  taken_back l = taken_from (round_plan l) (round_answer l)

  -- The state after a round.
  pub record Scheduled (l l' : Lord Fifo) : Type 0 where
    pub good : Inv cpu_num l'.policy
    pub clean : Clean cpu_num l'.sa
    -- What had no processor comes first, then what was taken back.
    pub queue :
        l'.policy.fifo_rq ≡ unplaced (round_cpus l) l.policy.fifo_rq ++ numbers (taken_back l)
    -- A planned task runs where the plan says, unless that was taken back.
    pub started :
        (c t : ℕ)
        → In (c, t) (pairs (round_plan l))
        → All (λ e. e.0 ≢ c) (taken_back l)
        → Runs l'.policy c t
    -- What ran goes on, unless its processor is among those.
    pub still :
        (c t : ℕ) → Runs l.policy c t → All (λ e. e.0 ≢ c) (taken_back l) → Runs l'.policy c t
    -- Nothing runs on a processor whose assignment was taken back, and it is marked as COS.
    pub leaked :
        (c t : ℕ)
        → In (c, t) (taken_back l)
        → (l'.policy.cpu_states c ≡ cos) × ((u : ℕ) → ¬ Runs l'.policy c u)
    pub keeps_lost : (c : ℕ) → Lost l.policy c → Lost l'.policy c
    pub kept : (l'.lord_cpu ≡ l.lord_cpu) × (l'.lord_pid ≡ l.lord_pid) × (l'.mq ≡ l.mq)

  -- From the assignments and what was taken back to the whole round.
  finish :
      (l l' : Lord Fifo) (b : Batch) (ps : List (ℕ × ℕ))
      → Filled cpu_num (round_cpus l) (first_batch l.policy) b
      → taken_back l ≡ ps
      → AllRuns b.state ps
      → Shot cpu_num shoot_task b l ps l'
      → Scheduled l l'
  finish l l' b ps g same r h =
      let a = h.reverted in
      record {
        good = a.good;
        clean = h.clean;
        queue =
            a.queue
            ∙ ap (λ q. q ++ numbers ps) g.rest_is
            ∙ ap (λ q. unplaced (round_cpus l) l.policy.fifo_rq ++ numbers q) (sym same);
        started = λ c t i away.
            a.on t c
              (All-In (λ e. Runs b.state e.0 e.1) (c, t) (pairs (round_plan l))
                (pairs-AllRuns b.state (round_plan l) g.started) i)
              (subst (All (λ e. e.0 ≢ c)) same away);
        still = λ c t run away. a.on t c (g.still t c run) (subst (All (λ e. e.0 ≢ c)) same away);
        leaked = λ c t i.
            let i' = subst (In (c, t)) same i in
            let run = All-In (λ e. Runs b.state e.0 e.1) (c, t) ps r i' in
            (
              a.keeps_cos c (g.good.seated t c run).1,
              λ u on. All-In (λ e. e.0 ≢ c) (c, t) ps (a.off u c on).1 i' refl,
            );
        keeps_lost = λ c w.
            let w' = g.keeps_lost c w in
            record {
              marked_cos = a.keeps_cos c w'.marked_cos;
              nobody = λ u on. w'.nobody u (a.off u c on).0;
            };
        kept = h.kept;
      }

  after_loop :
      (l : Lord Fifo) (b : Batch) (todo : List (ℕ × CosShootArg))
      → assign_loop l.lord_cpu cpu_num 0 (first_batch l.policy) ≡ ok b
      → b.assigned ≡ todo
      → schedule cpu_num shoot_task l ≡ send cpu_num shoot_task l b todo
  unfolding schedule
  after_loop l b todo run e = rw (run, schedule) (ap (send cpu_num shoot_task l b) e)

  module _ (kernel : Honest shoot_task) (fits : cpu_num ≤ shoot_area_size) where
    by_plan :
        (l : Lord Fifo)
        → Inv cpu_num l.policy
        → Clean cpu_num l.sa
        → (b : Batch) → assign_loop l.lord_cpu cpu_num 0 (first_batch l.policy) ≡ ok b
        → Filled cpu_num (round_cpus l) (first_batch l.policy) b
        → (todo : List (ℕ × CosShootArg)) → b.assigned ≡ todo
        → Returns (schedule cpu_num shoot_task l) (Scheduled l)
    unfolding send
    by_plan l v clean b run g [] e = (
      record l { policy = b.state },
      after_loop l b [] run e,
      finish l (record l { policy = b.state }) b [] g
          (ap (λ q. taken_from q (round_answer l)) (sym g.plan_is ∙ e)) tt
          (record {
            reverted = nothing cpu_num b.state g.good;
            clean = clean;
            kept = (refl, refl, refl);
          }),
    )
    by_plan l v clean b run g (x ∷ todo) e =
        let sa : ShootArea = record { seq = l.seq % 2 ^ 16; area = overlay (x ∷ todo) l.sa.area } in
        let seen : round_plan l ≡ x ∷ todo = sym g.plan_is ∙ e in
        let mask : b.assigned_mask ≡ marked (x ∷ todo) cpu_zero =
          g.marks ∙ ap (λ q. marked q cpu_zero) seen in
        let cpus =
          free_cpus-Between l.lord_cpu cpu_num 0 cpu_num l.policy.cpu_states (omega arith) in
        let inside : All (λ y. y.0 < shoot_area_size) (x ∷ todo) =
          subst (All (λ y. y.0 < shoot_area_size)) seen
            (plan-below 0 cpu_num shoot_area_size (round_cpus l) l.policy.fifo_rq fits cpus) in
        let runs : AllRun b.state (x ∷ todo) = subst (AllRun b.state) seen g.started in
        let runs' = subst (AllRun b.state) (sym e) runs in
        let order : Ascends 0 (pairs b.assigned) =
          subst (λ q. Ascends 0 (pairs q)) (sym g.plan_is)
            (plan-Ascends 0 cpu_num (round_cpus l) l.policy.fifo_rq cpus) in
        let shown = λ (i : ℕ) (is_set : b.assigned_mask i ≡ true).
          overlay-marked (λ c t. Runs b.state c t) (x ∷ todo) cpu_zero l.sa.area i runs
            (λ none_set. ground arith) (ap (λ (m : CpuSet). m i) (sym mask) ∙ is_set) in
        let fresh = λ (i : ℕ) (small : i < cpu_num).
          subst (λ q. (overlay q l.sa.area i).info ≡ 0) seen
            (overlay-info (round_cpus l) l.policy.fifo_rq l.sa.area i (clean i small)) in
        let (l', run', h) =
          shoot-Shot cpu_num shoot_task kernel fits b l sa g.good runs' order (g.olds tt) shown
            fresh in
        (
          l',
          after_loop l b (x ∷ todo) run e
              ∙ rw (commit_shoot_message_lem (x ∷ todo) l.seq l.sa inside) run',
          finish l l' b (answered cpu_num shoot_task b.assigned (shoot_task b.assigned_mask sa)) g
              (ap
                  (λ q. taken_from q (
                    shoot_task (marked q cpu_zero)
                      (record { seq = l.seq % 2 ^ 16; area = overlay q l.sa.area })))
                  seen
                ∙ ap (λ m. answered cpu_num shoot_task (x ∷ todo) (shoot_task m sa)) (sym mask)
                ∙ ap (λ q. answered cpu_num shoot_task q (shoot_task b.assigned_mask sa)) (sym e))
              (answered-AllRuns cpu_num shoot_task kernel fits b l sa g.good runs' order (g.olds tt)
                shown fresh)
              h,
        )

    -- With a kernel that keeps its contract `Honest`, at most as many processors as the page has,
    -- the scheduler's invariant and a page without left-over answers, `schedule` ends without a
    -- fault in a state as `Scheduled` says: the invariant holds and the page is clean again, the
    -- tasks of the plan that are not taken back run where the plan puts them, what ran before goes
    -- on unless its processor is taken back, and the queue is the part without a processor and
    -- then what is taken back.
    pub schedule-Scheduled :
        (l : Lord Fifo)
        → Inv cpu_num l.policy
        → Clean cpu_num l.sa
        → Returns (schedule cpu_num shoot_task l) (Scheduled l)
    schedule-Scheduled l v clean =
        let (b, run, g) =
          assign_loop-Filled cpu_num l.lord_cpu cpu_num 0 (first_batch l.policy) v (omega arith) in
        by_plan l v clean b run g b.assigned refl
