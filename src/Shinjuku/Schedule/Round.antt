-- ===== src/Shinjuku/Schedule/Round.antt =====
-- One whole call of Shinjuku's `schedule`, under the contract of `shoot_task`.
use cos_userspace.Base.{
  ℕ, ◌-◌, ◌≡◌, ◌≢◌, ◌<◌, ◌≤◌, ◌%◌, ◌^◌, refl, sym, ap, ◌∙◌, subst, true, List, [], ◌∷◌, ok, err,
  arith, All, Returns, In, In-All, inl, inr, count, length,
}
use cos_userspace.ShootArea.{CosShootArg, ShootArea, shoot_area_size}
use cos_userspace.ShootArea.Commit.{overlay, commit_shoot_message_lem}
use cos_userspace.Lord.{Lord}
use cos_userspace.Epistle.Laws.{Reaches}
use cos_userspace.Fifo.Schedule.{CpuSet, cpu_zero, ShootTask}
use cos_userspace.Fifo.Schedule.Plan.{marked, pairs}
use cos_userspace.Fifo.Schedule.Answer.{Honest, Clean, overlay-marked, overlay-info, answered}
use cos_userspace.Fifo.Schedule.Round.{taken_from}
use cos_userspace.Shinjuku.{Shinjuku}
use cos_userspace.Shinjuku.Invariant.{Inv}
use cos_userspace.Shinjuku.Schedule.{
  Cpus, Batch, first_batch, flush_idle, sort_loop, choose_loop, send, schedule,
}
use cos_userspace.Shinjuku.Schedule.Plan.{all_cpus, awake, Runs, plan-distinct}
use cos_userspace.Shinjuku.Schedule.Ready.{gathered}
use cos_userspace.Shinjuku.Schedule.Start.{first-Ready, flush_idle-gathered}
use cos_userspace.Shinjuku.Schedule.Chosen.{Chosen}
use cos_userspace.Shinjuku.Schedule.Choice.{choose_loop-Chosen}
use cos_userspace.Shinjuku.Schedule.Sort.{
  Coherent, Named, is_idle-resting, Sorted, Sorted-empty, sort_loop-Sorted,
}
use cos_userspace.Shinjuku.Schedule.Filter.{sort_loop-filled}
use cos_userspace.Shinjuku.Schedule.Revert.{
  Apart, AllRuns, Reverted-nothing, distinct-Apart, not_given, All-pairs, plan-InArea,
}
use cos_userspace.Shinjuku.Schedule.Answer.{Shot, Assigned, answered-In, shoot-Shot}
use cos_userspace.Shinjuku.Schedule.Outcome.{
  Rounded, round_cpus, round_plan, round_answer, taken_back, finish,
}

module _ (cpu_num : ℕ) (shoot_task : ShootTask) (now : ℕ) where
  pairs_hold :
      (e : ℕ × CosShootArg) (args : List (ℕ × CosShootArg))
      → In e args
      → In (e.0, e.1.pid) (pairs args)
  unfolding pairs
  pairs_hold e [] i = absurd i
  pairs_hold e (a ∷ args) (inl same) = inl (ap (λ (x : ℕ × CosShootArg). (x.0, x.1.pid)) same)
  pairs_hold e (a ∷ args) (inr i) = inr (pairs_hold e args i)

  module _ (kernel : Honest shoot_task) (fits : cpu_num ≤ shoot_area_size) (l : Lord Shinjuku)
      (b : Batch) (v : Inv cpu_num l.policy) (clean : Clean cpu_num l.sa)
      (s : (i : ℕ)
        → (count i (round_cpus cpu_num shoot_task now l) ≤ 1)
          × (0 < count i (round_cpus cpu_num shoot_task now l) → i < cpu_num))
      (g : Chosen cpu_num l.policy.cpu_states
        (round_cpus cpu_num shoot_task now l)
        (first_batch l.policy)
        b) where
    abbrev whole : Batch
    whole = record b { state = gathered b }

    assigned : Assigned cpu_num shoot_task now l.policy.cpu_states whole
    assigned =
        let e = sym g.plan_is in
        record {
          good = g.good;
          runs =
              subst (λ a. AllRuns b.state (pairs a)) e
                (All-pairs (Runs b.state) (round_plan cpu_num shoot_task now l) g.started);
          apart =
              subst (λ a. Apart (pairs a)) e
                (distinct-Apart (round_plan cpu_num shoot_task now l) (λ i. omega (
                  arith,
                  plan-distinct (round_cpus cpu_num shoot_task now l)
                      (awake l.policy.epistle l.policy.shinjuku_rq) i,
                  (s i).0,
                )));
          saved = g.saved;
          cpus_saved = g.cpus_saved;
          restores = g.back;
          elsewhere = λ i away. g.marked_old i (
              not_given i (round_plan cpu_num shoot_task now l)
                (subst (λ a. All (λ x. x.0 ≢ i) (pairs a)) g.plan_is away));
        }

    sent :
        (todo : List (ℕ × CosShootArg))
        → b.assigned ≡ todo
        → Returns (send cpu_num shoot_task now l whole todo) (Rounded cpu_num shoot_task now l)
    unfolding send
    sent [] e =
        let none_taken : taken_back cpu_num shoot_task now l ≡ [] =
          ap (λ p. taken_from cpu_num shoot_task p (round_answer cpu_num shoot_task now l))
            (sym g.plan_is ∙ e) in
        (
          record l { policy = whole.state },
          refl,
          finish cpu_num shoot_task now l (record l { policy = whole.state }) b v g
              (subst
                (λ ps.
                  Shot cpu_num shoot_task now l.policy.cpu_states whole l ps
                    (record l { policy = whole.state }))
                (sym none_taken)
                (record {
                  reverted = Reverted-nothing cpu_num whole.state g.good;
                  back = record { undone = λ c t i. absurd i; same = λ i away. refl };
                  clean = clean;
                  kept = (refl, refl, refl);
                }))
              (λ c t i. absurd (subst (In (c, t)) none_taken i)),
        )
    sent (x ∷ todo) e =
        let sa : ShootArea = record { seq = l.seq % 2 ^ 16; area = overlay (x ∷ todo) l.sa.area } in
        let seen : round_plan cpu_num shoot_task now l ≡ x ∷ todo = sym g.plan_is ∙ e in
        let inside : All (λ y. y.0 < shoot_area_size) (x ∷ todo) =
          subst (All (λ y. y.0 < shoot_area_size)) seen (
            plan-InArea (round_cpus cpu_num shoot_task now l) _
              (λ i p. omega (arith, (s i).1 p, fits))) in
        let mask : b.assigned_mask ≡ marked (x ∷ todo) cpu_zero =
          g.marks ∙ ap (λ q. marked q cpu_zero) seen in
        let shown = λ (i : ℕ) (is_set : b.assigned_mask i ≡ true).
          overlay-marked (λ c t. In (c, t) (pairs b.assigned)) (x ∷ todo) cpu_zero l.sa.area i
            (In-All (λ y. In (y.0, y.1.pid) (pairs b.assigned)) (x ∷ todo)
              (λ y w. pairs_hold y b.assigned (subst (In y) (sym e) w)))
            (λ none_set. ground arith) (ap (λ (m : CpuSet). m i) (sym mask) ∙ is_set) in
        let fresh = λ (i : ℕ) (small : i < cpu_num).
          subst (λ q. (overlay q l.sa.area i).info ≡ 0) seen
            (overlay-info (round_cpus cpu_num shoot_task now l) _ l.sa.area i (clean i small)) in
        let (l', run, h) =
          shoot-Shot cpu_num shoot_task now kernel fits l.policy.cpu_states whole l sa assigned
            shown fresh in
        let same : taken_back cpu_num shoot_task now l
            ≡ answered cpu_num shoot_task b.assigned (shoot_task b.assigned_mask sa) =
          ap
            (λ q. taken_from cpu_num shoot_task q (
              shoot_task (marked q cpu_zero)
                (record { seq = l.seq % 2 ^ 16; area = overlay q l.sa.area })))
            seen
          ∙ ap (λ m. answered cpu_num shoot_task (x ∷ todo) (shoot_task m sa)) (sym mask)
          ∙ ap (λ q. answered cpu_num shoot_task q (shoot_task b.assigned_mask sa)) (sym e) in
        (
          l',
          rw (commit_shoot_message_lem (x ∷ todo) l.seq l.sa inside) run,
          finish cpu_num shoot_task now l l' b v g
              (subst (λ ps. Shot cpu_num shoot_task now l.policy.cpu_states whole l ps l')
                (sym same) h)
              (λ c t i.
                subst (λ a. In (c, t) (pairs a)) g.plan_is
                  (answered-In cpu_num shoot_task now kernel fits l.policy.cpu_states whole l sa
                    assigned shown fresh c t (subst (In (c, t)) same i))),
        )

  schedule-send :
      (fuel : ℕ) (l : Lord Shinjuku) (q : Cpus) (b : Batch)
      → sort_loop l.lord_cpu now l.policy
          (cpu_num - 3)
          3
          (record { idle_cpu = []; cos_cpu = []; cfs_cpu = [] })
        ≡ ok q
      → choose_loop now fuel q (first_batch l.policy) ≡ ok b
      → schedule cpu_num shoot_task now fuel l
        ≡ send cpu_num shoot_task now l (flush_idle b) b.assigned
  unfolding schedule
  schedule-send fuel l q b run run' = rw (run, run') refl

  -- With a kernel that keeps its contract `Honest`, between 3 and 511 processors, the scheduler's
  -- invariant, a page without left-over answers, processors marked as COS that have a running task
  -- for which the search in the epistle ends, queued tasks for which it ends, and more fuel than
  -- queued tasks, the Shinjuku `schedule` ends without a fault in a state as `Rounded` says: the
  -- invariant holds and the page is clean again, no task is lost, a task of the plan that is not
  -- taken back runs where the plan says and its processor is marked with it, a task that is taken
  -- back runs nowhere and its processor is as before, and so is every processor that is not in the
  -- plan.
  pub schedule-Rounded :
      (kernel : Honest shoot_task) (fuel : ℕ) (l : Lord Shinjuku)
      → 3 ≤ cpu_num
      → cpu_num ≤ shoot_area_size
      → Inv cpu_num l.policy
      → Clean cpu_num l.sa
      → Coherent l.policy
      → ((t : ℕ) → 0 < count t l.policy.shinjuku_rq → Reaches l.policy.epistle t)
      → length l.policy.shinjuku_rq < fuel
      → Returns (schedule cpu_num shoot_task now fuel l) (Rounded cpu_num shoot_task now l)
  schedule-Rounded kernel fuel l three fits v clean w looks h =
      let empty : Cpus = record { idle_cpu = []; cos_cpu = []; cfs_cpu = [] } in
      let named : Named l.policy = λ t task e. ground (arith, v.filed t, e) in
      let (q, run, s) =
        sort_loop-Sorted l.lord_cpu now (cpu_num - 3) 3 l.policy empty w named Sorted-empty in
      let s' : Sorted cpu_num q = subst (λ hi. Sorted hi q) (omega arith) s in
      let (b, run', g) =
        choose_loop-Chosen cpu_num l.policy.cpu_states now fuel q (first_batch l.policy)
          (first-Ready cpu_num l.policy q v s' (λ t p.
            is_idle-resting l.policy.epistle t (ground (arith, v.once t, v.filed t)) (looks t p)))
          h in
      let cpus : round_cpus cpu_num shoot_task now l ≡ all_cpus q =
        ap (λ r. elim r [ ok q ↦ all_cpus q | err e ↦ [] ])
          (sym (sort_loop-filled l.lord_cpu now l.policy (cpu_num - 3) 3 empty w named) ∙ run) in
      let (m, run'', r) =
        sent kernel fits l b v clean
          (λ i.
            subst (λ cs. (count i cs ≤ 1) × (0 < count i cs → i < cpu_num)) (sym cpus)
              (s'.distinct i, s'.below i))
          (subst (λ cs. Chosen cpu_num l.policy.cpu_states cs (first_batch l.policy) b) (sym cpus)
            g)
          b.assigned refl in
      let flushed : flush_idle b ≡ record b { state = gathered b } =
        ap (λ f. record b { state = f }) (flush_idle-gathered cpu_num b g.good) in
      (
        m,
        schedule-send fuel l q b run run'
            ∙ ap (λ w. send cpu_num shoot_task now l w b.assigned) flushed
            ∙ run'',
        r,
      )
