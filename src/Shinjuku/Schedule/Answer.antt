-- ===== src/Shinjuku/Schedule/Answer.antt =====
-- The kernel's answer to a round of Shinjuku, and what `schedule` does with it.
use cos_userspace.Base.{
  ℕ, ◌+◌, ◌≡◌, ◌≢◌, ◌<◌, ◌≤◌, refl, sym, ap, ◌∙◌, subst, true, false, List, [], ◌∷◌, arith, ◌==◌,
  All, In, All-In, All-map, Returns, Bool-cases, ==_iff, inl, inr, count, map,
}
use cos_userspace.ShootArea.{CosShootArg, ShootArea, shoot_area_size}
use cos_userspace.ShootArea.Check.{failed_from, cleared_from, check_shoot_state_lem}
use cos_userspace.Lord.{Lord}
use cos_userspace.Fifo.Schedule.{ShootTask}
use cos_userspace.Fifo.Schedule.Plan.{pairs}
use cos_userspace.Fifo.Schedule.Answer.{
  Honest, Clean, failed_from-Ascends, failed_from-All, cleared-Clean, answered,
}
use cos_userspace.Shinjuku.{CpuState, Shinjuku, write_cpu}
use cos_userspace.Shinjuku.Invariant.{Inv}
use cos_userspace.Shinjuku.Schedule.{Batch, restore_all, restore_one, revert_failed, shoot}
use cos_userspace.Shinjuku.Schedule.Plan.{restored, restore_all-restored, Runs, cpus_of}
use cos_userspace.Shinjuku.Schedule.Revert.{
  Apart, AllRuns, Ascends-Apart, Reverted, Reverted-nothing, Reverted-marks, Reverted-then,
  requeue-Reverted, others_run, requeue_all-Reverted,
}

abbrev pub Saved : (ℕ → CpuState) → List (ℕ × CpuState) → Type 0
Saved orig = All (λ e. e.1 ≡ orig e.0)

-- The saved state of a processor is put back.
restore_one-write :
    (orig : ℕ → CpuState) (olds : List (ℕ × CpuState)) (c : ℕ) (f : Shinjuku)
    → Saved orig olds
    → 0 < count c (map (λ e. e.0) olds)
    → restore_one olds c f ≡ record f { cpu_states = write_cpu f.cpu_states c (orig c) }
unfolding restore_one count
restore_one-write orig [] c f s h = absurd (omega arith)
restore_one-write orig ((d, old) ∷ olds) c f s h = elim (Bool-cases (d == c)) [
  | inl hit ↦ rw hit (
      ap (λ x. record f { cpu_states = write_cpu f.cpu_states c x })
        (s.0 ∙ ap orig ((==_iff d c).0 hit)))
  | inr miss ↦ rw miss (restore_one-write orig olds c f s.1 (ground (arith, miss)))
]

-- The processors of `ps` are as in `orig`, the others as in `old`.
pub record Back (orig : ℕ → CpuState) (ps : List (ℕ × ℕ)) (old new : ℕ → CpuState) : Type 0 where
  pub undone : (c t : ℕ) → In (c, t) ps → new c ≡ orig c
  pub same : (i : ℕ) → All (λ e. e.0 ≢ i) ps → new i ≡ old i

Back-cons :
    (orig cpus new : ℕ → CpuState) (c t : ℕ) (ps : List (ℕ × ℕ))
    → All (λ e. e.0 ≢ c) ps
    → Back orig ps (write_cpu cpus c (orig c)) new
    → Back orig ((c, t) ∷ ps) cpus new
Back-cons orig cpus new c t ps away m = record { undone = at; same = elsewhere }
  where
    at : (d u : ℕ) → In (d, u) ((c, t) ∷ ps) → new d ≡ orig d
    at d u (inl e) =
        subst (λ i. new i ≡ orig i) (sym (ap (λ (p : ℕ × ℕ). p.0) e)) (m.same c away ∙ ground arith)
    at d u (inr i) = m.undone d u i

    elsewhere : (i : ℕ) → All (λ e. e.0 ≢ i) ((c, t) ∷ ps) → new i ≡ cpus i
    elsewhere i far = m.same i far.1 ∙ ground (arith, far.0)

module _ (cpu_num : ℕ) (orig : ℕ → CpuState) (olds : List (ℕ × CpuState))
    (s : Saved orig olds) where
  pub revert_failed-Reverted :
      (ps : List (ℕ × ℕ)) (f : Shinjuku)
      → Inv cpu_num f
      → AllRuns f ps
      → Apart ps
      → All (λ e. 0 < count e.0 (map (λ o. o.0) olds)) ps
      → Returns
          (revert_failed ps olds f)
          (λ f'. Reverted cpu_num f ps f' × Back orig ps f.cpu_states f'.cpu_states)
  unfolding revert_failed
  revert_failed-Reverted [] f v r d k = (
    f,
    refl,
    (Reverted-nothing cpu_num f v, record { undone = λ c t i. absurd i; same = λ i away. refl }),
  )
  revert_failed-Reverted ((c, t) ∷ ps) f v r d k =
      let (f', run, (a, cpus)) = requeue-Reverted cpu_num f c t v r.0 in
      let g : Shinjuku = record f' { cpu_states = write_cpu f'.cpu_states c (orig c) } in
      let a' = Reverted-marks cpu_num f f' ((c, t) ∷ []) g.cpu_states a in
      let (f'', run', (b, m)) =
        revert_failed-Reverted ps g a'.good (others_run cpu_num f g c t ps a' r.0 d.0 r.1) d.1
          k.1 in
      (
        f'',
        rw (run, restore_one-write orig olds c f' s k.0) run',
        (
          Reverted-then cpu_num f g f'' c t ps a' b,
          subst (λ old. Back orig ((c, t) ∷ ps) old f''.cpu_states) cpus
              (Back-cons orig f'.cpu_states f''.cpu_states c t ps d.0 m),
        ),
      )

In-count :
    (c t : ℕ) (args : List (ℕ × CosShootArg)) → In (c, t) (pairs args) → 0 < count c (cpus_of args)
unfolding pairs count
In-count c t [] i = absurd i
In-count c t ((d, arg) ∷ args) (inl e) = ground (arith, ap (λ (p : ℕ × ℕ). p.0) e)
In-count c t ((d, arg) ∷ args) (inr i) = ground (arith, In-count c t args i)

module _ (cpu_num : ℕ) (shoot_task : ShootTask) (now : ℕ) where
  -- What `shoot` leaves of the assignments in `b`, with `orig` the processors before the round.
  pub record Shot (orig : ℕ → CpuState) (b : Batch) (l : Lord Shinjuku) (ps : List (ℕ × ℕ))
      (l' : Lord Shinjuku) : Type 0 where
    pub reverted : Reverted cpu_num b.state ps l'.policy
    pub back : Back orig ps b.state.cpu_states l'.policy.cpu_states
    pub clean : Clean cpu_num l'.sa
    pub kept : (l'.lord_cpu ≡ l.lord_cpu) × (l'.lord_pid ≡ l.lord_pid) × (l'.mq ≡ l.mq)

  -- The batch when the loop that chooses is over.
  pub record Assigned (orig : ℕ → CpuState) (b : Batch) : Type 0 where
    pub good : Inv cpu_num b.state
    pub runs : AllRuns b.state (pairs b.assigned)
    pub apart : Apart (pairs b.assigned)
    pub saved : Saved orig b.old_cpu_states
    pub cpus_saved : map (λ e. e.0) b.old_cpu_states ≡ cpus_of b.assigned
    pub restores : (i : ℕ) → restored b.old_cpu_states b.state.cpu_states i ≡ orig i
    pub elsewhere : (i : ℕ) → All (λ e. e.0 ≢ i) (pairs b.assigned) → b.state.cpu_states i ≡ orig i

  module _ (kernel : Honest shoot_task) (fits : cpu_num ≤ shoot_area_size) (orig : ℕ → CpuState)
      (b : Batch) (l : Lord Shinjuku) (sa : ShootArea) (g : Assigned orig b)
      (shown : (i : ℕ) → b.assigned_mask i ≡ true → In (i, (sa.area i).pid) (pairs b.assigned))
      (clean : Clean cpu_num sa) where
    abbrev pub reply : ℕ × ShootArea
    reply = shoot_task b.assigned_mask sa

    -- A processor that the kernel reports was assigned, with the task of the plan.
    reported :
        (i : ℕ)
        → i < 0 + cpu_num
        → (reply.1.area i).info ≢ 0
        → In (i, (reply.1.area i).pid) (pairs b.assigned)
    reported i small bad = elim (Bool-cases (b.assigned_mask i)) [
      | inl is_set ↦
          subst (λ t. In (i, t) (pairs b.assigned)) (sym (kernel.keeps_pid b.assigned_mask sa i))
            (shown i is_set)
      | inr unset ↦
          absurd (bad (kernel.only_masked b.assigned_mask sa i unset ∙ clean i (omega arith)))
    ]

    fail_planned : All (λ e. In (e.0, e.1) (pairs b.assigned)) (failed_from cpu_num 0 reply.1.area)
    fail_planned =
        failed_from-All (λ c t. In (c, t) (pairs b.assigned)) cpu_num 0 reply.1.area reported

    -- Only assignments are taken back.
    pub answered-In :
        (c t : ℕ)
        → In (c, t) (answered cpu_num shoot_task b.assigned reply)
        → In (c, t) (pairs b.assigned)
    answered-In c t = elim (Bool-cases (reply.0 == 0)) [
      | inl came ↦ rw came (
          All-In (λ e. In (e.0, e.1) (pairs b.assigned)) (c, t) (failed_from cpu_num 0 reply.1.area)
            fail_planned)
      | inr failed ↦ rw failed (λ i. i)
    ]

    shoot_came :
        (reply.0 == 0) ≡ true
        → Returns
            (shoot cpu_num shoot_task now b l sa)
            (Shot orig b l (answered cpu_num shoot_task b.assigned reply))
    unfolding shoot
    shoot_came came =
        let fail = failed_from cpu_num 0 reply.1.area in
        let (f', run, (a, m)) =
          revert_failed-Reverted cpu_num orig b.old_cpu_states g.saved fail b.state g.good
            (All-map (λ e. In (e.0, e.1) (pairs b.assigned)) (λ e. Runs b.state e.0 e.1)
              (λ e i. All-In (λ p. Runs b.state p.0 p.1) e (pairs b.assigned) g.runs i) fail
              fail_planned)
            (Ascends-Apart 0 fail (failed_from-Ascends cpu_num 0 reply.1.area))
            (All-map (λ e. In (e.0, e.1) (pairs b.assigned))
              (λ e. 0 < count e.0 (map (λ (o : ℕ × CpuState). o.0) b.old_cpu_states))
              (λ e i.
                subst (λ cs. 0 < count e.0 cs) (sym g.cpus_saved) (In-count e.0 e.1 b.assigned i))
              fail fail_planned) in
        (
          record l {
            sa = record { seq = reply.1.seq; area = cleared_from cpu_num 0 reply.1.area };
            policy = f';
          },
          rw (came, shoot, check_shoot_state_lem cpu_num reply.1 fits, run),
          record {
            reverted = rw came a;
            back = rw came m;
            clean = cleared-Clean cpu_num reply.1.seq reply.1.area;
            kept = (refl, refl, refl);
          },
        )

    shoot_failed :
        (reply.0 == 0) ≡ false
        → Returns
            (shoot cpu_num shoot_task now b l sa)
            (Shot orig b l (answered cpu_num shoot_task b.assigned reply))
    unfolding shoot
    shoot_failed failed =
        let (f', run, (a, cpus)) =
          requeue_all-Reverted cpu_num b.assigned b.state g.good g.runs g.apart in
        let whole = λ (i : ℕ). ap (λ old. restored b.old_cpu_states old i) cpus ∙ g.restores i in
        (
          record l { sa = reply.1; policy = restore_all b.old_cpu_states f' },
          rw (failed, shoot, run),
          rw (restore_all-restored b.old_cpu_states f', failed)
              (record {
                reverted = Reverted-marks cpu_num b.state f' (pairs b.assigned) _ a;
                back = record {
                  undone = λ c t i. whole c;
                  same = λ i away. whole i ∙ sym (g.elsewhere i away);
                };
                clean = λ i small.
                    kernel.silent_failure b.assigned_mask sa i (λ e. ground arith) ∙ clean i small;
                kept = (refl, refl, refl);
              }),
        )

    pub shoot-Shot :
        Returns
          (shoot cpu_num shoot_task now b l sa)
          (Shot orig b l (answered cpu_num shoot_task b.assigned reply))
    shoot-Shot = elim (Bool-cases (reply.0 == 0)) [
      | inl came ↦ shoot_came came
      | inr failed ↦ shoot_failed failed
    ]
