-- ===== src/Shinjuku/Marks.antt =====
-- The processors' marks against the tasks: a processor that is marked as COS names a task that
-- counts as running there, which the assertion in Shinjuku's `schedule` relies on.
use cos_userspace.Base.{
  ℕ, ◌≡◌, ◌≢◌, refl, sym, ap, ◌∙◌, subst, Bool, Option, none, some, List, [], ◌∷◌, arith, ◌==◌, All,
  In, Returns, Bool-cases, Option-cases, inl, inr, ◌⊎◌, ==_iff,
}
use cos_userspace.MessageQueue.{CosMsg}
use cos_userspace.TaskMap.{Slot, absent, null_entry, live}
use cos_userspace.Lord.{Lord, dispatch, msg_task_runnable, msg_task_cos_preempt}
use cos_userspace.Fifo.Schedule.{ShootTask}
use cos_userspace.Fifo.Schedule.Plan.{pairs}
use cos_userspace.Shinjuku.{on_cpu, cos, CpuState, ShinjukuTask, Shinjuku, init, shinjuku_policy}
use cos_userspace.Shinjuku.Invariant.{Mark, freed, given, Inv, seat, remark, ShinjukuRunState-cases}
use cos_userspace.Shinjuku.Phases.{phase, Outcome, on_cos, next_phase, After, Meets}
use cos_userspace.Shinjuku.Handlers.{shinjuku_policy-Meets}
use cos_userspace.Shinjuku.Schedule.Plan.{Runs}
use cos_userspace.Shinjuku.Schedule.Outcome.{Rounded, round_plan, taken_back}

abbrev pub Marked : Shinjuku → Type 0
Marked f = (c : ℕ) → (f.cpu_states c).type ≡ cos → Runs f c (f.cpu_states c).pid

pub init-Marked : Marked init
init-Marked c e = absurd (ground (arith, e))

-- The message is for a task with a number other than 0, the handler takes it, and while the task
-- is the one that its processor is marked with, the kernel neither says that it became runnable
-- nor that another COS task took its place.
abbrev pub Accepted : Shinjuku → CosMsg → Type 0
Accepted f m =
    (m.pid ≢ 0)
    × (next_phase m.type (on_cos f (f.alive_tasks m.pid)) (phase (f.alive_tasks m.pid)) ≢ none)
    × ((c : ℕ)
        → Runs f c m.pid
        → (f.cpu_states c).pid ≡ m.pid
        → (m.type ≢ msg_task_runnable) × (m.type ≢ msg_task_cos_preempt))

running_phase : (s : Slot ShinjukuTask) (c : ℕ) → seat s ≡ some c → phase s ≡ some on_cpu
running_phase absent c e = absurd (ground (arith, e))
running_phase null_entry c e = absurd (ground (arith, e))
running_phase (live task) c e = elim (ShinjukuRunState-cases task.state) [
  | inl q ↦ absurd (ground (arith, e, q))
  | inr (inl r) ↦ ap some r
  | inr (inr b) ↦ absurd (ground (arith, e, b))
]

-- What else a running task's message does: its processor gets a mark, or the task runs on.
leaves_or_stays :
    (type : ℕ) (marked : Bool) (o : Outcome)
    → type ≢ msg_task_runnable
    → type ≢ msg_task_cos_preempt
    → next_phase type marked (some on_cpu) ≡ some o
    → (o.1 ≢ none) ⊎ (o.0 ≡ some on_cpu)
unfolding next_phase
leaves_or_stays type marked o r p e = ground (arith, r, p, e)

module _ (cpu_num : ℕ) where
  -- A processor that is marked as COS after a message was marked so before, with that task.
  mark_before :
      (k : Option Mark) (at : Option ℕ) (c : ℕ) (old : CpuState)
      → (remark k at c old).type ≡ cos
      → remark k at c old ≡ old
  mark_before none at c old e = refl
  mark_before (some freed) none c old e = refl
  mark_before (some freed) (some d) c old e = ground (arith, e)
  mark_before (some given) none c old e = refl
  mark_before (some given) (some d) c old e = ground (arith, e)

  -- A message that gives the processor of its task a mark leaves that processor not marked as COS.
  mark_is_gone :
      (k : Option Mark) (c : ℕ) (old : CpuState) → k ≢ none → (remark k (some c) c old).type ≢ cos
  mark_is_gone none c old n = absurd (n refl)
  mark_is_gone (some freed) c old n = ground arith
  mark_is_gone (some given) c old n = ground arith

  seat_stays :
      (f f' : Shinjuku) (t c : ℕ) (o : Outcome)
      → After cpu_num f t o f'
      → o.0 ≡ some on_cpu
      → Runs f c t
      → Runs f' c t
  seat_stays f f' t c o a e r = go (f'.alive_tasks t) refl
    where
      go : (s : Slot ShinjukuTask) → f'.alive_tasks t ≡ s → seat s ≡ some c
      go (live task) w = elim (Option-cases (seat (live task))) [
        | inl off ↦ absurd (ground (arith, a.good.filed t, a.phase_is, e, w, off))
        | inr (d, at) ↦ at ∙ sym (a.no_start d (ap seat w ∙ at)) ∙ r
      ]
      go absent w = absurd (ground (arith, a.phase_is, e, w))
      go null_entry w = absurd (ground (arith, a.phase_is, e, w))

  After-Marked :
      (f f' : Shinjuku) (m : CosMsg) (o : Outcome)
      → Inv cpu_num f
      → Marked f
      → Accepted f m
      → next_phase m.type (on_cos f (f.alive_tasks m.pid)) (phase (f.alive_tasks m.pid)) ≡ some o
      → After cpu_num f m.pid o f'
      → Marked f'
  After-Marked f f' m o v w (n, taken, polite) e a c h =
      let k = a.marks_are c in
      let was : f'.cpu_states c ≡ f.cpu_states c =
        k
        ∙ mark_before o.1 (seat (f.alive_tasks m.pid)) c (f.cpu_states c)
            (ap (λ (s : CpuState). s.type) (sym k) ∙ h) in
      let r : Runs f c (f.cpu_states c).pid = w c (ap (λ (s : CpuState). s.type) (sym was) ∙ h) in
      subst (λ (s : CpuState). Runs f' c s.pid) (sym was)
        (elim (Bool-cases ((f.cpu_states c).pid == m.pid)) [
          | inr other ↦
              ap seat (a.others (f.cpu_states c).pid (λ same. ground (arith, other, same))) ∙ r
          | inl hit ↦
              let same : (f.cpu_states c).pid ≡ m.pid = (==_iff _ _).0 hit in
              let r' : Runs f c m.pid = subst (Runs f c) same r in
              let (p, q) = polite c r' same in
              subst (Runs f' c) (sym same)
                (elim (leaves_or_stays m.type (on_cos f (f.alive_tasks m.pid)) o p q (
                  subst (λ x. next_phase m.type (on_cos f (f.alive_tasks m.pid)) x ≡ some o)
                    (running_phase (f.alive_tasks m.pid) c r') e)) [
                      | inr stays ↦ seat_stays f f' m.pid c o a stays r'
                      | inl leaves ↦ absurd (
                          mark_is_gone o.1 c (f.cpu_states c) leaves (
                            ap (λ (s : CpuState). s.type)
                              (sym (
                                subst (λ at. f'.cpu_states c ≡ remark o.1 at c (f.cpu_states c)) r'
                                  k))
                            ∙ h))
                    ])
        ])

  -- With the scheduler's invariant, marks that each name a task that runs there, and a message
  -- that is accepted, the handler ends without a fault in such a state.
  pub dispatch-Marked :
      (f : Shinjuku) (m : CosMsg)
      → Inv cpu_num f
      → Marked f
      → Accepted f m
      → Returns (dispatch (shinjuku_policy cpu_num) f m) (λ f'. Inv cpu_num f' × Marked f')
  dispatch-Marked f m v w ok_now =
      let account =
        next_phase m.type (on_cos f (f.alive_tasks m.pid)) (phase (f.alive_tasks m.pid)) in
      elim (Option-cases account) [
        | inl e ↦ absurd (ok_now.1 e)
        | inr (o, e) ↦
            let (f', run, a) =
              subst (λ q. Meets cpu_num f m.pid q (dispatch (shinjuku_policy cpu_num) f m)) e
                (shinjuku_policy-Meets cpu_num f m v ok_now.0) in
            (f', run, (a.good, After-Marked f f' m o v w ok_now e a))
      ]

  -- Is a processor among those of the list, and with which task?
  look_up : (c : ℕ) (ps : List (ℕ × ℕ)) → All (λ e. e.0 ≢ c) ps ⊎ ((t : ℕ) × In (c, t) ps)
  look_up c [] = inl tt
  look_up c ((d, t) ∷ ps) = elim (Bool-cases (d == c)) [
    | inl hit ↦ inr (t, inl (ap (λ x. (x, t)) (sym ((==_iff d c).0 hit))))
    | inr miss ↦ elim (look_up c ps) [
      | inl away ↦ inl ((λ e. ground (arith, miss, e)), away)
      | inr (u, i) ↦ inr (u, inr i)
    ]
  ]

  module _ (shoot_task : ShootTask) (now : ℕ) (l l' : Lord Shinjuku)
      (r : Rounded cpu_num shoot_task now l l') (w : Marked l.policy) where
    unchanged :
        (c : ℕ)
        → l'.policy.cpu_states c ≡ l.policy.cpu_states c
        → (l'.policy.cpu_states c).type ≡ cos
        → Runs l'.policy c (l'.policy.cpu_states c).pid
    unchanged c e h =
        subst (λ (s : CpuState). Runs l'.policy c s.pid) (sym e)
          (r.still c (l.policy.cpu_states c).pid (w c (ap (λ (s : CpuState). s.type) (sym e) ∙ h)))

    pub Rounded-Marked : Marked l'.policy
    Rounded-Marked c h = elim (look_up c (pairs (round_plan cpu_num shoot_task now l))) [
      | inl away ↦ unchanged c (r.bystanders c away) h
      | inr (t, i) ↦ elim (look_up c (taken_back cpu_num shoot_task now l)) [
        | inr (u, j) ↦ unchanged c (r.undone c u j).0 h
        | inl away ↦
            let (runs, mark) = r.started c t i away in
            subst (λ (s : CpuState). Runs l'.policy c s.pid) (sym mark) runs
      ]
    ]
