-- ===== src/Fifo/Conserving.antt =====
-- What a round of the FIFO scheduler leaves waiting, and why.
use mathlib.Core.List.{append-nil}
use cos_userspace.Base.{
  ℕ, zero, suc, ◌+◌, ◌≡◌, ◌≢◌, ◌<◌, ◌≤◌, refl, sym, ap, ◌∙◌, subst, false, List, [], ◌∷◌, ◌++◌,
  Returns, arith, All, In, In-All, inl, inr, Bool-cases, ◌==◌, ◌||◌,
}
use cos_userspace.ShootArea.{shoot_area_size}
use cos_userspace.Lord.{Lord}
use cos_userspace.Fifo.{CpuState, cos, is_cos, Fifo}
use cos_userspace.Fifo.Invariant.{Inv}
use cos_userspace.Fifo.Schedule.{ShootTask, schedule}
use cos_userspace.Fifo.Schedule.Plan.{free_cpus, plan, unplaced, pairs}
use cos_userspace.Fifo.Schedule.Assign.{Runs}
use cos_userspace.Fifo.Schedule.Answer.{Honest, Clean}
use cos_userspace.Fifo.Schedule.Revert.{numbers}
use cos_userspace.Fifo.Schedule.Round.{round_cpus, taken_back, schedule-Scheduled}

free_cpus-In :
    (lord_cpu n cpu c : ℕ) (cpus : ℕ → CpuState)
    → cpu ≤ c
    → c < cpu + n
    → c ≢ lord_cpu
    → is_cos (cpus c) ≡ false
    → In c (free_cpus lord_cpu n cpu cpus)
unfolding free_cpus
free_cpus-In lord_cpu zero cpu c cpus from to apart free = absurd (omega (arith, from, to))
free_cpus-In lord_cpu (suc n) cpu c cpus from to apart free = elim (Bool-cases (c == cpu)) [
  | inl here ↦
      let same : c ≡ cpu = ground arith in
      let other : (cpu == lord_cpu || is_cos (cpus cpu)) ≡ false =
        subst (λ d. (d == lord_cpu || is_cos (cpus d)) ≡ false) same
          (ground (arith, apart, free)) in
      rw (other, free_cpus) (inl same)
  | inr later ↦
      let rest =
        free_cpus-In lord_cpu n (cpu + 1) c cpus (ground arith) (omega (arith, to)) apart free in
      elim (Bool-cases (cpu == lord_cpu || is_cos (cpus cpu))) [
        | inl passed ↦ rw (passed, free_cpus) rest
        | inr taken ↦ rw (taken, free_cpus) (inr rest)
      ]
]

plan-split : (cs rq : List ℕ) → rq ≡ numbers (pairs (plan cs rq)) ++ unplaced cs rq
unfolding plan pairs unplaced
plan-split [] rq = refl
plan-split (c ∷ cs) [] = refl
plan-split (c ∷ cs) (t ∷ rq) = ap (◌∷◌ t) (plan-split cs rq)

-- Where some task stays without a processor, each processor of the plan has a task.
plan_covers :
    (cs rq : List ℕ) (c : ℕ)
    → unplaced cs rq ≢ []
    → In c cs
    → (t : ℕ) × In (c, t) (pairs (plan cs rq))
unfolding plan pairs unplaced
plan_covers [] rq c n i = absurd i
plan_covers (d ∷ cs) [] c n i = absurd (n refl)
plan_covers (d ∷ cs) (t ∷ rq) c n (inl here) = (t, inl (ap (λ x. (x, t)) here))
plan_covers (d ∷ cs) (t ∷ rq) c n (inr i) =
    let (u, there) = plan_covers cs rq c n i in (u, inr there)

numbers-All : (P : ℕ → Type 0) (ps : List (ℕ × ℕ)) → All (λ e. P e.1) ps → All P (numbers ps)
numbers-All P [] h = tt
numbers-All P (p ∷ ps) h = (h.0, numbers-All P ps h.1)

-- A front of the queue has been given processors and runs, and what still waits has been there
-- before, in the same order. While anything waits, each processor that is neither the lord's nor
-- was marked as COS before runs a task.
pub record Conserved (cpu_num : ℕ) (l l' : Lord Fifo) : Type 0 where
  pub front : List ℕ
  pub split : l.policy.fifo_rq ≡ front ++ l'.policy.fifo_rq
  pub served : All (λ t. (c : ℕ) × Runs l'.policy c t) front
  pub busy :
      l'.policy.fifo_rq ≢ []
      → (c : ℕ) → c < cpu_num
      → c ≢ l.lord_cpu
      → l.policy.cpu_states c ≢ cos
      → (t : ℕ) × Runs l'.policy c t

-- With a kernel that keeps its contract `Honest`, at most as many processors as the page has, the
-- scheduler's invariant, a page without left-over answers, and a round of which nothing is taken
-- back, `schedule` ends without a fault in a state as `Conserved` says: the tasks that it takes
-- from the front of the queue run, the others keep their order, and while one of them waits each
-- processor below `cpu_num` that is neither the lord's nor was marked as COS runs a task.
pub schedule-Conserved :
    (cpu_num : ℕ) (shoot_task : ShootTask)
    → Honest shoot_task
    → cpu_num ≤ shoot_area_size
    → (l : Lord Fifo) → Inv cpu_num l.policy
    → Clean cpu_num l.sa
    → taken_back cpu_num shoot_task l ≡ []
    → Returns (schedule cpu_num shoot_task l) (Conserved cpu_num l)
schedule-Conserved cpu_num shoot_task kernel fits l v clean none_back =
    let (l', run, s) = schedule-Scheduled cpu_num shoot_task kernel fits l v clean in
    let cs = round_cpus cpu_num shoot_task l in
    let rq = l.policy.fifo_rq in
    let waits : l'.policy.fifo_rq ≡ unplaced cs rq =
      s.queue ∙ ap (λ ps. unplaced cs rq ++ numbers ps) none_back ∙ append-nil (unplaced cs rq) in
    let runs : (c t : ℕ) → In (c, t) (pairs (plan cs rq)) → Runs l'.policy c t =
      λ c t i. s.started c t i (subst (All (λ e. e.0 ≢ c)) (sym none_back) tt) in
    (
      l',
      run,
      record {
        front = numbers (pairs (plan cs rq));
        split = plan-split cs rq ∙ ap (λ q. numbers (pairs (plan cs rq)) ++ q) (sym waits);
        served =
            numbers-All _ (pairs (plan cs rq))
              (In-All _ (pairs (plan cs rq)) (λ e i. (e.0, runs e.0 e.1 i)));
        busy = λ some_wait c lt apart unmarked.
            let free : is_cos (l.policy.cpu_states c) ≡ false = ground (arith, unmarked) in
            let i =
              free_cpus-In l.lord_cpu cpu_num 0 c l.policy.cpu_states (omega arith)
                (omega (arith, lt)) apart free in
            let (t, there) = plan_covers cs rq c (λ e. some_wait (waits ∙ e)) i in
            (t, runs c t there);
      },
    )
