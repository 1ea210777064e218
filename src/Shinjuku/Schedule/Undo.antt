-- ===== src/Shinjuku/Schedule/Undo.antt =====
-- A call of `schedule` that the kernel refuses.
use cos_userspace.Base.{
  ℕ, ◌+◌, ◌-◌, ◌≡◌, ◌≢◌, ◌<◌, ◌≤◌, refl, sym, ap, ◌∙◌, subst, false, List, [], ◌∷◌, ◌++◌, arith,
  ◌==◌, All, Returns, count, count-append, length,
}
use mathlib.Core.List.{append-nil}
use cos_userspace.ShootArea.{CosShootArg, ShootArea, shoot_area_size}
use cos_userspace.ShootArea.Commit.{InArea, commit_shoot_message_lem}
use cos_userspace.Lord.{Lord}
use cos_userspace.Epistle.Laws.{Reaches}
use cos_userspace.Fifo.Schedule.{CpuSet, ShootTask}
use cos_userspace.Fifo.Schedule.Plan.{pairs}
use cos_userspace.Shinjuku.{CpuState, Shinjuku}
use cos_userspace.Shinjuku.Invariant.{Inv}
use cos_userspace.Shinjuku.Schedule.{
  Cpus, Batch, first_batch, flush_idle, restore_all, shoot, send, schedule,
}
use cos_userspace.Shinjuku.Schedule.Plan.{
  all_cpus, restored, restore_all-restored, Runs, AllRun, numbers, cpus_of, plan-distinct,
}
use cos_userspace.Shinjuku.Schedule.Ready.{gathered}
use cos_userspace.Shinjuku.Schedule.Start.{first-Ready, flush_idle-gathered}
use cos_userspace.Shinjuku.Schedule.Chosen.{Chosen}
use cos_userspace.Shinjuku.Schedule.Choice.{choose_loop-Chosen}
use cos_userspace.Shinjuku.Schedule.Sort.{
  Coherent, is_idle-resting, Sorted, Sorted-empty, sort_loop-Sorted,
}
use cos_userspace.Shinjuku.Schedule.Revert.{
  Reverted, requeue_all-Reverted, All-pairs, distinct-Apart, numbers-pairs, plan-InArea,
}

-- The kernel refuses every call.
abbrev pub Refuses : ShootTask → Type 0
Refuses shoot_task = (mask : CpuSet) (sa : ShootArea) → (shoot_task mask sa).0 ≢ 0

-- The processors are as before, and so is the number of times that each task waits.
pub record Undone (cpu_num : ℕ) (l l' : Lord Shinjuku) : Type 0 where
  pub good : Inv cpu_num l'.policy
  pub same_cpus : (i : ℕ) → l'.policy.cpu_states i ≡ l.policy.cpu_states i
  pub same_tasks : (t : ℕ) → count t l'.policy.shinjuku_rq ≡ count t l.policy.shinjuku_rq

module _ (cpu_num : ℕ) (shoot_task : ShootTask) (now : ℕ) (no : Refuses shoot_task)
    (l : Lord Shinjuku) where
  -- What the loop that chooses leaves for the rest of `schedule`.
  record Sent (b : Batch) (args : List (ℕ × CosShootArg)) : Type 0 where
    good : Inv cpu_num b.state
    back : (i : ℕ) → restored b.old_cpu_states b.state.cpu_states i ≡ l.policy.cpu_states i
    paired : length b.old_cpu_states ≡ length args
    tasks :
        (t : ℕ)
        → count t b.state.shinjuku_rq + count t (numbers args) ≡ count t l.policy.shinjuku_rq
    runs : AllRun b.state args
    distinct : (i : ℕ) → count i (cpus_of args) ≤ 1
    in_area : All InArea args

  Sent-nothing : (b : Batch) → Sent b [] → Undone cpu_num l (record l { policy = b.state })
  unfolding count restored
  Sent-nothing b s = record {
    good = s.good;
    same_cpus = λ i. go b.old_cpu_states s.paired (s.back i);
    same_tasks = λ t. omega (arith, s.tasks t);
  }
    where
      go :
          {i : ℕ} (olds : List (ℕ × CpuState))
          → length olds ≡ 0
          → restored olds b.state.cpu_states i ≡ l.policy.cpu_states i
          → b.state.cpu_states i ≡ l.policy.cpu_states i
      go [] e h = h
      go (o ∷ olds) e h = absurd (omega (arith, e))

  restore-Undone :
      (b : Batch) (f : Shinjuku) (sa : ShootArea)
      → Sent b b.assigned
      → Reverted cpu_num b.state (pairs b.assigned) f
      → f.cpu_states ≡ b.state.cpu_states
      → Undone cpu_num l (record l { sa = sa; policy = restore_all b.old_cpu_states f })
  restore-Undone b f sa s r cpus = rw (restore_all-restored b.old_cpu_states f) (record {
    good = record { once = r.good.once; filed = r.good.filed; seated = r.good.seated };
    same_cpus = λ i. ap (λ a. restored b.old_cpu_states a i) cpus ∙ s.back i;
    same_tasks = λ t. omega (
      arith,
      ap (count t) (r.queue ∙ ap (◌++◌ b.state.shinjuku_rq) (numbers-pairs b.assigned)),
      s.tasks t,
      count-append t b.state.shinjuku_rq (numbers b.assigned),
    );
  })

  shoot-Undone :
      (b : Batch) (sa : ShootArea)
      → Sent b b.assigned
      → Returns (shoot cpu_num shoot_task now b l sa) (Undone cpu_num l)
  unfolding shoot
  shoot-Undone b sa s =
      let (f, run, (r, cpus)) =
        requeue_all-Reverted cpu_num b.assigned b.state s.good
          (All-pairs (Runs b.state) b.assigned s.runs) (distinct-Apart b.assigned s.distinct) in
      let refused : ((shoot_task b.assigned_mask sa).0 == 0) ≡ false =
        ground (arith, no b.assigned_mask sa) in
      (
        record l {
          sa = (shoot_task b.assigned_mask sa).1;
          policy = restore_all b.old_cpu_states f;
        },
        rw (refused, run) refl,
        restore-Undone b f (shoot_task b.assigned_mask sa).1 s r cpus,
      )

  send-Undone :
      (b : Batch) (args : List (ℕ × CosShootArg))
      → b.assigned ≡ args
      → Sent b args
      → Returns (send cpu_num shoot_task now l b args) (Undone cpu_num l)
  unfolding send
  send-Undone b [] e s = (record l { policy = b.state }, refl, Sent-nothing b s)
  send-Undone b (a ∷ args) e s =
      rw (commit_shoot_message_lem (a ∷ args) l.seq l.sa s.in_area)
        (shoot-Undone b _ (subst (Sent b) (sym e) s))

  Chosen-Sent :
      (cs : List ℕ) (b : Batch)
      → cpu_num ≤ shoot_area_size
      → ((i : ℕ) → count i cs ≤ 1)
      → ((i : ℕ) → 0 < count i cs → i < cpu_num)
      → Chosen cpu_num l.policy.cpu_states cs (first_batch l.policy) b
      → Sent (record b { state = gathered b }) b.assigned
  Chosen-Sent cs b fits d below g =
      subst (Sent (record b { state = gathered b })) (sym g.plan_is) (record {
        good = g.good;
        back = g.back;
        paired = g.paired ∙ ap length g.plan_is;
        tasks = λ t. g.tasks t ∙ ap (count t) (append-nil l.policy.shinjuku_rq);
        runs = g.started;
        distinct = λ i. omega (arith, plan-distinct cs _ i, d i);
        in_area = plan-InArea cs _ (λ i p. omega (arith, below i p, fits));
      })

  -- With a kernel that refuses every call, between 3 and 511 processors, the scheduler's
  -- invariant, processors marked as COS that have a running task for which the search in the
  -- epistle ends, queued tasks for which it ends, and more fuel than queued tasks, the Shinjuku
  -- `schedule` ends without a fault, keeps the invariant, and leaves every processor's state and
  -- the number of times that each task waits as they were.
  pub schedule-Undone :
      (fuel : ℕ)
      → 3 ≤ cpu_num
      → cpu_num ≤ shoot_area_size
      → Inv cpu_num l.policy
      → Coherent l.policy
      → ((t : ℕ) → 0 < count t l.policy.shinjuku_rq → Reaches l.policy.epistle t)
      → length l.policy.shinjuku_rq < fuel
      → Returns (schedule cpu_num shoot_task now fuel l) (Undone cpu_num l)
  unfolding schedule count
  schedule-Undone fuel three fits v w looks h =
      let empty_deques : Cpus = record { idle_cpu = []; cos_cpu = []; cfs_cpu = [] } in
      let (q, run, s) =
        sort_loop-Sorted l.lord_cpu now (cpu_num - 3) 3 l.policy empty_deques w
          (λ t task e. ground (arith, v.filed t, e)) Sorted-empty in
      let s' : Sorted cpu_num q = subst (λ hi. Sorted hi q) (omega arith) s in
      let (b, run', g) =
        choose_loop-Chosen cpu_num l.policy.cpu_states now fuel q (first_batch l.policy)
          (first-Ready cpu_num l.policy q v s' (λ t p.
            is_idle-resting l.policy.epistle t (ground (arith, v.once t, v.filed t)) (looks t p)))
          h in
      let sent = Chosen-Sent (all_cpus q) b fits s'.distinct s'.below g in
      let (l', run'', u) = send-Undone (flush_idle b) b.assigned refl (
        subst (λ f. Sent (record b { state = f }) b.assigned)
          (sym (flush_idle-gathered cpu_num b g.good)) sent) in
      (l', rw (run, run') run'', u)
