-- ===== src/Shinjuku/Schedule/Sort.antt =====
-- The loop of `schedule` that sorts the processors into deques.
use cos_userspace.Base.{
  ℕ, zero, suc, ◌+◌, ◌≡◌, ◌≢◌, ◌<◌, ◌≤◌, refl, subst, Bool, true, false, [], ◌∷◌, ◌++◌, ok, arith,
  ◌==◌, if◌then◌else◌, Returns, >>=-Returns, Bool-cases, inl, inr, ◌⊎◌, leb, count, count-append,
  count-snoc,
}
use cos_userspace.TaskMap.{live}
use cos_userspace.Epistle.{Table, epistle_thread_idle, capacity, hash, get}
use cos_userspace.Epistle.Probe.{probe, found, get_loop-Ends}
use cos_userspace.Epistle.Laws.{Reaches}
use cos_userspace.Shinjuku.{on_cpu, idle, cos, cfs, ThreadType, ShinjukuTask, Shinjuku}
use cos_userspace.Shinjuku.Schedule.{
  Cpus, is_idle, preemptable, sort_cpu, preempt_time_slice, elapsed, sort_loop,
}
use cos_userspace.Shinjuku.Schedule.Plan.{all_cpus, resting}

-- A processor that is marked as COS has a running task, and the page can be searched for it.
abbrev pub Coherent : Shinjuku → Type 0
Coherent f =
    (cpu : ℕ)
    → (f.cpu_states cpu).type ≡ cos
    → (task : ShinjukuTask) × (f.alive_tasks (f.cpu_states cpu).pid ≡ live task)
      × (task.state ≡ on_cpu)
      × Reaches f.epistle task.pid

resting-known :
    (epistle : Table) (t : ℕ) (r : Bool)
    → is_idle epistle t ≡ ok r
    → is_idle epistle t ≡ ok (resting epistle t)
unfolding resting
resting-known epistle t r e = rw (e, resting) refl

-- Where the search for a task ends, the task is marked as idle or not.
pub is_idle-resting :
    (epistle : Table) (t : ℕ)
    → t ≢ 0
    → Reaches epistle t
    → is_idle epistle t ≡ ok (resting epistle t)
unfolding is_idle get
is_idle-resting epistle t positive (n, small, e) =
    let nonzero : (t == 0) ≡ false = ground (arith, positive) in
    resting-known epistle t (found epistle t (probe (hash t) n) == epistle_thread_idle)
      (rw (nonzero, get_loop-Ends capacity (hash t) t n epistle (omega arith) small e) refl)

-- No task has the number 0.
abbrev pub Named : Shinjuku → Type 0
Named f = (t : ℕ) (task : ShinjukuTask) → f.alive_tasks t ≡ live task → task.pid ≢ 0

-- The processors that are sorted already: each stands in one deque at most, and is below `hi`.
pub record Sorted (hi : ℕ) (q : Cpus) : Type 0 where
  pub distinct : (i : ℕ) → count i (all_cpus q) ≤ 1
  pub below : (i : ℕ) → 0 < count i (all_cpus q) → i < hi

pub Sorted-empty : {hi : ℕ} → Sorted hi (record { idle_cpu = []; cos_cpu = []; cfs_cpu = [] })
unfolding count
Sorted-empty = record { distinct = λ i. omega arith; below = λ i p. absurd (omega arith) }

Sorted-more :
    (cpu : ℕ) (q q' : Cpus)
    → Sorted cpu q
    → ((i : ℕ) → count i (all_cpus q') ≤ count i (all_cpus q) + (if i == cpu then 1 else 0))
    → Sorted (cpu + 1) q'
Sorted-more cpu q q' s h = record {
  distinct = λ i. ground (arith, h i, s.distinct i, s.below i);
  below = λ i p. ground (arith, h i, s.below i);
}

count-all_cpus :
    (i : ℕ) (q : Cpus)
    → count i (all_cpus q) ≡ count i q.idle_cpu + count i q.cfs_cpu + count i q.cos_cpu
count-all_cpus i q =
    omega (
      arith,
      count-append i q.idle_cpu (q.cfs_cpu ++ q.cos_cpu),
      count-append i q.cfs_cpu q.cos_cpu,
    )

pub ThreadType-cases : (t : ThreadType) → (t ≡ idle) ⊎ ((t ≡ cfs) ⊎ (t ≡ cos))
ThreadType-cases idle = inl refl
ThreadType-cases cfs = inr (inl refl)
ThreadType-cases cos = inr (inr refl)

preemptable-total :
    (now : ℕ) (f : Shinjuku) (task : ShinjukuTask)
    → is_idle f.epistle task.pid ≡ ok (resting f.epistle task.pid)
    → (yield : Bool) × (preemptable now f.epistle task ≡ ok yield)
unfolding preemptable
preemptable-total now f task e =
    elim (Bool-cases (leb preempt_time_slice (elapsed now task.last_shoot_time))) [
      | inl over ↦ (true, rw (over, preemptable) refl)
      | inr going ↦ (resting f.epistle task.pid, rw (going, preemptable) e)
    ]

pub sort_cpu-cos :
    (now cpu : ℕ) (f : Shinjuku) (q : Cpus) (yield : Bool) (task : ShinjukuTask)
    → (f.cpu_states cpu).type ≡ cos
    → f.alive_tasks (f.cpu_states cpu).pid ≡ live task
    → task.state ≡ on_cpu
    → preemptable now f.epistle task ≡ ok yield
    → sort_cpu now f cpu q ≡ ok (if yield then record q { cos_cpu = q.cos_cpu ++ cpu ∷ [] } else q)
unfolding sort_cpu preemptable
sort_cpu-cos now cpu f q yield task t e r p = rw (t, e, r, p, sort_cpu) refl

sort_cpu-Sorted :
    (now cpu : ℕ) (f : Shinjuku) (q : Cpus)
    → Coherent f
    → Named f
    → Sorted cpu q
    → Returns (sort_cpu now f cpu q) (Sorted (cpu + 1))
unfolding sort_cpu
sort_cpu-Sorted now cpu f q w m s = elim (ThreadType-cases (f.cpu_states cpu).type) [
  | inl e ↦
      rw (e, sort_cpu)
        (let q' : Cpus = record q { idle_cpu = q.idle_cpu ++ cpu ∷ [] } in
          (
            q',
            refl,
            Sorted-more cpu q q' s (λ i.
                omega
                  (arith, count-all_cpus i q, count-all_cpus i q', count-snoc i q.idle_cpu cpu)),
          ))
  | inr (inl e) ↦
      rw (e, sort_cpu)
        (let q' : Cpus = record q { cfs_cpu = q.cfs_cpu ++ cpu ∷ [] } in
          (
            q',
            refl,
            Sorted-more cpu q q' s (λ i.
                omega (arith, count-all_cpus i q, count-all_cpus i q', count-snoc i q.cfs_cpu cpu)),
          ))
  | inr (inr e) ↦
      let (task, a, r, l) = w cpu e in
      let (yield, y) =
        preemptable-total now f task
          (is_idle-resting f.epistle task.pid (m (f.cpu_states cpu).pid task a) l) in
      let q' : Cpus = record q { cos_cpu = q.cos_cpu ++ cpu ∷ [] } in
      (
        if yield then q' else q,
        sort_cpu-cos now cpu f q yield task e a r y,
        elim (Bool-cases yield) [
          | inl given ↦ rw given (
              Sorted-more cpu q q' s (λ i.
                omega (arith, count-all_cpus i q, count-all_cpus i q', count-snoc i q.cos_cpu cpu)))
          | inr kept ↦ rw kept (Sorted-more cpu q q s (λ i. omega arith))
        ],
      )
]

pub sort_loop-Sorted :
    (lord_cpu now n cpu : ℕ) (f : Shinjuku) (q : Cpus)
    → Coherent f
    → Named f
    → Sorted cpu q
    → Returns (sort_loop lord_cpu now f n cpu q) (Sorted (cpu + n))
unfolding sort_loop
sort_loop-Sorted lord_cpu now zero cpu f q w m s =
    (q, refl, subst (λ hi. Sorted hi q) (omega arith) s)
sort_loop-Sorted lord_cpu now (suc n) cpu f q w m s =
    >>=-Returns (if cpu == lord_cpu then ok q else sort_cpu now f cpu q) _ this (λ q' s'.
      let (r, run, t) = sort_loop-Sorted lord_cpu now n (cpu + 1) f q' w m s' in
      (r, run, subst (λ hi. Sorted hi r) (omega arith) t))
  where
    this : Returns (if cpu == lord_cpu then ok q else sort_cpu now f cpu q) (Sorted (cpu + 1))
    this = elim (Bool-cases (cpu == lord_cpu)) [
      | inl lord ↦ rw lord (q, refl, Sorted-more cpu q q s (λ i. omega arith))
      | inr other ↦ rw other (sort_cpu-Sorted now cpu f q w m s)
    ]
