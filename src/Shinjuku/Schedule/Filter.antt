-- ===== src/Shinjuku/Schedule/Filter.antt =====
-- The loop of `schedule` that sorts the processors, against three filters over their numbers.
use cos_userspace.Base.{
  ℕ, zero, suc, ◌+◌, ◌≡◌, refl, ap, ◌∙◌, Bool, true, false, not, ◌&&◌, ◌||◌, List, [], ◌∷◌, ◌++◌,
  ok, ◌==◌, if◌then◌else◌, Bool-cases, inl, inr, leb,
}
use mathlib.Core.List.{append-nil, append_assoc}
use cos_userspace.TaskMap.{live}
use cos_userspace.Shinjuku.{idle, cfs, is_cos, ThreadType, ShinjukuTask, Shinjuku}
use cos_userspace.Shinjuku.Schedule.{
  Cpus, is_idle, preemptable, sort_cpu, preempt_time_slice, elapsed, sort_loop,
}
use cos_userspace.Shinjuku.Schedule.Plan.{resting}
use cos_userspace.Shinjuku.Schedule.Sort.{
  Coherent, Named, ThreadType-cases, is_idle-resting, sort_cpu-cos,
}

-- Of the `n` numbers from `cpu` on, those that pass the test, in ascending order.
unfoldable pub those : (ℕ → Bool) → ℕ → ℕ → List ℕ
those test zero cpu = []
those test (suc n) cpu = (if test cpu then cpu ∷ [] else []) ++ those test n (cpu + 1)

those-more :
    (test : ℕ → Bool) (front : List ℕ) (n cpu : ℕ)
    → (front ++ those test 1 cpu) ++ those test n (cpu + 1) ≡ front ++ those test (suc n) cpu
unfolding those
those-more test front n cpu =
    append_assoc front _ (those test n (cpu + 1))
    ∙ ap (λ h. front ++ (h ++ those test n (cpu + 1))) (append-nil _)

same_deques :
    {is is' fs fs' cs cs' : List ℕ}
    → is ≡ is'
    → fs ≡ fs'
    → cs ≡ cs'
    → Path Cpus
        (record { idle_cpu = is; cfs_cpu = fs; cos_cpu = cs })
        (record { idle_cpu = is'; cfs_cpu = fs'; cos_cpu = cs' })
same_deques i f c = rw (i, f, c) refl

module _ (lord_cpu now : ℕ) (f : Shinjuku) where
  abbrev type_of : ℕ → ThreadType
  type_of cpu = (f.cpu_states cpu).type

  abbrev pub is_free : ℕ → Bool
  is_free cpu = not (cpu == lord_cpu) && elim (type_of cpu) [ idle ↦ true | _ ↦ false ]

  abbrev pub is_cfs : ℕ → Bool
  is_cfs cpu = not (cpu == lord_cpu) && elim (type_of cpu) [ cfs ↦ true | _ ↦ false ]

  -- Is the slice of the task over, or is the task marked as idle?
  unfoldable pub has_to_yield : ℕ → Bool
  has_to_yield pid = elim (f.alive_tasks pid) [
    | live task ↦
        leb preempt_time_slice (elapsed now task.last_shoot_time) || resting f.epistle task.pid
    | _ ↦ false
  ]

  abbrev pub may_be_taken : ℕ → Bool
  may_be_taken cpu =
      not (cpu == lord_cpu) && (is_cos (type_of cpu) && has_to_yield (f.cpu_states cpu).pid)

  -- The deques with what the filters give for `n` processors from `cpu` on at their ends.
  abbrev pub filled : ℕ → ℕ → Cpus → Cpus
  filled n cpu q = record {
    idle_cpu = q.idle_cpu ++ those is_free n cpu;
    cfs_cpu = q.cfs_cpu ++ those is_cfs n cpu;
    cos_cpu = q.cos_cpu ++ those may_be_taken n cpu;
  }

  preemptable_lem :
      (task : ShinjukuTask)
      → is_idle f.epistle task.pid ≡ ok (resting f.epistle task.pid)
      → preemptable now f.epistle task
        ≡ ok (
            leb preempt_time_slice (elapsed now task.last_shoot_time) || resting f.epistle task.pid)
  unfolding preemptable
  preemptable_lem task e =
      elim (Bool-cases (leb preempt_time_slice (elapsed now task.last_shoot_time))) [
        | inl over ↦ rw (over, preemptable) refl
        | inr going ↦ rw (going, preemptable) e
      ]

  taken_if :
      (q : Cpus) (cpu : ℕ) (yield : Bool)
      → ok (if yield then record q { cos_cpu = q.cos_cpu ++ cpu ∷ [] } else q)
        ≡ ok (record {
          idle_cpu = q.idle_cpu ++ [];
          cfs_cpu = q.cfs_cpu ++ [];
          cos_cpu = q.cos_cpu ++ ((if yield then cpu ∷ [] else []) ++ []);
        })
  taken_if q cpu true = rw (append-nil q.idle_cpu, append-nil q.cfs_cpu) refl
  taken_if q cpu false = rw (append-nil q.idle_cpu, append-nil q.cfs_cpu, append-nil q.cos_cpu) refl

  one_cpu :
      (cpu : ℕ) (q : Cpus)
      → Coherent f
      → Named f
      → (if cpu == lord_cpu then ok q else sort_cpu now f cpu q) ≡ ok (filled 1 cpu q)
  unfolding those sort_cpu has_to_yield
  one_cpu cpu q w m = elim (Bool-cases (cpu == lord_cpu)) [
    | inl lord ↦
        rw lord (rw (append-nil q.idle_cpu, append-nil q.cfs_cpu, append-nil q.cos_cpu) refl)
    | inr other ↦ elim (ThreadType-cases (f.cpu_states cpu).type) [
      | inl e ↦ rw (other, e, sort_cpu) (rw (append-nil q.cfs_cpu, append-nil q.cos_cpu) refl)
      | inr (inl e) ↦
          rw (other, e, sort_cpu) (rw (append-nil q.idle_cpu, append-nil q.cos_cpu) refl)
      | inr (inr e) ↦
          let (task, a, r, l) = w cpu e in
          let looked = is_idle-resting f.epistle task.pid (m (f.cpu_states cpu).pid task a) l in
          let test = leb preempt_time_slice (elapsed now task.last_shoot_time) in
          let run =
            sort_cpu-cos now cpu f q (test || resting f.epistle task.pid) task e a r
              (preemptable_lem task looked) in
          let yields : has_to_yield (f.cpu_states cpu).pid ≡ (test || resting f.epistle task.pid) =
            rw (a, has_to_yield) refl in
          rw (other, e, yields) (run ∙ taken_if q cpu (test || resting f.epistle task.pid))
    ]
  ]

  filled-more : (n cpu : ℕ) (q : Cpus) → filled n (cpu + 1) (filled 1 cpu q) ≡ filled (suc n) cpu q
  filled-more n cpu q =
      same_deques (those-more is_free q.idle_cpu n cpu) (those-more is_cfs q.cfs_cpu n cpu)
        (those-more may_be_taken q.cos_cpu n cpu)

  -- With processors marked as COS that have a running task for which the search in the epistle
  -- ends, and no task with the number 0, the loop that sorts `n` processors from `cpu` on ends
  -- without a fault and puts behind each deque, in ascending order, those of them that are not the
  -- lord's and are idle, or belong to CFS, or have a task that used up its slice or is marked as
  -- idle.
  pub sort_loop-filled :
      (n cpu : ℕ) (q : Cpus)
      → Coherent f
      → Named f
      → sort_loop lord_cpu now f n cpu q ≡ ok (filled n cpu q)
  unfolding sort_loop those
  sort_loop-filled zero cpu q w m =
      rw (append-nil q.idle_cpu, append-nil q.cfs_cpu, append-nil q.cos_cpu) refl
  sort_loop-filled (suc n) cpu q w m =
      rw (one_cpu cpu q w m)
        (sort_loop-filled n (cpu + 1) (filled 1 cpu q) w m ∙ ap ok (filled-more n cpu q))
