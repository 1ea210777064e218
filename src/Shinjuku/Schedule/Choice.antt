-- ===== src/Shinjuku/Schedule/Choice.antt =====
-- The loop of `schedule` that chooses, against the plan: the processors in the order in which
-- `next_cpu` gives them meet the tasks of the queue that are not marked as idle.
use cos_userspace.Base.{
  ℕ, zero, suc, ◌≡◌, ◌≢◌, ◌<◌, sym, ap, ◌∙◌, subst, true, false, none, some, ok, arith, ◌==◌,
  Returns, Bool-cases, inl, inr, length,
}
use cos_userspace.RunQueue.{peek}
use cos_userspace.RunQueue.Order.{count-peek}
use cos_userspace.TaskMap.{live}
use cos_userspace.Fifo.Schedule.Plan.{plan, plan-nil}
use cos_userspace.Shinjuku.{CpuState, ShinjukuTask}
use cos_userspace.Shinjuku.Schedule.{
  Cpus, Batch, is_idle, next_cpu, set_aside, place, pick, choose_loop,
}
use cos_userspace.Shinjuku.Schedule.Plan.{
  all_cpus, next_cpu-all_cpus, resting, awake, length-dequeue,
}
use cos_userspace.Shinjuku.Schedule.Ready.{Ready, Ready-once, set_aside-Ready, place-Ready}
use cos_userspace.Shinjuku.Schedule.Chosen.{
  Chosen, front_is_live, nothing_waits, Chosen-stop, Chosen-set_aside, Chosen-place,
}

module _ (cpu_num : ℕ) (orig : ℕ → CpuState) (now : ℕ) where
  choose_loop-rests :
      (fuel : ℕ) (q : Cpus) (b : Batch)
      → peek b.state.shinjuku_rq ≢ 0
      → is_idle b.state.epistle (peek b.state.shinjuku_rq) ≡ ok true
      → choose_loop now (suc fuel) q b
        ≡ choose_loop now fuel q (set_aside b (peek b.state.shinjuku_rq))
  unfolding choose_loop
  choose_loop-rests fuel q b n e = ground (arith, n, e)

  choose_loop-dry :
      (fuel : ℕ) (q : Cpus) (b : Batch)
      → peek b.state.shinjuku_rq ≡ 0
      → choose_loop now (suc fuel) q b ≡ ok b
  unfolding choose_loop
  choose_loop-dry fuel q b e = ground (arith, e)

  choose_loop-full :
      (fuel : ℕ) (q : Cpus) (b : Batch)
      → peek b.state.shinjuku_rq ≢ 0
      → is_idle b.state.epistle (peek b.state.shinjuku_rq) ≡ ok false
      → next_cpu q ≡ none
      → choose_loop now (suc fuel) q b ≡ ok b
  unfolding choose_loop
  choose_loop-full fuel q b n e none_left = ground (arith, n, e, none_left)

  choose_loop-place :
      (fuel c : ℕ) (q q' : Cpus) (b : Batch) (task : ShinjukuTask)
      → peek b.state.shinjuku_rq ≢ 0
      → is_idle b.state.epistle (peek b.state.shinjuku_rq) ≡ ok false
      → next_cpu q ≡ some (c, q')
      → b.state.alive_tasks (peek b.state.shinjuku_rq) ≡ live task
      → choose_loop now (suc fuel) q b
        ≡ choose_loop now fuel q' (place now b c (peek b.state.shinjuku_rq) task)
  unfolding choose_loop pick
  choose_loop-place fuel c q q' b task n e next a = ground (arith, n, e, next, a)

  -- In a state that satisfies `Ready`, with more fuel than queued tasks, the loop that chooses
  -- ends without a fault and satisfies `Chosen`: the processors, idle ones first, then those of
  -- CFS, then those whose task may be preempted, get the tasks at the front of the queue that are
  -- not marked as idle, no task is lost, and the saved states give the processors of the start.
  pub choose_loop-Chosen :
      (fuel : ℕ) (q : Cpus) (b : Batch)
      → Ready cpu_num orig (all_cpus q) b
      → length b.state.shinjuku_rq < fuel
      → Returns (choose_loop now fuel q b) (Chosen cpu_num orig (all_cpus q) b)
  unfolding plan awake set_aside place
  choose_loop-Chosen zero q b v h = absurd (omega arith)
  choose_loop-Chosen (suc fuel) q b v h = elim (Bool-cases (peek b.state.shinjuku_rq == 0)) [
    | inl dry ↦
        let e = nothing_waits cpu_num orig now (all_cpus q) b v (ground arith) in
        (
          b,
          choose_loop-dry fuel q b (ground arith),
          Chosen-stop cpu_num orig now (all_cpus q) b v
              (ap (λ rq. plan (all_cpus q) (awake b.state.epistle rq)) e ∙ plan-nil (all_cpus q)),
        )
    | inr more ↦
        let n : peek b.state.shinjuku_rq ≢ 0 = ground arith in
        let shorter = length-dequeue b.state.shinjuku_rq n in
        let look =
          v.looks (peek b.state.shinjuku_rq)
            (ground (arith, count-peek (peek b.state.shinjuku_rq) b.state.shinjuku_rq n)) in
        elim (Bool-cases (resting b.state.epistle (peek b.state.shinjuku_rq))) [
          | inl rest ↦
              let (b', run, g) =
                choose_loop-Chosen fuel q (set_aside b (peek b.state.shinjuku_rq))
                  (set_aside-Ready cpu_num orig b (all_cpus q) n v) (omega (arith, shorter, h)) in
              (
                b',
                choose_loop-rests fuel q b n (look ∙ ap ok rest) ∙ run,
                Chosen-set_aside cpu_num orig now (all_cpus q) b b' n rest g,
              )
          | inr up ↦ elim (next_cpu-all_cpus q) [
            | inl (none_left, e) ↦ (
              b,
              choose_loop-full fuel q b n (look ∙ ap ok up) none_left,
              Chosen-stop cpu_num orig now (all_cpus q) b v
                  (ap (λ cs. plan cs (awake b.state.epistle b.state.shinjuku_rq)) e),
            )
            | inr (c, q', e, split) ↦
                let (task, a, qd, p) = front_is_live cpu_num orig now (all_cpus q) b v n in
                let (b', run, g) =
                  choose_loop-Chosen fuel q' (place now b c (peek b.state.shinjuku_rq) task)
                    (place-Ready cpu_num orig b now c (all_cpus q') task n a qd
                      (subst (λ cs. Ready cpu_num orig cs b) split v))
                    (omega (arith, shorter, h)) in
                (
                  b',
                  choose_loop-place fuel c q q' b task n (look ∙ ap ok up) e a ∙ run,
                  subst (λ cs. Chosen cpu_num orig cs b b') (sym split)
                      (Chosen-place cpu_num orig now c (all_cpus q') b b' task n up a qd p
                        (Ready-once cpu_num c orig (all_cpus q') b
                          (subst (λ cs. Ready cpu_num orig cs b) split v))
                        g),
                )
          ]
        ]
  ]
