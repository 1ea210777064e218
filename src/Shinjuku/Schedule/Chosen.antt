-- ===== src/Shinjuku/Schedule/Chosen.antt =====
-- What the loop of `schedule` that chooses leaves, step by step.
use cos_userspace.Base.{
  ℕ, ◌+◌, ◌≡◌, ◌≢◌, ◌<◌, refl, sym, ap, ◌∙◌, subst, true, false, List, [], ◌∷◌, ◌++◌, arith, count,
  count-append, length, All, map,
}
use mathlib.Core.List.{append-nil, append_assoc}
use cos_userspace.RunQueue.{enqueue, dequeue, peek}
use cos_userspace.RunQueue.Order.{count-peek, count-enqueue}
use cos_userspace.TaskMap.{Slot, absent, null_entry, live}
use cos_userspace.ShootArea.{CosShootArg}
use cos_userspace.Fifo.Schedule.Plan.{marked, plan}
use cos_userspace.Shinjuku.{queued, CpuState, ShinjukuTask}
use cos_userspace.Shinjuku.Invariant.{Inv, queued_count}
use cos_userspace.Shinjuku.Schedule.{Batch, set_aside, place}
use cos_userspace.Shinjuku.Schedule.Plan.{
  resting, awake, restored, awake-rests, awake-up, Runs, AllRun, numbers, cpus_of, given_to,
  plan-distinct,
}
use cos_userspace.Shinjuku.Schedule.Ready.{gathered, Ready}

-- What the loop is to assign.
abbrev pub chosen : List ℕ → Batch → List (ℕ × CosShootArg)
chosen cs b = plan cs (awake b.state.epistle b.state.shinjuku_rq)

-- From `b` to `b'` the processors `cs` were given to the tasks of the queue that are not marked,
-- and to put the saved states back gives the processors `orig`.
pub record Chosen (cpu_num : ℕ) (orig : ℕ → CpuState) (cs : List ℕ) (b b' : Batch) : Type 0 where
  pub good : Inv cpu_num (gathered b')
  pub plan_is : b'.assigned ≡ b.assigned ++ chosen cs b
  pub marks : b'.assigned_mask ≡ marked (chosen cs b) b.assigned_mask
  pub back : (i : ℕ) → restored b'.old_cpu_states b'.state.cpu_states i ≡ orig i
  pub paired : length b'.old_cpu_states ≡ length b'.assigned
  -- No task is lost: what is no more in a queue was assigned.
  pub tasks :
      (t : ℕ)
      → count t (b'.state.shinjuku_rq ++ b'.onqueue_idle) + count t (numbers (chosen cs b))
        ≡ count t (b.state.shinjuku_rq ++ b.onqueue_idle)
  pub still : (c t : ℕ) → Runs b.state c t → Runs b'.state c t
  pub saved : All (λ e. e.1 ≡ orig e.0) b'.old_cpu_states
  pub cpus_saved : map (λ e. e.0) b'.old_cpu_states ≡ cpus_of b'.assigned
  pub same_page : b'.state.epistle ≡ b.state.epistle
  -- What a processor is marked with: the task that it was given, or what it was before.
  pub marked_new : All (λ e. b'.state.cpu_states e.0 ≡ given_to e.1.pid) (chosen cs b)
  pub marked_old :
      (i : ℕ) → count i (cpus_of (chosen cs b)) ≡ 0 → b'.state.cpu_states i ≡ b.state.cpu_states i
  pub started : AllRun b'.state (chosen cs b)

module _ (cpu_num : ℕ) (orig : ℕ → CpuState) (now : ℕ) where
  -- The front of the queue is a task that is known and queued.
  pub front_is_live :
      (cs : List ℕ) (b : Batch)
      → Ready cpu_num orig cs b
      → peek b.state.shinjuku_rq ≢ 0
      → (task : ShinjukuTask) × (b.state.alive_tasks (peek b.state.shinjuku_rq) ≡ live task)
        × (task.state ≡ queued)
        × (task.pid ≡ peek b.state.shinjuku_rq)
  front_is_live cs b v n =
      let tid = peek b.state.shinjuku_rq in
      go (b.state.alive_tasks tid) refl (
        ground (
          arith,
          v.good.once tid,
          count-append tid b.state.shinjuku_rq b.onqueue_idle,
          count-peek tid b.state.shinjuku_rq n,
        ))
    where
      go :
          (s : Slot ShinjukuTask)
          → b.state.alive_tasks (peek b.state.shinjuku_rq) ≡ s
          → 0 < queued_count s
          → (task : ShinjukuTask) × (s ≡ live task)
            × (task.state ≡ queued)
            × (task.pid ≡ peek b.state.shinjuku_rq)
      go absent e h = absurd (omega arith)
      go null_entry e h = absurd (omega arith)
      go (live task) e h =
          (task, refl, ground arith, ground (arith, v.good.filed (peek b.state.shinjuku_rq)))

  pub nothing_waits :
      (cs : List ℕ) (b : Batch)
      → Ready cpu_num orig cs b
      → peek b.state.shinjuku_rq ≡ 0
      → b.state.shinjuku_rq ≡ []
  unfolding peek count
  nothing_waits cs b v p = go b.state.shinjuku_rq (λ t. v.good.once t) p
    where
      go :
          (rq : List ℕ)
          → ((t : ℕ) → count t (rq ++ b.onqueue_idle) ≡ queued_count (b.state.alive_tasks t))
          → peek rq ≡ 0
          → rq ≡ []
      go [] h e = refl
      go (t ∷ rq) h e = absurd (ground (arith, h 0, v.good.filed 0))

  pub Chosen-stop :
      (cs : List ℕ) (b : Batch)
      → Ready cpu_num orig cs b
      → chosen cs b ≡ []
      → Chosen cpu_num orig cs b b
  unfolding marked count
  Chosen-stop cs b v e = record {
    good = v.good;
    plan_is = sym (append-nil b.assigned) ∙ ap (◌++◌ b.assigned) (sym e);
    marks = ap (λ a. marked a b.assigned_mask) (sym e);
    back = v.back;
    paired = v.paired;
    tasks = λ t.
        subst
          (λ a.
            count t (b.state.shinjuku_rq ++ b.onqueue_idle) + count t (numbers a)
            ≡ count t (b.state.shinjuku_rq ++ b.onqueue_idle))
          (sym e) (omega arith);
    still = λ c t r. r;
    saved = v.saved;
    cpus_saved = v.cpus_saved;
    same_page = refl;
    marked_new = subst (All (λ a. b.state.cpu_states a.0 ≡ given_to a.1.pid)) (sym e) tt;
    marked_old = λ i h. refl;
    started = subst (AllRun b.state) (sym e) tt;
  }

  pub Chosen-set_aside :
      (cs : List ℕ) (b b' : Batch)
      → peek b.state.shinjuku_rq ≢ 0
      → resting b.state.epistle (peek b.state.shinjuku_rq) ≡ true
      → Chosen cpu_num orig cs (set_aside b (peek b.state.shinjuku_rq)) b'
      → Chosen cpu_num orig cs b b'
  unfolding set_aside
  Chosen-set_aside cs b b' n e g =
      let rq = b.state.shinjuku_rq in
      let aside = enqueue b.onqueue_idle (peek rq) in
      let same : chosen cs b ≡ chosen cs (set_aside b (peek rq)) =
        ap (plan cs) (awake-rests b.state.epistle rq n e) in
      record {
        good = g.good;
        plan_is = g.plan_is ∙ ap (◌++◌ b.assigned) (sym same);
        marks = g.marks ∙ ap (λ a. marked a b.assigned_mask) (sym same);
        back = g.back;
        paired = g.paired;
        tasks = λ t. omega (
          arith,
          g.tasks t,
          ap (λ a. count t (numbers a)) same,
          count-append t rq b.onqueue_idle,
          count-append t (dequeue rq) aside,
          count-enqueue t b.onqueue_idle (peek rq),
          count-peek t rq n,
        );
        still = g.still;
        saved = g.saved;
        cpus_saved = g.cpus_saved;
        same_page = g.same_page;
        marked_new =
            subst (All (λ a. b'.state.cpu_states a.0 ≡ given_to a.1.pid)) (sym same) g.marked_new;
        marked_old = λ i h. g.marked_old i (ap (λ a. count i (cpus_of a)) (sym same) ∙ h);
        started = subst (AllRun b'.state) (sym same) g.started;
      }

  pub Chosen-place :
      (c : ℕ) (cs : List ℕ) (b b' : Batch) (task : ShinjukuTask)
      → peek b.state.shinjuku_rq ≢ 0
      → resting b.state.epistle (peek b.state.shinjuku_rq) ≡ false
      → b.state.alive_tasks (peek b.state.shinjuku_rq) ≡ live task
      → task.state ≡ queued
      → task.pid ≡ peek b.state.shinjuku_rq
      → count c cs ≡ 0
      → Chosen cpu_num orig cs (place now b c (peek b.state.shinjuku_rq) task) b'
      → Chosen cpu_num orig (c ∷ cs) b b'
  unfolding place plan marked count
  Chosen-place c cs b b' task n e a q p away g =
      let rest = chosen cs (place now b c (peek b.state.shinjuku_rq) task) in
      let ahead : chosen (c ∷ cs) b
          ≡ (c, record { pid = peek b.state.shinjuku_rq; info = 0 }) ∷ rest =
        ap (plan (c ∷ cs)) (awake-up b.state.epistle b.state.shinjuku_rq n e) in
      record {
        good = g.good;
        plan_is =
            g.plan_is
            ∙ append_assoc b.assigned _ _
            ∙ ap (◌++◌ b.assigned)
                (sym (ahead ∙ ap (λ m. (c, record { pid = m; info = 0 }) ∷ rest) (sym p)));
        marks = g.marks ∙ ap (λ a. marked a b.assigned_mask) (sym ahead);
        back = g.back;
        paired = g.paired;
        tasks = λ t. omega (
          arith,
          g.tasks t,
          ap (λ a. count t (numbers a)) ahead,
          count-append t b.state.shinjuku_rq b.onqueue_idle,
          count-append t (dequeue b.state.shinjuku_rq) b.onqueue_idle,
          count-peek t b.state.shinjuku_rq n,
        );
        still = λ d t r. g.still d t (ground arith);
        saved = g.saved;
        cpus_saved = g.cpus_saved;
        same_page = g.same_page;
        marked_new = subst (All (λ a. b'.state.cpu_states a.0 ≡ given_to a.1.pid)) (sym ahead) (
          g.marked_old c (
                ground (
                  arith,
                  plan-distinct cs (awake b.state.epistle (dequeue b.state.shinjuku_rq)) c,
                  away,
                ))
              ∙ ground (arith, p),
          g.marked_new,
        );
        marked_old = λ i h.
            let h' = ap (λ a. count i (cpus_of a)) (sym ahead) ∙ h in
            g.marked_old i (ground arith) ∙ ground arith;
        started =
            subst (AllRun b'.state) (sym ahead)
              (g.still c (peek b.state.shinjuku_rq) (ground arith), g.started);
      }
