-- ===== src/Shinjuku/Schedule/Ready.antt =====
-- What holds in the loop of `schedule` that chooses, and the two moves of its body.
use cos_userspace.Base.{
  ℕ, ◌≡◌, ◌≢◌, ◌<◌, ◌≤◌, ◌∙◌, List, [], ◌∷◌, ◌++◌, ok, arith, ◌==◌, Bool-cases, inl, inr, count,
  count-append, length, length-append, All, All-append, map, ap, sym,
}
use cos_userspace.RunQueue.{enqueue, dequeue, peek}
use cos_userspace.RunQueue.Order.{count-peek, count-enqueue}
use cos_userspace.TaskMap.{live}
use cos_userspace.Shinjuku.{queued, CpuState, ShinjukuTask, Shinjuku}
use cos_userspace.Shinjuku.Invariant.{Inv}
use cos_userspace.Shinjuku.Schedule.{Batch, is_idle, set_aside, place}
use cos_userspace.Shinjuku.Schedule.Plan.{resting, restored, restored-snoc, restored-local, cpus_of}
use cos_userspace.ShootArea.{CosShootArg}
use mathlib.Core.List.{map-append}

-- The state with what was set aside at the end of the queue.
abbrev pub gathered : Batch → Shinjuku
gathered b = record b.state { shinjuku_rq = b.state.shinjuku_rq ++ b.onqueue_idle }

-- What holds in the loop, with `cs` still to be given away and `orig` the processors at its start.
pub record Ready (cpu_num : ℕ) (orig : ℕ → CpuState) (cs : List ℕ) (b : Batch) : Type 0 where
  pub good : Inv cpu_num (gathered b)
  pub back : (i : ℕ) → restored b.old_cpu_states b.state.cpu_states i ≡ orig i
  pub untouched : (i : ℕ) → 0 < count i cs → b.state.cpu_states i ≡ orig i
  pub paired : length b.old_cpu_states ≡ length b.assigned
  -- The saved states are those of the start, for the processors of the assignments.
  pub saved : All (λ e. e.1 ≡ orig e.0) b.old_cpu_states
  pub cpus_saved : map (λ e. e.0) b.old_cpu_states ≡ cpus_of b.assigned
  pub distinct : (i : ℕ) → count i cs ≤ 1
  pub below : (i : ℕ) → 0 < count i cs → i < cpu_num
  pub looks :
      (t : ℕ)
      → 0 < count t b.state.shinjuku_rq
      → is_idle b.state.epistle t ≡ ok (resting b.state.epistle t)

-- A processor is given away once.
pub Ready-once :
    (cpu_num c : ℕ) (orig : ℕ → CpuState) (cs : List ℕ) (b : Batch)
    → Ready cpu_num orig (c ∷ cs) b
    → count c cs ≡ 0
unfolding count
Ready-once cpu_num c orig cs b v = ground (arith, v.distinct c)

module _ (cpu_num : ℕ) (orig : ℕ → CpuState) (b : Batch) where
  pub set_aside-Ready :
      (cs : List ℕ)
      → peek b.state.shinjuku_rq ≢ 0
      → Ready cpu_num orig cs b
      → Ready cpu_num orig cs (set_aside b (peek b.state.shinjuku_rq))
  unfolding set_aside
  set_aside-Ready cs n v =
      let rq = b.state.shinjuku_rq in
      let tid = peek rq in
      record {
        good = record {
          once = λ t. ground (
            arith,
            v.good.once t,
            count-append t rq b.onqueue_idle,
            count-append t (dequeue rq) (enqueue b.onqueue_idle tid),
            count-enqueue t b.onqueue_idle tid,
            count-peek t rq n,
          );
          filed = v.good.filed;
          seated = v.good.seated;
        };
        back = v.back;
        paired = v.paired;
        untouched = v.untouched;
        saved = v.saved;
        cpus_saved = v.cpus_saved;
        distinct = v.distinct;
        below = v.below;
        looks = λ t h. v.looks t (ground (arith, count-peek t rq n));
      }

  pub place-Ready :
      (now c : ℕ) (cs : List ℕ) (task : ShinjukuTask)
      → peek b.state.shinjuku_rq ≢ 0
      → b.state.alive_tasks (peek b.state.shinjuku_rq) ≡ live task
      → task.state ≡ queued
      → Ready cpu_num orig (c ∷ cs) b
      → Ready cpu_num orig cs (place now b c (peek b.state.shinjuku_rq) task)
  unfolding place count
  place-Ready now c cs task n e q v =
      let rq = b.state.shinjuku_rq in
      let tid = peek rq in
      record {
        good = record {
          once = λ t. ground (
            arith,
            v.good.once t,
            count-append t rq b.onqueue_idle,
            count-append t (dequeue rq) b.onqueue_idle,
            count-peek t rq n,
          );
          filed = λ t. ground (arith, v.good.filed t);
          seated = λ t d h. ground (arith, v.good.seated t d, v.below c);
        };
        back = λ i. elim (Bool-cases (i == c)) [
          | inl hit ↦ rw (restored-snoc b.old_cpu_states, hit) (ground (arith, v.untouched c))
          | inr miss ↦
              rw (restored-snoc b.old_cpu_states, miss)
                (restored-local b.old_cpu_states _ b.state.cpu_states i (ground arith) ∙ v.back i)
        ];
        paired = omega (
          arith,
          v.paired,
          length-append b.old_cpu_states ((c, b.state.cpu_states c) ∷ []),
          length-append b.assigned ((c, record { pid = task.pid; info = 0 }) ∷ []),
        );
        saved =
            All-append (λ e. e.1 ≡ orig e.0) b.old_cpu_states _ v.saved
              (v.untouched c (ground arith), tt);
        cpus_saved =
            map-append (λ (e : ℕ × CpuState). e.0) b.old_cpu_states _
            ∙ ap (λ cs. cs ++ c ∷ []) v.cpus_saved
            ∙ sym (map-append (λ (e : ℕ × CosShootArg). e.0) b.assigned _);
        untouched = λ i h. ground (arith, v.untouched i, v.distinct i);
        distinct = λ i. ground (arith, v.distinct i);
        below = λ i h. ground (arith, v.below i);
        looks = λ t h. v.looks t (ground (arith, count-peek t rq n));
      }
