-- ===== src/Shinjuku/Schedule/Start.antt =====
-- What the loop of `schedule` that chooses starts from, and the queue that it leaves.
use cos_userspace.Base.{
  ℕ, ◌≡◌, ◌<◌, refl, sym, ap, ◌∙◌, false, List, [], ◌∷◌, ◌++◌, ok, arith, ◌==◌, count, count-append,
}
use mathlib.Core.List.{append-nil, append_assoc}
use cos_userspace.RunQueue.{enqueue}
use cos_userspace.Shinjuku.{Shinjuku}
use cos_userspace.Shinjuku.Invariant.{Inv}
use cos_userspace.Shinjuku.Schedule.{Cpus, Batch, first_batch, is_idle, flush, flush_idle}
use cos_userspace.Shinjuku.Schedule.Plan.{all_cpus, resting, restored}
use cos_userspace.Shinjuku.Schedule.Ready.{gathered, Ready}
use cos_userspace.Shinjuku.Schedule.Sort.{Sorted}

flush-append : (rq ts : List ℕ) → count 0 ts ≡ 0 → flush rq ts ≡ rq ++ ts
unfolding flush enqueue count
flush-append rq [] h = sym (append-nil rq)
flush-append rq (t ∷ ts) h =
    let positive : (t == 0) ≡ false = ground (arith, h) in
    rw positive (flush-append (rq ++ t ∷ []) ts (ground arith) ∙ append_assoc rq (t ∷ []) ts)

module _ (cpu_num : ℕ) where
  pub first-Ready :
      (f : Shinjuku) (q : Cpus)
      → Inv cpu_num f
      → Sorted cpu_num q
      → ((t : ℕ) → 0 < count t f.shinjuku_rq → is_idle f.epistle t ≡ ok (resting f.epistle t))
      → Ready cpu_num f.cpu_states (all_cpus q) (first_batch f)
  unfolding restored
  first-Ready f q v s looks = record {
    good = record {
      once = λ t. ap (count t) (append-nil f.shinjuku_rq) ∙ v.once t;
      filed = v.filed;
      seated = v.seated;
    };
    back = λ i. refl;
    untouched = λ i h. refl;
    paired = refl;
    saved = tt;
    cpus_saved = refl;
    distinct = s.distinct;
    below = s.below;
    looks = looks;
  }

  pub flush_idle-gathered :
      (b : Batch) → Inv cpu_num (gathered b) → (flush_idle b).state ≡ gathered b
  flush_idle-gathered b v =
      ap (λ rq. record b.state { shinjuku_rq = rq })
        (flush-append b.state.shinjuku_rq b.onqueue_idle
          (ground (arith, v.once 0, v.filed 0, count-append 0 b.state.shinjuku_rq b.onqueue_idle)))
