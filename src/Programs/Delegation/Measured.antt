-- ===== src/Programs/Delegation/Measured.antt =====
-- What waits for what in that program.
use cos_userspace.Base.{
  ℕ, ◌+◌, ◌<◌, ◌≡◌, refl, subst, Bool, true, false, arith, ltb, ◌==◌, Bool-cases, inl, inr, ◌⊎◌,
}
use cos_userspace.Thread.{CosThread, Stage, finished, can_join, can_join-finished, Stage-cases}
use cos_userspace.Programs.{cos_step, cfs_step, has_finished, cos_step-finished}
use cos_userspace.Programs.Delegation.{
  Point, start_cfs, start_cos, join_cos, tell_exit, join_cfs, returned, Program, delegation_step,
  Step, main_runs, cos_runs, cfs_runs, Reach, here, next,
}

abbrev Phase : Point → CosThread → (ℕ → Stage) → Bool → Type 0
Phase (start_cfs i) t cfs x = x ≡ false
Phase start_cos t cfs x = x ≡ false
Phase join_cos t cfs x = x ≡ false
Phase tell_exit t cfs x = (x ≡ false) × (t.stage ≡ finished)
Phase (join_cfs i) t cfs x = (t.stage ≡ finished) × ((j : ℕ) → j < i → cfs j ≡ finished)
Phase returned t cfs x = (t.stage ≡ finished) × ((j : ℕ) → j < 10 → cfs j ≡ finished)

record Sound (s : Program) : Type 0 where
  phase : Phase s.main s.t s.cfs_workers s.should_exit
  told : (i : ℕ) → s.cfs_workers i ≡ finished → s.should_exit ≡ true

has_finished_lem : (t : Stage) → has_finished t ≡ true → t ≡ finished
has_finished_lem t e = elim (Stage-cases t) [
  | inl k ↦ absurd (ground (arith, e, k))
  | inr (inl k) ↦ absurd (ground (arith, e, k))
  | inr (inr (inl k)) ↦ absurd (ground (arith, e, k))
  | inr (inr (inr (inl k))) ↦ absurd (ground (arith, e, k))
  | inr (inr (inr (inr k))) ↦ k
]

cfs_step-finished : (x : Bool) (t : Stage) → cfs_step x t ≡ finished → (t ≡ finished) ⊎ (x ≡ true)
unfolding cfs_step
cfs_step-finished x t e = elim (Stage-cases t) [
  | inl k ↦ absurd (ground (arith, e, k))
  | inr (inl k) ↦ absurd (ground (arith, e, k))
  | inr (inr (inl k)) ↦ absurd (ground (arith, e, k))
  | inr (inr (inr (inl k))) ↦ inr (ground (arith, e, k))
  | inr (inr (inr (inr k))) ↦ inl k
]

cfs_step-stays : (x : Bool) (t : Stage) → t ≡ finished → cfs_step x t ≡ finished
unfolding cfs_step
cfs_step-stays x t e = rw (e, cfs_step) refl

abbrev at_main : Point → CosThread → (ℕ → Stage) → Bool → Program
at_main m t cfs x = record { main = m; t = t; cfs_workers = cfs; should_exit = x }

main-Sound :
    (m : Point) (t : CosThread) (cfs : ℕ → Stage) (x : Bool)
    → Sound (at_main m t cfs x)
    → Sound (delegation_step (at_main m t cfs x))
unfolding delegation_step
main-Sound (start_cfs i) t cfs x v = elim (Bool-cases (ltb i 10)) [
  | inl more ↦ rw more (record { phase = v.phase; told = λ j e. v.told j (ground (arith, e)) })
  | inr done ↦ rw done (record { phase = v.phase; told = v.told })
]
main-Sound start_cos t cfs x v = record { phase = v.phase; told = v.told }
main-Sound join_cos t cfs x v = elim (Bool-cases (can_join t)) [
  | inl over ↦ rw over (record { phase = (v.phase, can_join-finished t over); told = v.told })
  | inr going ↦ rw going v
]
main-Sound tell_exit t cfs x v = record {
  phase = (v.phase.1, λ j lt. absurd (omega (arith, lt)));
  told = λ j e. refl;
}
main-Sound (join_cfs i) t cfs x v = elim (Bool-cases (ltb i 10)) [
  | inl more ↦ elim (Bool-cases (has_finished (cfs i))) [
    | inl over ↦
        rw (more, over)
          (record {
            phase = (v.phase.0, λ j lt. joined (has_finished_lem (cfs i) over) v.phase.1 j lt);
            told = v.told;
          })
    | inr going ↦ rw (more, going) v
  ]
  | inr done ↦
      rw done
        (record { phase = (v.phase.0, λ j lt. v.phase.1 j (ground (arith, lt))); told = v.told })
]
  where
    joined :
        cfs i ≡ finished
        → ((j : ℕ) → j < i → cfs j ≡ finished)
        → (j : ℕ) → j < i + 1
        → cfs j ≡ finished
    joined now before j lt = elim (Bool-cases (ltb j i)) [
      | inl old ↦ before j (ground arith)
      | inr last ↦ let same : i ≡ j = ground (arith, lt) in subst (λ k. cfs k ≡ finished) same now
    ]
main-Sound returned t cfs x v = v

cos_runs-Sound :
    (tid : ℕ) (m : Point) (t : CosThread) (cfs : ℕ → Stage) (x : Bool)
    → Phase m t cfs x
    → Phase m (cos_step tid t) cfs x
cos_runs-Sound tid (start_cfs i) t cfs x p = p
cos_runs-Sound tid start_cos t cfs x p = p
cos_runs-Sound tid join_cos t cfs x p = p
cos_runs-Sound tid tell_exit t cfs x p = (p.0, cos_step-finished tid t p.1)
cos_runs-Sound tid (join_cfs i) t cfs x p = (cos_step-finished tid t p.0, p.1)
cos_runs-Sound tid returned t cfs x p = (cos_step-finished tid t p.0, p.1)

-- The threads that have ended have still ended.
cfs_runs-Sound :
    (m : Point) (t : CosThread) (cfs cfs' : ℕ → Stage) (x : Bool)
    → ((j : ℕ) → cfs j ≡ finished → cfs' j ≡ finished)
    → Phase m t cfs x
    → Phase m t cfs' x
cfs_runs-Sound (start_cfs i) t cfs cfs' x keep p = p
cfs_runs-Sound start_cos t cfs cfs' x keep p = p
cfs_runs-Sound join_cos t cfs cfs' x keep p = p
cfs_runs-Sound tell_exit t cfs cfs' x keep p = p
cfs_runs-Sound (join_cfs i) t cfs cfs' x keep p = (p.0, λ j lt. keep j (p.1 j lt))
cfs_runs-Sound returned t cfs cfs' x keep p = (p.0, λ j lt. keep j (p.1 j lt))

Step-Sound : (tid : ℕ) (s t : Program) → Sound s → Step tid s t → Sound t
Step-Sound tid s t v main_runs = main-Sound s.main s.t s.cfs_workers s.should_exit v
Step-Sound tid s t v cos_runs = record {
  phase = cos_runs-Sound tid s.main s.t s.cfs_workers s.should_exit v.phase;
  told = v.told;
}
Step-Sound tid s t v (cfs_runs i) = record {
  phase =
      cfs_runs-Sound s.main s.t s.cfs_workers _ s.should_exit
        (λ j e. elim (Bool-cases (j == i)) [
          | inl hit ↦
              rw hit (cfs_step-stays s.should_exit (s.cfs_workers i) (ground (arith, e, hit)))
          | inr miss ↦ rw miss e
        ])
        v.phase;
  told = λ j e. elim (Bool-cases (j == i)) [
    | inr miss ↦ v.told j (ground (arith, e, miss))
    | inl hit ↦ elim (cfs_step-finished s.should_exit (s.cfs_workers i) (ground (arith, e, hit))) [
      | inl was ↦ v.told i was
      | inr now ↦ now
    ]
  ];
}

Reach-Sound : {tid : ℕ} {s : Program} → Reach tid s → Sound s
Reach-Sound here = record { phase = refl; told = λ i e. ground (arith, e) }
Reach-Sound {tid} (next {s} {t} r step) = Step-Sound tid s t (Reach-Sound r) step

-- The order in which the threads end.
pub record Ordered (s : Program) : Type 0 where
  -- `main` returns when all the threads have ended.
  pub returns_last :
      s.main ≡ returned → (s.t.stage ≡ finished) × ((i : ℕ) → i < 10 → s.cfs_workers i ≡ finished)
  -- As long as the COS thread is there, the load is too.
  pub measured_first : (i : ℕ) → s.cfs_workers i ≡ finished → s.t.stage ≡ finished

told_behind :
    (m : Point) (t : CosThread) (cfs : ℕ → Stage) (x : Bool)
    → Phase m t cfs x
    → x ≡ true
    → t.stage ≡ finished
told_behind (start_cfs i) t cfs x p e = absurd (ground (arith, p, e))
told_behind start_cos t cfs x p e = absurd (ground (arith, p, e))
told_behind join_cos t cfs x p e = absurd (ground (arith, p, e))
told_behind tell_exit t cfs x p e = p.1
told_behind (join_cfs i) t cfs x p e = p.0
told_behind returned t cfs x p e = p.0

-- In every state that the steps of `main` and of the threads reach in whatever order, `main` has
-- returned only if the COS thread and the ten threads of CFS have ended, and a thread of CFS has
-- ended only if the COS thread has.
pub Reach-Ordered : {tid : ℕ} {s : Program} → Reach tid s → Ordered s
Reach-Ordered {s = s} r =
    let v = Reach-Sound r in
    record {
      returns_last = λ e. subst (λ m. Phase m s.t s.cfs_workers s.should_exit) e v.phase;
      measured_first =
          λ i e. told_behind s.main s.t s.cfs_workers s.should_exit v.phase (v.told i e);
    }
