-- ===== src/Rocksdb/Lifecycle/Workers.antt =====
-- A worker's step keeps what main, the generator and the workers rely on.
use cos_userspace.Base.{
  ℕ, ◌<◌, ◌≡◌, refl, sym, Bool, false, some, arith, ◌==◌, Bool-cases, inl, inr, ==_iff, subst,
}
use cos_userspace.Thread.{
  CosThread, working, finished, thread_step, Proper, Stage-cases, thread_step-Proper,
  thread_step-tid,
}
use cos_userspace.Rocksdb.Lifecycle.{
  Main, LoadGenerator, Shared, set_thread, work_step, worker_goes,
}
use cos_userspace.Rocksdb.Lifecycle.Shares.{joined, Sound, Grows}

module _ (n : ℕ) (tids : ℕ → ℕ) (m : Main) (g : LoadGenerator) (h : Shared) (i : ℕ)
    (s : Sound n tids m g h) where
  -- Only thread `i` is another one.
  pub thread-Grows :
      (t : CosThread)
      → Proper (tids i) t
      → ((h.threads i).tid_ ≡ some (tids i) → t.tid_ ≡ some (tids i))
      → (i < joined n m → (h.threads i).stage ≡ finished → t.stage ≡ finished)
      → Grows n tids m h (set_thread h i t)
  thread-Grows t p k f = record {
    keeps_lock = λ j e. e;
    keeps_works = λ j e. e;
    keeps_requests = λ j e. e;
    keeps_done = λ j small e. elim (Bool-cases (j == i)) [
      | inl hit ↦ rw hit (
          f (subst (λ x. x < joined n m) ((==_iff j i).0 hit) small)
            (subst (λ x. (h.threads x).stage ≡ finished) ((==_iff j i).0 hit) e))
      | inr miss ↦ rw miss e
    ];
    same_told = refl;
    still_proper = λ j. elim (Bool-cases (j == i)) [
      | inl hit ↦ rw hit (subst (λ x. Proper (tids x) t) (sym ((==_iff j i).0 hit)) p)
      | inr miss ↦ rw miss (s.proper j)
    ];
    still_locked = λ j e. elim (Bool-cases (j == i)) [
      | inl hit ↦
          let same = (==_iff j i).0 hit in
          rw hit (
            subst (λ x. t.tid_ ≡ some (tids x)) (sym same)
              (k (subst (λ x. (h.threads x).tid_ ≡ some (tids x)) same (s.locked j e))))
      | inr miss ↦ rw miss (s.locked j e)
    ];
    marks_ready = s.marks;
    still_defined = s.defined;
  }

  starts-Grows : Grows n tids m h (set_thread h i (thread_step (tids i) (h.threads i)))
  unfolding thread_step
  starts-Grows =
      thread-Grows (thread_step (tids i) (h.threads i))
        (thread_step-Proper (tids i) (h.threads i) (s.proper i))
        (thread_step-tid (tids i) (h.threads i)) (λ small e. ground (arith, e))

  -- A look at an entry that is there.
  pub reads-Grows : (u : Bool) → u ≡ false → Grows n tids m h (record h { undefined_read = u })
  reads-Grows u e = record {
    keeps_lock = λ j e. e;
    keeps_works = λ j e. e;
    keeps_requests = λ j e. e;
    keeps_done = λ j small e. e;
    same_told = refl;
    still_proper = s.proper;
    still_locked = s.locked;
    marks_ready = s.marks;
    still_defined = e;
  }

  work-Grows :
      (exit_all : Bool)
      → (h.threads i).stage ≡ working
      → Grows n tids m h (work_step (tids i) exit_all h i)
  unfolding work_step
  work-Grows exit_all at_work =
      let own : ((h.threads i).tid_ ≡ some (tids i)) = ground (arith, s.proper i, at_work) in
      elim (Bool-cases (h.worker_lock i)) [
        | inr early ↦
            rw (early, work_step)
              (record {
                keeps_lock = λ j e. ground (arith, e);
                keeps_works = λ j e. e;
                keeps_requests = λ j e. e;
                keeps_done = λ j small e. e;
                same_told = refl;
                still_proper = s.proper;
                still_locked = λ j e. elim (Bool-cases (j == i)) [
                  | inl hit ↦
                      subst (λ x. (h.threads x).tid_ ≡ some (tids x)) (sym ((==_iff j i).0 hit)) own
                  | inr miss ↦ s.locked j (ground (arith, e, miss))
                ];
                marks_ready = s.marks;
                still_defined = s.defined;
              })
        | inl there ↦ elim (Bool-cases exit_all) [
          | inl over ↦
              rw (there, over, work_step)
                (thread-Grows (record (h.threads i) { stage = finished })
                  (ground (arith, s.proper i, at_work)) (λ e. e) (λ small e. refl))
          | inr on ↦ elim (Bool-cases (h.marked i)) [
            | inr idle ↦ rw (there, on, idle, work_step) (reads-Grows h.undefined_read s.defined)
            | inl called ↦
                let (a, b, c) = s.marks i called in
                rw (there, on, called, work_step) (reads-Grows _ (ground (arith, b, c, s.defined)))
          ]
        ]
      ]

  pub worker_goes-Grows : (exit_all : Bool) → Grows n tids m h (worker_goes (tids i) exit_all h i)
  unfolding worker_goes
  worker_goes-Grows exit_all = elim (Stage-cases (h.threads i).stage) [
    | inl e ↦ rw (e, worker_goes) starts-Grows
    | inr (inl e) ↦ rw (e, worker_goes) starts-Grows
    | inr (inr (inl e)) ↦ rw (e, worker_goes) starts-Grows
    | inr (inr (inr (inl e))) ↦ rw (e, worker_goes) (work-Grows exit_all e)
    | inr (inr (inr (inr e))) ↦ rw (e, worker_goes) starts-Grows
  ]
