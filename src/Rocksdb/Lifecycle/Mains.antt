-- ===== src/Rocksdb/Lifecycle/Mains.antt =====
-- A step of main keeps what the threads rely on.
use cos_userspace.Base.{
  ℕ, ◌+◌, ◌<◌, ◌≡◌, refl, sym, subst, Bool, true, false, some, arith, ◌==◌, Bool-cases, inl, inr,
  leb, ==_iff,
}
use cos_userspace.Thread.{finished, spawn, can_join, can_join-finished}
use cos_userspace.Rocksdb.Lifecycle.{
  Main, register, launch, create, wait, prepare, notify, pause, end_workers, report, join,
  end_generator, join_generator, report_all, returned, exited, LoadGenerator, unborn, waiting, head,
  visit, drain_head, drain, ended, Shared, Process, put, set_up_worker, joined_worker, main_step,
}
use cos_userspace.Rocksdb.Lifecycle.Shares.{
  IsReady, Sound, main_moves, generator_moves, Grows, Sound-Grows,
}
use cos_userspace.Rocksdb.Lifecycle.Workers.{thread-Grows}

module _ (n : ℕ) (tids : ℕ → ℕ) where
  abbrev pub SoundAt : Process → Type 0
  SoundAt s = Sound n tids s.main s.generator s.shared

  -- Worker `i` got its entries.
  set_up-Sound :
      (i : ℕ) (s : Process)
      → Sound n tids (prepare i) s.generator s.shared
      → SoundAt (set_up_worker s i)
  unfolding set_up_worker
  set_up-Sound i s v =
      let h = s.shared in
      let known : (h.threads i).tid_ ≡ some (tids i) = v.locked i v.waited in
      let h' : Shared = record h {
        worker_works = put h.worker_works (tids i);
        requests = put h.requests (tids i);
      } in
      let more : Grows n tids (prepare i) h h' = record {
        keeps_lock = λ j e. e;
        keeps_works = λ j e. ground (arith, e);
        keeps_requests = λ j e. ground (arith, e);
        keeps_done = λ j small e. e;
        same_told = refl;
        still_proper = v.proper;
        still_locked = v.locked;
        marks_ready = v.marks;
        still_defined = v.defined;
      } in
      let v' = Sound-Grows n tids (prepare i) s.generator h h' v more in
      rw (known, set_up_worker)
        (main_moves n tids (prepare i) (wait (i + 1)) s.generator h' v'
          (λ j small. elim (Bool-cases (j == i)) [
            | inl hit ↦
                subst (λ x. IsReady h' (tids x) x) (sym ((==_iff j i).0 hit))
                  (v.waited, ground arith, ground arith)
            | inr miss ↦ v'.ready j (ground (arith, miss))
          ])
          tt (λ j small. absurd (omega arith)) (λ e. ground (arith, e)))

  joined-Sound :
      (i : ℕ) (s : Process)
      → i < n
      → can_join (s.shared.threads i) ≡ true
      → Sound n tids (join i) s.generator s.shared
      → SoundAt (joined_worker s i)
  unfolding joined_worker
  joined-Sound i s small over v =
      let known : (s.shared.threads i).tid_ ≡ some (tids i) = v.locked i (v.ready i small).0 in
      let stage : (s.shared.threads i).stage ≡ finished =
        can_join-finished (s.shared.threads i) over in
      rw (known, joined_worker)
        (main_moves n tids (join i) (join (i + 1)) s.generator s.shared v v.ready tt
          (λ j below. elim (Bool-cases (j == i)) [
            | inl hit ↦
                subst (λ x. (s.shared.threads x).stage ≡ finished) (sym ((==_iff j i).0 hit)) stage
            | inr miss ↦ v.done j (ground (arith, miss))
          ])
          (λ e. ground (arith, e)))

  pub main-Sound :
      (m : Main) (g : LoadGenerator) (h : Shared) (a b c d : Bool)
      → Sound n tids m g h
      → SoundAt (
          main_step n (record {
            shared = h;
            main = m;
            generator = g;
            exit_all = a;
            exit_generator = b;
            should_exit = c;
            force_exit = d;
          }))
  unfolding main_step
  main-Sound register g h a b c d v =
      main_moves n tids register launch g h v (λ j small. absurd (omega arith)) tt
        (λ j small. absurd (omega arith)) (λ e. ground (arith, e))
  main-Sound launch g h a b c d v =
      main_moves n tids launch (create 0) waiting h
        (generator_moves n tids launch g waiting h v (λ e. ground (arith, e))
          (λ e. ground (arith, e)))
        (λ j small. absurd (omega arith)) tt (λ j small. absurd (omega arith))
        (λ e. ground (arith, e))
  main-Sound (create i) g h a b c d v = elim (Bool-cases (leb n i)) [
    | inl all ↦ rw all (
        main_moves n tids (create i) (wait 0) g h v (λ j small. absurd (omega arith)) tt
          (λ j small. absurd (omega arith)) (λ e. ground (arith, e)))
    | inr more ↦ rw more (
        main_moves n tids (create i) (create (i + 1)) g _
          (Sound-Grows n tids (create i) g h _ v (
            thread-Grows n tids (create i) g h i v (spawn (h.threads i)) tt (λ e. e)
              (λ small e. absurd (omega arith))))
          (λ j small. absurd (omega arith)) tt (λ j small. absurd (omega arith))
          (λ e. ground (arith, e)))
  ]
  main-Sound (wait i) g h a b c d v = elim (Bool-cases (leb n i)) [
    | inl all ↦ rw all (
        main_moves n tids (wait i) notify g h v (λ j small. v.ready j (ground (arith, all))) tt
          (λ j small. absurd (omega arith)) (λ e. ground (arith, e)))
    | inr more ↦ elim (Bool-cases (h.worker_lock i)) [
      | inl there ↦
          rw (more, there)
            (main_moves n tids (wait i) (prepare i) g h v v.ready there
              (λ j small. absurd (omega arith)) (λ e. ground (arith, e)))
      | inr early ↦ rw (more, early) v
    ]
  ]
  main-Sound (prepare i) g h a b c d v = set_up-Sound i _ v
  main-Sound notify g h a b c d v = record {
    proper = v.proper;
    locked = v.locked;
    ready = v.ready;
    waited = tt;
    told = λ e. v.ready;
    active = v.active;
    marks = v.marks;
    defined = v.defined;
    done = λ j small. absurd (omega arith);
    over = λ e. ground (arith, e);
  }
  main-Sound pause g h a b true d v =
      main_moves n tids pause end_workers g h v v.ready tt (λ j small. absurd (omega arith))
        (λ e. ground (arith, e))
  main-Sound pause g h a b false d v = v
  main-Sound end_workers g h a b c d v =
      main_moves n tids end_workers report g h v v.ready tt (λ j small. absurd (omega arith))
        (λ e. ground (arith, e))
  main-Sound report g h a b c d v =
      main_moves n tids report (join 0) g h v v.ready tt (λ j small. absurd (omega arith))
        (λ e. ground (arith, e))
  main-Sound (join i) g h a b c d v = elim (Bool-cases (leb n i)) [
    | inl all ↦ rw all (
        main_moves n tids (join i) end_generator g h v v.ready tt
          (λ j small. v.done j (ground (arith, all))) (λ e. ground (arith, e)))
    | inr more ↦ elim (Bool-cases (can_join (h.threads i))) [
      | inl over ↦ rw (more, over) (joined-Sound i _ (ground (arith, more)) over v)
      | inr going ↦ rw (more, going) v
    ]
  ]
  main-Sound end_generator g h a b c d v =
      main_moves n tids end_generator join_generator g h v v.ready tt v.done
        (λ e. ground (arith, e))
  main-Sound join_generator ended h a b c d v =
      main_moves n tids join_generator report_all ended h v v.ready tt v.done (λ e. refl)
  main-Sound join_generator unborn h a b c d v = v
  main-Sound join_generator waiting h a b c d v = v
  main-Sound join_generator head h a b c d v = v
  main-Sound join_generator (visit i) h a b c d v = v
  main-Sound join_generator drain_head h a b c d v = v
  main-Sound join_generator (drain i) h a b c d v = v
  main-Sound report_all g h a b c d v =
      main_moves n tids report_all returned g h v v.ready tt v.done v.over
  main-Sound returned g h a b c d v = v
  main-Sound exited g h a b c d v = v
