-- ===== src/Rocksdb/Lifecycle/Generators.antt =====
-- A step of the generator keeps what the threads rely on.
use cos_userspace.Base.{
  ℕ, ◌+◌, ◌<◌, ◌≡◌, ◌≢◌, refl, sym, subst, Bool, true, false, some, arith, ◌==◌, if◌then◌else◌,
  Bool-cases, inl, inr, leb, ==_iff, not, ◌||◌,
}
use cos_userspace.Rocksdb.Lifecycle.{
  Main, LoadGenerator, unborn, waiting, head, visit, drain_head, drain, ended, Shared, Process,
  Answer, pass, give, leave, look_for, mark_runnable, visit_step, drain_step, generator_goes,
}
use cos_userspace.Rocksdb.Lifecycle.Shares.{
  is_active, IsReady, Sound, generator_moves, Grows, Sound-Grows,
}
use cos_userspace.Rocksdb.Lifecycle.Workers.{reads-Grows}
use cos_userspace.Rocksdb.Lifecycle.Mains.{SoundAt}

module _ (n : ℕ) (tids : ℕ → ℕ) where
  -- The look at the entry of worker `i` finds it.
  found_entry :
      (h : Shared) (i : ℕ)
      → IsReady h (tids i) i
      → h.undefined_read ≡ false
      → (h.undefined_read || not (h.worker_works (tids i))) ≡ false
  found_entry h i (a, b, c) e = ground (arith, b, e)

  -- Worker `i`, which has its entries, is marked.
  marked-Grows :
      (m : Main) (g : LoadGenerator) (h : Shared) (i : ℕ)
      → Sound n tids m g h
      → IsReady h (tids i) i
      → Grows n tids m h (mark_runnable h i)
  marked-Grows m g h i v r = record {
    keeps_lock = λ j e. e;
    keeps_works = λ j e. e;
    keeps_requests = λ j e. e;
    keeps_done = λ j small e. e;
    same_told = refl;
    still_proper = v.proper;
    still_locked = v.locked;
    marks_ready = λ j e. elim (Bool-cases (j == i)) [
      | inl hit ↦ subst (λ x. IsReady h (tids x) x) (sym ((==_iff j i).0 hit)) r
      | inr miss ↦ v.marks j (ground (arith, e, miss))
    ];
    still_defined = v.defined;
  }

  -- While the generator goes round, main has not joined it.
  module _ (m : Main) (g : LoadGenerator) (h : Shared) (v : Sound n tids m g h)
      (on : is_active g ≡ true) (not_yet : g ≢ ended) where
    goes : (g' : LoadGenerator) → Sound n tids m g' h
    goes g' =
        generator_moves n tids m g g' h v (λ e. v.active on) (λ e. absurd (not_yet (v.over e)))

  visit-Sound :
      (answer : Answer) (s : Process) (i : ℕ)
      → i < n
      → Sound n tids s.main (visit i) s.shared
      → SoundAt n tids (visit_step answer s i)
  unfolding visit_step
  visit-Sound answer s i small v =
      let h = s.shared in
      let r = v.active refl i small in
      let known : (h.threads i).tid_ ≡ some (tids i) = v.locked i r.0 in
      let look =
        Sound-Grows n tids s.main (visit i) h (look_for h (tids i)) v
          (reads-Grows n tids s.main (visit i) h i v _ (found_entry h i r v.defined)) in
      rw (known, visit_step) (go answer look)
    where
      go :
          (answer : Answer)
          → Sound n tids s.main (visit i) (look_for s.shared (tids i))
          → SoundAt n tids (elim answer [
            | pass ↦ record s { generator = visit (i + 1) }
            | give ↦ record s {
              shared = mark_runnable (look_for s.shared (tids i)) i;
              generator = visit (i + 1);
            }
            | leave ↦ record s { shared = look_for s.shared (tids i); generator = head }
          ])
      go pass look = goes s.main (visit i) s.shared v refl (λ e. cc) (visit (i + 1))
      go give look =
          let h' = look_for s.shared (tids i) in
          goes s.main (visit i) (mark_runnable h' i)
            (Sound-Grows n tids s.main (visit i) h' (mark_runnable h' i) look
              (marked-Grows s.main (visit i) h' i look (v.active refl i small)))
            refl (λ e. cc) (visit (i + 1))
      go leave look = goes s.main (visit i) (look_for s.shared (tids i)) look refl (λ e. cc) head

  drain-Sound :
      (s : Process) (i : ℕ)
      → i < n
      → Sound n tids s.main (drain i) s.shared
      → SoundAt n tids (drain_step s i)
  unfolding drain_step
  drain-Sound s i small v =
      let h = s.shared in
      let r = v.active refl i small in
      let known : (h.threads i).tid_ ≡ some (tids i) = v.locked i r.0 in
      rw (known, drain_step)
        (goes s.main (drain i) (mark_runnable h i)
          (Sound-Grows n tids s.main (drain i) h (mark_runnable h i) v
            (marked-Grows s.main (drain i) h i v r))
          refl (λ e. cc) (drain (i + 1)))

  by_lock :
      (b : Bool) (s t : Process)
      → (b ≡ true → SoundAt n tids s)
      → SoundAt n tids t
      → SoundAt n tids (if b then s else t)
  by_lock true s t v w = v refl
  by_lock false s t v w = w

  pub generator-Sound :
      (answer : Answer) (m : Main) (g : LoadGenerator) (h : Shared) (a b c d : Bool)
      → Sound n tids m g h
      → SoundAt n tids (
          generator_goes n answer (record {
            shared = h;
            main = m;
            generator = g;
            exit_all = a;
            exit_generator = b;
            should_exit = c;
            force_exit = d;
          }))
  unfolding generator_goes
  generator-Sound answer m unborn h a b c d v = v
  generator-Sound answer m waiting h a b c d v =
      by_lock h.generator_lock _ _
        (λ told.
          generator_moves n tids m waiting head h v (λ e. v.told told)
            (λ e. absurd (waiting_not_ended (v.over e))))
        v
    where
      waiting_not_ended : waiting ≢ ended
      waiting_not_ended e = cc
  generator-Sound answer m head h true b c d v = goes m head h v refl (λ e. cc) drain_head
  generator-Sound answer m head h false b c d v = goes m head h v refl (λ e. cc) (visit 0)
  generator-Sound answer m (visit i) h a b c d v = elim (Bool-cases (leb n i)) [
    | inl all ↦ rw all (goes m (visit i) h v refl (λ e. cc) head)
    | inr more ↦ rw more (visit-Sound answer _ i (ground (arith, more)) v)
  ]
  generator-Sound answer m drain_head h a true c d v = goes m drain_head h v refl (λ e. cc) ended
  generator-Sound answer m drain_head h a false c d v =
      goes m drain_head h v refl (λ e. cc) (drain 0)
  generator-Sound answer m (drain i) h a b c d v = elim (Bool-cases (leb n i)) [
    | inl all ↦ rw all (goes m (drain i) h v refl (λ e. cc) drain_head)
    | inr more ↦ rw more (drain-Sound _ i (ground (arith, more)) v)
  ]
  generator-Sound answer m ended h a b c d v = v
