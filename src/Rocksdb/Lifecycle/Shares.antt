-- ===== src/Rocksdb/Lifecycle/Shares.antt =====
-- What holds of main, the generator and what the threads share, and how a step of one of them keeps
-- it.
use cos_userspace.Base.{ℕ, ◌<◌, ◌≡◌, refl, sym, ◌∙◌, Bool, true, false, some, arith}
use cos_userspace.Thread.{finished, Proper}
use cos_userspace.Rocksdb.Lifecycle.{
  Main, register, launch, create, wait, prepare, notify, pause, end_workers, report, join,
  end_generator, join_generator, report_all, returned, exited, LoadGenerator, unborn, waiting,
  ended, Shared, nothing_shared,
}

-- How many workers main has set up, and how many it has joined.
abbrev pub prepared : ℕ → Main → ℕ
prepared n register = 0
prepared n launch = 0
prepared n (create i) = 0
prepared n (wait i) = i
prepared n (prepare i) = i
prepared n exited = 0
prepared n _ = n

abbrev pub joined : ℕ → Main → ℕ
joined n (join i) = i
joined n end_generator = n
joined n join_generator = n
joined n report_all = n
joined n returned = n
joined n _ = 0

-- Has main joined the generator?
abbrev pub is_over : Main → Bool
is_over report_all = true
is_over returned = true
is_over _ = false

abbrev pub is_active : LoadGenerator → Bool
is_active unborn = false
is_active waiting = false
is_active _ = true

-- Worker `i`, with the number `tid`, is there, and has its entries.
abbrev pub IsReady : Shared → ℕ → ℕ → Type 0
IsReady h tid i = (h.worker_lock i ≡ true) × (h.worker_works tid ≡ true) × (h.requests tid ≡ true)

-- Main sets a worker up after the wait for it.
abbrev pub HasWaited : Main → Shared → Type 0
HasWaited (prepare i) h = h.worker_lock i ≡ true
HasWaited _ h = Unit

module _ (n : ℕ) (tids : ℕ → ℕ) where
  pub record Sound (m : Main) (g : LoadGenerator) (h : Shared) : Type 0 where
    pub proper : (i : ℕ) → Proper (tids i) (h.threads i)
    pub locked : (i : ℕ) → h.worker_lock i ≡ true → (h.threads i).tid_ ≡ some (tids i)
    pub ready : (i : ℕ) → i < prepared n m → IsReady h (tids i) i
    pub waited : HasWaited m h
    pub told : h.generator_lock ≡ true → (i : ℕ) → i < n → IsReady h (tids i) i
    pub active : is_active g ≡ true → (i : ℕ) → i < n → IsReady h (tids i) i
    pub marks : (i : ℕ) → h.marked i ≡ true → IsReady h (tids i) i
    pub defined : h.undefined_read ≡ false
    pub done : (i : ℕ) → i < joined n m → (h.threads i).stage ≡ finished
    pub over : is_over m ≡ true → g ≡ ended

  pub nothing_shared-Sound : Sound register unborn nothing_shared
  nothing_shared-Sound = record {
    proper = λ i. tt;
    locked = λ i h. ground (arith, h);
    ready = λ i h. absurd (omega arith);
    waited = tt;
    told = λ h. ground (arith, h);
    active = λ h. ground (arith, h);
    marks = λ i h. ground (arith, h);
    defined = refl;
    done = λ i h. absurd (omega arith);
    over = λ h. ground (arith, h);
  }

  -- A step of main that leaves what is shared.
  pub main_moves :
      (m m' : Main) (g : LoadGenerator) (h : Shared)
      → Sound m g h
      → ((i : ℕ) → i < prepared n m' → IsReady h (tids i) i)
      → HasWaited m' h
      → ((i : ℕ) → i < joined n m' → (h.threads i).stage ≡ finished)
      → (is_over m' ≡ true → g ≡ ended)
      → Sound m' g h
  main_moves m m' g h s r w d o = record {
    proper = s.proper;
    locked = s.locked;
    ready = r;
    waited = w;
    told = s.told;
    active = s.active;
    marks = s.marks;
    defined = s.defined;
    done = d;
    over = o;
  }

  -- A step of the generator that leaves what is shared.
  pub generator_moves :
      (m : Main) (g g' : LoadGenerator) (h : Shared)
      → Sound m g h
      → (is_active g' ≡ true → (i : ℕ) → i < n → IsReady h (tids i) i)
      → (is_over m ≡ true → g' ≡ ended)
      → Sound m g' h
  generator_moves m g g' h s a o = record {
    proper = s.proper;
    locked = s.locked;
    ready = s.ready;
    waited = s.waited;
    told = s.told;
    active = a;
    marks = s.marks;
    defined = s.defined;
    done = s.done;
    over = o;
  }

  -- What a step may do to what is shared.
  pub record Grows (m : Main) (h h' : Shared) : Type 0 where
    pub keeps_lock : (i : ℕ) → h.worker_lock i ≡ true → h'.worker_lock i ≡ true
    pub keeps_works : (k : ℕ) → h.worker_works k ≡ true → h'.worker_works k ≡ true
    pub keeps_requests : (k : ℕ) → h.requests k ≡ true → h'.requests k ≡ true
    pub keeps_done :
        (i : ℕ) → i < joined n m → (h.threads i).stage ≡ finished → (h'.threads i).stage ≡ finished
    pub same_told : h'.generator_lock ≡ h.generator_lock
    pub still_proper : (i : ℕ) → Proper (tids i) (h'.threads i)
    pub still_locked : (i : ℕ) → h'.worker_lock i ≡ true → (h'.threads i).tid_ ≡ some (tids i)
    pub marks_ready : (i : ℕ) → h'.marked i ≡ true → IsReady h (tids i) i
    pub still_defined : h'.undefined_read ≡ false

  IsReady-Grows :
      (m : Main) (h h' : Shared) (tid i : ℕ) → Grows m h h' → IsReady h tid i → IsReady h' tid i
  IsReady-Grows m h h' tid i w (a, b, c) =
      (w.keeps_lock i a, w.keeps_works tid b, w.keeps_requests tid c)

  HasWaited-Grows : (m' m : Main) (h h' : Shared) → Grows m' h h' → HasWaited m h → HasWaited m h'
  HasWaited-Grows m' (prepare i) h h' w e = w.keeps_lock i e
  HasWaited-Grows m' register h h' w e = tt
  HasWaited-Grows m' launch h h' w e = tt
  HasWaited-Grows m' (create i) h h' w e = tt
  HasWaited-Grows m' (wait i) h h' w e = tt
  HasWaited-Grows m' notify h h' w e = tt
  HasWaited-Grows m' pause h h' w e = tt
  HasWaited-Grows m' end_workers h h' w e = tt
  HasWaited-Grows m' report h h' w e = tt
  HasWaited-Grows m' (join i) h h' w e = tt
  HasWaited-Grows m' end_generator h h' w e = tt
  HasWaited-Grows m' join_generator h h' w e = tt
  HasWaited-Grows m' report_all h h' w e = tt
  HasWaited-Grows m' returned h h' w e = tt
  HasWaited-Grows m' exited h h' w e = tt

  pub Sound-Grows :
      (m : Main) (g : LoadGenerator) (h h' : Shared) → Sound m g h → Grows m h h' → Sound m g h'
  Sound-Grows m g h h' s w =
      let more = λ (i : ℕ). IsReady-Grows m h h' (tids i) i w in
      record {
        proper = w.still_proper;
        locked = w.still_locked;
        ready = λ i small. more i (s.ready i small);
        waited = HasWaited-Grows m m h h' w s.waited;
        told = λ e i small. more i (s.told (sym w.same_told ∙ e) i small);
        active = λ e i small. more i (s.active e i small);
        marks = λ i e. more i (w.marks_ready i e);
        defined = w.still_defined;
        done = λ i small. w.keeps_done i small (s.done i small);
        over = s.over;
      }
