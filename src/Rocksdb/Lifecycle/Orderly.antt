-- ===== src/Rocksdb/Lifecycle/Orderly.antt =====
-- In whatever order the threads of the experiment take their steps, and whenever signals come.
use cos_userspace.Base.{ℕ, ◌<◌, ◌≡◌, refl, true, false, some, arith, Bool-cases, inl, inr}
use cos_userspace.Thread.{finished, working, sched_cos}
use cos_userspace.Rocksdb.Lifecycle.{
  Main, register, launch, create, wait, prepare, notify, pause, end_workers, report, join,
  end_generator, join_generator, report_all, returned, exited, ended, Process, on_sigint, Step,
  main_goes, works, generates, interrupt, alarm, Reach, here, next,
}
use cos_userspace.Rocksdb.Lifecycle.Shares.{
  joined, is_over, is_active, IsReady, nothing_shared-Sound, main_moves, Sound-Grows,
}
use cos_userspace.Rocksdb.Lifecycle.Workers.{worker_goes-Grows}
use cos_userspace.Rocksdb.Lifecycle.Mains.{SoundAt, main-Sound}
use cos_userspace.Rocksdb.Lifecycle.Generators.{generator-Sound}

module _ (n : ℕ) (tids : ℕ → ℕ) where
  interrupt-Sound : (s : Process) → SoundAt n tids s → SoundAt n tids (on_sigint s)
  unfolding on_sigint
  interrupt-Sound s v = elim (Bool-cases s.force_exit) [
    | inl again ↦
        rw (again, on_sigint)
          (main_moves n tids s.main exited s.generator s.shared v (λ j small. absurd (omega arith))
            tt (λ j small. absurd (omega arith)) (λ e. ground (arith, e)))
    | inr first ↦ rw (first, on_sigint) v
  ]

  Step-Sound : (s t : Process) → SoundAt n tids s → Step n tids s t → SoundAt n tids t
  Step-Sound s t v main_goes =
      main-Sound n tids s.main s.generator s.shared s.exit_all s.exit_generator s.should_exit
        s.force_exit v
  Step-Sound s t v (works i small) =
      Sound-Grows n tids s.main s.generator s.shared _ v
        (worker_goes-Grows n tids s.main s.generator s.shared i v s.exit_all)
  Step-Sound s t v (generates answer) =
      generator-Sound n tids answer s.main s.generator s.shared s.exit_all s.exit_generator
        s.should_exit s.force_exit v
  Step-Sound s t v (interrupt up) = interrupt-Sound s v
  Step-Sound s t v (alarm up) = v

  Reach-Sound : {s : Process} → Reach n tids s → SoundAt n tids s
  Reach-Sound here = nothing_shared-Sound n tids
  Reach-Sound (next {s} {t} r step) = Step-Sound s t (Reach-Sound r) step

  -- What the order of the steps never breaks.
  pub record Orderly (s : Process) : Type 0 where
    -- No number is read before it is stored, and no missing entry of a map.
    pub defined : s.shared.undefined_read ≡ false
    -- A worker at its work has asked for the class COS under its own number.
    pub asked :
        (i : ℕ)
        → (s.shared.threads i).stage ≡ working
        → (s.shared.threads i).asked ≡ some (tids i, sched_cos)
    -- Once the generator is under way, every worker has told that it is there and has its entries.
    pub prepared_for : is_active s.generator ≡ true → (i : ℕ) → i < n → IsReady s.shared (tids i) i
    -- The last report is made, and main returns, when all other threads are done.
    pub alone :
        is_over s.main ≡ true
        → (s.generator ≡ ended) × ((i : ℕ) → i < n → (s.shared.threads i).stage ≡ finished)

  all_joined : (m : Main) → is_over m ≡ true → joined n m ≡ n
  all_joined report_all e = refl
  all_joined returned e = refl
  all_joined register e = absurd (ground (arith, e))
  all_joined launch e = absurd (ground (arith, e))
  all_joined (create i) e = absurd (ground (arith, e))
  all_joined (wait i) e = absurd (ground (arith, e))
  all_joined (prepare i) e = absurd (ground (arith, e))
  all_joined notify e = absurd (ground (arith, e))
  all_joined pause e = absurd (ground (arith, e))
  all_joined end_workers e = absurd (ground (arith, e))
  all_joined report e = absurd (ground (arith, e))
  all_joined (join i) e = absurd (ground (arith, e))
  all_joined end_generator e = absurd (ground (arith, e))
  all_joined join_generator e = absurd (ground (arith, e))
  all_joined exited e = absurd (ground (arith, e))

  -- In every state that the steps of main, of `n` workers with any numbers, of the generator and
  -- of the two signals reach, in whatever order, no thread's number was read before it was stored
  -- and no entry of the maps that is missing, a worker at its work has asked for the class COS
  -- under its own number, all workers have told that they are there and have their entries once
  -- the generator is under way, and main makes its last report and returns only when the generator
  -- and all workers are done.
  pub Reach-Orderly : (s : Process) → Reach n tids s → Orderly s
  Reach-Orderly s r =
      let v = Reach-Sound r in
      record {
        defined = v.defined;
        asked = λ i e. ground (arith, v.proper i, e);
        prepared_for = v.active;
        alone = λ e. (v.over e, λ i small. v.done i (omega (arith, all_joined s.main e, small)));
      }
