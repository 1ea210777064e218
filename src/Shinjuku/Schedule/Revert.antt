-- ===== src/Shinjuku/Schedule/Revert.antt =====
-- The part of `schedule` that puts tasks back into the queue.
use cos_userspace.Base.{
  ℕ, suc, ◌≡◌, ◌≢◌, ◌<◌, ◌≤◌, refl, sym, ap, ◌∙◌, List, [], ◌∷◌, ◌++◌, arith, All, Returns, count,
}
use mathlib.Core.List.{append-nil, append_assoc}
use cos_userspace.RunQueue.{enqueue}
use cos_userspace.TaskMap.{Slot, absent, null_entry, live}
use cos_userspace.ShootArea.{CosShootArg, shoot_area_size}
use cos_userspace.ShootArea.Commit.{InArea}
use cos_userspace.Fifo.Schedule.Plan.{plan, Ascends, pairs}
use cos_userspace.Fifo.Schedule.Revert
use cos_userspace.Shinjuku.{CpuState, ShinjukuTask, Shinjuku, put_back}
use cos_userspace.Shinjuku.Invariant.{Inv, put_back-Inv}
use cos_userspace.Shinjuku.Schedule.{requeue, requeue_all}
use cos_userspace.Shinjuku.Schedule.Plan.{Runs, numbers, cpus_of}

-- No processor stands twice.
abbrev pub Apart : List (ℕ × ℕ) → Type 0
Apart [] = Unit
Apart ((c, t) ∷ ps) = All (λ e. e.0 ≢ c) ps × Apart ps

abbrev pub AllRuns : Shinjuku → List (ℕ × ℕ) → Type 0
AllRuns f = All (λ e. Runs f e.0 e.1)

pub Ascends-Apart : (lo : ℕ) (ps : List (ℕ × ℕ)) → Ascends lo ps → Apart ps
Ascends-Apart lo [] h = tt
Ascends-Apart lo ((c, t) ∷ ps) h =
    (above (suc c) ps (omega arith) h.1, Ascends-Apart (suc c) ps h.1)
  where
    above : (lo' : ℕ) (ps : List (ℕ × ℕ)) → c < lo' → Ascends lo' ps → All (λ e. e.0 ≢ c) ps
    above lo' [] small a = tt
    above lo' ((d, u) ∷ ps) small a = (λ e. omega arith, above (suc d) ps (omega arith) a.1)

not_there :
    (c : ℕ) (args : List (ℕ × CosShootArg))
    → count c (cpus_of args) ≡ 0
    → All (λ e. e.0 ≢ c) (pairs args)
unfolding count pairs
not_there c [] h = tt
not_there c ((d, arg) ∷ args) h = (λ e. ground arith, not_there c args (ground arith))

pub distinct-Apart :
    (args : List (ℕ × CosShootArg)) → ((i : ℕ) → count i (cpus_of args) ≤ 1) → Apart (pairs args)
unfolding count pairs
distinct-Apart [] d = tt
distinct-Apart ((c, arg) ∷ args) d =
    (not_there c args (ground (arith, d c)), distinct-Apart args (λ i. ground (arith, d i)))

pub not_given :
    (c : ℕ) (args : List (ℕ × CosShootArg))
    → All (λ e. e.0 ≢ c) (pairs args)
    → count c (cpus_of args) ≡ 0
unfolding count pairs
not_given c [] h = refl
not_given c ((d, arg) ∷ args) h = ground (arith, h.0, not_given c args h.1)

pub All-pairs {κ} :
    (Q : ℕ → ℕ → Type κ) (args : List (ℕ × CosShootArg))
    → All (λ e. Q e.0 e.1.pid) args
    → All (λ e. Q e.0 e.1) (pairs args)
unfolding pairs
All-pairs Q [] h = tt
All-pairs Q (e ∷ args) h = (h.0, All-pairs Q args h.1)

pub numbers-pairs : (args : List (ℕ × CosShootArg)) → Revert.numbers (pairs args) ≡ numbers args
unfolding pairs
numbers-pairs [] = refl
numbers-pairs ((c, arg) ∷ args) = ap (◌∷◌ arg.pid) (numbers-pairs args)

module _ (cpu_num : ℕ) where
  -- The tasks of `ps` no longer run and stand at the end of the queue, in order; other tasks run
  -- where they ran.
  pub record Reverted (f : Shinjuku) (ps : List (ℕ × ℕ)) (f' : Shinjuku) : Type 0 where
    pub good : Inv cpu_num f'
    pub queue : f'.shinjuku_rq ≡ f.shinjuku_rq ++ Revert.numbers ps
    pub off : (t c : ℕ) → Runs f' c t → Runs f c t × All (λ e. e.1 ≢ t) ps
    pub on : (t c : ℕ) → Runs f c t → All (λ e. e.1 ≢ t) ps → Runs f' c t
    pub same_page : f'.epistle ≡ f.epistle

  pub Reverted-nothing : (f : Shinjuku) → Inv cpu_num f → Reverted f [] f
  Reverted-nothing f v = record {
    good = v;
    queue = sym (append-nil f.shinjuku_rq);
    off = λ t c r. (r, tt);
    on = λ t c r away. r;
    same_page = refl;
  }

  -- The states of the processors do not matter.
  pub Reverted-marks :
      (f f' : Shinjuku) (ps : List (ℕ × ℕ)) (cpus : ℕ → CpuState)
      → Reverted f ps f'
      → Reverted f ps (record f' { cpu_states = cpus })
  Reverted-marks f f' ps cpus r = record {
    good = record { once = r.good.once; filed = r.good.filed; seated = r.good.seated };
    queue = r.queue;
    off = r.off;
    on = r.on;
    same_page = r.same_page;
  }

  pub requeue-Reverted :
      (f : Shinjuku) (c t : ℕ)
      → Inv cpu_num f
      → Runs f c t
      → Returns (requeue f t) (λ f'. Reverted f ((c, t) ∷ []) f' × (f'.cpu_states ≡ f.cpu_states))
  unfolding requeue put_back enqueue
  requeue-Reverted f c t v r = go (f.alive_tasks t) refl
    where
      go :
          (s : Slot ShinjukuTask)
          → f.alive_tasks t ≡ s
          → Returns
              (requeue f t)
              (λ f'. Reverted f ((c, t) ∷ []) f' × (f'.cpu_states ≡ f.cpu_states))
      go absent e = absurd (ground (arith, r, e))
      go null_entry e = absurd (ground (arith, r, e))
      go (live task) e = (
        put_back f t task,
        rw e refl,
        (
          record {
            good =
                put_back-Inv cpu_num f t task v (ground (arith, r, e))
                  (ground (arith, v.filed t, e));
            queue = refl;
            off = λ u d h. (ground arith, ((λ k. ground (arith, k, h)), tt));
            on = λ u d h away. ground (arith, away.0);
            same_page = refl;
          },
          refl,
        ),
      )

  pub Reverted-then :
      (f g f' : Shinjuku) (c t : ℕ) (ps : List (ℕ × ℕ))
      → Reverted f ((c, t) ∷ []) g
      → Reverted g ps f'
      → Reverted f ((c, t) ∷ ps) f'
  Reverted-then f g f' c t ps a b = record {
    good = b.good;
    queue = b.queue ∙ ap (λ q. q ++ Revert.numbers ps) a.queue ∙ append_assoc f.shinjuku_rq _ _;
    off = λ u d h.
        let (r, away) = b.off u d h in let (r', away') = a.off u d r in (r', (away'.0, away));
    on = λ u d h away. b.on u d (a.on u d h (away.0, tt)) away.1;
    same_page = b.same_page ∙ a.same_page;
  }

  -- Who runs on another processor still does once one task is taken back.
  pub others_run :
      (f g : Shinjuku) (c t : ℕ) (ps : List (ℕ × ℕ))
      → Reverted f ((c, t) ∷ []) g
      → Runs f c t
      → All (λ e. e.0 ≢ c) ps
      → AllRuns f ps
      → AllRuns g ps
  others_run f g c t [] a r away runs = tt
  others_run f g c t ((d, u) ∷ ps) a r away runs = (
    a.on u d runs.0 ((λ e. ground (arith, r, runs.0, away.0)), tt),
    others_run f g c t ps a r away.1 runs.1,
  )

  pub requeue_all-Reverted :
      (args : List (ℕ × CosShootArg)) (f : Shinjuku)
      → Inv cpu_num f
      → AllRuns f (pairs args)
      → Apart (pairs args)
      → Returns
          (requeue_all args f)
          (λ f'. Reverted f (pairs args) f' × (f'.cpu_states ≡ f.cpu_states))
  unfolding requeue_all pairs
  requeue_all-Reverted [] f v r d = (f, refl, (Reverted-nothing f v, refl))
  requeue_all-Reverted ((c, arg) ∷ args) f v r d =
      let (f', run, (a, cpus)) = requeue-Reverted f c arg.pid v r.0 in
      let (f'', run', (b, cpus')) =
        requeue_all-Reverted args f' a.good (others_run f f' c arg.pid (pairs args) a r.0 d.0 r.1)
          d.1 in
      (f'', rw run run', (Reverted-then f f' f'' c arg.pid (pairs args) a b, cpus' ∙ cpus))

pub plan-InArea :
    (cs rq : List ℕ) → ((i : ℕ) → 0 < count i cs → i < shoot_area_size) → All InArea (plan cs rq)
unfolding plan count
plan-InArea [] rq h = tt
plan-InArea (c ∷ cs) [] h = tt
plan-InArea (c ∷ cs) (t ∷ rq) h =
    (h c (ground arith), plan-InArea cs rq (λ i p. h i (ground arith)))
