-- ===== src/Shinjuku/Schedule/Plan.antt =====
-- What `schedule` gives away and to whom, without its loop, and what the saved states put back.
use cos_userspace.Base.{
  ℕ, suc, ◌≡◌, ◌≢◌, refl, Bool, true, false, none, some, List, [], ◌∷◌, ◌++◌, ok, err, arith, ◌==◌,
  if◌then◌else◌, inl, inr, ◌⊎◌, All, length, map, count, ◌≤◌,
}
use cos_userspace.RunQueue.{dequeue, peek}
use cos_userspace.ShootArea.{CosShootArg}
use cos_userspace.Fifo.Schedule.Plan.{plan}
use cos_userspace.Epistle.{Table}
use cos_userspace.Shinjuku.{cos, CpuState, Shinjuku, write_cpu}
use cos_userspace.Shinjuku.Invariant.{seat}
use cos_userspace.Shinjuku.Schedule.{Cpus, is_idle, next_cpu, restore_all}

-- The processors in the order in which they are given away.
abbrev pub all_cpus : Cpus → List ℕ
all_cpus q = q.idle_cpu ++ (q.cfs_cpu ++ q.cos_cpu)

pub next_cpu-all_cpus :
    (q : Cpus)
    → ((next_cpu q ≡ none) × (all_cpus q ≡ []))
      ⊎ ((c : ℕ) × (q' : Cpus) × (next_cpu q ≡ some (c, q')) × (all_cpus q ≡ c ∷ all_cpus q'))
unfolding next_cpu
next_cpu-all_cpus q = go q.idle_cpu q.cfs_cpu q.cos_cpu
  where
    go :
        (idle_cpu cfs_cpu cos_cpu : List ℕ)
        → (let p : Cpus = record { idle_cpu = idle_cpu; cos_cpu = cos_cpu; cfs_cpu = cfs_cpu } in
            ((next_cpu p ≡ none) × (all_cpus p ≡ []))
            ⊎ ((c : ℕ) × (q' : Cpus) × (next_cpu p ≡ some (c, q'))
                × (all_cpus p ≡ c ∷ all_cpus q')))
    go (c ∷ is) fs cs = inr (c, record { idle_cpu = is; cfs_cpu = fs; cos_cpu = cs }, refl, refl)
    go [] (c ∷ fs) cs = inr (c, record { idle_cpu = []; cfs_cpu = fs; cos_cpu = cs }, refl, refl)
    go [] [] (c ∷ cs) = inr (c, record { idle_cpu = []; cfs_cpu = []; cos_cpu = cs }, refl, refl)
    go [] [] [] = inl (refl, refl)

-- Is the task marked as idle? A search that does not end says no.
unfoldable pub resting : Table → ℕ → Bool
resting epistle t = elim (is_idle epistle t) [ ok r ↦ r | err e ↦ false ]

-- The tasks of the queue that are not marked as idle.
unfoldable pub awake : Table → List ℕ → List ℕ
awake epistle [] = []
awake epistle (t ∷ rq) = let rest = awake epistle rq in if resting epistle t then rest else t ∷ rest

-- The processors after the saved states are put back in order.
unfoldable pub restored : List (ℕ × CpuState) → (ℕ → CpuState) → ℕ → CpuState
restored [] cpus = cpus
restored ((c, s) ∷ olds) cpus = restored olds (write_cpu cpus c s)

pub restore_all-restored :
    (olds : List (ℕ × CpuState)) (f : Shinjuku)
    → restore_all olds f ≡ record f { cpu_states = restored olds f.cpu_states }
unfolding restore_all restored
restore_all-restored [] f = refl
restore_all-restored ((c, s) ∷ olds) f = restore_all-restored olds _

pub restored-snoc :
    (olds : List (ℕ × CpuState)) (cpus : ℕ → CpuState) (c i : ℕ) (s : CpuState)
    → restored (olds ++ (c, s) ∷ []) cpus i ≡ (if i == c then s else restored olds cpus i)
unfolding restored
restored-snoc [] cpus c i s = refl
restored-snoc ((d, r) ∷ olds) cpus c i s = restored-snoc olds _ c i s

pub restored-local :
    (olds : List (ℕ × CpuState)) (cpus cpus' : ℕ → CpuState) (i : ℕ)
    → cpus i ≡ cpus' i
    → restored olds cpus i ≡ restored olds cpus' i
unfolding restored
restored-local [] cpus cpus' i e = e
restored-local ((c, s) ∷ olds) cpus cpus' i e = restored-local olds _ _ i (ground arith)

pub awake-rests :
    (epistle : Table) (rq : List ℕ)
    → peek rq ≢ 0
    → resting epistle (peek rq) ≡ true
    → awake epistle rq ≡ awake epistle (dequeue rq)
unfolding awake peek dequeue
awake-rests epistle [] n e = absurd (n refl)
awake-rests epistle (t ∷ rq) n e = ground (arith, e)

pub awake-up :
    (epistle : Table) (rq : List ℕ)
    → peek rq ≢ 0
    → resting epistle (peek rq) ≡ false
    → awake epistle rq ≡ peek rq ∷ awake epistle (dequeue rq)
unfolding awake peek dequeue
awake-up epistle [] n e = absurd (n refl)
awake-up epistle (t ∷ rq) n e = ground (arith, e)

pub length-dequeue : (rq : List ℕ) → peek rq ≢ 0 → length rq ≡ suc (length (dequeue rq))
unfolding peek dequeue
length-dequeue [] n = absurd (n refl)
length-dequeue (t ∷ rq) n = refl

-- A task that runs on a processor.
abbrev pub Runs : Shinjuku → ℕ → ℕ → Type 0
Runs f c t = seat (f.alive_tasks t) ≡ some c

abbrev pub AllRun : Shinjuku → List (ℕ × CosShootArg) → Type 0
AllRun f = All (λ e. Runs f e.0 e.1.pid)

abbrev pub numbers : List (ℕ × CosShootArg) → List ℕ
numbers = map (λ e. e.1.pid)

-- The processors of the assignments.
abbrev pub cpus_of : List (ℕ × CosShootArg) → List ℕ
cpus_of = map (λ e. e.0)

pub plan-distinct : (cs rq : List ℕ) (i : ℕ) → count i (cpus_of (plan cs rq)) ≤ count i cs
unfolding plan count
plan-distinct [] rq i = omega arith
plan-distinct (c ∷ cs) [] i = omega arith
plan-distinct (c ∷ cs) (t ∷ rq) i = omega (arith, plan-distinct cs rq i)

-- The state of a processor that was given to a task.
abbrev pub given_to : ℕ → CpuState
given_to t = record { type = cos; pid = t }
