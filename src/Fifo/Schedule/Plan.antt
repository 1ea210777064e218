-- ===== src/Fifo/Schedule/Plan.antt =====
-- What `schedule` assigns, with no loop over a changing state: the free processors in ascending
-- order meet the run queue from its front.
use cos_userspace.Base.{
  ℕ, zero, suc, ◌+◌, ◌≡◌, ◌<◌, ◌≤◌, refl, List, [], ◌∷◌, arith, ◌==◌, if◌then◌else◌, ◌||◌, All,
}
use cos_userspace.ShootArea.{CosShootArg}
use cos_userspace.Fifo.{CpuState, is_cos, write_cpu}
use cos_userspace.Fifo.Schedule.{CpuSet, cpu_set}

-- Of the `n` processors from `cpu` on, those that are neither the lord's nor marked as COS.
unfoldable pub free_cpus : ℕ → ℕ → ℕ → (ℕ → CpuState) → List ℕ
free_cpus lord_cpu zero cpu cpus = []
free_cpus lord_cpu (suc n) cpu cpus =
    let rest = free_cpus lord_cpu n (cpu + 1) cpus in
    if cpu == lord_cpu || is_cos (cpus cpu) then rest else cpu ∷ rest

unfoldable pub plan : List ℕ → List ℕ → List (ℕ × CosShootArg)
plan [] rq = []
plan (c ∷ cs) [] = []
plan (c ∷ cs) (t ∷ rq) = (c, record { pid = t; info = 0 }) ∷ plan cs rq

-- The part of the queue for which there is no processor.
unfoldable pub unplaced : List ℕ → List ℕ → List ℕ
unplaced [] rq = rq
unplaced (c ∷ cs) [] = []
unplaced (c ∷ cs) (t ∷ rq) = unplaced cs rq

unfoldable pub marked : List (ℕ × CosShootArg) → CpuSet → CpuSet
marked [] mask = mask
marked ((c, arg) ∷ args) mask = marked args (cpu_set mask c)

-- The processors of the list ascend, from `lo` on.
abbrev pub Ascends : ℕ → List (ℕ × ℕ) → Type 0
Ascends lo [] = Unit
Ascends lo ((c, pid) ∷ r) = (lo ≤ c) × Ascends (suc c) r

-- The processors and numbers of an assignment.
unfoldable pub pairs : List (ℕ × CosShootArg) → List (ℕ × ℕ)
pairs [] = []
pairs ((c, arg) ∷ args) = (c, arg.pid) ∷ pairs args

pub free_cpus-write :
    (lord_cpu n cpu c : ℕ) (cpus : ℕ → CpuState) (s : CpuState)
    → c < cpu
    → free_cpus lord_cpu n cpu (write_cpu cpus c s) ≡ free_cpus lord_cpu n cpu cpus
unfolding free_cpus
free_cpus-write lord_cpu zero cpu c cpus s h = refl
free_cpus-write lord_cpu (suc n) cpu c cpus s h =
    ground (arith, free_cpus-write lord_cpu n (cpu + 1) c cpus s)

-- Numbers that ascend from `lo` on and stay below `hi`.
abbrev pub Between : ℕ → ℕ → List ℕ → Type 0
Between lo hi [] = Unit
Between lo hi (c ∷ cs) = (lo ≤ c) × (c < hi) × Between (suc c) hi cs

Between-mono : (lo lo' hi : ℕ) (cs : List ℕ) → lo' ≤ lo → Between lo hi cs → Between lo' hi cs
Between-mono lo lo' hi [] h b = tt
Between-mono lo lo' hi (c ∷ cs) h b = (omega arith, b.1, b.2)

pub free_cpus-Between :
    (lord_cpu n cpu hi : ℕ) (cpus : ℕ → CpuState)
    → cpu + n ≤ hi
    → Between cpu hi (free_cpus lord_cpu n cpu cpus)
unfolding free_cpus
free_cpus-Between lord_cpu zero cpu hi cpus h = tt
free_cpus-Between lord_cpu (suc n) cpu hi cpus h =
    let rest = free_cpus-Between lord_cpu n (cpu + 1) hi cpus (omega arith) in
    ground (
      arith,
      rest,
      Between-mono (cpu + 1) cpu hi (free_cpus lord_cpu n (cpu + 1) cpus),
      Between-mono (cpu + 1) (suc cpu) hi (free_cpus lord_cpu n (cpu + 1) cpus),
    )

pub plan-Ascends : (lo hi : ℕ) (cs rq : List ℕ) → Between lo hi cs → Ascends lo (pairs (plan cs rq))
unfolding plan pairs
plan-Ascends lo hi [] rq b = tt
plan-Ascends lo hi (c ∷ cs) [] b = tt
plan-Ascends lo hi (c ∷ cs) (t ∷ rq) b = (b.0, plan-Ascends (suc c) hi cs rq b.2)

pub plan-below :
    (lo hi bound : ℕ) (cs rq : List ℕ)
    → hi ≤ bound
    → Between lo hi cs
    → All (λ e. e.0 < bound) (plan cs rq)
unfolding plan
plan-below lo hi bound [] rq h b = tt
plan-below lo hi bound (c ∷ cs) [] h b = tt
plan-below lo hi bound (c ∷ cs) (t ∷ rq) h b =
    (omega arith, plan-below (suc c) hi bound cs rq h b.2)

pub plan-nil : (cs : List ℕ) → plan cs [] ≡ []
unfolding plan
plan-nil [] = refl
plan-nil (c ∷ cs) = refl

pub unplaced-nil : (cs : List ℕ) → unplaced cs [] ≡ []
unfolding unplaced
unplaced-nil [] = refl
unplaced-nil (c ∷ cs) = refl

pub Ascends-mono : (lo lo' : ℕ) (ps : List (ℕ × ℕ)) → lo' ≤ lo → Ascends lo ps → Ascends lo' ps
Ascends-mono lo lo' [] h a = tt
Ascends-mono lo lo' ((c, t) ∷ ps) h a = (omega arith, a.1)
