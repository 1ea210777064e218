-- ===== src/ShootArea/Check.antt =====
-- What `check_shoot_state` reports.
use cos_userspace.Base.{
  ℕ, Bool, zero, suc, ◌+◌, ◌≤◌, ◌<◌, ◌≡◌, refl, List, [], ◌∷◌, ◌++◌, ok, arith, ltb, leb, ◌==◌,
  if◌then◌else◌, lt→ltb, ◌&&◌, fun_ext, false, true,
}
use mathlib.Core.List.{append-nil, append_assoc}
use cos_userspace.ShootArea.{
  CosShootArg, ShootArea, shoot_area_size, sa_right, write, check_loop, check_shoot_state,
}

-- The processors from `i` on, `n` of them, whose word is not `sa_right`, with the pid there.
unfoldable pub failed_from : ℕ → ℕ → (ℕ → CosShootArg) → List (ℕ × ℕ)
failed_from zero i area = []
failed_from (suc n) i area =
    (if (area i).info == sa_right then [] else (i, (area i).pid) ∷ []) ++ failed_from n (i + 1) area

-- The page with the words of the processors from `i` on, `n` of them, set to `sa_right`.
unfoldable pub cleared_from : ℕ → ℕ → (ℕ → CosShootArg) → ℕ → CosShootArg
cleared_from n i area j =
    if leb i j && ltb j (i + n) then record { pid = (area j).pid; info = sa_right } else area j

failed_from-write :
    (n i j : ℕ) (area : ℕ → CosShootArg) (arg : CosShootArg)
    → j < i
    → failed_from n i (write area j arg) ≡ failed_from n i area
unfolding failed_from
failed_from-write zero i j area arg h = refl
failed_from-write (suc n) i j area arg h = ground (arith, failed_from-write n (i + 1) j area arg)

cleared_from-write :
    (n i : ℕ) (area : ℕ → CosShootArg)
    → cleared_from n (i + 1) (write area i (record { pid = (area i).pid; info = sa_right }))
      ≡ cleared_from (suc n) i area
unfolding cleared_from
cleared_from-write n i area = fun_ext λ j. ground arith

cleared_from-zero : (i : ℕ) (area : ℕ → CosShootArg) → cleared_from zero i area ≡ area
unfolding cleared_from
cleared_from-zero i area = fun_ext λ j. ground arith

snoc_if {ℓ} :
    {A : Type ℓ} (b : Bool) (xs ys zs : List A)
    → (if b then xs else xs ++ ys) ++ zs ≡ xs ++ ((if b then [] else ys) ++ zs)
snoc_if true xs ys zs = refl
snoc_if false xs ys zs = append_assoc xs ys zs

check_loop-failed_from :
    (n i : ℕ) (fail : List (ℕ × ℕ)) (sa : ShootArea)
    → i + n ≤ shoot_area_size
    → check_loop n i fail sa
      ≡ ok (fail ++ failed_from n i sa.area, record sa { area = cleared_from n i sa.area })
unfolding check_loop failed_from
check_loop-failed_from zero i fail sa h = rw (cleared_from-zero, append-nil)
check_loop-failed_from (suc n) i fail sa h = rw (
  lt→ltb i shoot_area_size (omega arith),
  check_loop-failed_from n (i + 1) _ _ (omega arith),
  failed_from-write n (i + 1) i sa.area _ (omega arith),
  cleared_from-write n i sa.area,
  snoc_if,
)

-- On at most as many processors as the page has, `check_shoot_state` returns the processors with
-- another word than `sa_right`, in ascending order, with their pids, and resets the words that it
-- read.
pub check_shoot_state_lem :
    (cpu_nums : ℕ) (sa : ShootArea)
    → cpu_nums ≤ shoot_area_size
    → check_shoot_state cpu_nums sa
      ≡ ok (failed_from cpu_nums 0 sa.area, record sa { area = cleared_from cpu_nums 0 sa.area })
unfolding check_shoot_state
check_shoot_state_lem cpu_nums sa h = check_loop-failed_from cpu_nums 0 [] sa (omega arith)
