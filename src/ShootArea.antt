-- ===== src/ShootArea.antt =====
-- The page through which the lord tells the kernel what to run where: kernel/shoot_area.h and
-- lib/shoot_area.h. The kernel answers in the `info` words. The constructor (`init_shoot`, `mmap`)
-- is input and output, and is left out. An access at or above `shoot_area_size` is outside of the
-- array.
pub mod Commit
pub mod Check
use cos_userspace.Base.{
  ℕ, zero, suc, ◌+◌, ◌%◌, ◌^◌, List, [], ◌∷◌, ◌++◌, Result, ok, err, out_of_bounds, ◌>>=◌, ◌>>◌,
  require, ltb, ◌==◌, if◌then◌else◌,
}

abbrev pub shoot_area_size : ℕ
shoot_area_size = 511

-- `_SA_RIGHT`
abbrev pub sa_right : ℕ
sa_right = 0

-- `struct cos_shoot_arg`
pub record CosShootArg : Type 0 where
  pub pid : ℕ
  pub info : ℕ

-- `struct cos_shoot_area`
pub record ShootArea : Type 0 where
  pub seq : ℕ
  pub area : ℕ → CosShootArg

-- `sa_->area[cpu] = arg`
abbrev pub write : (ℕ → CosShootArg) → ℕ → CosShootArg → ℕ → CosShootArg
write area cpu arg i = if i == cpu then arg else area i

-- The loop of `commit_shoot_message`.
unfoldable pub commit_loop : List (ℕ × CosShootArg) → ShootArea → Result ShootArea
commit_loop [] sa = ok sa
commit_loop ((cpu, arg) ∷ args) sa =
    require (ltb cpu shoot_area_size) out_of_bounds
    >> commit_loop args (record sa { area = write sa.area cpu arg })

-- The parameter `seq` is a `u_int16_t`, so the call cuts the lord's 32-bit number.
unfoldable pub commit_shoot_message : List (ℕ × CosShootArg) → ℕ → ShootArea → Result ShootArea
unfolding commit_loop
commit_shoot_message args seq sa = do
  sa' ← commit_loop args sa
  ok (record sa' { seq = seq % 2 ^ 16 })

-- The rounds of `for (int i = 0; i < cpu_nums; i ++)` that are left, from `i` on.
unfoldable pub check_loop : ℕ → ℕ → List (ℕ × ℕ) → ShootArea → Result (List (ℕ × ℕ) × ShootArea)
check_loop zero i fail sa = ok (fail, sa)
check_loop (suc n) i fail sa =
    let arg = sa.area i in
    require (ltb i shoot_area_size) out_of_bounds
    >> check_loop n (i + 1) (if arg.info == sa_right then fail else fail ++ (i, arg.pid) ∷ [])
        (record sa { area = write sa.area i (record arg { info = sa_right }) })

unfoldable pub check_shoot_state : ℕ → ShootArea → Result (List (ℕ × ℕ) × ShootArea)
unfolding check_loop
check_shoot_state cpu_nums sa = check_loop cpu_nums 0 [] sa
