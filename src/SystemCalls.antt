-- ===== src/SystemCalls.antt =====
-- The wrappers of lib/cos.h: each is one system call, by its number. `syscall` is a parameter, from
-- the state `K` of the kernel an `int` and the next state.
use cos_userspace.Base.{ℕ, List, [], ◌∷◌}
use cos_userspace.CosCgroup.{ℤ, pos, Calls}
use cos_userspace.Fifo.Schedule.{CpuSet}

-- The call's number and its arguments.
pub data Argument : Type 0 where
  int : ℤ → Argument
  size : ℕ → Argument
  mask_of : CpuSet → Argument

abbrev pub Syscall : Type 0 → Type 0
Syscall K = ℕ → List Argument → K → ℤ × K

abbrev pub syscall_set_lord : ℕ
syscall_set_lord = 452

abbrev pub syscall_create_mq : ℕ
syscall_create_mq = 453

abbrev pub syscall_init_shoot : ℕ
syscall_init_shoot = 454

abbrev pub syscall_shoot_task : ℕ
syscall_shoot_task = 455

abbrev pub syscall_coscg_create : ℕ
syscall_coscg_create = 456

abbrev pub syscall_coscg_ctl : ℕ
syscall_coscg_ctl = 457

abbrev pub syscall_coscg_rate : ℕ
syscall_coscg_rate = 458

abbrev pub syscall_coscg_delete : ℕ
syscall_coscg_delete = 459

module _ {K : Type 0} (syscall : Syscall K) where
  unfoldable pub set_lord : ℤ → K → ℤ × K
  set_lord cpu_id = syscall syscall_set_lord (int cpu_id ∷ [])

  unfoldable pub create_mq : K → ℤ × K
  create_mq = syscall syscall_create_mq []

  unfoldable pub init_shoot : K → ℤ × K
  init_shoot = syscall syscall_init_shoot []

  unfoldable pub shoot_task : ℕ → CpuSet → K → ℤ × K
  shoot_task cpusetsize mask = syscall syscall_shoot_task (size cpusetsize ∷ mask_of mask ∷ [])

  unfoldable pub coscg_create : K → ℤ × K
  coscg_create = syscall syscall_coscg_create []

  unfoldable pub coscg_ctl : ℤ → ℕ → ℕ → K → ℤ × K
  coscg_ctl coscg_id pid mode =
      syscall syscall_coscg_ctl (int coscg_id ∷ int (pos pid) ∷ int (pos mode) ∷ [])

  unfoldable pub coscg_rate : ℤ → ℤ → K → ℤ × K
  coscg_rate coscg_id rate = syscall syscall_coscg_rate (int coscg_id ∷ int rate ∷ [])

  unfoldable pub coscg_delete : ℤ → K → ℤ × K
  coscg_delete coscg_id = syscall syscall_coscg_delete (int coscg_id ∷ [])

  -- What `CosCgroup` calls.
  abbrev pub cos_calls : Calls K
  cos_calls = record {
    coscg_create = coscg_create;
    coscg_rate = coscg_rate;
    coscg_ctl = coscg_ctl;
    coscg_delete = coscg_delete;
  }
