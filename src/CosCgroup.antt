-- ===== src/CosCgroup.antt =====
-- `CosCgroup` of lib/cos_cgroup.h. The system calls that it wraps are parameters: from the state `K`
-- of the kernel they make an `int` and the next state. SystemCalls has them as lib/cos.h does.
pub mod Rate
use cos_userspace.Base.{ℕ, Option, some, none, Result, ok, err, exit_failure}

-- A C `int`; `negsuc n` is -1 - n.
pub data ℤ : Type 0 where
  pos negsuc : ℕ → ℤ

-- `_COS_CGROUP_TASK_ADD` and `_COS_CGROUP_TASK_DELETE`.
abbrev pub task_add : ℕ
task_add = 1

abbrev pub task_delete : ℕ
task_delete = 2

-- The system calls.
pub record Calls (K : Type 0) : Type 0 where
  pub coscg_create : K → ℤ × K
  pub coscg_rate : ℤ → ℤ → K → ℤ × K
  pub coscg_ctl : ℤ → ℕ → ℕ → K → ℤ × K
  pub coscg_delete : ℤ → K → ℤ × K

-- The object's fields.
pub record CosCgroup : Type 0 where
  pub coscg_id : ℤ
  pub rate : ℤ

module _ {K : Type 0} (calls : Calls K) where
  -- The constructor.
  unfoldable pub create : K → Result (CosCgroup × K)
  create k =
      let (id, k') = calls.coscg_create k in
      elim id [
        | pos n ↦ ok (record { coscg_id = pos n; rate = pos 0 }, k')
        | negsuc n ↦ err exit_failure
      ]

  -- After a call that succeeded the function ends without a value.
  unfoldable pub adjust_rate : ℤ → CosCgroup → K → Option ℤ × (CosCgroup × K)
  adjust_rate rate g k =
      let (res, k') = calls.coscg_rate g.coscg_id rate k in
      elim res [
        | pos n ↦ (none, (record g { rate = rate }, k'))
        | negsuc n ↦ (some (negsuc n), (g, k'))
      ]

  -- `add_thread` and `erase_thread` differ in the mode only.
  unfoldable pub control : ℕ → ℕ → CosCgroup → K → ℤ × (CosCgroup × K)
  control mode pid g k =
      let (res, k') = calls.coscg_ctl g.coscg_id pid mode k in
      elim res [ pos n ↦ (pos 0, (g, k')) | negsuc n ↦ (negsuc n, (g, k')) ]

  unfoldable pub add_thread : ℕ → CosCgroup → K → ℤ × (CosCgroup × K)
  add_thread = control task_add

  unfoldable pub erase_thread : ℕ → CosCgroup → K → ℤ × (CosCgroup × K)
  erase_thread = control task_delete

  -- The destructor.
  unfoldable pub destroy : CosCgroup → K → K
  destroy g k = (calls.coscg_delete g.coscg_id k).1
