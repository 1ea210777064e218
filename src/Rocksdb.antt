-- ===== src/Rocksdb.antt =====
-- The benchmark of workload/rocksdb.cpp: what its parts share.
pub mod Keys
pub mod Database
pub mod Source
pub mod Service
pub mod Handover
pub mod Lifecycle
pub mod Stats
use cos_userspace.Base.{ℕ, Bool, true, false, ◌^◌, ◌+◌, ◌%◌, ◌-◌, ◌*◌}

abbrev pub u64_mod : ℕ
u64_mod = 2 ^ 64

-- `a - b` in `uint64_t`.
abbrev pub sub_u64 : ℕ → ℕ → ℕ
sub_u64 a b = (a + u64_mod - b) % u64_mod

-- `std::variant<Get, Range>`: the entry, or the first entry and the size.
pub data Work : Type 0 where
  get : ℕ → Work
  range : ℕ → ℕ → Work

pub record Request : Type 0 where
  pub id : ℕ
  pub request_generated : ℕ
  pub request_received : ℕ
  pub request_assigned : ℕ
  pub request_start : ℕ
  pub request_finished : ℕ
  pub work : Work

-- The options that the modelled parts read.
pub record Options : Type 0 where
  pub discard_duration : ℕ
  pub ns : Bool
  pub print_last : Bool

-- `options`
abbrev pub options : Options
options = record { discard_duration = 1; ns = true; print_last = false }

-- `NS2S`
abbrev pub ns2s : ℕ
ns2s = 1000000000
