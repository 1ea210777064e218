-- ===== src/MessageQueue.antt =====
-- The ring that the kernel fills and the lord drains: kernel/message_queue.h and
-- lib/message_queue.h. `head` and `tail` are `u_int32_t` counters that run freely and wrap at
-- 2 ^ 32; a slot is a counter modulo `mq_data_size`. The constructor (`create_mq`, `mmap`) is
-- input and output, and is left out. The memory fences order accesses of one thread, and have no
-- counterpart in a model that makes one access after another.
pub mod Pending
pub mod Wrap
use cos_userspace.Base.{ℕ, ◌+◌, ◌-◌, ◌%◌, ◌^◌, Bool, ◌==◌, if◌then◌else◌}

-- `struct cos_msg`; `pid` and `type` are 16 bits wide, `seq` 32.
pub record CosMsg : Type 0 where
  pub pid : ℕ
  pub type : ℕ
  pub seq : ℕ

abbrev pub mq_data_size : ℕ
mq_data_size = 511

abbrev pub u32_mod : ℕ
u32_mod = 2 ^ 32

-- `struct cos_message_queue`. The array is read at slots below `mq_data_size` only.
pub record MessageQueue : Type 0 where
  pub head : ℕ
  pub tail : ℕ
  pub slots : ℕ → CosMsg

abbrev pub slot : ℕ → ℕ
slot counter = counter % mq_data_size

-- `return {}`
abbrev pub no_msg : CosMsg
no_msg = record { pid = 0; type = 0; seq = 0 }

unfoldable pub empty : MessageQueue → Bool
empty q = q.tail == q.head

unfoldable pub consume_msg : MessageQueue → CosMsg × MessageQueue
unfolding empty
consume_msg q =
    if empty q
    then (no_msg, q)
    else (q.slots (slot q.tail), record q { tail = (q.tail + 1) % u32_mod })
