-- ===== src/MessageQueue/Pending.antt =====
-- The ring as a queue: what is pending, oldest first, beside what `consume_msg` takes.
use cos_userspace.Base.{
  ℕ, zero, suc, ◌+◌, ◌-◌, ◌%◌, ◌<◌, ◌≡◌, refl, ap, true, false, List, [], ◌∷◌, arith, length,
}
use cos_userspace.MessageQueue.{CosMsg, MessageQueue, u32_mod, slot, no_msg, empty, consume_msg}

-- Both counters are 32-bit values.
pub record IsValid (q : MessageQueue) : Type 0 where
  pub head_fits : q.head < u32_mod
  pub tail_fits : q.tail < u32_mod

-- How many messages the counters announce.
unfoldable pub backlog : MessageQueue → ℕ
backlog q = (q.head + u32_mod - q.tail) % u32_mod

-- The `n` messages from the counter value `t` on.
unfoldable pub messages_from : (ℕ → CosMsg) → ℕ → ℕ → List CosMsg
messages_from slots t zero = []
messages_from slots t (suc n) = slots (slot t) ∷ messages_from slots ((t + 1) % u32_mod) n

unfoldable pub pending : MessageQueue → List CosMsg
unfolding messages_from
pending q = messages_from q.slots q.tail (backlog q)

pub length-messages_from : (slots : ℕ → CosMsg) (t n : ℕ) → length (messages_from slots t n) ≡ n
unfolding messages_from
length-messages_from slots t zero = refl
length-messages_from slots t (suc n) = ap suc (length-messages_from slots ((t + 1) % u32_mod) n)

pub length-pending : (q : MessageQueue) → length (pending q) ≡ backlog q
unfolding pending
length-pending q = length-messages_from q.slots q.tail (backlog q)

pub consume_msg-IsValid : (q : MessageQueue) → IsValid q → IsValid (consume_msg q).1
unfolding consume_msg
consume_msg-IsValid q v = ground arith

backlog-zero : (q : MessageQueue) → IsValid q → empty q ≡ true → backlog q ≡ 0
unfolding empty backlog
backlog-zero q v h = ground arith

pub backlog-suc :
    (q : MessageQueue) → IsValid q → empty q ≡ false → backlog q ≡ suc (backlog (consume_msg q).1)
unfolding empty backlog consume_msg
backlog-suc q v h = ground arith

-- An empty ring has nothing pending, and `consume_msg` leaves it alone.
pub consume_msg-empty :
    (q : MessageQueue)
    → IsValid q
    → empty q ≡ true
    → (pending q ≡ []) × (consume_msg q ≡ (no_msg, q))
unfolding pending consume_msg
consume_msg-empty q v h = (rw (backlog-zero q v h), ground arith)

pub consume_msg-full :
    (q : MessageQueue)
    → empty q ≡ false
    → consume_msg q ≡ (q.slots (slot q.tail), record q { tail = (q.tail + 1) % u32_mod })
unfolding consume_msg
consume_msg-full q h = ground arith

-- What waits in a valid ring that is not empty is the message that `consume_msg` returns, and then
-- what waits after it, also where a counter wraps.
pub consume_msg-pending :
    (q : MessageQueue)
    → IsValid q
    → empty q ≡ false
    → pending q ≡ (consume_msg q).0 ∷ pending (consume_msg q).1
unfolding pending
consume_msg-pending q v h = rw (backlog-suc q v h) (rw (consume_msg-full q h))
