-- ===== src/MessageQueue/Wrap.antt =====
-- What the 32-bit counters do to the slots: 2 ^ 32 is no multiple of 511, so where a counter wraps
-- the slots jump back by 32.
use cos_userspace.Base.{
  ℕ, zero, suc, ◌+◌, ◌%◌, ◌≤◌, ◌<◌, ◌≡◌, ◌≢◌, ap, ◌∙◌, sym, some, arith, get_elem?,
}
use cos_userspace.MessageQueue.{CosMsg, MessageQueue, mq_data_size, u32_mod, slot}
use cos_userspace.MessageQueue.Pending.{IsValid, backlog, messages_from, pending}

get_elem?-messages_from :
    (slots : ℕ → CosMsg) (t n k : ℕ)
    → t < u32_mod
    → k < n
    → get_elem? (messages_from slots t n) k ≡ some (slots (slot ((t + k) % u32_mod)))
unfolding messages_from
get_elem?-messages_from slots t zero k h small = absurd (omega arith)
get_elem?-messages_from slots t (suc n) zero h small = ap (λ c. some (slots (slot c))) (omega arith)
get_elem?-messages_from slots t (suc n) (suc k) h small =
    get_elem?-messages_from slots ((t + 1) % u32_mod) n k (omega arith) (omega arith)
    ∙ ap (λ c. some (slots (slot c))) (omega arith)

-- Message number `k` of what is pending is read from the slot of the counter `tail + k`.
pub get_elem?-pending :
    (q : MessageQueue) (k : ℕ)
    → IsValid q
    → k < backlog q
    → get_elem? (pending q) k ≡ some (q.slots (slot ((q.tail + k) % u32_mod)))
unfolding pending
get_elem?-pending q k v h = get_elem?-messages_from q.slots q.tail (backlog q) k v.tail_fits h

-- Away from the wrap, the pending messages of a ring that is not over full have slots of their own.
pub slots_apart :
    (t i j : ℕ)
    → i < j
    → j < mq_data_size
    → t + j < u32_mod
    → slot ((t + i) % u32_mod) ≢ slot ((t + j) % u32_mod)
slots_apart t i j h k w = omega arith

slot_jump : (t : ℕ) → t < u32_mod → u32_mod ≤ t + 32 → slot ((t + 32) % u32_mod) ≡ slot t
slot_jump t h k = omega arith

-- A valid ring whose tail is one of the last 32 counter values and in which more than 32 messages
-- wait reads its first message and its message number 32 from one slot.
pub pending_clash :
    (q : MessageQueue)
    → IsValid q
    → u32_mod ≤ q.tail + 32
    → 32 < backlog q
    → get_elem? (pending q) 0 ≡ get_elem? (pending q) 32
pending_clash q v near many =
    get_elem?-pending q 0 v (omega arith)
    ∙ ap (λ c. some (q.slots c)) (omega arith)
    ∙ sym (get_elem?-pending q 32 v many)
