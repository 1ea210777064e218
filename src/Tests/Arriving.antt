-- ===== src/Tests/Arriving.antt =====
-- A kernel that posts one message before the first round, and what the lord makes of it.
use cos_userspace.Base.{
  ℕ, zero, suc, ◌+◌, ◌<◌, ◌%◌, ◌≡◌, ◌≢◌, refl, sym, ap, ◌∙◌, List, [], ◌∷◌, ◌++◌, arith, ◌==◌,
  if◌then◌else◌, Bool-cases, inl, inr, length,
}
use mathlib.Core.List.{append-nil}
use cos_userspace.MessageQueue.{CosMsg, MessageQueue, u32_mod, slot}
use cos_userspace.MessageQueue.Pending.{IsValid, backlog, messages_from, pending}
use cos_userspace.Lord.Arriving.{Arrivals, all_posts, Appends, InOrder, consume_arriving-InOrder}
use cos_userspace.Fifo.{fifo_policy}
use cos_userspace.Tests.Samples.{new_seven, one_message}

-- The message goes to the slot of the counter, which is raised.
abbrev post : CosMsg → MessageQueue → MessageQueue
post m q = record {
  head = (q.head + 1) % u32_mod;
  tail = q.tail;
  slots = λ s. if s == slot q.head then m else q.slots s;
}

messages_from-snoc :
    (slots : ℕ → CosMsg) (t n : ℕ)
    → t < u32_mod
    → messages_from slots t (suc n)
      ≡ messages_from slots t n ++ slots (slot ((t + n) % u32_mod)) ∷ []
unfolding messages_from
messages_from-snoc slots t zero h = ap (λ c. slots (slot c) ∷ []) (omega arith)
messages_from-snoc slots t (suc n) h = ap (◌∷◌ (slots (slot t))) (
    messages_from-snoc slots ((t + 1) % u32_mod) n (omega arith)
    ∙ ap (λ c. messages_from slots ((t + 1) % u32_mod) n ++ slots (slot c) ∷ []) (omega arith))

messages_from-same :
    (slots slots' : ℕ → CosMsg) (t n : ℕ)
    → t < u32_mod
    → ((j : ℕ) → j < n → slots' (slot ((t + j) % u32_mod)) ≡ slots (slot ((t + j) % u32_mod)))
    → messages_from slots' t n ≡ messages_from slots t n
unfolding messages_from
messages_from-same slots slots' t zero h same = refl
messages_from-same slots slots' t (suc n) h same =
    ap (λ m. m ∷ messages_from slots' ((t + 1) % u32_mod) n)
      (ap (λ c. slots' (slot c)) (omega arith)
        ∙ same 0 (omega arith)
        ∙ ap (λ c. slots (slot c)) (omega arith))
    ∙ ap (◌∷◌ (slots (slot t))) (
        messages_from-same slots slots' ((t + 1) % u32_mod) n (omega arith) (λ j small.
          ap (λ c. slots' (slot c)) (omega arith)
          ∙ same (suc j) (omega arith)
          ∙ ap (λ c. slots (slot c)) (omega arith)))

-- In a ring of at most 32 messages the new one has a slot of its own, also where a counter wraps.
slot_is_free :
    (t j b : ℕ) → t < u32_mod → j < b → b < 32 → slot ((t + j) % u32_mod) ≢ slot ((t + b) % u32_mod)
slot_is_free t j b h small few e = omega arith

head_is : (q : MessageQueue) → IsValid q → (q.tail + backlog q) % u32_mod ≡ q.head
unfolding backlog
head_is q v = omega (arith, v.head_fits, v.tail_fits)

post_backlog :
    (m : CosMsg) (q : MessageQueue)
    → IsValid q
    → backlog q < 32
    → backlog (post m q) ≡ suc (backlog q)
unfolding backlog
post_backlog m q v few = omega (arith, v.head_fits, v.tail_fits, few)

post-pending :
    (m : CosMsg) (q : MessageQueue)
    → IsValid q
    → backlog q < 32
    → pending (post m q) ≡ pending q ++ m ∷ []
unfolding pending
post-pending m q v few =
    let slots' = (post m q).slots in
    let more = post_backlog m q v few in
    let last : slot ((q.tail + backlog q) % u32_mod) ≡ slot q.head = ap slot (head_is q v) in
    ap (messages_from slots' q.tail) more
    ∙ messages_from-snoc slots' q.tail (backlog q) v.tail_fits
    ∙ ap (◌++◌ (messages_from slots' q.tail (backlog q))) (ap (λ x. x ∷ []) (ground (arith, last)))
    ∙ ap (λ ms. ms ++ m ∷ [])
        (messages_from-same q.slots slots' q.tail (backlog q) v.tail_fits (λ j small.
          ground (arith, last, slot_is_free q.tail j (backlog q) v.tail_fits small few)))

abbrev first_post : ℕ → List CosMsg
first_post i = if i == 0 then new_seven ∷ [] else []

abbrev posts_first : Arrivals
posts_first i q = if i == 0 then post new_seven q else q

post-Appends : Appends 32 first_post posts_first
post-Appends i q v fits = elim (Bool-cases (i == 0)) [
  | inl first ↦
      let one : length (first_post i) ≡ 1 = rw first refl in
      rw first (
        record { head_fits = omega arith; tail_fits = v.tail_fits },
        post-pending new_seven q v (omega (arith, one, fits)),
      )
  | inr later ↦ rw later (v, sym (append-nil (pending q)))
]

consume_arriving-InOrder_example : InOrder (fifo_policy 4) posts_first first_post 9 0 one_message
unfolding backlog all_posts
consume_arriving-InOrder_example =
    consume_arriving-InOrder (fifo_policy 4) 32 first_post posts_first post-Appends 9 0 one_message
      (omega arith) (omega arith) (omega arith)
