-- ===== src/Lord/Arriving.antt =====
-- `consume_message` while the kernel goes on posting: before each look at the ring the kernel may
-- have put messages behind those that wait.
use cos_userspace.Base.{
  ℕ, zero, suc, ◌+◌, ◌<◌, ◌≤◌, ◌≡◌, refl, sym, ap, ◌∙◌, true, false, List, [], ◌∷◌, ◌++◌, Result,
  ok, err, out_of_fuel, arith, ◌>>=◌, bind_assoc, bind_congr, Bool-cases, inl, inr, length,
  length-append,
}
use mathlib.Core.List.{append-nil, append_assoc}
use cos_userspace.MessageQueue.{CosMsg, MessageQueue, empty, consume_msg}
use cos_userspace.MessageQueue.Pending.{
  IsValid, backlog, pending, length-pending, consume_msg-IsValid, consume_msg-empty,
  consume_msg-pending, backlog-suc,
}
use cos_userspace.Lord.{Policy, Lord, handle, round}
use cos_userspace.Lord.Drain.{handle_all, set_mq, handle-set_mq}

-- What the kernel makes of the ring before round `i`.
abbrev pub Arrivals : Type 0
Arrivals = ℕ → MessageQueue → MessageQueue

-- `consume_message` from round `i` on, with fuel for the rounds.
unfoldable pub consume_arriving :
    {S : Type 0} → Policy S → Arrivals → ℕ → ℕ → Lord S → Result (Lord S)
consume_arriving p kernel zero i l = err out_of_fuel
consume_arriving p kernel (suc fuel) i l =
    let l1 = record l { mq = kernel i l.mq } in
    elim (empty l1.mq) [
      | true ↦ ok l1
      | false ↦ round p l1 >>= consume_arriving p kernel fuel (i + 1)
    ]

-- The posts of `r` rounds from round `i` on.
unfoldable pub all_posts : (ℕ → List CosMsg) → ℕ → ℕ → List CosMsg
all_posts posts zero i = []
all_posts posts (suc r) i = posts i ++ all_posts posts r (i + 1)

-- The kernel leaves what waits in a ring with at most `bound` messages, and puts its posts behind it.
abbrev pub Appends : ℕ → (ℕ → List CosMsg) → Arrivals → Type 0
Appends bound posts kernel =
    (i : ℕ) (q : MessageQueue)
    → IsValid q
    → backlog q + length (posts i) ≤ bound
    → IsValid (kernel i q) × (pending (kernel i q) ≡ pending q ++ posts i)

-- After `r` rounds the ring is empty, and the messages were handled in the order of their arrival.
pub record InOrder {S : Type 0} (p : Policy S) (kernel : Arrivals) (posts : ℕ → List CosMsg)
    (fuel i : ℕ) (q : MessageQueue) : Type 0 where
  pub rounds : ℕ
  pub in_time : rounds ≤ fuel
  pub rest : MessageQueue
  pub nothing_left : pending rest ≡ []
  pub handles :
      (l : Lord S)
      → consume_arriving p kernel fuel i (record l { mq = q })
        ≡ handle_all p (pending q ++ all_posts posts rounds i) l
          >>= (λ l'. ok (record l' { mq = rest }))

module _ {S : Type 0} (p : Policy S) (bound : ℕ) (posts : ℕ → List CosMsg) (kernel : Arrivals)
    (keeps : Appends bound posts kernel) where
  amid_dry :
      (fuel i : ℕ) (q : MessageQueue) (l : Lord S)
      → empty (kernel i q) ≡ true
      → consume_arriving p kernel (suc fuel) i (record l { mq = q })
        ≡ ok (record l { mq = kernel i q })
  unfolding consume_arriving
  amid_dry fuel i q l e = rw (e, consume_arriving) refl

  amid_more :
      (fuel i : ℕ) (q : MessageQueue) (l : Lord S)
      → empty (kernel i q) ≡ false
      → consume_arriving p kernel (suc fuel) i (record l { mq = q })
        ≡ round p (record l { mq = kernel i q }) >>= consume_arriving p kernel fuel (i + 1)
  unfolding consume_arriving
  amid_more fuel i q l e = rw (e, consume_arriving) refl

  round-set_mq :
      (l : Lord S) (i : ℕ) (q : MessageQueue)
      → round p (record l { mq = kernel i q })
        ≡ handle p l (consume_msg (kernel i q)).0 >>= set_mq p (consume_msg (kernel i q)).1
  unfolding round
  round-set_mq l i q = handle-set_mq p (consume_msg (kernel i q)).1 l (consume_msg (kernel i q)).0

  last_round :
      (fuel i : ℕ) (q : MessageQueue)
      → IsValid (kernel i q)
      → pending (kernel i q) ≡ pending q ++ posts i
      → empty (kernel i q) ≡ true
      → InOrder p kernel posts (suc fuel) i q
  unfolding all_posts handle_all
  last_round fuel i q v e dry =
      let none_left = (consume_msg-empty (kernel i q) v dry).0 in
      record {
        rounds = 1;
        in_time = omega arith;
        rest = kernel i q;
        nothing_left = none_left;
        handles = λ l.
            let nothing : pending q ++ all_posts posts 1 i ≡ [] =
              ap (λ x. pending q ++ x) (append-nil (posts i)) ∙ sym e ∙ none_left in
            amid_dry fuel i q l dry
            ∙ ap (λ ms. handle_all p ms l >>= (λ l'. ok (record l' { mq = kernel i q })))
                (sym nothing);
      }

  one_round :
      (fuel i : ℕ) (q : MessageQueue)
      → IsValid (kernel i q)
      → pending (kernel i q) ≡ pending q ++ posts i
      → empty (kernel i q) ≡ false
      → InOrder p kernel posts fuel (i + 1) (consume_msg (kernel i q)).1
      → InOrder p kernel posts (suc fuel) i q
  unfolding all_posts handle_all
  one_round fuel i q v e more a =
      let (m, q2) = consume_msg (kernel i q) in
      let later = all_posts posts a.rounds (i + 1) in
      let order : pending q ++ (posts i ++ later) ≡ m ∷ (pending q2 ++ later) =
        sym (append_assoc (pending q) (posts i) later)
        ∙ ap (λ x. x ++ later) (sym e ∙ consume_msg-pending (kernel i q) v more) in
      record {
        rounds = suc a.rounds;
        in_time = omega (arith, a.in_time);
        rest = a.rest;
        nothing_left = a.nothing_left;
        handles = λ l.
            let r = handle p l m in
            amid_more fuel i q l more
            ∙ ap (λ x. x >>= consume_arriving p kernel fuel (i + 1)) (round-set_mq l i q)
            ∙ bind_assoc r (set_mq p q2) (consume_arriving p kernel fuel (i + 1))
            ∙ bind_congr r _ _ a.handles
            ∙ sym (bind_assoc r (handle_all p (pending q2 ++ later)) (set_mq p a.rest))
            ∙ ap (λ ms. handle_all p ms l >>= set_mq p a.rest) (sym order);
      }

  -- With a kernel that before each round puts its posts behind what waits in a ring of at most
  -- `bound` messages, a valid ring in which what waits and all posts of `fuel` rounds are at most
  -- that many, and more fuel than these messages, the loop is the fold of the handler over what
  -- waited and then what was posted up to its last round, in the order of arrival, a fault of a
  -- handler included, and then a ring in which nothing waits.
  pub consume_arriving-InOrder :
      (fuel i : ℕ) (q : MessageQueue)
      → IsValid q
      → backlog q + length (all_posts posts fuel i) ≤ bound
      → backlog q + length (all_posts posts fuel i) < fuel
      → InOrder p kernel posts fuel i q
  unfolding all_posts
  consume_arriving-InOrder zero i q v fits h = absurd (omega arith)
  consume_arriving-InOrder (suc fuel) i q v fits h =
      let q1 = kernel i q in
      let split = length-append (posts i) (all_posts posts fuel (i + 1)) in
      let (v1, e) = keeps i q v (omega (arith, fits, split)) in
      let size : backlog q1 ≡ backlog q + length (posts i) =
        sym (length-pending q1)
        ∙ ap length e
        ∙ length-append (pending q) (posts i)
        ∙ ap (λ b. b + length (posts i)) (length-pending q) in
      elim (Bool-cases (empty q1)) [
        | inl dry ↦ last_round fuel i q v1 e dry
        | inr more ↦
            let less = backlog-suc q1 v1 more in
            one_round fuel i q v1 e more (
              consume_arriving-InOrder fuel (i + 1) (consume_msg q1).1 (consume_msg-IsValid q1 v1)
                (omega (arith, fits, split, size, less)) (omega (arith, h, split, size, less)))
      ]
