-- ===== src/Lord/Drain.antt =====
-- Draining the ring: `consume_message` beside a fold over what is pending.
use cos_userspace.Base.{
  ℕ, zero, suc, ◌<◌, ◌≡◌, refl, sym, true, false, List, [], ◌∷◌, Result, ok, err, arith, ◌>>=◌,
  bind_assoc, bind_congr, ◌≡⟨◌⟩◌, ◌∎, ◌∙◌, Bool-cases, inl, inr,
}
use cos_userspace.MessageQueue.{CosMsg, MessageQueue, empty, consume_msg}
use cos_userspace.MessageQueue.Pending.{
  IsValid, backlog, pending, consume_msg-IsValid, consume_msg-empty, consume_msg-pending,
  consume_msg-full, backlog-suc,
}
use cos_userspace.Lord.{Policy, Lord, handle, round, consume_message}

module _ {S : Type 0} (p : Policy S) where
  -- The messages one after another, with no ring.
  unfoldable pub handle_all : List CosMsg → Lord S → Result (Lord S)
  handle_all [] l = ok l
  handle_all (m ∷ ms) l = handle p l m >>= handle_all ms

  -- The ring with nothing left in it.
  abbrev pub drained : MessageQueue → MessageQueue
  drained q = record q { tail = q.head }

  abbrev pub set_mq : MessageQueue → Lord S → Result (Lord S)
  set_mq q l = ok (record l { mq = q })

  set_mq-set_mq :
      (q d : MessageQueue) (r : Result (Lord S)) → r >>= set_mq q >>= set_mq d ≡ r >>= set_mq d
  set_mq-set_mq q d (ok l) = refl
  set_mq-set_mq q d (err e) = refl

  -- A handler neither reads nor writes the ring.
  pub handle-set_mq :
      (q : MessageQueue) (l : Lord S) (m : CosMsg)
      → handle p (record l { mq = q }) m ≡ handle p l m >>= set_mq q
  unfolding handle
  handle-set_mq q l m = ground arith

  handle_all-set_mq :
      (q : MessageQueue) (ms : List CosMsg) (l : Lord S)
      → handle_all ms (record l { mq = q }) ≡ handle_all ms l >>= set_mq q
  unfolding handle_all
  handle_all-set_mq q [] l = refl
  handle_all-set_mq q (m ∷ ms) l =
      handle_all (m ∷ ms) (record l { mq = q })
      ≡⟨ (rw (handle-set_mq q l m)) ⟩ handle p l m >>= set_mq q >>= handle_all ms
      ≡⟨ bind_assoc (handle p l m) _ _ ⟩
        handle p l m >>= (λ l'. handle_all ms (record l' { mq = q }))
      ≡⟨ bind_congr (handle p l m) _ _ (handle_all-set_mq q ms) ⟩
        handle p l m >>= (λ l'. handle_all ms l' >>= set_mq q)
      ≡⟨ sym (bind_assoc (handle p l m) _ _) ⟩ handle_all (m ∷ ms) l >>= set_mq q ∎

  round-set_mq :
      (l : Lord S) → round p l ≡ handle p l (consume_msg l.mq).0 >>= set_mq (consume_msg l.mq).1
  unfolding round
  round-set_mq l = handle-set_mq _ l _

  drained-consume_msg : (q : MessageQueue) → empty q ≡ false → drained (consume_msg q).1 ≡ drained q
  drained-consume_msg q e = rw (consume_msg-full q e)

  drained_self : (q : MessageQueue) → empty q ≡ true → q ≡ drained q
  unfolding empty
  drained_self q e = ground arith

  consume_message_idle :
      (fuel : ℕ) (l : Lord S)
      → IsValid l.mq
      → empty l.mq ≡ true
      → consume_message p (suc fuel) l ≡ handle_all (pending l.mq) l >>= set_mq (drained l.mq)
  unfolding consume_message handle_all
  consume_message_idle fuel l v e =
      rw (e, (consume_msg-empty l.mq v e).0, consume_message)
        (λ i. ok (record l { mq = drained_self l.mq e i }))

  later :
      (fuel : ℕ) (l l' : Lord S)
      → empty l.mq ≡ false
      → let q = (consume_msg l.mq).1 in
        consume_message p fuel (record l' { mq = q })
          ≡ handle_all (pending q) (record l' { mq = q }) >>= set_mq (drained q)
        → set_mq q l' >>= consume_message p fuel
          ≡ handle_all (pending q) l' >>= set_mq (drained l.mq)
  later fuel l l' e ih =
      let q = (consume_msg l.mq).1 in
      ih
      ∙ rw (handle_all-set_mq q (pending q) l') (
          set_mq-set_mq q (drained q) (handle_all (pending q) l') ∙ rw (drained-consume_msg l.mq e))

  consume_message_busy :
      (fuel : ℕ) (l : Lord S)
      → IsValid l.mq
      → empty l.mq ≡ false
      → let q = (consume_msg l.mq).1 in
        ((l' : Lord S)
          → consume_message p fuel (record l' { mq = q })
            ≡ handle_all (pending q) (record l' { mq = q }) >>= set_mq (drained q))
        → consume_message p (suc fuel) l ≡ handle_all (pending l.mq) l >>= set_mq (drained l.mq)
  unfolding consume_message handle_all
  consume_message_busy fuel l v e ih =
      let (m, q) = consume_msg l.mq in
      let r = handle p l m in
      consume_message p (suc fuel) l
      ≡⟨ (rw (e, consume_message, round-set_mq)) ⟩ r >>= set_mq q >>= consume_message p fuel
      ≡⟨ bind_assoc r _ _ ⟩ r >>= (λ l'. set_mq q l' >>= consume_message p fuel)
      ≡⟨ bind_congr r _ _ (λ l'. later fuel l l' e (ih l')) ⟩
        r >>= (λ l'. handle_all (pending q) l' >>= set_mq (drained l.mq))
      ≡⟨ (rw (consume_msg-pending l.mq v e) (sym (bind_assoc r _ _))) ⟩
        handle_all (pending l.mq) l >>= set_mq (drained l.mq) ∎

  -- On a valid ring with more fuel than messages that wait, `consume_message` is the fold of the
  -- handler over the waiting messages in the order of the ring, a fault of a handler included, and
  -- then an empty ring.
  pub consume_message-handle_all :
      (fuel : ℕ) (l : Lord S)
      → IsValid l.mq
      → backlog l.mq < fuel
      → consume_message p fuel l
        ≡ handle_all (pending l.mq) l >>= (λ l'. ok (record l' { mq = drained l.mq }))
  consume_message-handle_all zero l v h = absurd (omega arith)
  consume_message-handle_all (suc fuel) l v h = elim (Bool-cases (empty l.mq)) [
    | inl e ↦ consume_message_idle fuel l v e
    | inr e ↦ consume_message_busy fuel l v e (λ l'.
        consume_message-handle_all fuel (record l' { mq = (consume_msg l.mq).1 })
          (consume_msg-IsValid l.mq v) (omega (arith, backlog-suc l.mq v e)))
  ]
