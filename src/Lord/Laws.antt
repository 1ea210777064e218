-- ===== src/Lord/Laws.antt =====
-- What a scheduler promises of its handlers, and what the lord's loop then promises: the client of
-- the interface that both schedulers fill.
use cos_userspace.Base.{
  ℕ, ◌<◌, ◌≡◌, refl, true, false, List, [], ◌∷◌, ok, ◌==◌, if◌then◌else◌, Returns, Bool-cases, inl,
  inr,
}
use cos_userspace.MessageQueue.{CosMsg, MessageQueue}
use cos_userspace.MessageQueue.Pending.{IsValid, backlog, pending}
use cos_userspace.Lord.{Policy, Lord, dispatch, handle, consume_message}
use cos_userspace.Lord.Drain.{handle_all, drained, consume_message-handle_all}

-- An invariant of the scheduler's state, the messages that it takes, and the handlers' promise.
pub record PolicyLaws {S : Type 0} (p : Policy S) : Type 1 where
  pub Good : S → Type 0
  pub Accepts : S → CosMsg → Type 0
  pub keeps : (s : S) (m : CosMsg) → Good s → Accepts s m → Returns (dispatch p s m) Good

module _ {S : Type 0} (p : Policy S) (laws : PolicyLaws p) where
  open laws use {Good, Accepts, keeps}

  -- Each message that is not about the lord itself is one that the scheduler takes when its turn
  -- comes.
  abbrev pub AllAccepted : ℕ → List CosMsg → S → Type 0
  AllAccepted lord_pid [] s = Unit
  AllAccepted lord_pid (m ∷ ms) s =
      ((m.pid == lord_pid) ≡ true → AllAccepted lord_pid ms s)
      × ((m.pid == lord_pid) ≡ false
          → Accepts s m × ((s' : S) → dispatch p s m ≡ ok s' → AllAccepted lord_pid ms s'))

  -- The sequence number of the last message that is not about the lord.
  unfoldable pub last_seq : ℕ → ℕ → List CosMsg → ℕ
  last_seq lord_pid seq [] = seq
  last_seq lord_pid seq (m ∷ ms) = last_seq lord_pid (if m.pid == lord_pid then seq else m.seq) ms

  -- The lord after its messages; what the handlers do not touch is as before.
  pub record Drained (l : Lord S) (seq : ℕ) (mq : MessageQueue) (l' : Lord S) : Type 0 where
    pub good : Good l'.policy
    pub seq_is : l'.seq ≡ seq
    pub mq_is : l'.mq ≡ mq
    pub same_sa : l'.sa ≡ l.sa
    pub same_cpu : l'.lord_cpu ≡ l.lord_cpu
    pub same_pid : l'.lord_pid ≡ l.lord_pid

  handle_all-Good :
      (ms : List CosMsg) (l : Lord S)
      → Good l.policy
      → AllAccepted l.lord_pid ms l.policy
      → Returns (handle_all p ms l) (Drained l (last_seq l.lord_pid l.seq ms) l.mq)
  unfolding handle_all handle last_seq
  handle_all-Good [] l g a = (
    l,
    refl,
    record {
      good = g;
      seq_is = refl;
      mq_is = refl;
      same_sa = refl;
      same_cpu = refl;
      same_pid = refl;
    },
  )
  handle_all-Good (m ∷ ms) l g a = elim (Bool-cases (m.pid == l.lord_pid)) [
    | inl own ↦ rw own (handle_all-Good ms l g (a.0 own))
    | inr other ↦
        let (s, run, g') = keeps l.policy m g (a.1 other).0 in
        let (l', run', d) =
          handle_all-Good ms (record l { seq = m.seq; policy = s }) g' ((a.1 other).1 s run) in
        (
          l',
          rw (other, run) run',
          rw other (record {
            good = d.good;
            seq_is = d.seq_is;
            mq_is = d.mq_is;
            same_sa = d.same_sa;
            same_cpu = d.same_cpu;
            same_pid = d.same_pid;
          }),
        )
  ]

  -- With a scheduler that keeps its laws, a valid ring, more fuel than messages that wait, a good
  -- state and waiting messages that are all accepted one after the other, `consume_message` ends
  -- without a fault in a good state, with nothing left in the ring and the sequence number of the
  -- last message that is not about the lord itself.
  pub consume_message-Good :
      (fuel : ℕ) (l : Lord S)
      → IsValid l.mq
      → backlog l.mq < fuel
      → Good l.policy
      → AllAccepted l.lord_pid (pending l.mq) l.policy
      → Returns
          (consume_message p fuel l)
          (Drained l (last_seq l.lord_pid l.seq (pending l.mq)) (drained p l.mq))
  consume_message-Good fuel l v h g a =
      let (l', run, d) = handle_all-Good (pending l.mq) l g a in
      (
        record l' { mq = drained p l.mq },
        rw (consume_message-handle_all p fuel l v h, run),
        record {
          good = d.good;
          seq_is = d.seq_is;
          mq_is = refl;
          same_sa = d.same_sa;
          same_cpu = d.same_cpu;
          same_pid = d.same_pid;
        },
      )
