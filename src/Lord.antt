-- ===== src/Lord.antt =====
-- The base class `Lord` of lib/lord.h: the loop that drains the message ring and calls the virtual
-- handlers. A scheduler is a state `S` with a `Policy`; a lord is the base class's fields beside
-- that state. The constructor's system calls and `mmap`s are input and output and are left out;
-- so is the log.
pub mod Drain
pub mod Laws
pub mod Arriving
pub mod Turns
use cos_userspace.Base.{
  ℕ, zero, suc, ◌≡◌, true, false, List, [], ◌∷◌, Result, ok, err, out_of_fuel, ◌>>=◌, ◌==◌,
  if◌then◌else◌,
}
use cos_userspace.MessageQueue.{CosMsg, MessageQueue, empty, consume_msg}
use cos_userspace.ShootArea.{ShootArea}

-- The values of the enumeration in kernel/message_queue.h.
abbrev pub msg_task_runnable : ℕ
msg_task_runnable = 1

abbrev pub msg_task_blocked : ℕ
msg_task_blocked = 2

abbrev pub msg_task_new : ℕ
msg_task_new = 3

abbrev pub msg_task_dead : ℕ
msg_task_dead = 4

abbrev pub msg_task_preempt : ℕ
msg_task_preempt = 5

abbrev pub msg_task_new_blocked : ℕ
msg_task_new_blocked = 6

abbrev pub msg_task_cos_preempt : ℕ
msg_task_cos_preempt = 7

-- The virtual handlers. None of them touches a field of the base class.
pub record Policy (S : Type 0) : Type 0 where
  pub runnable : S → CosMsg → Result S
  pub blocked : S → CosMsg → Result S
  pub create : S → CosMsg → Result S
  pub create_blocked : S → CosMsg → Result S
  pub dead : S → CosMsg → Result S
  pub preempt : S → CosMsg → Result S
  pub preempt_cos : S → CosMsg → Result S

pub record Lord (S : Type 0) : Type 0 where
  pub lord_cpu : ℕ
  pub lord_pid : ℕ
  pub seq : ℕ
  pub mq : MessageQueue
  pub sa : ShootArea
  pub policy : S

module _ {S : Type 0} (p : Policy S) where
  -- The `switch` of `consume_message`. A message of another type only makes a log line.
  unfoldable pub dispatch : S → CosMsg → Result S
  dispatch s msg =
      if msg.type == msg_task_runnable
      then p.runnable s msg
      else if msg.type == msg_task_blocked
      then p.blocked s msg
      else if msg.type == msg_task_new
      then p.create s msg
      else if msg.type == msg_task_dead
      then p.dead s msg
      else if msg.type == msg_task_preempt
      then p.preempt s msg
      else if msg.type == msg_task_new_blocked
      then p.create_blocked s msg
      else if msg.type == msg_task_cos_preempt
      then p.preempt_cos s msg
      else ok s

  -- The body of the loop, after the message is taken.
  unfoldable pub handle : Lord S → CosMsg → Result (Lord S)
  handle l msg =
      if msg.pid == l.lord_pid
      then ok l
      else (dispatch l.policy msg >>= λ s. ok (record l { seq = msg.seq; policy = s }))

  -- One round: take a message, then look at it.
  unfoldable pub round : Lord S → Result (Lord S)
  round l = let (msg, q) = consume_msg l.mq in handle (record l { mq = q }) msg

  -- `while (!mq_->empty())`, with fuel for the rounds.
  unfoldable pub consume_message : ℕ → Lord S → Result (Lord S)
  consume_message zero l = err out_of_fuel
  consume_message (suc fuel) l = elim (empty l.mq) [
    | true ↦ ok l
    | false ↦ round l >>= consume_message fuel
  ]
