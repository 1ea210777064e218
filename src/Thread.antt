-- ===== src/Thread.antt =====
-- `CosThread` of lib/thread.h: a thread that first stores its number, then asks for the scheduling
-- class COS, then does its work. Whether the kernel grants the class is not looked at by the code.
use cos_userspace.Base.{ℕ, ◌≡◌, Bool, true, false, Option, none, some, arith, ◌⊎◌, inl, inr, refl}

-- `SCHED_COS`
abbrev pub sched_cos : ℕ
sched_cos = 8

-- Where the thread stands: not constructed, started, with its number stored, at its work, done.
pub data Stage : Type 0 where
  unborn born numbered working finished : Stage

-- `tid_` is `none` until it is written, and `asked` is the call of `sched_setscheduler`.
pub record CosThread : Type 0 where
  pub tid_ : Option ℕ
  pub asked : Option (ℕ × ℕ)
  pub stage : Stage

abbrev pub fresh_thread : CosThread
fresh_thread = record { tid_ = none; asked = none; stage = unborn }

-- The constructor starts the thread and does not wait for it.
abbrev pub spawn : CosThread → CosThread
spawn t = record t { stage = born }

-- A step of the thread's function before its work; `tid` is the answer of `gettid`.
unfoldable pub thread_step : ℕ → CosThread → CosThread
thread_step tid t = elim t.stage [
  | unborn ↦ t
  | born ↦ record t { tid_ = some tid; stage = numbered }
  | numbered ↦ elim t.tid_ [
    | some own ↦ record t { asked = some (own, sched_cos); stage = working }
    | none ↦ record t { stage = working }
  ]
  | working ↦ t
  | finished ↦ t
]

-- May `join` return?
abbrev pub can_join : CosThread → Bool
can_join t = elim t.stage [ finished ↦ true | _ ↦ false ]

-- What the stage says about a thread whose number is `tid`.
abbrev pub Proper : ℕ → CosThread → Type 0
Proper tid t = elim t.stage [
  | unborn ↦ Unit
  | born ↦ Unit
  | numbered ↦ t.tid_ ≡ some tid
  | working ↦ (t.tid_ ≡ some tid) × (t.asked ≡ some (tid, sched_cos))
  | finished ↦ (t.tid_ ≡ some tid) × (t.asked ≡ some (tid, sched_cos))
]

pub Stage-cases :
    (s : Stage) → (s ≡ unborn) ⊎ ((s ≡ born) ⊎ ((s ≡ numbered) ⊎ ((s ≡ working) ⊎ (s ≡ finished))))
Stage-cases unborn = inl refl
Stage-cases born = inr (inl refl)
Stage-cases numbered = inr (inr (inl refl))
Stage-cases working = inr (inr (inr (inl refl)))
Stage-cases finished = inr (inr (inr (inr refl)))

-- A thread whose stage agrees with its number goes on so, and what it has stored stays.
pub thread_step-Proper : (tid : ℕ) (t : CosThread) → Proper tid t → Proper tid (thread_step tid t)
unfolding thread_step
thread_step-Proper tid t p = elim (Stage-cases t.stage) [
  | inl e ↦ ground (arith, e)
  | inr (inl e) ↦ ground (arith, e)
  | inr (inr (inl e)) ↦ ground (arith, e, p)
  | inr (inr (inr (inl e))) ↦ ground (arith, e, p)
  | inr (inr (inr (inr e))) ↦ ground (arith, e, p)
]

pub thread_step-tid :
    (tid : ℕ) (t : CosThread) → t.tid_ ≡ some tid → (thread_step tid t).tid_ ≡ some tid
unfolding thread_step
thread_step-tid tid t p = ground (arith, p)

pub can_join-finished : (t : CosThread) → can_join t ≡ true → t.stage ≡ finished
can_join-finished t e = elim (Stage-cases t.stage) [
  | inl s ↦ absurd (ground (arith, e, s))
  | inr (inl s) ↦ absurd (ground (arith, e, s))
  | inr (inr (inl s)) ↦ absurd (ground (arith, e, s))
  | inr (inr (inr (inl s))) ↦ absurd (ground (arith, e, s))
  | inr (inr (inr (inr s))) ↦ s
]
