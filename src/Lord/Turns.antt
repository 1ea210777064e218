-- ===== src/Lord/Turns.antt =====
-- The `while (true)` loop of a scheduler's `main`, for any number of turns: before each turn the
-- kernel and the workloads may have written into the shared pages.
use cos_userspace.Base.{ℕ, ◌≡◌, refl, List, [], ◌∷◌, Result, ok, ◌>>=◌, Returns}
use cos_userspace.MessageQueue.{CosMsg}
use cos_userspace.Lord.{Lord}

-- What the kernel has posted by the start of a turn: its counter and the slots.
pub record Post : Type 0 where
  pub head : ℕ
  pub slots : ℕ → CosMsg

-- The lord's own counter does not move.
abbrev pub posted : {S : Type 0} → Post → Lord S → Lord S
posted p l = record l { mq = record { head = p.head; tail = l.mq.tail; slots = p.slots } }

-- A turn for an event `E`, what holds between turns, what is expected of an event, and the
-- turn's promise.
pub record TurnLaws {S E : Type 0} (turn : E → Lord S → Result (Lord S)) : Type 1 where
  pub Holds : Lord S → Type 0
  pub Expects : E → Lord S → Type 0
  pub goes_on : (e : E) (l : Lord S) → Holds l → Expects e l → Returns (turn e l) Holds

module _ {S E : Type 0} (turn : E → Lord S → Result (Lord S)) where
  unfoldable pub main_loop : List E → Lord S → Result (Lord S)
  main_loop [] l = ok l
  main_loop (e ∷ es) l = turn e l >>= main_loop es

  module _ (laws : TurnLaws turn) where
    open laws use {Holds, Expects, goes_on}

    -- Each event is as expected when its turn comes.
    abbrev pub AllExpected : List E → Lord S → Type 0
    AllExpected [] l = Unit
    AllExpected (e ∷ es) l = Expects e l × ((l' : Lord S) → turn e l ≡ ok l' → AllExpected es l')

    pub main_loop-Holds :
        (es : List E) (l : Lord S) → Holds l → AllExpected es l → Returns (main_loop es l) Holds
    unfolding main_loop
    main_loop-Holds [] l h a = (l, refl, h)
    main_loop-Holds (e ∷ es) l h a =
        let (l', run, h') = goes_on e l h a.0 in
        let (l'', run', h'') = main_loop-Holds es l' h' (a.1 l' run) in (l'', rw run run', h'')
