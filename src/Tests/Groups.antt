-- ===== src/Tests/Groups.antt =====
-- The wrapper of a cgroup.
use cos_userspace.Base.{
  ℕ, ◌≡◌, ◌+◌, ◌==◌, if◌then◌else◌, refl, some, none, List, [], ◌∷◌, ◌++◌, Result, ok, ◌>>=◌,
}
use cos_userspace.CosCgroup.{
  pos, negsuc, CosCgroup, create, adjust_rate, control, add_thread, erase_thread, destroy,
}
use cos_userspace.SystemCalls.{
  Argument, int, Syscall, coscg_create, coscg_rate, coscg_ctl, coscg_delete, cos_calls,
}
use cos_userspace.CosCgroup.Rate.{
  adjust, add, erase, Call, perform, history, Recorded, history-Recorded,
}

-- A kernel that counts its calls and grants every call but the third.
abbrev third_fails : Syscall ℕ
third_fails number arguments k = (if k == 3 then negsuc 0 else pos 1, k + 1)

abbrev group : CosCgroup
group = record { coscg_id = pos 1; rate = pos 0 }

-- A thread is added, the rate is set, and a second setting is refused.
abbrev day : List (Call × ℕ)
day = (add 7, 1) ∷ (adjust (pos 600), 2) ∷ (adjust (pos 800), 3) ∷ (erase 7, 4) ∷ []

history-Recorded_example : Recorded third_fails day group [] (history third_fails day group [])
history-Recorded_example = history-Recorded third_fails day group []

day_replies :
    (history third_fails day group []).0 ≡ some (pos 0) ∷ none ∷ some (negsuc 0) ∷ some (pos 0) ∷ []
unfolding history perform adjust_rate add_thread erase_thread control coscg_rate coscg_ctl
day_replies = refl

day_rate : (history third_fails day group []).1.0.rate ≡ pos 600
unfolding history perform adjust_rate add_thread erase_thread control coscg_rate coscg_ctl
day_rate = refl

created : create (cos_calls third_fails) 1 ≡ ok (group, 2)
unfolding create coscg_create
created = refl

-- A kernel that writes down the calls, and answers 5 to each.
abbrev recording : Syscall (List (ℕ × List Argument))
recording number arguments made = (pos 5, made ++ (number, arguments) ∷ [])

-- An object is made, a thread is added to it, and it goes away.
abbrev life : Result (List (ℕ × List Argument))
life =
    let calls = cos_calls recording in
    create calls [] >>= λ made.
    let added = add_thread calls 7 made.0 made.1 in ok (destroy calls added.1.0 added.1.1)

life_calls :
    life
    ≡ ok (
        (456, [])
        ∷ (457, int (pos 5) ∷ int (pos 7) ∷ int (pos 1) ∷ [])
        ∷ (459, int (pos 5) ∷ [])
        ∷ [])
unfolding create add_thread control destroy coscg_create coscg_ctl coscg_delete
life_calls = refl
