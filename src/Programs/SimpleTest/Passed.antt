-- ===== src/Programs/SimpleTest/Passed.antt =====
-- When a test is over.
use cos_userspace.Base.{ℕ, ◌<◌, ◌≡◌, subst, arith, ltb, ◌==◌, ==_iff, Bool-cases, inl, inr}
use cos_userspace.Thread.{CosThread, finished, can_join, can_join-finished}
use cos_userspace.Programs.{cos_step-finished}
use cos_userspace.Programs.SimpleTest.{
  Test, start_cos, join_cos, passed, Run, test_step, test_runs, thread_runs, Reach, here, next,
}

-- How many threads have been joined.
abbrev IsJoined : ℕ → Test → (ℕ → CosThread) → Type 0
IsJoined n (start_cos i) threads = Unit
IsJoined n (join_cos i) threads = (j : ℕ) → j < i → (threads j).stage ≡ finished
IsJoined n passed threads = (j : ℕ) → j < n → (threads j).stage ≡ finished

test_step-IsJoined :
    (n : ℕ) (p : Test) (threads : ℕ → CosThread)
    → IsJoined n p threads
    → let s = test_step n (record { test = p; threads = threads }) in IsJoined n s.test s.threads
unfolding test_step
test_step-IsJoined n (start_cos i) threads h = elim (Bool-cases (ltb i n)) [
  | inl more ↦ rw more tt
  | inr done ↦ rw done (λ j lt. absurd (omega (arith, lt)))
]
test_step-IsJoined n (join_cos i) threads h = elim (Bool-cases (ltb i n)) [
  | inl more ↦ elim (Bool-cases (can_join (threads i))) [
    | inl over ↦
        rw (more, over)
          (λ j lt. elim (Bool-cases (ltb j i)) [
            | inl old ↦ h j (ground arith)
            | inr last ↦
                let same : i ≡ j = ground (arith, lt) in
                subst (λ k. (threads k).stage ≡ finished) same (can_join-finished (threads i) over)
          ])
    | inr going ↦ rw (more, going) h
  ]
  | inr done ↦ rw done (λ j lt. h j (ground (arith, lt)))
]
test_step-IsJoined n passed threads h = h

thread_runs-IsJoined :
    (n : ℕ) (p : Test) (threads threads' : ℕ → CosThread)
    → ((j : ℕ) → (threads j).stage ≡ finished → (threads' j).stage ≡ finished)
    → IsJoined n p threads
    → IsJoined n p threads'
thread_runs-IsJoined n (start_cos i) threads threads' keep h = tt
thread_runs-IsJoined n (join_cos i) threads threads' keep h = λ j lt. keep j (h j lt)
thread_runs-IsJoined n passed threads threads' keep h = λ j lt. keep j (h j lt)

Reach-IsJoined : {n : ℕ} {tids : ℕ → ℕ} {s : Run} → Reach n tids s → IsJoined n s.test s.threads
Reach-IsJoined here = tt
Reach-IsJoined {n} (next {s} r test_runs) = test_step-IsJoined n s.test s.threads (Reach-IsJoined r)
Reach-IsJoined {n} {tids} (next {s} r (thread_runs i)) =
    thread_runs-IsJoined n s.test s.threads _
      (λ j e. elim (Bool-cases (j == i)) [
        | inl hit ↦ rw hit (
            cos_step-finished (tids i) (s.threads i)
              (subst (λ k. (s.threads k).stage ≡ finished) ((==_iff j i).0 hit) e))
        | inr miss ↦ rw miss e
      ])
      (Reach-IsJoined r)

-- A test is over only when each of its `n` threads has ended.
pub Reach-passed :
    {n : ℕ} {tids : ℕ → ℕ} {s : Run}
    → Reach n tids s
    → s.test ≡ passed
    → (i : ℕ) → i < n
    → (s.threads i).stage ≡ finished
Reach-passed {n} {s = s} r e = subst (λ p. IsJoined n p s.threads) e (Reach-IsJoined r)
