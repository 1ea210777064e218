-- ===== src/Tests/Racing.antt =====
-- Threads whose keys have the same hash, racing on an empty table.
use cos_userspace.Base.{ℕ, ◌+◌, ◌*◌, ◌≡◌, refl, ok, arith}
use cos_userspace.Epistle.{cleared, get}
use cos_userspace.Epistle.Laws.{IsPlaced, cleared-IsPlaced}
use cos_userspace.Epistle.Racing.{
  returned, Job, State, next_pc, next_table, step, Reach, begun, next, begin,
}
use cos_userspace.Epistle.Racing.Kept.{Reach-kept}

abbrev colliding : ℕ → Job
colliding i = record { key = 512 * i + 1; value = i + 7 }

abbrev Place : Type 0
Place = (s : State) × Reach colliding cleared s

abbrev stepped : ℕ → Place → Place
stepped i p = (step colliding i p.0, next p.1 i)

-- Both look at the empty entry, and the second one's compare-and-swap fails.
abbrev raced : Place
raced = stepped 1 (
    stepped 0 (
      stepped 1 (
        stepped 0 (
          stepped 1 (
            stepped 1
              (stepped 1 (stepped 0 (stepped 1 (stepped 0 (begin colliding cleared, begun))))))))))

raced_returned : (raced.0.pcs 0 ≡ returned) × (raced.0.pcs 1 ≡ returned)
unfolding next_pc next_table
raced_returned = (refl, refl)

Reach-kept_example :
    IsPlaced raced.0.table
    × ((i : ℕ)
        → raced.0.pcs i ≡ returned
        → get 512 (colliding i).key raced.0.table ≡ ok (colliding i).value)
Reach-kept_example =
    Reach-kept colliding (λ i e. omega (arith, e)) (λ i j e. omega (arith, e)) 512 cleared
      (omega arith) cleared-IsPlaced raced.1
