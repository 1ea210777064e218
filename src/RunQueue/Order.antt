-- ===== src/RunQueue/Order.antt =====
-- Laws of the run queue, by the number of times that a task stands in it.
use cos_userspace.Base.{
  ℕ, ◌+◌, ◌≡◌, ◌≢◌, refl, List, [], ◌∷◌, ok, arith, ◌==◌, if◌then◌else◌, count, count-snoc, err,
  exit_failure, ◌<◌,
}
use cos_userspace.RunQueue.{enqueue, dequeue, peek, remove_from_rq}

pub count-enqueue :
    (t : ℕ) (rq : List ℕ) (tid : ℕ)
    → count t (enqueue rq tid) ≡ count t rq + (if t == tid then 1 else 0)
unfolding enqueue
count-enqueue t rq tid = count-snoc t rq tid

pub count-peek :
    (t : ℕ) (rq : List ℕ)
    → peek rq ≢ 0
    → count t rq ≡ (if t == peek rq then 1 else 0) + count t (dequeue rq)
unfolding peek dequeue count
count-peek t [] h = absurd (h refl)
count-peek t (x ∷ rq) h = refl

-- What `remove_from_rq` leaves.
unfoldable pub without : List ℕ → ℕ → List ℕ
without [] tid = []
without (x ∷ rq) tid = if x == tid then rq else x ∷ without rq tid

pub remove_from_rq-without :
    (rq : List ℕ) (tid : ℕ) → 0 < count tid rq → remove_from_rq rq tid ≡ ok (without rq tid)
unfolding remove_from_rq without count
remove_from_rq-without [] tid h = absurd (omega arith)
remove_from_rq-without (x ∷ rq) tid h = ground (arith, remove_from_rq-without rq tid)

pub remove_from_rq-absent :
    (rq : List ℕ) (tid : ℕ) → count tid rq ≡ 0 → remove_from_rq rq tid ≡ err exit_failure
unfolding remove_from_rq count
remove_from_rq-absent [] tid h = refl
remove_from_rq-absent (x ∷ rq) tid h = ground (arith, remove_from_rq-absent rq tid)

-- One entry less of that number, and as many as before of any other.
pub count-without :
    (t : ℕ) (rq : List ℕ) (tid : ℕ)
    → 0 < count tid rq
    → count t (without rq tid) + (if t == tid then 1 else 0) ≡ count t rq
unfolding without count
count-without t [] tid h = absurd (omega arith)
count-without t (x ∷ rq) tid h = ground (arith, count-without t rq tid)

pub peek-dequeue : (rq : List ℕ) → peek rq ≢ 0 → rq ≡ peek rq ∷ dequeue rq
unfolding peek dequeue
peek-dequeue [] h = absurd (h refl)
peek-dequeue (x ∷ rq) h = refl
