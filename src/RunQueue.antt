-- ===== src/RunQueue.antt =====
-- The run queue of both schedulers: `FifoRq` of scheduler/fifo/fifo_lord.h, and `ShinjukuRq` of
-- scheduler/shinjuku/shinjuku_lord.h, which has the same text. A `std::list<u_int32_t>` is a
-- list, its front first.
pub mod Order
use cos_userspace.Base.{
  ℕ, List, [], ◌∷◌, ◌++◌, Result, ok, err, exit_failure, ◌>>=◌, ◌==◌, if◌then◌else◌,
}

unfoldable pub enqueue : List ℕ → ℕ → List ℕ
enqueue rq tid = rq ++ tid ∷ []

unfoldable pub dequeue : List ℕ → List ℕ
dequeue [] = []
dequeue (tid ∷ rq) = rq

-- 0 says that the queue is empty.
unfoldable pub peek : List ℕ → ℕ
peek [] = 0
peek (tid ∷ rq) = tid

-- Removes the first entry with that number; the process exits where there is none.
unfoldable pub remove_from_rq : List ℕ → ℕ → Result (List ℕ)
remove_from_rq [] tid = err exit_failure
remove_from_rq (x ∷ rq) tid =
    let rest = remove_from_rq rq tid in if x == tid then ok rq else (rest >>= λ rq'. ok (x ∷ rq'))
