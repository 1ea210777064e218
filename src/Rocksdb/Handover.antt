-- ===== src/Rocksdb/Handover.antt =====
-- `Worker` and `LoadGenerator` of workload/rocksdb.cpp, with the flags of `main`: how requests are
-- handed over through the epistle. One step is one access of a thread to the epistle, a counter
-- or a flag, with the access to a list of requests next to it. Accesses take effect in one order, as the fences and the atomic counter intend. A request
-- is its number in the order of arrival, and `handle` and the time stamps are left out. The epistle
-- is the map that its keys and values make up, with 0, which says runnable, under a missing key.
pub mod Protocol
pub mod Once
pub mod Safety
pub mod Leftover
use cos_userspace.Base.{
  ℕ, ◌+◌, ◌<◌, ◌≡◌, ◌≢◌, Bool, true, false, some, none, List, [], ◌∷◌, ◌++◌, ltb, leb, ◌==◌, ◌&&◌,
  if◌then◌else◌, length, get_elem?,
}
use cos_userspace.Epistle.{epistle_thread_runnable, epistle_thread_idle}

-- `options.batch`
abbrev pub batch : ℕ
batch = 12

-- Where a worker stands. `busy n k`: it handles `n` requests and has handled `k` of them.
pub data Pc : Type 0 where
  start named top look saw go : Pc
  busy : ℕ → ℕ → Pc
  rest ended failed : Pc

-- A worker with its entry of the epistle, of `worker_works` and of `requests`.
pub record Worker : Type 0 where
  pub flag : ℕ
  pub num_requests : ℕ
  pub requests : List ℕ
  pub handled : List ℕ
  pub pc : Pc

-- Where the generator stands, with the worker that it deals with.
pub data Generator : Type 0 where
  waiting head : Generator
  visit check : ℕ → Generator
  fill : ℕ → ℕ → Generator
  publish sent mark : ℕ → Generator
  drain_head : Generator
  drain : ℕ → Generator
  finished aborted : Generator

pub record State : Type 0 where
  pub workers : ℕ → Worker
  pub generator : Generator
  -- How many requests have arrived.
  pub arrivals : ℕ
  pub generator_lock : Bool
  pub exit_all : Bool
  pub exit_generator : Bool

-- A worker that starts, with what the page holds under its number: `main` opens the page without
-- clearing it, so entries of an earlier run may be left over.
abbrev pub new_worker : ℕ → Worker
new_worker flag = record { flag = flag; num_requests = 0; requests = []; handled = []; pc = start }

-- `flags` is what the page holds for the workers when the program starts.
abbrev pub init : (ℕ → ℕ) → State
init flags = record {
  workers = λ i. new_worker (flags i);
  generator = waiting;
  arrivals = 0;
  generator_lock = false;
  exit_all = false;
  exit_generator = false;
}

-- The loop over the requests of a batch, and the store behind it.
unfoldable pub busy_step : ℕ → ℕ → Worker → Worker
busy_step n k w =
    if ltb k n
    then (elim (get_elem? w.requests k) [
      | some r ↦ record w { handled = w.handled ++ r ∷ []; pc = busy n (k + 1) }
      | none ↦ record w { pc = failed }
    ])
    else record w { num_requests = 0; pc = rest }

-- One step of `Worker`. An assertion that does not hold leads to `failed`.
unfoldable pub worker_step : Bool → Worker → Worker
unfolding busy_step
worker_step exit_all w = elim w.pc [
  | start ↦ record w { pc = named }
  | named ↦ record w { flag = epistle_thread_idle; pc = top }
  | top ↦ record w { pc = if exit_all then ended else look }
  | look ↦ record w { pc = if w.flag == epistle_thread_idle then top else saw }
  | saw ↦ record w { pc = if w.flag == epistle_thread_runnable then go else failed }
  | go ↦ record w {
    pc =
        if w.num_requests == 0
        then top
        else if leb w.num_requests batch && w.num_requests == length w.requests
        then busy w.num_requests 0
        else failed;
  }
  | busy n k ↦ busy_step n k w
  | rest ↦ record w { flag = epistle_thread_idle; pc = top }
  | ended ↦ w
  | failed ↦ w
]

abbrev pub set_worker : State → ℕ → Worker → State
set_worker s i w = record s { workers = λ j. if j == i then w else s.workers j }

abbrev pub go_on : State → Generator → State
go_on s g = record s { generator = g }

-- `worker_works[tid]->requests.push_back(request)` for a request that has just arrived.
abbrev pub push : State → ℕ → State
push s i =
    let w = s.workers i in
    record (set_worker s i (record w { requests = w.requests ++ s.arrivals ∷ [] })) {
      arrivals = s.arrivals + 1;
    }

-- Behind the loop that fills the batch of worker `i`.
unfoldable pub publish_step : State → ℕ → State
publish_step s i =
    let w = s.workers i in
    elim w.requests [
      | [] ↦ go_on s head
      | _ ↦
          if leb (length w.requests) batch
          then go_on (set_worker s i (record w { num_requests = length w.requests })) (sent i)
          else go_on s aborted
    ]

-- One step of `LoadGenerator` with `n` workers. `arrived` is the answer of `PollRequest`, where it
-- is asked. An assertion that does not hold leads to `aborted`.
unfoldable pub generator_step : ℕ → Bool → State → State
unfolding publish_step
generator_step n arrived s = elim s.generator [
  | waiting ↦ if s.generator_lock then go_on s head else s
  | head ↦ go_on s (if s.exit_all then drain_head else visit 0)
  | visit i ↦
      if leb n i
      then go_on s head
      else go_on s
          (if (s.workers i).flag == epistle_thread_runnable then visit (i + 1) else check i)
  | check i ↦
      let w = s.workers i in
      if w.num_requests == 0
      then go_on (set_worker s i (record w { requests = [] })) (fill i 0)
      else go_on s aborted
  | fill i k ↦
      if ltb k batch && arrived then go_on (push s i) (fill i (k + 1)) else go_on s (publish i)
  | publish i ↦ publish_step s i
  | sent i ↦ go_on s (if (s.workers i).flag == epistle_thread_idle then mark i else aborted)
  | mark i ↦
      go_on (set_worker s i (record (s.workers i) { flag = epistle_thread_runnable }))
        (visit (i + 1))
  | drain_head ↦ go_on s (if s.exit_generator then finished else drain 0)
  | drain i ↦
      if leb n i
      then go_on s drain_head
      else go_on (set_worker s i (record (s.workers i) { flag = epistle_thread_runnable }))
          (drain (i + 1))
  | finished ↦ s
  | aborted ↦ s
]

-- Any thread may take the next step. `main` starts the generator when each worker has told that it
-- is there, ends the workers at any time after that, and ends the generator when they have ended.
pub data Step (n : ℕ) (s : State) : State → Type 0 where
  work : (i : ℕ) → i < n → Step n s (set_worker s i (worker_step s.exit_all (s.workers i)))
  generate : (arrived : Bool) → Step n s (generator_step n arrived s)
  release :
      ((i : ℕ) → i < n → (s.workers i).pc ≢ start) → Step n s (record s { generator_lock = true })
  stop : s.generator_lock ≡ true → Step n s (record s { exit_all = true })
  stop_generator :
      ((i : ℕ) → i < n → (s.workers i).pc ≡ ended) → Step n s (record s { exit_generator = true })

pub data Reach (n : ℕ) (flags : ℕ → ℕ) : State → Type 0 where
  here : Reach n flags (init flags)
  next : {s t : State} → Reach n flags s → Step n s t → Reach n flags t
