-- ===== src/Rocksdb/Lifecycle.antt =====
-- `main` of workload/rocksdb.cpp from its start to its return, with its signal handlers, the threads
-- of `Worker` and `LoadGenerator` as far as they start, find what main prepared for them, and end,
-- and the two locks between them. What a worker and the generator hand over is in Handover; here the
-- generator's choice per worker is an argument. One step is one access to what the threads share.
-- Reading `tid_` before it is written, or an entry of a map that is not there, is recorded.
pub mod Shares
pub mod Workers
pub mod Mains
pub mod Generators
pub mod Orderly
use cos_userspace.Base.{
  ℕ, ◌+◌, ◌<◌, ◌≡◌, ◌≢◌, Bool, true, false, not, ◌||◌, ◌&&◌, none, some, leb, ◌==◌, if◌then◌else◌,
}
use cos_userspace.Thread.{
  CosThread, Stage, working, finished, fresh_thread, spawn, thread_step, can_join,
}

-- Where main stands, with the worker that it deals with.
pub data Main : Type 0 where
  register launch : Main
  create wait prepare : ℕ → Main
  notify pause end_workers report : Main
  join : ℕ → Main
  end_generator join_generator report_all returned exited : Main

pub data LoadGenerator : Type 0 where
  unborn waiting head : LoadGenerator
  visit : ℕ → LoadGenerator
  drain_head : LoadGenerator
  drain : ℕ → LoadGenerator
  ended : LoadGenerator

-- What the threads share. The maps `worker_works` and `requests` are which keys they have, and
-- `marked` is which workers were marked as runnable.
pub record Shared : Type 0 where
  pub threads : ℕ → CosThread
  pub worker_lock : ℕ → Bool
  pub worker_works : ℕ → Bool
  pub requests : ℕ → Bool
  pub marked : ℕ → Bool
  pub generator_lock : Bool
  pub undefined_read : Bool

pub record Process : Type 0 where
  pub shared : Shared
  pub main : Main
  pub generator : LoadGenerator
  pub exit_all : Bool
  pub exit_generator : Bool
  pub should_exit : Bool
  pub force_exit : Bool

abbrev pub nothing_shared : Shared
nothing_shared = record {
  threads = λ _. fresh_thread;
  worker_lock = λ _. false;
  worker_works = λ _. false;
  requests = λ _. false;
  marked = λ _. false;
  generator_lock = false;
  undefined_read = false;
}

abbrev pub init : Process
init = record {
  shared = nothing_shared;
  main = register;
  generator = unborn;
  exit_all = false;
  exit_generator = false;
  should_exit = false;
  force_exit = false;
}

abbrev pub put : (ℕ → Bool) → ℕ → ℕ → Bool
put m key k = if k == key then true else m k

abbrev pub set_thread : Shared → ℕ → CosThread → Shared
set_thread h i t = record h { threads = λ j. if j == i then t else h.threads j }

abbrev pub broken : Shared → Shared
broken h = record h { undefined_read = true }

abbrev pub main_at : Process → Main → Process
main_at s m = record s { main = m }

-- The body of the loop over `workers`, behind the wait.
unfoldable pub set_up_worker : Process → ℕ → Process
set_up_worker s i =
    let h = s.shared in
    elim (h.threads i).tid_ [
      | none ↦ record s { shared = broken h; main = wait (i + 1) }
      | some tid ↦ record s {
        shared = record h { worker_works = put h.worker_works tid; requests = put h.requests tid };
        main = wait (i + 1);
      }
    ]

-- `t->join()` when it returns, and the `printf` behind it.
unfoldable pub joined_worker : Process → ℕ → Process
joined_worker s i = elim (s.shared.threads i).tid_ [
  | none ↦ record s { shared = broken s.shared; main = join (i + 1) }
  | some tid ↦ main_at s (join (i + 1))
]

-- One step of `main` with `n` workers. `SetTimer` and the reports leave what is modelled here.
unfoldable pub main_step : ℕ → Process → Process
main_step n s = elim s.main [
  | register ↦ main_at s launch
  | launch ↦ record s { generator = waiting; main = create 0 }
  | create i ↦ if leb n i then main_at s (wait 0) else record s {
    shared = set_thread s.shared i (spawn (s.shared.threads i));
    main = create (i + 1);
  }
  | wait i ↦
      if leb n i
      then main_at s notify
      else if s.shared.worker_lock i
      then main_at s (prepare i)
      else s
  | prepare i ↦ set_up_worker s i
  | notify ↦ record s { shared = record s.shared { generator_lock = true }; main = pause }
  | pause ↦ if s.should_exit then main_at s end_workers else s
  | end_workers ↦ record s { exit_all = true; main = report }
  | report ↦ main_at s (join 0)
  | join i ↦
      if leb n i
      then main_at s end_generator
      else if can_join (s.shared.threads i)
      then joined_worker s i
      else s
  | end_generator ↦ record s { exit_generator = true; main = join_generator }
  | join_generator ↦ elim s.generator [ ended ↦ main_at s report_all | _ ↦ s ]
  | report_all ↦ main_at s returned
  | returned ↦ s
  | exited ↦ s
]

-- A worker at its work tells that it is there, and then looks for its entries whenever it is marked
-- as runnable, until it sees `exit_all`.
unfoldable pub work_step : ℕ → Bool → Shared → ℕ → Shared
work_step tid exit_all h i =
    if not (h.worker_lock i)
    then record h { worker_lock = put h.worker_lock i }
    else if exit_all
    then set_thread h i (record (h.threads i) { stage = finished })
    else if h.marked i
    then record h {
      undefined_read = h.undefined_read || not (h.worker_works tid && h.requests tid);
    }
    else h

-- One step of worker `i`, whose number is `tid`.
unfoldable pub worker_goes : ℕ → Bool → Shared → ℕ → Shared
worker_goes tid exit_all h i = elim (h.threads i).stage [
  | working ↦ work_step tid exit_all h i
  | _ ↦ set_thread h i (thread_step tid (h.threads i))
]

-- What the generator does with a worker: it is marked as runnable already, it gets a batch, or
-- nothing waits.
pub data Answer : Type 0 where
  pass give leave : Answer

-- The access to `worker_works[tid]`.
abbrev pub look_for : Shared → ℕ → Shared
look_for h tid = record h { undefined_read = h.undefined_read || not (h.worker_works tid) }

abbrev pub mark_runnable : Shared → ℕ → Shared
mark_runnable h i = record h { marked = put h.marked i }

unfoldable pub visit_step : Answer → Process → ℕ → Process
visit_step answer s i = elim (s.shared.threads i).tid_ [
  | none ↦ record s { shared = broken s.shared; generator = visit (i + 1) }
  | some tid ↦ elim answer [
    | pass ↦ record s { generator = visit (i + 1) }
    | give ↦ record s {
      shared = mark_runnable (look_for s.shared tid) i;
      generator = visit (i + 1);
    }
    | leave ↦ record s { shared = look_for s.shared tid; generator = head }
  ]
]

unfoldable pub drain_step : Process → ℕ → Process
drain_step s i = elim (s.shared.threads i).tid_ [
  | none ↦ record s { shared = broken s.shared; generator = drain (i + 1) }
  | some tid ↦ record s { shared = mark_runnable s.shared i; generator = drain (i + 1) }
]

-- One step of `LoadGenerator` with `n` workers.
unfoldable pub generator_goes : ℕ → Answer → Process → Process
generator_goes n answer s = elim s.generator [
  | unborn ↦ s
  | waiting ↦ if s.shared.generator_lock then record s { generator = head } else s
  | head ↦ record s { generator = if s.exit_all then drain_head else visit 0 }
  | visit i ↦ if leb n i then record s { generator = head } else visit_step answer s i
  | drain_head ↦ record s { generator = if s.exit_generator then ended else drain 0 }
  | drain i ↦ if leb n i then record s { generator = drain_head } else drain_step s i
  | ended ↦ s
]

-- The handlers of SIGINT and SIGALRM.
unfoldable pub on_sigint : Process → Process
on_sigint s =
    if s.force_exit then main_at s exited else record s { should_exit = true; force_exit = true }

abbrev pub on_sigalrm : Process → Process
on_sigalrm s = record s { should_exit = true }

-- Any thread may take the next step, and a signal may come as soon as the handlers are there. The
-- threads have the numbers `tids`. Nothing is said of the other threads once the process has exited.
pub data Step (n : ℕ) (tids : ℕ → ℕ) (s : Process) : Process → Type 0 where
  main_goes : Step n tids s (main_step n s)
  works :
      (i : ℕ)
      → i < n
      → Step n tids s (record s { shared = worker_goes (tids i) s.exit_all s.shared i })
  generates : (answer : Answer) → Step n tids s (generator_goes n answer s)
  interrupt : s.main ≢ register → Step n tids s (on_sigint s)
  alarm : s.main ≢ register → Step n tids s (on_sigalrm s)

pub data Reach (n : ℕ) (tids : ℕ → ℕ) : Process → Type 0 where
  here : Reach n tids init
  next : {s t : Process} → Reach n tids s → Step n tids s t → Reach n tids t
