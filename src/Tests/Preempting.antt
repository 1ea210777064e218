-- ===== src/Tests/Preempting.antt =====
-- The Shinjuku scheduler.
use cos_userspace.Base.{ℕ, ◌<◌, ◌≡◌, ok, refl, [], ◌∷◌, arith, inl, count, Returns}
use cos_userspace.RunQueue.{enqueue}
use cos_userspace.Epistle.{cleared}
use cos_userspace.Epistle.Laws.{Reaches, Reaches-of_stop}
use cos_userspace.Lord.{Lord, dispatch}
use cos_userspace.Shinjuku.{Shinjuku, init, new_task, put_back, shinjuku_policy}
use cos_userspace.Shinjuku.Invariant.{Inv, init-Inv, put_back-Inv}
use cos_userspace.Shinjuku.Phases.{phase, next_phase, on_cos, Meets}
use cos_userspace.Shinjuku.Handlers.{shinjuku_policy-Meets}
use cos_userspace.Shinjuku.Schedule.{Cpus, sort_loop, schedule}
use cos_userspace.Shinjuku.Schedule.Sort.{Coherent}
use cos_userspace.MessageQueue.Pending.{pending, backlog, messages_from}
use cos_userspace.Lord.Laws.{AllAccepted}
use cos_userspace.Lord.Turns.{main_loop}
use cos_userspace.Shinjuku.Schedule.Outcome.{Rounded}
use cos_userspace.Shinjuku.Schedule.Round.{schedule-Rounded}
use cos_userspace.Shinjuku.Schedule.Filter.{filled, sort_loop-filled}
use cos_userspace.Shinjuku.Marks.{Marked, init-Marked}
use cos_userspace.Shinjuku.Main.{
  HasRoom, Marked-Coherent, shinjuku_laws, Healthy, Event, turn, shinjuku_loop-Healthy,
}
use cos_userspace.Tests.Samples.{
  new_seven, one_message, blank_area, willing, willing-Honest, blank_area-Clean,
}

shinjuku_policy-Meets_example :
    Meets 4 init 7
      (next_phase 3 (on_cos init (init.alive_tasks 7)) (phase (init.alive_tasks 7)))
      (dispatch (shinjuku_policy 4) init new_seven)
shinjuku_policy-Meets_example = shinjuku_policy-Meets 4 init new_seven (init-Inv 4) (omega arith)

abbrev waiting : Shinjuku
waiting = put_back init 7 (new_task 7)

waiting-Inv : Inv 4 waiting
waiting-Inv = put_back-Inv 4 init 7 (new_task 7) (init-Inv 4) refl (refl, omega arith)

seven_only : (t : ℕ) → 0 < count t waiting.shinjuku_rq → t ≡ 7
unfolding put_back enqueue count
seven_only t h = ground (arith, h)

nothing_stored : (t : ℕ) → Reaches cleared t
nothing_stored t = Reaches-of_stop cleared t 0 (omega arith) (inl refl)

abbrev start : Lord Shinjuku
start = record {
  lord_cpu = 2;
  lord_pid = 1000;
  seq = 0;
  mq = one_message;
  sa = blank_area;
  policy = waiting;
}

-- No processor is marked as COS yet.
waiting-Marked : Marked waiting
unfolding put_back
waiting-Marked c e = absurd (ground (arith, e))

cleared-HasRoom : HasRoom cleared
cleared-HasRoom = (0, omega arith, refl)

waiting-Coherent : Coherent waiting
unfolding put_back
waiting-Coherent = Marked-Coherent waiting waiting-Marked cleared-HasRoom

schedule-Rounded_example : Returns (schedule 4 willing 0 5 start) (Rounded 4 willing 0 start)
unfolding put_back enqueue
schedule-Rounded_example =
    schedule-Rounded 4 willing 0 willing-Honest 5 start (omega arith) (omega arith) waiting-Inv
      blank_area-Clean waiting-Coherent (λ t h. nothing_stored t) (omega arith)

abbrev no_cpus : Cpus
no_cpus = record { idle_cpu = []; cos_cpu = []; cfs_cpu = [] }

sort_loop-filled_example : sort_loop 2 0 waiting 1 3 no_cpus ≡ ok (filled 2 0 waiting 1 3 no_cpus)
sort_loop-filled_example =
    sort_loop-filled 2 0 waiting 1 3 no_cpus waiting-Coherent
      (λ t task e. ground (arith, waiting-Inv.filed t, e))

-- The kernel posts one message, about a new task; the page is as the workload made it.
abbrev one_event : Event
one_event = record {
  post = record { head = 1; slots = λ _. new_seven };
  page = cleared;
  now = 500000;
}

abbrev quiet_lord : Lord Shinjuku
quiet_lord = record start {
  mq = record { head = 0; tail = 0; slots = λ _. new_seven };
  policy = init;
}

init-AllAccepted : AllAccepted (shinjuku_policy 4) (shinjuku_laws 4) 1000 (pending one_message) init
unfolding pending backlog messages_from next_phase
init-AllAccepted = (
  (λ e. tt),
  λ e. (((λ z. omega arith), (λ z. cc), λ c r. absurd (ground (arith, r))), λ s run. tt),
)

shinjuku_loop-Healthy_example :
    Returns (main_loop (turn 4 willing) (one_event ∷ []) quiet_lord) (Healthy 4 willing)
shinjuku_loop-Healthy_example =
    shinjuku_loop-Healthy 4 willing willing-Honest (omega arith) (omega arith) (one_event ∷ [])
      quiet_lord
      (record {
        ring = omega arith;
        good = init-Inv 4;
        marks = init-Marked;
        clean = blank_area-Clean;
      })
      ((omega arith, cleared-HasRoom, init-AllAccepted), λ l' run. tt)
