-- ===== src/Tests/Turn.antt =====
-- The lord's loop and the FIFO scheduler.
use cos_userspace.Fifo.Conserving.{Conserved, schedule-Conserved}
use cos_userspace.Fifo.Schedule.Plan.{free_cpus, plan, pairs}
use cos_userspace.ShootArea.Check.{failed_from}
use cos_userspace.ShootArea.Commit.{overlay}
use cos_userspace.Base.{◌≡◌, refl, [], ◌∷◌, arith, ok, Returns, ◌>>=◌, ◌==◌, if◌then◌else◌, count}
use cos_userspace.MessageQueue.Pending.{backlog, messages_from, pending}
use cos_userspace.Lord.{Lord, dispatch, consume_message}
use cos_userspace.Lord.Drain.{handle_all, drained, consume_message-handle_all}
use cos_userspace.Lord.Laws.{AllAccepted, last_seq, Drained, consume_message-Good}
use cos_userspace.RunQueue.{enqueue}
use cos_userspace.TaskMap.{absent}
use cos_userspace.Fifo.{Fifo, idle, cos, init, fifo_policy, put_back}
use cos_userspace.Fifo.Invariant.{Inv, init-Inv}
use cos_userspace.Fifo.Phases.{phase, next_phase, Meets}
use cos_userspace.Fifo.Handlers.{dispatch-Meets}
use cos_userspace.Fifo.Schedule.{schedule}
use cos_userspace.Fifo.Schedule.Assign.{Lost}
use cos_userspace.Fifo.Schedule.Round.{Scheduled, taken_back, schedule-Scheduled}
use cos_userspace.Fifo.Main.{fifo_laws, main_turn, Healthy, main_turn-Healthy, turn}
use cos_userspace.Lord.Turns.{Post, main_loop}
use cos_userspace.Fifo.Leak.{lost_laws, LostFor, fifo_loop-Lost}
use cos_userspace.Tests.Samples.{
  new_seven, one_message, willing, willing-Honest, waiting, waiting-Inv, lord_of, blank_area-Clean,
}

abbrev start : Lord Fifo
start = lord_of init one_message

start-AllAccepted :
    AllAccepted (fifo_policy 4) (fifo_laws 4) start.lord_pid (pending start.mq) start.policy
unfolding pending backlog messages_from next_phase
start-AllAccepted = ((λ e. tt), λ e. (((λ z. omega arith), (λ z. cc)), λ s run. tt))

schedule-Scheduled_example :
    Returns
      (schedule 4 willing (lord_of waiting one_message))
      (Scheduled 4 willing (lord_of waiting one_message))
schedule-Scheduled_example =
    schedule-Scheduled 4 willing willing-Honest (omega arith) (lord_of waiting one_message)
      waiting-Inv blank_area-Clean

main_turn-Healthy_example :
    Returns
      (main_turn 4 willing 5 start)
      (λ l'. Healthy 4 willing l' × (l'.mq.tail ≡ start.mq.head))
unfolding backlog
main_turn-Healthy_example =
    main_turn-Healthy 4 willing willing-Honest (omega arith) 5 start (omega arith)
      (record { ring = omega arith; good = init-Inv 4; clean = blank_area-Clean }) start-AllAccepted

dispatch-Meets_example :
    Meets 4 init 7
      (next_phase 3 (phase (init.alive_tasks 7)))
      (dispatch (fifo_policy 4) init new_seven)
dispatch-Meets_example = dispatch-Meets 4 init new_seven (init-Inv 4) (omega arith)

consume_message-Good_example : Returns (consume_message (fifo_policy 4) 5 start) (
    Drained
      (fifo_policy 4)
      (fifo_laws 4)
      start
      (last_seq (fifo_policy 4) (fifo_laws 4) 1000 0 (pending one_message))
      (drained (fifo_policy 4) one_message))
unfolding backlog
consume_message-Good_example =
    consume_message-Good (fifo_policy 4) (fifo_laws 4) 5 start (omega arith) (omega arith)
      (init-Inv 4) start-AllAccepted

consume_message-handle_all_example :
    consume_message (fifo_policy 4) 5 start
    ≡ handle_all (fifo_policy 4) (pending one_message) start
      >>= (λ l'. ok (record l' { mq = drained (fifo_policy 4) one_message }))
unfolding backlog
consume_message-handle_all_example =
    consume_message-handle_all (fifo_policy 4) 5 start (omega arith) (omega arith)

-- The state of a scheduler that has lost processor 1.
abbrev holed : Fifo
holed = record {
  fifo_rq = [];
  alive_tasks = λ _. absent;
  cpu_states = λ c. if c == 1 then cos else idle;
}

holed-Inv : Inv 4 holed
unfolding count
holed-Inv = record {
  once = λ t. refl;
  filed = λ t. tt;
  seated = λ t c h. ground arith;
  alone = λ t u c h k. ground arith;
}

holed-Lost : Lost holed 1
holed-Lost = record { marked_cos = refl; nobody = λ t r. ground arith }

-- The kernel posts one message, about a new task.
abbrev one_post : Post
one_post = record { head = 1; slots = λ _. new_seven }

abbrev quiet_lord : Lord Fifo
quiet_lord = lord_of holed (record { head = 0; tail = 0; slots = λ _. new_seven })

holed-AllAccepted : AllAccepted (fifo_policy 4) (lost_laws 4 1) 1000 (pending one_message) holed
unfolding pending backlog messages_from next_phase
holed-AllAccepted = ((λ e. tt), λ e. (((λ z. omega arith), (λ z. cc)), λ s run. tt))

fifo_loop-Lost_example :
    Returns (main_loop (turn 4 willing) (one_post ∷ []) quiet_lord) (LostFor 4 1 willing)
fifo_loop-Lost_example =
    fifo_loop-Lost 4 1 willing willing-Honest (omega arith) (one_post ∷ []) quiet_lord
      (record { ring = omega arith; good = holed-Inv; clean = blank_area-Clean }, holed-Lost)
      ((omega arith, holed-AllAccepted), λ l' run. tt)

waiting_stays : taken_back 4 willing (lord_of waiting one_message) ≡ []
unfolding free_cpus plan pairs put_back enqueue failed_from overlay
waiting_stays = refl

schedule-Conserved_example :
    Returns
      (schedule 4 willing (lord_of waiting one_message))
      (Conserved 4 (lord_of waiting one_message))
schedule-Conserved_example =
    schedule-Conserved 4 willing willing-Honest (omega arith) (lord_of waiting one_message)
      waiting-Inv blank_area-Clean waiting_stays
