-- ===== src/Fifo/Handlers.antt =====
-- The handlers of `FifoLord` against the abstract account of one task.
use cos_userspace.Base.{
  ℕ, ◌≡◌, ◌≢◌, refl, ap, Bool, true, false, Option, none, some, Result, exit_failure, assert_failed,
  arith, ◌==◌, if◌then◌else◌, inl, inr,
}
use cos_userspace.MessageQueue.{CosMsg}
use cos_userspace.RunQueue.{enqueue}
use cos_userspace.TaskMap.{Slot, absent, null_entry, live, insert}
use cos_userspace.Lord.{
  dispatch, msg_task_runnable, msg_task_blocked, msg_task_new, msg_task_dead, msg_task_preempt,
  msg_task_new_blocked, msg_task_cos_preempt,
}
use cos_userspace.Fifo.{
  FifoRunState, queued, on_cpu, blocked, idle, nocos, FifoTask, new_task, Fifo, write_cpu, put_back,
  set_cpu, consume_msg_task_runnable, consume_msg_task_blocked, consume_msg_task_new,
  consume_msg_task_new_blocked, consume_msg_task_dead, consume_msg_task_preempt_cos,
  consume_msg_task_preempt, fifo_policy,
}
use cos_userspace.Fifo.Invariant.{
  queued_count, seat, Inv, put_back-Inv, write_cpu-Inv, take_off-Inv, seat-lt, Gone, leave_rq,
  remark, FifoRunState-cases,
}
use cos_userspace.Fifo.Phases.{phase, Outcome, woken, next_phase, next_rq, After, Meets}

module _ (cpu_num : ℕ) where
  module _ (f : Fifo) (m : CosMsg) (v : Inv cpu_num f) where
    abbrev here : Option FifoRunState
    here = phase (f.alive_tasks m.pid)

    same : (p : Option FifoRunState) → here ≡ p → After cpu_num f m.pid (p, none) f
    unfolding next_rq
    same p e = record {
      good = v;
      phase_is = e;
      queue_is = ground arith;
      others = λ u n. refl;
      no_start = λ d h. ground arith;
      marks_are = λ c. ground arith;
    }

    enqueued :
        (task : FifoTask)
        → queued_count (f.alive_tasks m.pid) ≡ 0
        → (task.pid ≡ m.pid) × (m.pid ≢ 0)
        → After cpu_num f m.pid (some queued, none) (put_back f m.pid task)
    unfolding put_back next_rq enqueue
    enqueued task fresh name = record {
      good = put_back-Inv cpu_num f m.pid task v fresh name;
      phase_is = ground arith;
      queue_is = ground arith;
      others = λ u n. ground arith;
      no_start = λ d h. ground arith;
      marks_are = λ c. ground arith;
    }

    runnable_lem :
        (s : Slot FifoTask)
        → f.alive_tasks m.pid ≡ s
        → Meets cpu_num f m.pid
            (next_phase msg_task_runnable (phase s))
            (consume_msg_task_runnable cpu_num f m)
    unfolding consume_msg_task_runnable next_phase
    runnable_lem absent e = (f, ground arith, same none (ground arith))
    runnable_lem null_entry e = absurd (ground (arith, v.filed m.pid))
    runnable_lem (live task) e = elim (FifoRunState-cases task.state) [
      | inl q ↦ (f, ground arith, same (some queued) (ground arith))
      | inr moving ↦ (
        put_back f m.pid task,
        ground arith,
        enqueued task (ground arith) (ground (arith, v.filed m.pid)),
      )
    ]

    -- The task is off, and `s` stands in its place.
    off :
        (task : FifoTask) (s : Slot FifoTask) (f' : Fifo)
        → f.alive_tasks m.pid ≡ live task
        → Gone s
        → Inv cpu_num (record f' { alive_tasks = insert f'.alive_tasks m.pid s })
        → f'.alive_tasks ≡ f.alive_tasks
        → f'.fifo_rq ≡ leave_rq f.fifo_rq m.pid task.state
        → ((c : ℕ) → f'.cpu_states c ≡ remark (some idle) (seat (live task)) c (f.cpu_states c))
        → After cpu_num f m.pid
            (phase s, some idle)
            (record f' { alive_tasks = insert f'.alive_tasks m.pid s })
    unfolding next_rq
    off task s f' e g w t q k = record {
      good = w;
      phase_is = ground arith;
      queue_is = ground arith;
      others = λ u n. ground (arith, ap (λ (a : ℕ → Slot FifoTask). a u) t);
      no_start = λ d h. ground arith;
      marks_are = λ c. ground (arith, k c);
    }

    blocked_lem :
        (s : Slot FifoTask)
        → f.alive_tasks m.pid ≡ s
        → Meets cpu_num f m.pid
            (next_phase msg_task_blocked (phase s))
            (consume_msg_task_blocked cpu_num f m)
    unfolding consume_msg_task_blocked next_phase
    blocked_lem absent e = (f, ground arith, same none (ground arith))
    blocked_lem null_entry e = absurd (ground (arith, v.filed m.pid))
    blocked_lem (live task) e =
        let s : Slot FifoTask = live (record task { state = blocked }) in
        let (f', run, (w, t, q, k)) =
          take_off-Inv cpu_num f m.pid task s v e (refl, refl) (ground (arith, v.filed m.pid)) in
        (_, rw (e, run, consume_msg_task_blocked), off task s f' e (refl, refl) w t q k)

    dead_lem :
        (s : Slot FifoTask)
        → f.alive_tasks m.pid ≡ s
        → Meets cpu_num f m.pid
            (next_phase msg_task_dead (phase s))
            (consume_msg_task_dead cpu_num f m)
    unfolding consume_msg_task_dead next_phase
    dead_lem absent e = (exit_failure, rw (e, consume_msg_task_dead))
    dead_lem null_entry e = absurd (ground (arith, v.filed m.pid))
    dead_lem (live task) e =
        let (f', run, (w, t, q, k)) =
          take_off-Inv cpu_num f m.pid task absent v e (refl, refl) tt in
        (_, rw (e, run, consume_msg_task_dead), off task absent f' e (refl, refl) w t q k)

    new_lem :
        m.pid ≢ 0
        → (s : Slot FifoTask) → f.alive_tasks m.pid ≡ s
        → Meets cpu_num f m.pid
            (next_phase msg_task_new (phase s))
            (consume_msg_task_new cpu_num f m)
    unfolding consume_msg_task_new next_phase
    new_lem n absent e = (
      put_back f m.pid (new_task m.pid),
      rw (e, consume_msg_task_new),
      enqueued (new_task m.pid) (ground arith) (refl, n),
    )
    new_lem n null_entry e = absurd (ground (arith, v.filed m.pid))
    new_lem n (live task) e = (exit_failure, rw (e, consume_msg_task_new))

    new_blocked_lem :
        m.pid ≢ 0
        → (s : Slot FifoTask) → f.alive_tasks m.pid ≡ s
        → Meets cpu_num f m.pid
            (next_phase msg_task_new_blocked (phase s))
            (consume_msg_task_new_blocked cpu_num f m)
    unfolding consume_msg_task_new_blocked next_phase next_rq
    new_blocked_lem n absent e = (
      record f { alive_tasks = insert f.alive_tasks m.pid (live (new_task m.pid)) },
      rw (e, consume_msg_task_new_blocked),
      record {
        good = record {
          once = λ u. ground (arith, v.once u);
          filed = λ u. ground (arith, v.filed u);
          seated = λ u c h. ground (arith, v.seated u c);
          alone = λ u x c h k. ground (arith, v.alone u x c);
        };
        phase_is = ground arith;
        queue_is = ground arith;
        others = λ u n. ground arith;
        no_start = λ d h. ground arith;
        marks_are = λ c. ground arith;
      },
    )
    new_blocked_lem n null_entry e = absurd (ground (arith, v.filed m.pid))
    new_blocked_lem n (live task) e = (exit_failure, rw (e, consume_msg_task_new_blocked))

    -- The assertion on the processor's mark never fails.
    preempt_cos_lem :
        (s : Slot FifoTask)
        → f.alive_tasks m.pid ≡ s
        → Meets cpu_num f m.pid (woken none (phase s)) (consume_msg_task_preempt_cos cpu_num f m)
    unfolding consume_msg_task_preempt_cos
    preempt_cos_lem absent e = (exit_failure, rw (e, consume_msg_task_preempt_cos))
    preempt_cos_lem null_entry e = absurd (ground (arith, v.filed m.pid))
    preempt_cos_lem (live task) e = elim (FifoRunState-cases task.state) [
      | inl q ↦ rw q (f, ground arith, same (some queued) (ground arith))
      | inr (inl r) ↦
          let (c, at, small, marked) = seat-lt cpu_num f m.pid task v e r in
          rw r (
            put_back f m.pid task,
            ground arith,
            enqueued task (ground arith) (ground (arith, v.filed m.pid)),
          )
      | inr (inr b) ↦ rw b (assert_failed, ground arith)
    ]

    -- A running task goes back to the queue, and its processor to CFS.
    taken :
        (task : FifoTask) (c : ℕ)
        → f.alive_tasks m.pid ≡ live task
        → task.state ≡ on_cpu
        → task.cpu_id ≡ some c
        → After cpu_num f m.pid
            (some queued, some nocos)
            (record (put_back f m.pid task) { cpu_states = write_cpu f.cpu_states c nocos })
    unfolding put_back
    taken task c e r at =
        let a = enqueued task (ground arith) (ground (arith, v.filed m.pid)) in
        record {
          good =
              write_cpu-Inv cpu_num (put_back f m.pid task) c nocos a.good
                (λ u h. ground (arith, v.alone u m.pid c));
          phase_is = a.phase_is;
          queue_is = a.queue_is;
          others = a.others;
          no_start = λ d h. ground arith;
          marks_are = λ d. ground arith;
        }

    preempt_lem :
        (s : Slot FifoTask)
        → f.alive_tasks m.pid ≡ s
        → Meets cpu_num f m.pid
            (woken (some nocos) (phase s))
            (consume_msg_task_preempt cpu_num f m)
    unfolding consume_msg_task_preempt set_cpu put_back
    preempt_lem absent e = (exit_failure, rw (e, consume_msg_task_preempt))
    preempt_lem null_entry e = absurd (ground (arith, v.filed m.pid))
    preempt_lem (live task) e = elim (FifoRunState-cases task.state) [
      | inl q ↦ rw q (f, ground arith, same (some queued) (ground arith))
      | inr (inl r) ↦
          let (c, at, small, marked) = seat-lt cpu_num f m.pid task v e r in
          rw r (
            record (put_back f m.pid task) { cpu_states = write_cpu f.cpu_states c nocos },
            ground arith,
            taken task c e r at,
          )
      | inr (inr b) ↦ rw b (assert_failed, ground arith)
    ]

    by_test :
        (b : Bool) (p q : Option Outcome) (r r' : Result Fifo)
        → Meets cpu_num f m.pid p r
        → Meets cpu_num f m.pid q r'
        → Meets cpu_num f m.pid (if b then p else q) (if b then r else r')
    by_test true p q r r' h k = h
    by_test false p q r r' h k = k

    -- With the scheduler's invariant, the FIFO handler of a message for a task with a number other
    -- than 0 faults exactly in the phases in which the abstract account refuses the message, and
    -- in every other phase ends in a state that keeps the invariant and has the phase, queue and
    -- processor states of that account, with all other tasks as they were.
    pub dispatch-Meets :
        m.pid ≢ 0
        → Meets cpu_num f m.pid
            (next_phase m.type (phase (f.alive_tasks m.pid)))
            (dispatch (fifo_policy cpu_num) f m)
    unfolding dispatch next_phase
    dispatch-Meets n =
        let s = f.alive_tasks m.pid in
        by_test (m.type == msg_task_runnable) _ _ _ _ (runnable_lem s refl) (
          by_test (m.type == msg_task_blocked) _ _ _ _ (blocked_lem s refl) (
            by_test (m.type == msg_task_new) _ _ _ _ (new_lem n s refl) (
              by_test (m.type == msg_task_dead) _ _ _ _ (dead_lem s refl) (
                by_test (m.type == msg_task_preempt) _ _ _ _ (preempt_lem s refl) (
                  by_test (m.type == msg_task_new_blocked) _ _ _ _ (new_blocked_lem n s refl) (
                    by_test (m.type == msg_task_cos_preempt) _ _ _ _ (preempt_cos_lem s refl)
                      (f, refl, same (phase s) refl)))))))
