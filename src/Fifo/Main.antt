-- ===== src/Fifo/Main.antt =====
-- The body of the `while` loop in `main` of scheduler/fifo/fifo_scheduler.cpp.
use cos_userspace.Base.{
  ℕ, suc, List, arith, ◌<◌, ◌≤◌, ◌≡◌, ◌≢◌, sym, ap, ◌∙◌, subst, none, Result, Returns, ◌>>=◌,
  Option-cases, inl, inr,
}
use cos_userspace.MessageQueue.{CosMsg, MessageQueue, u32_mod}
use cos_userspace.MessageQueue.Pending.{IsValid, backlog, pending}
use cos_userspace.ShootArea.{shoot_area_size}
use cos_userspace.Lord.{Lord, consume_message, dispatch}
use cos_userspace.Lord.Laws.{PolicyLaws, AllAccepted, consume_message-Good}
use cos_userspace.Lord.Turns.{Post, posted, TurnLaws, AllExpected, main_loop, main_loop-Holds}
use cos_userspace.Fifo.{Fifo, fifo_policy}
use cos_userspace.Fifo.Invariant.{Inv}
use cos_userspace.Fifo.Phases.{phase, next_phase, Meets}
use cos_userspace.Fifo.Handlers.{dispatch-Meets}
use cos_userspace.Fifo.Schedule.{ShootTask, schedule}
use cos_userspace.Fifo.Schedule.Answer.{Honest, Clean}
use cos_userspace.Fifo.Schedule.Round.{schedule-Scheduled}

-- The message is for a task with a number other than 0, in a phase in which it is taken.
abbrev pub Accepted : Fifo → CosMsg → Type 0
Accepted f m = (m.pid ≢ 0) × (next_phase m.type (phase (f.alive_tasks m.pid)) ≢ none)

module _ (cpu_num : ℕ) where
  pub dispatch-Inv :
      (f : Fifo) (m : CosMsg)
      → Inv cpu_num f
      → Accepted f m
      → Returns (dispatch (fifo_policy cpu_num) f m) (Inv cpu_num)
  dispatch-Inv f m v (n, taken) =
      elim (Option-cases (next_phase m.type (phase (f.alive_tasks m.pid)))) [
        | inl e ↦ absurd (taken e)
        | inr (p, e) ↦
            let (f', run, a) =
              subst (λ q. Meets cpu_num f m.pid q (dispatch (fifo_policy cpu_num) f m)) e
                (dispatch-Meets cpu_num f m v n) in
            (f', run, a.good)
      ]

  abbrev pub fifo_laws : PolicyLaws (fifo_policy cpu_num)
  fifo_laws = record { Good = Inv cpu_num; Accepts = Accepted; keeps = dispatch-Inv }

  module _ (shoot_task : ShootTask) where
    -- `lord->consume_message(); lord->schedule();`
    unfoldable pub main_turn : ℕ → Lord Fifo → Result (Lord Fifo)
    main_turn fuel l = consume_message (fifo_policy cpu_num) fuel l >>= schedule cpu_num shoot_task

    -- What holds between two turns.
    pub record Healthy (l : Lord Fifo) : Type 0 where
      pub ring : IsValid l.mq
      pub good : Inv cpu_num l.policy
      pub clean : Clean cpu_num l.sa

    -- The kernel posts, then main's loop makes a turn.
    abbrev pub turn : Post → Lord Fifo → Result (Lord Fifo)
    turn p l = let l1 = posted p l in main_turn (suc (backlog l1.mq)) l1

    module _ (kernel : Honest shoot_task) (fits : cpu_num ≤ shoot_area_size) where
      -- With a kernel that keeps its contract `Honest`, at most as many processors as the page
      -- has, more fuel than messages that wait, and a healthy lord whose waiting messages are all
      -- accepted one after the other, one turn of main's loop never faults, empties the ring and
      -- leaves a healthy lord.
      pub main_turn-Healthy :
          (fuel : ℕ) (l : Lord Fifo)
          → backlog l.mq < fuel
          → Healthy l
          → AllAccepted (fifo_policy cpu_num) fifo_laws l.lord_pid (pending l.mq) l.policy
          → Returns (main_turn fuel l) (λ l'. Healthy l' × (l'.mq.tail ≡ l.mq.head))
      unfolding main_turn
      main_turn-Healthy fuel l h w a =
          let (l1, run, d) =
            consume_message-Good (fifo_policy cpu_num) fifo_laws fuel l w.ring h w.good a in
          let (l2, run', s) =
            schedule-Scheduled cpu_num shoot_task kernel fits l1 d.good
              (subst (Clean cpu_num) (sym d.same_sa) w.clean) in
          (
            l2,
            rw run run',
            (
              record {
                ring =
                    subst IsValid (sym (s.kept.2 ∙ d.mq_is))
                      (record { head_fits = w.ring.head_fits; tail_fits = w.ring.head_fits });
                good = s.good;
                clean = s.clean;
              },
              ap (λ (q : MessageQueue). q.tail) (s.kept.2 ∙ d.mq_is),
            ),
          )

      abbrev pub fifo_turns : TurnLaws turn
      fifo_turns = record {
        Holds = Healthy;
        Expects = λ p l.
            (p.head < u32_mod)
            × AllAccepted (fifo_policy cpu_num) fifo_laws l.lord_pid (pending (posted p l).mq)
                l.policy;
        goes_on = λ p l w x.
            let l1 = posted p l in
            let (l', run, h) =
              main_turn-Healthy (suc (backlog l1.mq)) l1 (omega arith)
                (record {
                  ring = record { head_fits = x.0; tail_fits = w.ring.tail_fits };
                  good = w.good;
                  clean = w.clean;
                })
                x.1 in
            (l', run, h.0);
      }

      -- The same of any number of turns, whatever the kernel has posted by each of them.
      pub fifo_loop-Healthy :
          (ps : List Post) (l : Lord Fifo)
          → Healthy l
          → AllExpected turn fifo_turns ps l
          → Returns (main_loop turn ps l) Healthy
      fifo_loop-Healthy ps l w x = main_loop-Holds turn fifo_turns ps l w x
