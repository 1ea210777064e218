-- ===== src/Fifo/Leak.antt =====
-- Processors that are marked as COS while no task runs on them. `schedule` saves a processor's state
-- after it has overwritten it, so what it puts back is the new state.
use cos_userspace.Base.{
  ℕ, suc, ◌<◌, List, ◌≡◌, ◌≢◌, ◌≤◌, sym, ap, ◌∙◌, subst, ok, Returns, arith, Option-cases, inl, inr,
  Bool-cases, ◌==◌,
}
use cos_userspace.MessageQueue.{CosMsg, u32_mod}
use cos_userspace.MessageQueue.Pending.{IsValid, backlog, pending}
use cos_userspace.ShootArea.{shoot_area_size}
use cos_userspace.Lord.{Lord, dispatch}
use cos_userspace.Lord.Laws.{PolicyLaws, AllAccepted, consume_message-Good}
use cos_userspace.Lord.Turns.{Post, posted, TurnLaws, AllExpected, main_loop, main_loop-Holds}
use cos_userspace.Fifo.{Fifo, fifo_policy}
use cos_userspace.Fifo.Invariant.{Inv, seat}
use cos_userspace.Fifo.Phases.{phase, Outcome, next_phase, Meets, After}
use cos_userspace.Fifo.Handlers.{dispatch-Meets}
use cos_userspace.Fifo.Schedule.{ShootTask}
use cos_userspace.Fifo.Schedule.Assign.{Lost}
use cos_userspace.Fifo.Schedule.Answer.{Honest, Clean}
use cos_userspace.Fifo.Schedule.Round.{schedule-Scheduled}
use cos_userspace.Fifo.Main.{Accepted, dispatch-Inv, main_turn, Healthy, turn}

After-Lost :
    (cpu_num c : ℕ) (f f' : Fifo) (t : ℕ) (o : Outcome)
    → After cpu_num f t o f'
    → Lost f c
    → Lost f' c
After-Lost cpu_num c f f' t o a l = record {
  marked_cos = ground (arith, a.marks_are c, l.nobody t, l.marked_cos);
  nobody = λ u r. elim (Bool-cases (u == t)) [
    | inl same ↦ l.nobody t (a.no_start c (ground arith))
    | inr other ↦ l.nobody u (ap seat (sym (a.others u (ground arith))) ∙ r)
  ];
}

-- With the scheduler's invariant, a processor that is marked as COS while nothing runs on it stays
-- so after every message for a task with a number other than 0 whose handler ends without a fault.
pub dispatch-Lost :
    (cpu_num c : ℕ) (f f' : Fifo) (m : CosMsg)
    → Inv cpu_num f
    → m.pid ≢ 0
    → Lost f c
    → dispatch (fifo_policy cpu_num) f m ≡ ok f'
    → Lost f' c
dispatch-Lost cpu_num c f f' m v n l e =
    elim (Option-cases (next_phase m.type (phase (f.alive_tasks m.pid)))) [
      | inl refused ↦
          let (fault, run) =
            subst (λ q. Meets cpu_num f m.pid q (dispatch (fifo_policy cpu_num) f m)) refused
              (dispatch-Meets cpu_num f m v n) in
          absurd (ground arith)
      | inr (o, taken) ↦
          let (g, run, a) =
            subst (λ q. Meets cpu_num f m.pid q (dispatch (fifo_policy cpu_num) f m)) taken
              (dispatch-Meets cpu_num f m v n) in
          let same : g ≡ f' = ground arith in
          subst (λ h. Lost h c) same (After-Lost cpu_num c f g m.pid o a l)
    ]

module _ (cpu_num c : ℕ) where
  -- The handlers keep the invariant, and that the processor is lost.
  abbrev pub lost_laws : PolicyLaws (fifo_policy cpu_num)
  lost_laws = record {
    Good = λ f. Inv cpu_num f × Lost f c;
    Accepts = Accepted;
    keeps = λ f m g a.
        let (f', run, v) = dispatch-Inv cpu_num f m g.0 a in
        (f', run, (v, dispatch-Lost cpu_num c f f' m g.0 a.0 g.1 run));
  }

  module _ (shoot_task : ShootTask) where
    abbrev pub LostFor : Lord Fifo → Type 0
    LostFor l = Healthy cpu_num shoot_task l × Lost l.policy c

    module _ (kernel : Honest shoot_task) (fits : cpu_num ≤ shoot_area_size) where
      pub main_turn-Lost :
          (fuel : ℕ) (l : Lord Fifo)
          → backlog l.mq < fuel
          → LostFor l
          → AllAccepted (fifo_policy cpu_num) lost_laws l.lord_pid (pending l.mq) l.policy
          → Returns (main_turn cpu_num shoot_task fuel l) LostFor
      unfolding main_turn
      main_turn-Lost fuel l h w a =
          let (l1, run, d) =
            consume_message-Good (fifo_policy cpu_num) lost_laws fuel l w.0.ring h (w.0.good, w.1)
              a in
          let (l2, run', s) =
            schedule-Scheduled cpu_num shoot_task kernel fits l1 d.good.0
              (subst (Clean cpu_num) (sym d.same_sa) w.0.clean) in
          (
            l2,
            rw run run',
            (
              record {
                ring =
                    subst IsValid (sym (s.kept.2 ∙ d.mq_is))
                      (record { head_fits = w.0.ring.head_fits; tail_fits = w.0.ring.head_fits });
                good = s.good;
                clean = s.clean;
              },
              s.keeps_lost c d.good.1,
            ),
          )

      abbrev pub lost_turns : TurnLaws (turn cpu_num shoot_task)
      lost_turns = record {
        Holds = LostFor;
        Expects = λ p l.
            (p.head < u32_mod)
            × AllAccepted (fifo_policy cpu_num) lost_laws l.lord_pid (pending (posted p l).mq)
                l.policy;
        goes_on = λ p l w x.
            let l1 = posted p l in
            main_turn-Lost (suc (backlog l1.mq)) l1 (omega arith)
              (
                record {
                  ring = record { head_fits = x.0; tail_fits = w.0.ring.tail_fits };
                  good = w.0.good;
                  clean = w.0.clean;
                },
                w.1,
              )
              x.1;
      }

      -- With a kernel that keeps its contract `Honest`, at most as many processors as the page
      -- has, and a healthy lord with a processor that is marked as COS while nothing runs on it,
      -- whatever the kernel posts by each turn, if the waiting messages are all accepted one after
      -- the other, any number of turns of main's loop end without a fault, and the processor stays
      -- so.
      pub fifo_loop-Lost :
          (ps : List Post) (l : Lord Fifo)
          → LostFor l
          → AllExpected (turn cpu_num shoot_task) lost_turns ps l
          → Returns (main_loop (turn cpu_num shoot_task) ps l) LostFor
      fifo_loop-Lost ps l w x = main_loop-Holds (turn cpu_num shoot_task) lost_turns ps l w x
