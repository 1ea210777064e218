-- ===== src/Shinjuku/Main.antt =====
-- The body of the `while` loop in `main` of scheduler/shinjuku/shinjuku_scheduler.cpp.
use cos_userspace.Base.{
  ℕ, suc, ◌<◌, ◌≤◌, ◌≡◌, refl, sym, ap, ◌∙◌, subst, inl, Result, Returns, ◌>>=◌, arith, length,
  List,
}
use cos_userspace.MessageQueue.{MessageQueue, u32_mod}
use cos_userspace.MessageQueue.Pending.{IsValid, backlog, pending}
use cos_userspace.ShootArea.{shoot_area_size}
use cos_userspace.TaskMap.{Slot, absent, null_entry, live}
use cos_userspace.Lord.{Lord, consume_message}
use cos_userspace.Lord.Laws.{PolicyLaws, AllAccepted, consume_message-Good}
use cos_userspace.Lord.Turns.{Post, posted, TurnLaws, AllExpected, main_loop, main_loop-Holds}
use cos_userspace.Epistle.{Table, capacity}
use cos_userspace.Epistle.Laws.{Reaches, Reaches-of_stop}
use cos_userspace.Fifo.Schedule.{ShootTask}
use cos_userspace.Fifo.Schedule.Answer.{Honest, Clean}
use cos_userspace.Shinjuku.{on_cpu, ShinjukuTask, Shinjuku, shinjuku_policy}
use cos_userspace.Shinjuku.Invariant.{Inv}
use cos_userspace.Shinjuku.Schedule.{schedule}
use cos_userspace.Shinjuku.Schedule.Plan.{Runs}
use cos_userspace.Shinjuku.Schedule.Sort.{Coherent}
use cos_userspace.Shinjuku.Schedule.Round.{schedule-Rounded}
use cos_userspace.Shinjuku.Marks.{Marked, Accepted, dispatch-Marked, Rounded-Marked}

-- An entry of the page is free.
abbrev pub HasRoom : Table → Type 0
HasRoom t = (i : ℕ) × (i < capacity) × ((t i).key ≡ 0)

pub HasRoom-Reaches : (t : Table) → HasRoom t → (key : ℕ) → Reaches t key
HasRoom-Reaches t (i, small, free) key = Reaches-of_stop t key i small (inl free)

abbrev pub on_page : Table → Lord Shinjuku → Lord Shinjuku
on_page page l = record l { policy = record l.policy { epistle = page } }

running_task :
    (f : Shinjuku) (c p : ℕ)
    → Runs f c p
    → (task : ShinjukuTask) × (f.alive_tasks p ≡ live task) × (task.state ≡ on_cpu)
running_task f c p r = go (f.alive_tasks p) refl
  where
    go :
        (s : Slot ShinjukuTask)
        → f.alive_tasks p ≡ s
        → (task : ShinjukuTask) × (s ≡ live task) × (task.state ≡ on_cpu)
    go absent e = absurd (ground (arith, r, e))
    go null_entry e = absurd (ground (arith, r, e))
    go (live task) e = (task, refl, ground (arith, r, e))

pub Marked-Coherent : (f : Shinjuku) → Marked f → HasRoom f.epistle → Coherent f
Marked-Coherent f w room c e =
    let (task, a, o) = running_task f c (f.cpu_states c).pid (w c e) in
    (task, a, o, HasRoom-Reaches f.epistle room task.pid)

-- What is in the pages and on the clock when a turn starts.
pub record Event : Type 0 where
  pub post : Post
  pub page : Table
  pub now : ℕ

module _ (cpu_num : ℕ) where
  abbrev pub shinjuku_laws : PolicyLaws (shinjuku_policy cpu_num)
  shinjuku_laws = record {
    Good = λ f. Inv cpu_num f × Marked f;
    Accepts = Accepted;
    keeps = λ f m g a. dispatch-Marked cpu_num f m g.0 g.1 a;
  }

  module _ (shoot_task : ShootTask) where
    -- `lord->consume_message(); lord->schedule();` with the clock's reading and the page as they
    -- are when `schedule` is called. The fuel of the loop that chooses is one more than the queue.
    unfoldable pub shinjuku_turn : ℕ → Table → ℕ → Lord Shinjuku → Result (Lord Shinjuku)
    shinjuku_turn now page fuel l = consume_message (shinjuku_policy cpu_num) fuel l >>= λ l1.
        schedule cpu_num shoot_task now (suc (length l1.policy.shinjuku_rq)) (on_page page l1)

    -- What holds between two turns.
    pub record Healthy (l : Lord Shinjuku) : Type 0 where
      pub ring : IsValid l.mq
      pub good : Inv cpu_num l.policy
      pub marks : Marked l.policy
      pub clean : Clean cpu_num l.sa

    abbrev pub turn : Event → Lord Shinjuku → Result (Lord Shinjuku)
    turn e l = let l1 = posted e.post l in shinjuku_turn e.now e.page (suc (backlog l1.mq)) l1

    module _ (kernel : Honest shoot_task) (fits : cpu_num ≤ shoot_area_size)
        (three : 3 ≤ cpu_num) where
      -- One turn, with what it does to the ring.
      pub shinjuku_turn-Healthy :
          (now : ℕ) (page : Table) (fuel : ℕ) (l : Lord Shinjuku)
          → HasRoom page
          → backlog l.mq < fuel
          → Healthy l
          → AllAccepted (shinjuku_policy cpu_num) shinjuku_laws l.lord_pid (pending l.mq) l.policy
          → Returns (shinjuku_turn now page fuel l) (λ l'. Healthy l' × (l'.mq.tail ≡ l.mq.head))
      unfolding shinjuku_turn
      shinjuku_turn-Healthy now page fuel l room h w a =
          let (l1, run, d) =
            consume_message-Good (shinjuku_policy cpu_num) shinjuku_laws fuel l w.ring h
              (w.good, w.marks) a in
          let (l2, run', r) =
            schedule-Rounded cpu_num shoot_task now kernel (suc (length l1.policy.shinjuku_rq))
              (on_page page l1) three fits
              (record { once = d.good.0.once; filed = d.good.0.filed; seated = d.good.0.seated })
              (subst (Clean cpu_num) (sym d.same_sa) w.clean)
              (Marked-Coherent (on_page page l1).policy d.good.1 room)
              (λ t p. HasRoom-Reaches page room t) (omega arith) in
          (
            l2,
            rw run run',
            (
              record {
                ring =
                    subst IsValid (sym (r.kept.2 ∙ d.mq_is))
                      (record { head_fits = w.ring.head_fits; tail_fits = w.ring.head_fits });
                good = r.good;
                marks = Rounded-Marked cpu_num shoot_task now (on_page page l1) l2 r d.good.1;
                clean = r.clean;
              },
              ap (λ (q : MessageQueue). q.tail) (r.kept.2 ∙ d.mq_is),
            ),
          )

      abbrev pub shinjuku_turns : TurnLaws turn
      shinjuku_turns = record {
        Holds = Healthy;
        Expects = λ e l.
            (e.post.head < u32_mod)
            × HasRoom e.page
            × AllAccepted (shinjuku_policy cpu_num) shinjuku_laws l.lord_pid
                (pending (posted e.post l).mq) l.policy;
        goes_on = λ e l w x.
            let l1 = posted e.post l in
            let (l', run, h) =
              shinjuku_turn-Healthy e.now e.page (suc (backlog l1.mq)) l1 x.1 (omega arith)
                (record {
                  ring = record { head_fits = x.0; tail_fits = w.ring.tail_fits };
                  good = w.good;
                  marks = w.marks;
                  clean = w.clean;
                })
                x.2 in
            (l', run, h.0);
      }

      -- With a kernel that keeps its contract `Honest`, between 3 and 511 processors, and a
      -- healthy lord, whatever the kernel has posted and the workloads have put into the epistle
      -- by each turn, if the page has a free entry and the waiting messages are all accepted one
      -- after the other, any number of turns of main's loop end without a fault, an assertion of
      -- `schedule` included, in a healthy lord.
      pub shinjuku_loop-Healthy :
          (es : List Event) (l : Lord Shinjuku)
          → Healthy l
          → AllExpected turn shinjuku_turns es l
          → Returns (main_loop turn es l) Healthy
      shinjuku_loop-Healthy es l w x = main_loop-Holds turn shinjuku_turns es l w x
