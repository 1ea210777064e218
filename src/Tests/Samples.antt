-- ===== src/Tests/Samples.antt =====
-- A machine with four processors whose lord runs on number 2, with one task, number 7, queued; two
-- kernels; and a ring with one message.
use cos_userspace.Base.{refl, arith}
use cos_userspace.MessageQueue.{CosMsg, MessageQueue}
use cos_userspace.ShootArea.{ShootArea}
use cos_userspace.Lord.{Lord}
use cos_userspace.Fifo.{Fifo, init, new_task, put_back}
use cos_userspace.Fifo.Invariant.{Inv, init-Inv, put_back-Inv}
use cos_userspace.Fifo.Schedule.{ShootTask}
use cos_userspace.Fifo.Schedule.Answer.{Honest, Clean}

abbrev pub blank_area : ShootArea
blank_area = record { seq = 0; area = λ _. record { pid = 0; info = 0 } }

abbrev pub new_seven : CosMsg
new_seven = record { pid = 7; type = 3; seq = 70000 }

abbrev pub one_message : MessageQueue
one_message = record { head = 1; tail = 0; slots = λ _. new_seven }

-- The call succeeds and reports nothing.
abbrev pub willing : ShootTask
willing mask sa = (0, sa)

-- The call fails.
abbrev pub refusing : ShootTask
refusing mask sa = (1, sa)

pub willing-Honest : Honest willing
willing-Honest = record {
  keeps_pid = λ mask sa i. refl;
  only_masked = λ mask sa i h. refl;
  silent_failure = λ mask sa i h. refl;
}

pub refusing-Honest : Honest refusing
refusing-Honest = record {
  keeps_pid = λ mask sa i. refl;
  only_masked = λ mask sa i h. refl;
  silent_failure = λ mask sa i h. refl;
}

abbrev pub waiting : Fifo
waiting = put_back init 7 (new_task 7)

pub waiting-Inv : Inv 4 waiting
waiting-Inv = put_back-Inv 4 init 7 (new_task 7) (init-Inv 4) refl (refl, omega arith)

abbrev pub lord_of : Fifo → MessageQueue → Lord Fifo
lord_of f q = record { lord_cpu = 2; lord_pid = 1000; seq = 0; mq = q; sa = blank_area; policy = f }

pub blank_area-Clean : Clean 4 blank_area
blank_area-Clean i h = refl
