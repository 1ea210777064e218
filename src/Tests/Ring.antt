-- ===== src/Tests/Ring.antt =====
-- The ring and the page.
use cos_userspace.Base.{ℕ, ◌≡◌, ◌≢◌, ◌+◌, ◌%◌, refl, List, [], ◌∷◌, arith, ok, get_elem?}
use cos_userspace.MessageQueue.{MessageQueue, u32_mod, slot, empty, consume_msg}
use cos_userspace.MessageQueue.Pending.{backlog, pending, consume_msg-pending}
use cos_userspace.MessageQueue.Wrap.{slots_apart, pending_clash}
use cos_userspace.ShootArea.{CosShootArg, ShootArea, commit_shoot_message, check_shoot_state}
use cos_userspace.ShootArea.Commit.{Committed, commit_shoot_message-Committed}
use cos_userspace.ShootArea.Check.{failed_from, cleared_from, check_shoot_state_lem}
use cos_userspace.Tests.Samples.{one_message, blank_area, new_seven}

consume_msg-pending_example :
    pending one_message ≡ (consume_msg one_message).0 ∷ pending (consume_msg one_message).1
unfolding empty
consume_msg-pending_example = consume_msg-pending one_message (omega arith) refl

consume_one : (consume_msg one_message).0 ≡ new_seven
unfolding consume_msg
consume_one = refl

slots_apart_example : slot ((3 + 1) % u32_mod) ≢ slot ((3 + 2) % u32_mod)
slots_apart_example = slots_apart 3 1 2 (omega arith) (omega arith) (omega arith)

-- A ring in which the kernel has posted 40 messages across the wrap.
abbrev wrapped : MessageQueue
wrapped = record {
  head = 39;
  tail = 4294967295;
  slots = λ i. record { pid = i; type = 1; seq = 0 };
}

pending_clash_example : get_elem? (pending wrapped) 0 ≡ get_elem? (pending wrapped) 32
unfolding backlog
pending_clash_example = pending_clash wrapped (omega arith) (omega arith) (omega arith)

abbrev two_args : List (ℕ × CosShootArg)
two_args = (0, record { pid = 7; info = 0 }) ∷ (3, record { pid = 9; info = 0 }) ∷ []

commit_shoot_message-Committed_example :
    Committed two_args 70000 blank_area (commit_shoot_message two_args 70000 blank_area)
commit_shoot_message-Committed_example = commit_shoot_message-Committed two_args 70000 blank_area

-- Processor 1 answers with an error.
abbrev one_bad : ShootArea
one_bad = record { seq = 0; area = λ i. record { pid = i; info = i % 2 } }

check_shoot_state_lem_example :
    check_shoot_state 3 one_bad
    ≡ ok (failed_from 3 0 one_bad.area, record one_bad { area = cleared_from 3 0 one_bad.area })
check_shoot_state_lem_example = check_shoot_state_lem 3 one_bad (omega arith)

failed_from_one_bad : failed_from 3 0 one_bad.area ≡ (1, 1) ∷ []
unfolding failed_from
failed_from_one_bad = refl
