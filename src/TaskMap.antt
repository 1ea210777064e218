-- ===== src/TaskMap.antt =====
-- `std::unordered_map<u_int32_t, Task*> alive_tasks_` of both schedulers. The map owns its tasks,
-- and no pointer to a task outlives the handler that reads it, so a slot holds the task itself.
-- Only `count`, `[]` and `erase` are used, so the map is a function of the key.
use cos_userspace.Base.{ℕ, Bool, true, false, Result, ok, err, null_pointer, ◌==◌, if◌then◌else◌}

-- No entry, an entry with a null pointer, or an entry with a task.
pub data Slot (T : Type 0) : Type 0 where
  absent null_entry : Slot T
  live : T → Slot T

abbrev pub TaskMap : Type 0 → Type 0
TaskMap T = ℕ → Slot T

module _ {T : Type 0} where
  abbrev pub insert : TaskMap T → ℕ → Slot T → TaskMap T
  insert m tid s t = if t == tid then s else m t

  -- `*alive_tasks_[tid]`. A missing key gets a null pointer first, so it is a null pointer too.
  abbrev pub deref : Slot T → Result T
  deref absent = err null_pointer
  deref null_entry = err null_pointer
  deref (live task) = ok task

  -- `alive_tasks_.count(tid)`
  abbrev pub is_there : Slot T → Bool
  is_there absent = false
  is_there null_entry = true
  is_there (live task) = true
