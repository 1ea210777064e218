-- ===== src/Epistle/Racing.antt =====
-- `Epistle::add` of lib/epistle.h as many threads run it at a time, each with a key and a value of
-- its own: one step is one access of a thread to the table. Behind a compare-and-swap that fails the
-- loop goes on to the next entry, as its `continue` does.
pub mod Kept
use cos_userspace.Base.{ℕ, ◌+◌, ◌%◌, ◌==◌, if◌then◌else◌}
use cos_userspace.Epistle.{capacity, Entry, Table, hash, store}

-- What a thread does next: look whether the entry is empty, swap its key in, compare the keys,
-- write the value; or it has returned.
pub data Pc : Type 0 where
  look swap compare write : ℕ → Pc
  returned : Pc

-- What a thread adds.
pub record Job : Type 0 where
  pub key : ℕ
  pub value : ℕ

pub record State : Type 0 where
  pub table : Table
  pub pcs : ℕ → Pc

unfoldable pub next_pc : Job → Table → Pc → Pc
next_pc job t (look idx) = if (t idx).key == 0 then swap idx else compare idx
next_pc job t (swap idx) = if (t idx).key == 0 then compare idx else look ((idx + 1) % capacity)
next_pc job t (compare idx) =
    if (t idx).key == job.key then write idx else look ((idx + 1) % capacity)
next_pc job t (write idx) = returned
next_pc job t returned = returned

unfoldable pub next_table : Job → Table → Pc → Table
next_table job t (look idx) = t
next_table job t (swap idx) =
    if (t idx).key == 0 then store t idx (record (t idx) { key = job.key }) else t
next_table job t (compare idx) = t
next_table job t (write idx) = store t idx (record (t idx) { value = job.value })
next_table job t returned = t

module _ (jobs : ℕ → Job) where
  abbrev pub begin : Table → State
  begin t = record { table = t; pcs = λ i. look (hash (jobs i).key) }

  abbrev pub step : ℕ → State → State
  step i s = record {
    table = next_table (jobs i) s.table (s.pcs i);
    pcs = λ j. if j == i then next_pc (jobs i) s.table (s.pcs i) else s.pcs j;
  }

  -- The states that come up from the table `t`, whichever thread is next.
  pub data Reach (t : Table) : State → Type 0 where
    begun : Reach t (begin t)
    next : {s : State} → Reach t s → (i : ℕ) → Reach t (step i s)
