-- ===== src/Epistle.antt =====
-- The shared table of lib/epistle.h: open addressing with linear probing over a page. Both programs
-- that use it store `u_int32_t` values, so an entry has 8 bytes and the page 512 entries. Keys are
-- thread numbers: positive `int32_t` values, for which `key % capacity_` is the remainder. This
-- file has one thread's view, in which the compare-and-swap of `add` finds what it has just read.
-- The constructor (`open`, `mmap`, `ftruncate`) is input and output and is left out; it leaves a
-- page of zeros.
pub mod Probe
pub mod Laws
pub mod Racing
use cos_userspace.Base.{
  ℕ, zero, suc, ◌+◌, ◌/◌, ◌%◌, ◌≡◌, Result, ok, err, assert_failed, out_of_fuel, not, require,
  ◌>>=◌, ◌>>◌, ◌==◌, if◌then◌else◌,
}

abbrev pub epistle_thread_runnable : ℕ
epistle_thread_runnable = 0

abbrev pub epistle_thread_idle : ℕ
epistle_thread_idle = 1

abbrev pub hash_map_size : ℕ
hash_map_size = 4096

-- `struct Entry<u_int32_t>`
pub record Entry : Type 0 where
  pub key : ℕ
  pub value : ℕ

-- `HASH_MAP_SIZE / sizeof(Entry<T>)`
abbrev pub capacity : ℕ
capacity = hash_map_size / 8

-- The page; it is read and written at indices below `capacity`.
abbrev pub Table : Type 0
Table = ℕ → Entry

-- After `memset`.
abbrev pub cleared : Table
cleared _ = record { key = 0; value = 0 }

abbrev pub hash : ℕ → ℕ
hash key = key % capacity

abbrev pub store : Table → ℕ → Entry → Table
store t idx e i = if i == idx then e else t i

-- The loop of `add`, with fuel for its rounds. An empty entry takes the key, and then the value.
unfoldable pub add_loop : ℕ → ℕ → ℕ → ℕ → Table → Result Table
add_loop zero idx key value t = err out_of_fuel
add_loop (suc fuel) idx key value t =
    let next = add_loop fuel ((idx + 1) % capacity) key value t in
    if (t idx).key == 0
    then ok (store t idx (record { key = key; value = value }))
    else if (t idx).key == key
    then ok (store t idx (record { key = (t idx).key; value = value }))
    else next

-- The loop of `get`, with fuel; `return {}` is 0.
unfoldable pub get_loop : ℕ → ℕ → ℕ → Table → Result ℕ
get_loop zero idx key t = err out_of_fuel
get_loop (suc fuel) idx key t =
    let next = get_loop fuel ((idx + 1) % capacity) key t in
    if (t idx).key == 0 then ok 0 else if (t idx).key == key then ok (t idx).value else next

unfoldable pub add : ℕ → ℕ → ℕ → Table → Result Table
add fuel key value t =
    require (not (key == 0)) assert_failed >> add_loop fuel (hash key) key value t

unfoldable pub get : ℕ → ℕ → Table → Result ℕ
get fuel key t = require (not (key == 0)) assert_failed >> get_loop fuel (hash key) key t
