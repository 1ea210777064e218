-- ===== src/Rocksdb/Database.antt =====
-- `Database` of workload/rocksdb.cpp. RocksDB is a parameter: a record of the calls that the class
-- makes. Opening the database is left out, and so is the text that `RangeQuery` puts together and
-- that nobody reads. A failed read is a missing key.
pub mod Contents
pub mod Queries
pub mod Filling
use cos_userspace.Base.{
  ℕ, zero, suc, ◌+◌, ◌%◌, ◌^◌, Bool, true, false, Option, none, some, List, [], ◌∷◌, Result, ok,
  err, ◌>>=◌, ◌>>◌, require, assert_failed, ◌==◌, if◌then◌else◌,
}
use cos_userspace.Rocksdb.Keys.{key, value}

-- `kNumEntries`
abbrev pub num_entries : ℕ
num_entries = 1000000

-- The calls of RocksDB, on a database in `S` and iterators in `It`.
pub record Store (S It : Type 0) : Type 0 where
  pub put : List ℕ → List ℕ → S → Bool × S
  pub read : List ℕ → S → Option (List ℕ)
  pub seek : List ℕ → S → It
  pub is_valid : It → Bool
  pub it_value : It → List ℕ
  pub it_next : It → It

-- `==` on texts.
unfoldable pub same_text : List ℕ → List ℕ → Bool
same_text [] [] = true
same_text [] (y ∷ ys) = false
same_text (x ∷ xs) [] = false
same_text (x ∷ xs) (y ∷ ys) = let rest = same_text xs ys in if x == y then rest else false

module _ {S It : Type 0} (db : Store S It) where
  -- The rounds of the loop of `Fill` that are left, from `i` on.
  unfoldable pub fill_loop : ℕ → ℕ → S → Result (Bool × S)
  fill_loop zero i s = ok (true, s)
  fill_loop (suc n) i s = key i >>= λ k. value i >>= λ v. elim (db.put k v s).0 [
    | true ↦ fill_loop n (i + 1) (db.put k v s).1
    | false ↦ ok (false, (db.put k v s).1)
  ]

  unfoldable pub fill : S → Result (Bool × S)
  fill s = fill_loop num_entries 0 s

  -- `Database::Get`
  unfoldable pub get_entry : ℕ → S → Result Bool
  get_entry entry s = key entry >>= λ k. elim (db.read k s) [
    | none ↦ ok false
    | some found ↦ value entry >>= λ v. require (same_text found v) assert_failed >> ok true
  ]

  -- The loop of `PrepopulateCache`.
  unfoldable pub prepopulate_loop : ℕ → ℕ → S → Result (Unit {0})
  prepopulate_loop zero i s = ok tt
  prepopulate_loop (suc n) i s =
      get_entry i s >>= λ found. require found assert_failed >> prepopulate_loop n (i + 1) s

  unfoldable pub prepopulate_cache : S → Result (Unit {0})
  prepopulate_cache s = prepopulate_loop num_entries 0 s

  -- The constructor, behind `OpenDatabase`.
  unfoldable pub set_up : S → Result S
  set_up s = do
    filled ← fill s
    require filled.0 assert_failed
    prepopulate_cache filled.1
    ok filled.1

  -- The rounds of the loop of `RangeQuery` that are left, from `i` on.
  unfoldable pub range_loop : ℕ → ℕ → ℕ → It → Result Bool
  range_loop start_entry zero i it = ok true
  range_loop start_entry (suc n) i it = elim (db.is_valid it) [
    | false ↦ ok false
    | true ↦ value ((start_entry + i) % 2 ^ 32) >>= λ v.
        require (same_text (db.it_value it) v) assert_failed
        >> range_loop start_entry n (i + 1) (db.it_next it)
  ]

  unfoldable pub range_query : ℕ → ℕ → S → Result Bool
  range_query start_entry range_size s =
      key start_entry >>= λ k. range_loop start_entry range_size 0 (db.seek k s)
