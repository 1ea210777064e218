-- ===== src/Rocksdb/Database/Contents.antt =====
-- The contents of the database, and what RocksDB is relied on for.
use cos_userspace.Base.{
  ℕ, ◌^◌, ◌<◌, ◌≡◌, ◌≢◌, refl, true, false, none, some, List, [], ◌∷◌, ok, arith, ltb, Returns,
}
use cos_userspace.Rocksdb.Keys.{key, value}
use cos_userspace.Rocksdb.Keys.Order.{before, to_string-IsNumeral, before-key}
use cos_userspace.Rocksdb.Database.{Store, same_text}

abbrev pub Text : Type 0
Text = List ℕ

module _ {S It : Type 0} (db : Store S It) where
  -- RocksDB's documentation of `Put` and `Get`: what was put under a key last is read from it.
  pub record Keeps : Type 0 where
    pub read_put :
        (k v : Text) (s : S) → (db.put k v s).0 ≡ true → db.read k (db.put k v s).1 ≡ some v
    pub read_other : (k k' v : Text) (s : S) → k' ≢ k → db.read k' (db.put k v s).1 ≡ db.read k' s

  -- Its documentation of iterators, with `StandsAt s it k` for an iterator that stands at the key `k` and
  -- `Past s it` for one that stands behind the last key: `Seek` goes to the first key that is not
  -- before its target, and `Next` to the first key after the present one.
  pub record Walks : Type 1 where
    pub StandsAt : S → It → Text → Type 0
    pub Past : S → It → Type 0
    pub at_valid : (s : S) (it : It) (k : Text) → StandsAt s it k → db.is_valid it ≡ true
    pub at_value :
        (s : S) (it : It) (k : Text) → StandsAt s it k → db.read k s ≡ some (db.it_value it)
    pub past_valid : (s : S) (it : It) → Past s it → db.is_valid it ≡ false
    pub seek_at : (s : S) (k : Text) → db.read k s ≢ none → StandsAt s (db.seek k s) k
    pub seek_past :
        (s : S) (k : Text)
        → ((k' : Text) → db.read k' s ≢ none → before k' k ≡ true)
        → Past s (db.seek k s)
    pub next_at :
        (s : S) (it : It) (k k' : Text)
        → StandsAt s it k
        → db.read k' s ≢ none
        → before k k' ≡ true
        → ((k'' : Text) → db.read k'' s ≢ none → before k k'' ≡ true → before k'' k' ≡ false)
        → StandsAt s (db.it_next it) k'
    pub next_past :
        (s : S) (it : It) (k : Text)
        → StandsAt s it k
        → ((k' : Text) → db.read k' s ≢ none → before k k' ≡ false)
        → Past s (db.it_next it)

  -- The database holds the entries below `m`, and nothing but entries below `n`.
  pub record Filled (m n : ℕ) (s : S) : Type 0 where
    pub small : n < 2 ^ 32
    pub holds :
        (i : ℕ) → i < m → Returns (key i) (λ k. Returns (value i) (λ v. db.read k s ≡ some v))
    pub nothing_else : (k : Text) → db.read k s ≢ none → (i : ℕ) × (i < n) × (key i ≡ ok k)

pub same_text_refl : (xs : Text) → same_text xs xs ≡ true
unfolding same_text
same_text_refl [] = refl
same_text_refl (x ∷ xs) = ground (arith, same_text_refl xs)

-- The key of an entry.
pub key_of : (i : ℕ) → i < 2 ^ 32 → (k : Text) × (key i ≡ ok k)
unfolding key
key_of i h = let (s, run, v) = to_string-IsNumeral i h in (b'k' ∷ b'e' ∷ b'y' ∷ s, rw run refl)

pub before_keys :
    (i j : ℕ) (k k' : Text)
    → i < 2 ^ 32
    → j < 2 ^ 32
    → key i ≡ ok k
    → key j ≡ ok k'
    → before k k' ≡ ltb i j
before_keys i j k k' h h' e e' =
    let (k1, run, (k2, run', order)) = before-key i j h h' in
    let same : k1 ≡ k = cc in let same' : k2 ≡ k' = cc in rw (← same, ← same') order

pub key_inj : (i j : ℕ) (k : Text) → i < 2 ^ 32 → j < 2 ^ 32 → key i ≡ ok k → key j ≡ ok k → i ≡ j
key_inj i j k h h' e e' =
    ground (arith, before_keys i j k k h h' e e', before_keys j i k k h' h e' e)
