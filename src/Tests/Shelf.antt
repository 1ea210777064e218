-- ===== src/Tests/Shelf.antt =====
-- Two databases: one that is a list of what was put, and one that holds the entries below a bound.
use cos_userspace.Base.{
  ℕ, ◌+◌, ◌^◌, ◌<◌, ◌≤◌, ◌≡◌, ◌≢◌, refl, ap, ◌∙◌, true, false, Option, none, some, List, [], ◌∷◌,
  Result, ok, err, arith, ltb, ◌&&◌, if◌then◌else◌, drop, Bool-cases, inl, inr, Option-cases,
}
use cos_userspace.Rocksdb.Keys.{key, value}
use cos_userspace.Rocksdb.Keys.Order.{number, before, to_string-IsNumeral}
use cos_userspace.Rocksdb.Database.{Store, same_text}
use cos_userspace.Rocksdb.Database.Contents.{
  Text, Keeps, Walks, Filled, same_text_refl, key_of, before_keys,
}
use cos_userspace.Rocksdb.Database.Filling.{same_text-eq, value_of}

unfoldable pub find : Text → List (Text × Text) → Option Text
find k [] = none
find k ((k', v) ∷ s) = if same_text k k' then some v else find k s

abbrev pub listed : Store (List (Text × Text)) (Unit {0})
listed = record {
  put = λ k v s. (true, (k, v) ∷ s);
  read = find;
  seek = λ k s. tt;
  is_valid = λ it. false;
  it_value = λ it. [];
  it_next = λ it. it;
}

pub listed-Keeps : Keeps listed
unfolding find
listed-Keeps = record {
  read_put = λ k v s e. ground (arith, same_text_refl k);
  read_other = λ k k' v s n. ground (arith, n, same_text-eq k' k);
}

pub listed-Filled : Filled listed 0 1000000 []
unfolding find
listed-Filled = record {
  small = omega arith;
  holds = λ i h. absurd (omega arith);
  nothing_else = λ k h. absurd (h refl);
}

-- The entry whose key it would be.
abbrev entry_of : Text → ℕ
entry_of k = number 0 (drop 3 k)

module _ (n : ℕ) where
  -- What is read under `k` if entry `i` has the key `r`.
  unfoldable pub shelf_under : Result Text → ℕ → Text → Option Text
  shelf_under (err e) i k = none
  shelf_under (ok k') i k =
      if same_text k' k && ltb i n then (elim (value i) [ ok v ↦ some v | err e ↦ none ]) else none

  abbrev pub shelf_value : ℕ → Text → Option Text
  shelf_value i k = shelf_under (key i) i k

  -- An iterator is the number of the entry at which it stands.
  abbrev pub shelf : Store (Unit {0}) ℕ
  shelf = record {
    put = λ k v s. (false, s);
    read = λ k s. shelf_value (entry_of k) k;
    seek = λ k s. elim (shelf_value (entry_of k) k) [ some v ↦ entry_of k | none ↦ n ];
    is_valid = λ it. ltb it n;
    it_value = λ it. elim (value it) [ ok v ↦ v | err e ↦ [] ];
    it_next = λ it. it + 1;
  }

  entry_of-key : (i : ℕ) (k : Text) → i < 2 ^ 32 → key i ≡ ok k → entry_of k ≡ i
  unfolding key drop
  entry_of-key i k h e =
      let (s, run, v) = to_string-IsNumeral i h in
      let same : b'k' ∷ b'e' ∷ b'y' ∷ s ≡ k = ground (arith, run, e) in rw (← same) v.reads

  shelf_value-key :
      (i : ℕ) (k v : Text) → i < n → key i ≡ ok k → value i ≡ ok v → shelf_value i k ≡ some v
  unfolding shelf_under
  shelf_value-key i k v lt e e' =
      let inside : ltb i n ≡ true = ground (arith, lt) in
      rw (e, same_text_refl k, inside, e', shelf_under) refl

  shelf_under-some :
      (r : Result Text) (i : ℕ) (k : Text) → shelf_under r i k ≢ none → (i < n) × (r ≡ ok k)
  unfolding shelf_under
  shelf_under-some (err e) i k h = absurd (h refl)
  shelf_under-some (ok k') i k h = elim (Bool-cases (same_text k' k)) [
    | inr differ ↦ absurd (h (rw (differ, shelf_under) refl))
    | inl same ↦ elim (Bool-cases (ltb i n)) [
      | inl inside ↦ (ground arith, ap ok (same_text-eq k' k same))
      | inr outside ↦ absurd (h (rw (same, outside, shelf_under) refl))
    ]
  ]

  shelf_value-some : (i : ℕ) (k : Text) → shelf_value i k ≢ none → (i < n) × (key i ≡ ok k)
  shelf_value-some i k h = shelf_under-some (key i) i k h

  module _ (small : n < 2 ^ 32) where
    shelf_read-key :
        (i : ℕ) (k v : Text)
        → i < n
        → key i ≡ ok k
        → value i ≡ ok v
        → shelf_value (entry_of k) k ≡ some v
    shelf_read-key i k v lt e e' =
        ap (λ j. shelf_value j k) (entry_of-key i k (omega (arith, lt, small)) e)
        ∙ shelf_value-key i k v lt e e'

    pub shelf-Filled : Filled shelf n n tt
    shelf-Filled = record {
      small = small;
      holds = λ i lt.
          let (k, e) = key_of i (omega (arith, lt, small)) in
          let (v, e') = value_of i (omega (arith, lt, small)) in
          (k, e, (v, e', shelf_read-key i k v lt e e'));
      nothing_else = λ k h. (
        entry_of k,
        (shelf_value-some (entry_of k) k h).0,
        (shelf_value-some (entry_of k) k h).1,
      );
    }

    shelf_held : (i : ℕ) → i < n → (k : Text) × (key i ≡ ok k) × (shelf_value (entry_of k) k ≢ none)
    shelf_held i lt =
        let (k, e) = key_of i (omega (arith, lt, small)) in
        let (v, e') = value_of i (omega (arith, lt, small)) in
        (k, e, rw (shelf_read-key i k v lt e e') (cc))

    order_of :
        (i j : ℕ) (k k' : Text)
        → i < n
        → j < n
        → key i ≡ ok k
        → key j ≡ ok k'
        → before k k' ≡ ltb i j
    order_of i j k k' lt lt' =
        before_keys i j k k' (omega (arith, lt, small)) (omega (arith, lt', small))

    -- An entry of the shelf with its key, and the next one behind it.
    StandsAt : Unit {0} → ℕ → Text → Type 0
    StandsAt s it k = (it < n) × (key it ≡ ok k)

    step_to :
        (it : ℕ) (k k' : Text)
        → StandsAt tt it k
        → shelf_value (entry_of k') k' ≢ none
        → before k k' ≡ true
        → ((k'' : Text)
            → shelf_value (entry_of k'') k'' ≢ none
            → before k k'' ≡ true
            → before k'' k' ≡ false)
        → StandsAt tt (it + 1) k'
    unfolding StandsAt
    step_to it k k' a h b gap =
        let j = entry_of k' in
        let (lt, e) = shelf_value-some j k' h in
        let order = order_of it j k k' a.0 lt a.1 e in
        let next : it < j = ground (arith, order, b) in
        elim (Bool-cases (ltb (it + 1) j)) [
          | inl far ↦
              let (k'', e'', held) = shelf_held (it + 1) (ground (arith, lt)) in
              let closer = order_of it (it + 1) k k'' a.0 (ground (arith, lt)) a.1 e'' in
              let behind = order_of (it + 1) j k'' k' (ground (arith, lt)) lt e'' e in
              let none_there = gap k'' held (closer ∙ ground arith) in
              absurd (ground (arith, behind, far, none_there))
          | inr near ↦
              let same : it + 1 ≡ j = ground (arith, next) in
              (omega (arith, same, lt), ap key same ∙ e)
        ]

    seek_to : (k : Text) → shelf_value (entry_of k) k ≢ none → StandsAt tt (shelf.seek k tt) k
    unfolding StandsAt
    seek_to k h = elim (Option-cases (shelf_value (entry_of k) k)) [
      | inl nothing ↦ absurd (h nothing)
      | inr (v, something) ↦ rw (something, shelf) (shelf_value-some (entry_of k) k h)
    ]

    seek_behind :
        (k : Text)
        → ((k' : Text) → shelf_value (entry_of k') k' ≢ none → before k' k ≡ true)
        → n ≤ shelf.seek k tt
    seek_behind k h = elim (Option-cases (shelf_value (entry_of k) k)) [
      | inl nothing ↦ rw (nothing, shelf) (omega arith)
      | inr (v, something) ↦
          let held : shelf_value (entry_of k) k ≢ none = rw something (cc) in
          let (lt, e) = shelf_value-some (entry_of k) k held in
          absurd (ground (arith, h k held, order_of (entry_of k) (entry_of k) k k lt lt e e))
    ]

    step_behind :
        (it : ℕ) (k : Text)
        → StandsAt tt it k
        → ((k' : Text) → shelf_value (entry_of k') k' ≢ none → before k k' ≡ false)
        → n ≤ it + 1
    unfolding StandsAt
    step_behind it k a h = elim (Bool-cases (ltb (it + 1) n)) [
      | inr last ↦ ground arith
      | inl more ↦
          let (k', e, held) = shelf_held (it + 1) (ground arith) in
          absurd (ground (arith, h k' held, order_of it (it + 1) k k' a.0 (ground arith) a.1 e))
    ]

    value_at :
        (it : ℕ) (k : Text)
        → StandsAt tt it k
        → shelf_value (entry_of k) k ≡ some (shelf.it_value it)
    unfolding StandsAt
    value_at it k a =
        let (v, e) = value_of it (omega (arith, a.0, small)) in
        let written : v ≡ shelf.it_value it = rw (e, shelf) refl in
        shelf_read-key it k v a.0 a.1 e ∙ ap some written

    pub shelf-Walks : Walks shelf
    unfolding StandsAt
    shelf-Walks = record {
      StandsAt = StandsAt;
      Past = λ s it. n ≤ it;
      at_valid = λ s it k a. ground (arith, a.0);
      at_value = λ s it k a. value_at it k a;
      past_valid = λ s it p. ground (arith, p);
      seek_at = λ s k h. seek_to k h;
      seek_past = λ s k h. seek_behind k h;
      next_at = λ s it k k' a h b gap. step_to it k k' a h b gap;
      next_past = λ s it k a h. step_behind it k a h;
    }
