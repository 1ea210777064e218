-- ===== src/Rocksdb/Database/Queries.antt =====
-- What a database that `Fill` has filled answers.
use cos_userspace.Base.{
  ℕ, zero, suc, ◌+◌, ◌%◌, ◌^◌, ◌<◌, ◌≤◌, ◌≡◌, ◌≢◌, refl, ap, ◌∙◌, true, false, none, some, ok,
  arith, ltb, leb, Bool-cases, Option-cases, inl, inr,
}
use cos_userspace.Rocksdb.Keys.{key, value}
use cos_userspace.Rocksdb.Keys.Order.{before}
use cos_userspace.Rocksdb.Database.{Store, get_entry, range_loop, range_query}
use cos_userspace.Rocksdb.Database.Contents.{
  Text, Walks, Filled, same_text_refl, key_of, before_keys, key_inj,
}

module _ {S It : Type 0} (db : Store S It) (n : ℕ) (s : S) (f : Filled db n n s) where
  -- An entry of the database, with its texts.
  there :
      (i : ℕ) → i < n → (k v : Text) × (key i ≡ ok k) × (value i ≡ ok v) × (db.read k s ≡ some v)
  there i h = let (k, e, (v, e', r)) = f.holds i h in (k, v, e, e', r)

  -- On a database that holds the entries below `n` and nothing else, `Get` of a 32-bit entry ends
  -- without a failed assertion and answers whether the entry is below `n`.
  pub get_entry-Filled : (entry : ℕ) → entry < 2 ^ 32 → get_entry db entry s ≡ ok (ltb entry n)
  unfolding get_entry
  get_entry-Filled entry h = elim (Bool-cases (ltb entry n)) [
    | inl inside ↦
        let (k, v, e, e', r) = there entry (ground arith) in
        rw (e, r, e', same_text_refl v, inside) refl
    | inr outside ↦
        let (k, e) = key_of entry h in
        elim (Option-cases (db.read k s)) [
          | inl nothing ↦ rw (e, nothing, outside) refl
          | inr (v, something) ↦
              let (i, lt, e') = f.nothing_else k (rw something (cc)) in
              let same = key_inj i entry k (omega (arith, f.small)) h e' e in
              absurd (ground (arith, same))
        ]
  ]

  module _ (w : Walks db) (start_entry : ℕ) where
    value_here :
        (it : It) (k k' v : Text) (i : ℕ)
        → w.StandsAt s it k
        → key i ≡ ok k
        → key i ≡ ok k'
        → db.read k' s ≡ some v
        → db.it_value it ≡ v
    value_here it k k' v i a e e' r =
        let same : k ≡ k' = cc in let here = w.at_value s it k a in ground (arith, same, here, r)

    next_before :
        (i : ℕ) (k k' : Text)
        → start_entry + i < n
        → key (start_entry + i) ≡ ok k
        → key (start_entry + (i + 1)) ≡ ok k'
        → start_entry + (i + 1) < n
        → before k k' ≡ true
    next_before i k k' lt e e' lt' =
        before_keys (start_entry + i) (start_entry + (i + 1)) k k' (omega (arith, f.small))
          (omega (arith, f.small)) e e'
        ∙ ground arith

    nothing_between :
        (i : ℕ) (k k' k'' : Text)
        → start_entry + i < n
        → start_entry + (i + 1) < n
        → key (start_entry + i) ≡ ok k
        → key (start_entry + (i + 1)) ≡ ok k'
        → db.read k'' s ≢ none
        → before k k'' ≡ true
        → before k'' k' ≡ false
    nothing_between i k k' k'' lt lt' e e' h b =
        let (j, small, e'') = f.nothing_else k'' h in
        let from =
          before_keys (start_entry + i) j k k'' (omega (arith, f.small)) (omega (arith, f.small)) e
            e'' in
        before_keys j (start_entry + (i + 1)) k'' k' (omega (arith, f.small))
          (omega (arith, f.small)) e'' e'
        ∙ ground (arith, from, b)

    nothing_after :
        (i : ℕ) (k k' : Text)
        → start_entry + i < n
        → n ≤ start_entry + (i + 1)
        → key (start_entry + i) ≡ ok k
        → db.read k' s ≢ none
        → before k k' ≡ false
    nothing_after i k k' lt last e h =
        let (j, small, e') = f.nothing_else k' h in
        before_keys (start_entry + i) j k k' (omega (arith, f.small)) (omega (arith, f.small)) e e'
        ∙ ground (arith, small)

    -- Behind the last key.
    range_past :
        (m i : ℕ) (it : It)
        → w.Past s it
        → start_entry + i ≡ n
        → range_loop db start_entry m i it ≡ ok (leb (start_entry + i + m) n)
    unfolding range_loop
    range_past zero i it p e = ground arith
    range_past (suc m) i it p e = rw (w.past_valid s it p, range_loop) (ground arith)

    -- StandsAt the key of the entry that the loop looks at next.
    range_at :
        (m i : ℕ) (it : It) (k : Text)
        → w.StandsAt s it k
        → start_entry + i < n
        → key (start_entry + i) ≡ ok k
        → range_loop db start_entry m i it ≡ ok (leb (start_entry + i + m) n)
    unfolding range_loop
    range_at zero i it k a lt e = ground arith
    range_at (suc m) i it k a lt e =
        let (k0, v, e0, e1, r) = there (start_entry + i) lt in
        let fits : (start_entry + i) % 2 ^ 32 ≡ start_entry + i = omega (arith, f.small) in
        let found : db.it_value it ≡ v = value_here it k k0 v (start_entry + i) a e e0 r in
        rw (w.at_valid s it k a, fits, e1, found, same_text_refl v, range_loop)
          (elim (Bool-cases (ltb (start_entry + (i + 1)) n)) [
            | inl more ↦
                let (k', v', e', e2, r') = there (start_entry + (i + 1)) (ground arith) in
                range_at m (i + 1) (db.it_next it) k'
                  (w.next_at s it k k' a (rw r' (cc)) (next_before i k k' lt e e' (ground arith))
                    (λ k'' h b. nothing_between i k k' k'' lt (ground arith) e e' h b))
                  (ground arith) e'
                ∙ ap (λ x. ok (leb x n)) (omega arith)
            | inr last ↦
                range_past m (i + 1) (db.it_next it)
                  (w.next_past s it k a (λ k' h. nothing_after i k k' lt (ground arith) e h))
                  (ground arith)
                ∙ ap (λ x. ok (leb x n)) (omega arith)
          ])

    all_before :
        (k k' : Text)
        → db.read k' s ≢ none
        → key start_entry ≡ ok k
        → start_entry ≡ n
        → before k' k ≡ true
    all_before k k' q e last =
        let (j, lt, e') = f.nothing_else k' q in
        before_keys j start_entry k' k (omega (arith, f.small)) (omega (arith, f.small)) e' e
        ∙ ground arith

    -- With iterators that keep the contract `Walks`, on a database that holds the entries below
    -- `n` and nothing else, a range query whose first entry is at most `n` ends without a failed
    -- assertion and answers whether the range ends at `n` or before.
    pub range_query-Filled :
        (range_size : ℕ)
        → start_entry ≤ n
        → range_query db start_entry range_size s ≡ ok (leb (start_entry + range_size) n)
    unfolding range_query
    range_query-Filled range_size h = elim (Bool-cases (ltb start_entry n)) [
      | inl inside ↦
          let (k, v, e, e', r) = there start_entry (ground arith) in
          let first : start_entry + 0 ≡ start_entry = omega arith in
          rw e (
            range_at range_size 0 (db.seek k s) k (w.seek_at s k (rw r (cc))) (ground arith)
              (ap key first ∙ e)
            ∙ ap (λ x. ok (leb x n)) (omega arith))
      | inr behind ↦
          let (k, e) = key_of start_entry (omega (arith, f.small, h)) in
          rw e (
            range_past range_size 0 (db.seek k s)
              (w.seek_past s k (λ k' q. all_before k k' q e (ground arith))) (ground arith)
            ∙ ap (λ x. ok (leb x n)) (omega arith))
    ]
