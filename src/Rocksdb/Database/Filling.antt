-- ===== src/Rocksdb/Database/Filling.antt =====
-- What `Fill` and the rest of the constructor do to the database.
use cos_userspace.Base.{
  ℕ, zero, suc, ◌+◌, ◌^◌, ◌<◌, ◌≤◌, ◌≡◌, ◌≢◌, refl, sym, ap, subst, ◌∙◌, true, [], ◌∷◌, ok, ◌==◌,
  arith, ltb, Returns, Bool-cases, inl, inr, ◌⊎◌,
}
use cos_userspace.Rocksdb.Keys.{key, value}
use cos_userspace.Rocksdb.Keys.Order.{to_string-IsNumeral}
use cos_userspace.Rocksdb.Database.{
  Store, num_entries, fill, set_up, prepopulate_cache, same_text, fill_loop, prepopulate_loop,
}
use cos_userspace.Rocksdb.Database.Contents.{Text, Keeps, Filled, same_text_refl, key_of, key_inj}
use cos_userspace.Rocksdb.Database.Queries.{get_entry-Filled}

pub same_text-eq : (xs ys : Text) → same_text xs ys ≡ true → xs ≡ ys
unfolding same_text
same_text-eq [] [] e = refl
same_text-eq [] (y ∷ ys) e = cc
same_text-eq (x ∷ xs) [] e = cc
same_text-eq (x ∷ xs) (y ∷ ys) e = ground (arith, same_text-eq xs ys)

text_cases : (xs ys : Text) → (xs ≡ ys) ⊎ (xs ≢ ys)
text_cases xs ys = elim (Bool-cases (same_text xs ys)) [
  | inl same ↦ inl (same_text-eq xs ys same)
  | inr differ ↦ inr (λ e. ground (arith, differ, e, same_text_refl ys))
]

-- The value of an entry.
pub value_of : (i : ℕ) → i < 2 ^ 32 → (v : Text) × (value i ≡ ok v)
unfolding value
value_of i h =
    let (s, run, v) = to_string-IsNumeral i h in (b'v' ∷ b'a' ∷ b'l' ∷ b'u' ∷ b'e' ∷ s, rw run refl)

module _ {S It : Type 0} (db : Store S It) (c : Keeps db)
    (writes : (k v : Text) (s : S) → (db.put k v s).0 ≡ true) where
  put-Filled :
      (i n : ℕ) (s : S) (k v : Text)
      → i < n
      → key i ≡ ok k
      → value i ≡ ok v
      → Filled db i n s
      → Filled db (i + 1) n (db.put k v s).1
  put-Filled i n s k v lt e e' f = record {
    small = f.small;
    holds = λ j small. elim (Bool-cases (j == i)) [
      | inl last ↦
          let same : j ≡ i = ground arith in
          (k, ap key same ∙ e, (v, ap value same ∙ e', c.read_put k v s (writes k v s)))
      | inr other ↦
          let (k', run, (v', run', r)) = f.holds j (ground arith) in
          (
            k',
            run,
            (
              v',
              run',
              c.read_other k k' v s (λ q. ground (
                arith,
                other,
                key_inj j i k (omega (arith, f.small, small)) (omega (arith, f.small, lt))
                    (run ∙ ap ok q) e,
              ))
                  ∙ r,
            ),
          )
    ];
    nothing_else = λ k' q. elim (text_cases k' k) [
      | inl same ↦ (i, lt, e ∙ ap ok (sym same))
      | inr other ↦ f.nothing_else k' (λ z. q (c.read_other k k' v s other ∙ z))
    ];
  }

  -- On a database with none but entries below `n`, `Fill` ends and leaves each of them in it.
  pub fill_loop-Filled :
      (rounds i n : ℕ) (s : S)
      → i + rounds ≡ n
      → Filled db i n s
      → Returns (fill_loop db rounds i s) (λ r. (r.0 ≡ true) × Filled db n n r.1)
  unfolding fill_loop
  fill_loop-Filled zero i n s e f =
      ((true, s), refl, (refl, subst (λ m. Filled db m n s) (omega (arith, e)) f))
  fill_loop-Filled (suc rounds) i n s e f =
      let (k, run) = key_of i (omega (arith, f.small)) in
      let (v, run') = value_of i (omega (arith, f.small)) in
      rw (run, run', writes k v s, fill_loop)
        (fill_loop-Filled rounds (i + 1) n (db.put k v s).1 (omega (arith, e))
          (put-Filled i n s k v (omega (arith, e)) run run' f))

  -- The rounds of `PrepopulateCache` on a filled database.
  prepopulate_loop-ok :
      (rounds i n : ℕ) (s : S)
      → i + rounds ≤ n
      → Filled db n n s
      → prepopulate_loop db rounds i s ≡ ok tt
  unfolding prepopulate_loop
  prepopulate_loop-ok zero i n s e f = refl
  prepopulate_loop-ok (suc rounds) i n s e f =
      let inside : ltb i n ≡ true = ground (arith, e) in
      rw (get_entry-Filled db n s f i (omega (arith, f.small, e)), inside, prepopulate_loop)
        (prepopulate_loop-ok rounds (i + 1) n s (omega (arith, e)) f)

  -- With a database that keeps the contract `Keeps` and whose `Put` always succeeds, the
  -- constructor, started on a database with nothing but entries below `num_entries`, ends without
  -- a failed assertion and leaves each of these entries, and nothing else, in it.
  pub set_up-Filled :
      (s : S)
      → Filled db 0 num_entries s
      → Returns (set_up db s) (Filled db num_entries num_entries)
  unfolding set_up fill prepopulate_cache
  set_up-Filled s f =
      let ((done, s'), run, (good, f')) =
        fill_loop-Filled num_entries 0 num_entries s (omega arith) f in
      (
        s',
        rw (run, good, prepopulate_loop-ok num_entries 0 num_entries s' (omega arith) f') refl,
        f',
      )
