-- ===== src/Load/Update.antt =====
-- What the update of a layer does to each of its weights and biases.
use cos_userspace.Base.{
  ℕ, zero, suc, ◌+◌, ◌*◌, ◌<◌, ◌≤◌, ◌≡◌, ◌≢◌, refl, sym, ap, ◌∙◌, List, [], ◌∷◌, Result, ok, ◌>>=◌,
  Returns, >>=-Returns, arith, length, subst, inl, inr, ltb, ◌==◌, Bool-cases,
}
use cos_userspace.Load.{Arith, load, store, update_weights, update_layer}
use cos_userspace.Load.Bounds.{cell_lt, row_le, load_lem, store-length}
use cos_userspace.Load.Training.{update_weights-length}

-- No two elements of a matrix are at one place.
cell_inj : (j i j' i' n : ℕ) → i < n → i' < n → j * n + i ≡ j' * n + i' → (j ≡ j') × (i ≡ i')
cell_inj j i j' i' n h h' e = elim (Bool-cases (ltb j j')) [
  | inl less ↦ absurd (omega (arith, e, h, row_le j j' n (ground arith)))
  | inr other ↦ elim (Bool-cases (ltb j' j)) [
    | inl more ↦ absurd (omega (arith, e, h', row_le j' j n (ground arith)))
    | inr same ↦ let rows : j ≡ j' = ground arith in (rows, omega (arith, e, ap (λ k. k * n) rows))
  ]
]

both {ℓ} :
    {A : Type ℓ} {P Q : A → Type ℓ} (r : Result A)
    → Returns r P
    → Returns r Q
    → Returns r (λ a. P a × Q a)
both {P} {Q} r (a, e, p) (b, e', q) = (a, e, (p, subst Q (cc) q))

module _ {R : Type 0} where
  load_is : (xs : List R) (i : ℕ) → i < length xs → Returns (load xs i) (λ x. load xs i ≡ ok x)
  load_is xs i h = let (x, run, _) = load_lem xs i h in (x, run, run)

  store-load_self :
      (xs : List R) (i : ℕ) (v : R)
      → i < length xs
      → Returns (store xs i v) (λ ys. load ys i ≡ ok v)
  unfolding store load
  store-load_self [] i v h = absurd (omega (arith, h))
  store-load_self (x ∷ xs) zero v h = (v ∷ xs, refl, refl)
  store-load_self (x ∷ xs) (suc i) v h =
      let (ys, run, e) = store-load_self xs i v (omega (arith, h)) in (x ∷ ys, rw run refl, e)

  store-load_other :
      (xs : List R) (i : ℕ) (v : R)
      → i < length xs
      → Returns (store xs i v) (λ ys. (k : ℕ) → k ≢ i → load ys k ≡ load xs k)
  unfolding store load
  store-load_other [] i v h = absurd (omega (arith, h))
  store-load_other (x ∷ xs) zero v h = (v ∷ xs, refl, λ k n. after k n)
    where
      after : (k : ℕ) → k ≢ 0 → load (v ∷ xs) k ≡ load (x ∷ xs) k
      after zero n = absurd (n refl)
      after (suc k) n = refl
  store-load_other (x ∷ xs) (suc i) v h =
      let (ys, run, e) = store-load_other xs i v (omega (arith, h)) in
      (x ∷ ys, rw run refl, λ k n. after ys e k n)
    where
      after :
          (ys : List R)
          → ((k : ℕ) → k ≢ i → load ys k ≡ load xs k)
          → (k : ℕ) → k ≢ suc i
          → load (x ∷ ys) k ≡ load (x ∷ xs) k
      after ys e zero n = refl
      after ys e (suc k) n = e k (λ same. n (ap suc same))

module _ {R : Type 0} (num : Arith R) where
  -- A weight that goes up by `rate * x`.
  abbrev pub raise : R → Result R → Result R → Result R
  raise rate w x = w >>= λ w. x >>= λ x. ok (num.add w (num.mul rate x))

  -- The elements of column `i` in the rows from `j` on, `n` of them, are raised, and no others.
  record Raised (xs : List R) (base width i : ℕ) (rate : R) (n j : ℕ) (weights ws : List R)
      : Type 0 where
    hit :
        (r : ℕ)
        → j ≤ r
        → r < j + n
        → load ws (r * width + i) ≡ raise rate (load weights (r * width + i)) (load xs (base + r))
    miss : (k : ℕ) → ((r : ℕ) → j ≤ r → r < j + n → k ≢ r * width + i) → load ws k ≡ load weights k

  Raised-first :
      (xs : List R) (base width i : ℕ) (rate : R) (n j : ℕ) (weights ws1 ws : List R) (w x : R)
      → i < width
      → load xs (base + j) ≡ ok x
      → load weights (j * width + i) ≡ ok w
      → load ws1 (j * width + i) ≡ ok (num.add w (num.mul rate x))
      → ((k : ℕ) → k ≢ j * width + i → load ws1 k ≡ load weights k)
      → Raised xs base width i rate n (j + 1) ws1 ws
      → Raised xs base width i rate (suc n) j weights ws
  Raised-first xs base width i rate n j weights ws1 ws w x lt run_x run_w self other z =
      let apart : (r : ℕ) → r ≢ j → r * width + i ≢ j * width + i =
        λ r d e. d (cell_inj r i j i width lt lt e).0 in
      record {
        hit = λ r from to. elim (Bool-cases (r == j)) [
          | inl first ↦
              let here : r ≡ j = ground arith in
              let kept =
                z.miss (j * width + i)
                  (λ r' from' to' e. apart r' (λ q. omega (arith, q, from')) (sym e)) in
              rw (here, run_x, run_w) (kept ∙ self)
          | inr later ↦
              let there : r ≢ j = λ q. ground (arith, q, later) in
              z.hit r (ground arith) (omega (arith, to))
              ∙ ap (λ y. raise rate y (load xs (base + r))) (other (r * width + i) (apart r there))
        ];
        miss = λ k n'.
            z.miss k (λ r from to. n' r (omega (arith, from)) (omega (arith, to)))
            ∙ other k (n' j (omega arith) (omega arith));
      }

  weights-Raised :
      (xs : List R) (base inner width i : ℕ) (rate : R) (n j : ℕ) (weights : List R)
      → base + inner ≤ length xs
      → length weights ≡ inner * width
      → i < width
      → j + n ≤ inner
      → Returns
          (update_weights num xs base width i rate n j weights)
          (Raised xs base width i rate n j weights)
  unfolding update_weights
  weights-Raised xs base inner width i rate zero j weights h full lt le = (
    weights,
    refl,
    record { hit = λ r from to. absurd (omega (arith, from, to)); miss = λ k n. refl },
  )
  weights-Raised xs base inner width i rate (suc n) j weights h full lt le =
      let cell : j * width + i < length weights =
        omega (arith, full, cell_lt j i inner width (omega (arith, le)) lt) in
      >>=-Returns _ _ (load_is xs (base + j) (omega (arith, h, le))) (λ x run_x.
        >>=-Returns _ _ (load_is weights (j * width + i) cell) (λ w run_w.
          let v = num.add w (num.mul rate x) in
          >>=-Returns _ _
            (both (store weights (j * width + i) v) (store-length weights (j * width + i) v cell) (
              both (store weights (j * width + i) v)
                (store-load_self weights (j * width + i) v cell)
                (store-load_other weights (j * width + i) v cell)))
            (λ ws1 y.
              let (ws, run, z) =
                weights-Raised xs base inner width i rate n (j + 1) ws1 h (y.0 ∙ full) lt
                  (omega (arith, le)) in
              (
                ws,
                run,
                Raised-first xs base width i rate n j weights ws1 ws w x lt run_x run_w y.1.0 y.1.1
                    z,
              ))))

  -- What the update of a layer of `inner` by `width` weights gives for its elements from `i` on, of
  -- which `delta` has the errors: the weight in each row and in the column of an element goes up by
  -- the learning rate times the error times the row's input, the bias by the first two; the weights
  -- and biases of the elements before `i` stay as they are.
  pub record Updated (learning_rate : R) (xs : List R) (base inner width : ℕ) (delta : List R)
      (i : ℕ) (weights bias ws bs : List R) : Type 0 where
    pub weights_up :
        (p r : ℕ)
        → p < length delta
        → r < inner
        → load ws (r * width + (i + p)) ≡ (
            load delta p >>= λ d.
            raise
              (num.mul learning_rate d)
              (load weights (r * width + (i + p)))
              (load xs (base + r)))
    pub weights_kept :
        (c r : ℕ) → c < i → r < inner → load ws (r * width + c) ≡ load weights (r * width + c)
    pub bias_up :
        (p : ℕ)
        → p < length delta
        → load bs (i + p) ≡ (
            load delta p >>= λ d.
            load bias (i + p) >>= λ b. ok (num.add b (num.mul learning_rate d)))
    pub bias_kept : (c : ℕ) → c < i → load bs c ≡ load bias c

  module _ (rate : R) (xs : List R) (base inner width : ℕ) (d : R) (delta : List R) (i : ℕ)
      (weights bias ws1 bs1 ws bs : List R) (b : R) (le : i + suc (length delta) ≤ width)
      (z : Raised xs base width i (num.mul rate d) inner 0 weights ws1) (run_b : load bias i ≡ ok b)
      (self : load bs1 i ≡ ok (num.add b (num.mul rate d)))
      (other : (k : ℕ) → k ≢ i → load bs1 k ≡ load bias k)
      (u : Updated rate xs base inner width delta (i + 1) ws1 bs1 ws bs) where
    other_column :
        (c r : ℕ) → c < width → c ≢ i → load ws1 (r * width + c) ≡ load weights (r * width + c)
    other_column c r lt n =
        z.miss (r * width + c)
          (λ r' from to e. n (cell_inj r c r' i width lt (omega (arith, le)) e).1)

    weights_of :
        (p r : ℕ)
        → p < suc (length delta)
        → r < inner
        → load ws (r * width + (i + p)) ≡ (
            load (d ∷ delta) p >>= λ d.
            raise (num.mul rate d) (load weights (r * width + (i + p))) (load xs (base + r)))
    unfolding load
    weights_of zero r lt lt' =
        let e : i + 0 ≡ i = omega arith in
        rw e (u.weights_kept i r (omega arith) lt' ∙ z.hit r (omega arith) (omega (arith, lt')))
    weights_of (suc p) r lt lt' =
        let e : i + suc p ≡ i + 1 + p = omega arith in
        let c = i + 1 + p in
        rw e (
          u.weights_up p r (omega (arith, lt)) lt'
          ∙ ap (λ y. load delta p >>= λ d. raise (num.mul rate d) y (load xs (base + r)))
              (other_column c r (omega (arith, le, lt)) (λ q. omega (arith, q))))

    bias_of :
        (p : ℕ)
        → p < suc (length delta)
        → load bs (i + p)
          ≡ (load (d ∷ delta) p >>= λ d. load bias (i + p) >>= λ b. ok (num.add b (num.mul rate d)))
    unfolding load
    bias_of zero lt =
        let e : i + 0 ≡ i = omega arith in rw (e, run_b) (u.bias_kept i (omega arith) ∙ self)
    bias_of (suc p) lt =
        let e : i + suc p ≡ i + 1 + p = omega arith in
        rw e (
          u.bias_up p (omega (arith, lt))
          ∙ ap (λ y. load delta p >>= λ d. y >>= λ b. ok (num.add b (num.mul rate d)))
              (other (i + 1 + p) (λ q. omega (arith, q))))

    Updated-first : Updated rate xs base inner width (d ∷ delta) i weights bias ws bs
    Updated-first = record {
      weights_up = weights_of;
      weights_kept = λ c r lt lt'.
          u.weights_kept c r (omega (arith, lt)) lt'
          ∙ other_column c r (omega (arith, lt, le)) (λ q. omega (arith, q, lt));
      bias_up = bias_of;
      bias_kept = λ c lt. u.bias_kept c (omega (arith, lt)) ∙ other c (λ q. omega (arith, q, lt));
    }

  -- With inputs that reach from `base` over `inner` numbers, weights and biases as long as `inner`
  -- and `width` say, and errors for at most the elements from `i` on, the update of a layer ends
  -- within its arrays and gives what `Updated` says: each weight of an element with an error goes
  -- up once, by the learning rate times the error times the input of its row, each such bias by
  -- the learning rate times the error, and what belongs to the elements before `i` stays.
  pub update_layer-Updated :
      (learning_rate : R) (xs : List R) (base inner width : ℕ) (delta : List R) (i : ℕ)
      (weights bias : List R)
      → base + inner ≤ length xs
      → length weights ≡ inner * width
      → length bias ≡ width
      → i + length delta ≤ width
      → Returns
          (update_layer num learning_rate xs base inner width delta i weights bias)
          (λ r. Updated learning_rate xs base inner width delta i weights bias r.0 r.1)
  unfolding update_layer
  update_layer-Updated rate xs base inner width [] i weights bias h full full' le = (
    (weights, bias),
    refl,
    record {
      weights_up = λ p r lt. absurd (omega (arith, lt));
      weights_kept = λ c r lt lt'. refl;
      bias_up = λ p lt. absurd (omega (arith, lt));
      bias_kept = λ c lt. refl;
    },
  )
  update_layer-Updated rate xs base inner width (d ∷ delta) i weights bias h full full' le =
      let step = num.mul rate d in
      let inside : i < length bias = omega (arith, full', le) in
      let lt : i < width = omega (arith, le) in
      >>=-Returns _ _
        (both (update_weights num xs base width i step inner 0 weights)
          (update_weights-length num xs base inner width i step inner 0 weights h full lt
            (omega arith))
          (weights-Raised xs base inner width i step inner 0 weights h full lt (omega arith)))
        (λ ws1 w. >>=-Returns _ _ (load_is bias i inside) (λ b run_b.
          >>=-Returns _ _
            (both (store bias i (num.add b step)) (store-length bias i (num.add b step) inside) (
              both (store bias i (num.add b step)) (store-load_self bias i (num.add b step) inside)
                (store-load_other bias i (num.add b step) inside)))
            (λ bs1 y.
              let (r, run, u) =
                update_layer-Updated rate xs base inner width delta (i + 1) ws1 bs1 h w.0
                  (y.0 ∙ full') (omega (arith, le)) in
              (
                r,
                run,
                Updated-first rate xs base inner width d delta i weights bias ws1 bs1 r.0 r.1 b
                    (omega (arith, le)) w.1 run_b y.1.0 y.1.1 u,
              ))))
