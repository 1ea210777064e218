-- ===== src/Load/Bounds.antt =====
-- The network's accesses to its arrays, where these are as long as its sizes say.
use native.Mathlib.Nat.{suc-mul}
use cos_userspace.Base.{
  ℕ, zero, suc, ◌+◌, ◌*◌, ◌<◌, ◌≤◌, ◌≡◌, refl, ap, ◌∙◌, List, [], ◌∷◌, Returns, >>=-Returns, arith,
  length,
}
use cos_userspace.Load.{Arith, load, store, malloc, NeuralNet, randomize, init_net, weigh, layer}

-- The element of row `j` and column `i` of a matrix with `m` rows and `n` columns.
pub cell_lt : (j i m n : ℕ) → j < m → i < n → j * n + i < m * n
cell_lt zero i zero n h h' = absurd (omega (arith, h))
cell_lt (suc j) i zero n h h' = absurd (omega (arith, h))
cell_lt zero i (suc m) n h h' = omega (arith, suc-mul m n, h')
cell_lt (suc j) i (suc m) n h h' =
    omega (arith, suc-mul m n, suc-mul j n, cell_lt j i m n (omega (arith, h)) h')

-- The rows up to row `j` do not end behind `m` rows.
pub row_le : (j m n : ℕ) → j < m → j * n + n ≤ m * n
row_le zero zero n h = absurd (omega (arith, h))
row_le (suc j) zero n h = absurd (omega (arith, h))
row_le zero (suc m) n h = omega (arith, suc-mul m n)
row_le (suc j) (suc m) n h =
    omega (arith, suc-mul m n, suc-mul j n, row_le j m n (omega (arith, h)))

module _ {R : Type 0} where
  abbrev pub Fine : R → Type 0
  Fine x = Unit

  pub load_lem : (xs : List R) (i : ℕ) → i < length xs → Returns (load xs i) Fine
  unfolding load
  load_lem [] i h = absurd (omega (arith, h))
  load_lem (x ∷ xs) zero h = (x, refl, tt)
  load_lem (x ∷ xs) (suc i) h = load_lem xs i (omega (arith, h))

  pub store-length :
      (xs : List R) (i : ℕ) (v : R)
      → i < length xs
      → Returns (store xs i v) (λ ys. length ys ≡ length xs)
  unfolding store
  store-length [] i v h = absurd (omega (arith, h))
  store-length (x ∷ xs) zero v h = (v ∷ xs, refl, refl)
  store-length (x ∷ xs) (suc i) v h =
      let (ys, run, same) = store-length xs i v (omega (arith, h)) in
      (x ∷ ys, rw run refl, ap suc same)

  length-malloc : (raw : R) (n : ℕ) → length (malloc raw n) ≡ n
  unfolding malloc
  length-malloc raw zero = refl
  length-malloc raw (suc n) = ap suc (length-malloc raw n)

  randomize-length :
      (rand : ℕ → R) (n i k : ℕ) (xs : List R)
      → i + n ≤ length xs
      → Returns (randomize rand n i k xs) (λ ys. length ys ≡ length xs)
  unfolding randomize
  randomize-length rand zero i k xs h = (xs, refl, refl)
  randomize-length rand (suc n) i k xs h =
      >>=-Returns _ _ (store-length xs i (rand k) (omega (arith, h))) (λ ys same.
        let (zs, run, same') =
          randomize-length rand n (i + 1) (k + 1) ys (omega (arith, h, same)) in
        (zs, run, same' ∙ same))

  randomized :
      (raw : R) (rand : ℕ → R) (n k : ℕ)
      → Returns (randomize rand n 0 k (malloc raw n)) (λ ys. length ys ≡ n)
  randomized raw rand n k =
      let (ys, run, same) =
        randomize-length rand n 0 k (malloc raw n) (omega (arith, length-malloc raw n)) in
      (ys, run, same ∙ length-malloc raw n)

  -- Each array has the length that the sizes say.
  pub record Shaped (net : NeuralNet R) : Type 0 where
    pub w1_full : length net.w1 ≡ net.input_size * net.hidden_size
    pub b1_full : length net.b1 ≡ net.hidden_size
    pub w2_full : length net.w2 ≡ net.hidden_size * net.output_size
    pub b2_full : length net.b2 ≡ net.output_size

  abbrev pub HasSizes : ℕ → ℕ → ℕ → NeuralNet R → Type 0
  HasSizes a b c net =
      (net.input_size ≡ a) × (net.hidden_size ≡ b) × (net.output_size ≡ c) × Shaped net

  pub init_net-HasSizes :
      (raw : R) (rand : ℕ → R) (a b c : ℕ) → Returns (init_net raw rand a b c) (HasSizes a b c)
  unfolding init_net
  init_net-HasSizes raw rand a b c =
      let (w1, run1, full1) = randomized raw rand (a * b) 0 in
      let (w2, run2, full2) = randomized raw rand (b * c) (a * b) in
      let (b1, run3, full3) = randomized raw rand b (a * b + b * c) in
      let (b2, run4, full4) = randomized raw rand c (a * b + b * c + b) in
      (
        record {
          input_size = a;
          hidden_size = b;
          output_size = c;
          w1 = w1;
          b1 = b1;
          w2 = w2;
          b2 = b2;
        },
        rw (run1, run2, run3, run4) refl,
        (
          refl,
          refl,
          refl,
          record { w1_full = full1; b1_full = full3; w2_full = full2; b2_full = full4 },
        ),
      )

module _ {R : Type 0} (num : Arith R) where
  pub weigh_lem :
      (xs : List R) (base : ℕ) (weights : List R) (width i inner n j : ℕ) (acc : R)
      → base + inner ≤ length xs
      → length weights ≡ inner * width
      → i < width
      → j + n ≤ inner
      → Returns (weigh num xs base weights width i n j acc) Fine
  unfolding weigh
  weigh_lem xs base weights width i inner zero j acc h full lt le = (acc, refl, tt)
  weigh_lem xs base weights width i inner (suc n) j acc h full lt le =
      >>=-Returns _ _ (load_lem xs (base + j) (omega (arith, h, le))) (λ x _.
        >>=-Returns _ _
          (load_lem weights (j * width + i)
            (omega (arith, full, cell_lt j i inner width (omega (arith, le)) lt)))
          (λ w _.
            weigh_lem xs base weights width i inner n (j + 1) _ h full lt (omega (arith, le))))

  pub layer-length :
      (activate : R → R) (xs : List R) (base inner : ℕ) (weights bias : List R) (width n i : ℕ)
      → base + inner ≤ length xs
      → length weights ≡ inner * width
      → length bias ≡ width
      → i + n ≤ width
      → Returns (layer num activate xs base inner weights bias width n i) (λ ys. length ys ≡ n)
  unfolding layer
  layer-length activate xs base inner weights bias width zero i h full full' le = ([], refl, refl)
  layer-length activate xs base inner weights bias width (suc n) i h full full' le =
      >>=-Returns _ _
        (weigh_lem xs base weights width i inner inner 0 _ h full (omega (arith, le)) (omega arith))
        (λ s _. >>=-Returns _ _ (load_lem bias i (omega (arith, full', le))) (λ b _.
          >>=-Returns _ _
            (layer-length activate xs base inner weights bias width n (i + 1) h full full'
              (omega (arith, le)))
            (λ rest same. (_, refl, ap suc same))))
