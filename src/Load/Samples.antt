-- ===== src/Load/Samples.antt =====
-- Training with as many samples as the arrays hold, and with more.
use cos_userspace.Base.{
  ℕ, zero, suc, ◌+◌, ◌*◌, ◌<◌, ◌≤◌, ◌≡◌, refl, sym, ap, ◌∙◌, List, [], ◌∷◌, ok, err, out_of_bounds,
  Returns, >>=-Returns, arith, length, subst, ◌⊎◌, inl, inr, ltb, Bool-cases,
}
use cos_userspace.Load.{
  Arith, load, NeuralNet, weigh, layer, hidden_layer, backward, train_inputs, train, calculate,
}
use cos_userspace.Load.Bounds.{row_le, load_lem, HasSizes, init_net-HasSizes}
use cos_userspace.Load.Training.{backward-HasSizes}

module _ {R : Type 0} where
  load_past : (xs : List R) (i : ℕ) → length xs ≤ i → load xs i ≡ err out_of_bounds
  unfolding load
  load_past [] i h = refl
  load_past (x ∷ xs) zero h = absurd (omega (arith, h))
  load_past (x ∷ xs) (suc i) h = load_past xs i (omega (arith, h))

  load_cases :
      (xs : List R) (i : ℕ) → ((x : R) × (load xs i ≡ ok x)) ⊎ (load xs i ≡ err out_of_bounds)
  unfolding load
  load_cases [] i = inr refl
  load_cases (x ∷ xs) zero = inl (x, refl)
  load_cases (x ∷ xs) (suc i) = load_cases xs i

module _ {R : Type 0} (num : Arith R) where
  weigh_past :
      (xs : List R) (base : ℕ) (weights : List R) (width i n j : ℕ) (acc : R)
      → base + j ≤ length xs
      → length xs < base + j + n
      → weigh num xs base weights width i n j acc ≡ err out_of_bounds
  unfolding weigh
  weigh_past xs base weights width i zero j acc h p = absurd (omega (arith, h, p))
  weigh_past xs base weights width i (suc n) j acc h p =
      elim (Bool-cases (ltb (base + j) (length xs))) [
        | inr last ↦ rw (load_past xs (base + j) (ground arith)) refl
        | inl more ↦
            let (x, there, _) = load_lem xs (base + j) (ground arith) in
            elim (load_cases weights (j * width + i)) [
              | inr past ↦ rw (there, past) refl
              | inl (w, there') ↦
                  rw (there, there')
                    (weigh_past xs base weights width i n (j + 1) _ (ground arith)
                      (omega (arith, p)))
            ]
      ]

  layer_past :
      (activate : R → R) (xs : List R) (base inner : ℕ) (weights bias : List R) (width n i : ℕ)
      → base ≤ length xs
      → length xs < base + inner
      → 0 < n
      → layer num activate xs base inner weights bias width n i ≡ err out_of_bounds
  unfolding layer
  layer_past activate xs base inner weights bias width zero i h p some_left =
      absurd (omega (arith, some_left))
  layer_past activate xs base inner weights bias width (suc n) i h p some_left =
      rw
        (weigh_past xs base weights width i inner 0 (num.of_int 0) (omega (arith, h))
          (omega (arith, p)))
        refl

  -- A sample that the inputs end in.
  backward_past :
      (net : NeuralNet R) (input : List R) (base : ℕ) (target : List R) (target_base : ℕ)
      (learning_rate : R)
      → 0 < net.hidden_size
      → base ≤ length input
      → length input < base + net.input_size
      → backward num net input base target target_base learning_rate ≡ err out_of_bounds
  unfolding backward hidden_layer
  backward_past net input base target target_base rate some_hidden h p =
      rw
        (layer_past num.tanh input base net.input_size net.w1 net.b1 net.hidden_size net.hidden_size
          0 h p some_hidden)
        refl

  module _ (a b c : ℕ) (inputs targets : List R) (learning_rate : R) where
    backward_sample :
        (net : NeuralNet R) (j m : ℕ)
        → HasSizes a b c net
        → j < m
        → m * a ≤ length inputs
        → m * c ≤ length targets
        → Returns
            (backward num net inputs
              (j * net.input_size)
              targets
              (j * net.output_size)
              learning_rate)
            (HasSizes a b c)
    backward_sample net j m (ea, eb, ec, s) lt h h' =
        let inside =
          subst (λ k. j * k + k ≤ length inputs) (sym ea) (omega (arith, row_le j m a lt, h)) in
        let inside' =
          subst (λ k. j * k + k ≤ length targets) (sym ec) (omega (arith, row_le j m c lt, h')) in
        let (net', run, (na, nb, nc, s')) =
          backward-HasSizes num net s inputs (j * net.input_size) targets (j * net.output_size)
            learning_rate inside inside' in
        (net', run, (na ∙ ea, nb ∙ eb, nc ∙ ec, s'))

    train_inputs-HasSizes :
        (n j m : ℕ) (net : NeuralNet R)
        → HasSizes a b c net
        → j + n ≤ m
        → m * a ≤ length inputs
        → m * c ≤ length targets
        → Returns (train_inputs num inputs targets learning_rate n j net) (HasSizes a b c)
    unfolding train_inputs
    train_inputs-HasSizes zero j m net z le h h' = (net, refl, z)
    train_inputs-HasSizes (suc n) j m net z le h h' =
        >>=-Returns _ _ (backward_sample net j m z (omega (arith, le)) h h')
          (λ net' z'. train_inputs-HasSizes n (j + 1) m net' z' (omega (arith, le)) h h')

    -- With a network whose arrays have the lengths that its sizes say, and no more samples than
    -- the inputs and the targets hold, training ends without an access past the end of an array,
    -- in a network of the same sizes with arrays of these lengths.
    pub train-HasSizes :
        (net : NeuralNet R) (num_epochs num_inputs : ℕ)
        → HasSizes a b c net
        → num_inputs * a ≤ length inputs
        → num_inputs * c ≤ length targets
        → Returns
            (train num net inputs targets num_epochs num_inputs learning_rate)
            (HasSizes a b c)
    unfolding train
    train-HasSizes net zero num_inputs z h h' = (net, refl, z)
    train-HasSizes net (suc num_epochs) num_inputs z h h' =
        >>=-Returns _ _ (train_inputs-HasSizes num_inputs 0 num_inputs net z (omega arith) h h')
          (λ net' z'. train-HasSizes net' num_epochs num_inputs z' h h')

    train_inputs_past :
        (n j m : ℕ) (net : NeuralNet R)
        → HasSizes a b c net
        → 0 < b
        → j ≤ m
        → m < j + n
        → m * a ≤ length inputs
        → length inputs < m * a + a
        → m * c ≤ length targets
        → train_inputs num inputs targets learning_rate n j net ≡ err out_of_bounds
    unfolding train_inputs
    train_inputs_past zero j m net z p le lt h over h' = absurd (omega (arith, le, lt))
    train_inputs_past (suc n) j m net z p le lt h over h' = elim (Bool-cases (ltb j m)) [
      | inl more ↦
          let (net', run, z') = backward_sample net j m z (ground arith) h h' in
          rw run
            (train_inputs_past n (j + 1) m net' z' p (ground arith) (omega (arith, lt)) h over h')
      | inr last ↦
          let here : j ≡ m = ground arith in
          let from = ap (λ k. k * net.input_size) here ∙ ap (λ k. m * k) z.0 in
          rw
            (backward_past net inputs (j * net.input_size) targets (j * net.output_size)
              learning_rate (omega (arith, z.1, p)) (omega (arith, from, h))
              (omega (arith, from, z.0, over)))
            refl
    ]

    -- With a sample that begins within the inputs and does not end in them, training reads past
    -- their end.
    pub train_past :
        (net : NeuralNet R) (num_epochs num_inputs m : ℕ)
        → HasSizes a b c net
        → 0 < b
        → 0 < num_epochs
        → m < num_inputs
        → m * a ≤ length inputs
        → length inputs < m * a + a
        → m * c ≤ length targets
        → train num net inputs targets num_epochs num_inputs learning_rate ≡ err out_of_bounds
    unfolding train
    train_past net zero num_inputs m z p q lt h over h' = absurd (omega (arith, q))
    train_past net (suc num_epochs) num_inputs m z p q lt h over h' =
        rw (train_inputs_past num_inputs 0 m net z p (omega arith) (omega (arith, lt)) h over h')
          refl

  -- Whatever the arithmetic and the random numbers are, a round of `do_calculate` reads past the
  -- end of its inputs.
  pub calculate_past :
      (raw : R) (rand dis : ℕ → R) (learning_rate : R)
      → calculate num raw rand dis learning_rate ≡ err out_of_bounds
  unfolding calculate
  calculate_past raw rand dis learning_rate =
      let (net, run, z) = init_net-HasSizes raw rand 2 3 1 in
      let inputs = dis 0 ∷ dis 1 ∷ dis 2 ∷ dis 3 ∷ dis 4 ∷ dis 5 ∷ dis 6 ∷ dis 7 ∷ [] in
      let targets = dis 8 ∷ dis 9 ∷ dis 10 ∷ dis 11 ∷ [] in
      rw
        (
          run,
          train_past 2 3 1 inputs targets learning_rate net 1000 8 4 z (omega arith) (omega arith)
              (omega arith) (omega arith) (omega arith) (omega arith),
        )
        refl
