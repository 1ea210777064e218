-- ===== src/Load/Training.antt =====
-- Predictions and training stay within the arrays.
use cos_userspace.Base.{
  ℕ, zero, suc, ◌+◌, ◌*◌, ◌<◌, ◌≤◌, ◌≡◌, refl, ap, ◌∙◌, List, [], ◌∷◌, Returns, >>=-Returns, arith,
  length,
}
use cos_userspace.Load.{
  Arith, NeuralNet, sigmoid, hidden_layer, output_layer, put_outputs, forward, output_errors,
  propagate, hidden_errors, update_weights, update_layer, backward,
}
use cos_userspace.Load.Bounds.{
  cell_lt, Fine, load_lem, store-length, Shaped, HasSizes, layer-length,
}

module _ {R : Type 0} (num : Arith R) where
  put_outputs-length :
      (h2 : List R) (i : ℕ) (output : List R)
      → i + length h2 ≤ length output
      → Returns (put_outputs num h2 i output) (λ ys. length ys ≡ length output)
  unfolding put_outputs
  put_outputs-length [] i output h = (output, refl, refl)
  put_outputs-length (x ∷ h2) i output h =
      >>=-Returns _ _ (store-length output i (sigmoid num x) (omega (arith, h))) (λ ys same.
        let (zs, run, same') = put_outputs-length h2 (i + 1) ys (omega (arith, h, same)) in
        (zs, run, same' ∙ same))

  output_errors-length :
      (h2 target : List R) (base i : ℕ)
      → base + i + length h2 ≤ length target
      → Returns (output_errors num h2 target base i) (λ ys. length ys ≡ length h2)
  unfolding output_errors
  output_errors-length [] target base i h = ([], refl, refl)
  output_errors-length (x ∷ h2) target base i h =
      >>=-Returns _ _ (load_lem target (base + i) (omega (arith, h))) (λ t _.
        >>=-Returns _ _ (output_errors-length h2 target base (i + 1) (omega (arith, h)))
          (λ rest same. (_, refl, ap suc same)))

  propagate_lem :
      (delta2 weights : List R) (rows width i n j : ℕ) (acc : R)
      → length delta2 ≡ width
      → length weights ≡ rows * width
      → i < rows
      → j + n ≤ width
      → Returns (propagate num delta2 weights width i n j acc) Fine
  unfolding propagate
  propagate_lem delta2 weights rows width i zero j acc e full lt le = (acc, refl, tt)
  propagate_lem delta2 weights rows width i (suc n) j acc e full lt le =
      >>=-Returns _ _ (load_lem delta2 j (omega (arith, e, le))) (λ d _.
        >>=-Returns _ _
          (load_lem weights (i * width + j)
            (omega (arith, full, cell_lt i j rows width lt (omega (arith, le)))))
          (λ w _.
            propagate_lem delta2 weights rows width i n (j + 1) _ e full lt (omega (arith, le))))

  hidden_errors-length :
      (h1 delta2 weights : List R) (rows width i : ℕ)
      → length delta2 ≡ width
      → length weights ≡ rows * width
      → i + length h1 ≤ rows
      → Returns (hidden_errors num h1 delta2 weights width i) (λ ys. length ys ≡ length h1)
  unfolding hidden_errors
  hidden_errors-length [] delta2 weights rows width i e full le = ([], refl, refl)
  hidden_errors-length (x ∷ h1) delta2 weights rows width i e full le =
      >>=-Returns _ _
        (propagate_lem delta2 weights rows width i width 0 _ e full (omega (arith, le))
          (omega arith))
        (λ d _.
          >>=-Returns _ _
            (hidden_errors-length h1 delta2 weights rows width (i + 1) e full (omega (arith, le)))
            (λ rest same. (_, refl, ap suc same)))

  pub update_weights-length :
      (xs : List R) (base inner width i : ℕ) (rate : R) (n j : ℕ) (weights : List R)
      → base + inner ≤ length xs
      → length weights ≡ inner * width
      → i < width
      → j + n ≤ inner
      → Returns
          (update_weights num xs base width i rate n j weights)
          (λ ys. length ys ≡ inner * width)
  unfolding update_weights
  update_weights-length xs base inner width i rate zero j weights h full lt le =
      (weights, refl, full)
  update_weights-length xs base inner width i rate (suc n) j weights h full lt le =
      let cell : j * width + i < length weights =
        omega (arith, full, cell_lt j i inner width (omega (arith, le)) lt) in
      >>=-Returns _ _ (load_lem xs (base + j) (omega (arith, h, le))) (λ x _.
        >>=-Returns _ _ (load_lem weights (j * width + i) cell) (λ w _.
          >>=-Returns _ _ (store-length weights (j * width + i) _ cell) (λ ys same.
            update_weights-length xs base inner width i rate n (j + 1) ys h (same ∙ full) lt
              (omega (arith, le)))))

  pub update_layer-length :
      (learning_rate : R) (xs : List R) (base inner width : ℕ) (delta : List R) (i : ℕ)
      (weights bias : List R)
      → base + inner ≤ length xs
      → length weights ≡ inner * width
      → length bias ≡ width
      → i + length delta ≤ width
      → Returns
          (update_layer num learning_rate xs base inner width delta i weights bias)
          (λ r. (length r.0 ≡ inner * width) × (length r.1 ≡ width))
  unfolding update_layer
  update_layer-length rate xs base inner width [] i weights bias h full full' le =
      ((weights, bias), refl, (full, full'))
  update_layer-length rate xs base inner width (d ∷ delta) i weights bias h full full' le =
      >>=-Returns _ _
        (update_weights-length xs base inner width i _ inner 0 weights h full (omega (arith, le))
          (omega arith))
        (λ weights' full''. >>=-Returns _ _ (load_lem bias i (omega (arith, full', le))) (λ b _.
          >>=-Returns _ _ (store-length bias i _ (omega (arith, full', le))) (λ bias' same.
            update_layer-length rate xs base inner width delta (i + 1) weights' bias' h full''
              (same ∙ full') (omega (arith, le)))))

  module _ (net : NeuralNet R) (s : Shaped net) where
    hidden_layer-length :
        (input : List R) (base : ℕ)
        → base + net.input_size ≤ length input
        → Returns (hidden_layer num net input base) (λ ys. length ys ≡ net.hidden_size)
    unfolding hidden_layer
    hidden_layer-length input base h =
        layer-length num num.tanh input base net.input_size net.w1 net.b1 net.hidden_size
          net.hidden_size 0 h s.w1_full s.b1_full (omega arith)

    output_layer-length :
        (h1 : List R)
        → length h1 ≡ net.hidden_size
        → Returns (output_layer num net h1) (λ ys. length ys ≡ net.output_size)
    unfolding output_layer
    output_layer-length h1 e =
        layer-length num (λ x. x) h1 0 net.hidden_size net.w2 net.b2 net.output_size net.output_size
          0 (omega (arith, e)) s.w2_full s.b2_full (omega arith)

    pub forward-length :
        (input : List R) (base : ℕ) (output : List R)
        → base + net.input_size ≤ length input
        → net.output_size ≤ length output
        → Returns (forward num net input base output) (λ ys. length ys ≡ length output)
    unfolding forward
    forward-length input base output h h' =
        >>=-Returns _ _ (hidden_layer-length input base h) (λ h1 e.
          >>=-Returns _ _ (output_layer-length h1 e)
            (λ h2 e'. put_outputs-length h2 0 output (omega (arith, e', h'))))

    pub backward-HasSizes :
        (input : List R) (base : ℕ) (target : List R) (target_base : ℕ) (learning_rate : R)
        → base + net.input_size ≤ length input
        → target_base + net.output_size ≤ length target
        → Returns
            (backward num net input base target target_base learning_rate)
            (HasSizes net.input_size net.hidden_size net.output_size)
    unfolding backward
    backward-HasSizes input base target target_base rate h h' =
        >>=-Returns _ _ (hidden_layer-length input base h) (λ h1 e1.
          >>=-Returns _ _ (output_layer-length h1 e1) (λ h2 e2.
            >>=-Returns _ _ (output_errors-length h2 target target_base 0 (omega (arith, e2, h')))
              (λ delta2 d2.
                >>=-Returns _ _
                  (hidden_errors-length h1 delta2 net.w2 net.hidden_size net.output_size 0 (d2 ∙ e2)
                    s.w2_full (omega (arith, e1)))
                  (λ delta1 d1.
                    >>=-Returns _ _
                      (update_layer-length rate input base net.input_size net.hidden_size delta1 0
                        net.w1 net.b1 h s.w1_full s.b1_full (omega (arith, d1, e1)))
                      (λ first f1.
                        >>=-Returns _ _
                          (update_layer-length rate h1 0 net.hidden_size net.output_size delta2 0
                            net.w2 net.b2 (omega (arith, e1)) s.w2_full s.b2_full
                            (omega (arith, d2, e2)))
                          (λ second f2. (
                            _,
                            refl,
                            (
                              refl,
                              refl,
                              refl,
                              record {
                                w1_full = f1.0;
                                b1_full = f1.1;
                                w2_full = f2.0;
                                b2_full = f2.1;
                              },
                            ),
                          )))))))
