-- ===== src/Tests/Training.antt =====
-- A small network whose numbers are natural numbers.
use cos_userspace.Base.{
  ℕ, ◌+◌, ◌-◌, ◌*◌, ◌/◌, ◌≡◌, refl, [], ◌∷◌, err, out_of_bounds, Returns, arith,
}
use cos_userspace.Load.{Arith, NeuralNet, train, update_layer, calculate}
use cos_userspace.Load.Bounds.{Shaped, HasSizes}
use cos_userspace.Load.Update.{Updated, update_layer-Updated}
use cos_userspace.Load.Samples.{train-HasSizes, calculate_past}

abbrev naturals : Arith ℕ
naturals = record {
  of_int = λ n. n;
  add = λ x y. x + y;
  sub = λ x y. x - y;
  mul = λ x y. x * y;
  div = λ x y. x / y;
  neg = λ x. x;
  exp = λ x. x + 1;
  tanh = λ x. x;
}

abbrev small_net : NeuralNet ℕ
small_net = record {
  input_size = 2;
  hidden_size = 2;
  output_size = 1;
  w1 = 1 ∷ 2 ∷ 3 ∷ 4 ∷ [];
  b1 = 1 ∷ 0 ∷ [];
  w2 = 2 ∷ 5 ∷ [];
  b2 = 7 ∷ [];
}

small_net-Shaped : Shaped small_net
small_net-Shaped = record { w1_full = refl; b1_full = refl; w2_full = refl; b2_full = refl }

train-HasSizes_example :
    Returns (train naturals small_net (1 ∷ 2 ∷ 3 ∷ 4 ∷ []) (5 ∷ 6 ∷ []) 10 2 3) (HasSizes 2 2 1)
train-HasSizes_example =
    train-HasSizes naturals 2 2 1 (1 ∷ 2 ∷ 3 ∷ 4 ∷ []) (5 ∷ 6 ∷ []) 3 small_net 10 2
      (refl, refl, refl, small_net-Shaped) (omega arith) (omega arith)

update_layer-Updated_example :
    Returns
      (update_layer naturals 2
        (9 ∷ 8 ∷ 7 ∷ [])
        1
        2
        2
        (3 ∷ 4 ∷ [])
        0
        (1 ∷ 2 ∷ 3 ∷ 4 ∷ [])
        (1 ∷ 0 ∷ []))
      (λ r.
        Updated naturals 2
          (9 ∷ 8 ∷ 7 ∷ [])
          1
          2
          2
          (3 ∷ 4 ∷ [])
          0
          (1 ∷ 2 ∷ 3 ∷ 4 ∷ [])
          (1 ∷ 0 ∷ [])
          r.0
          r.1)
update_layer-Updated_example =
    update_layer-Updated naturals 2 (9 ∷ 8 ∷ 7 ∷ []) 1 2 2 (3 ∷ 4 ∷ []) 0 (1 ∷ 2 ∷ 3 ∷ 4 ∷ [])
      (1 ∷ 0 ∷ []) (omega arith) refl refl (omega arith)

calculate_past_example : calculate naturals 0 (λ n. n) (λ n. 1) 1 ≡ err out_of_bounds
calculate_past_example = calculate_past naturals 0 (λ n. n) (λ n. 1) 1
