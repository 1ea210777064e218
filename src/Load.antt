-- ===== src/Load.antt =====
-- The neural network of workload/cgroup_latency_load.cpp. The arithmetic of `double` is a parameter,
-- with no law. An array is the list of its elements, and an access past its end, which is undefined
-- behaviour, is a fault; a pointer into an array is the array and an offset. An array that a loop
-- fills from its front is the list of what is in it so far. The sizes are small, so no product of
-- them leaves `int`.
pub mod Bounds
pub mod Training
pub mod Update
pub mod Samples
use cos_userspace.Base.{
  ℕ, zero, suc, ◌+◌, ◌*◌, List, [], ◌∷◌, Result, ok, err, ◌>>=◌, out_of_bounds,
}

pub record Arith (R : Type 0) : Type 0 where
  pub of_int : ℕ → R
  pub add : R → R → R
  pub sub : R → R → R
  pub mul : R → R → R
  pub div : R → R → R
  pub neg : R → R
  pub exp : R → R
  pub tanh : R → R

unfoldable pub load {ℓ} : {R : Type ℓ} → List R → ℕ → Result R
load [] i = err out_of_bounds
load (x ∷ xs) zero = ok x
load (x ∷ xs) (suc i) = load xs i

unfoldable pub store {ℓ} : {R : Type ℓ} → List R → ℕ → R → Result (List R)
store [] i v = err out_of_bounds
store (x ∷ xs) zero v = ok (v ∷ xs)
store (x ∷ xs) (suc i) v = store xs i v >>= λ ys. ok (x ∷ ys)

-- What `malloc` gives: elements of any value.
unfoldable pub malloc {ℓ} : {R : Type ℓ} → R → ℕ → List R
malloc raw zero = []
malloc raw (suc n) = raw ∷ malloc raw n

pub record NeuralNet (R : Type 0) : Type 0 where
  pub input_size : ℕ
  pub hidden_size : ℕ
  pub output_size : ℕ
  pub w1 : List R
  pub b1 : List R
  pub w2 : List R
  pub b2 : List R

-- The loops of `init_net`: the rounds that are left, from `i` on, with random numbers from `k` on.
unfoldable pub randomize : {R : Type 0} → (ℕ → R) → ℕ → ℕ → ℕ → List R → Result (List R)
randomize rand zero i k xs = ok xs
randomize rand (suc n) i k xs = store xs i (rand k) >>= randomize rand n (i + 1) (k + 1)

unfoldable pub init_net : {R : Type 0} → R → (ℕ → R) → ℕ → ℕ → ℕ → Result (NeuralNet R)
init_net raw rand input_size hidden_size output_size = do
  let n1 = input_size * hidden_size
  let n2 = hidden_size * output_size
  w1 ← randomize rand n1 0 0 (malloc raw n1)
  w2 ← randomize rand n2 0 n1 (malloc raw n2)
  b1 ← randomize rand hidden_size 0 (n1 + n2) (malloc raw hidden_size)
  b2 ← randomize rand output_size 0 (n1 + n2 + hidden_size) (malloc raw output_size)
  ok (record {
    input_size = input_size;
    hidden_size = hidden_size;
    output_size = output_size;
    w1 = w1;
    b1 = b1;
    w2 = w2;
    b2 = b2;
  })

module _ {R : Type 0} (num : Arith R) where
  unfoldable pub sigmoid : R → R
  sigmoid x = num.div (num.of_int 1) (num.add (num.of_int 1) (num.exp (num.neg x)))

  -- The loop over `j` of a layer, for its element `i`.
  unfoldable pub weigh : List R → ℕ → List R → ℕ → ℕ → ℕ → ℕ → R → Result R
  weigh xs base weights width i zero j acc = ok acc
  weigh xs base weights width i (suc n) j acc = load xs (base + j) >>= λ x.
      load weights (j * width + i) >>= λ w.
      weigh xs base weights width i n (j + 1) (num.add acc (num.mul x w))

  -- The elements of a layer, from `i` on, before or behind an activation.
  unfoldable pub layer : (R → R) → List R → ℕ → ℕ → List R → List R → ℕ → ℕ → ℕ → Result (List R)
  layer activate xs base inner weights bias width zero i = ok []
  layer activate xs base inner weights bias width (suc n) i =
      weigh xs base weights width i inner 0 (num.of_int 0) >>= λ s. load bias i >>= λ b.
      layer activate xs base inner weights bias width n (i + 1) >>= λ rest.
      ok (activate (num.add s b) ∷ rest)

  unfoldable pub hidden_layer : NeuralNet R → List R → ℕ → Result (List R)
  hidden_layer net input base =
      layer num.tanh input base net.input_size net.w1 net.b1 net.hidden_size net.hidden_size 0

  unfoldable pub output_layer : NeuralNet R → List R → Result (List R)
  output_layer net h1 =
      layer (λ x. x) h1 0 net.hidden_size net.w2 net.b2 net.output_size net.output_size 0

  -- The loop behind the layers of `forward`.
  unfoldable pub put_outputs : List R → ℕ → List R → Result (List R)
  put_outputs [] i output = ok output
  put_outputs (h ∷ h2) i output = store output i (sigmoid h) >>= put_outputs h2 (i + 1)

  unfoldable pub forward : NeuralNet R → List R → ℕ → List R → Result (List R)
  forward net input base output = do
    h1 ← hidden_layer net input base
    h2 ← output_layer net h1
    put_outputs h2 0 output

  -- `delta2`, with the target at `base`.
  unfoldable pub output_errors : List R → List R → ℕ → ℕ → Result (List R)
  output_errors [] target base i = ok []
  output_errors (h ∷ h2) target base i = load target (base + i) >>= λ t.
      output_errors h2 target base (i + 1) >>= λ rest.
      let s = sigmoid h in ok (num.mul (num.mul s (num.sub (num.of_int 1) s)) (num.sub t s) ∷ rest)

  -- The loop over `j` for `delta1[i]`.
  unfoldable pub propagate : List R → List R → ℕ → ℕ → ℕ → ℕ → R → Result R
  propagate delta2 weights width i zero j acc = ok acc
  propagate delta2 weights width i (suc n) j acc = load delta2 j >>= λ d.
      load weights (i * width + j) >>= λ w.
      propagate delta2 weights width i n (j + 1) (num.add acc (num.mul d w))

  -- `delta1`
  unfoldable pub hidden_errors : List R → List R → List R → ℕ → ℕ → Result (List R)
  hidden_errors [] delta2 weights width i = ok []
  hidden_errors (h ∷ h1) delta2 weights width i =
      propagate delta2 weights width i width 0 (num.of_int 0) >>= λ d.
      hidden_errors h1 delta2 weights width (i + 1) >>= λ rest.
      ok (num.mul d (num.mul (num.sub (num.of_int 1) h) (num.add (num.of_int 1) h)) ∷ rest)

  -- The loop over `j` of an update, for the element `i` of a layer.
  unfoldable pub update_weights : List R → ℕ → ℕ → ℕ → R → ℕ → ℕ → List R → Result (List R)
  update_weights xs base width i rate zero j weights = ok weights
  update_weights xs base width i rate (suc n) j weights = load xs (base + j) >>= λ x.
      load weights (j * width + i) >>= λ w.
      store weights (j * width + i) (num.add w (num.mul rate x))
      >>= update_weights xs base width i rate n (j + 1)

  -- The update of a layer, from its element `i` on.
  unfoldable pub update_layer :
      R → List R → ℕ → ℕ → ℕ → List R → ℕ → List R → List R → Result (List R × List R)
  update_layer learning_rate xs base inner width [] i weights bias = ok (weights, bias)
  update_layer learning_rate xs base inner width (d ∷ delta) i weights bias =
      update_weights xs base width i (num.mul learning_rate d) inner 0 weights >>= λ weights'.
      load bias i >>= λ b. store bias i (num.add b (num.mul learning_rate d)) >>= λ bias'.
      update_layer learning_rate xs base inner width delta (i + 1) weights' bias'

  unfoldable pub backward : NeuralNet R → List R → ℕ → List R → ℕ → R → Result (NeuralNet R)
  backward net input base target target_base learning_rate = do
    h1 ← hidden_layer net input base
    h2 ← output_layer net h1
    delta2 ← output_errors h2 target target_base 0
    delta1 ← hidden_errors h1 delta2 net.w2 net.output_size 0
    first ←
        update_layer learning_rate input base net.input_size net.hidden_size delta1 0 net.w1 net.b1
    second ← update_layer learning_rate h1 0 net.hidden_size net.output_size delta2 0 net.w2 net.b2
    ok (record net { w1 = first.0; b1 = first.1; w2 = second.0; b2 = second.1 })

  -- The inner loop of `train`: the rounds that are left, from `j` on.
  unfoldable pub train_inputs : List R → List R → R → ℕ → ℕ → NeuralNet R → Result (NeuralNet R)
  train_inputs inputs targets learning_rate zero j net = ok net
  train_inputs inputs targets learning_rate (suc n) j net =
      backward net inputs (j * net.input_size) targets (j * net.output_size) learning_rate
      >>= train_inputs inputs targets learning_rate n (j + 1)

  unfoldable pub train : NeuralNet R → List R → List R → ℕ → ℕ → R → Result (NeuralNet R)
  train net inputs targets zero num_inputs learning_rate = ok net
  train net inputs targets (suc num_epochs) num_inputs learning_rate =
      train_inputs inputs targets learning_rate num_inputs 0 net >>= λ net'.
      train net' inputs targets num_epochs num_inputs learning_rate

  -- One round of `do_calculate`, with what `dis` draws.
  unfoldable pub calculate : R → (ℕ → R) → (ℕ → R) → R → Result (List R)
  calculate raw rand dis learning_rate = do
    net ← init_net raw rand 2 3 1
    let inputs = dis 0 ∷ dis 1 ∷ dis 2 ∷ dis 3 ∷ dis 4 ∷ dis 5 ∷ dis 6 ∷ dis 7 ∷ []
    let targets = dis 8 ∷ dis 9 ∷ dis 10 ∷ dis 11 ∷ []
    trained ← train net inputs targets 1000 8 learning_rate
    forward trained inputs 0 (raw ∷ [])
