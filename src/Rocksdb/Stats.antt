-- ===== src/Rocksdb/Stats.antt =====
-- The results that workload/rocksdb.cpp prints. The printing itself is left out: a line is a row of
-- numbers, or none for the line of dashes. A product of a size and a decimal fraction is written
-- with whole numbers; the size is odd, so the product is no whole number, and below 2 ^ 40 its
-- distance to one is larger than what `double` rounds off.
pub mod Ranks
pub mod Rows
use cos_userspace.Base.{
  ℕ, ◌+◌, ◌-◌, ◌*◌, ◌/◌, ◌%◌, Bool, true, false, not, Option, none, some, List, [], ◌∷◌, ◌++◌,
  Result, ok, err, ◌>>=◌, division_by_zero, out_of_bounds, ltb, leb, ◌==◌, if◌then◌else◌, length,
  get_elem?,
}
use cos_userspace.Rocksdb.{u64_mod, sub_u64, Request, Options, ns2s}

-- `std::sort`
unfoldable pub insert_sorted : ℕ → List ℕ → List ℕ
insert_sorted x [] = x ∷ []
insert_sorted x (y ∷ ys) = let rest = insert_sorted x ys in if leb x y then x ∷ y ∷ ys else y ∷ rest

unfoldable pub sort : List ℕ → List ℕ
sort [] = []
sort (x ∷ xs) = insert_sorted x (sort xs)

-- The loop of `GetStageResults`.
unfoldable pub collect : (Request → Bool) → (Request → ℕ) → List Request → List ℕ
collect should_include difference [] = []
collect should_include difference (r ∷ rs) =
    let rest = collect should_include difference rs in
    if should_include r then difference r ∷ rest else rest

unfoldable pub get_stage_results : List Request → (Request → Bool) → (Request → ℕ) → List ℕ
get_stage_results requests should_include difference =
    sort (collect should_include difference requests)

-- `Results<uint64_t>`
pub record Row : Type 0 where
  pub total : ℕ
  pub throughput : ℕ
  pub min : ℕ
  pub fifty : ℕ
  pub ninetynine : ℕ
  pub ninetyninefive : ℕ
  pub ninetyninenine : ℕ
  pub max : ℕ

-- `durations.at(i)`, which throws out of range.
unfoldable pub at : List ℕ → ℕ → Result ℕ
at durations i = elim (get_elem? durations i) [ some d ↦ ok d | none ↦ err out_of_bounds ]

unfoldable pub divide : ℕ → ℕ → Result ℕ
divide a b = if b == 0 then err division_by_zero else ok (a / b)

-- `size` of `PrintStage`.
abbrev pub odd_size : ℕ → ℕ
odd_size n = if n % 2 == 0 then n - 1 else n

unfoldable pub fill_row : List ℕ → ℕ → ℕ → Result Row
fill_row durations throughput divisor = do
  let n = length durations
  min ← at durations 0
  fifty ← at durations (odd_size n / 2)
  ninetynine ← at durations (odd_size n * 99 / 100)
  ninetyninefive ← at durations (odd_size n * 995 / 1000)
  ninetyninenine ← at durations (odd_size n * 999 / 1000)
  max ← at durations (n - 1)
  ok (record {
    total = n;
    throughput = throughput;
    min = min / divisor;
    fifty = fifty / divisor;
    ninetynine = ninetynine / divisor;
    ninetyninefive = ninetyninefive / divisor;
    ninetyninenine = ninetyninenine / divisor;
    max = max / divisor;
  })

unfoldable pub print_stage : List ℕ → ℕ → Options → Result (Option Row)
print_stage [] runtime options = ok none
print_stage (d ∷ ds) runtime options = divide (length (d ∷ ds)) (runtime / ns2s) >>= λ throughput.
    fill_row (d ∷ ds) throughput (if options.ns then 1 else 1000) >>= λ row. ok (some row)

-- `HANDLE_STAGE`
unfoldable pub handle_stage :
    List Request → ℕ → (Request → ℕ) → (Request → ℕ) → Options → Result (Option Row)
handle_stage requests runtime first_timestamp second_timestamp options =
    print_stage
      (get_stage_results requests (λ r. not (second_timestamp r == 0))
        (λ r. sub_u64 (second_timestamp r) (first_timestamp r)))
      runtime options

-- `Print`
unfoldable pub print : List Request → ℕ → Options → Result (List (Option Row))
print requests runtime options =
    let last =
      handle_stage requests runtime (λ r. r.request_generated) (λ r. r.request_finished) options in
    elim options.print_last [
      | true ↦ do total ← last; ok (total ∷ [])
      | false ↦ do
        ingress ←
            handle_stage requests runtime (λ r. r.request_generated) (λ r. r.request_received)
              options
        handle ←
            handle_stage requests runtime (λ r. r.request_received) (λ r. r.request_assigned)
              options
        queue ←
            handle_stage requests runtime (λ r. r.request_assigned) (λ r. r.request_start) options
        service ←
            handle_stage requests runtime (λ r. r.request_start) (λ r. r.request_finished) options
        total ← last
        ok (ingress ∷ handle ∷ queue ∷ service ∷ total ∷ [])
    ]

-- The inner loop of `FilterRequests`, over the requests of one worker.
unfoldable pub keep : (Request → Bool) → List Request → List Request
keep should_include [] = []
keep should_include (r ∷ rs) =
    let rest = keep should_include rs in if should_include r then r ∷ rest else rest

-- `FilterRequests`, over the workers in the order of their numbers.
unfoldable pub filter_requests : List (ℕ × List Request) → (Request → Bool) → List Request
filter_requests [] should_include = []
filter_requests ((tid, rs) ∷ rest) should_include =
    keep should_include rs ++ filter_requests rest should_include

-- `ShouldDiscard`, with the start of the experiment in nanoseconds.
unfoldable pub should_discard : ℕ → Options → Request → Bool
should_discard start_time options r =
    ltb r.request_generated ((start_time + options.discard_duration * ns2s) % u64_mod)

-- `PrintResults`
unfoldable pub print_results :
    List (ℕ × List Request) → ℕ → Options → ℕ → Result (List (Option Row))
print_results requests start_time options experiment_duration =
    print (filter_requests requests (λ r. not (should_discard start_time options r)))
      (sub_u64 experiment_duration (options.discard_duration * ns2s % u64_mod)) options
