-- ===== src/Rocksdb/Stats/Rows.antt =====
-- Whole lines of the report, and the report that comes too early.
use cos_userspace.Base.{
  ℕ, ◌+◌, ◌-◌, ◌*◌, ◌/◌, ◌%◌, ◌<◌, ◌≤◌, ◌≡◌, ◌≢◌, refl, sym, ap, subst, ◌∙◌, Bool, true, false, not,
  some, List, [], ◌∷◌, ◌++◌, ok, err, division_by_zero, arith, ◌==◌, length, Returns, Bool-cases,
  inl, inr, ◌⊎◌, In,
}
use cos_userspace.Rocksdb.{u64_mod, sub_u64, Request, Options, ns2s}
use cos_userspace.Rocksdb.Stats.{
  sort, collect, get_stage_results, Row, divide, odd_size, fill_row, print_stage, handle_stage,
  print, keep, filter_requests, should_discard, print_results,
}
use cos_userspace.Rocksdb.Stats.Ranks.{
  IsAscending, sort-IsAscending, at_most-sort, IsRank-sort, length-sort, get_some, odd_size-bounds,
  Ranked, row_of, row_is, row_of-Ranked,
}

fill_row-Ranked :
    (ds : List ℕ) (throughput : ℕ)
    → IsAscending ds
    → 0 < length ds
    → Returns (fill_row ds throughput 1) (λ row. Ranked ds row × (row.throughput ≡ throughput))
fill_row-Ranked ds throughput s h =
    let n = length ds in
    let k = odd_size n in
    let (large, small) = odd_size-bounds n h in
    let (v0, a0) = get_some ds 0 h in
    let (v1, a1) = get_some ds (k / 2) (omega arith) in
    let (v2, a2) = get_some ds (k * 99 / 100) (omega arith) in
    let (v3, a3) = get_some ds (k * 995 / 1000) (omega arith) in
    let (v4, a4) = get_some ds (k * 999 / 1000) (omega arith) in
    let (v5, a5) = get_some ds (n - 1) (omega arith) in
    (
      row_of ds throughput v0 v1 v2 v3 v4 v5 a0 a1 a2 a3 a4 a5,
      row_is ds throughput v0 v1 v2 v3 v4 v5 a0 a1 a2 a3 a4 a5,
      (row_of-Ranked ds throughput v0 v1 v2 v3 v4 v5 a0 a1 a2 a3 a4 a5 s h, refl),
    )

Ranked-sort : (ds : List ℕ) (row : Row) → Ranked (sort ds) row → Ranked ds row
Ranked-sort ds row r =
    let same = length-sort ds in
    record {
      all_counted = r.all_counted ∙ same;
      ascends = r.ascends;
      none_below = λ v small. sym (at_most-sort v ds) ∙ r.none_below v small;
      none_above = sym (at_most-sort row.max ds) ∙ r.none_above ∙ same;
      least = IsRank-sort ds _ _ row.min refl r.least;
      greatest = IsRank-sort ds _ _ row.max (ap (λ n. n - 1) same) r.greatest;
      half = IsRank-sort ds _ _ row.fifty (ap (λ n. (n + n % 2 - 1) / 2) same) r.half;
      most = IsRank-sort ds _ _ row.ninetynine (ap (λ n. (n + n % 2 - 1) * 99 / 100) same) r.most;
      more =
          IsRank-sort ds _ _ row.ninetyninefive (ap (λ n. (n + n % 2 - 1) * 995 / 1000) same)
            r.more;
      nearly_all =
          IsRank-sort ds _ _ row.ninetyninenine (ap (λ n. (n + n % 2 - 1) * 999 / 1000) same)
            r.nearly_all;
    }

print_stage_short :
    (ds : List ℕ) (runtime : ℕ) (options : Options)
    → 0 < length ds
    → runtime < ns2s
    → print_stage ds runtime options ≡ err division_by_zero
unfolding print_stage divide
print_stage_short [] runtime options h e = absurd (omega arith)
print_stage_short (d ∷ ds) runtime options h e =
    let none_left : runtime / ns2s ≡ 0 = omega arith in rw none_left refl

print_stage_long :
    (ds : List ℕ) (runtime : ℕ) (options : Options) (row : Row)
    → 0 < length ds
    → ns2s ≤ runtime
    → options.ns ≡ true
    → fill_row ds (length ds / (runtime / ns2s)) 1 ≡ ok row
    → print_stage ds runtime options ≡ ok (some row)
unfolding print_stage divide
print_stage_long [] runtime options row h e n run = absurd (omega arith)
print_stage_long (d ∷ ds) runtime options row h e n run =
    let some_left : ((runtime / ns2s) == 0) ≡ false = ground arith in rw (some_left, n, run) refl

-- The durations of a stage, in the order of the requests.
abbrev pub stage_durations : List Request → (Request → ℕ) → (Request → ℕ) → List ℕ
stage_durations requests first second =
    collect (λ r. not (second r == 0)) (λ r. sub_u64 (second r) (first r)) requests

-- With nanoseconds as the unit, a runtime of a second or more and at least one request that has
-- the second time stamp, a stage prints a line, whose numbers stand to the durations of the stage
-- as `Ranked` says: the number of durations, the least and the greatest of them, and four
-- percentiles, each of which is what stands at its index when the durations are in order: no more
-- of them than the index are less, and more of them than the index are at most as large. The
-- throughput is the number of durations by the whole seconds.
pub handle_stage-Ranked :
    (requests : List Request) (runtime : ℕ) (first second : Request → ℕ) (options : Options)
    → options.ns ≡ true
    → ns2s ≤ runtime
    → 0 < length (stage_durations requests first second)
    → Returns (handle_stage requests runtime first second options) (λ line.
      (row : Row) × (line ≡ some row)
      × Ranked (stage_durations requests first second) row
      × (row.throughput ≡ row.total / (runtime / ns2s)))
unfolding handle_stage get_stage_results
handle_stage-Ranked requests runtime first second options e h k =
    let ds = stage_durations requests first second in
    let same = length-sort ds in
    let (row, run, (good, t)) =
      fill_row-Ranked (sort ds) (length (sort ds) / (runtime / ns2s)) (sort-IsAscending ds)
        (omega (arith, same)) in
    let fair = Ranked-sort ds row good in
    (
      some row,
      print_stage_long (sort ds) runtime options row (omega (arith, same)) h e run,
      (row, refl, fair, t ∙ ap (λ n. n / (runtime / ns2s)) (sym good.all_counted)),
    )

collect-some :
    (should_include : Request → Bool) (difference : Request → ℕ) (r : Request) (rs : List Request)
    → In r rs
    → should_include r ≡ true
    → 0 < length (collect should_include difference rs)
unfolding collect
collect-some should_include difference r [] i e = absurd i
collect-some should_include difference r (x ∷ rs) i e = elim (Bool-cases (should_include x)) [
  | inl kept ↦ rw (kept, collect) (omega arith)
  | inr left_out ↦
      rw (left_out, collect)
        (elim i [
          | inl same ↦ absurd (ground (arith, same))
          | inr later ↦ collect-some should_include difference r rs later e
        ])
]

In-append : (r : Request) (xs ys : List Request) → In r xs ⊎ In r ys → In r (xs ++ ys)
In-append r [] ys (inl i) = absurd i
In-append r [] ys (inr i) = i
In-append r (x ∷ xs) ys (inl (inl e)) = inl e
In-append r (x ∷ xs) ys (inl (inr i)) = inr (In-append r xs ys (inl i))
In-append r (x ∷ xs) ys (inr i) = inr (In-append r xs ys (inr i))

keep-In :
    (should_include : Request → Bool) (r : Request) (rs : List Request)
    → In r rs
    → should_include r ≡ true
    → In r (keep should_include rs)
unfolding keep
keep-In should_include r [] i e = absurd i
keep-In should_include r (x ∷ rs) i e = elim (Bool-cases (should_include x)) [
  | inl kept ↦
      rw (kept, keep)
        (elim i [ inl same ↦ inl same | inr later ↦ inr (keep-In should_include r rs later e) ])
  | inr left_out ↦
      rw (left_out, keep)
        (elim i [
          | inl same ↦ absurd (ground (arith, same))
          | inr later ↦ keep-In should_include r rs later e
        ])
]

filter_requests-In :
    (should_include : Request → Bool) (tid : ℕ) (r : Request) (rs : List Request)
    (requests : List (ℕ × List Request))
    → In (tid, rs) requests
    → In r rs
    → should_include r ≡ true
    → In r (filter_requests requests should_include)
unfolding filter_requests
filter_requests-In should_include tid r rs [] i j e = absurd i
filter_requests-In should_include tid r rs ((u, xs) ∷ rest) (inl same) j e =
    In-append r (keep should_include xs) (filter_requests rest should_include) (
      inl
        (keep-In should_include r xs (subst (In r) (ap (λ (p : ℕ × List Request). p.1) same) j) e))
filter_requests-In should_include tid r rs ((u, xs) ∷ rest) (inr i) j e =
    In-append r (keep should_include xs) (filter_requests rest should_include)
      (inr (filter_requests-In should_include tid r rs rest i j e))

print_first-err :
    (requests : List Request) (runtime : ℕ) (options : Options)
    → options.print_last ≡ false
    → handle_stage requests runtime (λ r. r.request_generated) (λ r. r.request_received) options
      ≡ err division_by_zero
    → print requests runtime options ≡ err division_by_zero
unfolding print
print_first-err requests runtime options last e = ground (arith, last, e)

-- When the experiment lasts as long as the discard period and less than a second longer, below 2 ^
-- 64 nanoseconds, all stages are printed, and there is a request that was received and is not
-- discarded, `PrintResults` divides by zero.
pub print_results_early :
    (requests : List (ℕ × List Request)) (start_time experiment_duration tid : ℕ)
    (options : Options) (rs : List Request) (r : Request)
    → options.print_last ≡ false
    → options.discard_duration * ns2s ≤ experiment_duration
    → experiment_duration < options.discard_duration * ns2s + ns2s
    → experiment_duration < u64_mod
    → In (tid, rs) requests
    → In r rs
    → should_discard start_time options r ≡ false
    → r.request_received ≢ 0
    → print_results requests start_time options experiment_duration ≡ err division_by_zero
unfolding print_results handle_stage get_stage_results
print_results_early requests start_time experiment_duration tid options rs r last enough short fits
      i j kept received =
    let kept_all = filter_requests requests (λ x. not (should_discard start_time options x)) in
    let there =
      filter_requests-In (λ x. not (should_discard start_time options x)) tid r rs requests i j
        (rw kept refl) in
    let some_there : 0
        < length (stage_durations kept_all (λ x. x.request_generated) (λ x. x.request_received)) =
      collect-some _ _ r kept_all there (ground (arith, received)) in
    let stage =
      print_stage_short
        (sort (stage_durations kept_all (λ x. x.request_generated) (λ x. x.request_received)))
        (sub_u64 experiment_duration (options.discard_duration * ns2s % u64_mod)) options
        (omega (
          arith,
          some_there,
          length-sort
              (stage_durations kept_all (λ x. x.request_generated) (λ x. x.request_received)),
        ))
        (omega arith) in
    print_first-err kept_all _ options last stage
