-- ===== src/Tests/Benchmark.antt =====
-- Keys, queries, services and reports of the benchmark on concrete values.
use cos_userspace.Base.{
  ◌≡◌, ◌/◌, refl, false, some, [], ◌∷◌, ok, err, division_by_zero, Returns, arith, ltb, inl,
}
use cos_userspace.Rocksdb.{get, Request, options, sub_u64, ns2s}
use cos_userspace.Rocksdb.Keys.{key, to_string}
use cos_userspace.Rocksdb.Keys.Order.{before, IsNumeral, to_string-IsNumeral, before-key}
use cos_userspace.Rocksdb.Database.{num_entries, get_entry, range_query, set_up}
use cos_userspace.Rocksdb.Database.Contents.{Filled}
use cos_userspace.Rocksdb.Database.Queries.{get_entry-Filled, range_query-Filled}
use cos_userspace.Rocksdb.Database.Filling.{set_up-Filled}
use cos_userspace.Rocksdb.Source.{Draws, draw_work}
use cos_userspace.Rocksdb.Service.{spin_for, handle_request}
use cos_userspace.Rocksdb.Service.Spin.{counted, Spent, spin_for-Spent}
use cos_userspace.Rocksdb.Service.Polled.{IsFair, service_time, Served, drawn-Served}
use cos_userspace.Rocksdb.Stats.{Row, collect, should_discard, handle_stage, print_results}
use cos_userspace.Rocksdb.Stats.Ranks.{Ranked}
use cos_userspace.Rocksdb.Stats.Rows.{stage_durations, handle_stage-Ranked, print_results_early}
use cos_userspace.Tests.Shelf.{
  listed, listed-Keeps, listed-Filled, shelf, shelf-Filled, shelf-Walks,
}

to_string-IsNumeral_example : Returns (to_string 4207) (IsNumeral 4207)
to_string-IsNumeral_example = to_string-IsNumeral 4207 (omega arith)

before-key_example : Returns (key 9) (λ k. Returns (key 10) (λ k'. before k k' ≡ ltb 9 10))
before-key_example = before-key 9 10 (omega arith) (omega arith)

get_entry-Filled_example : get_entry (shelf num_entries) 1000000 tt ≡ ok false
get_entry-Filled_example =
    get_entry-Filled (shelf num_entries) num_entries tt (shelf-Filled num_entries (omega arith))
      1000000 (omega arith)

range_query-Filled_example : range_query (shelf num_entries) 995001 5000 tt ≡ ok false
range_query-Filled_example =
    range_query-Filled (shelf num_entries) num_entries tt (shelf-Filled num_entries (omega arith))
      (shelf-Walks num_entries (omega arith)) 995001 5000 (omega arith)

set_up-Filled_example : Returns (set_up listed []) (Filled listed num_entries num_entries)
set_up-Filled_example = set_up-Filled listed listed-Keeps (λ k v s. refl) [] listed-Filled

spin_for-Spent_example :
    Returns (spin_for (60 ∷ 250000 ∷ 70 ∷ 80 ∷ []) 100) (Spent 100 (60 ∷ 250000 ∷ 70 ∷ 80 ∷ []))
unfolding counted
spin_for-Spent_example = spin_for-Spent (60 ∷ 250000 ∷ 70 ∷ 80 ∷ []) 100 (ground arith)

-- Always the upper bound.
abbrev highest : Draws
highest = record { bernoulli = false; uniform = λ lo hi. hi }

highest-IsFair : IsFair highest
highest-IsFair = λ lo hi h. (h, omega arith)

drawn-Served_example :
    Returns
      (handle_request (shelf num_entries) tt 5 105 (draw_work highest) (60000 ∷ 60000 ∷ []))
      (Served (service_time (draw_work highest)) (sub_u64 105 5) (60000 ∷ 60000 ∷ []))
unfolding counted
drawn-Served_example =
    drawn-Served (shelf num_entries) tt (shelf-Walks num_entries (omega arith))
      (shelf-Filled num_entries (omega arith)) 5 105 highest (60000 ∷ 60000 ∷ []) highest-IsFair
      (ground arith)

-- A request of the worker 7.
abbrev first_request : Request
first_request = record {
  id = 0;
  request_generated = 3000000000;
  request_received = 3000000400;
  request_assigned = 3000000700;
  request_start = 3000000900;
  request_finished = 3000010900;
  work = get 12;
}

abbrev second_request : Request
second_request = record first_request { id = 1; request_generated = 2999999000 }

handle_stage-Ranked_example :
    Returns
      (handle_stage
        (first_request ∷ second_request ∷ [])
        2000000000
        (λ r. r.request_generated)
        (λ r. r.request_received)
        options)
      (λ line.
        (row : Row) × (line ≡ some row)
        × Ranked
            (stage_durations
              (first_request ∷ second_request ∷ [])
              (λ r. r.request_generated)
              (λ r. r.request_received))
            row
        × (row.throughput ≡ row.total / (2000000000 / ns2s)))
unfolding collect
handle_stage-Ranked_example =
    handle_stage-Ranked (first_request ∷ second_request ∷ []) 2000000000 (λ r. r.request_generated)
      (λ r. r.request_received) options refl (omega arith) (ground arith)

print_results_early_example :
    print_results ((7, first_request ∷ []) ∷ []) 500000000 options 1500000000 ≡ err division_by_zero
unfolding should_discard
print_results_early_example =
    print_results_early ((7, first_request ∷ []) ∷ []) 500000000 1500000000 7 options
      (first_request ∷ []) first_request refl (omega arith) (omega arith) (omega arith) (inl refl)
      (inl refl) (ground arith) (omega arith)
