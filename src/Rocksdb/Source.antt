-- ===== src/Rocksdb/Source.antt =====
-- `Ingress` and `NetWork` of workload/rocksdb.cpp. The clock's readings, the time to the next
-- arrival and the draws of the random distributions are arguments.
use cos_userspace.Base.{
  ℕ, ◌+◌, ◌-◌, ◌%◌, Bool, true, false, Option, none, some, Result, ok, ◌>>=◌, ◌>>◌, require,
  assert_failed, ltb, leb, if◌then◌else◌,
}
use cos_userspace.Rocksdb.{u64_mod, Work, get, range, Request}
use cos_userspace.Rocksdb.Database.{num_entries}

-- `Ingress`, with the arrival time of the next request.
pub record Ingress : Type 0 where
  pub start : ℕ

-- `HasNewArrival`: the arrival time of a request that waits, if one does.
unfoldable pub has_new_arrival : ℕ → ℕ → Ingress → Result (Option ℕ × Ingress)
has_new_arrival now next ingress =
    require (ltb 0 ingress.start) assert_failed
    >> (if leb ingress.start now
        then ok (some ingress.start, record { start = (ingress.start + next) % u64_mod })
        else ok (none, ingress))

-- `kRangeQuerySize`
abbrev pub range_query_size : ℕ
range_query_size = 5000

-- What the random number generator answers: whether the request is a `Get`, and a number of
-- `uniform_int_distribution`, whose bounds it may reach.
pub record Draws : Type 0 where
  pub bernoulli : Bool
  pub uniform : ℕ → ℕ → ℕ

unfoldable pub draw_work : Draws → Work
draw_work draws =
    if draws.bernoulli
    then get (draws.uniform 0 num_entries)
    else range (draws.uniform 0 (num_entries - range_query_size + 1)) range_query_size

-- `PollRequest`, once the network is started, with two readings of the clock.
unfoldable pub poll_request :
    ℕ → ℕ → ℕ → Draws → Request → Ingress → Result ((Bool × Request) × Ingress)
poll_request now received next draws request ingress = has_new_arrival now next ingress >>= λ r.
    ok (elim r.0 [
      | none ↦ ((false, request), r.1)
      | some arrival ↦ (
        (
          true,
          record request {
            work = draw_work draws;
            request_generated = arrival;
            request_received = received;
          },
        ),
        r.1,
      )
    ])
