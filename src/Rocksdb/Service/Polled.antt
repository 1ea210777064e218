-- ===== src/Rocksdb/Service/Polled.antt =====
-- A request on its way from the network through the database.
use cos_userspace.Base.{
  ℕ, ◌+◌, ◌-◌, ◌<◌, ◌≤◌, ◌≡◌, refl, List, [], ◌∷◌, ◌++◌, Returns, arith, ltb, Bool-cases, inl, inr,
}
use cos_userspace.Rocksdb.{sub_u64, Work, get, range}
use cos_userspace.Rocksdb.Database.{Store, num_entries}
use cos_userspace.Rocksdb.Database.Contents.{Walks, Filled}
use cos_userspace.Rocksdb.Database.Queries.{get_entry-Filled, range_query-Filled}
use cos_userspace.Rocksdb.Source.{range_query_size, Draws, draw_work}
use cos_userspace.Rocksdb.Service.{fill_up, handle_get, handle_range, handle_request}
use cos_userspace.Rocksdb.Service.Spin.{counted, no_last, spin_for-Spent}

-- A number from a range lies in it.
abbrev pub IsFair : Draws → Type 0
IsFair draws = (lo hi : ℕ) → lo ≤ hi → (lo ≤ draws.uniform lo hi) × (draws.uniform lo hi ≤ hi)

-- How long a request takes, in nanoseconds.
abbrev pub service_time : Work → ℕ
service_time (get entry) = 10000
service_time (range start_entry size) = 100000

-- Between the two readings and in the rounds of the spinning that count, `least` has passed, and
-- without the last of these rounds it has not; if it has passed between the readings, there is no
-- round.
pub record Served (least dura : ℕ) (samples rest : List ℕ) : Type 0 where
  pub used : List ℕ
  pub split : samples ≡ used ++ rest
  pub long : least ≤ dura + counted used
  pub needed :
      (before : List ℕ) (last : ℕ) → used ≡ before ++ last ∷ [] → dura + counted before < least

fill_up-Served :
    (least start_duration now_duration : ℕ) (samples : List ℕ)
    → least ≤ counted samples
    → Returns
        (fill_up least start_duration now_duration samples)
        (Served least (sub_u64 now_duration start_duration) samples)
unfolding fill_up counted
fill_up-Served least start_duration now_duration samples h =
    let dura = sub_u64 now_duration start_duration in
    elim (Bool-cases (ltb dura least)) [
      | inl short ↦
          let (rest, run, s) = spin_for-Spent samples (least - dura) (omega (arith, h)) in
          (
            rest,
            rw (short, fill_up) run,
            record {
              used = s.used;
              split = s.split;
              long = omega (arith, s.enough);
              needed = λ before last e. let less = s.needed before last e in ground (arith, less);
            },
          )
      | inr long ↦ (
        samples,
        rw (long, fill_up) refl,
        record {
          used = [];
          split = refl;
          long = ground arith;
          needed = λ before last e. absurd (no_last before last e);
        },
      )
    ]

module _ {S It : Type 0} (db : Store S It) (s : S) (walks : Walks db)
    (filled : Filled db num_entries num_entries s) (start_duration now_duration : ℕ) where
  -- With iterators that keep the contract `Walks`, a database with exactly the entries below
  -- `num_entries`, draws within their bounds, and enough time in the rounds of the spinning that
  -- count, the handling of a request that the network draws ends without a failed assertion; what
  -- the clock and the rounds that it used measured is at least the service time, 10000 for a Get
  -- and 100000 for a range query, and without the last of these rounds it is less.
  pub drawn-Served :
      (draws : Draws) (samples : List ℕ)
      → IsFair draws
      → 100000 ≤ counted samples
      → Returns
          (handle_request db s start_duration now_duration (draw_work draws) samples)
          (Served (service_time (draw_work draws)) (sub_u64 now_duration start_duration) samples)
  unfolding handle_request handle_get handle_range draw_work
  drawn-Served draws samples fair h = elim (Bool-cases draws.bernoulli) [
    | inl reads ↦
        let (low, high) = fair 0 num_entries (omega arith) in
        rw
          (
            reads,
            get_entry-Filled db num_entries s filled (draws.uniform 0 num_entries)
                (omega (arith, high)),
          )
          (fill_up-Served 10000 start_duration now_duration samples (omega (arith, h)))
    | inr walks_over ↦
        let top = num_entries - range_query_size + 1 in
        let (low, high) = fair 0 top (omega arith) in
        rw
          (
            walks_over,
            range_query-Filled db num_entries s filled walks (draws.uniform 0 top) range_query_size
                (omega (arith, high)),
          )
          (fill_up-Served 100000 start_duration now_duration samples h)
  ]
