-- ===== src/Rocksdb/Service.antt =====
-- `spin_for`, `HandleGet`, `HandleRange` and `HandleRequest` of workload/rocksdb.cpp. The times that
-- `spin_for` measures in its rounds are a list, and so is what is left of it; the two readings of
-- the thread's clock are arguments. It does not end as long as the list has no more to give.
pub mod Spin
pub mod Polled
use cos_userspace.Base.{
  ℕ, ◌-◌, ◌*◌, Bool, true, false, List, [], ◌∷◌, Result, ok, err, ◌>>=◌, ◌>>◌, out_of_fuel, ltb,
  ◌==◌, if◌then◌else◌,
}
use cos_userspace.Rocksdb.{sub_u64, Work, get, range}
use cos_userspace.Rocksdb.Database.{Store, get_entry, range_query}

-- What is left of `duration` after a round that took `t`; a round of 100 microseconds or more was
-- preempted and does not count.
unfoldable pub spin_round : ℕ → ℕ → ℕ
spin_round t duration =
    if ltb t 100000 then (if ltb t duration then duration - t else 0) else duration

unfoldable pub spin_for : List ℕ → ℕ → Result (List ℕ)
spin_for [] duration = if duration == 0 then ok [] else err out_of_fuel
spin_for (t ∷ ts) duration =
    let rest = spin_for ts (spin_round t duration) in if duration == 0 then ok (t ∷ ts) else rest

-- `options.get_duration` and `options.range_duration`
abbrev pub get_duration : ℕ
get_duration = 1000 * 10

abbrev pub range_duration : ℕ
range_duration = 1000 * 100

-- The lines behind the query: what is left of the service time is spent spinning.
unfoldable pub fill_up : ℕ → ℕ → ℕ → List ℕ → Result (List ℕ)
fill_up service_time start_duration now_duration samples =
    let dura = sub_u64 now_duration start_duration in
    if ltb dura service_time then spin_for samples (service_time - dura) else ok samples

module _ {S It : Type 0} (db : Store S It) (database : S) (start_duration now_duration : ℕ) where
  -- The answers of the database are not used.
  unfoldable pub handle_get : ℕ → List ℕ → Result (List ℕ)
  handle_get entry samples = get_entry db entry database >>= λ found.
      fill_up get_duration start_duration now_duration samples

  unfoldable pub handle_range : ℕ → ℕ → List ℕ → Result (List ℕ)
  handle_range start_entry size samples = range_query db start_entry size database >>= λ found.
      fill_up range_duration start_duration now_duration samples

  unfoldable pub handle_request : Work → List ℕ → Result (List ℕ)
  handle_request (get entry) samples = handle_get entry samples
  handle_request (range start_entry size) samples = handle_range start_entry size samples
