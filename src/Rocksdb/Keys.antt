-- ===== src/Rocksdb/Keys.antt =====
-- `Database::to_string`, `Key` and `Value` of workload/rocksdb.cpp. A text is the list of its bytes.
pub mod Order
use cos_userspace.Base.{
  ℕ, zero, suc, ◌+◌, ◌-◌, ◌/◌, ◌%◌, Bool, true, false, List, [], ◌∷◌, ◌++◌, Result, ok, ◌>>=◌, ◌>>◌,
  require, assert_failed, ltb, leb, if◌then◌else◌, length,
}

-- `kNumLength`
abbrev pub num_length : ℕ
num_length = 16

-- `std::to_string`, with fuel for its digits.
unfoldable pub decimal : ℕ → ℕ → List ℕ
decimal zero n = []
decimal (suc fuel) n =
    let front = decimal fuel (n / 10) in
    if ltb n 10 then (b'0' + n) ∷ [] else front ++ (b'0' + n % 10) ∷ []

-- A `uint32_t` has 10 digits at most.
abbrev pub max_digits : ℕ
max_digits = 10

-- `std::string(n, '0')`
unfoldable pub zeros : ℕ → List ℕ
zeros zero = []
zeros (suc n) = b'0' ∷ zeros n

unfoldable pub to_string : ℕ → Result (List ℕ)
to_string entry =
    let s = decimal max_digits entry in
    require (leb (length s) num_length) assert_failed >> ok (zeros (num_length - length s) ++ s)

unfoldable pub key : ℕ → Result (List ℕ)
key entry = to_string entry >>= λ s. ok (b'k' ∷ b'e' ∷ b'y' ∷ s)

unfoldable pub value : ℕ → Result (List ℕ)
value entry = to_string entry >>= λ s. ok (b'v' ∷ b'a' ∷ b'l' ∷ b'u' ∷ b'e' ∷ s)
