-- ===== src/Rocksdb/Keys/Order.antt =====
-- Keys as numbers, and their order as texts.
use cos_userspace.Base.{
  ℕ, zero, suc, ◌+◌, ◌-◌, ◌*◌, ◌/◌, ◌%◌, ◌^◌, ◌<◌, ◌≤◌, ◌≡◌, refl, sym, ap, ◌∙◌, Bool, true, false,
  List, [], ◌∷◌, ◌++◌, ltb, leb, arith, if◌then◌else◌, length, length-append, All, All-append,
  Returns, Bool-cases, inl, inr,
}
use cos_userspace.Rocksdb.Keys.{num_length, decimal, max_digits, zeros, to_string, key}

-- The number that a text of digits stands for, with `acc` for what stands before it.
unfoldable pub number : ℕ → List ℕ → ℕ
number acc [] = acc
number acc (c ∷ cs) = number (acc * 10 + (c - b'0')) cs

abbrev pub IsDigit : ℕ → Type 0
IsDigit c = (b'0' ≤ c) × (c ≤ b'9')

-- The order of texts byte by byte, the order of the keys in RocksDB.
unfoldable pub before : List ℕ → List ℕ → Bool
before [] [] = false
before [] (y ∷ ys) = true
before (x ∷ xs) [] = false
before (x ∷ xs) (y ∷ ys) =
    let rest = before xs ys in if ltb x y then true else if ltb y x then false else rest

-- 10 ^ n
unfoldable pub tens : ℕ → ℕ
tens zero = 1
tens (suc n) = 10 * tens n

number-append : (acc : ℕ) (xs ys : List ℕ) → number acc (xs ++ ys) ≡ number (number acc xs) ys
unfolding number
number-append acc [] ys = refl
number-append acc (x ∷ xs) ys = number-append (acc * 10 + (x - b'0')) xs ys

fuel_left : (fuel n : ℕ) → n < tens (suc fuel) → ltb n 10 ≡ false → 0 < fuel
unfolding tens
fuel_left zero n h e = ground arith
fuel_left (suc fuel) n h e = omega arith

number-decimal : (fuel n : ℕ) → n < tens fuel → 0 < fuel → number 0 (decimal fuel n) ≡ n
unfolding decimal tens number
number-decimal zero n h p = absurd (omega arith)
number-decimal (suc fuel) n h p = elim (Bool-cases (ltb n 10)) [
  | inl one ↦ rw (one, decimal) (omega arith)
  | inr more ↦
      let small : n / 10 < tens fuel = omega (arith, h) in
      let some_left = fuel_left fuel n h more in
      rw (more, decimal)
        (number-append 0 (decimal fuel (n / 10)) ((b'0' + n % 10) ∷ [])
          ∙ omega (arith, number-decimal fuel (n / 10) small some_left))
]

decimal-All : (fuel n : ℕ) → All IsDigit (decimal fuel n)
unfolding decimal
decimal-All zero n = tt
decimal-All (suc fuel) n = elim (Bool-cases (ltb n 10)) [
  | inl one ↦ rw (one, decimal) ((omega arith, ground arith), tt)
  | inr more ↦
      rw (more, decimal)
        (All-append IsDigit (decimal fuel (n / 10)) _ (decimal-All fuel (n / 10))
          ((omega arith, omega arith), tt))
]

length-decimal : (fuel n : ℕ) → length (decimal fuel n) ≤ fuel
unfolding decimal
length-decimal zero n = omega arith
length-decimal (suc fuel) n = ground (
  arith,
  length-decimal fuel (n / 10),
  length-append (decimal fuel (n / 10)) ((b'0' + n % 10) ∷ []),
)

length-zeros : (n : ℕ) → length (zeros n) ≡ n
unfolding zeros
length-zeros zero = refl
length-zeros (suc n) = omega (arith, length-zeros n)

zeros-All : (n : ℕ) → All IsDigit (zeros n)
unfolding zeros
zeros-All zero = tt
zeros-All (suc n) = ((omega arith, omega arith), zeros-All n)

number-zeros : (n : ℕ) → number 0 (zeros n) ≡ 0
unfolding number zeros
number-zeros zero = refl
number-zeros (suc n) = number-zeros n

-- What `to_string` gives for an entry.
pub record IsNumeral (entry : ℕ) (s : List ℕ) : Type 0 where
  pub full : length s ≡ num_length
  pub digits : All IsDigit s
  pub reads : number 0 s ≡ entry

-- The text of a 32-bit entry has 16 characters, all of them digits, and stands for the entry.
pub to_string-IsNumeral : (entry : ℕ) → entry < 2 ^ 32 → Returns (to_string entry) (IsNumeral entry)
unfolding to_string tens
to_string-IsNumeral entry h =
    let s = decimal max_digits entry in
    let short = length-decimal max_digits entry in
    let fits : leb (length s) num_length ≡ true = ground (arith, short) in
    let pad = zeros (num_length - length s) in
    (
      pad ++ s,
      rw (fits, to_string) refl,
      record {
        full = omega (arith, length-append pad s, length-zeros (num_length - length s), short);
        digits =
            All-append IsDigit pad s (zeros-All (num_length - length s))
              (decimal-All max_digits entry);
        reads =
            number-append 0 pad s
            ∙ ap (λ acc. number acc s) (number-zeros (num_length - length s))
            ∙ number-decimal max_digits entry (omega (arith, h)) (omega arith);
      },
    )

number_gap :
    (xs ys : List ℕ) (a b : ℕ)
    → length xs ≡ length ys
    → All IsDigit xs
    → a < b
    → number a xs < number b ys
unfolding number
number_gap [] [] a b l d h = h
number_gap [] (y ∷ ys) a b l d h = absurd (omega (arith, l))
number_gap (x ∷ xs) [] a b l d h = absurd (omega (arith, l))
number_gap (x ∷ xs) (y ∷ ys) a b l d h =
    number_gap xs ys (a * 10 + (x - b'0')) (b * 10 + (y - b'0')) (omega (arith, l)) d.1
      (omega (arith, d.0, h))

-- Texts of as many digits stand in the order of their numbers.
before-number :
    (xs ys : List ℕ) (acc : ℕ)
    → length xs ≡ length ys
    → All IsDigit xs
    → All IsDigit ys
    → before xs ys ≡ ltb (number acc xs) (number acc ys)
unfolding number before
before-number [] [] acc l d e = ground arith
before-number [] (y ∷ ys) acc l d e = absurd (omega (arith, l))
before-number (x ∷ xs) [] acc l d e = absurd (omega (arith, l))
before-number (x ∷ xs) (y ∷ ys) acc l d e =
    let a = acc * 10 + (x - b'0') in
    let b = acc * 10 + (y - b'0') in
    let same = before-number xs ys a (omega (arith, l)) d.1 e.1 in
    ground (arith, l, d.0, e.0, d.1, e.1, same, number_gap xs ys a b, number_gap ys xs b a)

-- For 32-bit entries `Key` never fails its assertion, and the keys as texts stand in the order of
-- the entries.
pub before-key :
    (i j : ℕ)
    → i < 2 ^ 32
    → j < 2 ^ 32
    → Returns (key i) (λ k. Returns (key j) (λ k'. before k k' ≡ ltb i j))
unfolding key before
before-key i j h h' =
    let (s, run, v) = to_string-IsNumeral i h in
    let (s', run', v') = to_string-IsNumeral j h' in
    (
      b'k' ∷ b'e' ∷ b'y' ∷ s,
      rw run refl,
      (
        b'k' ∷ b'e' ∷ b'y' ∷ s',
        rw run' refl,
        before-number s s' 0 (v.full ∙ sym v'.full) v.digits v'.digits
            ∙ rw (v.reads, v'.reads) refl,
      ),
    )
