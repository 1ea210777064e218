-- ===== src/Rocksdb/Stats/Ranks.antt =====
-- What the numbers of a row say of the durations, in whatever order these were collected.
use cos_userspace.Base.{
  ℕ, zero, suc, ◌+◌, ◌-◌, ◌*◌, ◌/◌, ◌%◌, ◌<◌, ◌≤◌, ◌≡◌, refl, ap, subst, ◌∙◌, some, List, [], ◌∷◌,
  ok, arith, leb, ltb, if◌then◌else◌, length, get_elem?, All, All-map, Bool-cases, inl, inr,
}
use cos_userspace.Rocksdb.Stats.{insert_sorted, sort, Row, at, odd_size, fill_row}

abbrev pub IsAscending : List ℕ → Type 0
IsAscending [] = Unit
IsAscending (x ∷ xs) = All (λ y. x ≤ y) xs × IsAscending xs

-- How many of them are at most `v`.
unfoldable pub at_most : ℕ → List ℕ → ℕ
at_most v [] = 0
at_most v (x ∷ xs) = (if leb x v then 1 else 0) + at_most v xs

-- How many of them are less than `v`.
unfoldable pub less_than : ℕ → List ℕ → ℕ
less_than v [] = 0
less_than v (x ∷ xs) = (if ltb x v then 1 else 0) + less_than v xs

-- `v` is what stands at index `k` once they are in order.
abbrev pub IsRank : List ℕ → ℕ → ℕ → Type 0
IsRank xs k v = (less_than v xs ≤ k) × (k < at_most v xs)

insert_sorted-All :
    (P : ℕ → Type 0) (x : ℕ) (ys : List ℕ) → P x → All P ys → All P (insert_sorted x ys)
unfolding insert_sorted
insert_sorted-All P x [] p h = (p, tt)
insert_sorted-All P x (y ∷ ys) p h = elim (Bool-cases (leb x y)) [
  | inl first ↦ rw (first, insert_sorted) (p, h)
  | inr later ↦ rw (later, insert_sorted) (h.0, insert_sorted-All P x ys p h.1)
]

insert_sorted-IsAscending :
    (x : ℕ) (ys : List ℕ) → IsAscending ys → IsAscending (insert_sorted x ys)
unfolding insert_sorted
insert_sorted-IsAscending x [] h = (tt, tt)
insert_sorted-IsAscending x (y ∷ ys) h = elim (Bool-cases (leb x y)) [
  | inl first ↦
      rw (first, insert_sorted)
        ((ground arith, All-map (λ z. y ≤ z) (λ z. x ≤ z) (λ z p. ground arith) ys h.0), h)
  | inr later ↦
      rw (later, insert_sorted)
        (insert_sorted-All (λ z. y ≤ z) x ys (ground arith) h.0, insert_sorted-IsAscending x ys h.1)
]

pub sort-IsAscending : (xs : List ℕ) → IsAscending (sort xs)
unfolding sort
sort-IsAscending [] = tt
sort-IsAscending (x ∷ xs) = insert_sorted-IsAscending x (sort xs) (sort-IsAscending xs)

at_most-insert_sorted :
    (v x : ℕ) (ys : List ℕ)
    → at_most v (insert_sorted x ys) ≡ (if leb x v then 1 else 0) + at_most v ys
unfolding at_most insert_sorted
at_most-insert_sorted v x [] = refl
at_most-insert_sorted v x (y ∷ ys) = ground (arith, at_most-insert_sorted v x ys)

pub at_most-sort : (v : ℕ) (xs : List ℕ) → at_most v (sort xs) ≡ at_most v xs
unfolding at_most sort
at_most-sort v [] = refl
at_most-sort v (x ∷ xs) = at_most-insert_sorted v x (sort xs) ∙ ground (arith, at_most-sort v xs)

less_than-insert_sorted :
    (v x : ℕ) (ys : List ℕ)
    → less_than v (insert_sorted x ys) ≡ (if ltb x v then 1 else 0) + less_than v ys
unfolding less_than insert_sorted
less_than-insert_sorted v x [] = refl
less_than-insert_sorted v x (y ∷ ys) = ground (arith, less_than-insert_sorted v x ys)

pub less_than-sort : (v : ℕ) (xs : List ℕ) → less_than v (sort xs) ≡ less_than v xs
unfolding less_than sort
less_than-sort v [] = refl
less_than-sort v (x ∷ xs) =
    less_than-insert_sorted v x (sort xs) ∙ ground (arith, less_than-sort v xs)

pub IsRank-sort : (ds : List ℕ) (j k v : ℕ) → j ≡ k → IsRank (sort ds) j v → IsRank ds k v
IsRank-sort ds j k v e h =
    (omega (arith, e, h.0, less_than-sort v ds), omega (arith, e, h.1, at_most-sort v ds))

length-insert_sorted : (x : ℕ) (ys : List ℕ) → length (insert_sorted x ys) ≡ suc (length ys)
unfolding insert_sorted
length-insert_sorted x [] = refl
length-insert_sorted x (y ∷ ys) = ground (arith, length-insert_sorted x ys)

pub length-sort : (xs : List ℕ) → length (sort xs) ≡ length xs
unfolding sort
length-sort [] = refl
length-sort (x ∷ xs) = omega (arith, length-insert_sorted x (sort xs), length-sort xs)

-- The value at an index.
abbrev pub IsAt : List ℕ → ℕ → ℕ → Type 0
IsAt xs i v = get_elem? xs i ≡ some v

pub get_some : (xs : List ℕ) (i : ℕ) → i < length xs → (v : ℕ) × IsAt xs i v
get_some [] i h = absurd (omega arith)
get_some (x ∷ xs) zero h = (x, refl)
get_some (x ∷ xs) (suc i) h = get_some xs i (omega arith)

head_le : (x i v : ℕ) (xs : List ℕ) → All (λ y. x ≤ y) xs → IsAt xs i v → x ≤ v
head_le x i v [] h e = cc
head_le x zero v (y ∷ ys) h e = ground (arith, h.0)
head_le x (suc i) v (y ∷ ys) h e = head_le x i v ys h.1 e

at_mono : (xs : List ℕ) (i j v w : ℕ) → IsAscending xs → i ≤ j → IsAt xs i v → IsAt xs j w → v ≤ w
at_mono [] i j v w s h a b = cc
at_mono (x ∷ xs) zero zero v w s h a b = ground arith
at_mono (x ∷ xs) zero (suc j) v w s h a b = ground (arith, head_le x j w xs)
at_mono (x ∷ xs) (suc i) zero v w s h a b = absurd (omega arith)
at_mono (x ∷ xs) (suc i) (suc j) v w s h a b = at_mono xs i j v w s.1 (omega arith) a b

-- What stands at an index of an ascending list is at least as large as what stands before it.
IsAt-rank : (xs : List ℕ) (i v : ℕ) → IsAscending xs → IsAt xs i v → i < at_most v xs
unfolding at_most
IsAt-rank [] i v s e = cc
IsAt-rank (x ∷ xs) zero v s e = ground arith
IsAt-rank (x ∷ xs) (suc i) v s e = ground (arith, head_le x i v xs, IsAt-rank xs i v s.1)

none_less : (v : ℕ) (xs : List ℕ) → All (λ y. v ≤ y) xs → less_than v xs ≡ 0
unfolding less_than
none_less v [] h = refl
none_less v (x ∷ xs) h = ground (arith, h.0, none_less v xs h.1)

-- What stands at an index of an ascending list is larger than at most what stands before it.
IsAt-less_than : (xs : List ℕ) (i v : ℕ) → IsAscending xs → IsAt xs i v → less_than v xs ≤ i
unfolding less_than
IsAt-less_than [] i v s e = cc
IsAt-less_than (x ∷ xs) zero v s e =
    let same : x ≡ v = ground arith in
    let none = none_less x xs s.0 in
    subst (λ w. (if ltb x w then 1 else 0) + less_than w xs ≤ 0) same (ground (arith, none))
IsAt-less_than (x ∷ xs) (suc i) v s e = ground (arith, IsAt-less_than xs i v s.1)

at_most-le-length : (v : ℕ) (xs : List ℕ) → at_most v xs ≤ length xs
unfolding at_most
at_most-le-length v [] = omega arith
at_most-le-length v (x ∷ xs) = ground (arith, at_most-le-length v xs)

at_most-first : (xs : List ℕ) (v w : ℕ) → IsAscending xs → IsAt xs 0 v → w < v → at_most w xs ≡ 0
unfolding at_most
at_most-first [] v w s e h = refl
at_most-first (x ∷ []) v w s e h = ground arith
at_most-first (x ∷ y ∷ ys) v w s e h = ground (arith, at_most-first (y ∷ ys) y w)

-- The length, or one less where the length is even.
abbrev pub odd_length : List ℕ → ℕ
odd_length xs = length xs + length xs % 2 - 1

-- What a row in nanoseconds says of `durations`, which need not be in order.
pub record Ranked (durations : List ℕ) (row : Row) : Type 0 where
  pub all_counted : row.total ≡ length durations
  pub ascends :
      (row.min ≤ row.fifty)
      × (row.fifty ≤ row.ninetynine)
      × (row.ninetynine ≤ row.ninetyninefive)
      × (row.ninetyninefive ≤ row.ninetyninenine)
      × (row.ninetyninenine ≤ row.max)
  pub none_below : (v : ℕ) → v < row.min → at_most v durations ≡ 0
  pub none_above : at_most row.max durations ≡ length durations
  pub least : IsRank durations 0 row.min
  pub greatest : IsRank durations (length durations - 1) row.max
  pub half : IsRank durations (odd_length durations / 2) row.fifty
  pub most : IsRank durations (odd_length durations * 99 / 100) row.ninetynine
  pub more : IsRank durations (odd_length durations * 995 / 1000) row.ninetyninefive
  pub nearly_all : IsRank durations (odd_length durations * 999 / 1000) row.ninetyninenine

pub odd_size-bounds : (n : ℕ) → 0 < n → (n ≤ odd_size n + 1) × (odd_size n ≤ n)
odd_size-bounds n h = ground arith

odd_size_lem : (n : ℕ) → odd_size n ≡ n + n % 2 - 1
odd_size_lem n = ground arith

ns_IsRank : (xs : List ℕ) (i k v : ℕ) → IsAscending xs → IsAt xs i v → i ≡ k → IsRank xs k (v / 1)
ns_IsRank xs i k v s a at_k =
    let e : v / 1 ≡ v = omega arith in
    rw e (omega (arith, IsAt-less_than xs i v s a, at_k), omega (arith, IsAt-rank xs i v s a, at_k))

ns_rank : (xs : List ℕ) (i v : ℕ) → IsAscending xs → IsAt xs i v → i < at_most (v / 1) xs
ns_rank xs i v s a = let e : v / 1 ≡ v = omega arith in rw e (IsAt-rank xs i v s a)

ns_mono :
    (xs : List ℕ) (i j v w : ℕ) → IsAscending xs → i ≤ j → IsAt xs i v → IsAt xs j w → v / 1 ≤ w / 1
ns_mono xs i j v w s h a b = omega (arith, at_mono xs i j v w s h a b)

-- The row of an ascending list, in nanoseconds.
module _ (ds : List ℕ) (throughput v0 v1 v2 v3 v4 v5 : ℕ) (a0 : IsAt ds 0 v0)
    (a1 : IsAt ds (odd_size (length ds) / 2) v1) (a2 : IsAt ds (odd_size (length ds) * 99 / 100) v2)
    (a3 : IsAt ds (odd_size (length ds) * 995 / 1000) v3)
    (a4 : IsAt ds (odd_size (length ds) * 999 / 1000) v4) (a5 : IsAt ds (length ds - 1) v5) where
  abbrev pub row_of : Row
  row_of = record {
    total = length ds;
    throughput = throughput;
    min = v0 / 1;
    fifty = v1 / 1;
    ninetynine = v2 / 1;
    ninetyninefive = v3 / 1;
    ninetyninenine = v4 / 1;
    max = v5 / 1;
  }

  pub row_is : fill_row ds throughput 1 ≡ ok row_of
  unfolding fill_row at
  row_is = ground (arith, a0, a1, a2, a3, a4, a5)

  pub row_of-Ranked : IsAscending ds → 0 < length ds → Ranked ds row_of
  row_of-Ranked s h =
      let n = length ds in
      let k = odd_size n in
      let (large, small) = odd_size-bounds n h in
      let odd = odd_size_lem n in
      record {
        all_counted = refl;
        ascends = (
          ns_mono ds 0 (k / 2) v0 v1 s (omega arith) a0 a1,
          ns_mono ds (k / 2) (k * 99 / 100) v1 v2 s (omega arith) a1 a2,
          ns_mono ds (k * 99 / 100) (k * 995 / 1000) v2 v3 s (omega arith) a2 a3,
          ns_mono ds (k * 995 / 1000) (k * 999 / 1000) v3 v4 s (omega arith) a3 a4,
          ns_mono ds (k * 999 / 1000) (n - 1) v4 v5 s (omega arith) a4 a5,
        );
        none_below = λ v small. at_most-first ds v0 v s a0 (omega arith);
        none_above = omega (arith, ns_rank ds (n - 1) v5 s a5, at_most-le-length (v5 / 1) ds);
        least = ns_IsRank ds 0 _ v0 s a0 refl;
        greatest = ns_IsRank ds (n - 1) _ v5 s a5 refl;
        half = ns_IsRank ds (k / 2) _ v1 s a1 (ap (λ m. m / 2) odd);
        most = ns_IsRank ds (k * 99 / 100) _ v2 s a2 (ap (λ m. m * 99 / 100) odd);
        more = ns_IsRank ds (k * 995 / 1000) _ v3 s a3 (ap (λ m. m * 995 / 1000) odd);
        nearly_all = ns_IsRank ds (k * 999 / 1000) _ v4 s a4 (ap (λ m. m * 999 / 1000) odd);
      }
