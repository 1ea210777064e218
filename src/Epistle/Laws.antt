-- ===== src/Epistle/Laws.antt =====
-- The table as a map from keys to values.
use cos_userspace.Base.{
  ℕ, ◌≡◌, ◌≢◌, ◌<◌, ◌≤◌, refl, sym, ap, ◌∙◌, subst, inl, inr, false, ok, err, out_of_fuel, arith,
  ◌==◌, Bool-cases, ==_iff, ne→==_false, ltb, ltb→lt, Returns,
}
use cos_userspace.Epistle.{capacity, Table, cleared, hash, add, get}
use cos_userspace.Epistle.Probe.{
  probe, Busy, Stops, BusyUpTo, Ends, search_cases, found, get_loop-Ends, written, add_loop-Ends,
  add_loop_busy, get_loop_busy, probe_meets,
}

-- Every key stands where the search for it ends.
abbrev pub IsPlaced : Table → Type 0
IsPlaced t =
    (i : ℕ)
    → i < capacity
    → (t i).key ≢ 0
    → (n : ℕ) × (n < capacity)
      × (probe (hash (t i).key) n ≡ i)
      × BusyUpTo t (t i).key (hash (t i).key) n

-- The search for a key ends within the table.
abbrev pub Reaches : Table → ℕ → Type 0
Reaches t key = (n : ℕ) × (n < capacity) × Ends t key (hash key) n

pub cleared-IsPlaced : IsPlaced cleared
cleared-IsPlaced i h n = absurd (n refl)

-- An entry that is empty, or that has the key, makes the search end.
pub Reaches-of_stop : (t : Table) (key i : ℕ) → i < capacity → Stops t key i → Reaches t key
Reaches-of_stop t key i h s = elim (search_cases t key (hash key) capacity) [
  | inr found_it ↦ found_it
  | inl busy ↦
      let (n, small, at) = probe_meets (hash key) i (omega arith) h in
      let b = subst (Busy t key) at (busy n small) in
      elim s [ inl empty ↦ absurd (b.0 empty) | inr here ↦ absurd (b.1 here) ]
]

-- A write of `key` at `p`, where the search for it ends.
module _ (t : Table) (key value p : ℕ) (nz : key ≢ 0) (ends : Stops t key p) where
  abbrev t' : Table
  t' = written t key value p

  passed_elsewhere : (x : ℕ) → Busy t key x → x ≢ p
  passed_elsewhere x b e = elim ends [
    | inl empty ↦ b.0 (ap (λ i. (t i).key) e ∙ empty)
    | inr here ↦ b.1 (ap (λ i. (t i).key) e ∙ here)
  ]

  still-Busy : (x : ℕ) → Busy t key x → Busy t' key x
  still-Busy x b =
      let away = passed_elsewhere x b in ((λ e. b.0 (ground arith)), (λ e. b.1 (ground arith)))

  others-Busy : (q x : ℕ) → q ≢ key → Busy t q x → Busy t' q x
  others-Busy q x n b = ((λ e. ground (arith, b.0)), (λ e. ground (arith, b.1)))

  Busy-after : (q x : ℕ) → Busy t q x → Busy t' q x
  Busy-after q x b = elim (Bool-cases (q == key)) [
    | inl same ↦
        let e = (==_iff q key).0 same in
        subst (λ k. Busy t' k x) (sym e) (still-Busy x (subst (λ k. Busy t k x) e b))
    | inr other ↦ others-Busy q x (λ e. ground arith) b
  ]

  pub written-IsPlaced :
      (n : ℕ)
      → n < capacity
      → probe (hash key) n ≡ p
      → BusyUpTo t key (hash key) n
      → IsPlaced t
      → IsPlaced t'
  written-IsPlaced n small at passed v i h full = elim (Bool-cases (i == p)) [
    | inl here ↦ rw here (
      n,
      small,
      at ∙ sym ((==_iff i p).0 here),
      λ j k. still-Busy (probe (hash key) j) (passed j k),
    )
    | inr away ↦ rw away (old away)
  ]
    where
      old :
          (i == p) ≡ false
          → (m : ℕ) × (m < capacity)
            × (probe (hash (t i).key) m ≡ i)
            × BusyUpTo t' (t i).key (hash (t i).key) m
      old away =
          let (m, less, place, busy) = v i h (rw away at full) in
          (m, less, place, λ j k. Busy-after (t i).key (probe (hash (t i).key) j) (busy j k))

-- A key that stands in a good table stops its own search there, and no key stands behind an empty
-- entry of its search.
pub placed_stop :
    (t : Table) (key i : ℕ)
    → IsPlaced t
    → i < capacity
    → key ≢ 0
    → (t i).key ≡ key
    → (n : ℕ) × (n < capacity) × Ends t key (hash key) n × (probe (hash key) n ≡ i)
placed_stop t key i v h nz here =
    let (n, small, at, busy) = v i h (λ e. nz (sym here ∙ e)) in
    let at' = subst (λ k. probe (hash k) n ≡ i) here at in
    (
      n,
      small,
      record {
        passed = subst (λ k. BusyUpTo t k (hash k) n) here busy;
        stops = subst (Stops t key) (sym at') (inr here);
      },
      at',
    )

Ends-unique : (t : Table) (key idx m n : ℕ) → Ends t key idx m → Ends t key idx n → m ≡ n
Ends-unique t key idx m n a b = elim (Bool-cases (ltb m n)) [
  | inl less ↦ absurd (clash m b.passed a.stops (ltb→lt m n less))
  | inr more ↦ elim (Bool-cases (ltb n m)) [
    | inl less ↦ absurd (clash n a.passed b.stops (ltb→lt n m less))
    | inr same ↦ ground arith
  ]
]
  where
    clash : {u : ℕ} (w : ℕ) → BusyUpTo t key idx u → Stops t key (probe idx w) → w < u → ⊥
    clash w busy (inl empty) small = (busy w small).0 empty
    clash w busy (inr here) small = (busy w small).1 here

module _ (fuel : ℕ) (enough : capacity ≤ fuel) where
  add-written :
      (key value : ℕ) (t : Table)
      → key ≢ 0
      → (r : Reaches t key) → add fuel key value t ≡ ok (written t key value (probe (hash key) r.0))
  unfolding add
  add-written key value t nz (n, small, e) =
      rw (ne→==_false key 0 nz)
        (add_loop-Ends fuel (hash key) key value n t (omega arith) (omega arith) e)

  get-found :
      (key : ℕ) (t : Table)
      → key ≢ 0
      → (r : Reaches t key) → get fuel key t ≡ ok (found t key (probe (hash key) r.0))
  unfolding get
  get-found key t nz (n, small, e) =
      rw (ne→==_false key 0 nz)
        (get_loop-Ends fuel (hash key) key n t (omega arith) (omega arith) e)

  -- `get` of a key that stands in the table gives its value.
  pub get-placed :
      (key i : ℕ) (t : Table)
      → IsPlaced t
      → i < capacity
      → key ≢ 0
      → (t i).key ≡ key
      → get fuel key t ≡ ok (t i).value
  get-placed key i t v h nz here =
      let (n, small, e, at) = placed_stop t key i v h nz here in
      get-found key t nz (n, small, e) ∙ rw at (ground arith)

  -- `get` of a key that does not, in a table with an empty entry, gives 0.
  get-absent :
      (key e : ℕ) (t : Table)
      → key ≢ 0
      → e < capacity
      → (t e).key ≡ 0
      → ((i : ℕ) → i < capacity → (t i).key ≢ key)
      → get fuel key t ≡ ok 0
  get-absent key e t nz h empty none_has =
      let r = Reaches-of_stop t key e h (inl empty) in
      let x = probe (hash key) r.0 in
      get-found key t nz r
      ∙ elim r.2.stops [ inl z ↦ ground arith | inr k ↦ absurd (none_has x (omega arith) k) ]

  -- On a well-placed table in which the probing of a key other than 0 reaches the key or an empty
  -- entry, `add` ends, its table is well-placed, and `get` reads the value from it under the key.
  pub get-add_self :
      (key value : ℕ) (t : Table)
      → key ≢ 0
      → IsPlaced t
      → Reaches t key
      → Returns (add fuel key value t) (λ t'. IsPlaced t' × (get fuel key t' ≡ ok value))
  get-add_self key value t nz v (n, small, e) =
      let p = probe (hash key) n in
      let w = written-IsPlaced t key value p nz e.stops n small refl e.passed v in
      (
        written t key value p,
        add-written key value t nz (n, small, e),
        (
          w,
          get-placed key p (written t key value p) w (omega arith) nz (ground arith) ∙ ground arith,
        ),
      )

  -- A write leaves what another key reads, if an entry stays empty.
  other_reads :
      (key value q p e : ℕ) (t : Table)
      → q ≢ 0
      → q ≢ key
      → IsPlaced t
      → IsPlaced (written t key value p)
      → Stops t key p
      → e < capacity
      → e ≢ p
      → (t e).key ≡ 0
      → get fuel q (written t key value p) ≡ get fuel q t
  other_reads key value q p e t qz other v w ends small away empty =
      let t' = written t key value p in
      let (n, less, s) = Reaches-of_stop t q e small (inl empty) in
      let x = probe (hash q) n in
      elim s.stops [
        | inr has ↦
            let apart : x ≢ p = λ same. elim (subst (Stops t key) (sym same) ends) [
              | inl z ↦ qz (sym has ∙ z)
              | inr k ↦ other (sym has ∙ k)
            ] in
            get-placed q x t' w (omega arith) qz (ground arith)
            ∙ ground arith
            ∙ sym (get-placed q x t v (omega arith) qz has)
        | inl z ↦
            let missing = λ (i : ℕ) (h : i < capacity) (k : (t i).key ≡ q).
              let (m, _, b, at) = placed_stop t q i v h qz k in
              let same = Ends-unique t q (hash q) m n b s in
              qz (sym k ∙ ap (λ j. (t j).key) (sym at ∙ ap (probe (hash q)) same) ∙ z) in
            get-absent q e t' qz small (ground arith) (λ i h k. elim (Bool-cases (i == p)) [
              | inl here ↦ other (ground arith)
              | inr there ↦ missing i h (ground arith)
            ])
            ∙ sym (get-absent q e t qz small empty missing)
      ]

  -- On a well-placed table with two empty entries, `add` of a key other than 0 ends, and `get` of
  -- any other key that is not 0 reads the same before and after.
  pub get-add_other :
      (key value q d e : ℕ) (t : Table)
      → key ≢ 0
      → q ≢ 0
      → q ≢ key
      → IsPlaced t
      → d < capacity
      → e < capacity
      → d ≢ e
      → (t d).key ≡ 0
      → (t e).key ≡ 0
      → Returns (add fuel key value t) (λ t'. get fuel q t' ≡ get fuel q t)
  get-add_other key value q d e t nz qz other v small_d small_e apart empty_d empty_e =
      let (n, small, s) = Reaches-of_stop t key d small_d (inl empty_d) in
      let p = probe (hash key) n in
      let w = written-IsPlaced t key value p nz s.stops n small refl s.passed v in
      (
        written t key value p,
        add-written key value t nz (n, small, s),
        elim (Bool-cases (d == p)) [
          | inr away ↦
              other_reads key value q p d t qz other v w s.stops small_d (λ h. ground arith) empty_d
          | inl taken ↦
              other_reads key value q p e t qz other v w s.stops small_e (λ h. ground arith) empty_e
        ],
      )

-- Where each of the 512 entries along the probing of a key other than 0 has another key and none
-- is empty, neither `add` nor `get` of that key ends, whatever the fuel.
pub full_table_hangs :
    (fuel key value : ℕ) (t : Table)
    → key ≢ 0
    → ((i : ℕ) → i < capacity → Busy t key i)
    → (add fuel key value t ≡ err out_of_fuel) × (get fuel key t ≡ err out_of_fuel)
unfolding add get
full_table_hangs fuel key value t nz full =
    let busy = λ (j : ℕ) (h : j < fuel). full (probe (hash key) j) (omega arith) in
    (
      rw (ne→==_false key 0 nz) (add_loop_busy fuel (hash key) key value t (omega arith) busy),
      rw (ne→==_false key 0 nz) (get_loop_busy fuel (hash key) key t (omega arith) busy),
    )
