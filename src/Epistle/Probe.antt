-- ===== src/Epistle/Probe.antt =====
-- The probe sequence of a key: what the loops of `add` and `get` do along it, and when they end.
use cos_userspace.Base.{
  ℕ, zero, suc, ◌+◌, ◌-◌, ◌%◌, ◌≡◌, ◌≢◌, ◌<◌, refl, sym, ap, ◌∙◌, subst, ◌⊎◌, inl, inr, ok, err,
  out_of_fuel, arith, ◌==◌, if◌then◌else◌, Bool-cases, ==_iff,
}
use cos_userspace.Epistle.{capacity, Table, store, add_loop, get_loop}

-- Entry number `j` of the sequence that starts at `idx`.
abbrev pub probe : ℕ → ℕ → ℕ
probe idx j = (idx + j) % capacity

-- An entry that the search for a key passes, or at which it ends.
abbrev pub Busy : Table → ℕ → ℕ → Type 0
Busy t key i = ((t i).key ≢ 0) × ((t i).key ≢ key)

abbrev pub Stops : Table → ℕ → ℕ → Type 0
Stops t key i = ((t i).key ≡ 0) ⊎ ((t i).key ≡ key)

abbrev pub BusyUpTo : Table → ℕ → ℕ → ℕ → Type 0
BusyUpTo t key idx n = (j : ℕ) → j < n → Busy t key (probe idx j)

-- The search passes `n` entries and ends at the next.
pub record Ends (t : Table) (key idx n : ℕ) : Type 0 where
  pub passed : BusyUpTo t key idx n
  pub stops : Stops t key (probe idx n)

Busy-or-Stops : (t : Table) (key i : ℕ) → Busy t key i ⊎ Stops t key i
Busy-or-Stops t key i = elim (Bool-cases ((t i).key == 0)) [
  | inl e ↦ inr (inl (ground arith))
  | inr n ↦ elim (Bool-cases ((t i).key == key)) [
    | inl e ↦ inr (inr (ground arith))
    | inr m ↦ inl ((λ e. ground arith), (λ e. ground arith))
  ]
]

-- Within any number of entries the search ends, or all of them are busy.
pub search_cases :
    (t : Table) (key idx f : ℕ) → BusyUpTo t key idx f ⊎ ((n : ℕ) × (n < f) × Ends t key idx n)
search_cases t key idx zero = inl (λ j h. absurd (omega arith))
search_cases t key idx (suc f) = elim (search_cases t key idx f) [
  | inr (n, small, e) ↦ inr (n, omega arith, e)
  | inl all_busy ↦ elim (Busy-or-Stops t key (probe idx f)) [
    | inr s ↦ inr (f, omega arith, record { passed = all_busy; stops = s })
    | inl b ↦ inl (λ j h. elim (Bool-cases (j == f)) [
      | inl e ↦ subst (λ i. Busy t key (probe idx i)) (sym ((==_iff j f).0 e)) b
      | inr n ↦ all_busy j (ground arith)
    ])
  ]
]

probe-shift : (idx j : ℕ) → probe ((idx + 1) % capacity) j ≡ probe idx (suc j)
probe-shift idx j = omega arith

shift-BusyUpTo :
    (t : Table) (key idx n : ℕ)
    → BusyUpTo t key idx (suc n)
    → BusyUpTo t key ((idx + 1) % capacity) n
shift-BusyUpTo t key idx n b j h =
    subst (Busy t key) (sym (probe-shift idx j)) (b (suc j) (omega arith))

shift-Ends :
    (t : Table) (key idx n : ℕ) → Ends t key idx (suc n) → Ends t key ((idx + 1) % capacity) n
shift-Ends t key idx n e = record {
  passed = shift-BusyUpTo t key idx n e.passed;
  stops = subst (Stops t key) (sym (probe-shift idx n)) e.stops;
}

-- What `add` and `get` do at the entry where the search ends.
abbrev pub found : Table → ℕ → ℕ → ℕ
found t key i = if (t i).key == 0 then 0 else (t i).value

pub get_loop-Ends :
    (fuel idx key n : ℕ) (t : Table)
    → idx < capacity
    → n < fuel
    → Ends t key idx n
    → get_loop fuel idx key t ≡ ok (found t key (probe idx n))
unfolding get_loop
get_loop-Ends zero idx key n t r h e = absurd (omega arith)
get_loop-Ends (suc fuel) idx key zero t r h e =
    let here : probe idx 0 ≡ idx = omega arith in
    rw here (ground (arith, subst (Stops t key) here e.stops))
get_loop-Ends (suc fuel) idx key (suc n) t r h e =
    let here : probe idx 0 ≡ idx = omega arith in
    let busy = subst (Busy t key) here (e.passed 0 (omega arith)) in
    let rest =
      get_loop-Ends fuel ((idx + 1) % capacity) key n t (omega arith) (omega arith)
        (shift-Ends t key idx n e) in
    let skip : get_loop (suc fuel) idx key t ≡ get_loop fuel ((idx + 1) % capacity) key t =
      ground (arith, busy) in
    skip ∙ rest ∙ ap (λ i. ok (found t key i)) (probe-shift idx n)

-- The entry that `add` writes.
abbrev pub written : Table → ℕ → ℕ → ℕ → Table
written t key value i = store t i (record { key = key; value = value })

pub add_loop-Ends :
    (fuel idx key value n : ℕ) (t : Table)
    → idx < capacity
    → n < fuel
    → Ends t key idx n
    → add_loop fuel idx key value t ≡ ok (written t key value (probe idx n))
unfolding add_loop
add_loop-Ends zero idx key value n t r h e = absurd (omega arith)
add_loop-Ends (suc fuel) idx key value zero t r h e =
    let here : probe idx 0 ≡ idx = omega arith in
    rw here (ground (arith, subst (Stops t key) here e.stops))
add_loop-Ends (suc fuel) idx key value (suc n) t r h e =
    let here : probe idx 0 ≡ idx = omega arith in
    let busy = subst (Busy t key) here (e.passed 0 (omega arith)) in
    let rest =
      add_loop-Ends fuel ((idx + 1) % capacity) key value n t (omega arith) (omega arith)
        (shift-Ends t key idx n e) in
    let skip : add_loop (suc fuel) idx key value t
        ≡ add_loop fuel ((idx + 1) % capacity) key value t =
      ground (arith, busy) in
    skip ∙ rest ∙ ap (λ i. ok (written t key value i)) (probe-shift idx n)

-- Where all the entries that the fuel reaches are busy, the loops have not ended.
pub add_loop_busy :
    (fuel idx key value : ℕ) (t : Table)
    → idx < capacity
    → BusyUpTo t key idx fuel
    → add_loop fuel idx key value t ≡ err out_of_fuel
unfolding add_loop
add_loop_busy zero idx key value t r b = refl
add_loop_busy (suc fuel) idx key value t r b =
    let here : probe idx 0 ≡ idx = omega arith in
    let busy = subst (Busy t key) here (b 0 (omega arith)) in
    let rest =
      add_loop_busy fuel ((idx + 1) % capacity) key value t (omega arith)
        (shift-BusyUpTo t key idx fuel b) in
    ground (arith, busy)

pub get_loop_busy :
    (fuel idx key : ℕ) (t : Table)
    → idx < capacity
    → BusyUpTo t key idx fuel
    → get_loop fuel idx key t ≡ err out_of_fuel
unfolding get_loop
get_loop_busy zero idx key t r b = refl
get_loop_busy (suc fuel) idx key t r b =
    let here : probe idx 0 ≡ idx = omega arith in
    let busy = subst (Busy t key) here (b 0 (omega arith)) in
    let rest =
      get_loop_busy fuel ((idx + 1) % capacity) key t (omega arith)
        (shift-BusyUpTo t key idx fuel b) in
    ground (arith, busy)

-- The sequence meets every entry.
pub probe_meets :
    (idx i : ℕ) → idx < capacity → i < capacity → (n : ℕ) × (n < capacity) × (probe idx n ≡ i)
probe_meets idx i h k = ((i + capacity - idx) % capacity, omega arith, omega arith)
