-- ===== src/Epistle/Racing/Kept.antt =====
-- No value that a thread has added under a key of its own is lost.
use cos_userspace.Base.{
  ℕ, ◌+◌, ◌-◌, ◌%◌, ◌<◌, ◌≤◌, ◌≡◌, ◌≢◌, refl, sym, ap, ◌∙◌, subst, ◌⊎◌, inl, inr, ok, arith, ◌==◌,
  Bool-cases, ltb, true, ==_refl, ==_iff,
}
use cos_userspace.Epistle.{capacity, Table, hash, get}
use cos_userspace.Epistle.Probe.{probe, Busy, BusyUpTo}
use cos_userspace.Epistle.Laws.{IsPlaced, get-placed}
use cos_userspace.Epistle.Racing.{
  Pc, look, swap, compare, write, returned, Job, State, next_pc, next_table, step, Reach, begun,
  next,
}

-- An entry changes only if it is empty or has the key, and then it has the key.
abbrev Changes : ℕ → Table → Table → Type 0
Changes key t t' =
    (x : ℕ) → (t' x ≡ t x) ⊎ ((((t x).key ≡ 0) ⊎ ((t x).key ≡ key)) × ((t' x).key ≡ key))

-- The search for a key stands at `idx`, behind entries that are busy.
record Stands (t : Table) (key idx : ℕ) : Type 0 where
  count : ℕ
  place : idx ≡ probe (hash key) count
  passed : BusyUpTo t key (hash key) count

abbrev Local : Table → Job → Pc → Type 0
Local t job (look idx) = Stands t job.key idx
Local t job (swap idx) = Stands t job.key idx × ((t idx).key ≢ job.key)
Local t job (compare idx) = Stands t job.key idx × ((t idx).key ≢ 0)
Local t job (write idx) = Stands t job.key idx × ((t idx).key ≡ job.key)
Local t job returned =
    (idx : ℕ) × (idx < capacity) × ((t idx).key ≡ job.key) × ((t idx).value ≡ job.value)

module _ (key : ℕ) (nz : key ≢ 0) (t t' : Table) (c : Changes key t t') where
  Busy-later : (q x : ℕ) → Busy t q x → Busy t' q x
  Busy-later q x b = elim (c x) [
    | inl same ↦ subst (λ e. (e.key ≢ 0) × (e.key ≢ q)) (sym same) b
    | inr (inl empty, k) ↦ absurd (b.0 empty)
    | inr (inr own, k) ↦ subst (λ z. (z ≢ 0) × (z ≢ q)) (own ∙ sym k) b
  ]

  Stands-later : (q idx : ℕ) → Stands t q idx → Stands t' q idx
  Stands-later q idx s = record {
    count = s.count;
    place = s.place;
    passed = λ j h. Busy-later q (probe (hash q) j) (s.passed j h);
  }

  kept_entry : (q x : ℕ) → q ≢ key → q ≢ 0 → (t x).key ≡ q → t' x ≡ t x
  kept_entry q x n nq e = elim (c x) [
    | inl same ↦ same
    | inr (inl empty, k) ↦ absurd (nq (sym e ∙ empty))
    | inr (inr own, k) ↦ absurd (n (sym e ∙ own))
  ]

  -- What holds of a thread with another key goes on to hold.
  others-Local : (job : Job) (p : Pc) → job.key ≢ key → job.key ≢ 0 → Local t job p → Local t' job p
  others-Local job (look idx) n nq l = Stands-later job.key idx l
  others-Local job (swap idx) n nq l = (
    Stands-later job.key idx l.0,
    elim (c idx) [
      | inl same ↦ λ e. l.1 (sym (ap (λ x. x.key) same) ∙ e)
      | inr (_, k) ↦ λ e. n (sym e ∙ k)
    ],
  )
  others-Local job (compare idx) n nq l = (
    Stands-later job.key idx l.0,
    elim (c idx) [
      | inl same ↦ λ e. l.1 (sym (ap (λ x. x.key) same) ∙ e)
      | inr (_, k) ↦ λ e. nz (sym k ∙ e)
    ],
  )
  others-Local job (write idx) n nq l =
      let same = kept_entry job.key idx n nq l.1 in
      (Stands-later job.key idx l.0, ap (λ x. x.key) same ∙ l.1)
  others-Local job returned n nq (idx, small, e, e') =
      let same = kept_entry job.key idx n nq e in
      (idx, small, ap (λ x. x.key) same ∙ e, ap (λ x. x.value) same ∙ e')

  -- Where the search for `q` ends, entry `x`, as the table is later.
  abbrev Place : ℕ → ℕ → Type 0
  Place x q = (n : ℕ) × (n < capacity) × (probe (hash q) n ≡ x) × BusyUpTo t' q (hash q) n

  old_place : (x : ℕ) → x < capacity → IsPlaced t → (t x).key ≢ 0 → Place x (t x).key
  old_place x small v full =
      let (n, less, at, busy) = v x small full in
      (n, less, at, λ j h. Busy-later (t x).key (probe (hash (t x).key) j) (busy j h))

  new_place : (x : ℕ) → (t x).key ≡ 0 → Stands t key x → Place x key
  new_place x empty s = elim (Bool-cases (ltb s.count capacity)) [
    | inl less ↦ (
      s.count,
      ground arith,
      sym s.place,
      λ j h. Busy-later key (probe (hash key) j) (s.passed j h),
    )
    | inr more ↦
        let before : s.count - capacity < s.count = ground arith in
        let again : probe (hash key) (s.count - capacity) ≡ probe (hash key) s.count =
          ground arith in
        absurd (
          (s.passed (s.count - capacity) before).0
            (ap (λ y. (t y).key) (again ∙ sym s.place) ∙ empty))
  ]

  later-IsPlaced :
      ((x : ℕ) → (t x).key ≡ 0 → (t' x).key ≡ key → Stands t key x) → IsPlaced t → IsPlaced t'
  later-IsPlaced new v x small full = elim (c x) [
    | inl same ↦
        let e = ap (λ y. y.key) same in
        subst (Place x) (sym e) (old_place x small v (λ z. full (e ∙ z)))
    | inr (inl empty, k) ↦ subst (Place x) (sym k) (new_place x empty (new x empty k))
    | inr (inr own, k) ↦ subst (Place x) (own ∙ sym k) (old_place x small v (λ z. nz (sym own ∙ z)))
  ]

goes_on :
    (t : Table) (key idx : ℕ)
    → Stands t key idx
    → Busy t key idx
    → Stands t key ((idx + 1) % capacity)
goes_on t key idx s b = record {
  count = s.count + 1;
  place = omega (arith, s.place);
  passed = λ j h. elim (Bool-cases (j == s.count)) [
    | inl last ↦ subst (Busy t key) (s.place ∙ ap (probe (hash key)) (ground arith)) b
    | inr before ↦ s.passed j (ground arith)
  ];
}

module _ (job : Job) (nz : job.key ≢ 0) (t : Table) where
  entry_at : (x idx k : ℕ) → (x == idx) ≡ true → ((t idx).key == k) ≡ true → (t x).key ≡ k
  entry_at x idx k e e' = ap (λ y. (t y).key) ((==_iff x idx).0 e) ∙ (==_iff (t idx).key k).0 e'

  next-Changes : (p : Pc) → Local t job p → Changes job.key t (next_table job t p)
  unfolding next_table
  next-Changes (look idx) l x = inl refl
  next-Changes (swap idx) l x = elim (Bool-cases ((t idx).key == 0)) [
    | inr full ↦ rw full (inl refl)
    | inl empty ↦ elim (Bool-cases (x == idx)) [
      | inr away ↦ rw (empty, away) (inl refl)
      | inl here ↦ rw (empty, here) (inr (inl (entry_at x idx 0 here empty), refl))
    ]
  ]
  next-Changes (compare idx) l x = inl refl
  next-Changes (write idx) l x = elim (Bool-cases (x == idx)) [
    | inr away ↦ rw away (inl refl)
    | inl here ↦ rw here (inr (inr (ap (λ y. (t y).key) ((==_iff x idx).0 here) ∙ l.1), l.1))
  ]
  next-Changes returned l x = inl refl

  next-Stands :
      (p : Pc)
      → Local t job p
      → (x : ℕ) → (t x).key ≡ 0
      → (next_table job t p x).key ≡ job.key
      → Stands t job.key x
  unfolding next_table
  next-Stands (look idx) l x empty k = absurd (nz (sym k ∙ empty))
  next-Stands (swap idx) l x empty k = elim (Bool-cases (x == idx)) [
    | inl here ↦ subst (Stands t job.key) (sym ((==_iff x idx).0 here)) l.0
    | inr away ↦
        let same : next_table job t (swap idx) x ≡ t x = elim (Bool-cases ((t idx).key == 0)) [
          | inl free ↦ rw (free, away) refl
          | inr full ↦ rw full refl
        ] in
        absurd (nz (sym k ∙ ap (λ y. y.key) same ∙ empty))
  ]
  next-Stands (compare idx) l x empty k = absurd (nz (sym k ∙ empty))
  next-Stands (write idx) l x empty k = elim (Bool-cases (x == idx)) [
    | inl here ↦ absurd (nz (sym l.1 ∙ ap (λ y. (t y).key) (sym ((==_iff x idx).0 here)) ∙ empty))
    | inr away ↦
        let same : next_table job t (write idx) x ≡ t x = rw away refl in
        absurd (nz (sym k ∙ ap (λ y. y.key) same ∙ empty))
  ]
  next-Stands returned l x empty k = absurd (nz (sym k ∙ empty))

  next-Local : (p : Pc) → Local t job p → Local (next_table job t p) job (next_pc job t p)
  unfolding next_table next_pc
  next-Local (look idx) l = elim (Bool-cases ((t idx).key == 0)) [
    | inl empty ↦ rw empty (l, λ e. nz (ground arith))
    | inr full ↦ rw full (l, λ e. ground arith)
  ]
  next-Local (swap idx) l = elim (Bool-cases ((t idx).key == 0)) [
    | inr full ↦ rw full (goes_on t job.key idx l.0 ((λ e. ground arith), l.1))
    | inl empty ↦
        let pc_is : next_pc job t (swap idx) ≡ compare idx = rw empty refl in
        let own : (next_table job t (swap idx) idx).key ≡ job.key = rw (empty, ==_refl idx) refl in
        let stands =
          Stands-later job.key nz t (next_table job t (swap idx)) (next-Changes (swap idx) l)
            job.key idx l.0 in
        subst (Local (next_table job t (swap idx)) job) (sym pc_is) (stands, λ e. nz (sym own ∙ e))
  ]
  next-Local (compare idx) l = elim (Bool-cases ((t idx).key == job.key)) [
    | inl own ↦ rw own (l.0, ground arith)
    | inr other ↦ rw other (goes_on t job.key idx l.0 (l.1, λ e. ground arith))
  ]
  next-Local (write idx) l =
      (idx, omega (arith, l.0.place), rw (==_refl idx) l.1, rw (==_refl idx) refl)
  next-Local returned l = l

module _ (jobs : ℕ → Job) (nz : (i : ℕ) → (jobs i).key ≢ 0)
    (distinct : (i j : ℕ) → (jobs i).key ≡ (jobs j).key → i ≡ j) where
  record Inv (s : State) : Type 0 where
    placed : IsPlaced s.table
    local : (i : ℕ) → Local s.table (jobs i) (s.pcs i)

  step-Inv : (i : ℕ) (s : State) → Inv s → Inv (step jobs i s)
  step-Inv i s v =
      let p = s.pcs i in
      let t' = next_table (jobs i) s.table p in
      let c = next-Changes (jobs i) (nz i) s.table p (v.local i) in
      record {
        placed =
            later-IsPlaced (jobs i).key (nz i) s.table t' c
              (next-Stands (jobs i) (nz i) s.table p (v.local i)) v.placed;
        local = λ j. elim (Bool-cases (j == i)) [
          | inl same ↦
              let at : Local t' (jobs i) ((step jobs i s).pcs i) =
                rw (==_refl i) (next-Local (jobs i) (nz i) s.table p (v.local i)) in
              subst (λ k. Local t' (jobs k) ((step jobs i s).pcs k)) (sym ((==_iff j i).0 same)) at
          | inr other ↦ rw other (
              others-Local (jobs i).key (nz i) s.table t' c (jobs j) (s.pcs j)
                (λ e. ground (arith, other, distinct j i e)) (nz j) (v.local j))
        ];
      }

  Reach-Inv : (t : Table) {s : State} → IsPlaced t → Reach jobs t s → Inv s
  Reach-Inv t v begun = record {
    placed = v;
    local =
        λ i. record { count = 0; place = omega arith; passed = λ j h. absurd (omega (arith, h)) };
  }
  Reach-Inv t v (next r i) = step-Inv i _ (Reach-Inv t v r)

  -- With threads that add different keys, none of them 0, starting on a well-placed table, in
  -- every state that their steps reach in whatever order the table is well-placed, and `get` reads
  -- the value of each thread that has returned under its key.
  pub Reach-kept :
      (fuel : ℕ) (t : Table) {s : State}
      → capacity ≤ fuel
      → IsPlaced t
      → Reach jobs t s
      → IsPlaced s.table
        × ((i : ℕ) → s.pcs i ≡ returned → get fuel (jobs i).key s.table ≡ ok (jobs i).value)
  Reach-kept fuel t {s} enough v r =
      let w = Reach-Inv t v r in
      (
        w.placed,
        λ i e.
            let (idx, small, own, mine) = subst (Local s.table (jobs i)) e (w.local i) in
            get-placed fuel enough (jobs i).key idx s.table w.placed small (nz i) own ∙ ap ok mine,
      )
