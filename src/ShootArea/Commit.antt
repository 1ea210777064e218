-- ===== src/ShootArea/Commit.antt =====
-- What `commit_shoot_message` leaves in the page.
use cos_userspace.Base.{
  ℕ, ◌+◌, ◌*◌, ◌/◌, ◌<◌, ◌≤◌, ◌≡◌, ◌≢◌, ◌%◌, ◌^◌, refl, ap, ◌∙◌, List, [], ◌∷◌, ◌++◌, Result, ok,
  err, out_of_bounds, All, In, inl, inr, ◌⊎◌, arith, ltb, lt→ltb, Bool-cases,
}
use cos_userspace.ShootArea.{
  CosShootArg, ShootArea, shoot_area_size, write, commit_loop, commit_shoot_message,
}

-- The last word written for a processor, or the one that stood there.
unfoldable pub overlay : List (ℕ × CosShootArg) → (ℕ → CosShootArg) → ℕ → CosShootArg
overlay [] area = area
overlay ((cpu, arg) ∷ args) area = overlay args (write area cpu arg)

abbrev pub InArea : ℕ × CosShootArg → Type 0
InArea e = e.0 < shoot_area_size

commit_loop-overlay :
    (args : List (ℕ × CosShootArg)) (sa : ShootArea)
    → All InArea args
    → commit_loop args sa ≡ ok (record sa { area = overlay args sa.area })
unfolding commit_loop overlay
commit_loop-overlay [] sa h = refl
commit_loop-overlay ((cpu, arg) ∷ args) sa h =
    rw (lt→ltb _ _ h.0) (commit_loop-overlay args (record sa { area = write sa.area cpu arg }) h.1)

-- With processors of the page only, `commit_shoot_message` ends without a fault, lays the
-- arguments over the old page and stores the low 16 bits of the sequence number.
pub commit_shoot_message_lem :
    (args : List (ℕ × CosShootArg)) (seq : ℕ) (sa : ShootArea)
    → All InArea args
    → commit_shoot_message args seq sa
      ≡ ok (record { seq = seq % 2 ^ 16; area = overlay args sa.area })
unfolding commit_shoot_message
commit_shoot_message_lem args seq sa h = rw (commit_loop-overlay args sa h)

-- Some argument is for a processor that the page does not have.
abbrev pub Outside : List (ℕ × CosShootArg) → Type 0
Outside args = (e : ℕ × CosShootArg) × In e args × (511 ≤ e.0)

-- What stands in a page `sa'` into which `args` have been written.
pub record Written (args : List (ℕ × CosShootArg)) (seq : ℕ) (sa sa' : ShootArea) : Type 0 where
  -- The last word for a processor is there.
  pub last :
      (before after : List (ℕ × CosShootArg)) (cpu : ℕ) (arg : CosShootArg)
      → args ≡ before ++ (cpu, arg) ∷ after
      → All (λ e. e.0 ≢ cpu) after
      → sa'.area cpu ≡ arg
  pub untouched : (i : ℕ) → All (λ e. e.0 ≢ i) args → sa'.area i ≡ sa.area i
  pub is_short : sa'.seq < 65536
  pub low_bits : (high : ℕ) × (seq ≡ high * 65536 + sa'.seq)

abbrev pub Committed : List (ℕ × CosShootArg) → ℕ → ShootArea → Result ShootArea → Type 0
Committed args seq sa (ok sa') = All InArea args × Written args seq sa sa'
Committed args seq sa (err e) = Outside args × (e ≡ out_of_bounds)

overlay-untouched :
    (args : List (ℕ × CosShootArg)) (area : ℕ → CosShootArg) (i : ℕ)
    → All (λ e. e.0 ≢ i) args
    → overlay args area i ≡ area i
unfolding overlay
overlay-untouched [] area i h = refl
overlay-untouched ((cpu, arg) ∷ args) area i h =
    overlay-untouched args (write area cpu arg) i h.1 ∙ ground (arith, h.0)

overlay-last :
    (before after : List (ℕ × CosShootArg)) (area : ℕ → CosShootArg) (cpu : ℕ) (arg : CosShootArg)
    → All (λ e. e.0 ≢ cpu) after
    → overlay (before ++ (cpu, arg) ∷ after) area cpu ≡ arg
unfolding overlay
overlay-last [] after area cpu arg h =
    overlay-untouched after (write area cpu arg) cpu h ∙ ground arith
overlay-last ((c, a) ∷ before) after area cpu arg h =
    overlay-last before after (write area c a) cpu arg h

InArea-cases : (args : List (ℕ × CosShootArg)) → All InArea args ⊎ Outside args
InArea-cases [] = inl tt
InArea-cases (e ∷ args) = elim (Bool-cases (ltb e.0 511)) [
  | inl inside ↦ elim (InArea-cases args) [
    | inl h ↦ inl (ground arith, h)
    | inr (x, i, far) ↦ inr (x, inr i, far)
  ]
  | inr outside ↦ inr (e, inl refl, ground arith)
]

Outside-faults :
    (args : List (ℕ × CosShootArg)) (sa : ShootArea)
    → Outside args
    → commit_loop args sa ≡ err out_of_bounds
unfolding commit_loop
Outside-faults [] sa (e, i, far) = absurd i
Outside-faults ((cpu, arg) ∷ args) sa (e, i, far) = elim (Bool-cases (ltb cpu shoot_area_size)) [
  | inl inside ↦ rw inside (elim i [
    | inl same ↦ absurd (ground (arith, same))
    | inr later ↦ Outside-faults args (record sa { area = write sa.area cpu arg }) (e, later, far)
  ])
  | inr outside ↦ rw outside refl
]

-- If all processors among the arguments are below 511, `commit_shoot_message` ends without a
-- fault, each of these processors has its last argument in the page, every other word is as it
-- was, and the number of the page is below 65536 and differs from `seq` by a multiple of that;
-- otherwise it ends with an access out of bounds.
pub commit_shoot_message-Committed :
    (args : List (ℕ × CosShootArg)) (seq : ℕ) (sa : ShootArea)
    → Committed args seq sa (commit_shoot_message args seq sa)
unfolding commit_shoot_message
commit_shoot_message-Committed args seq sa = elim (InArea-cases args) [
  | inl h ↦ rw (commit_shoot_message_lem args seq sa h) (
    h,
    record {
      last = λ before after cpu arg e far.
          ap (λ xs. overlay xs sa.area cpu) e ∙ overlay-last before after sa.area cpu arg far;
      untouched = λ i far. overlay-untouched args sa.area i far;
      is_short = omega arith;
      low_bits = (seq / 65536, omega arith);
    },
  )
  | inr h ↦ rw (Outside-faults args sa h) (h, refl)
]
