-- ===== src/Rocksdb/Service/Spin.antt =====
-- When `spin_for` ends.
use cos_userspace.Base.{
  ℕ, ◌+◌, ◌<◌, ◌≤◌, ◌≡◌, refl, ap, List, [], ◌∷◌, ◌++◌, err, out_of_fuel, Returns, arith, ltb, ◌==◌,
  if◌then◌else◌, Bool-cases, inl, inr,
}
use cos_userspace.Rocksdb.Service.{spin_round, spin_for}

-- The time that counts.
unfoldable pub counted : List ℕ → ℕ
counted [] = 0
counted (t ∷ ts) = (if ltb t 100000 then t else 0) + counted ts

-- The rounds `used` are enough, and without the last of them they are not.
pub record Spent (duration : ℕ) (samples rest : List ℕ) : Type 0 where
  pub used : List ℕ
  pub split : samples ≡ used ++ rest
  pub enough : duration ≤ counted used
  pub needed : (before : List ℕ) (last : ℕ) → used ≡ before ++ last ∷ [] → counted before < duration

pub no_last : (before : List ℕ) (last : ℕ) → [] ≡ before ++ last ∷ [] → ⊥
no_last [] last e = cc
no_last (x ∷ before) last e = cc

spun :
    (t : ℕ) (ts rest : List ℕ) (duration : ℕ)
    → 0 < duration
    → Spent (spin_round t duration) ts rest
    → Spent duration (t ∷ ts) rest
unfolding spin_round counted
spun t ts rest duration h s = record {
  used = t ∷ s.used;
  split = ap (◌∷◌ t) s.split;
  enough = ground (arith, s.enough);
  needed = λ before last e. go before last e;
}
  where
    go : (before : List ℕ) (last : ℕ) → t ∷ s.used ≡ before ++ last ∷ [] → counted before < duration
    go [] last e = h
    go (x ∷ before) last e =
        let first : t ≡ x = cc in
        let others : s.used ≡ before ++ last ∷ [] = cc in
        let less = s.needed before last others in ground (arith, first, less)

-- If the rounds that count take at least `duration` together, `spin_for` ends; the rounds that it
-- used are enough, and without the last of them they are not.
pub spin_for-Spent :
    (samples : List ℕ) (duration : ℕ)
    → duration ≤ counted samples
    → Returns (spin_for samples duration) (Spent duration samples)
unfolding spin_for counted spin_round
spin_for-Spent [] duration h =
    let nothing : duration ≡ 0 = omega (arith, h) in
    (
      [],
      ground (arith, nothing),
      record {
        used = [];
        split = refl;
        enough = h;
        needed = λ before last e. absurd (no_last before last e);
      },
    )
spin_for-Spent (t ∷ ts) duration h = elim (Bool-cases (duration == 0)) [
  | inl done ↦
      rw (done, spin_for)
        (
          t ∷ ts,
          refl,
          record {
            used = [];
            split = refl;
            enough = ground arith;
            needed = λ before last e. absurd (no_last before last e);
          },
        )
  | inr more ↦
      let (rest, run, s) = spin_for-Spent ts (spin_round t duration) (ground (arith, h)) in
      (rest, rw (more, spin_for) run, spun t ts rest duration (ground arith) s)
]

-- Otherwise it goes on after all of them.
pub spin_for-short :
    (samples : List ℕ) (duration : ℕ)
    → counted samples < duration
    → spin_for samples duration ≡ err out_of_fuel
unfolding spin_for counted spin_round
spin_for-short [] duration h = ground (arith, h)
spin_for-short (t ∷ ts) duration h = ground (arith, h, spin_for-short ts (spin_round t duration))
