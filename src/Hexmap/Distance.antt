-- ===== src/Hexmap/Distance.antt =====
-- hexDist on plain numbers: how a step to a neighbour changes it, and the step that lowers it.
use hex.Base.{
  ℕ, suc, ◌+◌, ◌/◌, ◌%◌, ◌-◌, ◌≤◌, ◌<◌, ◌≡◌, ◌⊎◌, inl, inr, refl, arith, ◌==◌, leb, ltb,
  if◌then◌else◌, Bool-cases, pos, ◌-ℤ◌, leb_ℤ, abs, u16,
}
use hex.Hexmap.{coord, Direction, n_east, s_east, east, n_west, west, s_west, threshold, hex_dist}

gap : ℕ → ℕ → ℕ
gap a b = (a - b) + (b - a)

abs-gap : (a b : ℕ) → abs (pos b -ℤ pos a) ≡ gap a b
unfolding gap
abs-gap a b = ground arith

leb-diff : (a b : ℕ) → leb_ℤ (pos 0) (pos b -ℤ pos a) ≡ leb a b
leb-diff a b = ground arith

low_bit : (l : ℕ) → u16 (pos l) % 2 ≡ l % 2
low_bit l = omega arith

reach : ℕ → ℕ → ℕ → ℕ → ℕ
reach l c c' dl =
    if l % 2 == 0
    then (if leb c c' then dl / 2 else (dl + 1) / 2)
    else (if leb c c' then (dl + 1) / 2 else dl / 2)

pub dist : ℕ → ℕ → ℕ → ℕ → ℕ
unfolding gap reach
dist l c l' c' = gap l l' + (gap c c' - reach l c c' (gap l l'))

threshold-reach : (l c c' dl : ℕ) → threshold (pos l) (pos c' -ℤ pos c) dl ≡ reach l c c' dl
unfolding threshold reach
threshold-reach l c c' dl = rw (leb-diff c c', low_bit l) refl

dist_cases :
    (dl dc r : ℕ)
    → (dl ≡ 0 → r ≡ 0)
    → (if dl == 0 then dc else (if leb dc r then dl else dl + (dc - r))) ≡ dl + (dc - r)
dist_cases dl dc r h = ground (arith, h)

reach-zero : (l c c' dl : ℕ) → dl ≡ 0 → reach l c c' dl ≡ 0
unfolding reach
reach-zero l c c' dl h = ground arith

pub hex_dist-dist :
    (l c l' c' : ℕ) → hex_dist (coord (pos l) (pos c)) (coord (pos l') (pos c')) ≡ dist l c l' c'
unfolding hex_dist dist
hex_dist-dist l c l' c' =
    rw (abs-gap l l', abs-gap c c', threshold-reach l c c' (gap l l'))
      (dist_cases (gap l l') (gap c c') (reach l c c' (gap l l')) (reach-zero l c c' (gap l l')))

-- what each direction does to the line and the column
abbrev pub Moves : Direction → ℕ → ℕ → ℕ → ℕ → Type 0
Moves n_east l c l' c' = (l ≡ l' + 1) × (c' ≡ c + l % 2)
Moves s_east l c l' c' = (l' ≡ l + 1) × (c' ≡ c + l % 2)
Moves east l c l' c' = (l' ≡ l) × (c' ≡ c + 1)
Moves n_west l c l' c' = (l ≡ l' + 1) × (c + l % 2 ≡ c' + 1)
Moves west l c l' c' = (l' ≡ l) × (c ≡ c' + 1)
Moves s_west l c l' c' = (l' ≡ l + 1) × (c + l % 2 ≡ c' + 1)

-- the steps between two neighbouring hexagons, by the parity of the upper line `l`
module _ (l c t u : ℕ) where
  up_odd : l % 2 ≡ 1 → dist (l + 1) c t u ≤ suc (dist l c t u)
  unfolding dist
  up_odd h = ground arith

  up_odd_west : l % 2 ≡ 1 → dist (l + 1) (c + 1) t u ≤ suc (dist l c t u)
  unfolding dist
  up_odd_west h = ground arith

  up_even : l % 2 ≡ 0 → dist (l + 1) c t u ≤ suc (dist l c t u)
  unfolding dist
  up_even h = ground arith

  up_even_east : l % 2 ≡ 0 → dist (l + 1) c t u ≤ suc (dist l (c + 1) t u)
  unfolding dist
  up_even_east h = ground arith

  down_odd : l % 2 ≡ 1 → dist l c t u ≤ suc (dist (l + 1) c t u)
  unfolding dist
  down_odd h = ground arith

  down_odd_east : l % 2 ≡ 1 → dist l c t u ≤ suc (dist (l + 1) (c + 1) t u)
  unfolding dist
  down_odd_east h = ground arith

  down_even : l % 2 ≡ 0 → dist l c t u ≤ suc (dist (l + 1) c t u)
  unfolding dist
  down_even h = ground arith

  down_even_west : l % 2 ≡ 0 → dist l (c + 1) t u ≤ suc (dist (l + 1) c t u)
  unfolding dist
  down_even_west h = ground arith

  along_east : dist l c t u ≤ suc (dist l (c + 1) t u)
  unfolding dist
  along_east = ground arith

  along_west : dist l (c + 1) t u ≤ suc (dist l c t u)
  unfolding dist
  along_west = ground arith

parity : (l : ℕ) → (l % 2 ≡ 0) ⊎ (l % 2 ≡ 1)
parity l = elim (Bool-cases (l % 2 == 0)) [
  | inl e ↦ inl (ground arith)
  | inr e ↦ inr (ground arith)
]

-- One step lowers the distance by one at most.
pub dist-Moves :
    (d : Direction) (l c l' c' t u : ℕ) → Moves d l c l' c' → dist l c t u ≤ suc (dist l' c' t u)
dist-Moves n_east l c l' c' t u h = elim (parity l') [
  | inl e ↦ let p : c' ≡ c + 1 = omega arith in rw (h.0, p) (up_even_east l' c t u e)
  | inr e ↦ let p : c' ≡ c = omega arith in rw (h.0, p) (up_odd l' c t u e)
]
dist-Moves n_west l c l' c' t u h = elim (parity l') [
  | inl e ↦ let p : c ≡ c' = omega arith in rw (h.0, p) (up_even l' c' t u e)
  | inr e ↦ let p : c ≡ c' + 1 = omega arith in rw (h.0, p) (up_odd_west l' c' t u e)
]
dist-Moves s_east l c l' c' t u h = elim (parity l) [
  | inl e ↦ let p : c' ≡ c = omega arith in rw (h.0, p) (down_even l c t u e)
  | inr e ↦ let p : c' ≡ c + 1 = omega arith in rw (h.0, p) (down_odd_east l c t u e)
]
dist-Moves s_west l c l' c' t u h = elim (parity l) [
  | inl e ↦ let p : c ≡ c' + 1 = omega arith in rw (h.0, p) (down_even_west l c' t u e)
  | inr e ↦ let p : c ≡ c' = omega arith in rw (h.0, p) (down_odd l c' t u e)
]
dist-Moves east l c l' c' t u h = rw (h.0, h.1) (along_east l c t u)
dist-Moves west l c l' c' t u h = rw (h.0, h.1) (along_west l c' t u)

-- A step towards `(t, u)` that stays between the two hexagons and lowers the distance by one.
pub record Nearer (l c t u : ℕ) : Type 0 where
  pub dir : Direction
  pub line : ℕ
  pub column : ℕ
  pub moves : Moves dir l c line column
  pub nearer : dist l c t u ≡ suc (dist line column t u)
  pub line_between : (line ≤ l) ⊎ (line ≤ t)
  pub column_between : (column ≤ c) ⊎ (column ≤ u)

Nearer-up_east : (l c t u : ℕ) → t < l → c + l % 2 ≤ u → Nearer l c t u
unfolding dist
Nearer-up_east l c t u h k = record {
  dir = n_east;
  line = l - 1;
  column = c + l % 2;
  moves = omega arith;
  nearer = ground arith;
  line_between = inl (omega arith);
  column_between = inr k;
}

Nearer-up_west : (l c t u : ℕ) → t < l → u < c + l % 2 → Nearer l c t u
unfolding dist
Nearer-up_west l c t u h k = record {
  dir = n_west;
  line = l - 1;
  column = c + l % 2 - 1;
  moves = omega arith;
  nearer = ground arith;
  line_between = inl (omega arith);
  column_between = inl (omega arith);
}

Nearer-down_east : (l c t u : ℕ) → l < t → c + l % 2 ≤ u → Nearer l c t u
unfolding dist
Nearer-down_east l c t u h k = record {
  dir = s_east;
  line = l + 1;
  column = c + l % 2;
  moves = omega arith;
  nearer = ground arith;
  line_between = inr (omega arith);
  column_between = inr k;
}

Nearer-down_west : (l c t u : ℕ) → l < t → u < c + l % 2 → Nearer l c t u
unfolding dist
Nearer-down_west l c t u h k = record {
  dir = s_west;
  line = l + 1;
  column = c + l % 2 - 1;
  moves = omega arith;
  nearer = ground arith;
  line_between = inr (omega arith);
  column_between = inl (omega arith);
}

Nearer-east : (l c t u : ℕ) → l ≡ t → c < u → Nearer l c t u
unfolding dist
Nearer-east l c t u h k = record {
  dir = east;
  line = l;
  column = c + 1;
  moves = omega arith;
  nearer = ground arith;
  line_between = inl (omega arith);
  column_between = inr (omega arith);
}

Nearer-west : (l c t u : ℕ) → l ≡ t → u < c → Nearer l c t u
unfolding dist
Nearer-west l c t u h k = record {
  dir = west;
  line = l;
  column = c - 1;
  moves = omega arith;
  nearer = ground arith;
  line_between = inl (omega arith);
  column_between = inl (omega arith);
}

pub dist_self : (l c : ℕ) → dist l c l c ≡ 0
unfolding dist
dist_self l c = ground arith

pub Nearer-of_ne : (l c t u n : ℕ) → dist l c t u ≡ suc n → Nearer l c t u
Nearer-of_ne l c t u n h = elim (Bool-cases (ltb t l)) [
  | inl up ↦ elim (Bool-cases (leb (c + l % 2) u)) [
    | inl k ↦ Nearer-up_east l c t u (ground arith) (ground arith)
    | inr k ↦ Nearer-up_west l c t u (ground arith) (ground arith)
  ]
  | inr not_up ↦ elim (Bool-cases (ltb l t)) [
    | inl down ↦ elim (Bool-cases (leb (c + l % 2) u)) [
      | inl k ↦ Nearer-down_east l c t u (ground arith) (ground arith)
      | inr k ↦ Nearer-down_west l c t u (ground arith) (ground arith)
    ]
    | inr not_down ↦ elim (Bool-cases (ltb c u)) [
      | inl k ↦ Nearer-east l c t u (ground arith) (ground arith)
      | inr k ↦ Nearer-west l c t u (ground arith) (ground (arith, dist_self l c))
    ]
  ]
]

pub dist-zero : (l c t u : ℕ) → dist l c t u ≡ 0 → (l ≡ t) × (c ≡ u)
unfolding dist
dist-zero l c t u h = ground arith

pub dist_comm : (l c t u : ℕ) → dist l c t u ≡ dist t u l c
unfolding dist
dist_comm l c t u = ground arith
