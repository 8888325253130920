-- ===== src/Hexmap/Range.antt =====
-- The coordinates of a map's hexagons: as numbers within the limits, as a Coordl, and through the
-- constructor.
use hex.Base.{
  ℕ, ◌+◌, ◌<◌, ◌≡◌, refl, true, arith, ℤ, pos, negsuc, ltb_ℤ, leb_ℤ, pos_part, IsInt16, ◌&&◌, u16,
  ◌%◌, ◌/◌, ◌*◌, int16_of_IsInt16,
}
use hex.Hexmap.{
  HexCoord, coord, Direction, n_east, s_east, east, n_west, west, s_west, dir_to_vect, Hexmap,
  in_range, translate, to_coordl, of_coordl,
}
use hex.Hexmap.Distance.{Moves}

-- the limits of a map are values of `mIndex`
pub record WellFormed (m : Hexmap) : Type 0 where
  pub lines : pos_part m.nb_lines < 32768
  pub columns : pos_part m.nb_columns < 32768

-- a coordinate within the limits, as two numbers
pub record Inside (m : Hexmap) (c : HexCoord) : Type 0 where
  pub line : ℕ
  pub column : ℕ
  pub here : c ≡ coord (pos line) (pos column)
  pub line_lt : line < pos_part m.nb_lines
  pub column_lt : column < pos_part m.nb_columns

in_range-pos :
    (nl nc l c : ℤ)
    → (leb_ℤ (pos 0) l && leb_ℤ (pos 0) c && ltb_ℤ l nl && ltb_ℤ c nc) ≡ true
    → (i : ℕ) × (j : ℕ) × (l ≡ pos i) × (c ≡ pos j) × (i < pos_part nl) × (j < pos_part nc)
in_range-pos nl nc (pos i) (pos j) h = (i, j, refl, refl, ground arith, ground arith)
in_range-pos nl nc (pos i) (negsuc j) h = ground arith
in_range-pos nl nc (negsuc i) c h = ground arith

pub in_range-Inside : (m : Hexmap) (c : HexCoord) → in_range m c ≡ true → Inside m c
unfolding in_range
in_range-Inside m c h =
    let (i, j, p, q, a, b) = in_range-pos m.nb_lines m.nb_columns c.line c.column h in
    record { line = i; column = j; here = λ k. coord (p k) (q k); line_lt = a; column_lt = b }

in_range_of_lt :
    (nl nc : ℤ) (i j : ℕ)
    → i < pos_part nl
    → j < pos_part nc
    → (leb_ℤ (pos 0) (pos i) && leb_ℤ (pos 0) (pos j) && ltb_ℤ (pos i) nl && ltb_ℤ (pos j) nc)
      ≡ true
in_range_of_lt (pos a) (pos b) i j h k = ground arith
in_range_of_lt (pos a) (negsuc b) i j h k = absurd (omega arith)
in_range_of_lt (negsuc a) nc i j h k = absurd (omega arith)

pub Inside-in_range :
    (m : Hexmap) (i j : ℕ)
    → i < pos_part m.nb_lines
    → j < pos_part m.nb_columns
    → in_range m (coord (pos i) (pos j)) ≡ true
unfolding in_range
Inside-in_range m i j h k = in_range_of_lt m.nb_lines m.nb_columns i j h k

-- the table of directions, on coordinates within 16 bits
pub translate-Moves :
    (d : Direction) (l c l' c' : ℕ)
    → l < 32768
    → l' < 32768
    → c' < 32768
    → Moves d l c l' c'
    → translate (coord (pos l) (pos c)) (dir_to_vect (pos l) d) ≡ coord (pos l') (pos c')
unfolding translate dir_to_vect
translate-Moves n_east l c l' c' a b e h = ground arith
translate-Moves s_east l c l' c' a b e h = ground arith
translate-Moves east l c l' c' a b e h = ground arith
translate-Moves n_west l c l' c' a b e h = ground arith
translate-Moves west l c l' c' a b e h = ground arith
translate-Moves s_west l c l' c' a b e h = ground arith

pub Moves-translate :
    (d : Direction) (l c l' c' : ℕ)
    → l < 32768
    → c < 32768
    → l' < 32767
    → c' < 32767
    → translate (coord (pos l) (pos c)) (dir_to_vect (pos l) d) ≡ coord (pos l') (pos c')
    → Moves d l c l' c'
unfolding translate dir_to_vect
Moves-translate n_east l c l' c' a k b e h = ground arith
Moves-translate s_east l c l' c' a k b e h = ground arith
Moves-translate east l c l' c' a k b e h = ground arith
Moves-translate n_west l c l' c' a k b e h = ground arith
Moves-translate west l c l' c' a k b e h = ground arith
Moves-translate s_west l c l' c' a k b e h = ground arith

u16-lt : (z : ℤ) → u16 z < 65536
u16-lt (pos n) = omega arith
u16-lt (negsuc n) = omega arith

u16_low : (z : ℤ) (w : ℕ) → (u16 z + 65536 * w) % 65536 ≡ u16 z
u16_low z w = omega (arith, u16-lt z)

u16_high : (z w : ℤ) → (u16 z + 65536 * u16 w) / 65536 % 65536 ≡ u16 w
u16_high z w = omega (arith, u16-lt z, u16-lt w)

-- Unpacking the Coordl of two coordinates in the range of a signed short gives the coordinates
-- back.
pub of_coordl-to_coordl :
    (c : HexCoord) → IsInt16 c.line → IsInt16 c.column → of_coordl (to_coordl c) ≡ c
unfolding of_coordl to_coordl
of_coordl-to_coordl c h k =
    let low : (u16 c.line + 65536 * u16 c.column) % 65536 ≡ u16 c.line =
      u16_low c.line (u16 c.column) in
    let high : (u16 c.line + 65536 * u16 c.column) / 65536 % 65536 ≡ u16 c.column =
      u16_high c.line c.column in
    rw (low, high) (λ i. coord (int16_of_IsInt16 c.line h i) (int16_of_IsInt16 c.column k i))
