-- ===== src/Hexmap/Neighbour.antt =====
-- getCoordL on a hexagon and a vector, and getHex on a hexagon and a direction.
use hex.Base.{
  ◌≡◌, ◌≢◌, refl, sym, ◌∙◌, ap, Bool, true, false, ◌&&◌, ◌||◌, not, if◌then◌else◌, none, some,
  arith, ==-ne, ltb_ℤ, leb_ℤ, ℤ, pos, negsuc, u16, int16, IsInt16,
}
use hex.Hexmap.{
  HexCoord, coord, Direction, dir_to_vect, Hexagon, Hexmap, in_range, translate, to_coordl,
  get_coordl, get_neighbour,
}
use mathlib.Core.Bool.{false≢true}
use hex.Hexmap.Range.{in_range-Inside, Inside-in_range, of_coordl-to_coordl}

int16-IsInt16 : (z : ℤ) → IsInt16 (int16 z)
int16-IsInt16 (pos n) = ground arith
int16-IsInt16 (negsuc n) = ground arith

u16-zero : (z : ℤ) → IsInt16 z → u16 z ≡ 0 → z ≡ pos 0
u16-zero (pos n) h e = ground arith
u16-zero (negsuc n) h e = absurd (omega arith)

-- the test of getCoordL is the negation of inRange
outside_test :
    (nl nc l c : ℤ)
    → (ltb_ℤ l (pos 0) || leb_ℤ nl l || ltb_ℤ c (pos 0) || leb_ℤ nc c)
      ≡ not (leb_ℤ (pos 0) l && leb_ℤ (pos 0) c && ltb_ℤ l nl && ltb_ℤ c nc)
outside_test nl nc l c = ground arith

if_not {ℓ} : {A : Type ℓ} (x y : A) (b : Bool) → (if not b then x else y) ≡ (if b then y else x)
if_not x y true = refl
if_not x y false = refl

get_coordl_lem :
    (m : Hexmap) (h : Hexagon) (v : HexCoord)
    → get_coordl m h v
      ≡ (if in_range m (translate h.coord v) then 0 else to_coordl (translate h.coord v))
unfolding get_coordl in_range
get_coordl_lem m h v =
    rw
      (outside_test m.nb_lines m.nb_columns (translate h.coord v).line (translate h.coord v).column)
      (if_not (to_coordl (translate h.coord v)) 0 (in_range m (translate h.coord v)))

to_coordl-zero :
    (c : HexCoord) → IsInt16 c.line → IsInt16 c.column → to_coordl c ≡ 0 → c ≡ coord (pos 0) (pos 0)
unfolding to_coordl
to_coordl-zero c h k e =
    λ i. coord (u16-zero c.line h (omega arith) i) (u16-zero c.column k (omega arith) i)

module _ (m : Hexmap) (h : Hexagon) (d : Direction) (on : in_range m h.coord ≡ true) where
  abbrev target : HexCoord
  target = translate h.coord (dir_to_vect h.coord.line d)

  origin_in_range : in_range m (coord (pos 0) (pos 0)) ≡ true
  origin_in_range =
      let x = in_range-Inside m h.coord on in
      Inside-in_range m 0 0 (omega (arith, x.line_lt)) (omega (arith, x.column_lt))

  target-IsInt16 : IsInt16 target.line × IsInt16 target.column
  unfolding translate
  target-IsInt16 = (int16-IsInt16 _, int16-IsInt16 _)

  target-ne-zero : in_range m target ≡ false → to_coordl target ≢ 0
  target-ne-zero out e =
      let at_origin = to_coordl-zero target target-IsInt16.0 target-IsInt16.1 e in
      false≢true (sym out ∙ ap (in_range m) at_origin ∙ origin_in_range)

  -- For a hexagon of the map and a direction, getHex returns NULL where the neighbour in that
  -- direction lies on the map, and otherwise the address formed from the neighbour's coordinates
  -- outside the limits.
  pub get_neighbour_inverted :
      (in_range m target ≡ true → get_neighbour m h d ≡ none)
      × (in_range m target ≡ false → get_neighbour m h d ≡ some target)
  unfolding get_neighbour
  get_neighbour_inverted = (
    λ t. rw (get_coordl_lem, t) refl,
    λ t.
        rw (get_coordl_lem, t, ==-ne _ 0 (target-ne-zero t))
          (ap some (of_coordl-to_coordl target target-IsInt16.0 target-IsInt16.1)),
  )
