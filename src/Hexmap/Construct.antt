-- ===== src/Hexmap/Construct.antt =====
-- The constructor of the map and the two overloads of getHex on coordinates.
use hex.Base.{
  ℕ, zero, suc, ◌+◌, ◌<◌, ◌≡◌, refl, sym, ◌∙◌, ap, true, inl, inr, none, some, List, arith,
  if◌then◌else◌, Bool-cases, get_elem?, ℤ, pos, pos_part, int16_of_IsInt16, IsInt16,
}
use mathlib.Core.Path.{subst, ap₂}
use hex.Hexmap.{
  HexCoord, coord, Hexagon, Hexmap, in_range, make_line, make_lines, make_map, hex_at, get_hex,
  get_hex_l, to_coordl, of_coordl,
}
use hex.Hexmap.Range.{WellFormed, in_range-Inside, of_coordl-to_coordl}

-- a hexagon as the constructor leaves it
abbrev pub fresh : HexCoord → Hexagon
fresh c = record { coord = c; terrain = 0; units = 0; wind = 0 }

get_elem?-make_line :
    (line col n j : ℕ)
    → j < n
    → line < 32768
    → col + n < 32769
    → get_elem? (make_line line col n) j ≡ some (fresh (coord (pos line) (pos (col + j))))
unfolding make_line
get_elem?-make_line line col zero j h p q = absurd (omega arith)
get_elem?-make_line line col (suc n) zero h p q =
    rw (int16_of_IsInt16 (pos line) (omega arith), int16_of_IsInt16 (pos col) (omega arith))
      (ap (λ k. some (fresh (coord (pos line) (pos k)))) (omega arith))
get_elem?-make_line line col (suc n) (suc j) h p q =
    get_elem?-make_line line (col + 1) n j (omega arith) p (omega arith)
    ∙ ap (λ k. some (fresh (coord (pos line) (pos k)))) (omega arith)

get_elem?-make_lines :
    (columns line n i : ℕ)
    → i < n
    → get_elem? (make_lines columns line n) i ≡ some (make_line (line + i) 0 columns)
unfolding make_lines
get_elem?-make_lines columns line zero i h = absurd (omega arith)
get_elem?-make_lines columns line (suc n) zero h =
    ap (λ k. some (make_line k 0 columns)) (omega arith)
get_elem?-make_lines columns line (suc n) (suc i) h =
    get_elem?-make_lines columns (line + 1) n i (omega arith)
    ∙ ap (λ k. some (make_line k 0 columns)) (omega arith)

hex_at_lem :
    (m : Hexmap) (i j : ℕ) {row : List Hexagon} {h : Hexagon}
    → get_elem? m.hex i ≡ some row
    → get_elem? row j ≡ some h
    → hex_at m (coord (pos i) (pos j)) ≡ some h
unfolding hex_at
hex_at_lem m i j e f = rw (e, hex_at) f

get_hex_l_lem : (m : Hexmap) (l : ℕ) → get_hex_l m l ≡ get_hex m (of_coordl l)
unfolding get_hex_l get_hex
get_hex_l_lem m l = refl

pub make_map-parts :
    (lines columns : ℤ) (m : Hexmap)
    → make_map lines columns ≡ some m
    → (m.hex ≡ make_lines (pos_part columns) 0 (pos_part lines))
      × (m.nb_lines ≡ lines)
      × (m.nb_columns ≡ columns)
unfolding make_map
make_map-parts lines columns m e = ground arith

module _ (lines columns : ℤ) (m : Hexmap) (made : make_map lines columns ≡ some m)
    (lines_ok : IsInt16 lines) (columns_ok : IsInt16 columns) where
  pub make_map-WellFormed : WellFormed m
  make_map-WellFormed =
      let (_, p, q) = make_map-parts lines columns m made in
      record { lines = rw p lines_ok.0; columns = rw q columns_ok.0 }

  hex_at-make_map : (c : HexCoord) → in_range m c ≡ true → hex_at m c ≡ some (fresh c)
  hex_at-make_map c t =
      let (grid, p, q) = make_map-parts lines columns m made in
      let x = in_range-Inside m c t in
      let line_lt : x.line < pos_part lines = subst (λ z. x.line < pos_part z) p x.line_lt in
      let column_lt : x.column < pos_part columns =
        subst (λ z. x.column < pos_part z) q x.column_lt in
      let row =
        ap (λ g. get_elem? g x.line) grid
        ∙ get_elem?-make_lines (pos_part columns) 0 (pos_part lines) x.line line_lt in
      let cell =
        get_elem?-make_line (0 + x.line) 0 (pos_part columns) x.column column_lt (omega arith)
          (omega arith)
        ∙ ap₂ (λ i j. some (fresh (coord (pos i) (pos j)))) (omega arith) (omega arith) in
      ap (hex_at m) x.here
      ∙ hex_at_lem m x.line x.column row cell
      ∙ ap (λ k. some (fresh k)) (sym x.here)

  -- On a map made by the constructor with limits in the range of a signed short, getHex at any
  -- coordinates within the limits finds the hexagon with those coordinates, its other fields null,
  -- and its assertion fails at any other.
  pub get_hex-make_map :
      (c : HexCoord) → get_hex m c ≡ (if in_range m c then some (fresh c) else none)
  unfolding get_hex
  get_hex-make_map c = elim (Bool-cases (in_range m c)) [
    | inl t ↦ rw t (hex_at-make_map c t)
    | inr f ↦ rw f refl
  ]

  -- On a map made by the constructor, getHex on the Coordl of two coordinates in the range of a
  -- signed short agrees with getHex on the coordinates.
  pub get_hex_l-to_coordl :
      (c : HexCoord) → IsInt16 c.line → IsInt16 c.column → get_hex_l m (to_coordl c) ≡ get_hex m c
  get_hex_l-to_coordl c h k =
      get_hex_l_lem m (to_coordl c) ∙ ap (get_hex m) (of_coordl-to_coordl c h k)
