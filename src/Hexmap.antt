-- ===== src/Hexmap.antt =====
-- core/hexmap.h and core/hexmap.cpp: the hexagon map, its coordinates, its neighbours and the
-- distance between two hexagons.
pub mod Distance
pub mod Range
pub mod Neighbour
pub mod Construct
pub mod Destroy
mod Tests
pub mod Walks
use hex.Base.{
  ℕ, zero, suc, ◌+◌, ◌*◌, ◌/◌, ◌%◌, ◌-◌, Bool, ◌&&◌, ◌||◌, Option, none, some, List, [], ◌∷◌, leb,
  ◌==◌, if◌then◌else◌, get_elem?, ℤ, pos, negsuc, ◌+ℤ◌, ◌-ℤ◌, ltb_ℤ, leb_ℤ, abs, u16, signed16,
  int16, pos_part,
}

-- the member `s` of the union HexCoord
pub record HexCoord : Type 0 where
  pub line : ℤ
  pub column : ℤ

abbrev pub coord : ℤ → ℤ → HexCoord
coord l c = record { line = l; column = c }

-- the member `l` of the union: `line` is the low half
unfoldable pub to_coordl : HexCoord → ℕ
to_coordl c = u16 c.line + 65536 * u16 c.column

unfoldable pub of_coordl : ℕ → HexCoord
of_coordl l = coord (signed16 (l % 65536)) (signed16 (l / 65536 % 65536))

pub data Direction : Type 0 where
  n_east s_east east n_west west s_west : Direction

pub record Hexagon : Type 0 where
  pub coord : HexCoord
  pub terrain : ℕ
  pub units : ℕ
  pub wind : ℕ

pub record Hexmap : Type 0 where
  pub hex : List (List Hexagon)
  pub nb_lines : ℤ
  pub nb_columns : ℤ

-- the row of `dirToVect` for even lines, then that for odd lines
unfoldable pub even_vect : Direction → HexCoord
even_vect n_east = coord (negsuc 0) (pos 0)
even_vect s_east = coord (pos 1) (pos 0)
even_vect east = coord (pos 0) (pos 1)
even_vect n_west = coord (negsuc 0) (negsuc 0)
even_vect west = coord (pos 0) (negsuc 0)
even_vect s_west = coord (pos 1) (negsuc 0)

unfoldable pub odd_vect : Direction → HexCoord
odd_vect n_east = coord (negsuc 0) (pos 1)
odd_vect s_east = coord (pos 1) (pos 1)
odd_vect east = coord (pos 0) (pos 1)
odd_vect n_west = coord (negsuc 0) (pos 0)
odd_vect west = coord (pos 0) (negsuc 0)
odd_vect s_west = coord (pos 1) (pos 0)

-- `dirToVect[line & 1][dir]`
unfoldable pub dir_to_vect : ℤ → Direction → HexCoord
unfolding even_vect odd_vect
dir_to_vect line d = if u16 line % 2 == 0 then even_vect d else odd_vect d

-- one line of the array, from column `col` on, `n` columns being left
unfoldable pub make_line : (line col n : ℕ) → List Hexagon
make_line line col zero = []
make_line line col (suc n) =
    record { coord = coord (int16 (pos line)) (int16 (pos col)); terrain = 0; units = 0; wind = 0 }
    ∷ make_line line (col + 1) n

unfoldable pub make_lines : (columns line n : ℕ) → List (List Hexagon)
unfolding make_line
make_lines columns line zero = []
make_lines columns line (suc n) = make_line line 0 columns ∷ make_lines columns (line + 1) n

-- the constructor; `none` is the failed assertion
unfoldable pub make_map : (lines columns : ℤ) → Option Hexmap
unfolding make_lines
make_map lines columns =
    if ltb_ℤ (pos 0) lines && ltb_ℤ (pos 0) columns
    then some (record {
      hex = make_lines (pos_part columns) 0 (pos_part lines);
      nb_lines = lines;
      nb_columns = columns;
    })
    else none

-- `delete [] hex[col]` for the `n` columns left; `none` is a row outside the array
unfoldable pub free_rows : (n : ℕ) → List (List Hexagon) → Option (List (List Hexagon))
free_rows zero rows = some rows
free_rows (suc n) [] = none
free_rows (suc n) (row ∷ rows) = free_rows n rows

-- the destructor, with the rows that it does not release
unfoldable pub destroy : Hexmap → Option (List (List Hexagon))
unfolding free_rows
destroy m = free_rows (pos_part m.nb_columns) m.hex

unfoldable pub in_range : Hexmap → HexCoord → Bool
in_range m c =
    leb_ℤ (pos 0) c.line
    && leb_ℤ (pos 0) c.column
    && ltb_ℤ c.line m.nb_lines
    && ltb_ℤ c.column m.nb_columns

-- the overload that takes a Coordl
unfoldable pub in_range_l : Hexmap → ℕ → Bool
unfolding in_range of_coordl
in_range_l m l = in_range m (of_coordl l)

-- `hex[line][column]`
unfoldable pub hex_at : Hexmap → HexCoord → Option Hexagon
hex_at m c = elim (get_elem? m.hex (pos_part c.line)) [
  | none ↦ none
  | some row ↦ get_elem? row (pos_part c.column)
]

-- both overloads of getHex on coordinates; `none` is the failed assertion
unfoldable pub get_hex : Hexmap → HexCoord → Option Hexagon
unfolding in_range hex_at
get_hex m c = if in_range m c then hex_at m c else none

unfoldable pub get_hex_l : Hexmap → ℕ → Option Hexagon
unfolding in_range_l hex_at of_coordl
get_hex_l m l = if in_range_l m l then hex_at m (of_coordl l) else none

unfoldable pub get_vect : Hexagon → Hexagon → ℕ
unfolding to_coordl
get_vect h1 h2 =
    to_coordl
      (coord (int16 (h2.coord.line -ℤ h1.coord.line)) (int16 (h2.coord.column -ℤ h1.coord.column)))

-- the coordinates `h + vect`, in 16 bits
unfoldable pub translate : HexCoord → HexCoord → HexCoord
translate h vect = coord (int16 (h.line +ℤ vect.line)) (int16 (h.column +ℤ vect.column))

unfoldable pub get_coordl : Hexmap → Hexagon → HexCoord → ℕ
unfolding to_coordl translate
get_coordl m h vect =
    let aux = translate h.coord vect in
    if ltb_ℤ aux.line (pos 0)
      || leb_ℤ m.nb_lines aux.line
      || ltb_ℤ aux.column (pos 0)
      || leb_ℤ m.nb_columns aux.column
    then to_coordl aux
    else 0

-- getHex(hex, dir): `none` is NULL, `some c` is the address `&hex[c.line][c.column]`
unfoldable pub get_neighbour : Hexmap → Hexagon → Direction → Option HexCoord
unfolding get_coordl of_coordl dir_to_vect
get_neighbour m h dir =
    let l = get_coordl m h (dir_to_vect h.coord.line dir) in
    if l == 0 then none else some (of_coordl l)

-- the local `thres` of hexDist
unfoldable pub threshold : (line diff_cols : ℤ) → ℕ → ℕ
threshold line diff_cols abs_diff_l =
    if u16 line % 2 == 0
    then (if leb_ℤ (pos 0) diff_cols then abs_diff_l / 2 else (abs_diff_l + 1) / 2)
    else (if leb_ℤ (pos 0) diff_cols then (abs_diff_l + 1) / 2 else abs_diff_l / 2)

unfoldable pub hex_dist : HexCoord → HexCoord → ℕ
unfolding threshold
hex_dist h1 h2 =
    let diff_lines = h2.line -ℤ h1.line in
    let diff_cols = h2.column -ℤ h1.column in
    let abs_diff_l = abs diff_lines in
    let thres = threshold h1.line diff_cols abs_diff_l in
    if abs diff_lines == 0
    then abs diff_cols
    else (if leb (abs diff_cols) thres then abs_diff_l else abs_diff_l + (abs diff_cols - thres))
