-- ===== src/Hexmap/Destroy.antt =====
-- The destructor of the map (core/hexmap.cpp), on a map that the constructor made.
use hex.Base.{
  ℕ, zero, suc, ◌+◌, ◌≡◌, refl, ◌∙◌, ap, none, some, List, [], ◌∷◌, arith, length, drop, leb,
  if◌then◌else◌, ℤ, pos_part,
}
use hex.Hexmap.{Hexagon, Hexmap, make_lines, make_map, free_rows, destroy}
use hex.Hexmap.Construct.{make_map-parts}

length-make_lines : (columns line n : ℕ) → length (make_lines columns line n) ≡ n
unfolding make_lines
length-make_lines columns line zero = refl
length-make_lines columns line (suc n) = ap suc (length-make_lines columns (line + 1) n)

free_rows_lem :
    (n : ℕ) (rows : List (List Hexagon))
    → free_rows n rows ≡ (if leb n (length rows) then some (drop n rows) else none)
unfolding free_rows
free_rows_lem zero rows = ground arith
free_rows_lem (suc n) [] = ground arith
free_rows_lem (suc n) (row ∷ rows) = free_rows_lem n rows ∙ same
  where
    same :
        (if leb n (length rows) then some (drop n rows) else none)
        ≡ (if leb (suc n) (suc (length rows)) then some (drop n rows) else none)
    same = ground arith

-- The destructor of a map that the constructor made releases as many rows as the map has columns:
-- it goes outside the array where there are more columns than lines, and leaves the last lines
-- where there are fewer.
pub destroy-make_map :
    (lines columns : ℤ) (m : Hexmap)
    → make_map lines columns ≡ some m
    → destroy m ≡ (
        if leb (pos_part columns) (pos_part lines)
        then some (drop (pos_part columns) m.hex)
        else none)
unfolding destroy
destroy-make_map lines columns m made =
    let (grid, p, q) = make_map-parts lines columns m made in
    let rows : length m.hex ≡ pos_part lines =
      ap length grid ∙ length-make_lines (pos_part columns) 0 (pos_part lines) in
    ap (λ z. free_rows (pos_part z) m.hex) q
    ∙ free_rows_lem (pos_part columns) m.hex
    ∙ ap (λ k. if leb (pos_part columns) k then some (drop (pos_part columns) m.hex) else none) rows
