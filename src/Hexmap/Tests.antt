-- ===== src/Hexmap/Tests.antt =====
-- The theorems on the map of the module test, and distances that its table gives.
use hex.Base.{◌≤◌, ◌≡◌, refl, true, false, some, none, arith, pos, if◌then◌else◌}
use hex.Hexmap.{destroy}
use hex.Hexmap.Destroy.{destroy-make_map}
use hex.Base.{leb, drop}
use hex.Hexmap.{
  coord, Hexmap, n_east, s_east, in_range, make_map, get_hex, get_neighbour, hex_dist, make_lines,
  translate, dir_to_vect,
}
use hex.Hexmap.Range.{WellFormed}
use hex.Hexmap.Construct.{fresh, get_hex-make_map}
use hex.Hexmap.Walks.{Walk, stay, go, Walk-of_hex_dist, hex_dist-le-Walk}
use hex.Hexmap.Neighbour.{get_neighbour_inverted}

-- test1_Hexmap_hexDist's map of 8 lines and 8 columns
abbrev the_map : Hexmap
unfolding make_lines
the_map = record { hex = make_lines 8 0 8; nb_lines = pos 8; nb_columns = pos 8 }

the_map_made : make_map (pos 8) (pos 8) ≡ some the_map
unfolding make_map
the_map_made = refl

the_map-WellFormed : WellFormed the_map
unfolding make_lines
the_map-WellFormed = record { lines = omega arith; columns = omega arith }

dist_7_6_to_1_3 : hex_dist (coord (pos 7) (pos 6)) (coord (pos 1) (pos 3)) ≡ 6
unfolding hex_dist
dist_7_6_to_1_3 = refl

dist_3_0_to_7_5 : hex_dist (coord (pos 3) (pos 0)) (coord (pos 7) (pos 5)) ≡ 7
unfolding hex_dist
dist_3_0_to_7_5 = refl

Walk-of_hex_dist_example :
    Walk the_map
      (hex_dist (coord (pos 3) (pos 0)) (coord (pos 7) (pos 5)))
      (coord (pos 3) (pos 0))
      (coord (pos 7) (pos 5))
unfolding make_lines in_range
Walk-of_hex_dist_example =
    Walk-of_hex_dist the_map the_map-WellFormed (coord (pos 3) (pos 0)) (coord (pos 7) (pos 5)) refl
      refl

one_step : Walk the_map 1 (coord (pos 3) (pos 0)) (coord (pos 4) (pos 1))
unfolding make_lines in_range translate dir_to_vect
one_step = go s_east refl refl stay

hex_dist-le-Walk_example : hex_dist (coord (pos 3) (pos 0)) (coord (pos 4) (pos 1)) ≤ 1
unfolding make_lines in_range
hex_dist-le-Walk_example = hex_dist-le-Walk the_map the_map-WellFormed one_step refl refl

get_hex-make_map_example : get_hex the_map (coord (pos 2) (pos 5)) ≡ (
    if in_range the_map (coord (pos 2) (pos 5)) then some (fresh (coord (pos 2) (pos 5))) else none)
get_hex-make_map_example =
    get_hex-make_map (pos 8) (pos 8) the_map the_map_made (omega arith) (omega arith)
      (coord (pos 2) (pos 5))

-- hexagon (2, 5) has a neighbour at (1, 5), and getHex says NULL
get_neighbour_inverted_example :
    let h = fresh (coord (pos 2) (pos 5)) in
    let n = translate h.coord (dir_to_vect h.coord.line n_east) in
    (in_range the_map n ≡ true → get_neighbour the_map h n_east ≡ none)
    × (in_range the_map n ≡ false → get_neighbour the_map h n_east ≡ some n)
unfolding make_lines in_range
get_neighbour_inverted_example =
    get_neighbour_inverted the_map (fresh (coord (pos 2) (pos 5))) n_east refl

destroy-make_map_example : destroy the_map ≡ (if leb 8 8 then some (drop 8 the_map.hex) else none)
destroy-make_map_example = destroy-make_map (pos 8) (pos 8) the_map the_map_made
