-- ===== src/Hexmap/Walks.antt =====
-- core/hexmap.cpp: the hexagons of a map as a graph, walks along neighbours, and hexDist.
use hex.Base.{ℕ, zero, suc, ◌≤◌, ◌<◌, ◌≡◌, sym, true, arith, pos, pos_part}
use hex.Hexmap.{HexCoord, coord, Direction, dir_to_vect, Hexmap, in_range, translate, hex_dist}
use hex.Hexmap.Distance.{
  dist, hex_dist-dist, dist-Moves, Nearer-of_ne, dist-zero, dist_self, dist_comm,
}
use hex.Hexmap.Range.{
  WellFormed, Inside, in_range-Inside, Inside-in_range, translate-Moves, Moves-translate,
}

-- `n` steps, each to a hexagon of the map in one of the six directions
pub data Walk (m : Hexmap) : ℕ → HexCoord → HexCoord → Type 0 where
  stay : {a : HexCoord} → Walk m zero a a
  go :
      {n : ℕ} {a b c : HexCoord} (d : Direction)
      → translate a (dir_to_vect a.line d) ≡ b
      → in_range m b ≡ true
      → Walk m n b c
      → Walk m (suc n) a c

module _ (m : Hexmap) (ok : WellFormed m) where
  step_bound :
      (d : Direction) (a b t : HexCoord)
      → Inside m a
      → Inside m b
      → Inside m t
      → translate a (dir_to_vect a.line d) ≡ b
      → hex_dist a t ≤ suc (hex_dist b t)
  step_bound d a b t p q r e =
      rw (p.here, q.here, r.here, hex_dist-dist p.line p.column r.line r.column, hex_dist-dist)
        (dist-Moves d p.line p.column q.line q.column r.line r.column (
          Moves-translate d p.line p.column q.line q.column (omega (arith, ok.lines, p.line_lt))
            (omega (arith, ok.columns, p.column_lt)) (omega (arith, ok.lines, q.line_lt))
            (omega (arith, ok.columns, q.column_lt)) (rw (p.here, q.here) at e)))

  -- No walk between two hexagons of a map has fewer steps than hexDist.
  pub hex_dist-le-Walk :
      {n : ℕ} {a t : HexCoord}
      → Walk m n a t
      → in_range m a ≡ true
      → in_range m t ≡ true
      → hex_dist a t ≤ n
  hex_dist-le-Walk {a} stay p r =
      let x = in_range-Inside m a p in rw (x.here, hex_dist-dist, dist_self) (omega arith)
  hex_dist-le-Walk {a} {t} (go {n} {b} d e q w) p r = omega (
    arith,
    hex_dist-le-Walk w q r,
    step_bound d a b t (in_range-Inside m a p) (in_range-Inside m b q) (in_range-Inside m t r) e,
  )

  Walk-dist :
      (n l c t u : ℕ)
      → l < pos_part m.nb_lines
      → c < pos_part m.nb_columns
      → t < pos_part m.nb_lines
      → u < pos_part m.nb_columns
      → dist l c t u ≡ n
      → Walk m n (coord (pos l) (pos c)) (coord (pos t) (pos u))
  Walk-dist zero l c t u p q r s e = rw ((dist-zero l c t u e).0, (dist-zero l c t u e).1) stay
  Walk-dist (suc n) l c t u p q r s e =
      let x = Nearer-of_ne l c t u n e in
      let x_line : x.line < pos_part m.nb_lines = omega (arith, x.line_between) in
      let x_column : x.column < pos_part m.nb_columns = omega (arith, x.column_between) in
      go x.dir
        (translate-Moves x.dir l c x.line x.column (omega (arith, ok.lines))
          (omega (arith, ok.lines)) (omega (arith, ok.columns)) x.moves)
        (Inside-in_range m x.line x.column x_line x_column)
        (Walk-dist n x.line x.column t u x_line x_column r s (omega (arith, x.nearer)))

  -- Between any two hexagons of a map there is a walk along neighbours, all on the map, of exactly
  -- hexDist steps.
  pub Walk-of_hex_dist :
      (a t : HexCoord) → in_range m a ≡ true → in_range m t ≡ true → Walk m (hex_dist a t) a t
  Walk-of_hex_dist a t p r =
      let x = in_range-Inside m a p in
      let y = in_range-Inside m t r in
      rw (x.here, y.here)
        (Walk-dist _ x.line x.column y.line y.column x.line_lt x.column_lt y.line_lt y.column_lt
          (sym (hex_dist-dist x.line x.column y.line y.column)))

  -- hexDist is the same both ways between two hexagons of a map.
  pub hex_dist_comm :
      (a t : HexCoord) → in_range m a ≡ true → in_range m t ≡ true → hex_dist a t ≡ hex_dist t a
  hex_dist_comm a t p r =
      let x = in_range-Inside m a p in
      let y = in_range-Inside m t r in
      rw (x.here, y.here, hex_dist-dist x.line x.column y.line y.column, hex_dist-dist)
        (dist_comm x.line x.column y.line y.column)
