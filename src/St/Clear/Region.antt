-- ===== src/St/Clear/Region.antt =====
-- tclearregion blanks exactly the cells of the rectangle that lie on the screen.
use suckless.Prelude.{
  ℕ, zero, suc, ◌+◌, ◌-◌, ◌≤◌, ◌<◌, min, max, ◌≡◌, ◌⊎◌, true, ◌&&◌, arith, ltb, leb, between,
  if◌then◌else◌, put_at, put_at₂, ◌==◌,
}
use suckless.Prelude.Int.{ℤ, pos, min_ℤ, max_ℤ, min_ℤ-le-max_ℤ, limit_mono, limit, limit_bounds}
use suckless.St.Term.{Term, Marks, Line}
use suckless.St.Cursor.Bounds.{InScreen}
use suckless.St.Clear.{blank, unselect, clear_cells, clear_rows, tclearregion}

clear_cells_line :
    (n : ℕ) (t : Term) (y x : ℕ) (m : Marks) (l : ℕ → Line) (j i : ℕ)
    → (clear_cells n t y x (m, l)).1 j i
      ≡ (if y == j && (leb x i && ltb i (x + n)) then blank t else l j i)
unfolding clear_cells
clear_cells_line zero t y x m l j i = ground arith
clear_cells_line (suc n) t y x m l j i =
    ground (arith, clear_cells_line n t y (x + 1) (unselect t x y m) (put_at₂ l y x (blank t)) j i)

clear_rows_line :
    (n : ℕ) (t : Term) (y x w : ℕ) (m : Marks) (l : ℕ → Line) (j i : ℕ)
    → (clear_rows n t y x w (m, l)).1 j i
      ≡ (if leb y j && ltb j (y + n) && (leb x i && ltb i (x + w)) then blank t else l j i)
unfolding clear_rows
clear_rows_line zero t y x w m l j i = ground arith
clear_rows_line (suc n) t y x w m l j i =
    let m' = record m { dirty = put_at m.dirty y true } in
    let s = clear_cells w t y x (m', l) in
    ground (arith, clear_rows_line n t (y + 1) x w s.0 s.1 j i, clear_cells_line w t y x m' l j i)

-- The loops over a rectangle given by its corners.
rectangle_line :
    (t : Term) (x1 y1 x2 y2 : ℕ) (m : Marks) (l : ℕ → Line) (j i : ℕ)
    → x1 ≤ x2
    → y1 ≤ y2
    → (clear_rows (suc y2 - y1) t y1 x1 (suc x2 - x1) (m, l)).1 j i
      ≡ (if between j y1 y2 && between i x1 x2 then blank t else l j i)
rectangle_line t x1 y1 x2 y2 m l j i hx hy =
    ground (arith, clear_rows_line (suc y2 - y1) t y1 x1 (suc x2 - x1) m l j i)

-- A cell is blank after tclearregion exactly when it lies between the corners, taken in either
-- order and moved onto the screen; every other cell, also one outside the allocated rows and
-- columns, is as it was.
pub line-tclearregion :
    (x1 y1 x2 y2 : ℤ) (t : Term) (j i : ℕ)
    → (tclearregion x1 y1 x2 y2 t).line j i ≡ (
        if between j (limit (min_ℤ y1 y2) 0 (t.row - 1)) (limit (max_ℤ y1 y2) 0 (t.row - 1))
          && between i (limit (min_ℤ x1 x2) 0 (t.col - 1)) (limit (max_ℤ x1 x2) 0 (t.col - 1))
        then blank t
        else t.line j i)
unfolding tclearregion
line-tclearregion x1 y1 x2 y2 t j i =
    rectangle_line t _ _ _ _ t.marks t.line j i
      (limit_mono (min_ℤ x1 x2) (max_ℤ x1 x2) 0 (t.col - 1) (min_ℤ-le-max_ℤ x1 x2) (omega arith))
      (limit_mono (min_ℤ y1 y2) (max_ℤ y1 y2) 0 (t.row - 1) (min_ℤ-le-max_ℤ y1 y2) (omega arith))

-- Nothing is written outside the screen.
pub tclearregion_outside :
    (x1 y1 x2 y2 : ℤ) (t : Term) (j i : ℕ)
    → InScreen t
    → (t.row ≤ j) ⊎ (t.col ≤ i)
    → (tclearregion x1 y1 x2 y2 t).line j i ≡ t.line j i
tclearregion_outside x1 y1 x2 y2 t j i v out = ground (
  arith,
  line-tclearregion x1 y1 x2 y2 t j i,
  limit_bounds (max_ℤ y1 y2) 0 (t.row - 1),
  limit_bounds (max_ℤ x1 x2) 0 (t.col - 1),
)

limit_corner :
    (a b h : ℕ)
    → (limit (min_ℤ (pos a) (pos b)) 0 h ≡ min (min a b) h)
      × (limit (max_ℤ (pos a) (pos b)) 0 h ≡ min (max a b) h)
unfolding limit
limit_corner a b h = ground arith

-- A call whose corners are not negative.
pub line-tclearregion_nat :
    (x1 y1 x2 y2 : ℕ) (t : Term) (j i : ℕ)
    → (tclearregion (pos x1) (pos y1) (pos x2) (pos y2) t).line j i ≡ (
        if between j (min (min y1 y2) (t.row - 1)) (min (max y1 y2) (t.row - 1))
          && between i (min (min x1 x2) (t.col - 1)) (min (max x1 x2) (t.col - 1))
        then blank t
        else t.line j i)
line-tclearregion_nat x1 y1 x2 y2 t j i =
    let (xl, xh) = limit_corner x1 x2 (t.col - 1) in
    let (yl, yh) = limit_corner y1 y2 (t.row - 1) in
    rw (← xl, ← xh, ← yl, ← yh) (line-tclearregion (pos x1) (pos y1) (pos x2) (pos y2) t j i)

-- The part of a call whose corners are on the screen and in order.
pub line-tclearregion_inside :
    (x1 y1 x2 y2 : ℕ) (t : Term) (j i : ℕ)
    → x1 ≤ x2
    → x2 < t.col
    → y1 ≤ y2
    → y2 < t.row
    → (tclearregion (pos x1) (pos y1) (pos x2) (pos y2) t).line j i
      ≡ (if between j y1 y2 && between i x1 x2 then blank t else t.line j i)
line-tclearregion_inside x1 y1 x2 y2 t j i hx hx' hy hy' =
    ground (arith, line-tclearregion_nat x1 y1 x2 y2 t j i)
