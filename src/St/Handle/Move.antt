-- ===== src/St/Handle/Move.antt =====
-- st/st.c, csihandle: where CUU, CUD, CUF and CUB move the cursor.
use suckless.Prelude.{ℕ, ◌+◌, ◌-◌, ◌^◌, ◌≤◌, ◌<◌, min, ◌≡◌, false, arith}
use suckless.Prelude.Int.{
  ℤ, pos, ◌+ℤ◌, ◌-ℤ◌, wrap_int, wrap_int-pos, wrap_int-negsuc, wrap_int_overflow, limit,
  limit_inside,
}
use suckless.St.Term.{Term, cursor_origin}
use suckless.St.Cursor.{tmoveto}
use suckless.St.Cursor.Bounds.{InScreen}
use suckless.St.Handle.{csi_move}

add_fits : (a n h : ℕ) → a + n < 2 ^ 31 → limit (wrap_int (pos a +ℤ pos n)) 0 h ≡ min (a + n) h
unfolding limit
add_fits a n h k = ground (arith, wrap_int-pos (a + n) k)

sub_fits :
    (a n h : ℕ) → a ≤ h → a < 2 ^ 31 → n < 2 ^ 31 → limit (wrap_int (pos a -ℤ pos n)) 0 h ≡ a - n
unfolding limit
sub_fits a n h i j k =
    ground (arith, wrap_int-pos (a - n) (omega arith), wrap_int-negsuc (n - a - 1) (omega arith))

-- CUU, CUD, CUF and CUB by n, without origin mode and with a sum that an int holds: the cursor moves
-- by n in its own direction, and stops at the edge of the screen.
pub csi_move-lands :
    (n : ℕ) (col : ℤ) (t : Term)
    → InScreen t
    → t.c.state cursor_origin ≡ false
    → t.c.x + n < 2 ^ 31
    → t.c.y + n < 2 ^ 31
    → let up = csi_move b'A' (pos n) col t in
      let down = csi_move b'B' (pos n) col t in
      let right = csi_move b'C' (pos n) col t in
      let left = csi_move b'D' (pos n) col t in
      ((up.c.x ≡ t.c.x) × (up.c.y ≡ t.c.y - n))
      × ((down.c.x ≡ t.c.x) × (down.c.y ≡ min (t.c.y + n) (t.row - 1)))
      × ((right.c.x ≡ min (t.c.x + n) (t.col - 1)) × (right.c.y ≡ t.c.y))
      × ((left.c.x ≡ t.c.x - n) × (left.c.y ≡ t.c.y))
unfolding csi_move tmoveto
csi_move-lands n col t v ho hx hy = ground (
  arith,
  sub_fits t.c.y n (t.row - 1),
  add_fits t.c.y n (t.row - 1),
  add_fits t.c.x n (t.col - 1),
  sub_fits t.c.x n (t.col - 1),
  limit_inside t.c.x 0 (t.col - 1),
  limit_inside t.c.y 0 (t.row - 1),
)

-- The sum is not checked: CUF by the greatest int from a column past 0 goes to column 0.
pub csi_move-overflow :
    (col : ℤ) (t : Term)
    → InScreen t
    → 0 < t.c.x
    → t.c.x < 2 ^ 31
    → (csi_move b'C' (pos (2 ^ 31 - 1)) col t).c.x ≡ 0
unfolding csi_move tmoveto limit
csi_move-overflow col t v h k = ground (arith, wrap_int_overflow (t.c.x - 1))
