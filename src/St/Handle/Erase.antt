-- ===== src/St/Handle/Erase.antt =====
-- st/st.c, csihandle: the cells that ED and EL erase.
use suckless.Prelude.{
  ℕ, ◌+◌, ◌-◌, ◌<◌, ◌≡◌, refl, Bool, true, false, ◌&&◌, ◌||◌, arith, ltb, leb, ◌==◌, if◌then◌else◌,
}
use suckless.Prelude.Int.{ℤ, pos}
use suckless.St.Term.{Term}
use suckless.St.Cursor.Bounds.{InScreen}
use suckless.St.Clear.{blank, tclearregion}
use suckless.St.Clear.Region.{line-tclearregion_inside}
use suckless.St.Handle.{erase_display, erase_line}

clearing_keeps :
    (a b c d : ℤ) (t : Term)
    → ((tclearregion a b c d t).row ≡ t.row)
      × ((tclearregion a b c d t).col ≡ t.col)
      × ((tclearregion a b c d t).c ≡ t.c)
      × (blank (tclearregion a b c d t) ≡ blank t)
unfolding tclearregion
clearing_keeps a b c d t = (refl, refl, refl, refl)

-- ED 0 and ED 2 on the screen: ED 0 erases the cells from the cursor to the margin and every row
-- below, ED 2 every cell; all else stays.
pub erase_display-below :
    (t : Term) (j i : ℕ)
    → InScreen t
    → j < t.row
    → i < t.col
    → ((erase_display (pos 0) t).line j i
        ≡ (if (j == t.c.y && leb t.c.x i) || ltb t.c.y j then blank t else t.line j i))
      × ((erase_display (pos 2) t).line j i ≡ blank t)
unfolding erase_display
erase_display-below t j i v hj hi =
    let right = pos (t.col - 1) in
    let below = tclearregion (pos t.c.x) (pos t.c.y) right (pos t.c.y) t in
    ground (
      arith,
      line-tclearregion_inside t.c.x t.c.y (t.col - 1) t.c.y t j i,
      line-tclearregion_inside 0 (t.c.y + 1) (t.col - 1) (t.row - 1) below j i,
      clearing_keeps (pos t.c.x) (pos t.c.y) right (pos t.c.y) t,
      line-tclearregion_inside 0 0 (t.col - 1) (t.row - 1) t j i,
    )

-- ED 1 where b says whether the rows above are erased.
erased_above :
    (b : Bool) (t : Term) (j i : ℕ)
    → InScreen t
    → (b ≡ true → 0 < t.c.y)
    → j < t.row
    → i < t.col
    → let u = if b then tclearregion (pos 0) (pos 0) (pos (t.col - 1)) (pos (t.c.y - 1)) t else t in
      (tclearregion (pos 0) (pos u.c.y) (pos t.c.x) (pos u.c.y) u).line j i
      ≡ (if (j == t.c.y && leb i t.c.x) || (ltb j t.c.y && b) then blank t else t.line j i)
erased_above true t j i v hb hj hi = ground (
  arith,
  line-tclearregion_inside 0 0 (t.col - 1) (t.c.y - 1) t j i,
  line-tclearregion_inside 0 t.c.y t.c.x t.c.y
      (tclearregion (pos 0) (pos 0) (pos (t.col - 1)) (pos (t.c.y - 1)) t) j i,
  clearing_keeps (pos 0) (pos 0) (pos (t.col - 1)) (pos (t.c.y - 1)) t,
)
erased_above false t j i v hb hj hi =
    ground (arith, line-tclearregion_inside 0 t.c.y t.c.x t.c.y t j i)

-- ED 1: the cells up to and with the cursor are erased and, where the cursor is on row 2 or lower,
-- every row above. With the cursor on row 1, row 0 stays as it was.
pub erase_display-above :
    (t : Term) (j i : ℕ)
    → InScreen t
    → j < t.row
    → i < t.col
    → (erase_display (pos 1) t).line j i ≡ (
        if (j == t.c.y && leb i t.c.x) || (ltb j t.c.y && ltb 1 t.c.y) then blank t else t.line j i)
unfolding erase_display
erase_display-above t j i v hj hi = erased_above (ltb 1 t.c.y) t j i v (λ h. ground arith) hj hi

-- EL 0, 1 and 2: only the cursor's row is written, and in it the cells from the cursor on, the cells
-- up to and with the cursor, or all.
pub line-erase_line :
    (t : Term) (j i : ℕ)
    → InScreen t
    → j < t.row
    → i < t.col
    → ((erase_line (pos 0) t).line j i
        ≡ (if j == t.c.y && leb t.c.x i then blank t else t.line j i))
      × ((erase_line (pos 1) t).line j i
          ≡ (if j == t.c.y && leb i t.c.x then blank t else t.line j i))
      × ((erase_line (pos 2) t).line j i ≡ (if j == t.c.y then blank t else t.line j i))
unfolding erase_line
line-erase_line t j i v hj hi = ground (
  arith,
  line-tclearregion_inside t.c.x t.c.y (t.col - 1) t.c.y t j i,
  line-tclearregion_inside 0 t.c.y t.c.x t.c.y t j i,
  line-tclearregion_inside 0 t.c.y (t.col - 1) t.c.y t j i,
)
