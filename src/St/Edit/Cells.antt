-- ===== src/St/Edit/Cells.antt =====
-- What the cells of the cursor's line hold after an insertion, a deletion or a character.
use suckless.Prelude.{
  ℕ, suc, ◌+◌, ◌-◌, ◌≤◌, ◌<◌, ◌≡◌, ◌∙◌, not, ◌&&◌, arith, min, ltb, leb, ◌==◌, if◌then◌else◌,
}
use suckless.Prelude.Int.{ℤ, pos, negsuc, sub_ℕ, limit}
use suckless.St.Term.{Term, Line, Glyph, attr_wide, attr_wdummy}
use suckless.St.Cursor.Bounds.{InScreen}
use suckless.St.Clear.{blank, tclearregion}
use suckless.St.Clear.Region.{line-tclearregion_inside, line-tclearregion_nat}
use suckless.St.Edit.{tdeletechar, tinsertblank, tsetchar, stored, translated, split_wide, orphaned}

pub tsetchar-InScreen :
    (u : ℕ) (g : Glyph) (x y : ℕ) (t : Term) → InScreen t → InScreen (tsetchar u g x y t)
unfolding tsetchar
tsetchar-InScreen u g x y t v = ground arith

pub tdeletechar-InScreen : (n : ℤ) (t : Term) → InScreen t → InScreen (tdeletechar n t)
unfolding tdeletechar tclearregion
tdeletechar-InScreen n t v = ground arith

pub tinsertblank-InScreen : (n : ℤ) (t : Term) → InScreen t → InScreen (tinsertblank n t)
unfolding tinsertblank tclearregion
tinsertblank-InScreen n t v = ground arith

limit-min : (n hi : ℕ) → limit (pos n) 0 hi ≡ min n hi
unfolding limit
limit-min n hi = ground arith

sub_le : (a b : ℕ) → b ≤ a → sub_ℕ a b ≡ pos (a - b)
sub_le a b h = ground arith

-- DCH by n >= 1: in the cursor's line the cells right of the cursor move n to the left and blank
-- cells come in at the margin; the cells left of the cursor and the other lines stay. (m is n, at most
-- the number of cells from the cursor on.)
pub line-tdeletechar :
    (n : ℕ) (t : Term) (j i : ℕ)
    → InScreen t
    → 0 < n
    → i < t.col
    → let m = min n (t.col - t.c.x) in
      (tdeletechar (pos n) t).line j i ≡ (
        if j == t.c.y && leb t.c.x i
        then (if ltb (i + m) t.col then t.line j (i + m) else blank t)
        else t.line j i)
unfolding tdeletechar
line-tdeletechar n t j i v hn hi =
    rw (limit-min, sub_le t.col m (omega arith))
      (line-tclearregion_inside (t.col - m) t.c.y (t.col - 1) t.c.y _ j i (omega arith)
          (omega arith) (omega arith) v.cursor_y
        ∙ ground arith)
  where
    m : ℕ
    m = min n (t.col - t.c.x)

-- ICH by n >= 1: in the cursor's line the cells from the cursor on move n to the right, those pushed
-- over the margin are lost, and the gap is blank.
pub line-tinsertblank :
    (n : ℕ) (t : Term) (j i : ℕ)
    → InScreen t
    → 0 < n
    → i < t.col
    → let m = min n (t.col - t.c.x) in
      (tinsertblank (pos n) t).line j i ≡ (
        if j == t.c.y && leb t.c.x i
        then (if ltb i (t.c.x + m) then blank t else t.line j (i - m))
        else t.line j i)
unfolding tinsertblank
line-tinsertblank n t j i v hn hi =
    rw (limit-min, sub_le (t.c.x + m) 1 (omega arith))
      (line-tclearregion_inside t.c.x t.c.y (t.c.x + m - 1) t.c.y _ j i (omega arith) (omega arith)
          (omega arith) v.cursor_y
        ∙ ground arith)
  where
    m : ℕ
    m = min n (t.col - t.c.x)

-- A count that is negative (the parser takes a sign) deletes nothing, and still blanks the last
-- column of the line.
pub tdeletechar_no_count :
    (n : ℕ) (t : Term) (i : ℕ)
    → InScreen t
    → i < t.col
    → (tdeletechar (negsuc n) t).line t.c.y i ≡ (if suc i == t.col then blank t else t.line t.c.y i)
unfolding tdeletechar limit
tdeletechar_no_count n t i v hi =
    rw (sub_le t.col 0 (omega arith))
      (line-tclearregion_nat (t.col - 0) t.c.y (t.col - 1) t.c.y _ t.c.y i ∙ ground arith)

pub split_wide_at :
    (col x : ℕ) (l : Line) (i : ℕ)
    → split_wide col x l i ≡ (
        if i == x + 1 && ltb i col && (l x).mode attr_wide
        then orphaned attr_wdummy (l i)
        else if suc i == x && not ((l x).mode attr_wide) && (l x).mode attr_wdummy
        then orphaned attr_wide (l i)
        else l i)
unfolding split_wide
split_wide_at col x l i = ground arith

-- The glyphs that tsetchar leaves: the character at x, and beside it what is left of a wide
-- character of which it covers one half; every other cell of the screen is as it was.
pub line-tsetchar :
    (u : ℕ) (g : Glyph) (x y : ℕ) (t : Term) (j i : ℕ)
    → (tsetchar u g x y t).line j i ≡ (
        if j == y
        then (if i == x
            then stored t (translated t u) g
            else if i == x + 1 && ltb i t.col && (t.line y x).mode attr_wide
            then orphaned attr_wdummy (t.line y i)
            else if suc i == x && not ((t.line y x).mode attr_wide) && (t.line y x).mode attr_wdummy
            then orphaned attr_wide (t.line y i)
            else t.line y i)
        else t.line j i)
unfolding tsetchar
line-tsetchar u g x y t j i = ground (arith, split_wide_at t.col x (t.line y) i)
