-- ===== src/St/Scroll.antt =====
-- st/st.c, scrolling: tscrollup, tscrolldown, tnewline, tinsertblankline, tdeleteline, kscrollup,
-- kscrolldown. The lines that the code exchanges are pointers with one owner each, so a line is
-- the value of its row.
pub mod Frame
pub mod Rows
use suckless.Prelude.{
  ℕ, zero, suc, ◌+◌, ◌-◌, ◌%◌, min, Bool, true, false, ◌&&◌, ltb, ◌==◌, between, if◌then◌else◌,
  put_at,
}
use suckless.Prelude.Int.{ℤ, pos, pos_part, ◌+ℤ◌, ◌-ℤ◌, sub_ℕ, ltb_ℤ, leb_ℤ, limit}
use suckless.St.Term.{Term, Line, histsize}
use suckless.St.Cursor.{tsetdirt, tfulldirt, tmoveto}
use suckless.St.Select.{selscroll, selscroll_marks}
use suckless.St.Clear.{tclearregion}

-- temp = line[i]; line[i] = line[j]; line[j] = temp;
abbrev pub exchange : (ℕ → Line) → ℕ → ℕ → ℕ → Line
exchange l i j = put_at (put_at l i (l j)) j (l i)

-- The loop of tscrollup, k rounds from row i upwards, and that of tscrolldown, k rounds from row i
-- downwards.
unfoldable pub rotate_up : ℕ → ℕ → ℕ → (ℕ → Line) → ℕ → Line
rotate_up zero i n l = l
rotate_up (suc k) i n l = rotate_up k (i + 1) n (exchange l i (i + n))

unfoldable pub rotate_down : ℕ → ℕ → ℕ → (ℕ → Line) → ℕ → Line
rotate_down zero i n l = l
rotate_down (suc k) i n l = rotate_down k (i - 1) n (exchange l i (i - n))

-- The block under `if (copyhist)`, which exchanges a screen line for a line of the history.
pub copy_history : Bool → ℕ → ℕ → Term → Term
copy_history copyhist h y t = record t {
  histi = if copyhist then h else t.histi;
  hist = if copyhist then put_at t.hist h (t.line y) else t.hist;
  line = if copyhist then put_at t.line y (t.hist h) else t.line;
}

-- `if (term.scr == 0) selscroll(orig, n);`
pub scroll_selection : ℤ → ℤ → Term → Term
scroll_selection orig n t = record t {
  marks = if t.scr == 0 then selscroll_marks orig n t else t.marks;
}

unfoldable pub tscrollup : ℕ → ℤ → Bool → Term → Term
unfolding copy_history scroll_selection tsetdirt
tscrollup orig n copyhist t =
    let n' = limit n 0 (t.bot + 1 - orig) in
    let t1 = copy_history copyhist ((t.histi + 1) % histsize) orig t in
    let t2 = record t1 {
      scr =
          if ltb 0 t1.scr && ltb t1.scr histsize then min (t1.scr + n') (histsize - 1) else t1.scr;
    } in
    let t3 = tclearregion (pos 0) (pos orig) (pos (t2.col - 1)) (sub_ℕ (orig + n') 1) t2 in
    let t4 = tsetdirt (pos (orig + n')) (pos t3.bot) t3 in
    let t5 = record t4 { line = rotate_up (t4.bot + 1 - n' - orig) orig n' t4.line } in
    scroll_selection (pos orig) (pos 0 -ℤ pos n') t5

unfoldable pub tscrolldown : ℕ → ℤ → Bool → Term → Term
unfolding copy_history scroll_selection tsetdirt
tscrolldown orig n copyhist t =
    let n' = limit n 0 (t.bot + 1 - orig) in
    let t1 = copy_history copyhist ((t.histi + histsize - 1) % histsize) t.bot t in
    let t2 = tsetdirt (pos orig) (sub_ℕ t1.bot n') t1 in
    let t3 = tclearregion (pos 0) (sub_ℕ (t2.bot + 1) n') (pos (t2.col - 1)) (pos t2.bot) t2 in
    let t4 = record t3 { line = rotate_down (t3.bot + 1 - n' - orig) t3.bot n' t3.line } in
    scroll_selection (pos orig) (pos n') t4

unfoldable pub tnewline : Bool → Term → Term
unfolding tmoveto
tnewline first_col t =
    let y = t.c.y in
    let scrolls = y == t.bot in
    let t1 = if scrolls then tscrollup t.top (pos 1) true t else t in
    tmoveto (if first_col then pos 0 else pos t1.c.x) (pos (if scrolls then y else y + 1)) t1

unfoldable pub tinsertblankline : ℤ → Term → Term
tinsertblankline n t = if between t.c.y t.top t.bot then tscrolldown t.c.y n false t else t

unfoldable pub tdeleteline : ℤ → Term → Term
tdeleteline n t = if between t.c.y t.top t.bot then tscrollup t.c.y n false t else t

-- kscrolldown and kscrollup, at the int that their Arg holds.
unfoldable pub kscrolldown : ℤ → Term → Term
unfolding selscroll tfulldirt
kscrolldown i t =
    let n = if ltb_ℤ i (pos 0) then pos t.row +ℤ i else i in
    let n' = if ltb_ℤ (pos t.scr) n then pos t.scr else n in
    let t1 = record t { scr = pos_part (pos t.scr -ℤ n') } in
    let t2 = tfulldirt (selscroll (pos 0) (pos 0 -ℤ n') t1) in if ltb 0 t.scr then t2 else t

unfoldable pub kscrollup : ℤ → Term → Term
unfolding selscroll tfulldirt
kscrollup i t =
    let n = if ltb_ℤ i (pos 0) then pos t.row +ℤ i else i in
    let t1 = record t { scr = pos_part (pos t.scr +ℤ n) } in
    let t2 = tfulldirt (selscroll (pos 0) n t1) in
    if leb_ℤ (pos t.scr) (pos histsize -ℤ n) then t2 else t
