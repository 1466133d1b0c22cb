-- ===== src/St/Put/Wrap.antt =====
-- st/st.c, tputc: where a printed character goes, and where the cursor goes.
use suckless.Prelude.{
  ℕ, ◌+◌, ◌-◌, ◌<◌, ◌≡◌, refl, ◌∙◌, true, false, not, arith, ltb, ◌==◌, if◌then◌else◌, if_keeps,
  put_at₂,
}
use suckless.Prelude.Int.{pos, limit_inside}
use suckless.St.Term.{
  Term, modbit, attr_wrap, mode_wrap, mode_insert, cursor_wrapnext, cursor_origin,
}
use suckless.St.Cursor.{tmoveto}
use suckless.St.Cursor.Bounds.{InScreen, InScreen-same, same_screen}
use suckless.St.Select.{selected, selclear}
use suckless.St.Scroll.{tnewline}
use suckless.St.Edit.{tsetchar, stored, translated}
use suckless.St.Edit.Cells.{line-tsetchar}
use suckless.St.Put.Keeps.{store_glyph-InScreen}
use suckless.St.Put.{
  deselect, wrap_pending, insert_room, break_line, store_glyph, advance, put_glyph, wrap_line,
}

-- The cursor after a character of one column: right of it or, at the margin, where it is and ready
-- to wrap.
abbrev pub Advanced : Term → Term → Type 0
Advanced t t' =
    (t'.c.x ≡ (if ltb (t.c.x + 1) t.col then t.c.x + 1 else t.c.x))
    × (t'.c.y ≡ t.c.y)
    × (t'.c.state cursor_wrapnext ≡ not (ltb (t.c.x + 1) t.col))

advance-line : (t : Term) (j i : ℕ) → (advance 1 t).line j i ≡ t.line j i
unfolding advance tmoveto
advance-line t j i = ground arith

advance-Advanced :
    (t : Term)
    → InScreen t
    → t.c.state cursor_origin ≡ false
    → t.c.state cursor_wrapnext ≡ false
    → Advanced t (advance 1 t)
unfolding advance tmoveto
advance-Advanced t v ho hw =
    ground (arith, limit_inside (t.c.x + 1) 0 (t.col - 1), limit_inside t.c.y 0 (t.row - 1))

tsetchar_frame :
    (u : ℕ) (t : Term)
    → let s = tsetchar u t.c.attr t.c.x t.c.y t in (s.c ≡ t.c) × (s.row ≡ t.row) × (s.col ≡ t.col)
unfolding tsetchar
tsetchar_frame u t = (refl, refl, refl)

store_glyph_cell :
    (u : ℕ) (t : Term)
    → ((store_glyph u 1 t).line t.c.y t.c.x ≡ stored t (translated t u) t.c.attr)
      × ((store_glyph u 1 t).c ≡ t.c)
      × ((store_glyph u 1 t).row ≡ t.row)
      × ((store_glyph u 1 t).col ≡ t.col)
unfolding store_glyph
store_glyph_cell u t =
    let (hc, hr, hk) = tsetchar_frame u t in
    (ground (arith, line-tsetchar u t.c.attr t.c.x t.c.y t t.c.y t.c.x), hc, hr, hk)

-- The states between break_line and the end: a character of one column is stored at the cursor.
printed :
    (u : ℕ) (t : Term)
    → InScreen t
    → t.c.state cursor_origin ≡ false
    → t.c.state cursor_wrapnext ≡ false
    → let t' = advance 1 (store_glyph u 1 t) in
      (t'.line t.c.y t.c.x ≡ stored t (translated t u) t.c.attr) × Advanced t t'
unfolding store_glyph tsetchar
printed u t v ho hw = (
  advance-line s t.c.y t.c.x ∙ (store_glyph_cell u t).0,
  advance-Advanced s (store_glyph-InScreen u 1 t v) ho hw,
)
  where
    s : Term
    s = store_glyph u 1 t

no_wrap : (t : Term) → t.c.state cursor_wrapnext ≡ false → wrap_pending t ≡ t
unfolding wrap_pending
no_wrap t h = ground (arith)

no_insert : (t : Term) → t.mode mode_insert ≡ false → insert_room 1 t ≡ t
unfolding insert_room
no_insert t h = ground (arith)

no_break : (t : Term) → t.c.x < t.col → break_line 1 t ≡ t
unfolding break_line
no_break t h = ground (arith)

abbrev settled : ℕ → Term → Term
settled u t = advance 1 (store_glyph u 1 (break_line 1 (insert_room 1 (wrap_pending t))))

-- The steps after deselect where nothing is to be made room for.
straight :
    (u : ℕ) (t : Term)
    → InScreen t
    → t.c.state cursor_origin ≡ false
    → t.c.state cursor_wrapnext ≡ false
    → t.mode mode_insert ≡ false
    → ((settled u t).line t.c.y t.c.x ≡ stored t (translated t u) t.c.attr)
      × Advanced t (settled u t)
straight u t v ho hw hi =
    rw (no_wrap t hw, no_insert t hi, no_break t v.cursor_x) (printed u t v ho hw)

selclear-InScreen : (t : Term) → InScreen t → InScreen (selclear t)
unfolding selclear
selclear-InScreen t v = InScreen-same t _ v (same_screen t)

-- A character of one column, where no wrap is pending and the insert mode is off: its glyph, translated and
-- with the cursor's attributes, is in the cursor's cell, and the cursor moves on by one column or, at
-- the margin, stays there with a wrap pending. The origin mode is off.
pub put_glyph-prints :
    (u : ℕ) (t : Term)
    → InScreen t
    → t.c.state cursor_origin ≡ false
    → t.c.state cursor_wrapnext ≡ false
    → t.mode mode_insert ≡ false
    → let t' = put_glyph u 1 t in
      (t'.line t.c.y t.c.x ≡ stored t (translated t u) t.c.attr) × Advanced t t'
unfolding put_glyph deselect selclear translated
put_glyph-prints u t v ho hw hi =
    if_keeps
      (λ s.
        ((settled u s).line t.c.y t.c.x ≡ stored t (translated t u) t.c.attr)
        × Advanced t (settled u s))
      (selected t (pos t.c.x) (pos t.c.y))
      (straight u (selclear t) (selclear-InScreen t v) ho hw hi) (straight u t v ho hw hi)

-- The line feed of a pending wrap, above the bottom of the scroll region.
abbrev fed : Term → Term
fed t =
    let g = t.line t.c.y t.c.x in
    record t {
      line = put_at₂ t.line t.c.y t.c.x (record g { mode = modbit g.mode true attr_wrap });
      c = record t.c { x = 0; y = t.c.y + 1; state = modbit t.c.state false cursor_wrapnext };
    }

wrap_line-fed :
    (t : Term) → InScreen t → t.c.state cursor_origin ≡ false → t.c.y < t.bot → wrap_line t ≡ fed t
unfolding tnewline tmoveto
wrap_line-fed t v ho hy =
    simp
      (
        not_last,
        ho,
        limit_inside (t.c.y + 1) 0 (t.row - 1) (omega arith) (omega arith),
        limit_inside 0 0 (t.col - 1) (omega arith) (omega arith),
      )
      refl
  where
    not_last : (t.c.y == t.bot) ≡ false
    not_last = ground arith

fed-InScreen : (t : Term) → InScreen t → t.c.y < t.bot → InScreen (fed t)
fed-InScreen t v hy = ground arith

pending :
    (t : Term)
    → t.c.state cursor_wrapnext ≡ true
    → t.mode mode_wrap ≡ true
    → wrap_pending t ≡ wrap_line t
unfolding wrap_pending
pending t hw hm = ground arith

wrapped :
    (u : ℕ) (t : Term)
    → InScreen t
    → t.c.state cursor_origin ≡ false
    → t.c.state cursor_wrapnext ≡ true
    → t.mode mode_wrap ≡ true
    → t.mode mode_insert ≡ false
    → t.c.y < t.bot
    → let t' = settled u t in
      (t'.line (t.c.y + 1) 0 ≡ stored t (translated t u) t.c.attr)
      × (t'.c.x ≡ (if ltb 1 t.col then 1 else 0))
      × (t'.c.y ≡ t.c.y + 1)
unfolding translated
wrapped u t v ho hw hm hi hy =
    rw (pending t hw hm, wrap_line-fed t v ho hy, no_insert (fed t) hi, no_break (fed t) v.cols)
      (let (cell, (x, y, state)) = printed u (fed t) (fed-InScreen t v hy) ho refl in (cell, x, y))

-- A character of one column, where a wrap is pending in wrap mode above the bottom of the scroll region: the
-- glyph goes to the start of the next row, and the cursor
-- moves on from the start of the next row. The insert and origin modes are off.
pub put_glyph-wraps :
    (u : ℕ) (t : Term)
    → InScreen t
    → t.c.state cursor_origin ≡ false
    → t.c.state cursor_wrapnext ≡ true
    → t.mode mode_wrap ≡ true
    → t.mode mode_insert ≡ false
    → t.c.y < t.bot
    → let t' = put_glyph u 1 t in
      (t'.line (t.c.y + 1) 0 ≡ stored t (translated t u) t.c.attr)
      × (t'.c.x ≡ (if ltb 1 t.col then 1 else 0))
      × (t'.c.y ≡ t.c.y + 1)
unfolding put_glyph deselect selclear translated
put_glyph-wraps u t v ho hw hm hi hy =
    if_keeps
      (λ s.
        ((settled u s).line (t.c.y + 1) 0 ≡ stored t (translated t u) t.c.attr)
        × ((settled u s).c.x ≡ (if ltb 1 t.col then 1 else 0))
        × ((settled u s).c.y ≡ t.c.y + 1))
      (selected t (pos t.c.x) (pos t.c.y))
      (wrapped u (selclear t) (selclear-InScreen t v) ho hw hm hi hy) (wrapped u t v ho hw hm hi hy)
