-- ===== src/St/Edit.antt =====
-- st/st.c, writing into a line: tsetchar, tdeletechar, tinsertblank, tputtab, tsetcolor. memmove is
-- the C library's, over the glyphs of one line.
pub mod Cells
pub mod Tabs
pub mod Wide
use suckless.Prelude.{
  ℕ, zero, suc, ◌+◌, ◌-◌, Bool, true, false, not, ◌&&◌, ◌||◌, List, [], ◌∷◌, ltb, leb, ◌==◌,
  between, if◌then◌else◌, put_at, put_at₂, get_or,
}
use suckless.Prelude.Int.{ℤ, pos, negsuc, sub_ℕ, limit}
use suckless.St.Term.{
  Term, Line, Glyph, Marks, modbit, attr_wide, attr_wdummy, attr_boxdraw, cs_graphic0,
}
use suckless.St.Clear.{tclearregion}

-- The code points of vt100_0, 0 where the table has a null pointer.
abbrev pub vt100_0 : List ℕ
vt100_0 =
    0x2191 ∷ 0x2193 ∷ 0x2192 ∷ 0x2190 ∷ 0x2588 ∷ 0x259A ∷ 0x2603 ∷ 0 ∷ 0 ∷ 0 ∷ 0 ∷ 0 ∷ 0 ∷ 0 ∷ 0 ∷ 0
    ∷ 0 ∷ 0 ∷ 0 ∷ 0 ∷ 0 ∷ 0 ∷ 0 ∷ 0 ∷ 0 ∷ 0 ∷ 0 ∷ 0 ∷ 0 ∷ 0 ∷ 0x20 ∷ 0x25C6 ∷ 0x2592 ∷ 0x2409
    ∷ 0x240C ∷ 0x240D ∷ 0x240A ∷ 0x00B0 ∷ 0x00B1 ∷ 0x2424 ∷ 0x240B ∷ 0x2518 ∷ 0x2510 ∷ 0x250C
    ∷ 0x2514 ∷ 0x253C ∷ 0x23BA ∷ 0x23BB ∷ 0x2500 ∷ 0x23BC ∷ 0x23BD ∷ 0x251C ∷ 0x2524 ∷ 0x2534
    ∷ 0x252C ∷ 0x2502 ∷ 0x2264 ∷ 0x2265 ∷ 0x03C0 ∷ 0x2260 ∷ 0x00A3 ∷ 0x00B7 ∷ []

-- The rune after the translation for the line drawing set.
unfoldable pub translated : Term → ℕ → ℕ
translated t u =
    let g = get_or vt100_0 (u - 0x41) 0 in
    if t.trantbl t.charset == cs_graphic0 && between u 0x41 0x7E && not (g == 0) then g else u

-- `g.u = ' '; g.mode &= ~attr;`
abbrev pub orphaned : ℕ → Glyph → Glyph
orphaned attr g = record g { u = b' '; mode = modbit g.mode false attr }

-- The line after the other half of a wide character at x was blanked.
unfoldable pub split_wide : ℕ → ℕ → Line → Line
split_wide col x l =
    if (l x).mode attr_wide
    then (if ltb (x + 1) col then put_at l (x + 1) (orphaned attr_wdummy (l (x + 1))) else l)
    else if (l x).mode attr_wdummy && not (x == 0)
    then put_at l (x - 1) (orphaned attr_wide (l (x - 1)))
    else l

-- Whether the code writes to line[y][-1].
unfoldable pub writes_before : ℕ → Line → Bool
writes_before x l = not ((l x).mode attr_wide) && (l x).mode attr_wdummy && x == 0

-- The glyph that is stored.
abbrev pub stored : Term → ℕ → Glyph → Glyph
stored t u attr = record attr {
  u = u;
  mode = if t.isboxdraw u then modbit attr.mode true attr_boxdraw else attr.mode;
}

unfoldable pub tsetchar : ℕ → Glyph → ℕ → ℕ → Term → Term
unfolding translated split_wide writes_before
tsetchar u attr x y t =
    let u' = translated t u in
    record t {
      fault = t.fault || writes_before x (t.line y);
      marks = record t.marks { dirty = put_at t.dirty y true };
      line = put_at t.line y (put_at (split_wide t.col x (t.line y)) x (stored t u' attr));
    }

abbrev pub memmove : Line → ℕ → ℕ → ℕ → Line
memmove l dst src n i = if leb dst i && ltb i (dst + n) then l (i - dst + src) else l i

unfoldable pub tdeletechar : ℤ → Term → Term
tdeletechar n t =
    let n' = limit n 0 (t.col - t.c.x) in
    let dst = t.c.x in
    let src = t.c.x + n' in
    let t1 = record t {
      line = put_at t.line t.c.y (memmove (t.line t.c.y) dst src (t.col - src));
    } in
    tclearregion (sub_ℕ t.col n') (pos t.c.y) (pos (t.col - 1)) (pos t.c.y) t1

unfoldable pub tinsertblank : ℤ → Term → Term
tinsertblank n t =
    let n' = limit n 0 (t.col - t.c.x) in
    let dst = t.c.x + n' in
    let src = t.c.x in
    let t1 = record t {
      line = put_at t.line t.c.y (memmove (t.line t.c.y) dst src (t.col - dst));
    } in
    tclearregion (pos src) (pos t.c.y) (sub_ℕ dst 1) (pos t.c.y) t1

-- `for (; x < term.col && !term.tabs[x]; ++x)`, k = col - x.
unfoldable pub skip_right : (ℕ → Bool) → ℕ → ℕ → ℕ
skip_right tabs zero x = x
skip_right tabs (suc k) x = if tabs x then x else skip_right tabs k (x + 1)

-- `for (; x > 0 && !term.tabs[x]; --x)`
unfoldable pub skip_left : (ℕ → Bool) → ℕ → ℕ
skip_left tabs zero = 0
skip_left tabs (suc x) = if tabs (suc x) then suc x else skip_left tabs x

-- The two loops over n tab stops.
unfoldable pub tab_right : (ℕ → Bool) → ℕ → ℕ → ℕ → ℕ
tab_right tabs col zero x = x
tab_right tabs col (suc n) x =
    let rest = tab_right tabs col n (skip_right tabs (col - (x + 1)) (x + 1)) in
    if ltb x col then rest else x

unfoldable pub tab_left : (ℕ → Bool) → ℕ → ℕ → ℕ
tab_left tabs zero x = x
tab_left tabs (suc n) zero = 0
tab_left tabs (suc n) (suc x) = tab_left tabs n (skip_left tabs x)

unfoldable pub tputtab : ℤ → Term → Term
tputtab (pos n) t = record t {
  c = record t.c { x = limit (pos (tab_right t.tabs t.col n t.c.x)) 0 (t.col - 1) };
}
tputtab (negsuc n) t = record t {
  c = record t.c { x = limit (pos (tab_left t.tabs (suc n) t.c.x)) 0 (t.col - 1) };
}

-- `for( ; i < end; ++i )`, n = end - start rounds.
unfoldable pub colour_cells : ℕ → ℕ → ℕ → ℕ → Line → Line
colour_cells zero i fg bg l = l
colour_cells (suc n) i fg bg l =
    colour_cells n (i + 1) fg bg (put_at l i (record (l i) { fg = fg; bg = bg }))

unfoldable pub tsetcolor : ℕ → ℕ → ℕ → ℕ → ℕ → Term → Term
unfolding colour_cells
tsetcolor row start end fg bg t = record t {
  line = put_at t.line row (colour_cells (end - start) start fg bg (t.line row));
}
