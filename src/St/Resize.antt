-- ===== src/St/Resize.antt =====
-- st/st.c, tresize and tnew. Sizes are natural numbers: a negative one is refused as 0 is. A cell that
-- realloc or malloc leaves without a value keeps the one it had. tabspaces is not 0.
use suckless.Prelude.{
  ℕ, suc, zero, ◌+◌, ◌-◌, ◌%◌, ◌≤◌, ◌<◌, ◌≡◌, ◌∙◌, min, Bool, false, ◌&&◌, ◌||◌, arith, ltb, leb,
  ◌==◌, if◌then◌else◌,
}
use suckless.Prelude.Int.{pos, limit_bounds}
use suckless.St.Term.{Term, Line, Glyph, histsize, no_flags}
use suckless.St.Cursor.{tmoveto, tsetscroll}
use suckless.St.Cursor.Bounds.{InScreen, Sized, if-InScreen, tmoveto_lands}
use suckless.St.Clear.{tclearregion}
use suckless.St.Modes.{tswapscreen, tcursor_load, treset}
use suckless.St.Modes.Keeps.{
  tclearregion-InScreen, tswapscreen-InScreen, tcursor_load-InScreen, treset-InScreen,
}

-- The rows after the screen slid up so that the cursor's line stays.
unfoldable slid : ℕ → Term → (ℕ → Line) → ℕ → Line
slid row t l j = l (if ltb j row then j + (t.c.y + 1 - row) else j)

-- `while (--bp > term.tabs && !*bp)` with k columns left of the end.
unfoldable last_tab : (ℕ → Bool) → ℕ → ℕ
last_tab tabs zero = 0
last_tab tabs (suc k) = if tabs (suc k) then suc k else last_tab tabs k

-- The tab stops of the columns that are new.
unfoldable new_tabs : ℕ → Term → ℕ → Bool
unfolding last_tab
new_tabs col t i =
    let first = if t.col == 0 then t.tabspaces - 1 else last_tab t.tabs (t.col - 1) + t.tabspaces in
    if leb t.col i && ltb i col then leb first i && (i - first) % t.tabspaces == 0 else t.tabs i

-- The arrays in their new sizes.
unfoldable reallocated : ℕ → ℕ → Term → Term
unfolding slid new_tabs
reallocated col row t = record t {
  line = slid row t t.line;
  alt = slid row t t.alt;
  hist = λ i j.
      if ltb i histsize && (leb (min col t.col) j && ltb j col)
      then record t.c.attr { u = b' ' }
      else t.hist i j;
  tabs = if ltb t.col col then new_tabs col t else t.tabs;
  col = col;
  row = row;
}

-- A round of the last loop; mincol and minrow are the smaller ones of the sizes.
unfoldable clear_screen : ℕ → ℕ → Term → Term
clear_screen mincol minrow t =
    let t1 =
      if ltb mincol t.col && ltb 0 minrow
      then tclearregion (pos mincol) (pos 0) (pos (t.col - 1)) (pos (minrow - 1)) t
      else t in
    let t2 =
      if ltb 0 t.col && ltb minrow t.row
      then tclearregion (pos 0) (pos minrow) (pos (t.col - 1)) (pos (t.row - 1)) t1
      else t1 in
    tcursor_load (tswapscreen t2)

unfoldable placed : ℕ → ℕ → Term → Term
unfolding reallocated
placed col row t =
    tmoveto (pos t.c.x) (pos t.c.y) (tsetscroll (pos 0) (pos (row - 1)) (reallocated col row t))

unfoldable pub tresize : ℕ → ℕ → Term → Term
unfolding placed clear_screen
tresize col row t =
    let mincol = min col t.col in
    let minrow = min row t.row in
    let t1 = placed col row t in
    let t2 = clear_screen mincol minrow (clear_screen mincol minrow t1) in
    if ltb col 1 || ltb row 1 then t else record t2 { c = t1.c }

placed-InScreen :
    (col row : ℕ) (t : Term)
    → 0 < col
    → 0 < row
    → t.histi < histsize
    → t.scr ≤ histsize
    → InScreen (placed col row t)
unfolding placed reallocated tsetscroll
placed-InScreen col row t hc hr hh hs =
    tmoveto_lands (pos t.c.x) (pos t.c.y)
      (tsetscroll (pos 0) (pos (row - 1)) (reallocated col row t)) sized
  where
    sized : Sized (tsetscroll (pos 0) (pos (row - 1)) (reallocated col row t))
    sized =
        ground (arith, limit_bounds (pos 0) 0 (row - 1), limit_bounds (pos (row - 1)) 0 (row - 1))

clear_screen-InScreen : (a b : ℕ) (t : Term) → InScreen t → InScreen (clear_screen a b t)
unfolding clear_screen
clear_screen-InScreen a b t v =
    search (if-InScreen, tclearregion-InScreen, tswapscreen-InScreen, tcursor_load-InScreen) depth
      10

clear_screen_size :
    (a b : ℕ) (t : Term) → ((clear_screen a b t).row ≡ t.row) × ((clear_screen a b t).col ≡ t.col)
unfolding clear_screen tclearregion tswapscreen tcursor_load tmoveto
clear_screen_size a b t = ground arith

placed_size :
    (col row : ℕ) (t : Term) → ((placed col row t).row ≡ row) × ((placed col row t).col ≡ col)
unfolding placed reallocated tsetscroll tmoveto
placed_size col row t = ground arith

-- Two rounds of the last loop, and the cursor put back.
cleared : ℕ → ℕ → Term → Term
cleared a b t = record (clear_screen a b (clear_screen a b t)) { c = t.c }

cleared-InScreen :
    (a b : ℕ) (t : Term)
    → InScreen t
    → InScreen (cleared a b t) × ((cleared a b t).row ≡ t.row) × ((cleared a b t).col ≡ t.col)
unfolding cleared
cleared-InScreen a b t v =
    let u = clear_screen a b t in
    let w = clear_screen-InScreen a b u (clear_screen-InScreen a b t v) in
    ground (arith, w, clear_screen_size a b u, clear_screen_size a b t)

-- A new size of at least one row and one column is taken: afterwards the screen has that size, the
-- cursor is on it, the scroll region on its rows, and the history's indices in the history; of the state
-- before only the history's indices have to be right.
pub tresize-InScreen :
    (col row : ℕ) (t : Term)
    → 0 < col
    → 0 < row
    → t.histi < histsize
    → t.scr ≤ histsize
    → InScreen (tresize col row t)
      × ((tresize col row t).row ≡ row)
      × ((tresize col row t).col ≡ col)
unfolding tresize cleared
tresize-InScreen col row t hc hr hh hs =
    let (v, e, f) =
      cleared-InScreen (min col t.col) (min row t.row) (placed col row t)
        (placed-InScreen col row t hc hr hh hs) in
    let (e', f') = placed_size col row t in rw taken (v, e ∙ e', f ∙ f')
  where
    taken : (ltb col 1 || ltb row 1) ≡ false
    taken = ground arith

abbrev null_glyph : Glyph
null_glyph = record { u = 0; mode = no_flags; fg = 0; bg = 0 }

-- term = (Term){ .c = { .attr = { .fg = defaultfg, .bg = defaultbg } } }: all else is 0. The lines are
-- null pointers, with no cell that is read before tresize has allocated it.
unfoldable pub zeroed : Term → Term
zeroed t = record t {
  row = 0;
  col = 0;
  line = λ i j. null_glyph;
  alt = λ i j. null_glyph;
  hist = λ i j. null_glyph;
  histi = 0;
  scr = 0;
  marks = record t.marks { dirty = λ i. false };
  c = record {
    attr = record { u = 0; mode = no_flags; fg = t.defaultfg; bg = t.defaultbg };
    x = 0;
    y = 0;
    state = no_flags;
  };
  ocx = pos 0;
  ocy = 0;
  top = 0;
  bot = 0;
  mode = no_flags;
  esc = no_flags;
  trantbl = λ i. 0;
  charset = 0;
  icharset = 0;
  tabs = λ i. false;
  lastc = 0;
}

unfoldable pub tnew : ℕ → ℕ → Term → Term
unfolding zeroed tresize treset
tnew col row t = treset (tresize col row (zeroed t))

-- Whatever there was before, tnew of at least one row and one column gives a terminal whose cursor is
-- on the screen, whose scroll region is on the rows and whose history indices are in the history.
pub tnew-InScreen : (col row : ℕ) (t : Term) → 0 < col → 0 < row → InScreen (tnew col row t)
unfolding tnew zeroed
tnew-InScreen col row t hc hr =
    treset-InScreen (tresize col row (zeroed t))
      (tresize-InScreen col row (zeroed t) hc hr (omega arith) (omega arith)).0
