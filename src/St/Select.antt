-- ===== src/St/Select.antt =====
-- st/st.c, the selection: selinit, tlinelen, tlinehistlen, selected, selclear, selsnap, selnormalize,
-- selstart, selextend, selscroll. Coordinates are ints; ob.x is -1 where there is no selection. A line
-- is looked up at the position's row and column, which are not negative where the code does so.
pub mod Order
use suckless.Prelude.{
  ℕ, zero, suc, ◌+◌, ◌-◌, ◌*◌, ◌≡◌, Bool, true, false, not, ◌&&◌, ◌||◌, List, [], ◌∷◌, ltb, leb,
  ◌==◌, if◌then◌else◌, eq_bool, ◌%◌, Option, none, some,
}
use suckless.Prelude.Int.{
  ℤ, pos, negsuc, pos_part, neg_part, ◌+ℤ◌, ◌-ℤ◌, ltb_ℤ, leb_ℤ, min_ℤ, max_ℤ,
}
use suckless.St.Term.{
  Term, Marks, Line, histsize, Glyph, Point, Selection, tline, attr_wrap, attr_wdummy,
  mode_altscreen, sel_idle, sel_empty, sel_ready, sel_regular, sel_rectangular, snap_word,
  snap_line,
}
use suckless.St.Cursor.{dirtied, tsetdirt}

abbrev pub eq_ℤ : ℤ → ℤ → Bool
eq_ℤ a b = leb_ℤ a b && leb_ℤ b a

abbrev pub between_ℤ : ℤ → ℤ → ℤ → Bool
between_ℤ x a b = leb_ℤ a x && leb_ℤ x b

-- TLINE(y)[x]
abbrev pub glyph_at : Term → ℤ → ℤ → Glyph
glyph_at t x y = tline t (pos_part y) (pos_part x)

-- `while (i > 0 && line[i - 1].u == ' ') --i;`
unfoldable pub trim_from : Line → ℕ → ℕ
trim_from l zero = 0
trim_from l (suc i) = if (l i).u == b' ' then trim_from l i else suc i

unfoldable pub tlinelen : Term → ℕ → ℕ
unfolding trim_from
tlinelen t y = if (tline t y (t.col - 1)).mode attr_wrap then t.col else trim_from (tline t y) t.col

-- TLINE_HIST(y), for 0 <= y
unfoldable pub tline_hist : Term → ℕ → Line
tline_hist t y =
    if leb (y + t.row) (histsize + 2) then t.hist y else t.line (y + t.row - histsize - 3)

unfoldable pub tlinehistlen : Term → ℕ → ℕ
unfolding trim_from tline_hist
tlinehistlen t y =
    if (tline_hist t y (t.col - 1)).mode attr_wrap then t.col else trim_from (tline_hist t y) t.col

unfoldable pub selected : Term → ℤ → ℤ → Bool
selected t x y =
    let s = t.sel in
    if s.mode == sel_empty || eq_ℤ s.ob.x (negsuc 0) || not (eq_bool s.alt (t.mode mode_altscreen))
    then false
    else if s.type == sel_rectangular
    then between_ℤ y s.nb.y s.ne.y && between_ℤ x s.nb.x s.ne.x
    else between_ℤ y s.nb.y s.ne.y
      && (not (eq_ℤ y s.nb.y) || leb_ℤ s.nb.x x)
      && (not (eq_ℤ y s.ne.y) || leb_ℤ x s.ne.x)

abbrev pub with_ob_x : Selection → ℤ → Selection
with_ob_x s x = record s { ob = record s.ob { x = x } }

unfoldable pub selinit : Term → Term
selinit t = record t {
  marks = record t.marks {
    sel = record (with_ob_x t.sel (negsuc 0)) { mode = sel_idle; snap = 0 };
  };
}

-- sel and dirty after selclear.
unfoldable pub selclear_marks : Term → Marks
selclear_marks t = if eq_ℤ t.sel.ob.x (negsuc 0) then t.marks else record {
  dirty = dirtied t t.sel.nb.y t.sel.ne.y t.dirty;
  sel = record (with_ob_x t.sel (negsuc 0)) { mode = sel_idle };
}

unfoldable pub selclear : Term → Term
unfolding selclear_marks
selclear t = record t { marks = selclear_marks t }

member : ℕ → List ℕ → Bool
member u [] = false
member u (d ∷ ds) = u == d || member u ds

-- ISDELIM(u)
unfoldable pub isdelim : Term → ℕ → Bool
unfolding member
isdelim t u = not (u == 0) && member u t.worddelimiters

-- The end of the loop body of `case SNAP_WORD`, from `if (newx >= tlinelen(newy))` on.
snap_accept : Term → ℤ → ℤ → ℤ → ℤ → Option (ℤ × ℤ)
unfolding tlinelen isdelim
snap_accept t x y newx newy =
    let prev = (glyph_at t x y).u in
    let gp = glyph_at t newx newy in
    if leb_ℤ (pos (tlinelen t (pos_part newy))) newx
      || (not (gp.mode attr_wdummy)
          && (not (eq_bool (isdelim t gp.u) (isdelim t prev))
              || (isdelim t gp.u && not (gp.u == prev))))
    then none
    else some (newx, newy)

-- One round of the loop of `case SNAP_WORD`: the next position, or a break.
unfoldable pub snap_word_step : Term → Bool → ℤ → ℤ → Option (ℤ × ℤ)
unfolding snap_accept
snap_word_step t forward x y =
    let dir = if forward then pos 1 else negsuc 0 in
    let newx = x +ℤ dir in
    let newy = y +ℤ dir in
    let wrapx = pos (pos_part (newx +ℤ pos t.col) % t.col) in
    if between_ℤ newx (pos 0) (pos t.col -ℤ pos 1)
    then snap_accept t x y newx y
    else if not (between_ℤ newy (pos 0) (pos t.row -ℤ pos 1))
    then none
    else if (if forward then glyph_at t x y else glyph_at t wrapx newy).mode attr_wrap
    then snap_accept t x y wrapx newy
    else none

unfoldable pub snap_word_from : ℕ → Term → Bool → ℤ → ℤ → ℤ × ℤ
snap_word_from zero t forward x y = (x, y)
snap_word_from (suc fuel) t forward x y = elim (snap_word_step t forward x y) [
  | none ↦ (x, y)
  | some (x', y') ↦ snap_word_from fuel t forward x' y'
]

-- `case SNAP_LINE`: the loop to lower rows, and the loop of n rows to higher ones.
snap_up : Term → ℕ → ℕ
snap_up t zero = 0
snap_up t (suc y) = if (tline t y (t.col - 1)).mode attr_wrap then snap_up t y else suc y

snap_down : Term → ℕ → ℕ → ℕ
snap_down t zero y = y
snap_down t (suc n) y = if (tline t y (t.col - 1)).mode attr_wrap then snap_down t n (y + 1) else y

unfoldable pub selsnap : Term → Bool → Point → Point
unfolding snap_word_step snap_word_from snap_up snap_down
selsnap t forward p =
    if t.sel.snap == snap_word
    then (let (x, y) = snap_word_from (t.row * t.col) t forward p.x p.y in record { x = x; y = y })
    else if t.sel.snap == snap_line
    then (if forward
        then record {
          x = pos t.col -ℤ pos 1;
          y =
              if ltb_ℤ p.y (pos (t.row - 1))
              then pos (snap_down t (t.row - 1 - pos_part p.y) (pos_part p.y))
              else p.y;
        }
        else record {
          x = pos 0;
          y = if ltb_ℤ (pos 0) p.y then pos (snap_up t (pos_part p.y)) else p.y;
        })
    else p

-- sel.nb and sel.ne before the snapping.
abbrev pub ordered : Selection → Point × Point
ordered s =
    let apart = s.type == sel_regular && not (eq_ℤ s.ob.y s.oe.y) in
    let down = ltb_ℤ s.ob.y s.oe.y in
    let top = min_ℤ s.ob.y s.oe.y in
    let bottom = max_ℤ s.ob.y s.oe.y in
    if apart
    then (
      record { x = if down then s.ob.x else s.oe.x; y = top },
      record { x = if down then s.oe.x else s.ob.x; y = bottom },
    )
    else (
      record { x = min_ℤ s.ob.x s.oe.x; y = top },
      record { x = max_ℤ s.ob.x s.oe.x; y = bottom },
    )

-- "expand selection over line breaks"
abbrev expanded : Term → Point → Point → Point × Point
expanded t nb ne =
    let i = pos (tlinelen t (pos_part nb.y)) in
    (
      record nb { x = if ltb_ℤ i nb.x then i else nb.x },
      record ne {
        x = if leb_ℤ (pos (tlinelen t (pos_part ne.y))) ne.x then pos t.col -ℤ pos 1 else ne.x;
      },
    )

-- sel after selnormalize.
unfoldable pub normalized : Term → Selection
unfolding selsnap tlinelen
normalized t =
    let (b, e) = ordered t.sel in
    let nb = selsnap t false b in
    let ne = selsnap t true e in
    let ends = if t.sel.type == sel_rectangular then (nb, ne) else expanded t nb ne in
    record t.sel { nb = ends.0; ne = ends.1 }

unfoldable pub selnormalize : Term → Term
unfolding normalized
selnormalize t = record t { marks = record t.marks { sel = normalized t } }

abbrev with_sel : Term → Selection → Term
with_sel t s = record t { marks = record t.marks { sel = s } }

unfoldable pub selstart : ℤ → ℤ → ℕ → Term → Term
unfolding selclear normalized tsetdirt
selstart col row snap t =
    let t1 = selclear t in
    let at : Point = record { x = col; y = row } in
    let fresh : Selection = record t1.sel {
      mode = sel_empty;
      type = sel_regular;
      alt = t1.mode mode_altscreen;
      snap = snap;
      oe = at;
      ob = at;
    } in
    let s = normalized (with_sel t1 fresh) in
    let s' = record s { mode = if snap == 0 then s.mode else sel_ready } in
    tsetdirt s'.nb.y s'.ne.y (with_sel t1 s')

-- sel and dirty after selextend.
unfoldable pub selextend_marks : ℤ → ℤ → ℕ → Bool → Term → Marks
unfolding selclear_marks normalized
selextend_marks col row type done t =
    let old = t.sel in
    let s = normalized (with_sel t (record old { oe = record { x = col; y = row } })) in
    let moved =
      not (eq_ℤ old.oe.y row)
      || not (eq_ℤ old.oe.x col)
      || not (old.type == type)
      || old.mode == sel_empty in
    if old.mode == sel_idle
    then t.marks
    else if done && old.mode == sel_empty
    then selclear_marks t
    else record {
      dirty =
          if moved
          then dirtied t (min_ℤ s.nb.y old.nb.y) (max_ℤ s.ne.y old.ne.y) t.dirty
          else t.dirty;
      sel = record s { type = type; mode = if done then sel_idle else sel_ready };
    }

unfoldable pub selextend : ℤ → ℤ → ℕ → Bool → Term → Term
unfolding selextend_marks
selextend col row type done t = record t { marks = selextend_marks col row type done t }

-- sel and dirty after selscroll.
unfoldable pub selscroll_marks : ℤ → ℤ → Term → Marks
unfolding selclear_marks normalized
selscroll_marks orig n t =
    let inside = λ (y : ℤ). between_ℤ y orig (pos t.bot) in
    let out = λ (y : ℤ). ltb_ℤ y (pos t.top) || ltb_ℤ (pos t.bot) y in
    let oby = t.sel.ob.y +ℤ n in
    let oey = t.sel.oe.y +ℤ n in
    let moved =
      with_sel t
        (record t.sel { ob = record t.sel.ob { y = oby }; oe = record t.sel.oe { y = oey } }) in
    if eq_ℤ t.sel.ob.x (negsuc 0)
    then t.marks
    else if not (eq_bool (inside t.sel.nb.y) (inside t.sel.ne.y))
    then selclear_marks t
    else if inside t.sel.nb.y
    then (if out oby || out oey
        then selclear_marks moved
        else record moved.marks { sel = normalized moved })
    else t.marks

unfoldable pub selscroll : ℤ → ℤ → Term → Term
unfolding selscroll_marks
selscroll orig n t = record t { marks = selscroll_marks orig n t }
