-- ===== src/St/Handle/Keeps.antt =====
-- st/st.c, csihandle: the control sequences keep the geometry of the screen.
use suckless.Prelude.{ℕ, zero, suc, ◌+◌, List, Option, none, some}
use suckless.Prelude.Int.{ℤ, pos_part}
use suckless.St.Term.{Term, Line, Call, call}
use suckless.St.Cursor.Bounds.{
  InScreen, InScreen-same, same_screen, if-InScreen, tmoveto-InScreen, tmoveato-InScreen,
  tsetscroll-InScreen,
}
use suckless.St.Cursor.Fields.{assignments, calls-InScreen}
use suckless.St.Scroll.Frame.{
  tscrollup-InScreen, tscrolldown-InScreen, tinsertblankline-InScreen, tdeleteline-InScreen,
}
use suckless.St.Edit.Cells.{tdeletechar-InScreen, tinsertblank-InScreen}
use suckless.St.Edit.Tabs.{tputtab-InScreen}
use suckless.St.Modes.Keeps.{
  tcursor_save-InScreen, tcursor_load-InScreen, tclearregion-InScreen, tsetmode-InScreen,
}
use suckless.St.Control.Keeps.{answer-InScreen}
use suckless.St.Sgr.{tsetattr}
use suckless.St.Print.{print_cells, tdumpline, dump_lines, tdump, getsel, tdumpsel}
use suckless.St.Handle.{
  media_copy, erase_display, erase_line, clear_tabs, repeat, repeat_last, csi_move, csi_edit,
  csi_other, set_region, csihandle,
}

call-InScreen : (c : Call) (t : Term) → InScreen t → InScreen (call c t)
call-InScreen c t v = calls-InScreen _ t v

print_cells-InScreen : (n i : ℕ) (l : Line) (t : Term) → InScreen t → InScreen (print_cells n i l t)
unfolding print_cells
print_cells-InScreen zero i l t v = v
print_cells-InScreen (suc n) i l t v = print_cells-InScreen n (i + 1) l _ (call-InScreen _ t v)

tdumpline-InScreen : (n : ℕ) (t : Term) → InScreen t → InScreen (tdumpline n t)
unfolding tdumpline
tdumpline-InScreen n t v = search (if-InScreen, call-InScreen, print_cells-InScreen)

dump_lines-InScreen : (n i : ℕ) (t : Term) → InScreen t → InScreen (dump_lines n i t)
unfolding dump_lines
dump_lines-InScreen zero i t v = v
dump_lines-InScreen (suc n) i t v = dump_lines-InScreen n (i + 1) _ (tdumpline-InScreen i t v)

tdump-InScreen : (t : Term) → InScreen t → InScreen (tdump t)
unfolding tdump
tdump-InScreen t v = dump_lines-InScreen t.row 0 t v

dumped-InScreen :
    (s : Option (List ℕ)) (t : Term)
    → InScreen t
    → InScreen (elim s [ none ↦ t | some b ↦ call (Call.print b) t ])
dumped-InScreen none t v = v
dumped-InScreen (some s) t v = call-InScreen _ t v

tdumpsel-InScreen : (t : Term) → InScreen t → InScreen (tdumpsel t)
unfolding tdumpsel
tdumpsel-InScreen t v = dumped-InScreen (getsel t) t v

media_copy-InScreen : (n : ℤ) (t : Term) → InScreen t → InScreen (media_copy n t)
unfolding media_copy
media_copy-InScreen n t v =
    search (if-InScreen, tdump-InScreen, tdumpline-InScreen, tdumpsel-InScreen, assignments) depth
      10

erase_display-InScreen : (n : ℤ) (t : Term) → InScreen t → InScreen (erase_display n t)
unfolding erase_display
erase_display-InScreen n t v = search (if-InScreen, tclearregion-InScreen) depth 10

erase_line-InScreen : (n : ℤ) (t : Term) → InScreen t → InScreen (erase_line n t)
unfolding erase_line
erase_line-InScreen n t v = search (if-InScreen, tclearregion-InScreen) depth 10

clear_tabs-InScreen : (n : ℤ) (t : Term) → InScreen t → InScreen (clear_tabs n t)
unfolding clear_tabs
clear_tabs-InScreen n t v = search (if-InScreen, assignments) depth 10

csi_move-InScreen : (m : ℕ) (n col : ℤ) (t : Term) → InScreen t → InScreen (csi_move m n col t)
unfolding csi_move
csi_move-InScreen m n col t v =
    search (if-InScreen, tmoveto-InScreen, tmoveato-InScreen, tputtab-InScreen) depth 24

csi_edit-InScreen : (m : ℕ) (n : ℤ) (t : Term) → InScreen t → InScreen (csi_edit m n t)
unfolding csi_edit
csi_edit-InScreen m n t v =
    search
      (
        if-InScreen, tinsertblank-InScreen, tscrollup-InScreen, tscrolldown-InScreen,
        tinsertblankline-InScreen, tdeleteline-InScreen, tdeletechar-InScreen,
        tclearregion-InScreen,
      )
      depth 16

set_region-InScreen : (a b : ℤ) (t : Term) → InScreen t → InScreen (set_region a b t)
set_region-InScreen a b t v = tmoveato-InScreen _ _ _ (tsetscroll-InScreen _ _ t v)

tsetattr-InScreen : (attr : ℕ → ℤ) (l : ℕ) (t : Term) → InScreen t → InScreen (tsetattr attr l t)
unfolding tsetattr
tsetattr-InScreen attr l t v = InScreen-same t _ v (same_screen t)

-- A call of tputc that keeps the geometry.
abbrev pub Keeps : (ℕ → Term → Term) → Type 0
Keeps put = (u : ℕ) (t : Term) → InScreen t → InScreen (put u t)

module _ (put : ℕ → Term → Term) (keeps : Keeps put) where
  repeat-InScreen : (n u : ℕ) (t : Term) → InScreen t → InScreen (repeat n (put u) t)
  unfolding repeat
  repeat-InScreen zero u t v = v
  repeat-InScreen (suc n) u t v = repeat-InScreen n u _ (keeps u t v)

  repeat_last-InScreen : (n : ℤ) (t : Term) → InScreen t → InScreen (repeat_last put n t)
  unfolding repeat_last
  repeat_last-InScreen n t v = if-InScreen _ _ _ v (repeat-InScreen (pos_part n) t.lastc t v)

  csi_other-InScreen : (m : ℕ) (n : ℤ) (t : Term) → InScreen t → InScreen (csi_other put m n t)
  unfolding csi_other
  csi_other-InScreen m n t v =
      search
        (
          if-InScreen, media_copy-InScreen, answer-InScreen, repeat_last-InScreen,
          clear_tabs-InScreen, erase_display-InScreen, erase_line-InScreen, tsetmode-InScreen,
          tsetattr-InScreen, set_region-InScreen, tcursor_save-InScreen, tcursor_load-InScreen,
          call-InScreen,
        )
        depth 32

  -- Every control sequence, known or not and with any parameters, keeps the geometry.
  pub csihandle-InScreen : (t : Term) → InScreen t → InScreen (csihandle put t)
  unfolding csihandle
  csihandle-InScreen t v =
      search (if-InScreen, csi_move-InScreen, csi_edit-InScreen, csi_other-InScreen) depth 8
