-- ===== src/St/Control/Keeps.antt =====
-- Control codes and escape sequences keep the geometry of the screen.
use suckless.Prelude.{ℕ, zero, suc, ◌+◌, List, Option, none, some}
use suckless.Prelude.Int.{ℤ}
use suckless.St.Term.{Term}
use suckless.St.Cursor.Bounds.{InScreen, InScreen-same, same_screen, if-InScreen, tmoveto-InScreen}
use suckless.St.Cursor.Fields.{assignments}
use suckless.St.Scroll.Frame.{
  tscrollup-InScreen, tscrolldown-InScreen, tnewline-InScreen, kscrolldown-InScreen,
}
use suckless.St.Edit.Cells.{tsetchar-InScreen}
use suckless.St.Edit.Tabs.{tputtab-InScreen}
use suckless.St.Modes.Keeps.{
  tcursor_save-InScreen, tcursor_load-InScreen, redraw-InScreen, xsetmode-InScreen, treset-InScreen,
}
use suckless.St.Csi.{csireset}
use suckless.St.Str.{set_colour, set_clipboard, osc, strparse, strhandle, tstrsequence}
use suckless.St.Print.{ttywrite}
use suckless.St.Control.{
  answer, end_string, start_escape, tcontrolcode, tdefutf8, tdeftran, test_rows, test_cols,
  tdectest, esc_action, eschandle,
}

pub csireset-InScreen : (t : Term) → InScreen t → InScreen (csireset t)
unfolding csireset
csireset-InScreen t v = search assignments

strparse-InScreen : (t : Term) → InScreen t → InScreen (strparse t)
unfolding strparse
strparse-InScreen t v = InScreen-same t _ v (same_screen t)

set_colour-InScreen :
    (j : ℤ) (p : Option (List ℕ)) (t : Term) → InScreen t → InScreen (set_colour j p t)
unfolding set_colour
set_colour-InScreen j p t v = search (if-InScreen, redraw-InScreen, assignments) depth 8

set_clipboard-InScreen :
    (s : Option (List ℕ)) (t : Term) → InScreen t → InScreen (set_clipboard s t)
unfolding set_clipboard
set_clipboard-InScreen none t v = v
set_clipboard-InScreen (some s) t v = search (if-InScreen, assignments) depth 8

osc-InScreen : (args : List (List ℕ)) (t : Term) → InScreen t → InScreen (osc args t)
unfolding osc
osc-InScreen args t v =
    search (if-InScreen, set_colour-InScreen, set_clipboard-InScreen, assignments) depth 12

pub strhandle-InScreen : (t : Term) → InScreen t → InScreen (strhandle t)
unfolding strhandle
strhandle-InScreen t v = search (if-InScreen, osc-InScreen, strparse-InScreen, assignments) depth 12

pub tstrsequence-InScreen : (c : ℕ) (t : Term) → InScreen t → InScreen (tstrsequence c t)
unfolding tstrsequence
tstrsequence-InScreen c t v = InScreen-same t _ v (same_screen t)

pub answer-InScreen : (s : List ℕ) (t : Term) → InScreen t → InScreen (answer s t)
unfolding ttywrite
answer-InScreen s t v = search (kscrolldown-InScreen, assignments)

end_string-InScreen : (t : Term) → InScreen t → InScreen (end_string t)
unfolding end_string
end_string-InScreen t v = search assignments

start_escape-InScreen : (t : Term) → InScreen t → InScreen (start_escape t)
unfolding start_escape
start_escape-InScreen t v = search assignments

-- Every control code keeps the geometry.
pub tcontrolcode-InScreen : (u : ℕ) (t : Term) → InScreen t → InScreen (tcontrolcode u t)
unfolding tcontrolcode
tcontrolcode-InScreen u t v =
    search
      (
        if-InScreen, tputtab-InScreen, tmoveto-InScreen, tnewline-InScreen, strhandle-InScreen,
        csireset-InScreen, tsetchar-InScreen, answer-InScreen, tstrsequence-InScreen,
        end_string-InScreen, start_escape-InScreen, assignments,
      )
      depth 24

pub tdefutf8-InScreen : (a : ℕ) (t : Term) → InScreen t → InScreen (tdefutf8 a t)
unfolding tdefutf8
tdefutf8-InScreen a t v = search (if-InScreen, assignments)

pub tdeftran-InScreen : (a : ℕ) (t : Term) → InScreen t → InScreen (tdeftran a t)
unfolding tdeftran
tdeftran-InScreen a t v = search (if-InScreen, assignments)

test_rows-InScreen : (n x y : ℕ) (t : Term) → InScreen t → InScreen (test_rows n x y t)
unfolding test_rows
test_rows-InScreen zero x y t v = v
test_rows-InScreen (suc n) x y t v =
    test_rows-InScreen n x (y + 1) _ (tsetchar-InScreen b'E' t.c.attr x y t v)

test_cols-InScreen : (n x : ℕ) (t : Term) → InScreen t → InScreen (test_cols n x t)
unfolding test_cols
test_cols-InScreen zero x t v = v
test_cols-InScreen (suc n) x t v = test_cols-InScreen n (x + 1) _ (test_rows-InScreen t.row x 0 t v)

pub tdectest-InScreen : (a : ℕ) (t : Term) → InScreen t → InScreen (tdectest a t)
unfolding tdectest
tdectest-InScreen a t v = search (if-InScreen, test_cols-InScreen)

esc_action-InScreen : (a : ℕ) (t : Term) → InScreen t → InScreen (esc_action a t)
unfolding esc_action
esc_action-InScreen a t v =
    search
      (
        if-InScreen, tscrollup-InScreen, tscrolldown-InScreen, tmoveto-InScreen, tnewline-InScreen,
        answer-InScreen, treset-InScreen, xsetmode-InScreen, tcursor_save-InScreen,
        tcursor_load-InScreen, strhandle-InScreen, assignments,
      )
      depth 24

-- Every escape sequence keeps the geometry.
pub eschandle-InScreen : (a : ℕ) (t : Term) → InScreen t → InScreen (eschandle a t).0
unfolding eschandle
eschandle-InScreen a t v =
    search (if-InScreen, esc_action-InScreen, tstrsequence-InScreen, assignments) depth 16
