-- ===== src/St/Put/Keeps.antt =====
-- st/st.c, tputc and twrite: whatever is written keeps the geometry of the screen.
use suckless.Prelude.{ℕ, zero, suc, ◌+◌, ◌==◌, if_keeps, Bool, true, List, [], ◌∷◌, drop}
use suckless.St.Term.{Term, Flags}
use suckless.St.Cursor.Bounds.{InScreen, InScreen-same, same_screen, if-InScreen, tmoveto-InScreen}
use suckless.St.Cursor.Fields.{assignments}
use suckless.St.Select.{selclear}
use suckless.St.Scroll.Frame.{tnewline-InScreen}
use suckless.St.Edit.Cells.{tsetchar-InScreen}
use suckless.St.Control.Keeps.{
  tcontrolcode-InScreen, tdefutf8-InScreen, tdeftran-InScreen, tdectest-InScreen,
  eschandle-InScreen,
}
use suckless.St.Handle.Keeps.{Keeps, csihandle-InScreen}
use suckless.St.Put.{
  str_append, csi_byte, esc_byte, wrap_line, widen, advance, deselect, wrap_pending, insert_room,
  break_line, store_glyph, print_mode, put_glyph, check_control_code, tputc_with, tputc,
  show_control, twrite_from, twrite,
}

selclear-InScreen : (t : Term) → InScreen t → InScreen (selclear t)
unfolding selclear
selclear-InScreen t v = InScreen-same t _ v (same_screen t)

str_append-InScreen : (b : List ℕ) (t : Term) → InScreen t → InScreen (str_append b t)
unfolding str_append
str_append-InScreen b t v = search (if-InScreen, assignments)

esc_byte-InScreen : (u : ℕ) (t : Term) → InScreen t → InScreen (esc_byte u t)
unfolding esc_byte
esc_byte-InScreen u t v =
    search
      (
        if-InScreen, tdefutf8-InScreen, tdeftran-InScreen, tdectest-InScreen, eschandle-InScreen,
        assignments,
      )
      depth 12

wrap_line-InScreen : (t : Term) → InScreen t → InScreen (wrap_line t)
wrap_line-InScreen t v = tnewline-InScreen true _ (InScreen-same t _ v (same_screen t))

widen-InScreen : (t : Term) → InScreen t → InScreen (widen t)
unfolding widen
widen-InScreen t v = InScreen-same t _ v (same_screen t)

state-InScreen :
    (f : Flags) (t : Term) → InScreen t → InScreen (record t { c = record t.c { state = f } })
state-InScreen f t v = InScreen-same t _ v (same_screen t)

advance-InScreen : (w : ℕ) (t : Term) → InScreen t → InScreen (advance w t)
unfolding advance
advance-InScreen w t v = search (if-InScreen, tmoveto-InScreen, state-InScreen)

pub deselect-InScreen : (t : Term) → InScreen t → InScreen (deselect t)
unfolding deselect
deselect-InScreen t v = search (if-InScreen, selclear-InScreen)

wrap_pending-InScreen : (t : Term) → InScreen t → InScreen (wrap_pending t)
unfolding wrap_pending
wrap_pending-InScreen t v = search (if-InScreen, wrap_line-InScreen)

insert_room-InScreen : (w : ℕ) (t : Term) → InScreen t → InScreen (insert_room w t)
unfolding insert_room
insert_room-InScreen w t v = search (if-InScreen, assignments)

break_line-InScreen : (w : ℕ) (t : Term) → InScreen t → InScreen (break_line w t)
unfolding break_line
break_line-InScreen w t v = search (if-InScreen, tnewline-InScreen)

pub store_glyph-InScreen : (u w : ℕ) (t : Term) → InScreen t → InScreen (store_glyph u w t)
unfolding store_glyph
store_glyph-InScreen u w t v = search (if-InScreen, widen-InScreen, tsetchar-InScreen, assignments)

-- A printed character, wide or not, keeps the geometry.
put_glyph-InScreen : (u w : ℕ) (t : Term) → InScreen t → InScreen (put_glyph u w t)
unfolding put_glyph
put_glyph-InScreen u w t v =
    search
      (
        deselect-InScreen, wrap_pending-InScreen, insert_room-InScreen, break_line-InScreen,
        store_glyph-InScreen, advance-InScreen,
      )
      depth 8

print_mode-InScreen : (b : List ℕ) (t : Term) → InScreen t → InScreen (print_mode b t)
unfolding print_mode
print_mode-InScreen b t v = search (if-InScreen, assignments)

module _ (put : ℕ → Term → Term) (keeps : Keeps put) where
  csi_byte-InScreen : (u : ℕ) (t : Term) → InScreen t → InScreen (csi_byte put u t)
  unfolding csi_byte
  csi_byte-InScreen u t v = search (if-InScreen, csihandle-InScreen, assignments, keeps) depth 8

  check_control_code-InScreen :
      (u : ℕ) (t : Term) → InScreen t → InScreen (check_control_code put u t)
  unfolding check_control_code
  check_control_code-InScreen u t v =
      search
        (
          if-InScreen, tcontrolcode-InScreen, csi_byte-InScreen, esc_byte-InScreen,
          put_glyph-InScreen, assignments,
        )
        depth 12

  tputc_with-InScreen : (u : ℕ) (t : Term) → InScreen t → InScreen (tputc_with put u t)
  unfolding tputc_with
  tputc_with-InScreen u t v =
      search
        (
          if-InScreen, check_control_code-InScreen, str_append-InScreen, print_mode-InScreen,
          assignments,
        )
        depth 12

-- One character, whatever it is and whatever state it meets, keeps the geometry.
pub tputc-InScreen : (u : ℕ) (t : Term) → InScreen t → InScreen (tputc u t)
unfolding tputc
tputc-InScreen u t v = tputc_with-InScreen _ (tputc_with-InScreen (λ v s. s) (λ v s k. k)) u t v

show_control-InScreen : (u : ℕ) (t : Term) → InScreen t → InScreen (show_control u t)
unfolding show_control
show_control-InScreen u t v = search (if-InScreen, tputc-InScreen) depth 8

twrite_from-InScreen :
    (fuel : ℕ) (buf : List ℕ) (show : Bool) (n : ℕ) (t : Term)
    → InScreen t
    → InScreen (twrite_from fuel buf show n t).1
unfolding twrite_from
twrite_from-InScreen zero buf show n t v = v
twrite_from-InScreen (suc fuel) [] show n t v = v
twrite_from-InScreen (suc fuel) (b ∷ bs) show n t v =
    if_keeps (λ (p : ℕ × Term). InScreen p.1) (_ == 0) v
      (twrite_from-InScreen fuel (drop _ (b ∷ bs)) show (n + _) _
        (if-InScreen show _ _ (show_control-InScreen _ t v) (tputc-InScreen _ t v)))

-- From any state in which the cursor is on the screen and the scroll region on the rows, after any bytes
-- written the cursor is on the screen and the region on the rows, and the history's indices are in
-- the history.
pub twrite-InScreen :
    (buf : List ℕ) (show : Bool) (t : Term) → InScreen t → InScreen (twrite buf show t).1
unfolding twrite
twrite-InScreen buf show t v = twrite_from-InScreen _ buf show 0 t v
