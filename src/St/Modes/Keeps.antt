-- ===== src/St/Modes/Keeps.antt =====
-- The modes keep the geometry of the screen.
use suckless.Prelude.{
  ℕ, zero, suc, ◌+◌, Bool, true, false, if_keeps, eq_bool, if◌then◌else◌, ◌-◌, arith, List, [], ◌∷◌,
}
use suckless.Prelude.Int.{ℤ, pos, negsuc}
use suckless.St.Term.{Term, Cursor, Flags, modbit, cursor_origin, mode_altscreen}
use suckless.St.Cursor.{tmoveato}
use suckless.St.Cursor.Bounds.{
  if-InScreen, InScreen, Sized, InScreen-same, same_screen, tmoveto_lands, tmoveato-InScreen,
}
use suckless.St.Clear.{tclearregion}
use suckless.St.Modes.{
  tcursor_save, tcursor_load, tcursor, tswapscreen, redraw, modbits, win_reverse, screen_mode,
  xsetmode, mouse_mode, swap_for, private_mode, public_mode, mode_switch, tsetmode_from, tsetmode,
  reset_screen, reset_state, treset,
}

pub tcursor_save-InScreen : (t : Term) → InScreen t → InScreen (tcursor_save t)
unfolding tcursor_save
tcursor_save-InScreen t v = ground arith

pub tcursor_load-InScreen : (t : Term) → InScreen t → InScreen (tcursor_load t)
unfolding tcursor_load
tcursor_load-InScreen t v = tmoveto_lands (pos c.x) (pos c.y) (record t { c = c }) (ground arith)
  where
    c : Cursor
    c = t.saved (t.mode mode_altscreen)

pub tcursor-InScreen : (b : Bool) (t : Term) → InScreen t → InScreen (tcursor b t)
tcursor-InScreen true t v = tcursor_save-InScreen t v
tcursor-InScreen false t v = tcursor_load-InScreen t v

pub tswapscreen-InScreen : (t : Term) → InScreen t → InScreen (tswapscreen t)
unfolding tswapscreen
tswapscreen-InScreen t v = ground arith

pub redraw-InScreen : (t : Term) → InScreen t → InScreen (redraw t)
unfolding redraw
redraw-InScreen t v = ground arith

pub xsetmode-InScreen :
    (b : Bool) (fs : List ℕ) (t : Term) → InScreen t → InScreen (xsetmode b fs t)
unfolding xsetmode
xsetmode-InScreen b fs t v =
    if_keeps InScreen (eq_bool (modbits t.win b fs win_reverse) (t.win win_reverse)) kept
      (redraw-InScreen _ kept)
  where
    kept : InScreen (record t { win = modbits t.win b fs })
    kept = InScreen-same t _ v (same_screen t)

mouse_mode-InScreen : (m b : Bool) (f : ℕ) (t : Term) → InScreen t → InScreen (mouse_mode m b f t)
mouse_mode-InScreen m b f t v =
    xsetmode-InScreen b (f ∷ []) _
      (xsetmode-InScreen false _ _ (InScreen-same t _ v (same_screen t)))

pub tclearregion-InScreen :
    (a b c d : ℤ) (t : Term) → InScreen t → InScreen (tclearregion a b c d t)
unfolding tclearregion
tclearregion-InScreen a b c d t v = ground arith

swap_for-InScreen : (b : Bool) (t : Term) → InScreen t → InScreen (swap_for b t)
unfolding swap_for
swap_for-InScreen b t v =
    if_keeps InScreen (eq_bool b (t.mode mode_altscreen)) cleared (tswapscreen-InScreen _ cleared)
  where
    cleared : InScreen (
        if t.mode mode_altscreen
        then tclearregion (pos 0) (pos 0) (pos (t.col - 1)) (pos (t.row - 1)) t
        else t)
    cleared = if_keeps InScreen _ (tclearregion-InScreen _ _ _ _ t v) v

origin_mode-InScreen :
    (b : Bool) (t : Term)
    → InScreen t
    → InScreen (
        tmoveato
          (pos 0)
          (pos 0)
          (record t { c = record t.c { state = modbit t.c.state b cursor_origin } }))
origin_mode-InScreen b t v = tmoveato-InScreen _ _ _ (InScreen-same t _ v (same_screen t))

mode-InScreen : (f : Flags) (t : Term) → InScreen t → InScreen (record t { mode = f })
mode-InScreen f t v = InScreen-same t _ v (same_screen t)

screen_mode-InScreen : (b : Bool) (n : ℕ) (t : Term) → InScreen t → InScreen (screen_mode b n t)
unfolding screen_mode
screen_mode-InScreen b n t v =
    search (if-InScreen, tcursor-InScreen, swap_for-InScreen, xsetmode-InScreen) depth 9

private_mode-InScreen : (b : Bool) (n : ℕ) (t : Term) → InScreen t → InScreen (private_mode b n t)
unfolding private_mode
private_mode-InScreen b n t v =
    search
      (
        if-InScreen, xsetmode-InScreen, origin_mode-InScreen, mode-InScreen, mouse_mode-InScreen,
        screen_mode-InScreen,
      )
      depth 16

public_mode-InScreen : (b : Bool) (n : ℕ) (t : Term) → InScreen t → InScreen (public_mode b n t)
unfolding public_mode
public_mode-InScreen b n t v = search (if-InScreen, xsetmode-InScreen, mode-InScreen) depth 7

mode_switch-InScreen :
    (priv b : Bool) (z : ℤ) (t : Term) → InScreen t → InScreen (mode_switch priv b z t)
unfolding mode_switch
mode_switch-InScreen priv b (pos n) t v =
    if_keeps InScreen priv (private_mode-InScreen b n t v) (public_mode-InScreen b n t v)
mode_switch-InScreen priv b (negsuc n) t v = v

tsetmode_from-InScreen :
    (n i : ℕ) (priv b : Bool) (args : ℕ → ℤ) (t : Term)
    → InScreen t
    → InScreen (tsetmode_from n i priv b args t)
unfolding tsetmode_from
tsetmode_from-InScreen zero i priv b args t v = v
tsetmode_from-InScreen (suc n) i priv b args t v =
    tsetmode_from-InScreen n (i + 1) priv b args _ (mode_switch-InScreen priv b (args i) t v)

-- Setting or resetting any modes, known or not, keeps the geometry.
pub tsetmode-InScreen :
    (priv b : Bool) (args : ℕ → ℤ) (narg : ℕ) (t : Term)
    → InScreen t
    → InScreen (tsetmode priv b args narg t)
unfolding tsetmode
tsetmode-InScreen priv b args narg t v = tsetmode_from-InScreen narg 0 priv b args t v

reset_screen-InScreen : (t : Term) → Sized t → InScreen (reset_screen t)
unfolding reset_screen
reset_screen-InScreen t v =
    tswapscreen-InScreen _ (
      tclearregion-InScreen _ _ _ _ _ (tcursor_save-InScreen _ (tmoveto_lands (pos 0) (pos 0) t v)))

InScreen-Sized : {t : Term} → InScreen t → Sized t
InScreen-Sized v = ground arith

reset_state-Sized : (t : Term) → InScreen t → Sized (reset_state t)
unfolding reset_state
reset_state-Sized t v = ground arith

-- So does a reset to the initial state.
pub treset-InScreen : (t : Term) → InScreen t → InScreen (treset t)
unfolding treset
treset-InScreen t v =
    reset_screen-InScreen _
      (InScreen-Sized (reset_screen-InScreen (reset_state t) (reset_state-Sized t v)))
