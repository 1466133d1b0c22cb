-- ===== src/St/Modes.antt =====
-- st/st.c, the modes: tcursor, tswapscreen, tsetmode, treset, and with them drawregion, draw, redraw
-- and, of st/x.c, xsetmode.
pub mod AltScreen
pub mod Keeps
use suckless.Prelude.{
  ℕ, zero, suc, ◌+◌, ◌-◌, ◌%◌, Bool, true, false, not, ◌&&◌, ◌||◌, List, [], ◌∷◌, ltb, leb, ◌==◌,
  eq_bool, if◌then◌else◌, put_at,
}
use suckless.Prelude.Int.{ℤ, pos, ◌-ℤ◌, limit}
use suckless.St.Term.{
  Term, Cursor, Glyph, Flags, Call, xdrawline, xsetpointermotion, modbit, no_flags, attr_wdummy,
  mode_wrap, mode_insert, mode_altscreen, mode_crlf, mode_echo, mode_utf8, cursor_origin, cs_usa,
  call,
}
use suckless.St.Cursor.{tfulldirt, tmoveto, tmoveato}
use suckless.St.Clear.{tclearregion}
use suckless.St.Sgr.{is_pos}

-- enum win_mode
abbrev pub win_visible : ℕ
win_visible = 0

abbrev pub win_appkeypad : ℕ
win_appkeypad = 2

abbrev pub win_mousebtn : ℕ
win_mousebtn = 3

abbrev pub win_mousemotion : ℕ
win_mousemotion = 4

abbrev pub win_reverse : ℕ
win_reverse = 5

abbrev pub win_kbdlock : ℕ
win_kbdlock = 6

abbrev pub win_hide : ℕ
win_hide = 7

abbrev pub win_appcursor : ℕ
win_appcursor = 8

abbrev pub win_mousesgr : ℕ
win_mousesgr = 9

abbrev pub win_8bit : ℕ
win_8bit = 10

abbrev pub win_focus : ℕ
win_focus = 13

abbrev pub win_mousex10 : ℕ
win_mousex10 = 14

abbrev pub win_mousemany : ℕ
win_mousemany = 15

abbrev pub win_brcktpaste : ℕ
win_brcktpaste = 16

abbrev pub win_mouse : List ℕ
win_mouse = win_mousebtn ∷ win_mousemotion ∷ win_mousex10 ∷ win_mousemany ∷ []

-- tcursor(CURSOR_SAVE) and tcursor(CURSOR_LOAD).
unfoldable pub tcursor_save : Term → Term
tcursor_save t =
    let alt = t.mode mode_altscreen in
    record t { saved = λ b. if eq_bool b alt then t.c else t.saved b }

unfoldable pub tcursor_load : Term → Term
unfolding tmoveto
tcursor_load t =
    let c = t.saved (t.mode mode_altscreen) in tmoveto (pos c.x) (pos c.y) (record t { c = c })

abbrev pub tcursor : Bool → Term → Term
tcursor save t = if save then tcursor_save t else tcursor_load t

unfoldable pub tswapscreen : Term → Term
unfolding tfulldirt
tswapscreen t = tfulldirt (record t {
  line = t.alt;
  alt = t.line;
  mode = modbit t.mode (not (t.mode mode_altscreen)) mode_altscreen;
})

-- drawregion over the n rows from row y on: the lines drawn, the latest first.
unfoldable pub drawn : ℕ → ℕ → (ℕ → Bool) → List Call → List Call
drawn zero y dirty ks = ks
drawn (suc n) y dirty ks = drawn n (y + 1) dirty (if dirty y then xdrawline y ∷ ks else ks)

-- draw; xstartdraw says whether the window is visible. The cursor and the input method's spot are
-- drawn from the state and leave it alone.
unfoldable pub draw : Term → Term
unfolding drawn
draw t =
    let dummy = (t.line t.c.y t.c.x).mode attr_wdummy in
    let cx = if dummy then pos t.c.x -ℤ pos 1 else pos t.c.x in
    let shown = t.win win_visible in
    record t {
      marks = record t.marks { dirty = λ y. if shown && ltb y t.row then false else t.dirty y };
      calls = if shown then drawn t.row 0 t.dirty t.calls else t.calls;
      ocx = if shown then cx else t.ocx;
      ocy = if shown then t.c.y else t.ocy;
    }

unfoldable pub redraw : Term → Term
unfolding tfulldirt draw
redraw t = draw (tfulldirt t)

abbrev pub modbits : Flags → Bool → List ℕ → Flags
modbits x set [] = x
modbits x set (b ∷ bs) = modbits (modbit x set b) set bs

unfoldable pub xsetmode : Bool → List ℕ → Term → Term
unfolding redraw
xsetmode set flags t =
    let t1 = record t { win = modbits t.win set flags } in
    if eq_bool (t1.win win_reverse) (t.win win_reverse) then t1 else redraw t1

-- The mouse modes: `xsetpointermotion(motion); xsetmode(0, MODE_MOUSE); xsetmode(set, flag);`
abbrev pub mouse_mode : Bool → Bool → ℕ → Term → Term
mouse_mode motion set flag t =
    xsetmode set (flag ∷ []) (xsetmode false win_mouse (call (xsetpointermotion motion) t))

-- `case 47: case 1047:` up to the test of 1049.
unfoldable pub swap_for : Bool → Term → Term
unfolding tswapscreen
swap_for set t =
    let alt = t.mode mode_altscreen in
    let t1 =
      if alt then tclearregion (pos 0) (pos 0) (pos (t.col - 1)) (pos (t.row - 1)) t else t in
    if eq_bool set alt then t1 else tswapscreen t1

-- The cases of the switch from 1049 on.
unfoldable pub screen_mode : Bool → ℕ → Term → Term
unfolding swap_for xsetmode tcursor_save tcursor_load
screen_mode set n t =
    if n == 1049
    then (if t.allowaltscreen then tcursor set (swap_for set (tcursor set t)) else t)
    else if n == 47 || n == 1047
    then (if t.allowaltscreen then swap_for set t else t)
    else if n == 1048
    then tcursor set t
    else if n == 2004
    then xsetmode set (win_brcktpaste ∷ []) t
    else t

-- The switch for `priv`.
unfoldable pub private_mode : Bool → ℕ → Term → Term
unfolding screen_mode xsetmode tmoveato
private_mode set n t =
    if n == 1
    then xsetmode set (win_appcursor ∷ []) t
    else if n == 5
    then xsetmode set (win_reverse ∷ []) t
    else if n == 6
    then tmoveato (pos 0) (pos 0)
        (record t { c = record t.c { state = modbit t.c.state set cursor_origin } })
    else if n == 7
    then record t { mode = modbit t.mode set mode_wrap }
    else if n == 25
    then xsetmode (not set) (win_hide ∷ []) t
    else if n == 9
    then mouse_mode false set win_mousex10 t
    else if n == 1000
    then mouse_mode false set win_mousebtn t
    else if n == 1002
    then mouse_mode false set win_mousemotion t
    else if n == 1003
    then mouse_mode set set win_mousemany t
    else if n == 1004
    then xsetmode set (win_focus ∷ []) t
    else if n == 1006
    then xsetmode set (win_mousesgr ∷ []) t
    else if n == 1034
    then xsetmode set (win_8bit ∷ []) t
    else screen_mode set n t

-- The switch for a public mode.
unfoldable pub public_mode : Bool → ℕ → Term → Term
unfolding xsetmode
public_mode set n t =
    if n == 2
    then xsetmode set (win_kbdlock ∷ []) t
    else if n == 4
    then record t { mode = modbit t.mode set mode_insert }
    else if n == 12
    then record t { mode = modbit t.mode (not set) mode_echo }
    else if n == 20
    then record t { mode = modbit t.mode set mode_crlf }
    else t

unfoldable pub mode_switch : Bool → Bool → ℤ → Term → Term
mode_switch priv set (pos n) t = if priv then private_mode set n t else public_mode set n t
mode_switch priv set (ℤ.negsuc n) t = t

-- The loop over args[i .. i + n).
unfoldable pub tsetmode_from : ℕ → ℕ → Bool → Bool → (ℕ → ℤ) → Term → Term
tsetmode_from zero i priv set args t = t
tsetmode_from (suc n) i priv set args t =
    tsetmode_from n (i + 1) priv set args (mode_switch priv set (args i) t)

unfoldable pub tsetmode : Bool → Bool → (ℕ → ℤ) → ℕ → Term → Term
tsetmode priv set args narg t = tsetmode_from narg 0 priv set args t

-- One round of the last loop of treset.
unfoldable pub reset_screen : Term → Term
unfolding tmoveto tcursor_save tswapscreen
reset_screen t = tswapscreen (
    tclearregion (pos 0) (pos 0) (pos (t.col - 1)) (pos (t.row - 1))
      (tcursor_save (tmoveto (pos 0) (pos 0) t)))

-- treset up to its last loop. The two loops over `tabs` leave 1 at the multiples of tabspaces below
-- col, but not at 0.
unfoldable pub reset_state : Term → Term
reset_state t = record t {
  c = record {
    attr = record { u = 0; mode = no_flags; fg = t.defaultfg; bg = t.defaultbg };
    x = 0;
    y = 0;
    state = no_flags;
  };
  tabs = λ i. if ltb i t.col then not (i == 0) && i % t.tabspaces == 0 else t.tabs i;
  top = 0;
  bot = t.row - 1;
  mode = λ b. b == mode_wrap || b == mode_utf8;
  trantbl = λ i. if ltb i 4 then cs_usa else t.trantbl i;
  charset = 0;
}

unfoldable pub treset : Term → Term
unfolding reset_screen reset_state
treset t = reset_screen (reset_screen (reset_state t))
