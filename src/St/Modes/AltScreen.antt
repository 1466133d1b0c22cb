-- ===== src/St/Modes/AltScreen.antt =====
-- st/st.c, tsetmode: the alternate screen and the saved cursor.
use suckless.Prelude.{ℕ, ◌-◌, ◌≤◌, ◌≡◌, refl, true, false, arith}
use suckless.Prelude.Int.{pos, limit}
use suckless.St.Term.{Term, Line, Cursor, mode_altscreen, cursor_origin}
use suckless.St.Cursor.{tmoveto, tfulldirt}
use suckless.St.Cursor.Bounds.{InScreen}
use suckless.St.Clear.{tclearregion}
use suckless.St.Modes.{tcursor_save, tcursor_load, tswapscreen, swap_for, screen_mode}

-- Mode 1049 set on the main screen.
enter :
    (t : Term)
    → t.allowaltscreen ≡ true
    → t.mode mode_altscreen ≡ false
    → let u = screen_mode true 1049 t in
      (u.alt ≡ t.line)
      × (u.mode mode_altscreen ≡ true)
      × (u.saved false ≡ t.c)
      × (u.row ≡ t.row)
      × (u.col ≡ t.col)
      × (u.config ≡ t.config)
unfolding screen_mode swap_for tswapscreen tfulldirt tcursor_save
enter t ha hm = simp (ha, hm) (refl, refl, refl, refl, refl, refl)

limit_kept : (n h : ℕ) → n ≤ h → limit (pos n) 0 h ≡ n
unfolding limit
limit_kept n h k = ground arith

-- Mode 1049 reset on the alternate screen.
leave :
    (t : Term)
    → t.allowaltscreen ≡ true
    → t.mode mode_altscreen ≡ true
    → (t.saved false).state cursor_origin ≡ false
    → let u = screen_mode false 1049 t in
      (u.line ≡ t.alt)
      × (u.mode mode_altscreen ≡ false)
      × (u.c.x ≡ limit (pos (t.saved false).x) 0 (t.col - 1))
      × (u.c.y ≡ limit (pos (t.saved false).y) 0 (t.row - 1))
      × (u.c.attr ≡ (t.saved false).attr)
unfolding screen_mode swap_for tswapscreen tfulldirt tclearregion tcursor_load tmoveto
leave t ha hm ho = simp (ha, hm, ho) (refl, refl, refl, refl, refl)

-- The main screen survives a visit to the alternate screen: mode 1049 set, the lines of the alternate screen and the
-- cursor changed at will, mode 1049 reset. Then the lines are those from before, the main screen is
-- current, and the cursor is where it was when it was saved.
pub screen_mode-returns :
    (l : ℕ → Line) (c : Cursor) (t : Term)
    → InScreen t
    → t.allowaltscreen ≡ true
    → t.mode mode_altscreen ≡ false
    → t.c.state cursor_origin ≡ false
    → let u = screen_mode false 1049 (record (screen_mode true 1049 t) { line = l; c = c }) in
      (u.line ≡ t.line)
      × (u.mode mode_altscreen ≡ false)
      × (u.c.x ≡ t.c.x)
      × (u.c.y ≡ t.c.y)
      × (u.c.attr ≡ t.c.attr)
screen_mode-returns l c t v ha hm ho = ground (
  arith,
  enter t ha hm,
  leave (record (screen_mode true 1049 t) { line = l; c = c }),
  limit_kept t.c.x (t.col - 1),
  limit_kept t.c.y (t.row - 1),
)
