-- ===== src/St/Scroll/Frame.antt =====
-- Scrolling keeps the geometry of the screen.
use suckless.Prelude.{
  if_keeps, ℕ, ◌≤◌, ◌≡◌, refl, Bool, true, false, arith, ltb, ◌==◌, if◌then◌else◌,
}
use suckless.Prelude.Int.{ℤ, pos, pos_part, ◌+ℤ◌, ◌-ℤ◌, ltb_ℤ, leb_ℤ}
use suckless.St.Term.{Term, histsize}
use suckless.St.Cursor.Bounds.{InScreen, tmoveto-InScreen}
use suckless.St.Clear.{tclearregion}
use suckless.St.Scroll.{
  tscrollup, tscrolldown, tnewline, tinsertblankline, tdeleteline, kscrollup, kscrolldown,
}

pub tscrollup-InScreen :
    (orig : ℕ) (n : ℤ) (h : Bool) (t : Term) → InScreen t → InScreen (tscrollup orig n h t)
unfolding tscrollup tclearregion
tscrollup-InScreen orig n h t v = ground arith

pub tscrolldown-InScreen :
    (orig : ℕ) (n : ℤ) (h : Bool) (t : Term) → InScreen t → InScreen (tscrolldown orig n h t)
unfolding tscrolldown tclearregion
tscrolldown-InScreen orig n h t v = ground arith

-- A line feed keeps the cursor on the screen, with or without a scroll.
pub tnewline-InScreen : (first : Bool) (t : Term) → InScreen t → InScreen (tnewline first t)
unfolding tnewline
tnewline-InScreen first t v =
    tmoveto-InScreen _ _ _
      (if_keeps InScreen (t.c.y == t.bot) (tscrollup-InScreen t.top (pos 1) true t v) v)

pub tinsertblankline-InScreen : (n : ℤ) (t : Term) → InScreen t → InScreen (tinsertblankline n t)
unfolding tinsertblankline
tinsertblankline-InScreen n t v = if_keeps InScreen _ (tscrolldown-InScreen t.c.y n false t v) v

pub tdeleteline-InScreen : (n : ℤ) (t : Term) → InScreen t → InScreen (tdeleteline n t)
unfolding tdeleteline
tdeleteline-InScreen n t v = if_keeps InScreen _ (tscrollup-InScreen t.c.y n false t v) v

rescrolled :
    (t u : Term)
    → InScreen t
    → (u.row ≡ t.row)
      × (u.col ≡ t.col)
      × (u.c ≡ t.c)
      × (u.top ≡ t.top)
      × (u.bot ≡ t.bot)
      × (u.histi ≡ t.histi)
    → u.scr ≤ histsize
    → InScreen u
rescrolled t u v e h = ground arith

abbrev from_top : ℕ → ℕ → ℤ
from_top row n = if ltb_ℤ (pos n) (pos 0) then pos row +ℤ pos n else pos n

scrolled_back :
    (row s n : ℕ)
    → s ≤ histsize
    → pos_part (pos s -ℤ (if ltb_ℤ (pos s) (from_top row n) then pos s else from_top row n))
      ≤ histsize
scrolled_back row s n h = ground arith

scrolled_on :
    (row s n : ℕ)
    → leb_ℤ (pos s) (pos histsize -ℤ from_top row n) ≡ true
    → pos_part (pos s +ℤ from_top row n) ≤ histsize
scrolled_on row s n h = ground arith

pub kscrolldown-InScreen : (n : ℕ) (t : Term) → InScreen t → InScreen (kscrolldown (pos n) t)
unfolding kscrolldown
kscrolldown-InScreen n t v =
    if_keeps InScreen (ltb 0 t.scr)
      (rescrolled t _ v (refl, refl, refl, refl, refl, refl)
        (scrolled_back t.row t.scr n v.scrolled))
      v

if_kept {ℓ κ} :
    {A : Type ℓ} (P : A → Type κ) (b : Bool) {x y : A}
    → (b ≡ true → P x)
    → P y
    → P (if b then x else y)
if_kept P true p q = p refl
if_kept P false p q = q

kscrollup-InScreen : (n : ℕ) (t : Term) → InScreen t → InScreen (kscrollup (pos n) t)
unfolding kscrollup
kscrollup-InScreen n t v =
    if_kept InScreen (leb_ℤ (pos t.scr) (pos histsize -ℤ from_top t.row n))
      (λ fits.
        rescrolled t _ v (refl, refl, refl, refl, refl, refl) (scrolled_on t.row t.scr n fits))
      v
