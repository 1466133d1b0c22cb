-- ===== src/St/Cursor/Bounds.antt =====
-- The cursor stays on the screen and the scroll region on the rows, whatever is asked for.
use suckless.Prelude.{
  ℕ, zero, suc, ◌+◌, ◌-◌, ◌≤◌, ◌<◌, ◌≡◌, refl, Bool, true, false, arith, ltb, leb, ◌&&◌,
  if◌then◌else◌, put_at,
}
use suckless.Prelude.Int.{ℤ, limit_bounds}
use suckless.St.Term.{Term, histsize}
use suckless.St.Cursor.{set_dirty, tmoveto, tmoveato, tsetscroll}

-- The geometry that every operation relies on when it indexes the screen, the tabs and the history.
pub record InScreen (t : Term) : Type 0 where
  pub rows : 0 < t.row
  pub cols : 0 < t.col
  pub cursor_x : t.c.x < t.col
  pub cursor_y : t.c.y < t.row
  pub region : t.top ≤ t.bot
  pub region_end : t.bot < t.row
  pub history : t.histi < histsize
  pub scrolled : t.scr ≤ histsize

-- The same but for the cursor, which a tmoveto puts right.
pub record Sized (t : Term) : Type 0 where
  pub rows : 0 < t.row
  pub cols : 0 < t.col
  pub region : t.top ≤ t.bot
  pub region_end : t.bot < t.row
  pub history : t.histi < histsize
  pub scrolled : t.scr ≤ histsize

pub tmoveto_lands : (x y : ℤ) (t : Term) → Sized t → InScreen (tmoveto x y t)
unfolding tmoveto
tmoveto_lands x y t v =
    ground (
      arith,
      limit_bounds x 0 (t.col - 1),
      limit_bounds y t.top t.bot,
      limit_bounds y 0 (t.row - 1),
    )

pub set_dirty_lem :
    (n i : ℕ) (d : ℕ → Bool) (j : ℕ)
    → set_dirty n i d j ≡ (if leb i j && ltb j (i + n) then true else d j)
unfolding set_dirty
set_dirty_lem zero i d j = ground arith
set_dirty_lem (suc n) i d j = ground (arith, set_dirty_lem n (i + 1) (put_at d i true) j)

pub tmoveto-InScreen : (x y : ℤ) (t : Term) → InScreen t → InScreen (tmoveto x y t)
tmoveto-InScreen x y t v = tmoveto_lands x y t (ground arith)

pub tmoveato-InScreen : (x y : ℤ) (t : Term) → InScreen t → InScreen (tmoveato x y t)
unfolding tmoveato
tmoveato-InScreen x y t v = tmoveto-InScreen x _ t v

pub tsetscroll-InScreen : (a b : ℤ) (t : Term) → InScreen t → InScreen (tsetscroll a b t)
unfolding tsetscroll
tsetscroll-InScreen a b t v =
    ground (arith, limit_bounds a 0 (t.row - 1), limit_bounds b 0 (t.row - 1))

-- A state with the same geometry.
abbrev pub SameScreen : Term → Term → Type 0
SameScreen t u =
    (u.row ≡ t.row)
    × (u.col ≡ t.col)
    × (u.c.x ≡ t.c.x)
    × (u.c.y ≡ t.c.y)
    × (u.top ≡ t.top)
    × (u.bot ≡ t.bot)
    × (u.histi ≡ t.histi)
    × (u.scr ≡ t.scr)

pub InScreen-same : (t u : Term) → InScreen t → SameScreen t u → InScreen u
InScreen-same t u v e = ground arith

abbrev pub same_screen : (t : Term) → SameScreen t t
same_screen t = (refl, refl, refl, refl, refl, refl, refl, refl)

pub if-InScreen : (b : Bool) (t u : Term) → InScreen t → InScreen u → InScreen (if b then t else u)
if-InScreen true t u p q = p
if-InScreen false t u p q = q
