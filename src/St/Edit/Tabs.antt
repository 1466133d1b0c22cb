-- ===== src/St/Edit/Tabs.antt =====
-- Horizontal tabulation: where tputtab leaves the cursor.
use suckless.Prelude.{
  ℕ, zero, suc, ◌+◌, ◌-◌, ◌≤◌, ◌<◌, ◌≡◌, ◌⊎◌, Bool, true, false, arith, ltb, ◌==◌, Bool-cases,
  if◌then◌else◌,
}
use suckless.Prelude.Int.{ℤ, pos, negsuc, limit, limit_bounds}
use suckless.St.Term.{Term}
use suckless.St.Cursor.Bounds.{InScreen}
use suckless.St.Edit.{skip_right, tab_right, tab_left, tputtab}

pub tputtab-InScreen : (n : ℤ) (t : Term) → InScreen t → InScreen (tputtab n t)
unfolding tputtab
tputtab-InScreen (pos n) t v =
    ground (arith, limit_bounds (pos (tab_right t.tabs t.col n t.c.x)) 0 (t.col - 1))
tputtab-InScreen (negsuc n) t v =
    ground (arith, limit_bounds (pos (tab_left t.tabs (suc n) t.c.x)) 0 (t.col - 1))

skip_right_bounds :
    (tabs : ℕ → Bool) (k x : ℕ) → (x ≤ skip_right tabs k x) × (skip_right tabs k x ≤ x + k)
unfolding skip_right
skip_right_bounds tabs zero x = omega arith
skip_right_bounds tabs (suc k) x = ground (arith, skip_right_bounds tabs k (x + 1))

skip_right_none : (tabs : ℕ → Bool) (k x j : ℕ) → x ≤ j → j < skip_right tabs k x → tabs j ≡ false
unfolding skip_right
skip_right_none tabs zero x j lo hi = absurd (omega arith)
skip_right_none tabs (suc k) x j lo hi =
    ground (
      arith,
      skip_right_none tabs k (x + 1) j,
      Bool-cases (j == x),
      skip_right_bounds tabs k (x + 1),
    )

skip_right_stop :
    (tabs : ℕ → Bool) (k x : ℕ) → skip_right tabs k x < x + k → tabs (skip_right tabs k x) ≡ true
unfolding skip_right
skip_right_stop tabs zero x h = absurd (omega arith)
skip_right_stop tabs (suc k) x h = ground (arith, skip_right_stop tabs k (x + 1))

-- What HT promises: x' is the first tab stop right of x, or the margin if there is none.
pub record IsNextTab (t : Term) (x' : ℕ) : Type 0 where
  pub forward : t.c.x ≤ x'
  pub on_screen : x' < t.col
  pub skipped : (j : ℕ) → t.c.x < j → j < x' → t.tabs j ≡ false
  pub stop : (x' ≡ t.col - 1) ⊎ ((t.c.x < x') × (t.tabs x' ≡ true))

landing : (t : Term) → ℕ
landing t = skip_right t.tabs (t.col - (t.c.x + 1)) (t.c.x + 1)

tputtab_one :
    (t : Term)
    → InScreen t
    → (tputtab (pos 1) t).c.x ≡ (if ltb (landing t) t.col then landing t else t.col - 1)
unfolding tputtab tab_right landing limit
tputtab_one t v = ground arith

-- A tab goes to the next stop.
pub tputtab-IsNextTab : (t : Term) → InScreen t → IsNextTab t (tputtab (pos 1) t).c.x
unfolding landing
tputtab-IsNextTab t v = rw (tputtab_one t v) (record {
  forward = ground (arith, bounds);
  on_screen = ground (arith, bounds);
  skipped =
      λ j lo hi. skip_right_none t.tabs k (t.c.x + 1) j (omega arith) (ground (arith, bounds));
  stop = ground (arith, bounds, skip_right_stop t.tabs k (t.c.x + 1));
})
  where
    k : ℕ
    k = t.col - (t.c.x + 1)

    bounds : (t.c.x + 1 ≤ landing t) × (landing t ≤ t.c.x + 1 + k)
    bounds = skip_right_bounds t.tabs k (t.c.x + 1)
