-- ===== src/St/Cursor.antt =====
-- st/st.c, the dirty flags and the cursor: tsetdirt, tfulldirt, tattrset, tsetdirtattr, tmoveto,
-- tmoveato, tsetscroll.
pub mod Bounds
pub mod Fields
use suckless.Prelude.{ℕ, zero, suc, ◌+◌, ◌-◌, Bool, true, false, List, ltb, if◌then◌else◌, put_at}
use suckless.Prelude.Int.{ℤ, pos, ◌+ℤ◌, wrap_int, limit}
use suckless.St.Term.{Term, Flags, modbit, cursor_wrapnext, cursor_origin}

-- The loop of tsetdirt: n rows from row i on.
unfoldable pub set_dirty : ℕ → ℕ → (ℕ → Bool) → ℕ → Bool
set_dirty zero i d = d
set_dirty (suc n) i d = set_dirty n (i + 1) (put_at d i true)

-- `dirty` after tsetdirt.
unfoldable pub dirtied : Term → ℤ → ℤ → (ℕ → Bool) → ℕ → Bool
dirtied t top bot d =
    let top' = limit top 0 (t.row - 1) in
    let bot' = limit bot 0 (t.row - 1) in set_dirty (suc bot' - top') top' d

unfoldable pub tsetdirt : ℤ → ℤ → Term → Term
unfolding dirtied
tsetdirt top bot t = record t { marks = record t.marks { dirty = dirtied t top bot t.dirty } }

unfoldable pub tfulldirt : Term → Term
unfolding tsetdirt
tfulldirt t = tsetdirt (pos 0) (pos (t.row - 1)) t

-- The loops over i and j, from i on with n rounds left, that stop at the first hit.
unfoldable any_from : ℕ → ℕ → (ℕ → Bool) → Bool
any_from zero i p = false
any_from (suc n) i p = let rest = any_from n (i + 1) p in if p i then true else rest

-- Whether a cell of the row i has the attribute, the last column aside.
unfoldable row_has : ℕ → ℕ → Term → Bool
unfolding any_from
row_has attr i t = any_from (t.col - 1) 0 (λ j. (t.line i j).mode attr)

-- attr is a mask of one bit, here its number.
unfoldable pub tattrset : ℕ → Term → Bool
unfolding row_has
tattrset attr t = any_from (t.row - 1) 0 (λ i. row_has attr i t)

unfoldable tsetdirtattr_from : ℕ → ℕ → ℕ → Term → Term
unfolding row_has tsetdirt
tsetdirtattr_from zero i attr t = t
tsetdirtattr_from (suc n) i attr t =
    tsetdirtattr_from n (i + 1) attr (if row_has attr i t then tsetdirt (pos i) (pos i) t else t)

unfoldable pub tsetdirtattr : ℕ → Term → Term
unfolding tsetdirtattr_from
tsetdirtattr attr t = tsetdirtattr_from (t.row - 1) 0 attr t

unfoldable pub tmoveto : ℤ → ℤ → Term → Term
tmoveto x y t =
    let origin = t.c.state cursor_origin in
    let miny : ℕ = if origin then t.top else 0 in
    let maxy = if origin then t.bot else t.row - 1 in
    record t {
      c = record t.c {
        state = modbit t.c.state false cursor_wrapnext;
        x = limit x 0 (t.col - 1);
        y = limit y miny maxy;
      };
    }

-- For absolute user moves, when decom is set.
unfoldable pub tmoveato : ℤ → ℤ → Term → Term
unfolding tmoveto
tmoveato x y t = tmoveto x (wrap_int (y +ℤ pos (if t.c.state cursor_origin then t.top else 0))) t

unfoldable pub tsetscroll : ℤ → ℤ → Term → Term
tsetscroll t b s =
    let t' = limit t 0 (s.row - 1) in
    let b' = limit b 0 (s.row - 1) in
    if ltb b' t' then record s { top = b'; bot = t' } else record s { top = t'; bot = b' }
