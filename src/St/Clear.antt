-- ===== src/St/Clear.antt =====
-- st/st.c, tclearregion.
pub mod Region
use suckless.Prelude.{ℕ, zero, suc, ◌+◌, ◌-◌, Bool, true, false, if◌then◌else◌, put_at, put_at₂}
use suckless.Prelude.Int.{ℤ, pos, min_ℤ, max_ℤ, min_ℤ-le-max_ℤ, limit_mono, limit}
use suckless.St.Term.{Term, Marks, Line, Glyph, no_flags}
use suckless.St.Cursor.{set_dirty}
use suckless.St.Select.{selected, selclear_marks}

-- What a cleared cell holds: a space in the colours of the cursor.
abbrev pub blank : Term → Glyph
blank t = record { u = b' '; mode = no_flags; fg = t.c.attr.fg; bg = t.c.attr.bg }

-- `if (selected(x, y)) selclear();`
unfoldable pub unselect : Term → ℕ → ℕ → Marks → Marks
unselect t x y m =
    let t' = record t { marks = m } in if selected t' (pos x) (pos y) then selclear_marks t' else m

-- The inner loop, n cells of row y from column x on, and the outer one, n rows from row y on of w
-- cells from column x on.
unfoldable pub clear_cells : ℕ → Term → ℕ → ℕ → Marks × (ℕ → Line) → Marks × (ℕ → Line)
clear_cells zero t y x s = s
clear_cells (suc n) t y x (m, l) =
    clear_cells n t y (x + 1) (unselect t x y m, put_at₂ l y x (blank t))

unfoldable pub clear_rows : ℕ → Term → ℕ → ℕ → ℕ → Marks × (ℕ → Line) → Marks × (ℕ → Line)
clear_rows zero t y x w s = s
clear_rows (suc n) t y x w (m, l) =
    clear_rows n t (y + 1) x w (clear_cells w t y x (record m { dirty = put_at m.dirty y true }, l))

unfoldable pub tclearregion : ℤ → ℤ → ℤ → ℤ → Term → Term
tclearregion x1 y1 x2 y2 t =
    let x1' = limit (min_ℤ x1 x2) 0 (t.col - 1) in
    let x2' = limit (max_ℤ x1 x2) 0 (t.col - 1) in
    let y1' = limit (min_ℤ y1 y2) 0 (t.row - 1) in
    let y2' = limit (max_ℤ y1 y2) 0 (t.row - 1) in
    let s = clear_rows (suc y2' - y1') t y1' x1' (suc x2' - x1') (t.marks, t.line) in
    record t { marks = s.0; line = s.1 }
