-- ===== src/Vis/Undo.antt =====
-- vis/text.c: undo and redo, and the ways through the history. A position that is EPOS is `none`.
use suckless.Prelude.{ℕ, ◌+◌, ◌-◌, true, List, [], ◌∷◌, Option, none, some}
use mathlib.Core.List.{reverse}
use suckless.Vis.Text.{Text, Change, span_swap}
use suckless.Vis.Change.{text_snapshot}
use suckless.Vis.Edit.{invalid_lines}

-- The loops of revision_undo and revision_redo; `pos` is the position so far.
unfoldable pub undo_changes : List Change → Option ℕ → Text → Option ℕ × Text
undo_changes [] pos t = (pos, t)
undo_changes (c ∷ cs) pos t = undo_changes cs (some c.pos) (span_swap c.new c.old t)

unfoldable pub redo_changes : List Change → Option ℕ → Text → Option ℕ × Text
redo_changes [] pos t = (pos, t)
redo_changes (c ∷ cs) pos t =
    redo_changes cs (some (c.pos + (c.new.len - c.old.len))) (span_swap c.old c.new t)

unfoldable pub revision_undo : ℕ → Text → Option ℕ × Text
unfolding undo_changes
revision_undo r t = undo_changes (t.revs r).changes none t

unfoldable pub revision_redo : ℕ → Text → Option ℕ × Text
unfolding redo_changes
revision_redo r t = redo_changes (reverse (t.revs r).changes) none t

abbrev pub arrive : ℕ → Option ℕ × Text → Option ℕ × Text
arrive r (pos, t) = (pos, record t { history = some r; lines = invalid_lines })

-- The rest of text_undo, at txt->history and then at its prev.
unfoldable pub undo_to : ℕ → Option ℕ → Text → Option ℕ × Text
unfolding revision_undo
undo_to h none t = (none, t)
undo_to h (some r) t = arrive r (revision_undo h t)

unfoldable pub undo_at : Option ℕ → Text → Option ℕ × Text
unfolding undo_to
undo_at none t = (none, record t { fault = true })
undo_at (some h) t = undo_to h (t.revs h).prev t

unfoldable pub text_undo : Text → Option ℕ × Text
unfolding text_snapshot undo_at
text_undo t = undo_at (text_snapshot t).history (text_snapshot t)

unfoldable pub redo_to : Option ℕ → Text → Option ℕ × Text
unfolding revision_redo
redo_to none t = (none, t)
redo_to (some r) t = arrive r (revision_redo r t)

unfoldable pub redo_at : Option ℕ → Text → Option ℕ × Text
unfolding redo_to
redo_at none t = (none, record t { fault = true })
redo_at (some h) t = redo_to (t.revs h).next t

unfoldable pub text_redo : Text → Option ℕ × Text
unfolding text_snapshot redo_at
text_redo t = redo_at (text_snapshot t).history (text_snapshot t)
