-- ===== src/Vis/Change.antt =====
-- vis/text.c: revision_alloc, change_alloc, text_snapshot, text_saved, text_modified.
use suckless.Prelude.{
  ℕ, ◌+◌, ◌≡◌, refl, Bool, true, false, not, [], ◌∷◌, Option, none, some, arith, put_at,
}
use suckless.Vis.Text.{Text, Revision, null_span, same, current_changes, set_changes}

-- rev->later = r and rev->next = r
abbrev pub set_later : Option ℕ → ℕ → (ℕ → Revision) → ℕ → Revision
set_later none r revs = revs
set_later (some q) r revs = put_at revs q (record (revs q) { later = some r })

abbrev pub set_child : Option ℕ → ℕ → (ℕ → Revision) → ℕ → Revision
set_child none r revs = revs
set_child (some q) r revs = put_at revs q (record (revs q) { next = some r })

abbrev pub new_revision : Text → Revision
new_revision t = record {
  changes = [];
  next = none;
  prev = t.history;
  earlier = t.last;
  later = none;
  time = t.now;
  seq = elim t.last [ none ↦ 0 | some q ↦ (t.revs q).seq + 1 ];
}

unfoldable pub revision_alloc : Text → Text
revision_alloc t =
    let r = t.nrevs in
    record t {
      revs = set_child t.history r (set_later t.last r (put_at t.revs r (new_revision t)));
      nrevs = r + 1;
      current = some r;
      history = some r;
    }

-- The change is added with empty spans.
unfoldable pub change_alloc : ℕ → Text → Text
unfolding revision_alloc
change_alloc pos t =
    let t1 : Text = elim t.current [ none ↦ revision_alloc t | some r ↦ t ] in
    set_changes (record { old = null_span; new = null_span; pos = pos } ∷ current_changes t1) t1

unfoldable pub text_snapshot : Text → Text
text_snapshot t = record t {
  last = elim t.current [ none ↦ t.last | some r ↦ some r ];
  current = none;
  cache = none;
}

-- text_saved, but for the file's metadata.
unfoldable text_saved : Text → Text
unfolding text_snapshot
text_saved t = text_snapshot (record t { saved = t.history })

unfoldable text_modified : Text → Bool
text_modified t = not (same t.saved t.history)

same_refl : (p : Option ℕ) → same p p ≡ true
same_refl none = refl
same_refl (some p) = ground arith

-- A text that was just saved is not modified, and a snapshot of it does not modify it.
text_modified-text_saved :
    (t : Text)
    → (text_modified (text_saved t) ≡ false)
      × (text_modified (text_snapshot (text_saved t)) ≡ false)
unfolding text_modified text_saved text_snapshot
text_modified-text_saved t = rw (same_refl t.history) (refl, refl)
