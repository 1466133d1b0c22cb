-- ===== src/Vis/Redone.antt =====
-- vis/text.c: text_redo after an edit and its undo.
use suckless.Prelude.{
  ℕ, ◌+◌, ◌-◌, ◌≤◌, ◌<◌, ◌^◌, ◌≡◌, inl, inr, refl, sym, ap, subst, ◌∙◌, List, [], ◌∷◌, Option, none,
  some, arith, length, put_at, true,
}
use mathlib.Core.List.{reverse}
use suckless.Vis.Text.{Text, Change, Revision, current_changes, set_changes, span_swap}
use suckless.Vis.Change.{
  change_alloc, revision_alloc, set_later, set_child, new_revision, text_snapshot,
}
use suckless.Vis.Edit.{invalidate_from, invalid_lines, text_insert, text_delete}
use suckless.Vis.Undo.{arrive, redo_at, redo_to, redo_changes, revision_redo, text_redo, text_undo}
use suckless.Vis.Frame.{IsText-beside, content-beside, beside, put_at_here}
use suckless.Vis.Store.{same_or_apart}
use suckless.Vis.Swap.{apart}
use suckless.Vis.Edited.{IsEditedAs, inserted}
use suckless.Vis.Notes.{invalidate_from_notes, IsNoted, edited-IsNoted}
use suckless.Vis.Undone.{
  Holds, Holds-size, edited-Holds, text_undo-edited, undone_notes, change_of, text_insert_edit,
  stored_text-IsNoted, allocated-IsNoted,
}
use suckless.Vis.Deletion.{text_delete_edit}
use suckless.Vis.Inserted.{allocated, stored_text}
use suckless.Vis.Cut.{deleted}
use suckless.Vis.Store.{block_store-IsStored}

-- The revision r is the child of the revision h.
abbrev Child : Text → ℕ → ℕ → Type 0
Child t h r = (t.revs h).next ≡ some r

put_next :
    (revs : ℕ → Revision) (q i : ℕ) (v : Revision)
    → v.next ≡ (revs q).next
    → (put_at revs q v i).next ≡ (revs i).next
put_next revs q i v h = elim (same_or_apart i q) [
  | inl e ↦
      subst (λ j. (put_at revs q v j).next ≡ (revs j).next) (sym e)
        (ap (λ r. r.next) (put_at_here revs q v) ∙ h)
  | inr n ↦ rw (apart q i (λ e. n (sym e))) refl
]

set_at_next :
    (ds : List Change) (t : Text) (h r : ℕ) (c : Option ℕ)
    → Child t h r
    → Child
        (elim c [
          | none ↦ record t { fault = true }
          | some q ↦ record t { revs = put_at t.revs q (record (t.revs q) { changes = ds }) }
        ])
        h
        r
set_at_next ds t h r none k = k
set_at_next ds t h r (some q) k = put_next t.revs q h (record (t.revs q) { changes = ds }) refl ∙ k

set_changes-Child :
    (ds : List Change) (t : Text) (h r : ℕ) → Child t h r → Child (set_changes ds t) h r
set_changes-Child ds t h r k = set_at_next ds t h r t.current k

alloc_child :
    (t : Text) (h : ℕ) (hist cur : Option ℕ)
    → hist ≡ some h
    → (set_child hist t.nrevs
        (set_later t.last t.nrevs (put_at t.revs t.nrevs (new_revision t)))
        h).next
      ≡ some t.nrevs
alloc_child t h hist cur e =
    ap
      (λ o.
        (set_child o t.nrevs (set_later t.last t.nrevs (put_at t.revs t.nrevs (new_revision t)))
          h).next)
      e
    ∙ ap (λ r. r.next)
        (put_at_here (set_later t.last t.nrevs (put_at t.revs t.nrevs (new_revision t))) h _)

revision-Child :
    (t : Text) (h : ℕ) (c : Option ℕ)
    → c ≡ none
    → t.history ≡ some h
    → Child (elim c [ none ↦ revision_alloc t | some r ↦ t ]) h t.nrevs
unfolding revision_alloc
revision-Child t h c e k = rw e (alloc_child t h t.history none k)

change_alloc-Child :
    (pos : ℕ) (t : Text) (h : ℕ)
    → t.current ≡ none
    → t.history ≡ some h
    → Child (change_alloc pos t) h t.nrevs
unfolding change_alloc
change_alloc-Child pos t h e k =
    let t1 : Text = elim t.current [ none ↦ revision_alloc t | some r ↦ t ] in
    set_changes-Child (change_of pos ∷ current_changes t1) t1 h t.nrevs
      (revision-Child t h t.current e k)

edited-Child :
    {H : Type 0} (t u : Text) (l bytes : List ℕ) (e : IsEditedAs H t u l bytes) (h r : ℕ)
    → Child t h r
    → Child u h r
edited-Child t u l bytes e h r k =
    let base : Child e.base h r = ap (λ f. (f h).next) e.base_notes.0 ∙ k in
    let swap = e.result ∙ e.swapped.only_links in
    ap (λ v. (v.revs h).next) swap
    ∙ (ap (λ v. (v.revs h).next) e.notes ∙ set_changes-Child _ e.base h r base)

-- One redo of a revision with one change.
redo_step :
    (u : Text) (r h : ℕ) (c : Change)
    → u.history ≡ some h
    → Child u h r
    → (u.revs r).changes ≡ c ∷ []
    → text_redo u
      ≡ arrive r (some (c.pos + (c.new.len - c.old.len)), span_swap c.old c.new (text_snapshot u))
unfolding text_redo redo_at redo_to text_snapshot revision_redo redo_changes
redo_step u r h c n k cs =
    ap (λ o. redo_at o (text_snapshot u)) n
    ∙ (ap (λ o. redo_to o (text_snapshot u)) k
        ∙ ap (λ cs. arrive r (redo_changes (reverse cs) none (text_snapshot u))) cs)

-- After an edit that is the only change of its revision, text_undo and then text_redo give the edit back.
edited-text_redo :
    {H : Type 0} (t u : Text) (l bytes : List ℕ) (e : IsEditedAs H t u l bytes) (r h : ℕ)
    (c : Change)
    → IsNoted t r (some h) (c ∷ [])
    → Child t h r
    → ((text_redo (text_undo u).1).0 ≡ some (c.pos + (e.new.len - e.old.len)))
      × Holds (text_redo (text_undo u).1).1 bytes
unfolding text_snapshot
edited-text_redo t u l bytes e r h c n k =
    let made = record c { old = e.old; new = e.new } in
    let w = undone_notes h u in
    let undone = beside w e.recorded in
    let noted = edited-IsNoted t u l bytes e r (some h) c [] n in
    let step = redo_step undone r h made refl (edited-Child t u l bytes e h r k) noted.changes in
    let swap =
      e.swapped.moves (text_snapshot undone) ∙ ap (beside (text_snapshot undone)) (sym e.result) in
    let held = edited-Holds t u l bytes e in
    let x = record (text_snapshot undone) { history = some r; lines = invalid_lines } in
    subst (λ p. (p.0 ≡ some (c.pos + (e.new.len - e.old.len))) × Holds p.1 bytes)
      (sym (
        ap (λ p. text_redo p.1) (text_undo-edited t u l bytes e r h c n)
        ∙ (step ∙ ap (λ v. arrive r (some (c.pos + (e.new.len - e.old.len)), v)) swap)))
      (
        refl,
        record {
          chain = held.chain;
          text = IsText-beside x u held.chain held.text;
          bytes = content-beside x u held.chain ∙ held.bytes;
        },
      )

allocated-Child :
    (t : Text) (l : List ℕ) (pos h : ℕ) (cs : List ℕ)
    → t.current ≡ none
    → t.history ≡ some h
    → Child (allocated t l pos cs) h (invalidate_from pos t).nrevs
allocated-Child t l pos h cs e k =
    let notes = invalidate_from_notes pos t in
    change_alloc-Child pos (invalidate_from pos t) h (ap (λ u. u.current) notes ∙ e)
      (ap (λ u. u.history) notes ∙ k)

stored_text-Child :
    (t : Text) (l : List ℕ) (pos h : ℕ) (cs : List ℕ)
    → t.current ≡ none
    → t.history ≡ some h
    → Child (stored_text t l pos cs) h (invalidate_from pos t).nrevs
stored_text-Child t l pos h cs e k =
    ap (λ u. (u.revs h).next) (block_store-IsStored cs (allocated t l pos cs)).only_blocks
    ∙ allocated-Child t l pos h cs e k

-- On a text that holds the bytes c, with an empty cache, no current revision and a history at some
-- revision, text_insert of at least one byte, text_undo and then text_redo leave a text that holds
-- c with the data put in.
pub text_redo-text_insert :
    (t : Text) (c : List ℕ) (pos h : ℕ) (cs : List ℕ)
    → Holds t c
    → pos ≤ length c
    → 0 < length cs
    → t.cache ≡ none
    → t.current ≡ none
    → t.history ≡ some h
    → Holds (text_redo (text_undo (text_insert pos cs t).1).1).1 (inserted c pos cs)
text_redo-text_insert t c pos h cs v p n e k g =
    let (done, edit) =
      text_insert_edit t v.chain pos cs v.text (omega (arith, p, Holds-size t c v)) n e in
    let redone =
      edited-text_redo (stored_text t v.chain pos cs) (text_insert pos cs t).1 v.chain _ edit
        (invalidate_from pos t).nrevs h (change_of pos) (stored_text-IsNoted t v.chain pos h cs k g)
        (stored_text-Child t v.chain pos h cs k g) in
    subst (λ b. Holds (text_redo (text_undo (text_insert pos cs t).1).1).1 (inserted b pos cs))
      v.bytes redone.1

-- On a text that holds the bytes c, fewer than 2 ^ 64, with an empty cache, no current revision and
-- a history at some revision, text_delete of at least one byte within c, text_undo and then
-- text_redo leave a text that holds c without the range.
pub text_redo-text_delete :
    (t : Text) (c : List ℕ) (pos len h : ℕ)
    → Holds t c
    → pos + len ≤ length c
    → length c < 2 ^ 64
    → 0 < len
    → t.cache ≡ none
    → t.current ≡ none
    → t.history ≡ some h
    → Holds (text_redo (text_undo (text_delete pos len t).1).1).1 (deleted c pos len)
text_redo-text_delete t c pos len h v p o n e k g =
    let (done, edit) =
      text_delete_edit t v.chain pos len v.text (omega (arith, p, Holds-size t c v))
        (omega (arith, o, Holds-size t c v)) n e in
    let redone =
      edited-text_redo (allocated t v.chain pos []) (text_delete pos len t).1 v.chain _ edit
        (invalidate_from pos t).nrevs h (change_of pos) (allocated-IsNoted t v.chain pos h [] k g)
        (allocated-Child t v.chain pos h [] k g) in
    subst (λ b. Holds (text_redo (text_undo (text_delete pos len t).1).1).1 (deleted b pos len))
      v.bytes redone.1
