-- ===== src/Vis/Notes.antt =====
-- vis/text.c: the revision that an edit leaves behind for undo.
use suckless.Prelude.{
  ℕ, ◌≡◌, inl, inr, refl, sym, ap, subst, ◌∙◌, Bool, true, false, ltb, if◌then◌else◌, List, [], ◌∷◌,
  Option, none, some, put_at,
}
use suckless.Vis.Text.{Text, Change, Revision, null_span, current_changes, set_changes}
use suckless.Vis.Change.{change_alloc, revision_alloc, set_later, set_child, new_revision}
use suckless.Vis.Edit.{invalidate_from, invalid_lines, set_spans, put_spans}
use suckless.Vis.Frame.{put_at_here}
use suckless.Vis.Store.{same_or_apart}
use suckless.Vis.Edited.{IsEditedAs}
use suckless.Vis.Swap.{apart}

-- What undo reads of a revision.
abbrev pub Keeps : Revision → Revision → Type 0
Keeps a b = (b.changes ≡ a.changes) × (b.prev ≡ a.prev)

put-Keeps :
    (revs : ℕ → Revision) (q i : ℕ) (v : Revision)
    → Keeps (revs q) v
    → Keeps (revs i) (put_at revs q v i)
put-Keeps revs q i v h = elim (same_or_apart i q) [
  | inl e ↦
      subst (λ j. Keeps (revs j) (put_at revs q v j)) (sym e)
        (subst (Keeps (revs q)) (sym (put_at_here revs q v)) h)
  | inr n ↦ rw (apart q i (λ e. n (sym e))) (refl, refl)
]

pub set_later-Keeps :
    (q : Option ℕ) (r : ℕ) (revs : ℕ → Revision) (i : ℕ) → Keeps (revs i) (set_later q r revs i)
set_later-Keeps none r revs i = (refl, refl)
set_later-Keeps (some q) r revs i =
    put-Keeps revs q i (record (revs q) { later = some r }) (refl, refl)

pub set_child-Keeps :
    (q : Option ℕ) (r : ℕ) (revs : ℕ → Revision) (i : ℕ) → Keeps (revs i) (set_child q r revs i)
set_child-Keeps none r revs i = (refl, refl)
set_child-Keeps (some q) r revs i =
    put-Keeps revs q i (record (revs q) { next = some r }) (refl, refl)

-- The revision that is current holds these changes, and was made at the revision h.
pub record IsNoted (t : Text) (r : ℕ) (h : Option ℕ) (cs : List Change) : Type 0 where
  pub current : t.current ≡ some r
  pub history : t.history ≡ some r
  pub changes : (t.revs r).changes ≡ cs
  pub prev : (t.revs r).prev ≡ h

revision_alloc-IsNoted : (t : Text) → IsNoted (revision_alloc t) t.nrevs t.history []
unfolding revision_alloc
revision_alloc-IsNoted t =
    let (a, b) = set_later-Keeps t.last t.nrevs (put_at t.revs t.nrevs (new_revision t)) t.nrevs in
    let (c, d) =
      set_child-Keeps t.history t.nrevs
        (set_later t.last t.nrevs (put_at t.revs t.nrevs (new_revision t))) t.nrevs in
    let new = put_at_here t.revs t.nrevs (new_revision t) in
    record {
      current = refl;
      history = refl;
      changes = c ∙ (a ∙ ap (λ r. r.changes) new);
      prev = d ∙ (b ∙ ap (λ r. r.prev) new);
    }

pub current_changes_noted :
    (t : Text) (r : ℕ) (h : Option ℕ) (cs : List Change) → IsNoted t r h cs → current_changes t ≡ cs
current_changes_noted t r h cs n = rw n.current n.changes

pub set_at :
    (ds : List Change) (t : Text) (r : ℕ) (c : Option ℕ)
    → c ≡ some r
    → elim c [
      | none ↦ record t { fault = true }
      | some q ↦ record t { revs = put_at t.revs q (record (t.revs q) { changes = ds }) }
    ]
      ≡ record t { revs = put_at t.revs r (record (t.revs r) { changes = ds }) }
set_at ds t r c e = rw e refl

pub set_changes-IsNoted :
    (t : Text) (r : ℕ) (h : Option ℕ) (cs ds : List Change)
    → IsNoted t r h cs
    → IsNoted (set_changes ds t) r h ds
set_changes-IsNoted t r h cs ds n =
    let here = put_at_here t.revs r (record (t.revs r) { changes = ds }) in
    subst (λ u. IsNoted u r h ds) (sym (set_at ds t r t.current n.current))
      (record {
        current = n.current;
        history = n.history;
        changes = ap (λ v. v.changes) here;
        prev = ap (λ v. v.prev) here ∙ n.prev;
      })

alloc_at :
    (pos : ℕ) (t : Text) (c : Option ℕ)
    → c ≡ none
    → IsNoted (revision_alloc t) t.nrevs t.history []
    → let u : Text = elim c [ none ↦ revision_alloc t | some r ↦ t ] in
      let new : Change = record { old = null_span; new = null_span; pos = pos } in
      IsNoted (set_changes (new ∷ current_changes u) u) t.nrevs t.history (new ∷ [])
alloc_at pos t c e n = rw e (
    subst
      (λ cs.
        IsNoted
          (set_changes (record { old = null_span; new = null_span; pos = pos } ∷ cs)
            (revision_alloc t))
          t.nrevs t.history (record { old = null_span; new = null_span; pos = pos } ∷ []))
      (sym (current_changes_noted (revision_alloc t) t.nrevs t.history [] n))
      (set_changes-IsNoted (revision_alloc t) t.nrevs t.history [] _ n))

pub change_alloc-IsNoted :
    (pos : ℕ) (t : Text)
    → t.current ≡ none
    → IsNoted
        (change_alloc pos t)
        t.nrevs
        t.history
        (record { old = null_span; new = null_span; pos = pos } ∷ [])
unfolding change_alloc
change_alloc-IsNoted pos t e = let n = revision_alloc-IsNoted t in alloc_at pos t t.current e n

invalid_if :
    (b : Bool) (t : Text)
    → let u = if b then record t { lines = invalid_lines } else t in
      u ≡ record t { lines = u.lines }
invalid_if true t = refl
invalid_if false t = refl

pub invalidate_from_notes :
    (pos : ℕ) (t : Text)
    → invalidate_from pos t ≡ record t { lines = (invalidate_from pos t).lines }
invalidate_from_notes pos t = invalid_if (ltb pos t.lines.pos) t

pub IsNoted-same :
    (t u : Text) (r : ℕ) (h : Option ℕ) (cs : List Change)
    → u.revs ≡ t.revs
    → u.current ≡ t.current
    → u.history ≡ t.history
    → IsNoted t r h cs
    → IsNoted u r h cs
IsNoted-same t u r h cs a b c n = record {
  current = b ∙ n.current;
  history = c ∙ n.history;
  changes = ap (λ f. (f r).changes) a ∙ n.changes;
  prev = ap (λ f. (f r).prev) a ∙ n.prev;
}

-- The change that an edit records.
pub edited-IsNoted :
    {H : Type 0} (t u : Text) (l bytes : List ℕ) (e : IsEditedAs H t u l bytes) (r : ℕ)
    (h : Option ℕ) (c : Change) (cs : List Change)
    → IsNoted t r h (c ∷ cs)
    → IsNoted u r h (record c { old = e.old; new = e.new } ∷ cs)
edited-IsNoted t u l bytes e r h c cs n =
    let (a, b, d, _) = e.base_notes in
    let base = IsNoted-same t e.base r h (c ∷ cs) a b d n in
    let spans =
      set_changes-IsNoted e.base r h (c ∷ cs) (put_spans e.old e.new (current_changes e.base))
        base in
    let recorded =
      IsNoted-same (set_spans e.old e.new e.base) e.recorded r h _ (ap (λ v. v.revs) e.notes)
        (ap (λ v. v.current) e.notes) (ap (λ v. v.history) e.notes) spans in
    let swap = e.result ∙ e.swapped.only_links in
    subst (λ ds. IsNoted u r h (put_spans e.old e.new ds))
      (current_changes_noted e.base r h (c ∷ cs) base)
      (IsNoted-same e.recorded u r h _ (ap (λ v. v.revs) swap) (ap (λ v. v.current) swap)
        (ap (λ v. v.history) swap) recorded)
