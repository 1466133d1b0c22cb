-- ===== src/Vis/Topped.antt =====
-- vis/text.c, change_alloc: a change on top of those of the revision that is current.
use suckless.Prelude.{
  ℕ, ◌+◌, ◌<◌, ◌≡◌, ◌≢◌, refl, sym, ap, subst, ◌∙◌, true, List, [], ◌∷◌, Option, none, some, arith,
  put_at,
}
use suckless.Vis.Text.{Text, Change, Revision, null_span, current_changes, set_changes}
use suckless.Vis.Change.{change_alloc, revision_alloc, set_later, set_child, new_revision}
use suckless.Vis.Edit.{set_spans, put_spans}
use suckless.Vis.Edited.{IsEditedAs}
use suckless.Vis.Swap.{apart}
use suckless.Vis.Notes.{
  IsNoted, IsNoted-same, Keeps, change_alloc-IsNoted, current_changes_noted, set_at,
  set_changes-IsNoted, set_child-Keeps, set_later-Keeps,
}

-- What undo reads of the revisions before r is the same.
abbrev pub OldKeeps : ℕ → (ℕ → Revision) → (ℕ → Revision) → Type 0
OldKeeps r revs revs' = (i : ℕ) → i < r → Keeps (revs i) (revs' i)

pub OldKeeps-trans :
    (r : ℕ) (a b c : ℕ → Revision) → OldKeeps r a b → OldKeeps r b c → OldKeeps r a c
OldKeeps-trans r a b c h k i j = ((k i j).0 ∙ (h i j).0, (k i j).1 ∙ (h i j).1)

pub OldKeeps-same : (r : ℕ) (a b : ℕ → Revision) → b ≡ a → OldKeeps r a b
OldKeeps-same r a b e i j = (ap (λ f. (f i).changes) e, ap (λ f. (f i).prev) e)

set_changes-OldKeeps :
    (t : Text) (r : ℕ) (ds : List Change)
    → t.current ≡ some r
    → OldKeeps r t.revs (set_changes ds t).revs
set_changes-OldKeeps t r ds e =
    subst (λ u. OldKeeps r t.revs u.revs) (sym (set_at ds t r t.current e))
      (λ i j. let far : r ≢ i = λ k. omega (arith, k, j) in rw (apart r i far) (refl, refl))

revision_alloc-OldKeeps : (t : Text) → OldKeeps t.nrevs t.revs (revision_alloc t).revs
unfolding revision_alloc
revision_alloc-OldKeeps t =
    let a = put_at t.revs t.nrevs (new_revision t) in
    let b = set_later t.last t.nrevs a in
    let c = set_child t.history t.nrevs b in
    OldKeeps-trans t.nrevs t.revs a c
      (λ i j.
        let far : t.nrevs ≢ i = λ k. omega (arith, k, j) in rw (apart t.nrevs i far) (refl, refl))
      (OldKeeps-trans t.nrevs a b c (λ i j. set_later-Keeps t.last t.nrevs a i)
        (λ i j. set_child-Keeps t.history t.nrevs b i))

-- The revision r of u has the change c on top of cs, and the revisions before it are those of t.
pub record IsTopped (t u : Text) (r : ℕ) (h : Option ℕ) (cs : List Change) : Type 0 where
  pub noted : IsNoted u r h cs
  pub old : OldKeeps r t.revs u.revs
  pub bound : r < u.nrevs

set_changes-nrevs :
    (ds : List Change) (t : Text) (c : Option ℕ)
    → (let u : Text = elim c [
      | none ↦ record t { fault = true }
      | some q ↦ record t { revs = put_at t.revs q (record (t.revs q) { changes = ds }) }
    ] in
        u.nrevs)
      ≡ t.nrevs
set_changes-nrevs ds t none = refl
set_changes-nrevs ds t (some q) = refl

alloc_new :
    (pos : ℕ) (t : Text) (c : Option ℕ)
    → c ≡ none
    → let u : Text = elim c [ none ↦ revision_alloc t | some r ↦ t ] in
      let new : Change = record { old = null_span; new = null_span; pos = pos } in
      let v = set_changes (new ∷ current_changes u) u in
      OldKeeps t.nrevs t.revs v.revs × (v.nrevs ≡ t.nrevs + 1)
unfolding revision_alloc
alloc_new pos t c e = rw e (
    let u = revision_alloc t in
    let new : Change = record { old = null_span; new = null_span; pos = pos } in
    (
      OldKeeps-trans t.nrevs t.revs u.revs (set_changes (new ∷ current_changes u) u).revs
          (revision_alloc-OldKeeps t)
          (set_changes-OldKeeps u t.nrevs (new ∷ current_changes u) refl),
      set_changes-nrevs (new ∷ current_changes u) u u.current,
    ))

pub change_alloc-new :
    (pos : ℕ) (t : Text)
    → t.current ≡ none
    → IsTopped t
        (change_alloc pos t)
        t.nrevs
        t.history
        (record { old = null_span; new = null_span; pos = pos } ∷ [])
unfolding change_alloc
change_alloc-new pos t e =
    let (old, n) = alloc_new pos t t.current e in
    record { noted = change_alloc-IsNoted pos t e; old = old; bound = omega (arith, n) }

alloc_top :
    (pos : ℕ) (t : Text) (r : ℕ) (h : Option ℕ) (cs : List Change) (c : Option ℕ)
    → c ≡ some r
    → IsNoted t r h cs
    → r < t.nrevs
    → let u : Text = elim c [ none ↦ revision_alloc t | some r ↦ t ] in
      let new : Change = record { old = null_span; new = null_span; pos = pos } in
      IsTopped t (set_changes (new ∷ current_changes u) u) r h (new ∷ cs)
alloc_top pos t r h cs c e n k = rw e (
    let new : Change = record { old = null_span; new = null_span; pos = pos } in
    subst (λ ds. IsTopped t (set_changes (new ∷ ds) t) r h (new ∷ cs))
      (sym (current_changes_noted t r h cs n))
      (record {
        noted = set_changes-IsNoted t r h cs (new ∷ cs) n;
        old = set_changes-OldKeeps t r (new ∷ cs) n.current;
        bound = omega (arith, k, set_changes-nrevs (new ∷ cs) t t.current);
      }))

pub change_alloc-top :
    (pos : ℕ) (t : Text) (r : ℕ) (h : Option ℕ) (cs : List Change)
    → IsNoted t r h cs
    → r < t.nrevs
    → IsTopped t
        (change_alloc pos t)
        r
        h
        (record { old = null_span; new = null_span; pos = pos } ∷ cs)
unfolding change_alloc
change_alloc-top pos t r h cs n k = alloc_top pos t r h cs t.current n.current n k

-- The same revisions in the text s.
pub IsTopped-from :
    (s t u : Text) (r : ℕ) (h : Option ℕ) (cs : List Change)
    → t.revs ≡ s.revs
    → IsTopped t u r h cs
    → IsTopped s u r h cs
IsTopped-from s t u r h cs e v = record {
  noted = v.noted;
  old = OldKeeps-trans r s.revs t.revs u.revs (OldKeeps-same r s.revs t.revs e) v.old;
  bound = v.bound;
}

pub IsTopped-to :
    (s t u : Text) (r : ℕ) (h : Option ℕ) (cs : List Change)
    → u.revs ≡ t.revs
    → u.current ≡ t.current
    → u.history ≡ t.history
    → u.nrevs ≡ t.nrevs
    → IsTopped s t r h cs
    → IsTopped s u r h cs
IsTopped-to s t u r h cs a b c d v = record {
  noted = IsNoted-same t u r h cs a b c v.noted;
  old = OldKeeps-trans r s.revs t.revs u.revs v.old (OldKeeps-same r t.revs u.revs a);
  bound = omega (arith, v.bound, d);
}

-- Other changes in the revision.
pub set_changes-IsTopped :
    (s t : Text) (r : ℕ) (h : Option ℕ) (cs ds : List Change)
    → IsTopped s t r h cs
    → IsTopped s (set_changes ds t) r h ds
set_changes-IsTopped s t r h cs ds v = record {
  noted = set_changes-IsNoted t r h cs ds v.noted;
  old =
      OldKeeps-trans r s.revs t.revs (set_changes ds t).revs v.old
        (set_changes-OldKeeps t r ds v.noted.current);
  bound = omega (arith, v.bound, set_changes-nrevs ds t t.current);
}

-- The text after an edit.
pub edited-IsTopped :
    {H : Type 0}
    → (s t u : Text) (l bytes : List ℕ) (e : IsEditedAs H t u l bytes) (r : ℕ) (h : Option ℕ)
      (c : Change) (cs : List Change)
    → IsTopped s t r h (c ∷ cs)
    → IsTopped s u r h (record c { old = e.old; new = e.new } ∷ cs)
edited-IsTopped s t u l bytes e r h c cs v =
    let (a, b, d, n) = e.base_notes in
    let base = IsTopped-to s t e.base r h (c ∷ cs) a b d n v in
    let spans =
      set_changes-IsTopped s e.base r h (c ∷ cs) (put_spans e.old e.new (current_changes e.base))
        base in
    let swap = e.result ∙ e.swapped.only_links in
    let spans_of = set_spans e.old e.new e.base in
    subst (λ ds. IsTopped s u r h (put_spans e.old e.new ds))
      (current_changes_noted e.base r h (c ∷ cs) base.noted)
      (IsTopped-to s spans_of u r h _ (ap (λ v. v.revs) swap ∙ ap (λ v. v.revs) e.notes)
        (ap (λ v. v.current) swap ∙ ap (λ v. v.current) e.notes)
        (ap (λ v. v.history) swap ∙ ap (λ v. v.history) e.notes)
        (ap (λ v. v.nrevs) swap ∙ ap (λ v. v.nrevs) e.notes) spans)
