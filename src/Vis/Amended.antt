-- ===== src/Vis/Amended.antt =====
-- vis/text.c: an edit of the cached piece in its place amends the latest change.
use suckless.Prelude.{
  ℕ, ◌-◌, ◌≤◌, ◌<◌, ◌≡◌, refl, sym, ap, subst, ◌∙◌, List, ◌∷◌, Option, some, arith,
}
use suckless.Vis.Text.{Text, Change, current_changes, set_changes, set_new_len, new_len}
use suckless.Vis.Agree.{Heaped, SameData}
use suckless.Vis.Frame.{set_changes-Beside}
use suckless.Vis.Served.{Clear, cached_piece, some_inj, changes_at}
use suckless.Vis.Cached.{IsCached}
use suckless.Vis.Notes.{current_changes_noted}
use suckless.Vis.Topped.{IsTopped, set_changes-IsTopped, IsTopped-to, OldKeeps-same}
use suckless.Vis.Reverts.{resized-IsReverted}
use suckless.Vis.Journal.{IsOpen, Rewinds-revs}

module _ (t : Text) (p : ℕ) (found : Option Text) (l bytes : List ℕ)
    (v : IsCached t p found l bytes) (heap : Heaped t) (served : 0 < t.len p) (c : List ℕ)
    (past : List (List ℕ)) (o : IsOpen t c past) where
  abbrev changed : Text
  changed = set_changes (set_new_len v.span (current_changes t)) t

  abbrev amended : Change
  amended = record o.head { new = record o.head.new { len = v.span } }

  same_changes : current_changes t ≡ o.head ∷ o.tail
  same_changes = current_changes_noted t o.rev (some o.parent) (o.head ∷ o.tail) o.noted

  cover : (t.len p ≤ o.head.new.len) × (o.middle.fresh ≤ p) × ((q : ℕ) → q < t.fresh → Clear t p q)
  cover = o.covers p v.hit

  within : t.len p ≤ new_len (current_changes t)
  within = omega (arith, cover.0, ap new_len same_changes)

  after_fresh : v.after.fresh ≡ t.fresh
  after_fresh =
      ap (λ u. u.fresh) v.changed
      ∙ ap (λ u. u.fresh) (set_changes-Beside (set_new_len v.span (current_changes t)) t)

  after_links : (v.after.next ≡ t.next) × (v.after.prev ≡ t.prev)
  after_links =
      let b = set_changes-Beside (set_new_len v.span (current_changes t)) t in
      (
        ap (λ u. u.next) v.changed ∙ ap (λ u. u.next) b,
        ap (λ u. u.prev) v.changed ∙ ap (λ u. u.prev) b,
      )

  after_cache : v.after.cache ≡ some p
  after_cache =
      ap (λ u. u.cache) v.changed
      ∙ ((changes_at t (set_new_len v.span (current_changes t)) t.current refl).0
          ∙ cached_piece t p v.hit)

  pub after-Heaped : Heaped v.after
  after-Heaped = (v.others heap cover.2).0

  after-IsTopped : IsTopped t v.after o.rev (some o.parent) (amended ∷ o.tail)
  after-IsTopped =
      let start : IsTopped t t o.rev (some o.parent) (o.head ∷ o.tail) = record {
        noted = o.noted;
        old = OldKeeps-same o.rev t.revs t.revs refl;
        bound = o.bound;
      } in
      subst (λ ds. IsTopped t v.after o.rev (some o.parent) (set_new_len v.span ds)) same_changes
        (IsTopped-to t changed v.after o.rev (some o.parent) _ (ap (λ u. u.revs) v.changed)
          (ap (λ u. u.current) v.changed) (ap (λ u. u.history) v.changed)
          (ap (λ u. u.nrevs) v.changed)
          (set_changes-IsTopped t t o.rev (some o.parent) (o.head ∷ o.tail)
            (set_new_len v.span (current_changes t)) start))

  after_data : SameData o.middle v.after
  after_data q k =
      let low : q < t.fresh = omega (arith, k, o.reverted.fresh) in
      let (_, same, _) = v.others heap cover.2 in
      let (e, b) = same q low (λ i. omega (arith, i, k, cover.1)) in
      let (e', b', _) = o.reverted.bytes q k in
      (e ∙ e', b ∙ b', after-Heaped q (omega (arith, low, after_fresh)))

  pub amended-IsOpen : IsOpen v.after c past
  amended-IsOpen =
      let (fit, size) = v.fits within in
      record {
        rev = o.rev;
        parent = o.parent;
        head = amended;
        tail = o.tail;
        noted = after-IsTopped.noted;
        bound = after-IsTopped.bound;
        before = o.before;
        middle = o.middle;
        undoes = o.undoes;
        reverted =
            resized-IsReverted o.middle o.head t v.after v.span o.reverted
              (after_links.0, after_links.1, after_fresh) after_data
              (omega (arith, served, cover.0)) (omega (arith, v.some_bytes, fit))
              (size ∙ ap (λ n. t.size - n) (ap new_len same_changes));
        held = o.held;
        next =
            Rewinds-revs t.revs v.after.revs o.rev o.before o.parent past after-IsTopped.old o.next;
        covers = λ q h.
            let same : p ≡ q = some_inj p q (sym after_cache ∙ cached_piece v.after q h) in
            subst
              (λ q.
                (v.after.len q ≤ v.span)
                × (o.middle.fresh ≤ q)
                × ((i : ℕ) → i < v.after.fresh → Clear v.after q i))
              same
              (fit, cover.1, λ i j. (v.others heap cover.2).2 i (omega (arith, j, after_fresh)));
      }
