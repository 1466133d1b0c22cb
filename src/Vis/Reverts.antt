-- ===== src/Vis/Reverts.antt =====
-- vis/text.c, revision_undo: the changes of a revision, undone one after the other.
use suckless.Prelude.{
  ℕ, ◌+◌, ◌-◌, ◌≤◌, ◌<◌, ◌≡◌, refl, sym, ap, subst, ◌∙◌, List, [], ◌∷◌, Option, some, arith,
}
use suckless.Vis.Text.{Text, Change, span_swap}
use suckless.Vis.Undo.{undo_changes}
use suckless.Vis.Agree.{SameData, Agrees, LinksTo}
use suckless.Vis.Relink.{
  Ends, Relinked, Relinked-trans, span_swap-Relinked, span_swap-SameData, span_swap-SameLinks,
  span_swap-size, span_swap-len, span_swap-fresh,
}
use suckless.Vis.Frame.{beside}
use suckless.Vis.Edited.{IsEditedAs}
use suckless.Vis.Served.{IsKept}

-- The swap of the change c, backwards, leads from t to n.
pub record IsReverted (n : Text) (c : Change) (t : Text) : Type 0 where
  pub fresh : n.fresh ≤ t.fresh
  pub links : (u : Text) → LinksTo t.fresh t u → LinksTo n.fresh n (span_swap c.new c.old u)
  pub bytes : SameData n t
  pub size : n.size ≡ t.size - c.new.len + c.old.len
  pub some_len : 0 < c.new.len + c.old.len

SameData-trans : (t u v : Text) → t.fresh ≤ u.fresh → SameData t u → SameData u v → SameData t v
SameData-trans t u v f a b q k =
    let (l, c, s) = a q k in let (l', c', s') = b q (omega (arith, k, f)) in (l' ∙ l, c' ∙ c, s')

pub reverted-Agrees :
    (n : Text) (c : Change) (t u : Text)
    → IsReverted n c t
    → Agrees t u
    → Agrees n (span_swap c.new c.old u)
reverted-Agrees n c t u r a = record {
  fresh = omega (arith, r.fresh, a.fresh, span_swap-fresh c.new c.old u);
  links = r.links u a.links;
  bytes = span_swap-SameData c.new c.old n u (SameData-trans n t u r.fresh r.bytes a.bytes);
  size =
      span_swap-size c.new c.old u r.some_len
      ∙ (ap (λ s. s - c.new.len + c.old.len) a.size ∙ sym r.size);
}

-- The changes cs lead from t, and from every text that has its pieces, back to m.
abbrev pub Undoes : Text → List Change → Text → Type 0
Undoes m cs t = (o : Option ℕ) (u : Text) → Agrees t u → Agrees m (undo_changes cs o u).1

pub Undoes-step :
    (m n : Text) (c : Change) (cs : List Change) (t : Text)
    → Undoes m cs n
    → IsReverted n c t
    → Undoes m (c ∷ cs) t
unfolding undo_changes
Undoes-step m n c cs t h r o u a =
    h (some c.pos) (span_swap c.new c.old u) (reverted-Agrees n c t u r a)

pub undo_changes-Relinked :
    (cs : List Change) (o : Option ℕ) (t : Text) → Relinked t (undo_changes cs o t).1
unfolding undo_changes
undo_changes-Relinked [] o t = refl
undo_changes-Relinked (c ∷ cs) o t =
    Relinked-trans t (span_swap c.new c.old t) _ (span_swap-Relinked c.new c.old t)
      (undo_changes-Relinked cs (some c.pos) (span_swap c.new c.old t))

-- The change that an edit records leads back to the text before it.
pub edited-IsReverted :
    {H : Type 0}
    → (t u : Text) (l bytes : List ℕ) (e : IsEditedAs H t u l bytes) (c : Change)
    → IsKept t e.base u e.new
    → IsReverted t (record c { old = e.old; new = e.new }) u
edited-IsReverted t u l bytes e c k =
    let fresh : u.fresh ≡ e.base.fresh =
      ap (λ v. v.fresh) (e.result ∙ e.swapped.only_links) ∙ ap (λ v. v.fresh) e.noted in
    let back : span_swap e.new e.old u ≡ beside u e.recorded =
      ap (span_swap e.new e.old) e.result
      ∙ (e.swapped.back (span_swap e.old e.new e.recorded)
          ∙ ap (λ v. beside v e.recorded) (sym e.result)) in
    let some_len : 0 < e.new.len + e.old.len = omega (arith, e.swapped.some_span) in
    record {
      fresh = omega (arith, fresh, k.before.fresh);
      links = λ w h q j.
          let low : q < u.fresh = omega (arith, fresh, j, k.before.fresh) in
          let (x, y) =
            span_swap-SameLinks e.new e.old u w u.fresh h
              (subst (λ n. Ends n e.new) (sym fresh) e.swapped.new_ends)
              (subst (λ n. Ends n e.old) (sym fresh) e.swapped.old_ends) q low in
          let (x', y') = k.before.links q j in
          (
            x ∙ (ap (λ v. v.next q) (back ∙ ap (beside u) e.noted) ∙ x'),
            y ∙ (ap (λ v. v.prev q) (back ∙ ap (beside u) e.noted) ∙ y'),
          );
      bytes = subst (SameData t) (sym e.result) (
          span_swap-SameData e.old e.new t e.recorded
            (subst (SameData t) (sym e.noted) k.before.bytes));
      size = sym (
          sym (span_swap-size e.new e.old u some_len)
          ∙ (ap (λ v. v.size) (back ∙ ap (beside u) e.noted) ∙ k.before.size));
      some_len = some_len;
    }

-- A change of the last piece in its place is undone with the change that added the piece.
pub resized-IsReverted :
    (n : Text) (c : Change) (t u : Text) (m : ℕ)
    → IsReverted n c t
    → (u.next ≡ t.next) × (u.prev ≡ t.prev) × (u.fresh ≡ t.fresh)
    → SameData n u
    → 0 < c.new.len
    → 0 < m
    → u.size - m ≡ t.size - c.new.len
    → IsReverted n (record c { new = record c.new { len = m } }) u
resized-IsReverted n c t u m r (nx, pv, fr) d h k z = record {
  fresh = omega (arith, r.fresh, fr);
  links = λ w g. subst (LinksTo n.fresh n) (sym (span_swap-len c.new c.old m w h k)) (
      r.links w (λ q j.
        let (x, y) = g q (omega (arith, fr, j)) in (x ∙ ap (λ f. f q) nx, y ∙ ap (λ f. f q) pv)));
  bytes = d;
  size = r.size ∙ ap (λ s. s + c.old.len) (sym z);
  some_len = omega (arith, k);
}
