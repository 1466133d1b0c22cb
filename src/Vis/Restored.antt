-- ===== src/Vis/Restored.antt =====
-- vis/text.c: text_snapshot and text_undo on a text with its revisions.
use suckless.Prelude.{
  ℕ, ◌<◌, ◌≡◌, refl, sym, ap, subst, ◌∙◌, Bool, true, false, List, [], ◌∷◌, none, some, arith,
}
use suckless.Vis.Text.{Text}
use suckless.Vis.Change.{text_snapshot}
use suckless.Vis.Edit.{invalid_lines}
use suckless.Vis.Undo.{arrive, undo_at, undo_to, text_undo, revision_undo, undo_changes}
use suckless.Vis.Agree.{Heaped, Agrees, Agrees-refl, Agrees-IsText}
use suckless.Vis.Relink.{Relinked}
use suckless.Vis.Undone.{Holds}
use suckless.Vis.Reverts.{Undoes, Undoes-step, undo_changes-Relinked}
use suckless.Vis.Ready.{IsReady, no_cache-IsServed, text_snapshot-IsReady}
use suckless.Vis.Journal.{Journal, IsClosed, IsOpen, Rewinds, Rewinds-Agrees, Rewinds-bound}

-- The text holds the bytes now, a revision is being written or not, and undo leads to the texts past.
pub record IsTracked (t : Text) (now : List ℕ) (writing : Bool) (past : List (List ℕ))
    : Type 0 where
  pub ready : IsReady t now
  pub heaped : Heaped t
  pub journal : Journal t writing past

snapshot-Agrees : (t : Text) → Heaped t → Agrees t (text_snapshot t)
unfolding text_snapshot
snapshot-Agrees t h = record {
  fresh = omega arith;
  links = λ q k. (refl, refl);
  bytes = λ q k. (refl, refl, h q k);
  size = refl;
}

open-Rewinds :
    (t : Text) (c : List ℕ) (past : List (List ℕ)) (v : IsOpen t c past)
    → Rewinds t.revs t.nrevs t v.rev (c ∷ past)
unfolding Rewinds
open-Rewinds t c past v = (
  v.bound,
  record {
    before = v.before;
    parent = v.parent;
    points = v.noted.prev;
    undoes =
        subst (λ cs. Undoes v.before cs t) (sym v.noted.changes)
          (Undoes-step v.before v.middle v.head v.tail t v.undoes v.reverted);
    held = v.held;
    next = v.next;
  },
)

snapshot-IsClosed :
    (t : Text) (writing : Bool) (past : List (List ℕ))
    → Heaped t
    → Journal t writing past
    → IsClosed (text_snapshot t) past
unfolding text_snapshot Journal
snapshot-IsClosed t false past h v = record {
  rev = v.rev;
  history = v.history;
  current = refl;
  rewinds =
      Rewinds-Agrees t.revs t.nrevs t (text_snapshot t) v.rev past (snapshot-Agrees t h) v.rewinds;
}
snapshot-IsClosed t true [] h v = absurd (ground (arith, v))
snapshot-IsClosed t true (c ∷ past) h v = record {
  rev = v.rev;
  history = v.noted.history;
  current = refl;
  rewinds =
      Rewinds-Agrees t.revs t.nrevs t (text_snapshot t) v.rev (c ∷ past) (snapshot-Agrees t h)
        (open-Rewinds t c past v);
}

pub text_snapshot-IsTracked :
    (t : Text) (now : List ℕ) (writing : Bool) (past : List (List ℕ))
    → IsTracked t now writing past
    → IsTracked (text_snapshot t) now false past
unfolding text_snapshot Journal
text_snapshot-IsTracked t now writing past v = record {
  ready = text_snapshot-IsReady t now v.ready;
  heaped = v.heaped;
  journal = snapshot-IsClosed t writing past v.heaped v.journal;
}

-- A text from the history, with its revision.
arrived-IsTracked :
    (s m x : Text) (c : List ℕ) (r q : ℕ) (past : List (List ℕ))
    → Relinked s x
    → (s.current ≡ none)
    → (s.cache ≡ none)
    → Heaped s
    → Agrees m x
    → Holds m c
    → r < s.nrevs
    → Rewinds s.revs r m q past
    → IsTracked (record x { history = some q; lines = invalid_lines }) c false past
unfolding Journal
arrived-IsTracked s m x c r q past e cur cache h a held k w =
    let u : Text = record x { history = some q; lines = invalid_lines } in
    let agrees : Agrees m u = record {
      fresh = a.fresh;
      links = a.links;
      bytes = a.bytes;
      size = a.size;
    } in
    let (text, bytes) = Agrees-IsText m u held.chain agrees held.text in
    record {
      ready = record {
        chain = held.chain;
        text = text;
        bytes = bytes ∙ held.bytes;
        served = no_cache-IsServed u held.chain (ap (λ v. v.cache) e ∙ cache);
      };
      heaped = subst Heaped (sym e) h;
      journal = record {
        rev = q;
        history = refl;
        current = ap (λ v. v.current) e ∙ cur;
        rewinds =
            subst (λ f. Rewinds f x.nrevs u q past) (sym (ap (λ v. v.revs) e))
              (Rewinds-bound s.revs r x.nrevs u q past (omega (arith, k, ap (λ v. v.nrevs) e))
                (Rewinds-Agrees s.revs r m u q past agrees w));
      };
    }

undo_root :
    (s : Text) (r : ℕ)
    → s.history ≡ some r
    → (s.revs r).prev ≡ none
    → undo_at s.history s ≡ (none, s)
unfolding undo_at undo_to
undo_root s r h p = rw (h, undo_at, p, undo_to) refl

undo_one :
    (s : Text) (r q : ℕ)
    → s.history ≡ some r
    → (s.revs r).prev ≡ some q
    → undo_at s.history s ≡ arrive q (undo_changes (s.revs r).changes none s)
unfolding undo_at undo_to revision_undo
undo_one s r q h p = ap (λ o. undo_at o s) h ∙ ap (λ o. undo_to r o s) p

-- What undo makes of the list of the earlier contents.
unfoldable pub undone : List ℕ → List (List ℕ) → List ℕ × List (List ℕ)
undone now [] = (now, [])
undone now (c ∷ past) = (c, past)

closed-undo :
    (s : Text) (now : List ℕ) (past : List (List ℕ))
    → IsReady s now
    → Heaped s
    → s.cache ≡ none
    → IsClosed s past
    → let (c, rest) = undone now past in IsTracked (undo_at s.history s).1 c false rest
unfolding Rewinds undone Journal
closed-undo s now [] ready h e v =
    subst (λ p. IsTracked p.1 now false []) (sym (undo_root s v.rev v.history v.rewinds.1))
      (record { ready = ready; heaped = h; journal = v })
closed-undo s now (c ∷ past) ready h e v =
    let (k, step) = v.rewinds in
    let cs = (s.revs v.rev).changes in
    subst (λ p. IsTracked p.1 c false past)
      (sym (undo_one s v.rev step.parent v.history step.points))
      (arrived-IsTracked s step.before (undo_changes cs none s).1 c v.rev step.parent past
        (undo_changes-Relinked cs none s) v.current e h (step.undoes none s (Agrees-refl s h))
        step.held k step.next)

-- Undo after any edits gives the text before them.
pub text_undo-IsTracked :
    (t : Text) (now : List ℕ) (writing : Bool) (past : List (List ℕ))
    → IsTracked t now writing past
    → let (c, rest) = undone now past in IsTracked (text_undo t).1 c false rest
unfolding text_undo text_snapshot Journal
text_undo-IsTracked t now writing past v =
    let s = text_snapshot-IsTracked t now writing past v in
    closed-undo (text_snapshot t) now past s.ready s.heaped refl s.journal
