-- ===== src/Vis/Journal.antt =====
-- vis/text.c: what a text remembers: the revisions that lead to it, and the one that is being written.
use suckless.Prelude.{
  ℕ, ◌≤◌, ◌<◌, ◌≡◌, sym, subst, ◌∙◌, Bool, true, false, List, [], ◌∷◌, Option, none, some, arith,
}
use suckless.Vis.Text.{Text, Change, Revision, cache_contains}
use suckless.Vis.Undo.{undo_changes}
use suckless.Vis.Agree.{Agrees, Agrees-trans}
use suckless.Vis.Edited.{IsEditedAs}
use suckless.Vis.Served.{IsKept, Clear}
use suckless.Vis.Undone.{Holds}
use suckless.Vis.Notes.{IsNoted}
use suckless.Vis.Topped.{IsTopped, OldKeeps, edited-IsTopped}
use suckless.Vis.Reverts.{IsReverted, Undoes, Undoes-step, edited-IsReverted}

-- The changes of a revision lead from t back to a text that holds c, and its parent on to Next.
pub record IsStep (changes : List Change) (up : Option ℕ) (t : Text) (c : List ℕ)
    (Next : Text → ℕ → Type 0) : Type 0 where
  pub before : Text
  pub parent : ℕ
  pub points : up ≡ some parent
  pub undoes : Undoes before changes t
  pub held : Holds before c
  pub next : Next before parent

-- From t at the revision r, which is one of the first b, undo leads to texts that hold the members of
-- the list, one after the other.
unfoldable pub Rewinds : (ℕ → Revision) → ℕ → Text → ℕ → List (List ℕ) → Type 0
Rewinds revs b t r [] = (r < b) × ((revs r).prev ≡ none)
Rewinds revs b t r (c ∷ past) =
    (r < b) × IsStep (revs r).changes (revs r).prev t c (λ m q. Rewinds revs r m q past)

pub Rewinds-Agrees :
    (revs : ℕ → Revision) (b : ℕ) (t u : Text) (r : ℕ) (past : List (List ℕ))
    → Agrees t u
    → Rewinds revs b t r past
    → Rewinds revs b u r past
unfolding Rewinds
Rewinds-Agrees revs b t u r [] a h = h
Rewinds-Agrees revs b t u r (c ∷ past) a (k, s) = (
  k,
  record {
    before = s.before;
    parent = s.parent;
    points = s.points;
    undoes = λ o w g. s.undoes o w (Agrees-trans t u w a g);
    held = s.held;
    next = s.next;
  },
)

pub Rewinds-bound :
    (revs : ℕ → Revision) (b d : ℕ) (t : Text) (r : ℕ) (past : List (List ℕ))
    → b ≤ d
    → Rewinds revs b t r past
    → Rewinds revs d t r past
unfolding Rewinds
Rewinds-bound revs b d t r [] h k = (omega (arith, h, k.0), k.1)
Rewinds-bound revs b d t r (c ∷ past) h k = (omega (arith, h, k.0), k.1)

pub Rewinds-revs :
    (revs revs' : ℕ → Revision) (b : ℕ) (t : Text) (r : ℕ) (past : List (List ℕ))
    → OldKeeps b revs revs'
    → Rewinds revs b t r past
    → Rewinds revs' b t r past
unfolding Rewinds
Rewinds-revs revs revs' b t r [] h (k, e) = (k, (h r k).1 ∙ e)
Rewinds-revs revs revs' b t r (c ∷ past) h (k, s) = (
  k,
  record {
    before = s.before;
    parent = s.parent;
    points = (h r k).1 ∙ s.points;
    undoes = subst (λ cs. Undoes s.before cs t) (sym (h r k).0) s.undoes;
    held = s.held;
    next =
        Rewinds-revs revs revs' r s.before s.parent past (λ i j. h i (omega (arith, j, k))) s.next;
  },
)

-- No revision is being written.
pub record IsClosed (t : Text) (past : List (List ℕ)) : Type 0 where
  pub rev : ℕ
  pub history : t.history ≡ some rev
  pub current : t.current ≡ none
  pub rewinds : Rewinds t.revs t.nrevs t rev past

-- A revision is being written, on top of a text that held c. The cached piece belongs to its latest
-- change, and the bytes of the other pieces are clear of it.
pub record IsOpen (t : Text) (c : List ℕ) (past : List (List ℕ)) : Type 0 where
  pub rev : ℕ
  pub parent : ℕ
  pub head : Change
  pub tail : List Change
  pub noted : IsNoted t rev (some parent) (head ∷ tail)
  pub bound : rev < t.nrevs
  pub before : Text
  pub middle : Text
  pub undoes : Undoes before tail middle
  pub reverted : IsReverted middle head t
  pub held : Holds before c
  pub next : Rewinds t.revs rev before parent past
  pub covers :
      (p : ℕ)
      → cache_contains t p ≡ true
      → (t.len p ≤ head.new.len) × (middle.fresh ≤ p) × ((q : ℕ) → q < t.fresh → Clear t p q)

unfoldable pub Journal : Text → Bool → List (List ℕ) → Type 0
Journal t false past = IsClosed t past
Journal t true [] = true ≡ false
Journal t true (c ∷ past) = IsOpen t c past

-- A new change: t1 is the text t with the change allocated, and u the text after the edit.
module _ {H : Type 0} (t t1 u : Text) (l bytes : List ℕ) (e : IsEditedAs H t1 u l bytes)
    (k : IsKept t1 e.base u e.new) (a : Agrees t t1)
    (below : (p : ℕ) → t1.cache ≡ some p → p < t1.fresh) (c : Change) where
  abbrev made : Change
  made = record c { old = e.old; new = e.new }

  opened-IsOpen :
      (now : List ℕ) (past : List (List ℕ)) (r q : ℕ) (m : Text) (cs : List Change)
      → IsTopped t t1 r (some q) (c ∷ cs)
      → Undoes m cs t1
      → Holds m now
      → Rewinds t.revs r m q past
      → IsOpen u now past
  opened-IsOpen now past r q m cs top und held w =
      let topped = edited-IsTopped t t1 u l bytes e r (some q) c cs top in
      record {
        rev = r;
        parent = q;
        head = made;
        tail = cs;
        noted = topped.noted;
        bound = topped.bound;
        before = m;
        middle = t1;
        undoes = und;
        reverted = edited-IsReverted t1 u l bytes e c k;
        held = held;
        next = Rewinds-revs t.revs u.revs r m q past topped.old w;
        covers = k.covers below;
      }

  -- The first change of a revision.
  pub closed-IsOpen :
      (now : List ℕ) (past : List (List ℕ))
      → Holds t now
      → (v : IsClosed t past) → IsTopped t t1 t.nrevs t.history (c ∷ [])
      → IsOpen u now past
  unfolding undo_changes
  closed-IsOpen now past held v top =
      opened-IsOpen now past t.nrevs v.rev t []
        (subst (λ h. IsTopped t t1 t.nrevs h (c ∷ [])) v.history top)
        (λ o w g. Agrees-trans t t1 w a g) held v.rewinds

  -- One more change.
  pub IsOpen-IsOpen :
      (d : List ℕ) (past : List (List ℕ)) (v : IsOpen t d past)
      → IsTopped t t1 v.rev (some v.parent) (c ∷ (v.head ∷ v.tail))
      → IsOpen u d past
  IsOpen-IsOpen d past v top =
      opened-IsOpen d past v.rev v.parent v.before (v.head ∷ v.tail) top
        (λ o w g.
          Undoes-step v.before v.middle v.head v.tail t v.undoes v.reverted o w
            (Agrees-trans t t1 w a g))
        v.held v.next
