-- ===== src/Vis/Tracked.antt =====
-- vis/text.c: text_insert and text_delete on a text with its revisions.
use suckless.Prelude.{
  ℕ, ◌+◌, ◌^◌, ◌≤◌, ◌<◌, ◌≡◌, inl, inr, refl, sym, ap, subst, ◌∙◌, Bool, true, false, ◌&&◌, List,
  [], ◌∷◌, Option, none, some, arith, length,
}
use suckless.Vis.Text.{Text, LineCache, Change, cache_contains, same}
use suckless.Vis.Change.{change_alloc}
use suckless.Vis.Edit.{text_insert, text_delete, invalidate_from}
use suckless.Vis.Agree.{Heaped, Agrees}
use suckless.Vis.Relink.{span_swap-Heaped}
use suckless.Vis.Frame.{over}
use suckless.Vis.Store.{block_store-IsStored}
use suckless.Vis.Edited.{IsEditedAs, inserted}
use suckless.Vis.Cut.{deleted}
use suckless.Vis.Served.{IsKept}
use suckless.Vis.Inserted.{allocated, allocated-Beside, allocated-Heaped, stored_text}
use suckless.Vis.Notes.{IsNoted, IsNoted-same, invalidate_from_notes}
use suckless.Vis.Topped.{IsTopped, IsTopped-from, IsTopped-to, change_alloc-new, change_alloc-top}
use suckless.Vis.Undone.{change_of}
use suckless.Vis.Ready.{
  IsReady, ready-Holds, stored_cache, allocated_cache, contains_lines, invalid-IsServed,
}
use suckless.Vis.Edits.{
  IsHit, hit-IsReady, text_insert_cases, text_delete_cases, insert_edited-IsReady,
  delete_edited-IsReady,
}
use suckless.Vis.Journal.{Journal, IsOpen, closed-IsOpen, IsOpen-IsOpen}
use suckless.Vis.Amended.{amended-IsOpen, after-Heaped}
use suckless.Vis.Restored.{IsTracked}

-- The earlier contents, once a revision is being written.
unfoldable pub opened : Bool → List ℕ → List (List ℕ) → List (List ℕ)
opened true now past = past
opened false now past = now ∷ past

-- The text with the change allocated.
new_top :
    (t : Text) (pos : ℕ)
    → t.current ≡ none
    → IsTopped t (change_alloc pos (invalidate_from pos t)) t.nrevs t.history (change_of pos ∷ [])
new_top t pos e =
    let t1 = invalidate_from pos t in
    let notes = invalidate_from_notes pos t in
    let top =
      IsTopped-from t t1 (change_alloc pos t1) t1.nrevs t1.history (change_of pos ∷ [])
        (ap (λ u. u.revs) notes) (change_alloc-new pos t1 (ap (λ u. u.current) notes ∙ e)) in
    subst (λ r. IsTopped t (change_alloc pos t1) r t.history (change_of pos ∷ []))
      (ap (λ u. u.nrevs) notes)
      (subst (λ h. IsTopped t (change_alloc pos t1) t1.nrevs h (change_of pos ∷ []))
        (ap (λ u. u.history) notes) top)

next_top :
    (t : Text) (pos r : ℕ) (h : Option ℕ) (cs : List Change)
    → IsNoted t r h cs
    → r < t.nrevs
    → IsTopped t (change_alloc pos (invalidate_from pos t)) r h (change_of pos ∷ cs)
next_top t pos r h cs n k =
    let t1 = invalidate_from pos t in
    let notes = invalidate_from_notes pos t in
    IsTopped-from t t1 (change_alloc pos t1) r h (change_of pos ∷ cs) (ap (λ u. u.revs) notes) (
      change_alloc-top pos t1 r h cs
        (IsNoted-same t t1 r h cs (ap (λ u. u.revs) notes) (ap (λ u. u.current) notes)
          (ap (λ u. u.history) notes) n)
        (omega (arith, k, ap (λ u. u.nrevs) notes)))

-- An edit that makes new pieces, of the text t1 that has the notes of t with the change allocated.
edited-Journal :
    {H : Type 0}
    → (t t1 u : Text) (l bytes now : List ℕ) (past : List (List ℕ)) (writing : Bool) (pos : ℕ)
      (e : IsEditedAs H t1 u l bytes)
    → IsKept t1 e.base u e.new
    → Agrees t t1
    → ((p : ℕ) → t1.cache ≡ some p → p < t1.fresh)
    → (let a = change_alloc pos (invalidate_from pos t) in
        (t1.revs ≡ a.revs)
        × (t1.current ≡ a.current)
        × (t1.history ≡ a.history)
        × (t1.nrevs ≡ a.nrevs))
    → IsReady t now
    → Journal t writing past
    → Journal u true (opened writing now past)
unfolding Journal opened
edited-Journal t t1 u l bytes now past false pos e k a b (n1, n2, n3, n4) ready v =
    closed-IsOpen t t1 u l bytes e k a b (change_of pos) now past (ready-Holds t now ready) v (
      IsTopped-to t (change_alloc pos (invalidate_from pos t)) t1 t.nrevs t.history
        (change_of pos ∷ []) n1 n2 n3 n4 (new_top t pos v.current))
edited-Journal t t1 u l bytes now [] true pos e k a b n ready v = absurd (ground (arith, v))
edited-Journal t t1 u l bytes now (c ∷ past) true pos e k a b (n1, n2, n3, n4) ready v =
    IsOpen-IsOpen t t1 u l bytes e k a b (change_of pos) c past v (
      IsTopped-to t (change_alloc pos (invalidate_from pos t)) t1 v.rev (some v.parent)
        (change_of pos ∷ (v.head ∷ v.tail)) n1 n2 n3 n4
        (next_top t pos v.rev (some v.parent) (v.head ∷ v.tail) v.noted v.bound))

edited-Heaped :
    {H : Type 0}
    → (t u : Text) (l bytes : List ℕ) (e : IsEditedAs H t u l bytes) → IsKept t e.base u e.new
    → Heaped u
edited-Heaped t u l bytes e k =
    subst Heaped (sym e.result)
      (span_swap-Heaped e.old e.new e.recorded (subst Heaped (sym e.noted) k.heaped))

-- The lines of the text are of no account.
lines-IsOpen :
    (t : Text) (x : LineCache) (c : List ℕ) (past : List (List ℕ))
    → IsOpen t c past
    → IsOpen (record t { lines = x }) c past
lines-IsOpen t x c past v = record {
  rev = v.rev;
  parent = v.parent;
  head = v.head;
  tail = v.tail;
  noted =
      IsNoted-same t (record t { lines = x }) v.rev (some v.parent) (v.head ∷ v.tail) refl refl refl
        v.noted;
  bound = v.bound;
  before = v.before;
  middle = v.middle;
  undoes = v.undoes;
  reverted = record {
    fresh = v.reverted.fresh;
    links = v.reverted.links;
    bytes = v.reverted.bytes;
    size = v.reverted.size;
    some_len = v.reverted.some_len;
  };
  held = v.held;
  next = v.next;
  covers = λ p h. v.covers p (sym (contains_lines t x p) ∙ h);
}

closed_missed : (t : Text) (p : ℕ) → t.current ≡ none → cache_contains t p ≡ true → true ≡ false
unfolding cache_contains
closed_missed t p e h = missed (same t.cache (some p)) (sym (rw e refl) ∙ h)
  where
    missed : (b : Bool) → (b && false) ≡ true → true ≡ false
    missed b h = ground (arith, h)

-- An edit of the cached piece in its place.
hit-IsTracked :
    (t : Text) (r : Bool × Text) (now d : List ℕ) (past : List (List ℕ)) (writing : Bool) (pos : ℕ)
    → IsTracked t now writing past
    → IsHit (invalidate_from pos t) r d
    → (r.0 ≡ true) × IsTracked r.1 d true (opened writing now past)
unfolding Journal opened
hit-IsTracked t r now d past false pos v hit = absurd (
    ground (
      arith,
      closed_missed (invalidate_from pos t) hit.piece
          (ap (λ u. u.current) (invalidate_from_notes pos t) ∙ v.journal.current) hit.cached.hit,
    ))
hit-IsTracked t r now d [] true pos v hit = absurd (ground (arith, v.journal))
hit-IsTracked t r now d (c ∷ past) true pos v hit =
    let t1 = invalidate_from pos t in
    let (done, ready) = hit-IsReady t1 r d hit in
    let heap : Heaped t1 = subst Heaped (sym (invalidate_from_notes pos t)) v.heaped in
    let ahead : IsOpen t1 c past =
      subst (λ u. IsOpen u c past) (sym (invalidate_from_notes pos t))
        (lines-IsOpen t t1.lines c past v.journal) in
    let served =
      ((invalid-IsServed t v.ready.chain pos v.ready.served).clear hit.piece hit.cached.hit).0 in
    (
      done,
      record {
        ready = ready;
        heaped =
            subst (λ q. Heaped q.1) (sym hit.result)
              (after-Heaped t1 hit.piece hit.found hit.chain d hit.cached heap served c past ahead);
        journal =
            subst (λ q. IsOpen q.1 c past) (sym hit.result)
              (amended-IsOpen t1 hit.piece hit.found hit.chain d hit.cached heap served c past
                ahead);
      },
    )

allocated-Agrees :
    (t : Text) (l : List ℕ) (pos : ℕ) (cs : List ℕ) → Heaped t → Agrees t (allocated t l pos cs)
allocated-Agrees t l pos cs h =
    over (λ u. Agrees t u) t (allocated t l pos cs) (allocated-Beside t l pos cs)
      (λ w. record {
        fresh = omega arith;
        links = λ q k. (refl, refl);
        bytes = λ q k. (refl, refl, h q k);
        size = refl;
      })

stored-Agrees :
    (t : Text) (l : List ℕ) (pos : ℕ) (cs : List ℕ) → Heaped t → Agrees t (stored_text t l pos cs)
stored-Agrees t l pos cs h =
    let a = allocated-Agrees t l pos cs h in
    let kept = block_store-IsStored cs (allocated t l pos cs) in
    let same = kept.only_blocks in
    let heap = allocated-Heaped t l pos cs h in
    record {
      fresh = omega (arith, a.fresh, ap (λ u. u.fresh) same);
      links = λ q k.
          (ap (λ u. u.next q) same ∙ (a.links q k).0, ap (λ u. u.prev q) same ∙ (a.links q k).1);
      bytes = λ q k.
          let low : q < (allocated t l pos cs).fresh = omega (arith, k, a.fresh) in
          let (e, b, s) = kept.extends q low (heap q low) in
          ((e ∙ (a.bytes q k).0), b ∙ (a.bytes q k).1, s);
      size = ap (λ u. u.size) same ∙ a.size;
    }

-- text_insert of some data at a position of the text.
pub text_insert-IsTracked :
    (t : Text) (now : List ℕ) (writing : Bool) (past : List (List ℕ)) (pos : ℕ) (cs : List ℕ)
    → IsTracked t now writing past
    → pos ≤ length now
    → 0 < length cs
    → ((text_insert pos cs t).0 ≡ true)
      × IsTracked (text_insert pos cs t).1 (inserted now pos cs) true (opened writing now past)
text_insert-IsTracked t now writing past pos cs v h n =
    elim (text_insert_cases t now pos cs v.ready h n) [
      | inr hit ↦ hit-IsTracked t _ now _ past writing pos v hit
      | inl (done, e) ↦
          let l = v.ready.chain in
          let t1 = stored_text t l pos cs in
          let k = e.kept v.heaped in
          let (c, f) = stored_cache t l pos cs in
          let same = (block_store-IsStored cs (allocated t l pos cs)).only_blocks in
          (
            done,
            record {
              ready = insert_edited-IsReady t now pos cs v.ready e;
              heaped = edited-Heaped t1 _ l _ e k;
              journal =
                  edited-Journal t t1 _ l _ now past writing pos e k
                    (stored-Agrees t l pos cs v.heaped)
                    (λ p o. omega (arith, f, v.ready.served.below p (sym c ∙ o)))
                    (
                      ap (λ u. u.revs) same,
                      ap (λ u. u.current) same,
                      ap (λ u. u.history) same,
                      ap (λ u. u.nrevs) same,
                    )
                    v.ready v.journal;
            },
          )
    ]

-- text_delete of a range within the text.
pub text_delete-IsTracked :
    (t : Text) (now : List ℕ) (writing : Bool) (past : List (List ℕ)) (pos len : ℕ)
    → IsTracked t now writing past
    → pos + len ≤ length now
    → length now < 2 ^ 64
    → 0 < len
    → ((text_delete pos len t).0 ≡ true)
      × IsTracked (text_delete pos len t).1 (deleted now pos len) true (opened writing now past)
text_delete-IsTracked t now writing past pos len v h b n =
    elim (text_delete_cases t now pos len v.ready h b n) [
      | inr hit ↦ hit-IsTracked t _ now _ past writing pos v hit
      | inl (done, e) ↦
          let l = v.ready.chain in
          let t1 = allocated t l pos [] in
          let k = e.kept (allocated-Heaped t l pos [] v.heaped) in
          let (c, f) = allocated_cache t l pos [] in
          (
            done,
            record {
              ready = delete_edited-IsReady t now pos len v.ready e;
              heaped = edited-Heaped t1 _ l _ e k;
              journal =
                  edited-Journal t t1 _ l _ now past writing pos e k
                    (allocated-Agrees t l pos [] v.heaped)
                    (λ p o. omega (arith, f, v.ready.served.below p (sym c ∙ o)))
                    (refl, refl, refl, refl) v.ready v.journal;
            },
          )
    ]
