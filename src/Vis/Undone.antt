-- ===== src/Vis/Undone.antt =====
-- vis/text.c: text_insert on what a text holds, and text_undo after it.
use suckless.Prelude.{
  ℕ, zero, suc, ◌≤◌, ◌<◌, ◌≡◌, refl, sym, ap, subst, ◌∙◌, true, false, ◌==◌, ltb, List, [], ◌∷◌,
  ◌++◌, none, some, arith, length, take, drop,
}
use suckless.Vis.Text.{Text, Change, null_span, span_swap, cache_insert, cache_contains}
use suckless.Vis.Change.{change_alloc, text_snapshot}
use suckless.Vis.Edit.{text_insert, insert_new, piece_get_intern, invalidate_from, invalid_lines}
use suckless.Vis.Undo.{arrive, undo_at, undo_to, text_undo, revision_undo, undo_changes}
use suckless.Vis.Chain.{content, IsText, length-content}
use suckless.Vis.Find.{IsPlace, piece_get_intern-IsPlace}
use suckless.Vis.Frame.{beside, over, IsText-beside, content-beside, invalidate_from-Beside}
use suckless.Vis.Agree.{Heaped}
use suckless.Vis.Edited.{IsEditedAs, inserted}
use suckless.Vis.Inserted.{allocated, stored_text, stored_text-content, insert_new-IsEdited}
use suckless.Vis.Store.{block_store-IsStored}
use suckless.Vis.Notes.{
  IsNoted, IsNoted-same, edited-IsNoted, change_alloc-IsNoted, invalidate_from_notes,
}

-- The text is well formed and its pieces hold the bytes c.
pub record Holds (t : Text) (c : List ℕ) : Type 0 where
  pub chain : List ℕ
  pub text : IsText t chain
  pub bytes : content t chain ≡ c

pub Holds-size : (t : Text) (c : List ℕ) → Holds t c → t.size ≡ length c
Holds-size t c v = omega (arith, v.text.sized, length-content t v.chain, ap length v.bytes)

pub no_cache : (t : Text) (p : ℕ) → t.cache ≡ none → cache_contains t p ≡ false
unfolding cache_contains
no_cache t p h = rw h refl

not_cached : (t : Text) (p off : ℕ) (cs : List ℕ) → t.cache ≡ none → cache_insert t p off cs ≡ none
unfolding cache_insert
not_cached t p off cs h = rw (no_cache t p h, cache_insert) refl

pub nonempty : (n : ℕ) → 0 < n → (n == 0) ≡ false
nonempty n h = ground arith

pub not_beyond : (n m : ℕ) → m ≤ n → ltb n m ≡ false
not_beyond n m h = ground arith

pub edited-Holds :
    {H : Type 0} → (t u : Text) (l bytes : List ℕ) → IsEditedAs H t u l bytes → Holds u bytes
edited-Holds t u l bytes e = record {
  chain = e.chain;
  text = subst (λ u. IsText u e.chain) (sym e.result) e.swapped.text;
  bytes = ap (λ u. content u e.chain) e.result ∙ (e.swapped.bytes ∙ e.bytes_are);
}

-- The branch of text_insert that makes new pieces.
text_insert_new :
    (t : Text) (pos : ℕ) (cs : List ℕ) (p at : ℕ)
    → pos ≤ t.size
    → 0 < length cs
    → piece_get_intern (invalidate_from pos t) pos ≡ some (p, at)
    → cache_insert (invalidate_from pos t) p at cs ≡ none
    → text_insert pos cs t ≡ (true, insert_new pos p at cs (invalidate_from pos t))
unfolding text_insert
text_insert_new t pos cs p at h n e c =
    rw (nonempty (length cs) n, not_beyond t.size pos h, e, c) refl

-- The text after a position is found, and the insertion at it where the cache does not serve.
pub invalid-IsText :
    (t : Text) (l : List ℕ) (pos : ℕ) → IsText t l → IsText (invalidate_from pos t) l
invalid-IsText t l pos is =
    over (λ u. IsText u l) t (invalidate_from pos t) (invalidate_from-Beside pos t)
      (λ w. IsText-beside w t l is)

pub insert-IsPlace :
    (t : Text) (l : List ℕ) (pos : ℕ)
    → IsText t l
    → pos ≤ t.size
    → IsPlace (invalidate_from pos t) l 0 pos (piece_get_intern (invalidate_from pos t) pos)
insert-IsPlace t l pos is h =
    piece_get_intern-IsPlace (invalidate_from pos t) l pos (invalid-IsText t l pos is)
      (omega (arith, h, ap (λ u. u.size) (invalidate_from_notes pos t)))

pub text_insert_at :
    (t : Text) (l : List ℕ) (pos : ℕ) (cs : List ℕ)
    → IsText t l
    → pos ≤ t.size
    → 0 < length cs
    → (place : IsPlace
        (invalidate_from pos t)
        l
        0
        pos
        (piece_get_intern (invalidate_from pos t) pos))
    → cache_insert (invalidate_from pos t) place.piece place.at cs ≡ none
    → ((text_insert pos cs t).0 ≡ true)
      × IsEditedAs
          (Heaped t)
          (stored_text t l pos cs)
          (text_insert pos cs t).1
          l
          (inserted (content t l) pos cs)
text_insert_at t l pos cs is h n place free =
    subst
      (λ r.
        (r.0 ≡ true)
        × IsEditedAs (Heaped t) (stored_text t l pos cs) r.1 l (inserted (content t l) pos cs))
      (sym (text_insert_new t pos cs place.piece place.at h n place.result free))
      (
        refl,
        subst
            (λ b.
              IsEditedAs (Heaped t) (stored_text t l pos cs)
                (insert_new pos place.piece place.at cs (invalidate_from pos t)) l
                (inserted b pos cs))
            (stored_text-content t l pos cs is) (insert_new-IsEdited t l pos cs is n place),
      )

pub text_insert_edit :
    (t : Text) (l : List ℕ) (pos : ℕ) (cs : List ℕ)
    → IsText t l
    → pos ≤ t.size
    → 0 < length cs
    → t.cache ≡ none
    → ((text_insert pos cs t).0 ≡ true)
      × IsEditedAs
          (Heaped t)
          (stored_text t l pos cs)
          (text_insert pos cs t).1
          l
          (inserted (content t l) pos cs)
text_insert_edit t l pos cs is h n c =
    let place = insert-IsPlace t l pos is h in
    text_insert_at t l pos cs is h n place (
      not_cached (invalidate_from pos t) place.piece place.at cs
        (ap (λ u. u.cache) (invalidate_from_notes pos t) ∙ c))

pub take-drop : (n : ℕ) (l : List ℕ) → take n l ++ drop n l ≡ l
take-drop zero l = refl
take-drop (suc n) [] = refl
take-drop (suc n) (x ∷ l) = ap (λ m. x ∷ m) (take-drop n l)

-- On a text that holds the bytes c, with an empty cache, text_insert at a position up to the length
-- of c succeeds, and the text then holds c with the data put in before that position.
pub text_insert-Holds :
    (t : Text) (c : List ℕ) (pos : ℕ) (cs : List ℕ)
    → Holds t c
    → pos ≤ length c
    → t.cache ≡ none
    → ((text_insert pos cs t).0 ≡ true) × Holds (text_insert pos cs t).1 (inserted c pos cs)
unfolding text_insert
text_insert-Holds t c pos [] v h e = (refl, subst (Holds t) (sym (take-drop pos c)) v)
text_insert-Holds t c pos (x ∷ cs) v h e =
    let (done, edit) =
      text_insert_edit t v.chain pos (x ∷ cs) v.text
        (omega (arith, h, v.text.sized, length-content t v.chain, ap length v.bytes)) (omega arith)
        e in
    (
      done,
      subst (λ b. Holds (text_insert pos (x ∷ cs) t).1 (inserted b pos (x ∷ cs))) v.bytes
          (edited-Holds _ _ v.chain _ edit),
    )

-- One undo after an edit of a text with the snapshot taken before.
pub undo_step :
    (u : Text) (r h : ℕ) (c : Change)
    → IsNoted u r (some h) (c ∷ [])
    → text_undo u ≡ arrive h (some c.pos, span_swap c.new c.old (text_snapshot u))
unfolding text_undo undo_at undo_to text_snapshot revision_undo undo_changes
undo_step u r h c n =
    ap (λ o. undo_at o (text_snapshot u)) n.history
    ∙ (ap (λ o. undo_to r o (text_snapshot u)) n.prev
        ∙ ap (λ cs. arrive h (undo_changes cs none (text_snapshot u))) n.changes)

-- The text after an undo, but for its pieces.
abbrev pub undone_notes : ℕ → Text → Text
undone_notes h u = record (text_snapshot u) { history = some h; lines = invalid_lines }

-- After an edit that is the only change of its revision, text_undo gives the text before the swap.
pub text_undo-edited :
    {H : Type 0} (t u : Text) (l bytes : List ℕ) (e : IsEditedAs H t u l bytes) (r h : ℕ)
    (c : Change)
    → IsNoted t r (some h) (c ∷ [])
    → text_undo u ≡ (some c.pos, beside (undone_notes h u) e.recorded)
unfolding text_snapshot
text_undo-edited t u l bytes e r h c n =
    undo_step u r h (record c { old = e.old; new = e.new })
      (edited-IsNoted t u l bytes e r (some h) c [] n)
    ∙ ap (λ v. arrive h (some c.pos, v))
        (ap (λ v. span_swap e.new e.old (beside (text_snapshot u) v)) e.result
          ∙ e.swapped.back (text_snapshot u))

pub edited-text_undo :
    {H : Type 0} (t u : Text) (l bytes : List ℕ) (e : IsEditedAs H t u l bytes) (r h : ℕ)
    (c : Change)
    → IsNoted t r (some h) (c ∷ [])
    → ((text_undo u).0 ≡ some c.pos) × Holds (text_undo u).1 (content t l)
edited-text_undo t u l bytes e r h c n =
    let w = undone_notes h u in
    subst (λ p. (p.0 ≡ some c.pos) × Holds p.1 (content t l))
      (sym (text_undo-edited t u l bytes e r h c n))
      (
        refl,
        record {
          chain = l;
          text =
              over (λ v. IsText (beside w v) l) e.base e.recorded e.noted
                (λ w'. IsText-beside w e.base l e.base_text);
          bytes =
              over (λ v. content (beside w v) l ≡ content t l) e.base e.recorded e.noted
                (λ w'. content-beside w e.base l ∙ e.base_bytes);
        },
      )

-- The change that an edit of a text without a current revision starts with.
abbrev pub change_of : ℕ → Change
change_of pos = record { old = null_span; new = null_span; pos = pos }

abbrev pub first_change : ℕ → List Change
first_change pos = change_of pos ∷ []

pub allocated-IsNoted :
    (t : Text) (l : List ℕ) (pos h : ℕ) (cs : List ℕ)
    → t.current ≡ none
    → t.history ≡ some h
    → IsNoted (allocated t l pos cs) (invalidate_from pos t).nrevs (some h) (first_change pos)
allocated-IsNoted t l pos h cs e k =
    let notes = invalidate_from_notes pos t in
    subst (λ o. IsNoted (allocated t l pos cs) (invalidate_from pos t).nrevs o (first_change pos))
      (ap (λ u. u.history) notes ∙ k)
      (change_alloc-IsNoted pos (invalidate_from pos t) (ap (λ u. u.current) notes ∙ e))

pub stored_text-IsNoted :
    (t : Text) (l : List ℕ) (pos h : ℕ) (cs : List ℕ)
    → t.current ≡ none
    → t.history ≡ some h
    → IsNoted (stored_text t l pos cs) (invalidate_from pos t).nrevs (some h) (first_change pos)
stored_text-IsNoted t l pos h cs e k =
    let blocks = (block_store-IsStored cs (change_alloc pos (invalidate_from pos t))).only_blocks in
    IsNoted-same (allocated t l pos cs) (stored_text t l pos cs) (invalidate_from pos t).nrevs
      (some h) (first_change pos) (ap (λ u. u.revs) blocks) (ap (λ u. u.current) blocks)
      (ap (λ u. u.history) blocks) (allocated-IsNoted t l pos h cs e k)

-- On a text that holds the bytes c, with an empty cache, no current revision and a history at some
-- revision, text_insert of at least one byte and then text_undo give the position of the insertion
-- and a text that holds c.
pub text_undo-text_insert :
    (t : Text) (c : List ℕ) (pos h : ℕ) (cs : List ℕ)
    → Holds t c
    → pos ≤ length c
    → 0 < length cs
    → t.cache ≡ none
    → t.current ≡ none
    → t.history ≡ some h
    → ((text_undo (text_insert pos cs t).1).0 ≡ some pos)
      × Holds (text_undo (text_insert pos cs t).1).1 c
text_undo-text_insert t c pos h cs v p n e k g =
    let (done, edit) =
      text_insert_edit t v.chain pos cs v.text
        (omega (arith, p, v.text.sized, length-content t v.chain, ap length v.bytes)) n e in
    let (at, held) =
      edited-text_undo (stored_text t v.chain pos cs) (text_insert pos cs t).1 v.chain _ edit
        (invalidate_from pos t).nrevs h _ (stored_text-IsNoted t v.chain pos h cs k g) in
    (
      at,
      subst (Holds (text_undo (text_insert pos cs t).1).1)
          (stored_text-content t v.chain pos cs v.text ∙ v.bytes) held,
    )
