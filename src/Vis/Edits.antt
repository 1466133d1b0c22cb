-- ===== src/Vis/Edits.antt =====
-- vis/text.c: text_insert and text_delete make new pieces, or change the cached one in its place.
use suckless.Prelude.{
  ℕ, ◌+◌, ◌^◌, ◌≤◌, ◌<◌, ◌≡◌, ◌⊎◌, inl, inr, refl, sym, ap, ap₂, subst, ◌∙◌, Bool, true, List, [],
  ◌∷◌, ◌++◌, Option, some, arith, length,
}
use suckless.Vis.Text.{Text, cache_insert, cache_delete}
use suckless.Vis.Edit.{text_insert, text_delete, piece_get_intern, invalidate_from}
use suckless.Vis.Chain.{content, total, IsText}
use suckless.Vis.Frame.{content-beside, invalidate_from-Beside, over}
use suckless.Vis.Agree.{Heaped}
use suckless.Vis.Edited.{IsEditedAs, IsEdited, inserted}
use suckless.Vis.Inserted.{allocated, stored_text}
use suckless.Vis.Cut.{deleted}
use suckless.Vis.Erased.{equal_or_more}
use suckless.Vis.Undone.{
  Holds-size, text_insert_at, insert-IsPlace, invalid-IsText, nonempty, not_beyond, take-drop,
}
use suckless.Vis.Deletion.{text_delete_at, no_overflow}
use suckless.Vis.Served.{IsServed}
use suckless.Vis.Hits.{insert_cases, delete_cases}
use suckless.Vis.Cached.{IsCached}
use suckless.Vis.Ready.{
  IsReady, allocated_cache, cached-IsReady, edited-IsReady, invalid-IsServed, ready-Holds,
  stored_cache,
}

-- The branches of the operations where the cache serves.
text_insert_cached :
    (t u : Text) (pos : ℕ) (cs : List ℕ) (p at : ℕ)
    → pos ≤ t.size
    → 0 < length cs
    → piece_get_intern (invalidate_from pos t) pos ≡ some (p, at)
    → cache_insert (invalidate_from pos t) p at cs ≡ some u
    → text_insert pos cs t ≡ (true, u)
unfolding text_insert
text_insert_cached t u pos cs p at h n e c =
    rw (nonempty (length cs) n, not_beyond t.size pos h, e, c) refl

text_delete_cached :
    (t u : Text) (pos len p at : ℕ)
    → pos + len ≤ t.size
    → t.size < 2 ^ 64
    → 0 < len
    → piece_get_intern (invalidate_from pos t) pos ≡ some (p, at)
    → cache_delete (invalidate_from pos t) p at len ≡ some u
    → text_delete pos len t ≡ (true, u)
unfolding text_delete
text_delete_cached t u pos len p at h k n e c =
    rw (nonempty len n, no_overflow pos len t.size h k, e, c) refl

ready_size : (t : Text) (c : List ℕ) → IsReady t c → t.size ≡ length c
ready_size t c v = Holds-size t c (ready-Holds t c v)

invalid_content :
    (t : Text) (l : List ℕ) (pos : ℕ) → content (invalidate_from pos t) l ≡ content t l
invalid_content t l pos =
    over (λ u. content u l ≡ content t l) t (invalidate_from pos t) (invalidate_from-Beside pos t)
      (λ w. content-beside w t l)

-- The result r of an operation that changed the cached piece of t1 in its place.
pub record IsHit (t1 : Text) (r : Bool × Text) (c : List ℕ) : Type 0 where
  pub piece : ℕ
  pub found : Option Text
  pub chain : List ℕ
  pub cached : IsCached t1 piece found chain c
  pub result : r ≡ (true, cached.after)

pub hit-IsReady :
    (t1 : Text) (r : Bool × Text) (c : List ℕ) → IsHit t1 r c → (r.0 ≡ true) × IsReady r.1 c
hit-IsReady t1 r c v =
    subst (λ r. (r.0 ≡ true) × IsReady r.1 c) (sym v.result)
      (refl, cached-IsReady t1 v.piece v.found v.chain c v.cached)

-- text_insert makes new pieces, or changes the cached one.
pub text_insert_cases :
    (t : Text) (c : List ℕ) (pos : ℕ) (cs : List ℕ)
    → (v : IsReady t c) → pos ≤ length c
    → 0 < length cs
    → (((text_insert pos cs t).0 ≡ true)
        × IsEditedAs
            (Heaped t)
            (stored_text t v.chain pos cs)
            (text_insert pos cs t).1
            v.chain
            (inserted (content t v.chain) pos cs))
      ⊎ IsHit (invalidate_from pos t) (text_insert pos cs t) (inserted c pos cs)
text_insert_cases t c pos cs v h n =
    let t1 = invalidate_from pos t in
    let size = ready_size t c v in
    let place = insert-IsPlace t v.chain pos v.text (omega (arith, h, size)) in
    let split = place.splits in
    let cases =
      insert_cases t1 place.left place.piece place.succ place.right place.at cs
        (subst (IsText t1) split (invalid-IsText t v.chain pos v.text))
        (subst (IsServed t1) split (invalid-IsServed t v.chain pos v.served)) place.within in
    elim cases [
      | inl free ↦
          inl (text_insert_at t v.chain pos cs v.text (omega (arith, h, size)) n place free)
      | inr hit ↦
          let same : inserted (content t1 (place.left ++ place.piece ∷ (place.succ ∷ place.right)))
                (total t1 place.left + place.at) cs
              ≡ inserted c pos cs =
            ap₂ (λ b k. inserted b k cs)
              (ap (content t1) (sym split) ∙ (invalid_content t v.chain pos ∙ v.bytes))
              (omega (arith, place.position)) in
          inr (
            subst (IsHit t1 (text_insert pos cs t)) same (record {
              piece = place.piece;
              found = cache_insert t1 place.piece place.at cs;
              chain = place.left ++ place.piece ∷ (place.succ ∷ place.right);
              cached = hit;
              result =
                  text_insert_cached t hit.after pos cs place.piece place.at
                    (omega (arith, h, size)) n place.result hit.result;
            }))
    ]

pub insert_edited-IsReady :
    {H : Type 0}
    → (t : Text) (c : List ℕ) (pos : ℕ) (cs : List ℕ) (v : IsReady t c)
    → IsEditedAs H
        (stored_text t v.chain pos cs)
        (text_insert pos cs t).1
        v.chain
        (inserted (content t v.chain) pos cs)
    → IsReady (text_insert pos cs t).1 (inserted c pos cs)
insert_edited-IsReady t c pos cs v edit =
    subst (λ b. IsReady (text_insert pos cs t).1 (inserted b pos cs)) v.bytes
      (edited-IsReady t _ _ v.chain _ v.served (stored_cache t v.chain pos cs) edit)

text_insert_some :
    (t : Text) (c : List ℕ) (pos : ℕ) (cs : List ℕ)
    → (v : IsReady t c) → pos ≤ length c
    → 0 < length cs
    → ((text_insert pos cs t).0 ≡ true) × IsReady (text_insert pos cs t).1 (inserted c pos cs)
text_insert_some t c pos cs v h n = elim (text_insert_cases t c pos cs v h n) [
  | inl (done, edit) ↦ (done, insert_edited-IsReady t c pos cs v edit)
  | inr hit ↦ hit-IsReady _ _ _ hit
]

-- On a text that is ready, text_insert at a position up to its length puts the data in.
pub text_insert-IsReady :
    (t : Text) (c : List ℕ) (pos : ℕ) (cs : List ℕ)
    → IsReady t c
    → pos ≤ length c
    → ((text_insert pos cs t).0 ≡ true) × IsReady (text_insert pos cs t).1 (inserted c pos cs)
unfolding text_insert
text_insert-IsReady t c pos [] v h = (refl, subst (IsReady t) (sym (take-drop pos c)) v)
text_insert-IsReady t c pos (x ∷ cs) v h = text_insert_some t c pos (x ∷ cs) v h (omega arith)

-- text_delete makes new pieces, or changes the cached one.
pub text_delete_cases :
    (t : Text) (c : List ℕ) (pos len : ℕ)
    → (v : IsReady t c) → pos + len ≤ length c
    → length c < 2 ^ 64
    → 0 < len
    → (((text_delete pos len t).0 ≡ true)
        × IsEdited
            (allocated t v.chain pos [])
            (text_delete pos len t).1
            v.chain
            (deleted (content t v.chain) pos len))
      ⊎ IsHit (invalidate_from pos t) (text_delete pos len t) (deleted c pos len)
text_delete_cases t c pos len v h k n =
    let t1 = invalidate_from pos t in
    let size = ready_size t c v in
    let place = insert-IsPlace t v.chain pos v.text (omega (arith, h, size)) in
    let split = place.splits in
    let cases =
      delete_cases t1 place.left place.piece place.succ place.right place.at len
        (subst (IsText t1) split (invalid-IsText t v.chain pos v.text))
        (subst (IsServed t1) split (invalid-IsServed t v.chain pos v.served))
        (elim (equal_or_more pos 0 (omega arith)) [
          | inl e ↦ inr (place.start e)
          | inr i ↦ inl (place.inner i)
        ]) in
    elim cases [
      | inl free ↦ inl (
          text_delete_at t v.chain pos len v.text (omega (arith, h, size)) (omega (arith, k, size))
            n place free)
      | inr hit ↦
          let same : deleted (content t1 (place.left ++ place.piece ∷ (place.succ ∷ place.right)))
                (total t1 place.left + place.at) len
              ≡ deleted c pos len =
            ap₂ (λ b k. deleted b k len)
              (ap (content t1) (sym split) ∙ (invalid_content t v.chain pos ∙ v.bytes))
              (omega (arith, place.position)) in
          inr (
            subst (IsHit t1 (text_delete pos len t)) same (record {
              piece = place.piece;
              found = cache_delete t1 place.piece place.at len;
              chain = place.left ++ place.piece ∷ (place.succ ∷ place.right);
              cached = hit;
              result =
                  text_delete_cached t hit.after pos len place.piece place.at
                    (omega (arith, h, size)) (omega (arith, k, size)) n place.result hit.result;
            }))
    ]

pub delete_edited-IsReady :
    (t : Text) (c : List ℕ) (pos len : ℕ) (v : IsReady t c)
    → IsEdited
        (allocated t v.chain pos [])
        (text_delete pos len t).1
        v.chain
        (deleted (content t v.chain) pos len)
    → IsReady (text_delete pos len t).1 (deleted c pos len)
delete_edited-IsReady t c pos len v edit =
    subst (λ b. IsReady (text_delete pos len t).1 (deleted b pos len)) v.bytes
      (edited-IsReady t _ _ v.chain _ v.served (allocated_cache t v.chain pos []) edit)

-- On a text that is ready, text_delete of a range within it takes the range out.
pub text_delete-IsReady :
    (t : Text) (c : List ℕ) (pos len : ℕ)
    → IsReady t c
    → pos + len ≤ length c
    → length c < 2 ^ 64
    → 0 < len
    → ((text_delete pos len t).0 ≡ true) × IsReady (text_delete pos len t).1 (deleted c pos len)
text_delete-IsReady t c pos len v h k n = elim (text_delete_cases t c pos len v h k n) [
  | inl (done, edit) ↦ (done, delete_edited-IsReady t c pos len v edit)
  | inr hit ↦ hit-IsReady _ _ _ hit
]
