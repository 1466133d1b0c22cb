-- ===== src/Vis/Deletion.antt =====
-- vis/text.c: text_delete on what a text holds, where the cache is empty, and text_undo after it.
use suckless.Prelude.{
  ℕ, ◌+◌, ◌-◌, ◌^◌, ◌≤◌, ◌<◌, ◌≡◌, ◌⊎◌, inl, inr, refl, sym, ap, subst, ◌∙◌, Bool, true, false, not,
  ◌==◌, ◌||◌, ltb, if◌then◌else◌, List, [], ◌∷◌, ◌++◌, none, some, arith, length,
}
use suckless.Vis.Block.{overflows}
use suckless.Vis.Text.{Text, cache_delete}
use suckless.Vis.Change.{change_alloc}
use suckless.Vis.Edit.{
  skip_from, piece_alloc, delete_new, text_delete, piece_get_intern, invalidate_from,
}
use suckless.Vis.Undo.{text_undo}
use suckless.Vis.Chain.{total_pointwise, content, total, total-append, IsText, length-content}
use suckless.Vis.Find.{IsPlace}
use suckless.Vis.Frame.{over, content-beside, change_alloc-Beside}
use suckless.Vis.Edited.{IsEdited}
use suckless.Vis.Inserted.{
  snoc, within_cases, equal_test, below_test, allocated, allocated-IsText, allocated-Beside,
}
use suckless.Vis.Cut.{deleted}
use suckless.Vis.Erased.{cut_stop, boundary-IsEdited, midway-IsEdited, equal_or_more}
use suckless.Vis.Notes.{invalidate_from_notes}
use suckless.Vis.Undone.{
  Holds, edited-Holds, insert-IsPlace, edited-text_undo, allocated-IsNoted, change_of, no_cache,
  nonempty,
}

abbrev cut_from : Bool → ℕ → ℕ → ℕ → Text → Text
cut_from midway p at len t =
    let t1 = if midway then piece_alloc 1 t else t in
    cut_stop midway (if midway then t.fresh else p) p at len t1
      (skip_from t1.fresh t1 len p (if midway then t1.len p - at else 0))

delete_new-cut_from :
    (pos p at len : ℕ) (t : Text)
    → delete_new pos p at len t
      ≡ cut_from (not (at == (change_alloc pos t).len p)) p at len (change_alloc pos t)
unfolding delete_new
delete_new-cut_from pos p at len t = refl

one_total : (t : Text) (p : ℕ) → total t (p ∷ []) ≡ t.len p
unfolding total
one_total t p = omega arith

cut_from_within :
    (t : Text) (left : List ℕ) (p s : ℕ) (right : List ℕ) (at len : ℕ)
    → IsText t (left ++ p ∷ (s ∷ right))
    → 0 < len
    → at + len ≤ t.len p + total t (s ∷ right)
    → at < t.len p
    → (0 < at) ⊎ (left ≡ [])
    → IsEdited t
        (cut_from true p at len t)
        (left ++ p ∷ (s ∷ right))
        (deleted (content t (left ++ p ∷ (s ∷ right))) (total t left + at) len)
cut_from_within t [] p s right at len is n h k o =
    absurd (omega (arith, k, is.begin_len, ap t.len is.first))
cut_from_within t (x ∷ left) p s right at len is n h k o =
    let view = snoc x left in
    midway-IsEdited t (x ∷ left) p s right at len is n h view.init view.last
      (total t (x ∷ left) + at) view.splits
      (omega (
        arith,
        ap (total t) view.splits,
        total-append t view.init (view.last ∷ []),
        one_total t view.last,
      ))
      (elim o [ inl i ↦ i | inr e ↦ absurd (omega (arith, ap length e)) ]) k

cut_from-IsEdited :
    (t : Text) (left : List ℕ) (p s : ℕ) (right : List ℕ) (at len : ℕ)
    → IsText t (left ++ p ∷ (s ∷ right))
    → 0 < len
    → at + len ≤ t.len p + total t (s ∷ right)
    → at ≤ t.len p
    → (0 < at) ⊎ (left ≡ [])
    → IsEdited t
        (cut_from (not (at == t.len p)) p at len t)
        (left ++ p ∷ (s ∷ right))
        (deleted (content t (left ++ p ∷ (s ∷ right))) (total t left + at) len)
cut_from-IsEdited t left p s right at len is n h w o = elim (within_cases at (t.len p) w) [
  | inl e ↦ rw (equal_test at (t.len p) e) (boundary-IsEdited t left p s right at len is n h e)
  | inr k ↦ rw (below_test at (t.len p) k) (cut_from_within t left p s right at len is n h k o)
]

-- The text with the change allocated, and the deletion in it.
delete_new-IsEdited :
    (t : Text) (l : List ℕ) (pos len : ℕ)
    → IsText t l
    → 0 < len
    → pos + len ≤ t.size
    → (place : IsPlace
        (invalidate_from pos t)
        l
        0
        pos
        (piece_get_intern (invalidate_from pos t) pos))
    → IsEdited
        (allocated t l pos [])
        (delete_new pos place.piece place.at len (invalidate_from pos t))
        l
        (deleted (content (allocated t l pos []) l) pos len)
unfolding total
delete_new-IsEdited t l pos len is n h place =
    let t0 = allocated t l pos [] in
    let is0 = allocated-IsText t l pos [] is in
    let chain = place.left ++ place.piece ∷ (place.succ ∷ place.right) in
    let lens = ap (λ u. u.len) (change_alloc-Beside pos (invalidate_from pos t)) in
    let before = total_pointwise (invalidate_from pos t) t0 place.left (λ p. ap (λ f. f p) lens) in
    let size = ap (λ u. u.size) (allocated-Beside t l pos []) in
    let cut =
      cut_from-IsEdited t0 place.left place.piece place.succ place.right place.at len
        (subst (IsText t0) place.splits is0) n
        (omega (
          arith,
          h,
          size,
          is0.sized,
          ap (total t0) place.splits,
          total-append t0 place.left (place.piece ∷ (place.succ ∷ place.right)),
          before,
          place.position,
        ))
        (omega (arith, place.within, ap (λ f. f place.piece) lens))
        (elim (equal_or_more pos 0 (omega arith)) [
          | inl e ↦ inr (place.start e)
          | inr i ↦ inl (place.inner i)
        ]) in
    subst (λ u. IsEdited t0 u l (deleted (content t0 l) pos len))
      (sym (delete_new-cut_from pos place.piece place.at len (invalidate_from pos t)))
      (subst
        (λ k.
          IsEdited t0 (cut_from (not (place.at == t0.len place.piece)) place.piece place.at len t0)
            k (deleted (content t0 k) pos len))
        (sym place.splits)
        (subst
          (λ k.
            IsEdited t0
              (cut_from (not (place.at == t0.len place.piece)) place.piece place.at len t0) chain
              (deleted (content t0 chain) k len))
          (omega (arith, before, place.position)) cut))

not_cached_delete : (t : Text) (p off n : ℕ) → t.cache ≡ none → cache_delete t p off n ≡ none
unfolding cache_delete
not_cached_delete t p off n h = rw (no_cache t p h, cache_delete) refl

pub no_overflow : (a b c : ℕ) → a + b ≤ c → c < 2 ^ 64 → (overflows a b || ltb c (a + b)) ≡ false
no_overflow a b c h k = ground (arith, h, k)

-- The branch of text_delete that makes new pieces.
text_delete_new :
    (t : Text) (pos len p at : ℕ)
    → pos + len ≤ t.size
    → t.size < 2 ^ 64
    → 0 < len
    → piece_get_intern (invalidate_from pos t) pos ≡ some (p, at)
    → cache_delete (invalidate_from pos t) p at len ≡ none
    → text_delete pos len t ≡ (true, delete_new pos p at len (invalidate_from pos t))
unfolding text_delete
text_delete_new t pos len p at h k n e c =
    rw (nonempty len n, no_overflow pos len t.size h k, e, c) refl

pub text_delete_at :
    (t : Text) (l : List ℕ) (pos len : ℕ)
    → IsText t l
    → pos + len ≤ t.size
    → t.size < 2 ^ 64
    → 0 < len
    → (place : IsPlace
        (invalidate_from pos t)
        l
        0
        pos
        (piece_get_intern (invalidate_from pos t) pos))
    → cache_delete (invalidate_from pos t) place.piece place.at len ≡ none
    → ((text_delete pos len t).0 ≡ true)
      × IsEdited (allocated t l pos []) (text_delete pos len t).1 l (deleted (content t l) pos len)
text_delete_at t l pos len is h k n place free =
    let same =
      over (λ u. content u l ≡ content t l) t (allocated t l pos []) (allocated-Beside t l pos [])
        (λ w. content-beside w t l) in
    subst
      (λ r. (r.0 ≡ true) × IsEdited (allocated t l pos []) r.1 l (deleted (content t l) pos len))
      (sym (text_delete_new t pos len place.piece place.at h k n place.result free))
      (
        refl,
        subst
            (λ b.
              IsEdited (allocated t l pos [])
                (delete_new pos place.piece place.at len (invalidate_from pos t)) l
                (deleted b pos len))
            same (delete_new-IsEdited t l pos len is n h place),
      )

pub text_delete_edit :
    (t : Text) (l : List ℕ) (pos len : ℕ)
    → IsText t l
    → pos + len ≤ t.size
    → t.size < 2 ^ 64
    → 0 < len
    → t.cache ≡ none
    → ((text_delete pos len t).0 ≡ true)
      × IsEdited (allocated t l pos []) (text_delete pos len t).1 l (deleted (content t l) pos len)
text_delete_edit t l pos len is h k n c =
    let place = insert-IsPlace t l pos is (omega (arith, h)) in
    text_delete_at t l pos len is h k n place (
      not_cached_delete (invalidate_from pos t) place.piece place.at len
        (ap (λ u. u.cache) (invalidate_from_notes pos t) ∙ c))

-- On a text that holds the bytes c, fewer than 2 ^ 64, with an empty cache, text_delete of at least
-- one byte within c succeeds, and the text then holds c without that range.
pub text_delete-Holds :
    (t : Text) (c : List ℕ) (pos len : ℕ)
    → Holds t c
    → pos + len ≤ length c
    → length c < 2 ^ 64
    → 0 < len
    → t.cache ≡ none
    → ((text_delete pos len t).0 ≡ true) × Holds (text_delete pos len t).1 (deleted c pos len)
text_delete-Holds t c pos len v h k n e =
    let size : t.size ≡ length c =
      omega (arith, v.text.sized, length-content t v.chain, ap length v.bytes) in
    let (done, edit) =
      text_delete_edit t v.chain pos len v.text (omega (arith, h, size)) (omega (arith, k, size)) n
        e in
    (
      done,
      subst (λ b. Holds (text_delete pos len t).1 (deleted b pos len)) v.bytes
          (edited-Holds _ _ v.chain _ edit),
    )

-- On a text that holds the bytes c, fewer than 2 ^ 64, with an empty cache, no current revision and
-- a history at some revision, text_delete of at least one byte within c and then text_undo give the
-- position of the deletion and a text that holds c.
pub text_undo-text_delete :
    (t : Text) (c : List ℕ) (pos len h : ℕ)
    → Holds t c
    → pos + len ≤ length c
    → length c < 2 ^ 64
    → 0 < len
    → t.cache ≡ none
    → t.current ≡ none
    → t.history ≡ some h
    → ((text_undo (text_delete pos len t).1).0 ≡ some pos)
      × Holds (text_undo (text_delete pos len t).1).1 c
text_undo-text_delete t c pos len h v p k n e o g =
    let size : t.size ≡ length c =
      omega (arith, v.text.sized, length-content t v.chain, ap length v.bytes) in
    let (done, edit) =
      text_delete_edit t v.chain pos len v.text (omega (arith, p, size)) (omega (arith, k, size)) n
        e in
    let (at, held) =
      edited-text_undo (allocated t v.chain pos []) (text_delete pos len t).1 v.chain _ edit
        (invalidate_from pos t).nrevs h (change_of pos)
        (allocated-IsNoted t v.chain pos h [] o g) in
    let same =
      over (λ u. content u v.chain ≡ content t v.chain) t (allocated t v.chain pos [])
        (allocated-Beside t v.chain pos []) (λ w. content-beside w t v.chain) in
    (at, subst (Holds (text_undo (text_delete pos len t).1).1) (same ∙ v.bytes) held)
