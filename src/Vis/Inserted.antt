-- ===== src/Vis/Inserted.antt =====
-- vis/text.c, text_insert: the branch that makes new pieces, on the text with the change allocated.
use suckless.Prelude.{
  ℕ, ◌+◌, ◌≤◌, ◌<◌, ◌≡◌, ◌⊎◌, inl, inr, refl, sym, ap, subst, ◌∙◌, true, false, ◌==◌, if◌then◌else◌,
  List, [], ◌∷◌, ◌++◌, arith, length,
}
use mathlib.Core.List.{append_assoc}
use suckless.Vis.Links.{head_or}
use suckless.Vis.Text.{Text, ending, block_store}
use suckless.Vis.Change.{change_alloc}
use suckless.Vis.Edit.{insert_between, insert_inside, insert_new, piece_get_intern, invalidate_from}
use suckless.Vis.Chain.{
  total_pointwise, content, total, slice, IsText, total-append, content-Extends, Stored, AllStored,
}
use suckless.Vis.Find.{IsPlace}
use suckless.Vis.Frame.{
  Beside, Beside-trans, over, IsText-beside, content-beside, invalidate_from-Beside,
  change_alloc-Beside,
}
use suckless.Vis.Served.{Every}
use suckless.Vis.Store.{Before, block_store-IsStored, stored-IsText}
use suckless.Vis.Agree.{Heaped}
use suckless.Vis.Edited.{IsEditedAs, inserted, insert_between-IsEdited, insert_inside-IsEdited}

-- The list x ∷ l, by its last element.
pub record Snoc (l : List ℕ) : Type 0 where
  pub init : List ℕ
  pub last : ℕ
  pub splits : l ≡ init ++ last ∷ []

pub snoc : (x : ℕ) (l : List ℕ) → Snoc (x ∷ l)
snoc x [] = record { init = []; last = x; splits = refl }
snoc x (y ∷ l) =
    let k = snoc y l in
    record { init = x ∷ k.init; last = k.last; splits = ap (λ m. x ∷ m) k.splits }

pub within_cases : (m n : ℕ) → m ≤ n → (m ≡ n) ⊎ (m < n)
within_cases m n h = ground arith

pub equal_test : (m n : ℕ) → m ≡ n → (m == n) ≡ true
equal_test m n h = ground arith

pub below_test : (m n : ℕ) → m < n → (m == n) ≡ false
below_test m n h = ground arith

module _ (t : Text) (p s : ℕ) (right : List ℕ) (blk off at : ℕ) (cs : List ℕ) (pos : 0 < length cs)
    (b : blk < t.nblocks) (room : off + length cs ≤ (t.blocks blk).len)
    (stored : slice (t.blocks blk).bytes off (length cs) ≡ cs) (last : blk + 1 ≡ t.nblocks)
    (full : off + length cs ≡ (t.blocks blk).len) (H : Type 0)
    (pre : H
      → Heaped t × ((q : ℕ) → q < t.fresh → Before blk off (t.blk q) (t.off q) (t.len q))) where
  abbrev Cleared : List ℕ → Type 0
  Cleared l = Every (λ q. Before blk off (t.blk q) (t.off q) (t.len q)) l

  abbrev at_place : Text
  at_place =
      if at == t.len p
      then insert_between p blk off (length cs) t
      else insert_inside p at blk off (length cs) t

  inside_at :
      (left l : List ℕ) (a n : ℕ)
      → l ≡ left ++ a ∷ (p ∷ s ∷ right)
      → n ≡ total t left + t.len a + at
      → IsText t l
      → Cleared l
      → at < t.len p
      → IsEditedAs H t at_place l (inserted (content t l) n cs)
  inside_at left l a n e f is c h =
      rw (e, f, below_test at (t.len p) h)
        (insert_inside-IsEdited H t left a p s right blk off at cs (subst (IsText t) e is) h pos b
          room stored last full (subst Cleared e c) pre)

  -- The piece that the data goes into is not the first one, which is empty.
  inside_after :
      (left l : List ℕ)
      → l ≡ left ++ p ∷ (s ∷ right)
      → IsText t l
      → Cleared l
      → at < t.len p
      → IsEditedAs H t at_place l (inserted (content t l) (total t left + at) cs)
  unfolding total
  inside_after [] l e is c h =
      absurd
        (omega (arith, h, is.begin_len, ap t.len (ap (λ m. head_or m ending) (sym e) ∙ is.first)))
  inside_after (x ∷ left) l e is c h =
      let view = snoc x left in
      let parts = ap (λ m. m ++ p ∷ (s ∷ right)) view.splits in
      inside_at view.init l view.last (total t (x ∷ left) + at)
        (e ∙ (parts ∙ append_assoc view.init (view.last ∷ []) (p ∷ (s ∷ right))))
        (omega (arith, ap (total t) view.splits, total-append t view.init (view.last ∷ []))) is c h

  at_place-IsEdited :
      (left l : List ℕ)
      → l ≡ left ++ p ∷ (s ∷ right)
      → IsText t l
      → Cleared l
      → at ≤ t.len p
      → IsEditedAs H t at_place l (inserted (content t l) (total t left + at) cs)
  at_place-IsEdited left l e is c h = elim (within_cases at (t.len p) h) [
    | inl k ↦
        rw (e, equal_test at (t.len p) k, k)
          (insert_between-IsEdited H t left p s right blk off cs (subst (IsText t) e is) pos b room
            stored last full (subst Cleared e c) pre)
    | inr k ↦ inside_after left l e is c k
  ]

Stored-Every :
    (t : Text) (P : ℕ → Type 0)
    → ((q : ℕ) → Stored t q → P q)
    → (l : List ℕ) → AllStored t l
    → Every P l
Stored-Every t P h [] s = tt
Stored-Every t P h (q ∷ l) s = (h q s.0, Stored-Every t P h l s.1)

-- The text with the change allocated and the data stored.
module _ (t : Text) (l : List ℕ) (pos : ℕ) (cs : List ℕ) where
  abbrev pub allocated : Text
  allocated = change_alloc pos (invalidate_from pos t)

  abbrev pub stored_text : Text
  stored_text = (block_store cs allocated).1

  pub allocated-Beside : Beside t allocated
  allocated-Beside =
      Beside-trans t _ _ (invalidate_from-Beside pos t)
        (change_alloc-Beside pos (invalidate_from pos t))

  pub allocated-IsText : IsText t l → IsText allocated l
  allocated-IsText is =
      over (λ u. IsText u l) t allocated allocated-Beside (λ w. IsText-beside w t l is)

  pub stored_text-IsText : IsText t l → IsText stored_text l
  stored_text-IsText is =
      stored-IsText allocated stored_text cs _ l (block_store-IsStored cs allocated)
        (allocated-IsText is)

  pub stored_text-content : IsText t l → content stored_text l ≡ content t l
  stored_text-content is =
      let v = allocated-IsText is in
      (content-Extends allocated stored_text l (block_store-IsStored cs allocated).extends v.below
        v.stored).0
      ∙ over (λ u. content u l ≡ content t l) t allocated allocated-Beside
          (λ w. content-beside w t l)

  stored_text-Before :
      AllStored allocated l
      → let (blk, off) = (block_store cs allocated).0 in
        Every (λ q. Before blk off (stored_text.blk q) (stored_text.off q) (stored_text.len q)) l
  stored_text-Before h =
      let kept = block_store-IsStored cs allocated in
      subst
        (λ u.
          let (blk, off) = (block_store cs allocated).0 in
          Every (λ q. Before blk off (u.blk q) (u.off q) (u.len q)) l)
        (sym kept.only_blocks) (Stored-Every allocated _ kept.behind l h)

  pub allocated-Heaped : Heaped t → Heaped allocated
  allocated-Heaped h = over (λ u. Heaped u) t allocated allocated-Beside (λ w. h)

  pub stored_all :
      Heaped t
      → let (blk, off) = (block_store cs allocated).0 in
        Heaped stored_text
        × ((q : ℕ)
            → q < stored_text.fresh
            → Before blk off (stored_text.blk q) (stored_text.off q) (stored_text.len q))
  stored_all h =
      let kept = block_store-IsStored cs allocated in
      let heap = allocated-Heaped h in
      let same : stored_text.fresh ≡ allocated.fresh = ap (λ u. u.fresh) kept.only_blocks in
      (
        (λ q k.
            let low : q < allocated.fresh = omega (arith, k, same) in
            (kept.extends q low (heap q low)).2),
        subst
            (λ u.
              let (blk, off) = (block_store cs allocated).0 in
              (q : ℕ) → q < u.fresh → Before blk off (u.blk q) (u.off q) (u.len q))
            (sym kept.only_blocks) (λ q k. kept.behind q (heap q k)),
      )

  stored_text-len : stored_text.len ≡ (invalidate_from pos t).len
  stored_text-len =
      ap (λ u. u.len) (block_store-IsStored cs allocated).only_blocks
      ∙ ap (λ u. u.len) (change_alloc-Beside pos (invalidate_from pos t))

  pub insert_new-IsEdited :
      IsText t l
      → 0 < length cs
      → (place : IsPlace
          (invalidate_from pos t)
          l
          0
          pos
          (piece_get_intern (invalidate_from pos t) pos))
      → IsEditedAs
          (Heaped t)
          stored_text
          (insert_new pos place.piece place.at cs (invalidate_from pos t))
          l
          (inserted (content stored_text l) pos cs)
  unfolding insert_new
  insert_new-IsEdited is h place =
      let kept = block_store-IsStored cs allocated in
      subst
        (λ n.
          IsEditedAs (Heaped t) stored_text
            (insert_new pos place.piece place.at cs (invalidate_from pos t)) l
            (inserted (content stored_text l) n cs))
        (omega (
          arith,
          place.position,
          total_pointwise (invalidate_from pos t) stored_text place.left
              (λ p. ap (λ f. f p) stored_text-len),
        ))
        (at_place-IsEdited stored_text place.piece place.succ place.right _ _ place.at cs h
          kept.block kept.room kept.stored_data kept.last_block kept.full (Heaped t) stored_all
          place.left l place.splits (stored_text-IsText is)
          (stored_text-Before (allocated-IsText is).stored)
          (omega (arith, place.within, ap (λ f. f place.piece) stored_text-len)))
