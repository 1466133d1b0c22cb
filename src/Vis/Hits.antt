-- ===== src/Vis/Hits.antt =====
-- vis/text.c, cache_insert and cache_delete: they change the cached piece in its place, or give up.
use suckless.Prelude.{
  Bool-cases, leb, ltb, ℕ, ◌+◌, ◌-◌, ◌≤◌, ◌<◌, ◌≡◌, ◌⊎◌, inl, inr, refl, sym, ap, ◌∙◌, true, false,
  not, ◌||◌, List, [], ◌∷◌, ◌++◌, none, arith, length,
}
use suckless.Vis.Block.{Block, block_insert, block_delete, block_capacity, overflows}
use suckless.Vis.Text.{Text, ending, cache_insert, cache_delete, cache_contains}
use suckless.Vis.Links.{head_or}
use suckless.Vis.Chain.{content, total, total-append, IsText}
use suckless.Vis.Edited.{inserted}
use suckless.Vis.Cut.{deleted}
use suckless.Vis.Served.{IsServed}
use suckless.Vis.Cached.{IsCached, cache_insert-IsCached, cache_delete-IsCached}

insert_missed :
    (t : Text) (p at : ℕ) (cs : List ℕ) → cache_contains t p ≡ false → cache_insert t p at cs ≡ none
unfolding cache_insert
insert_missed t p at cs h = rw (h, cache_insert) refl

block_full :
    (b : Block) (pos : ℕ) (cs : List ℕ)
    → leb (length cs) (b.size - b.len) ≡ false
    → block_insert b pos cs ≡ none
unfolding block_insert block_capacity
block_full b pos cs h =
    let test : (ltb b.len pos || not (leb (length cs) (b.size - b.len))) ≡ true =
      ground (arith, h) in
    rw test refl

insert_full :
    (t : Text) (p at : ℕ) (cs : List ℕ)
    → cache_contains t p ≡ true
    → (let b = t.blocks (t.nblocks - 1) in leb (length cs) (b.size - b.len) ≡ false)
    → cache_insert t p at cs ≡ none
unfolding cache_insert
insert_full t p at cs h k =
    rw (h, block_full (t.blocks (t.nblocks - 1)) (t.off p + at) cs k, cache_insert) refl

-- Where cache_insert serves, it puts the data in, and else it gives up.
pub insert_cases :
    (t : Text) (left : List ℕ) (p s : ℕ) (right : List ℕ) (at : ℕ) (cs : List ℕ)
    → IsText t (left ++ p ∷ (s ∷ right))
    → IsServed t (left ++ p ∷ (s ∷ right))
    → at ≤ t.len p
    → (cache_insert t p at cs ≡ none)
      ⊎ IsCached t p
          (cache_insert t p at cs)
          (left ++ p ∷ (s ∷ right))
          (inserted (content t (left ++ p ∷ (s ∷ right))) (total t left + at) cs)
insert_cases t left p s right at cs is v h = elim (Bool-cases (cache_contains t p)) [
  | inr miss ↦ inl (insert_missed t p at cs miss)
  | inl hit ↦
      let block = t.blocks (t.nblocks - 1) in
      elim (Bool-cases (leb (length cs) (block.size - block.len))) [
        | inl room ↦
            inr (cache_insert-IsCached t left p s right is v hit at cs h (ground (arith, room)))
        | inr full ↦ inl (insert_full t p at cs hit full)
      ]
]

delete_missed : (t : Text) (p at n : ℕ) → cache_contains t p ≡ false → cache_delete t p at n ≡ none
unfolding cache_delete
delete_missed t p at n h = rw (h, cache_delete) refl

delete_outside :
    (t : Text) (p at n : ℕ)
    → (overflows at n || ltb (t.len p) (at + n)) ≡ true
    → cache_delete t p at n ≡ none
unfolding cache_delete
delete_outside t p at n h = elim (Bool-cases (cache_contains t p)) [
  | inr miss ↦ delete_missed t p at n miss
  | inl hit ↦ rw (hit, h, cache_delete) refl
]

block_delete_outside :
    (b : Block) (pos n : ℕ)
    → (overflows pos n || ltb b.len (pos + n)) ≡ true
    → block_delete b pos n ≡ none
unfolding block_delete
block_delete_outside b pos n h = rw h refl

delete_refused :
    (t : Text) (p at n : ℕ)
    → cache_contains t p ≡ true
    → (overflows at n || ltb (t.len p) (at + n)) ≡ false
    → (let b = t.blocks (t.nblocks - 1) in
        (overflows (t.off p + at) n || ltb b.len (t.off p + at + n)) ≡ true)
    → cache_delete t p at n ≡ none
unfolding cache_delete
delete_refused t p at n h i k =
    rw (h, i, block_delete_outside (t.blocks (t.nblocks - 1)) (t.off p + at) n k, cache_delete) refl

inside_piece : (a b n : ℕ) → (overflows a n || ltb b (a + n)) ≡ false → a + n ≤ b
inside_piece a b n h = ground (arith, h)

-- A piece that is served is not the first one, which is empty.
inner_offset :
    (t : Text) (left : List ℕ) (p s : ℕ) (right : List ℕ) (at : ℕ)
    → IsText t (left ++ p ∷ (s ∷ right))
    → 0 < t.len p
    → (0 < at) ⊎ (left ≡ [])
    → 0 < at
inner_offset t left p s right at is h o = elim o [
  | inl k ↦ k
  | inr e ↦ absurd (
      omega (
        arith,
        h,
        is.begin_len,
        ap t.len (ap (λ l. head_or (l ++ p ∷ (s ∷ right)) ending) (sym e) ∙ is.first),
      ))
]

pub delete_cases :
    (t : Text) (left : List ℕ) (p s : ℕ) (right : List ℕ) (at n : ℕ)
    → IsText t (left ++ p ∷ (s ∷ right))
    → IsServed t (left ++ p ∷ (s ∷ right))
    → (0 < at) ⊎ (left ≡ [])
    → (cache_delete t p at n ≡ none)
      ⊎ IsCached t p
          (cache_delete t p at n)
          (left ++ p ∷ (s ∷ right))
          (deleted (content t (left ++ p ∷ (s ∷ right))) (total t left + at) n)
unfolding total
delete_cases t left p s right at n is v o = elim (Bool-cases (cache_contains t p)) [
  | inr miss ↦ inl (delete_missed t p at n miss)
  | inl hit ↦ elim (Bool-cases (overflows at n || ltb (t.len p) (at + n))) [
    | inl out ↦ inl (delete_outside t p at n out)
    | inr within ↦
        let block = t.blocks (t.nblocks - 1) in
        let room = inside_piece at (t.len p) n within in
        elim (Bool-cases (overflows (t.off p + at) n || ltb block.len (t.off p + at + n))) [
          | inl out ↦ inl (delete_refused t p at n hit within out)
          | inr fits ↦ inr (
              cache_delete-IsCached t left p s right is v hit at n
                (inner_offset t left p s right at is (v.clear p hit).0 o) room
                (omega (arith, room, is.sized, total-append t left (p ∷ (s ∷ right)))) within fits)
        ]
  ]
]
