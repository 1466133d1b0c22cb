-- ===== src/Vis/Store.antt =====
-- vis/text.c, block_store: the data is stored at the end of the blocks, and no piece loses its bytes.
use suckless.Prelude.{
  get_or, ℕ, zero, suc, ◌+◌, ◌-◌, ◌≤◌, ◌<◌, ◌≡◌, ◌≢◌, ◌⊎◌, inl, inr, refl, sym, ap, ap₂, subst, ◌∙◌,
  Bool, true, false, not, ◌&&◌, ◌==◌, if◌then◌else◌, List, [], ◌∷◌, arith, put_at, length,
}
use suckless.Vis.Block.{Block, block_append, block_alloc, block_capacity, memcpy}
use suckless.Vis.Text.{Text, block_store}
use suckless.Vis.Chain.{piece_bytes, slice, IsText, Stored, Extends, content-Extends}

pub slice_agree :
    (f g : ℕ → ℕ) (i n : ℕ) → ((j : ℕ) → i ≤ j → j < i + n → f j ≡ g j) → slice f i n ≡ slice g i n
slice_agree f g i zero h = refl
slice_agree f g i (suc n) h =
    ap₂ (◌∷◌) (h i (omega arith) (omega arith))
      (slice_agree f g (i + 1) n (λ j p q. h j (omega arith) (omega arith)))

pub slice_of :
    (f : ℕ → ℕ) (i : ℕ) (cs : List ℕ)
    → ((j : ℕ) → j < length cs → f (i + j) ≡ get_or cs j 0)
    → slice f i (length cs) ≡ cs
slice_of f i [] h = refl
slice_of f i (c ∷ cs) h =
    ap₂ (◌∷◌) (ap f (omega arith) ∙ h 0 (omega arith))
      (slice_of f (i + 1) cs (λ j p. ap f (omega arith) ∙ h (suc j) (omega arith)))

-- What memcpy leaves before its place, and what it puts there.
pub memcpy_before : (f : ℕ → ℕ) (i j : ℕ) (cs : List ℕ) → j < i → memcpy f i cs j ≡ f j
memcpy_before f i j cs h = ground arith

pub memcpy_in :
    (f : ℕ → ℕ) (i j : ℕ) (cs : List ℕ) → j < length cs → memcpy f i cs (i + j) ≡ get_or cs j 0
memcpy_in f i j cs h = ground arith

pub slice-memcpy : (f : ℕ → ℕ) (i : ℕ) (cs : List ℕ) → slice (memcpy f i cs) i (length cs) ≡ cs
slice-memcpy f i cs = slice_of (memcpy f i cs) i cs (λ j h. memcpy_in f i j cs h)

-- The n bytes from offset o of the block b on lie before the offset j of the block i, or in another
-- block.
abbrev pub Before : ℕ → ℕ → ℕ → ℕ → ℕ → Type 0
Before i j b o n = (n ≡ 0) ⊎ ((b ≢ i) ⊎ (o + n ≤ j))

-- The data cs is stored in the text of the result, at the place of the result, and the pieces of t
-- are as they were.
pub record IsStored (t : Text) (cs : List ℕ) (place : ℕ × ℕ) (u : Text) : Type 0 where
  pub only_blocks : u ≡ record t { blocks = u.blocks; nblocks = u.nblocks }
  pub extends : Extends t u
  pub stored_data : slice (u.blocks place.0).bytes place.1 (length cs) ≡ cs
  pub block : place.0 < u.nblocks
  pub room : place.1 + length cs ≤ (u.blocks place.0).len
  pub last_block : place.0 + 1 ≡ u.nblocks
  pub full : place.1 + length cs ≡ (u.blocks place.0).len
  pub behind : (p : ℕ) → Stored t p → Before place.0 place.1 (t.blk p) (t.off p) (t.len p)

pub same_or_apart : (i j : ℕ) → (i ≡ j) ⊎ (i ≢ j)
same_or_apart i j = ground arith

block_append_keeps :
    (blk : Block) (cs : List ℕ)
    → ((j : ℕ) → j < blk.len → (block_append blk cs).bytes j ≡ blk.bytes j)
      × (blk.len ≤ (block_append blk cs).len)
unfolding block_append
block_append_keeps blk cs = ((λ j h. memcpy_before blk.bytes blk.len j cs h), omega arith)

module _ (t : Text) (cs : List ℕ) (i : ℕ) (blk : Block) (m : ℕ) where
  abbrev stored_at : Text
  stored_at = record t { blocks = put_at t.blocks i (block_append blk cs); nblocks = m }

  block_here : (b : ℕ) → b ≡ i → stored_at.blocks b ≡ block_append blk cs
  block_here b h = ground (arith, h)

  block_away : (b : ℕ) → b ≢ i → stored_at.blocks b ≡ t.blocks b
  block_away b h = ground (arith, h)

  -- The used part of a block that t has.
  stored_bytes :
      (b : ℕ)
      → (b ≡ i → blk ≡ t.blocks b)
      → ((j : ℕ) → j < (t.blocks b).len → (stored_at.blocks b).bytes j ≡ (t.blocks b).bytes j)
        × ((t.blocks b).len ≤ (stored_at.blocks b).len)
  stored_bytes b e = elim (same_or_apart b i) [
    | inl h ↦
        subst
          (λ k.
            ((j : ℕ) → j < (t.blocks b).len → k.bytes j ≡ (t.blocks b).bytes j)
            × ((t.blocks b).len ≤ k.len))
          (sym (block_here b h ∙ ap (λ k. block_append k cs) (e h)))
          (block_append_keeps (t.blocks b) cs)
    | inr h ↦
        subst
          (λ k.
            ((j : ℕ) → j < (t.blocks b).len → k.bytes j ≡ (t.blocks b).bytes j)
            × ((t.blocks b).len ≤ k.len))
          (sym (block_away b h)) ((λ j p. refl), omega arith)
  ]

  piece-Stored :
      t.nblocks ≤ m
      → (i < t.nblocks → blk ≡ t.blocks i)
      → (p : ℕ) → Stored t p
      → (piece_bytes stored_at p ≡ piece_bytes t p) × Stored stored_at p
  piece-Stored k e p s = elim s [
    | inl z ↦ (rw z refl, inl z)
    | inr (lt, le) ↦
        let (same, more) =
          stored_bytes (t.blk p) (λ h. e (omega (arith, h, lt)) ∙ ap t.blocks (sym h)) in
        (
          slice_agree _ _ (t.off p) (t.len p) (λ j a b. same j (omega (arith, le, b))),
          inr (omega (arith, lt, k), omega (arith, le, more)),
        )
  ]

  Stored-behind :
      (i < t.nblocks → blk ≡ t.blocks i)
      → (p : ℕ) → Stored t p
      → Before i blk.len (t.blk p) (t.off p) (t.len p)
  Stored-behind e p s = elim s [
    | inl z ↦ inl z
    | inr (lt, le) ↦ elim (same_or_apart (t.blk p) i) [
      | inl h ↦ inr (
          inr (omega (arith, le, ap (λ b. b.len) (e (omega (arith, h, lt)) ∙ ap t.blocks (sym h)))))
      | inr h ↦ inr (inl h)
    ]
  ]

  stored_at-IsStored :
      i < m
      → t.nblocks ≤ m
      → (i < t.nblocks → blk ≡ t.blocks i)
      → i + 1 ≡ m
      → IsStored t cs (i, blk.len) stored_at
  unfolding block_append
  stored_at-IsStored h k e n = record {
    only_blocks = refl;
    extends = λ p h s. let (b, r) = piece-Stored k e p s in (refl, b, r);
    stored_data =
        subst (λ b. slice b.bytes blk.len (length cs) ≡ cs) (sym (block_here i refl))
          (slice-memcpy blk.bytes blk.len cs);
    block = h;
    room = subst (λ b. blk.len + length cs ≤ b.len) (sym (block_here i refl)) (omega arith);
    last_block = n;
    full = subst (λ b. blk.len + length cs ≡ b.len) (sym (block_here i refl)) refl;
    behind = Stored-behind e;
  }

store_if :
    (t : Text) (cs : List ℕ) (fits : Bool)
    → (fits ≡ true → 0 < t.nblocks)
    → let n = t.nblocks in
      let i = if fits then n - 1 else n in
      let blk = if fits then t.blocks i else block_alloc (length cs) in
      IsStored t cs
        (i, blk.len)
        (record t {
          blocks = put_at t.blocks i (block_append blk cs);
          nblocks = if fits then n else n + 1;
        })
store_if t cs true h =
    stored_at-IsStored t cs (t.nblocks - 1) (t.blocks (t.nblocks - 1)) t.nblocks
      (omega (arith, h refl)) (omega arith) (λ p. refl) (omega (arith, h refl))
store_if t cs false h =
    stored_at-IsStored t cs t.nblocks (block_alloc (length cs)) (t.nblocks + 1) (omega arith)
      (omega arith) (λ p. absurd (omega (arith, p))) refl

some_block : (n : ℕ) (b : Bool) → (not (n == 0) && b) ≡ true → 0 < n
some_block n b h = ground (arith, h)

-- No block uses more bytes than were allocated for it.
abbrev pub IsWithin : Text → Type 0
IsWithin t = (b : ℕ) → b < t.nblocks → (t.blocks b).len ≤ (t.blocks b).size

append-IsWithin :
    (t : Text) (cs : List ℕ) (i : ℕ) (blk : Block) (m : ℕ)
    → IsWithin t
    → blk.len + length cs ≤ blk.size
    → ((b : ℕ) → b < m → b ≢ i → b < t.nblocks)
    → IsWithin (stored_at t cs i blk m)
unfolding block_append
append-IsWithin t cs i blk m w h k b hb = elim (same_or_apart b i) [
  | inl e ↦ subst (λ c. c.len ≤ c.size) (sym (block_here t cs i blk m b e)) h
  | inr e ↦ subst (λ c. c.len ≤ c.size) (sym (block_away t cs i blk m b e)) (w b (k b hb e))
]

-- A block that is allocated for the data has room for them.
block_alloc_room : (n : ℕ) → (block_alloc n).len + n ≤ (block_alloc n).size
unfolding block_alloc
block_alloc_room n = ground arith

store_if-IsWithin :
    (t : Text) (cs : List ℕ) (fits : Bool)
    → IsWithin t
    → (fits ≡ true
        → (0 < t.nblocks)
          × ((t.blocks (t.nblocks - 1)).len + length cs ≤ (t.blocks (t.nblocks - 1)).size))
    → let n = t.nblocks in
      let i = if fits then n - 1 else n in
      let blk = if fits then t.blocks i else block_alloc (length cs) in
      IsWithin (record t {
        blocks = put_at t.blocks i (block_append blk cs);
        nblocks = if fits then n else n + 1;
      })
store_if-IsWithin t cs true w h =
    append-IsWithin t cs (t.nblocks - 1) (t.blocks (t.nblocks - 1)) t.nblocks w (h refl).1
      (λ b hb e. hb)
store_if-IsWithin t cs false w h =
    append-IsWithin t cs t.nblocks (block_alloc (length cs)) (t.nblocks + 1) w
      (block_alloc_room (length cs)) (λ b hb e. omega (arith, hb, e))

capacity_room :
    (t : Text) (n : ℕ)
    → IsWithin t
    → (not (t.nblocks == 0) && block_capacity (t.blocks (t.nblocks - 1)) n) ≡ true
    → (0 < t.nblocks) × ((t.blocks (t.nblocks - 1)).len + n ≤ (t.blocks (t.nblocks - 1)).size)
unfolding block_capacity
capacity_room t n w h = ground (arith, h, w (t.nblocks - 1))

-- On any text, block_store puts the data into the used part of a block, keeps the bytes of every
-- piece that was stored, and changes nothing but the blocks.
pub block_store-IsStored :
    (cs : List ℕ) (t : Text) → IsStored t cs (block_store cs t).0 (block_store cs t).1
unfolding block_store
block_store-IsStored cs t =
    store_if t cs (not (t.nblocks == 0) && block_capacity (t.blocks (t.nblocks - 1)) (length cs))
      (some_block t.nblocks (block_capacity (t.blocks (t.nblocks - 1)) (length cs)))

-- On a text whose blocks are within their sizes, block_store puts the data into the used part of a
-- block that has room for it, so that again every block is within its size; it keeps the bytes of
-- every piece that was stored, and changes nothing but the blocks.
pub block_store-IsWithin :
    (cs : List ℕ) (t : Text)
    → IsWithin t
    → IsStored t cs (block_store cs t).0 (block_store cs t).1 × IsWithin (block_store cs t).1
unfolding block_store
block_store-IsWithin cs t w = (
  block_store-IsStored cs t,
  store_if-IsWithin t cs
      (not (t.nblocks == 0) && block_capacity (t.blocks (t.nblocks - 1)) (length cs)) w
      (capacity_room t (length cs) w),
)

-- Storing data leaves the text as it was.
pub stored-IsText :
    (t u : Text) (cs : List ℕ) (place : ℕ × ℕ) (l : List ℕ)
    → IsStored t cs place u
    → IsText t l
    → IsText u l
stored-IsText t u cs place l s v =
    subst (λ w. IsText w l) (sym s.only_blocks)
      (let (bytes, size, stored) =
          content-Extends t (record t { blocks = u.blocks; nblocks = u.nblocks }) l
            (subst (λ w. Extends t w) s.only_blocks s.extends) v.below v.stored in
        record {
          linked = v.linked;
          distinct = v.distinct;
          first = v.first;
          final = v.final;
          closed = v.closed;
          begin_len = v.begin_len;
          ending_len = v.ending_len;
          below = v.below;
          count = v.count;
          stored = stored;
          sized = v.sized ∙ sym size;
        })
