-- ===== src/Vis/Cached.antt =====
-- vis/text.c, cache_insert and cache_delete: the edit of the cached piece in its place.
use suckless.Prelude.{
  ltb, ℕ, ◌+◌, ◌-◌, ◌≤◌, ◌<◌, ◌≡◌, ◌≢◌, refl, sym, ap, ap₂, subst, ◌∙◌, true, false, ◌&&◌, ◌||◌,
  List, [], ◌∷◌, ◌++◌, Option, some, arith, length, length-append, take, drop, put_at,
}
use mathlib.Core.List.{append_assoc}
use suckless.Vis.Block.{Block, block_insert, block_delete, overflows}
use suckless.Vis.Text.{
  Text, Change, cache_insert, cache_delete, cache_contains, at_block_end, current_changes,
  set_changes, set_new_len, new_len, resize_cached, span_has,
}
use suckless.Vis.Chain.{
  content, content-append, total, piece_bytes, slice, IsText, length-content, length-slice,
}
use suckless.Vis.Agree.{Heaped}
use suckless.Vis.Frame.{set_changes-Beside, put_at_here}
use suckless.Vis.Inside.{take-slice, drop-slice}
use suckless.Vis.Edited.{
  inserted, inserted-append, drop-append, drop_within, take-append, take_within, length_bytes,
}
use suckless.Vis.Cut.{deleted}
use suckless.Vis.Bytes.{block_bytes, block_insert-IsBlock, block_delete_inside}
use suckless.Vis.Served.{IsServed, Clear, and_right, cached_piece, changes_at}
use suckless.Vis.Resized.{
  resized, resized-IsText, resized-content, resized-IsServed, resized_others,
}

-- Bytes that are those of g up to the offset o + at.
module _ (f g : ℕ → ℕ) (o n at : ℕ) (y : List ℕ) (h : slice f 0 (o + n) ≡ slice g 0 (o + at) ++ y)
    (within : at ≤ n) where
  first_bytes : (m : ℕ) → m ≤ o → slice f 0 m ≡ slice g 0 m
  first_bytes m k =
      sym (take-slice f 0 (o + n) m (omega (arith, k)))
      ∙ (ap (take m) h
          ∙ (take_within (slice g 0 (o + at)) y m (omega (arith, k, length-slice g 0 (o + at)))
              ∙ take-slice g 0 (o + at) m (omega (arith, k))))

  piece_before : (i k : ℕ) → i + k ≤ o → slice f i k ≡ slice g i k
  piece_before i k l =
      ap₂ (slice f) {y = 0 + i} (omega arith) (omega arith)
      ∙ (sym (drop-slice f 0 (i + k) i (omega arith))
          ∙ (ap (drop i) (first_bytes (i + k) l)
              ∙ (drop-slice g 0 (i + k) i (omega arith)
                  ∙ ap₂ (slice g) {x = 0 + i} (omega arith) (omega arith))))

  piece_behind : slice f o n ≡ slice g o at ++ y
  piece_behind =
      ap₂ (slice f) {y = 0 + o} (omega arith) (omega arith)
      ∙ (sym (drop-slice f 0 (o + n) o (omega arith))
          ∙ (ap (drop o) h
              ∙ (drop_within (slice g 0 (o + at)) y o (omega (arith, length-slice g 0 (o + at)))
                  ∙ ap (λ l. l ++ y)
                      (drop-slice g 0 (o + at) o (omega arith)
                        ∙ ap₂ (slice g) {x = 0 + o} (omega arith) (omega arith)))))

-- The second half of the test of cache_contains holds of the end of the last block alone.
listed_end :
    (t : Text) (p : ℕ) (cs : List Change)
    → (elim cs [
      | [] ↦ false
      | c ∷ cs ↦ span_has t.fresh t p c.new.start c.new.end && at_block_end t p
    ])
      ≡ true
    → at_block_end t p ≡ true
listed_end t p [] h = absurd (ground (arith, h))
listed_end t p (c ∷ cs) h = and_right (span_has t.fresh t p c.new.start c.new.end) _ h

cached_end : (t : Text) (p : ℕ) → cache_contains t p ≡ true → at_block_end t p ≡ true
unfolding cache_contains
cached_end t p h = listed_end t p (current_changes t) (and_right _ _ h)

ends_last :
    (t : Text) (p : ℕ)
    → at_block_end t p ≡ true
    → (t.blk p + 1 ≡ t.nblocks) × (t.off p + t.len p ≡ (t.blocks (t.nblocks - 1)).len)
ends_last t p h = (ground (arith, h), ground (arith, h))

-- The result is a well-formed text with the bytes c.
pub record IsCached (t : Text) (p : ℕ) (found : Option Text) (l c : List ℕ) : Type 0 where
  pub after : Text
  pub result : found ≡ some after
  pub text : IsText after l
  pub bytes : content after l ≡ c
  pub served : IsServed after l
  pub hit : cache_contains t p ≡ true
  pub span : ℕ
  pub changed :
      let v = set_changes (set_new_len span (current_changes t)) t in
      after ≡ record v { blocks = after.blocks; len = after.len; size = after.size }
  pub some_bytes : 0 < after.len p
  pub fits :
      t.len p ≤ new_len (current_changes t)
      → (after.len p ≤ span) × (after.size - span ≡ t.size - new_len (current_changes t))
  pub others :
      Heaped t
      → ((q : ℕ) → q < t.fresh → Clear t p q)
      → Heaped after
        × ((q : ℕ)
            → q < t.fresh
            → p ≢ q
            → (after.len q ≡ t.len q) × (piece_bytes after q ≡ piece_bytes t q))
        × ((q : ℕ) → q < t.fresh → Clear after p q)

module _ (t : Text) (left : List ℕ) (p s : ℕ) (right : List ℕ)
    (is : IsText t (left ++ p ∷ (s ∷ right))) (served : IsServed t (left ++ p ∷ (s ∷ right)))
    (hit : cache_contains t p ≡ true) where
  abbrev chain : List ℕ
  chain = left ++ p ∷ (s ∷ right)

  -- The last block, which p is in.
  abbrev block : Block
  block = t.blocks (t.nblocks - 1)

  ends : (t.blk p + 1 ≡ t.nblocks) × (t.off p + t.len p ≡ block.len)
  ends = ends_last t p (cached_end t p hit)

  own_block : t.blocks (t.blk p) ≡ block
  own_block = ap t.blocks (omega (arith, ends.0))

  own_bytes : piece_bytes t p ≡ slice block.bytes (t.off p) (t.len p)
  own_bytes = ap (λ b. slice b.bytes (t.off p) (t.len p)) own_block

  own_take : (at : ℕ) → at ≤ t.len p → take at (piece_bytes t p) ≡ slice block.bytes (t.off p) at
  own_take at h = ap (take at) own_bytes ∙ take-slice block.bytes (t.off p) (t.len p) at h

  own_drop :
      (at : ℕ)
      → at ≤ t.len p
      → drop at (piece_bytes t p) ≡ slice block.bytes (t.off p + at) (t.len p - at)
  own_drop at h = ap (drop at) own_bytes ∙ drop-slice block.bytes (t.off p) (t.len p) at h

  block_take :
      (at : ℕ)
      → at ≤ t.len p
      → take (t.off p + at) (block_bytes block) ≡ slice block.bytes 0 (t.off p + at)
  block_take at h = take-slice block.bytes 0 block.len (t.off p + at) (omega (arith, h, ends.1))

  block_drop :
      (at : ℕ) → at ≤ t.len p → drop (t.off p + at) (block_bytes block) ≡ drop at (piece_bytes t p)
  block_drop at h =
      drop-slice block.bytes 0 block.len (t.off p + at) (omega (arith, h, ends.1))
      ∙ (ap₂ (slice block.bytes) {y = t.off p + at} (omega arith) (omega (arith, ends.1))
          ∙ sym (own_drop at h))

  resize-IsCached :
      (found : Option Text) (blk : Block) (n k size at : ℕ) (y : List ℕ)
      → found ≡ some (resize_cached blk p n k size t)
      → blk.len ≡ t.off p + n
      → at ≤ n
      → at ≤ t.len p
      → 0 < n
      → block_bytes blk ≡ slice block.bytes 0 (t.off p + at) ++ y
      → size + t.len p ≡ t.size + n
      → (t.len p ≤ new_len (current_changes t) → k + t.len p ≡ new_len (current_changes t) + n)
      → IsCached t p found chain
          (content t left ++ ((take at (piece_bytes t p) ++ y) ++ content t (s ∷ right)))
  resize-IsCached found blk n k size at y e long w h m b z fit =
      let ds = set_new_len k (current_changes t) in
      let v = set_changes ds t in
      let g = (t.blocks (t.blk p)).bytes in
      let agree : slice blk.bytes 0 (t.off p + n) ≡ slice g 0 (t.off p + at) ++ y =
        ap (slice blk.bytes 0) (sym long)
        ∙ (b ∙ ap (λ c. slice c.bytes 0 (t.off p + at) ++ y) (sym own_block)) in
      let before = piece_before blk.bytes g (t.off p) n at y agree w in
      let (pos, clear) = served.clear p hit in
      let (cache, _, _) = changes_at t ds t.current refl in
      record {
        after = resized t v p blk n size ends.0 long before;
        result =
            e
            ∙ ap
                (λ (u : Text). some (record u {
                  blocks = put_at t.blocks (t.nblocks - 1) blk;
                  len = put_at t.len p n;
                  size = size;
                }))
                (set_changes-Beside ds t);
        text = resized-IsText t v p blk n size ends.0 long before left s right is pos clear z;
        bytes =
            resized-content t v p blk n size ends.0 long before left s right is pos clear z
            ∙ ap (λ c. content t left ++ (c ++ content t (s ∷ right)))
                (piece_behind blk.bytes g (t.off p) n at y agree w
                  ∙ ap (λ c. c ++ y) (sym (take-slice g (t.off p) (t.len p) at h)));
        served =
            resized-IsServed t v p blk n size ends.0 long before left s right is pos clear z
              (cache ∙ cached_piece t p hit) m;
        hit = hit;
        span = k;
        changed = sym (
            ap
              (λ (u : Text).
                let r : Text = record u {
                  blocks = put_at t.blocks (t.nblocks - 1) blk;
                  len = put_at t.len p n;
                  size = size;
                } in
                r)
              (set_changes-Beside ds t));
        some_bytes = omega (arith, m, put_at_here t.len p n);
        fits = λ i. (omega (arith, fit i, m, i, put_at_here t.len p n), omega (arith, fit i, i, z));
        others = resized_others t v p blk n size ends.0 long before;
      }

  inserted_here :
      (at : ℕ) (cs : List ℕ)
      → at ≤ t.len p
      → content t left
          ++ ((take at (piece_bytes t p) ++ (cs ++ drop at (piece_bytes t p)))
              ++ content t (s ∷ right))
        ≡ inserted (content t chain) (total t left + at) cs
  unfolding content
  inserted_here at cs h =
      let P = piece_bytes t p in
      let r = content t (s ∷ right) in
      ap (λ c. content t left ++ c)
        (append_assoc (take at P) (cs ++ drop at P) r
          ∙ ap (λ c. take at P ++ c) (append_assoc cs (drop at P) r))
      ∙ (sym (inserted-append (content t left) P r cs at (omega (arith, h, length_bytes t p)))
          ∙ ap₂ (λ c k. inserted c k cs) (sym (content-append t left (p ∷ (s ∷ right))))
              (omega (arith, length-content t left)))

  deleted_here :
      (at n : ℕ)
      → at + n ≤ t.len p
      → content t left
          ++ ((take at (piece_bytes t p) ++ drop (at + n) (piece_bytes t p))
              ++ content t (s ∷ right))
        ≡ deleted (content t chain) (total t left + at) n
  unfolding content
  deleted_here at n h =
      let P = piece_bytes t p in
      let r = content t (s ∷ right) in
      let a = content t left in
      let size = length_bytes t p in
      let here : deleted (a ++ (P ++ r)) (length a + at) n
          ≡ (a ++ take at P) ++ (drop (at + n) P ++ r) =
        ap₂ (◌++◌)
          (take-append a (P ++ r) at
            ∙ ap (λ c. a ++ c) (take_within P r at (omega (arith, h, size))))
          (ap (λ k. drop k (a ++ (P ++ r))) {y = length a + (at + n)} (omega arith)
            ∙ (drop-append a (P ++ r) (at + n)
                ∙ drop_within P r (at + n) (omega (arith, h, size)))) in
      ap (λ c. a ++ c) (append_assoc (take at P) (drop (at + n) P) r)
      ∙ (sym (append_assoc a (take at P) (drop (at + n) P ++ r))
          ∙ (sym here
              ∙ ap₂ (λ c k. deleted c k n) (sym (content-append t left (p ∷ (s ∷ right))))
                  (omega (arith, length-content t left))))

  insert_result :
      (at : ℕ) (cs : List ℕ) (blk : Block)
      → block_insert block (t.off p + at) cs ≡ some blk
      → let n = length cs in
        cache_insert t p at cs
        ≡ some (resize_cached blk p (t.len p + n) (new_len (current_changes t) + n) (t.size + n) t)
  unfolding cache_insert
  insert_result at cs blk e = rw (hit, e, cache_insert) refl

  delete_result :
      (at n : ℕ) (blk : Block)
      → (overflows at n || ltb (t.len p) (at + n)) ≡ false
      → block_delete block (t.off p + at) n ≡ some blk
      → cache_delete t p at n
        ≡ some (resize_cached blk p (t.len p - n) (new_len (current_changes t) - n) (t.size - n) t)
  unfolding cache_delete
  delete_result at n blk h e = rw (hit, h, e, cache_delete) refl

  -- Where the last block has room, the data goes into the cached piece.
  pub cache_insert-IsCached :
      (at : ℕ) (cs : List ℕ)
      → at ≤ t.len p
      → length cs ≤ block.size - block.len
      → IsCached t p
          (cache_insert t p at cs)
          chain
          (inserted (content t chain) (total t left + at) cs)
  cache_insert-IsCached at cs h room =
      let found = block_insert-IsBlock block (t.off p + at) cs (omega (arith, h, ends.1)) room in
      let rest = cs ++ drop at (piece_bytes t p) in
      let (pos, _) = served.clear p hit in
      let same : block_bytes found.block ≡ slice block.bytes 0 (t.off p + at) ++ rest =
        found.bytes ∙ ap₂ (λ x y. x ++ (cs ++ y)) (block_take at h) (block_drop at h) in
      subst (IsCached t p (cache_insert t p at cs) chain) (inserted_here at cs h) (
        resize-IsCached (cache_insert t p at cs) found.block (t.len p + length cs)
          (new_len (current_changes t) + length cs) (t.size + length cs) at rest
          (insert_result at cs found.block found.result)
          (omega (
            arith,
            h,
            ap length same,
            length-slice found.block.bytes 0 found.block.len,
            length-append {0} (slice block.bytes 0 (t.off p + at)) rest,
            length-slice block.bytes 0 (t.off p + at),
            length-append {0} cs (drop at (piece_bytes t p)),
            ap length (own_drop at h),
            length-slice block.bytes (t.off p + at) (t.len p - at),
          ))
          (omega (arith, h)) h (omega (arith, pos)) same (omega arith) (λ i. omega arith))

  -- A range within the cached piece, but for its first byte, is taken out of it.
  pub cache_delete-IsCached :
      (at n : ℕ)
      → 0 < at
      → at + n ≤ t.len p
      → n ≤ t.size
      → (overflows at n || ltb (t.len p) (at + n)) ≡ false
      → (overflows (t.off p + at) n || ltb block.len (t.off p + at + n)) ≡ false
      → IsCached t p (cache_delete t p at n) chain (deleted (content t chain) (total t left + at) n)
  cache_delete-IsCached at n k h z o1 o2 =
      let found = block_delete_inside block (t.off p + at) n o2 (omega (arith, h, ends.1)) in
      let rest = drop (at + n) (piece_bytes t p) in
      let same : block_bytes found.block ≡ slice block.bytes 0 (t.off p + at) ++ rest =
        found.bytes
        ∙ ap₂ (◌++◌) (block_take at (omega (arith, h))) (
            ap (λ i. drop i (block_bytes block)) {y = t.off p + (at + n)} (omega arith)
            ∙ block_drop (at + n) h) in
      subst (IsCached t p (cache_delete t p at n) chain) (deleted_here at n h) (
        resize-IsCached (cache_delete t p at n) found.block (t.len p - n)
          (new_len (current_changes t) - n) (t.size - n) at rest
          (delete_result at n found.block o1 found.result)
          (omega (
            arith,
            h,
            ap length same,
            length-slice found.block.bytes 0 found.block.len,
            length-append {0} (slice block.bytes 0 (t.off p + at)) rest,
            length-slice block.bytes 0 (t.off p + at),
            ap length (own_drop (at + n) h),
            length-slice block.bytes (t.off p + (at + n)) (t.len p - (at + n)),
          ))
          (omega (arith, h)) (omega (arith, h)) (omega (arith, h, k)) same (omega (arith, h, z))
          (λ i. omega (arith, h, i)))
