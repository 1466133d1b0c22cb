-- ===== src/Vis/Bytes.antt =====
-- vis/text-io.c: block_insert and block_delete on the bytes that a block holds.
use suckless.Prelude.{
  leb, ltb, get_or, ℕ, zero, suc, ◌+◌, ◌-◌, ◌^◌, ◌≤◌, ◌<◌, ◌≡◌, ◌⊎◌, inl, inr, refl, sym, ap, ap₂,
  ◌∙◌, true, false, not, ◌||◌, ◌==◌, List, ◌∷◌, ◌++◌, Option, some, arith, length,
}
use suckless.Vis.Block.{
  Block, block_insert, block_delete, block_append, block_capacity, memcpy, memmove, overflows,
}
use suckless.Vis.Chain.{slice}
use suckless.Vis.Store.{slice_agree, slice_of, memcpy_before, memcpy_in}
use suckless.Vis.Inside.{take-slice, drop-slice}
use suckless.Vis.Edited.{inserted}
use suckless.Vis.Cut.{deleted}

-- The bytes in the used part of a block.
abbrev pub block_bytes : Block → List ℕ
block_bytes blk = slice blk.bytes 0 blk.len

-- The result is a block with the bytes c.
pub record IsBlock (found : Option Block) (c : List ℕ) : Type 0 where
  pub block : Block
  pub result : found ≡ some block
  pub bytes : block_bytes block ≡ c

slice_split : (f : ℕ → ℕ) (i m n : ℕ) → slice f i (m + n) ≡ slice f i m ++ slice f (i + m) n
slice_split f i zero n = ap₂ (slice f) {y = i + 0} (omega arith) (omega arith)
slice_split f i (suc m) n =
    ap (slice f i) {y = suc (m + n)} (omega arith)
    ∙ ap (λ l. f i ∷ l)
        (slice_split f (i + 1) m n
          ∙ ap (λ k. slice f (i + 1) m ++ slice f k n) {y = i + suc m} (omega arith))

slice_shift :
    (f g : ℕ → ℕ) (i j n : ℕ)
    → ((k : ℕ) → k < n → f (i + k) ≡ g (j + k))
    → slice f i n ≡ slice g j n
slice_shift f g i j zero h = refl
slice_shift f g i j (suc n) h =
    ap₂ (◌∷◌) (ap f {y = i + 0} (omega arith) ∙ (h 0 (omega arith) ∙ ap g {y = j} (omega arith))) (
      slice_shift f g (i + 1) (j + 1) n (λ k p.
        ap f {y = i + suc k} (omega arith)
        ∙ (h (suc k) (omega arith) ∙ ap g {y = j + 1 + k} (omega arith))))

-- The bytes f are those of g without the n at pos.
shifted_out :
    (f g : ℕ → ℕ) (pos n len : ℕ)
    → pos + n ≤ len
    → ((j : ℕ) → j < pos → f j ≡ g j)
    → ((k : ℕ) → k < len - (pos + n) → f (pos + k) ≡ g (pos + n + k))
    → slice f 0 (len - n) ≡ deleted (slice g 0 len) pos n
shifted_out f g pos n len h before behind =
    ap (slice f 0) {y = pos + (len - (pos + n))} (omega (arith, h))
    ∙ (slice_split f 0 pos (len - (pos + n))
        ∙ ap₂ (◌++◌)
            (slice_agree f g 0 pos (λ j p q. before j (omega (arith, q)))
              ∙ sym (take-slice g 0 len pos (omega (arith, h))))
            (slice_shift f g (0 + pos) (0 + (pos + n)) (len - (pos + n)) (λ k p.
                ap f {y = pos + k} (omega arith)
                ∙ (behind k p ∙ ap g {y = 0 + (pos + n) + k} (omega arith)))
              ∙ sym (drop-slice g 0 len (pos + n) h)))

-- The bytes f are those of g with cs put in at pos.
shifted_in :
    (f g : ℕ → ℕ) (pos len : ℕ) (cs : List ℕ)
    → pos ≤ len
    → ((j : ℕ) → j < pos → f j ≡ g j)
    → ((k : ℕ) → k < length cs → f (pos + k) ≡ get_or cs k 0)
    → ((k : ℕ) → k < len - pos → f (pos + length cs + k) ≡ g (pos + k))
    → slice f 0 (len + length cs) ≡ inserted (slice g 0 len) pos cs
shifted_in f g pos len cs h before mid behind =
    ap (slice f 0) {y = pos + (length cs + (len - pos))} (omega (arith, h))
    ∙ (slice_split f 0 pos (length cs + (len - pos))
        ∙ ap₂ (◌++◌)
            (slice_agree f g 0 pos (λ j p q. before j (omega (arith, q)))
              ∙ sym (take-slice g 0 len pos h))
            (slice_split f (0 + pos) (length cs) (len - pos)
              ∙ ap₂ (◌++◌)
                  (slice_of f (0 + pos) cs (λ k p. ap f {y = pos + k} (omega arith) ∙ mid k p))
                  (slice_shift f g (0 + pos + length cs) (0 + pos) (len - pos) (λ k p.
                      ap f {y = pos + length cs + k} (omega arith)
                      ∙ (behind k p ∙ ap g {y = 0 + pos + k} (omega arith)))
                    ∙ sym (drop-slice g 0 len pos h))))

at_end : (m n : ℕ) → n ≤ m → ((m ≡ n) × ((m == n) ≡ true)) ⊎ ((m == n) ≡ false)
at_end m n h = ground arith

memmove_before : (f : ℕ → ℕ) (dst src n j : ℕ) → j < dst → memmove f dst src n j ≡ f j
memmove_before f dst src n j h = ground (arith, h)

memmove_in : (f : ℕ → ℕ) (dst src n k : ℕ) → k < n → memmove f dst src n (dst + k) ≡ f (src + k)
memmove_in f dst src n k h =
    let within : memmove f dst src n (dst + k) ≡ f (dst + k - dst + src) = ground (arith, h) in
    within ∙ ap f {y = src + k} (omega arith)

pub block_delete_inside :
    (blk : Block) (pos n : ℕ)
    → (overflows pos n || ltb blk.len (pos + n)) ≡ false
    → pos + n ≤ blk.len
    → IsBlock (block_delete blk pos n) (deleted (block_bytes blk) pos n)
unfolding block_delete
block_delete_inside blk pos n inside h = elim (at_end blk.len pos (omega (arith, h))) [
  | inl (e, test) ↦ record {
    block = record blk { len = blk.len - n };
    result = rw (inside, test) refl;
    bytes =
        shifted_out blk.bytes blk.bytes pos n blk.len h (λ j p. refl)
          (λ k p. ap blk.bytes (omega (arith, e, h, p)));
  }
  | inr test ↦ record {
    block = record blk {
      bytes = memmove blk.bytes pos (pos + n) (blk.len - pos - n);
      len = blk.len - n;
    };
    result = rw (inside, test) refl;
    bytes =
        shifted_out (memmove blk.bytes pos (pos + n) (blk.len - pos - n)) blk.bytes pos n blk.len h
          (λ j p. memmove_before blk.bytes pos (pos + n) (blk.len - pos - n) j p)
          (λ k p. memmove_in blk.bytes pos (pos + n) (blk.len - pos - n) k (omega (arith, p)));
  }
]

-- block_delete of a range that lies in a block of fewer than 2 ^ 64 bytes succeeds and takes the
-- range out of the bytes it held.
block_delete-IsBlock :
    (blk : Block) (pos n : ℕ)
    → blk.len < 2 ^ 64
    → pos + n ≤ blk.len
    → IsBlock (block_delete blk pos n) (deleted (block_bytes blk) pos n)
block_delete-IsBlock blk pos n small h = block_delete_inside blk pos n (ground (arith, h, small)) h

memcpy_behind :
    (f : ℕ → ℕ) (i k : ℕ) (cs : List ℕ) → memcpy f i cs (i + length cs + k) ≡ f (i + length cs + k)
memcpy_behind f i k cs = ground arith

-- block_insert of bytes that the block has room for, at a position up to its length, succeeds and
-- puts them in there between the bytes it held.
pub block_insert-IsBlock :
    (blk : Block) (pos : ℕ) (cs : List ℕ)
    → pos ≤ blk.len
    → length cs ≤ blk.size - blk.len
    → IsBlock (block_insert blk pos cs) (inserted (block_bytes blk) pos cs)
unfolding block_insert block_append block_capacity
block_insert-IsBlock blk pos cs h room =
    let inside : (ltb blk.len pos || not (leb (length cs) (blk.size - blk.len))) ≡ false =
      ground (arith, h, room) in
    let moved = memmove blk.bytes (pos + length cs) pos (blk.len - pos) in
    elim (at_end blk.len pos h) [
      | inl (e, test) ↦ record {
        block = block_append blk cs;
        result = rw (inside, test) refl;
        bytes =
            shifted_in (memcpy blk.bytes blk.len cs) blk.bytes pos blk.len cs h
              (λ j p. memcpy_before blk.bytes blk.len j cs (omega (arith, p, h)))
              (λ k p.
                ap (memcpy blk.bytes blk.len cs) {y = blk.len + k} (omega (arith, e))
                ∙ memcpy_in blk.bytes blk.len k cs p)
              (λ k p. absurd (omega (arith, e, p)));
      }
      | inr test ↦ record {
        block = record blk { bytes = memcpy moved pos cs; len = blk.len + length cs };
        result = rw (inside, test) refl;
        bytes =
            shifted_in (memcpy moved pos cs) blk.bytes pos blk.len cs h
              (λ j p.
                memcpy_before moved pos j cs p
                ∙ memmove_before blk.bytes (pos + length cs) pos (blk.len - pos) j
                    (omega (arith, p)))
              (λ k p. memcpy_in moved pos k cs p)
              (λ k p.
                memcpy_behind moved pos k cs
                ∙ memmove_in blk.bytes (pos + length cs) pos (blk.len - pos) k p);
      }
    ]
