-- ===== src/Vis/Block.antt =====
-- vis/text-io.c and vis/text-internal.h: the blocks that hold the bytes. malloc does not fail here.
use suckless.Prelude.{
  ℕ, ◌+◌, ◌-◌, ◌^◌, Bool, not, ◌&&◌, ◌||◌, List, Option, none, some, ltb, leb, ◌==◌, if◌then◌else◌,
  length, get_or,
}

-- `bytes i` is data[i].
pub record Block : Type 0 where
  pub size : ℕ
  pub len : ℕ
  pub bytes : ℕ → ℕ

abbrev pub block_size : ℕ
block_size = 2 ^ 20

unfoldable pub block_alloc : ℕ → Block
block_alloc size = record {
  size = if ltb size block_size then block_size else size;
  len = 0;
  bytes = λ i. 0;
}

unfoldable pub block_capacity : Block → ℕ → Bool
block_capacity blk len = leb len (blk.size - blk.len)

-- memcpy(bytes + i, cs, length cs)
abbrev pub memcpy : (ℕ → ℕ) → ℕ → List ℕ → ℕ → ℕ
memcpy bytes i cs j = if leb i j && ltb j (i + length cs) then get_or cs (j - i) 0 else bytes j

-- memmove(bytes + dst, bytes + src, n)
abbrev pub memmove : (ℕ → ℕ) → ℕ → ℕ → ℕ → ℕ → ℕ
memmove bytes dst src n j = if leb dst j && ltb j (dst + n) then bytes (j - dst + src) else bytes j

-- The pointer that it returns is at the old `len`.
unfoldable pub block_append : Block → List ℕ → Block
block_append blk cs = record blk { bytes = memcpy blk.bytes blk.len cs; len = blk.len + length cs }

unfoldable pub block_insert : Block → ℕ → List ℕ → Option Block
unfolding block_append block_capacity
block_insert blk pos cs =
    let moved = memmove blk.bytes (pos + length cs) pos (blk.len - pos) in
    if ltb blk.len pos || not (block_capacity blk (length cs))
    then none
    else if blk.len == pos
    then some (block_append blk cs)
    else some (record blk { bytes = memcpy moved pos cs; len = blk.len + length cs })

-- addu(a, b, &c): whether the sum of two size_t overflows
abbrev pub overflows : ℕ → ℕ → Bool
overflows a b = leb (2 ^ 64) (a + b)

unfoldable pub block_delete : Block → ℕ → ℕ → Option Block
block_delete blk pos len =
    let moved = memmove blk.bytes pos (pos + len) (blk.len - pos - len) in
    if overflows pos len || ltb blk.len (pos + len)
    then none
    else if blk.len == pos
    then some (record blk { len = blk.len - len })
    else some (record blk { bytes = moved; len = blk.len - len })
