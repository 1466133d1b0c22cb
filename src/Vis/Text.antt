-- ===== src/Vis/Text.antt =====
-- vis/text.c: the piece table. A piece is a number, 0 for `begin` and 1 for `end`, and the members of
-- struct Piece are functions of it; a data pointer is a block and an offset in it. Allocation does not
-- fail. The list of all pieces that text_free walks is left out.
use suckless.Prelude.{
  ℕ, zero, suc, ◌+◌, ◌-◌, Bool, true, false, not, ◌&&◌, ◌||◌, List, [], ◌∷◌, Option, none, some,
  ltb, ◌==◌, if◌then◌else◌, length, put_at,
}
use suckless.Vis.Block.{
  Block, block_alloc, block_capacity, block_append, block_insert, block_delete, overflows,
}

pub record Span : Type 0 where
  pub start : Option ℕ
  pub end : Option ℕ
  pub len : ℕ

pub record Change : Type 0 where
  pub old : Span
  pub new : Span
  pub pos : ℕ

-- `changes` is the list that starts at `change`, the most recent one first.
pub record Revision : Type 0 where
  pub changes : List Change
  pub next : Option ℕ
  pub prev : Option ℕ
  pub earlier : Option ℕ
  pub later : Option ℕ
  pub time : ℕ
  pub seq : ℕ

pub record LineCache : Type 0 where
  pub pos : ℕ
  pub lineno : ℕ

-- `next`, `prev`, `blk`, `off` and `len` are the members of the pieces below `fresh`; `now` is what
-- time(NULL) gives. `fault` is set where the code follows a null pointer.
pub record Text : Type 0 where
  pub blocks : ℕ → Block
  pub nblocks : ℕ
  pub fresh : ℕ
  pub next : ℕ → Option ℕ
  pub prev : ℕ → Option ℕ
  pub blk : ℕ → ℕ
  pub off : ℕ → ℕ
  pub len : ℕ → ℕ
  pub cache : Option ℕ
  pub revs : ℕ → Revision
  pub nrevs : ℕ
  pub history : Option ℕ
  pub current : Option ℕ
  pub last : Option ℕ
  pub saved : Option ℕ
  pub size : ℕ
  pub lines : LineCache
  pub now : ℕ
  pub fault : Bool

abbrev pub begin : ℕ
begin = 0

abbrev pub ending : ℕ
ending = 1

abbrev pub null_span : Span
null_span = record { start = none; end = none; len = 0 }

-- p == q for pointers
abbrev pub same : Option ℕ → Option ℕ → Bool
same none none = true
same (some p) (some q) = p == q
same none (some q) = false
same (some p) none = false

-- p->next and p->prev; from a null pointer there is no telling.
abbrev pub follow : (ℕ → Option ℕ) → Option ℕ → Option ℕ
follow link none = none
follow link (some p) = link p

-- p->next = q and p->prev = q
abbrev pub set_next : Option ℕ → Option ℕ → Text → Text
set_next none q t = record t { fault = true }
set_next (some p) q t = record t { next = put_at t.next p q }

abbrev pub set_prev : Option ℕ → Option ℕ → Text → Text
set_prev none q t = record t { fault = true }
set_prev (some p) q t = record t { prev = put_at t.prev p q }

-- The last block and the place in it where the data is stored.
unfoldable pub block_store : List ℕ → Text → (ℕ × ℕ) × Text
unfolding block_alloc block_capacity block_append
block_store cs t =
    let n = t.nblocks in
    let fits = not (n == 0) && block_capacity (t.blocks (n - 1)) (length cs) in
    let i = if fits then n - 1 else n in
    let blk = if fits then t.blocks i else block_alloc (length cs) in
    (
      (i, blk.len),
      record t {
        blocks = put_at t.blocks i (block_append blk cs);
        nblocks = if fits then n else n + 1;
      },
    )

-- p->data + p->len == blk->data + blk->len, for the last block
abbrev pub at_block_end : Text → ℕ → Bool
at_block_end t p =
    not (t.nblocks == 0)
    && t.blk p == t.nblocks - 1
    && t.off p + t.len p == (t.blocks (t.nblocks - 1)).len

unfoldable pub cache_piece : ℕ → Text → Text
cache_piece p t = if at_block_end t p then record t { cache = some p } else t

-- The loop of cache_contains from `cur` on.
unfoldable pub span_has : ℕ → Text → ℕ → Option ℕ → Option ℕ → Bool
span_has zero t p cur end = false
span_has (suc k) t p cur end =
    let rest = span_has k t p (follow t.next cur) end in
    if same cur (some p) then true else if same cur end then false else rest

-- The changes of the current revision.
abbrev pub current_changes : Text → List Change
current_changes t = elim t.current [ none ↦ [] | some r ↦ (t.revs r).changes ]

unfoldable pub cache_contains : Text → ℕ → Bool
unfolding span_has
cache_contains t p = same t.cache (some p) && elim (current_changes t) [
  | [] ↦ false
  | c ∷ cs ↦ span_has t.fresh t p c.new.start c.new.end && at_block_end t p
]

abbrev pub set_changes : List Change → Text → Text
set_changes cs t = elim t.current [
  | none ↦ record t { fault = true }
  | some r ↦ record t { revs = put_at t.revs r (record (t.revs r) { changes = cs }) }
]

-- txt->current_revision->change->new.len = n
abbrev pub set_new_len : ℕ → List Change → List Change
set_new_len n [] = []
set_new_len n (c ∷ cs) = record c { new = record c.new { len = n } } ∷ cs

abbrev pub new_len : List Change → ℕ
new_len [] = 0
new_len (c ∷ cs) = c.new.len

-- What cache_insert and cache_delete write: the last block, and the lengths with it.
abbrev pub resize_cached : Block → ℕ → ℕ → ℕ → ℕ → Text → Text
resize_cached blk p len span size t =
    record (set_changes (set_new_len span (current_changes t)) t) {
      blocks = put_at t.blocks (t.nblocks - 1) blk;
      len = put_at t.len p len;
      size = size;
    }

unfoldable pub cache_insert : Text → ℕ → ℕ → List ℕ → Option Text
unfolding cache_contains block_insert
cache_insert t p off cs =
    let n = length cs in
    elim (if cache_contains t p
      then block_insert (t.blocks (t.nblocks - 1)) (t.off p + off) cs
      else none) [
        | none ↦ none
        | some blk ↦
            some
              (resize_cached blk p (t.len p + n) (new_len (current_changes t) + n) (t.size + n) t)
      ]

unfoldable pub cache_delete : Text → ℕ → ℕ → ℕ → Option Text
unfolding cache_contains block_delete
cache_delete t p off n =
    elim (if cache_contains t p && not (overflows off n || ltb (t.len p) (off + n))
      then block_delete (t.blocks (t.nblocks - 1)) (t.off p + off) n
      else none) [
        | none ↦ none
        | some blk ↦
            some
              (resize_cached blk p (t.len p - n) (new_len (current_changes t) - n) (t.size - n) t)
      ]

-- The loop of span_init.
unfoldable pub span_len : ℕ → Text → Option ℕ → Option ℕ → ℕ
span_len zero t p end = 0
span_len (suc k) t none end = 0
span_len (suc k) t (some p) end =
    let rest = span_len k t (t.next p) end in t.len p + (if same (some p) end then 0 else rest)

unfoldable pub span_init : Text → Option ℕ → Option ℕ → Span
unfolding span_len
span_init t start end = record { start = start; end = end; len = span_len t.fresh t start end }

unfoldable pub span_swap : Span → Span → Text → Text
span_swap old new t =
    if old.len == 0 && new.len == 0
    then t
    else (let linked =
          if old.len == 0
          then (let t1 = set_next (follow t.prev new.start) new.start t in
              set_prev (follow t1.next new.end) new.end t1)
          else if new.len == 0
          then (let t1 = set_next (follow t.prev old.start) (follow t.next old.end) t in
              set_prev (follow t1.next old.end) (follow t1.prev old.start) t1)
          else (let t1 = set_next (follow t.prev old.start) new.start t in
              set_prev (follow t1.next old.end) new.end t1) in
        record linked { size = t.size - old.len + new.len })
