-- ===== src/Vis/Edit.antt =====
-- vis/text.c: piece_get_intern, text_insert, text_delete.
use suckless.Prelude.{
  ℕ, zero, suc, ◌+◌, ◌-◌, Bool, true, false, not, ◌&&◌, ◌||◌, List, [], ◌∷◌, Option, none, some,
  ltb, leb, ◌==◌, if◌then◌else◌, length, put_at,
}
use suckless.Vis.Block.{overflows}
use suckless.Vis.Text.{
  Text, Span, Change, LineCache, begin, block_store, cache_piece, cache_insert, cache_delete,
  current_changes, set_changes, span_init, span_swap,
}
use suckless.Vis.Change.{change_alloc}

-- The loop of piece_get_intern from the piece p on.
unfoldable pub find_from : ℕ → Text → ℕ → ℕ → ℕ → Option (ℕ × ℕ)
find_from zero t pos p cur = none
find_from (suc k) t pos p cur = elim (t.next p) [
  | none ↦ none
  | some q ↦
      (let rest = find_from k t pos q (cur + t.len p) in
        if leb cur pos && leb pos (cur + t.len p) then some (p, pos - cur) else rest)
]

-- The piece and the offset in it. The chain holds `fresh` pieces at most.
unfoldable pub piece_get_intern : Text → ℕ → Option (ℕ × ℕ)
unfolding find_from
piece_get_intern t pos = find_from t.fresh t pos begin 0

-- piece_init of the piece that piece_alloc gave.
unfoldable pub piece_init : ℕ → Option ℕ → Option ℕ → ℕ → ℕ → ℕ → Text → Text
piece_init p prev next blk off len t = record t {
  prev = put_at t.prev p prev;
  next = put_at t.next p next;
  blk = put_at t.blk p blk;
  off = put_at t.off p off;
  len = put_at t.len p len;
}

abbrev pub piece_alloc : ℕ → Text → Text
piece_alloc n t = record t { fresh = t.fresh + n }

-- `if (pos < txt->lines.pos) lineno_cache_invalidate(&txt->lines);`
abbrev pub invalid_lines : LineCache
invalid_lines = record { pos = 0; lineno = 1 }

abbrev pub invalidate_from : ℕ → Text → Text
invalidate_from pos t = if ltb pos t.lines.pos then record t { lines = invalid_lines } else t

-- c->new and c->old, for the change c that was allocated last.
abbrev pub put_spans : Span → Span → List Change → List Change
put_spans old new [] = []
put_spans old new (c ∷ cs) = record c { old = old; new = new } ∷ cs

abbrev pub set_spans : Span → Span → Text → Text
set_spans old new t = set_changes (put_spans old new (current_changes t)) t

-- The insertion between p and its successor of the data at (blk, off).
unfoldable pub insert_between : ℕ → ℕ → ℕ → ℕ → Text → Text
unfolding piece_init span_init cache_piece span_swap
insert_between p blk off len t =
    let new = t.fresh in
    let t1 = piece_init new (some p) (t.next p) blk off len (piece_alloc 1 t) in
    let added = span_init t1 (some new) (some new) in
    let removed = span_init t1 none none in
    span_swap removed added (cache_piece new (set_spans removed added t1))

-- The insertion into p, before its byte `at`.
unfoldable pub insert_inside : ℕ → ℕ → ℕ → ℕ → ℕ → Text → Text
unfolding piece_init span_init cache_piece span_swap
insert_inside p at blk off len t =
    let before = t.fresh in
    let new = t.fresh + 1 in
    let after = t.fresh + 2 in
    let t1 = piece_init before (t.prev p) (some new) (t.blk p) (t.off p) at (piece_alloc 3 t) in
    let t2 = piece_init new (some before) (some after) blk off len t1 in
    let t3 =
      piece_init after (some new) (t2.next p) (t2.blk p) (t2.off p + at) (t2.len p - at) t2 in
    let added = span_init t3 (some before) (some after) in
    let removed = span_init t3 (some p) (some p) in
    span_swap removed added (cache_piece new (set_spans removed added t3))

-- The insertion at byte `at` of p where the cache does not serve.
unfoldable pub insert_new : ℕ → ℕ → ℕ → List ℕ → Text → Text
unfolding change_alloc block_store insert_between insert_inside
insert_new pos p at cs t =
    let ((blk, off), t1) = block_store cs (change_alloc pos t) in
    if at == t1.len p
    then insert_between p blk off (length cs) t1
    else insert_inside p at blk off (length cs) t1

unfoldable pub text_insert : ℕ → List ℕ → Text → Bool × Text
unfolding piece_get_intern cache_insert insert_new
text_insert pos cs t =
    let t1 = invalidate_from pos t in
    if length cs == 0
    then (true, t)
    else if ltb t.size pos
    then (false, t)
    else elim (piece_get_intern t1 pos) [
      | none ↦ (false, t1)
      | some (p, at) ↦ elim (cache_insert t1 p at cs) [
        | none ↦ (true, insert_new pos p at cs t1)
        | some t2 ↦ (true, t2)
      ]
    ]

-- `while (cur < len) { p = p->next; cur += p->len; }`: the piece and `cur`.
unfoldable pub skip_from : ℕ → Text → ℕ → ℕ → ℕ → ℕ × ℕ
skip_from zero t len p cur = (p, cur)
skip_from (suc k) t len p cur =
    let q : ℕ = elim (t.next p) [ none ↦ p | some q ↦ q ] in
    let rest = skip_from k t len q (cur + t.len q) in if ltb cur len then rest else (p, cur)

-- The rest of text_delete behind its loop, which stopped at the piece q with `over` bytes too many;
-- `midway_start` and `midway_end` are its flags.
unfoldable pub delete_cut : Bool → Bool → ℕ → ℕ → ℕ → ℕ → ℕ → Text → Text
unfolding piece_init span_init span_swap
delete_cut midway_start midway_end before p at q over t1 =
    let start = if midway_start then some p else t1.next p in
    let after = if midway_end then some t1.fresh else t1.next q in
    let t2 =
      if midway_end
      then piece_init t1.fresh (some before) (t1.next q) (t1.blk q) (t1.off q + t1.len q - over)
          over (piece_alloc 1 t1)
      else t1 in
    let t3 =
      if midway_start
      then piece_init before (t2.prev p) after (t2.blk p) (t2.off p) at t2
      else t2 in
    let new_start = if midway_start then some before else if midway_end then after else none in
    let new_end = if midway_end then after else if midway_start then some before else none in
    let added = span_init t3 new_start new_end in
    let removed = span_init t3 start (some q) in
    span_swap removed added (set_spans removed added t3)

-- The deletion of len bytes from byte `at` of p on, where the cache does not serve. `before` and
-- `after` are allocated where the deletion starts and stops midway through a piece.
unfoldable pub delete_new : ℕ → ℕ → ℕ → ℕ → Text → Text
unfolding change_alloc skip_from delete_cut
delete_new pos p at len t =
    let t0 = change_alloc pos t in
    let midway_start = not (at == t0.len p) in
    let before = if midway_start then t0.fresh else p in
    let t1 = if midway_start then piece_alloc 1 t0 else t0 in
    let stop = skip_from t1.fresh t1 len p (if midway_start then t1.len p - at else 0) in
    delete_cut midway_start (not (stop.1 == len)) before p at stop.0 (stop.1 - len) t1

unfoldable pub text_delete : ℕ → ℕ → Text → Bool × Text
unfolding piece_get_intern cache_delete delete_new
text_delete pos len t =
    let t1 = invalidate_from pos t in
    if len == 0
    then (true, t)
    else if overflows pos len || ltb t.size (pos + len)
    then (false, t)
    else elim (piece_get_intern t1 pos) [
      | none ↦ (false, t1)
      | some (p, at) ↦ elim (cache_delete t1 p at len) [
        | none ↦ (true, delete_new pos p at len t1)
        | some t2 ↦ (true, t2)
      ]
    ]
