-- ===== src/Vis/Tests.antt =====
-- vis/text.c on a text of one piece: the theorems at concrete inputs.
use suckless.Prelude.{
  ℕ, zero, suc, ◌+◌, ◌≡◌, refl, true, false, List, [], ◌∷◌, Option, none, some, arith, ◌==◌,
  if◌then◌else◌, inl, inr,
}
use suckless.Vis.Block.{Block, block_size, block_insert}
use suckless.Vis.Text.{Text, Span, Revision, span_swap, block_store}
use suckless.Vis.Links.{Held, Distinct}
use suckless.Vis.Edit.{text_insert, text_delete, piece_get_intern}
use suckless.Vis.Undo.{text_undo, text_redo}
use suckless.Vis.Chain.{content, total, IsText}
use suckless.Vis.Swap.{relinked, span_swap-IsText}
use suckless.Vis.Back.{span_swap-span_swap}
use suckless.Vis.Find.{IsPlace, piece_get_intern-IsPlace}
use suckless.Vis.Store.{IsStored, IsWithin, block_store-IsWithin}
use suckless.Vis.Edited.{inserted}
use suckless.Vis.Bytes.{IsBlock, block_bytes, block_insert-IsBlock}
use suckless.Vis.Redone.{text_redo-text_insert, text_redo-text_delete}
use suckless.Vis.Cut.{deleted}
use suckless.Vis.Deletion.{text_delete-Holds, text_undo-text_delete}
use suckless.Vis.Run.{Op, insert, delete, snapshot, apply_all, edit_all, all_added, apply_all-Holds}
use suckless.Vis.Agree.{Heaped}
use suckless.Vis.Steps.{Act, edit, undo, act_all, redact_all, acts_added}
use suckless.Vis.Session.{fresh_doc, IsLoaded, act_all-Holds}
use suckless.Vis.Undone.{Holds, text_insert-Holds, text_undo-text_insert}

-- The bytes 97, 98, 99 in the piece 2, and a piece 3 with the byte 100 that is not linked in.
abbrev block : Block
block = record { size = block_size; len = 4; bytes = λ i. 97 + i }

abbrev next_of_piece : ℕ → Option ℕ
next_of_piece p = if p == 0 then some 2 else if p == 1 then none else some 1

abbrev prev_of_piece : ℕ → Option ℕ
prev_of_piece p =
    if p == 0 then none else if p == 1 then some 2 else if p == 2 then some 0 else some 2

abbrev first_revision : Revision
first_revision = record {
  changes = [];
  next = none;
  prev = none;
  earlier = none;
  later = none;
  time = 0;
  seq = 0;
}

abbrev abc : Text
abc = record {
  blocks = λ i. block;
  nblocks = 1;
  fresh = 4;
  next = next_of_piece;
  prev = prev_of_piece;
  blk = λ p. 0;
  off = λ p. if p == 3 then 3 else 0;
  len = λ p. if p == 2 then 3 else if p == 3 then 1 else 0;
  cache = none;
  revs = λ r. first_revision;
  nrevs = 1;
  history = some 0;
  current = none;
  last = some 0;
  saved = some 0;
  size = 3;
  lines = record { pos = 0; lineno = 1 };
  now = 0;
  fault = false;
}

abc-IsText : IsText abc (0 ∷ 2 ∷ 1 ∷ [])
unfolding total
abc-IsText = record {
  linked = ((refl, (refl, tt)), (refl, (refl, tt)));
  distinct = (
    ((λ e. omega (arith, e)), ((λ e. omega (arith, e)), tt)),
    (((λ e. omega (arith, e)), tt), (tt, tt)),
  );
  first = refl;
  final = refl;
  closed = refl;
  begin_len = refl;
  ending_len = refl;
  below = (omega arith, (omega arith, (omega arith, tt)));
  count = omega arith;
  stored = (inl refl, (inr (omega arith, omega arith), (inl refl, tt)));
  sized = refl;
}

abc-Holds : Holds abc (97 ∷ 98 ∷ 99 ∷ [])
unfolding content
abc-Holds = record { chain = 0 ∷ 2 ∷ 1 ∷ []; text = abc-IsText; bytes = refl }

text_insert-Holds_example :
    ((text_insert 1 (120 ∷ 121 ∷ []) abc).0 ≡ true)
    × Holds (text_insert 1 (120 ∷ 121 ∷ []) abc).1 (inserted (97 ∷ 98 ∷ 99 ∷ []) 1 (120 ∷ 121 ∷ []))
text_insert-Holds_example =
    text_insert-Holds abc (97 ∷ 98 ∷ 99 ∷ []) 1 (120 ∷ 121 ∷ []) abc-Holds (omega arith) refl

text_undo-text_insert_example :
    ((text_undo (text_insert 1 (120 ∷ 121 ∷ []) abc).1).0 ≡ some 1)
    × Holds (text_undo (text_insert 1 (120 ∷ 121 ∷ []) abc).1).1 (97 ∷ 98 ∷ 99 ∷ [])
text_undo-text_insert_example =
    text_undo-text_insert abc (97 ∷ 98 ∷ 99 ∷ []) 1 0 (120 ∷ 121 ∷ []) abc-Holds (omega arith)
      (omega arith) refl refl refl

piece_get_intern-IsPlace_example : IsPlace abc (0 ∷ 2 ∷ 1 ∷ []) 0 2 (piece_get_intern abc 2)
piece_get_intern-IsPlace_example =
    piece_get_intern-IsPlace abc (0 ∷ 2 ∷ 1 ∷ []) 2 abc-IsText (omega arith)

abc-IsWithin : IsWithin abc
abc-IsWithin b h = omega arith

block_store-IsWithin_example :
    IsStored abc
      (120 ∷ 121 ∷ [])
      (block_store (120 ∷ 121 ∷ []) abc).0
      (block_store (120 ∷ 121 ∷ []) abc).1
    × IsWithin (block_store (120 ∷ 121 ∷ []) abc).1
block_store-IsWithin_example = block_store-IsWithin (120 ∷ 121 ∷ []) abc abc-IsWithin

-- The piece 3 in behind the piece 2.
abbrev no_span : Span
no_span = record { start = none; end = none; len = 0 }

abbrev span_d : Span
span_d = record { start = some 3; end = some 3; len = 1 }

abbrev with_d : List ℕ
with_d = 0 ∷ 2 ∷ 3 ∷ 1 ∷ []

with_d-Distinct : Distinct with_d
with_d-Distinct = (
  ((λ e. omega (arith, e)), ((λ e. omega (arith, e)), ((λ e. omega (arith, e)), tt))),
  (
    ((λ e. omega (arith, e)), ((λ e. omega (arith, e)), tt)),
    (((λ e. omega (arith, e)), tt), (tt, tt)),
  ),
)

span_swap-IsText_example :
    let u = span_swap no_span span_d abc in
    IsText u with_d × Held u.next u.prev 2 [] 1 × (u ≡ relinked 2 1 (3 ∷ []) 4 abc)
unfolding total
span_swap-IsText_example =
    span_swap-IsText abc no_span span_d (0 ∷ []) 2 [] (3 ∷ []) 1 [] abc-IsText with_d-Distinct
      ((refl, tt), (refl, tt)) refl (refl, omega arith, refl, refl) (omega arith) (omega arith, tt)
      (inr (omega arith, omega arith), tt) (omega arith)

span_swap-span_swap_example : span_swap span_d no_span (span_swap no_span span_d abc) ≡ abc
unfolding total
span_swap-span_swap_example =
    span_swap-span_swap abc no_span span_d (0 ∷ []) 2 [] (3 ∷ []) 1 [] abc-IsText with_d-Distinct
      ((refl, tt), (refl, tt)) refl (refl, omega arith, refl, refl) (omega arith) (omega arith, tt)
      (inr (omega arith, omega arith), tt) (omega arith)

text_delete-Holds_example :
    ((text_delete 1 1 abc).0 ≡ true)
    × Holds (text_delete 1 1 abc).1 (deleted (97 ∷ 98 ∷ 99 ∷ []) 1 1)
text_delete-Holds_example =
    text_delete-Holds abc (97 ∷ 98 ∷ 99 ∷ []) 1 1 abc-Holds (omega arith) (omega arith)
      (omega arith) refl

text_undo-text_delete_example :
    ((text_undo (text_delete 1 1 abc).1).0 ≡ some 1)
    × Holds (text_undo (text_delete 1 1 abc).1).1 (97 ∷ 98 ∷ 99 ∷ [])
text_undo-text_delete_example =
    text_undo-text_delete abc (97 ∷ 98 ∷ 99 ∷ []) 1 1 0 abc-Holds (omega arith) (omega arith)
      (omega arith) refl refl refl

block_insert-IsBlock_example :
    IsBlock
      (block_insert block 1 (120 ∷ 121 ∷ []))
      (inserted (block_bytes block) 1 (120 ∷ 121 ∷ []))
block_insert-IsBlock_example =
    block_insert-IsBlock block 1 (120 ∷ 121 ∷ []) (omega arith) (omega arith)

text_redo-text_insert_example :
    Holds
      (text_redo (text_undo (text_insert 1 (120 ∷ 121 ∷ []) abc).1).1).1
      (inserted (97 ∷ 98 ∷ 99 ∷ []) 1 (120 ∷ 121 ∷ []))
text_redo-text_insert_example =
    text_redo-text_insert abc (97 ∷ 98 ∷ 99 ∷ []) 1 0 (120 ∷ 121 ∷ []) abc-Holds (omega arith)
      (omega arith) refl refl refl

text_redo-text_delete_example :
    Holds (text_redo (text_undo (text_delete 1 1 abc).1).1).1 (deleted (97 ∷ 98 ∷ 99 ∷ []) 1 1)
text_redo-text_delete_example =
    text_redo-text_delete abc (97 ∷ 98 ∷ 99 ∷ []) 1 1 0 abc-Holds (omega arith) (omega arith)
      (omega arith) refl refl refl

-- Two insertions and a deletion in the piece that the cache serves, and a range beyond the end.
abbrev some_edits : List Op
some_edits =
    insert 1 (120 ∷ 121 ∷ [])
    ∷ insert 3 (122 ∷ [])
    ∷ delete 2 1
    ∷ snapshot
    ∷ delete 4 9
    ∷ delete 0 2
    ∷ []

apply_all-Holds_example :
    ((apply_all some_edits abc).0 ≡ (edit_all some_edits (97 ∷ 98 ∷ 99 ∷ [])).0)
    × Holds (apply_all some_edits abc).1 (edit_all some_edits (97 ∷ 98 ∷ 99 ∷ [])).1
unfolding all_added
apply_all-Holds_example =
    apply_all-Holds some_edits abc (97 ∷ 98 ∷ 99 ∷ []) abc-Holds refl (omega arith)

abc-Heaped : Heaped abc
abc-Heaped zero h = inl refl
abc-Heaped (suc zero) h = inl refl
abc-Heaped (suc (suc zero)) h = inr (omega arith, omega arith)
abc-Heaped (suc (suc (suc zero))) h = inr (omega arith, omega arith)
abc-Heaped (suc (suc (suc (suc q)))) h = absurd (omega (arith, h))

abc-IsLoaded : IsLoaded abc (97 ∷ 98 ∷ 99 ∷ [])
abc-IsLoaded = record {
  held = abc-Holds;
  heaped = abc-Heaped;
  cache = refl;
  current = refl;
  root = 0;
  history = refl;
  known = omega arith;
  first = refl;
}

-- Edits of the cached piece, two snapshots, and three undos.
abbrev some_acts : List Act
some_acts =
    edit (insert 1 (120 ∷ 121 ∷ []))
    ∷ edit (insert 3 (122 ∷ []))
    ∷ edit snapshot
    ∷ edit (delete 0 2)
    ∷ edit (delete 9 9)
    ∷ undo
    ∷ edit (insert 0 (120 ∷ []))
    ∷ undo
    ∷ undo
    ∷ undo
    ∷ []

act_all-Holds_example :
    ((act_all some_acts abc).0 ≡ (redact_all some_acts (fresh_doc (97 ∷ 98 ∷ 99 ∷ []))).0)
    × Holds (act_all some_acts abc).1 (redact_all some_acts (fresh_doc (97 ∷ 98 ∷ 99 ∷ []))).1.now
unfolding acts_added
act_all-Holds_example = act_all-Holds some_acts abc (97 ∷ 98 ∷ 99 ∷ []) abc-IsLoaded (omega arith)

-- What the acts make of the bytes: the three undos lead back to the start.
some_acts_result : (redact_all some_acts (fresh_doc (97 ∷ 98 ∷ 99 ∷ []))).1.now ≡ 97 ∷ 98 ∷ 99 ∷ []
unfolding redact_all
some_acts_result = refl
