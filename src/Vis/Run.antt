-- ===== src/Vis/Run.antt =====
-- vis/text.c: sequences of text_insert, text_delete and text_snapshot, against a list of bytes.
use suckless.Prelude.{
  ltb, ℕ, zero, suc, ◌+◌, ◌^◌, ◌≤◌, ◌<◌, ◌≡◌, refl, sym, ap, ap₂, subst, ◌∙◌, Bool, true, false,
  ◌||◌, if◌then◌else◌, List, [], ◌∷◌, ◌++◌, none, arith, length, length-append, length-drop, take,
  drop,
}
use suckless.Vis.Block.{overflows}
use suckless.Vis.Text.{Text}
use suckless.Vis.Change.{text_snapshot}
use suckless.Vis.Edit.{text_insert, text_delete}
use suckless.Vis.Edited.{inserted}
use suckless.Vis.Cut.{deleted}
use suckless.Vis.Undone.{Holds, Holds-size, take-drop, nonempty}
use suckless.Vis.Ready.{IsReady, ready-Holds, no_cache-IsServed, text_snapshot-IsReady}
use suckless.Vis.Edits.{text_insert-IsReady, text_delete-IsReady}

pub data Op : Type 0 where
  insert : ℕ → List ℕ → Op
  delete : ℕ → ℕ → Op
  snapshot : Op

-- What an operation makes of a text, and what it answers.
unfoldable pub apply : Op → Text → Bool × Text
apply (insert pos cs) t = text_insert pos cs t
apply (delete pos len) t = text_delete pos len t
apply snapshot t = (true, text_snapshot t)

-- What it makes of a list of bytes: nothing beyond its end.
unfoldable pub edit : Op → List ℕ → Bool × List ℕ
edit (insert pos []) c = (true, c)
edit (insert pos (x ∷ cs)) c =
    if ltb (length c) pos then (false, c) else (true, inserted c pos (x ∷ cs))
edit (delete pos zero) c = (true, c)
edit (delete pos (suc n)) c =
    if ltb (length c) (pos + suc n) then (false, c) else (true, deleted c pos (suc n))
edit snapshot c = (true, c)

-- The answers to the operations, in order, and what is left.
unfoldable pub apply_all : List Op → Text → List Bool × Text
unfolding apply
apply_all [] t = ([], t)
apply_all (o ∷ ops) t =
    let (done, u) = apply o t in let (answers, v) = apply_all ops u in (done ∷ answers, v)

unfoldable pub edit_all : List Op → List ℕ → List Bool × List ℕ
unfolding edit
edit_all [] c = ([], c)
edit_all (o ∷ ops) c =
    let (done, d) = edit o c in let (answers, e) = edit_all ops d in (done ∷ answers, e)

-- The bytes that an operation, or all of them, may add.
unfoldable pub added : Op → ℕ
added (insert pos cs) = length cs
added (delete pos len) = 0
added snapshot = 0

unfoldable pub all_added : List Op → ℕ
unfolding added
all_added [] = 0
all_added (o ∷ ops) = added o + all_added ops

abbrev Answers : Bool × Text → Bool × List ℕ → Type 0
Answers r s = (r.0 ≡ s.0) × IsReady r.1 s.1

pub insert_refused :
    (t : Text) (pos x : ℕ) (cs : List ℕ)
    → ltb t.size pos ≡ true
    → text_insert pos (x ∷ cs) t ≡ (false, t)
unfolding text_insert
insert_refused t pos x cs h = rw (nonempty (length (x ∷ cs)) (omega arith), h) refl

pub delete_refused :
    (t : Text) (pos n : ℕ)
    → ltb t.size (pos + suc n) ≡ true
    → text_delete pos (suc n) t ≡ (false, t)
unfolding text_delete
delete_refused t pos n h =
    let test : (overflows pos (suc n) || ltb t.size (pos + suc n)) ≡ true = ground (arith, h) in
    rw (nonempty (suc n) (omega arith), test) refl

insert-Answers :
    (t : Text) (c : List ℕ) (pos x : ℕ) (cs : List ℕ) (b : Bool)
    → IsReady t c
    → ltb (length c) pos ≡ b
    → Answers
        (text_insert pos (x ∷ cs) t)
        (if b then (false, c) else (true, inserted c pos (x ∷ cs)))
insert-Answers t c pos x cs true v e =
    subst (λ r. Answers r (false, c))
      (sym
        (insert_refused t pos x cs (ap (λ n. ltb n pos) (Holds-size t c (ready-Holds t c v)) ∙ e)))
      (refl, v)
insert-Answers t c pos x cs false v e = text_insert-IsReady t c pos (x ∷ cs) v (ground (arith, e))

delete-Answers :
    (t : Text) (c : List ℕ) (pos n : ℕ) (b : Bool)
    → IsReady t c
    → length c < 2 ^ 64
    → ltb (length c) (pos + suc n) ≡ b
    → Answers (text_delete pos (suc n) t) (if b then (false, c) else (true, deleted c pos (suc n)))
delete-Answers t c pos n true v k e =
    subst (λ r. Answers r (false, c))
      (sym (
        delete_refused t pos n
          (ap (λ m. ltb m (pos + suc n)) (Holds-size t c (ready-Holds t c v)) ∙ e)))
      (refl, v)
delete-Answers t c pos n false v k e =
    text_delete-IsReady t c pos (suc n) v (ground (arith, e)) k (omega arith)

apply-edit :
    (o : Op) (t : Text) (c : List ℕ)
    → IsReady t c
    → length c < 2 ^ 64
    → Answers (apply o t) (edit o c)
unfolding apply edit text_insert text_delete
apply-edit (insert pos []) t c v h = (refl, v)
apply-edit (insert pos (x ∷ cs)) t c v h = insert-Answers t c pos x cs (ltb (length c) pos) v refl
apply-edit (delete pos zero) t c v h = (refl, v)
apply-edit (delete pos (suc n)) t c v h =
    delete-Answers t c pos n (ltb (length c) (pos + suc n)) v h refl
apply-edit snapshot t c v h = (refl, text_snapshot-IsReady t c v)

length_parts : (c : List ℕ) (n : ℕ) → length (take n c) + length (drop n c) ≡ length c
length_parts c n = sym (length-append {0} (take n c) (drop n c)) ∙ ap length (take-drop n c)

pub length-inserted : (c cs : List ℕ) (pos : ℕ) → length (inserted c pos cs) ≡ length c + length cs
length-inserted c cs pos = omega (
  arith,
  length-append {0} (take pos c) (cs ++ drop pos c),
  length-append {0} cs (drop pos c),
  length_parts c pos,
)

pub length-deleted : (c : List ℕ) (pos n : ℕ) → length (deleted c pos n) ≤ length c
length-deleted c pos n = omega (
  arith,
  length-append {0} (take pos c) (drop (pos + n) c),
  length_parts c pos,
  length-drop {0} (pos + n) c,
  length-drop {0} pos c,
)

if_length :
    (b : Bool) (c d : List ℕ) (n : ℕ)
    → length d ≤ length c + n
    → length (let r : Bool × List ℕ = if b then (false, c) else (true, d) in r.1) ≤ length c + n
if_length true c d n h = omega arith
if_length false c d n h = h

length-edit : (o : Op) (c : List ℕ) → length (edit o c).1 ≤ length c + added o
unfolding edit added
length-edit (insert pos []) c = omega arith
length-edit (insert pos (x ∷ cs)) c =
    if_length (ltb (length c) pos) c (inserted c pos (x ∷ cs)) (length (x ∷ cs))
      (omega (arith, length-inserted c (x ∷ cs) pos))
length-edit (delete pos zero) c = omega arith
length-edit (delete pos (suc n)) c =
    if_length (ltb (length c) (pos + suc n)) c (deleted c pos (suc n)) 0
      (omega (arith, length-deleted c pos (suc n)))
length-edit snapshot c = omega arith

apply_all-IsReady :
    (ops : List Op) (t : Text) (c : List ℕ)
    → IsReady t c
    → length c + all_added ops < 2 ^ 64
    → ((apply_all ops t).0 ≡ (edit_all ops c).0) × IsReady (apply_all ops t).1 (edit_all ops c).1
unfolding apply_all edit_all all_added
apply_all-IsReady [] t c v h = (refl, v)
apply_all-IsReady (o ∷ ops) t c v h =
    let (done, ready) = apply-edit o t c v (omega (arith, h)) in
    let (answers, held) =
      apply_all-IsReady ops (apply o t).1 (edit o c).1 ready (omega (arith, h, length-edit o c)) in
    (ap₂ (◌∷◌) done answers, held)

-- On a text that holds the bytes c, with an empty cache, any sequence of insertions, deletions and
-- snapshots, in which c and all the data together are fewer than 2 ^ 64 bytes, gives the answers that
-- the same sequence gives on the list c, where a position or a range beyond its end is refused, and
-- the text then holds what the list has become.
pub apply_all-Holds :
    (ops : List Op) (t : Text) (c : List ℕ)
    → Holds t c
    → t.cache ≡ none
    → length c + all_added ops < 2 ^ 64
    → ((apply_all ops t).0 ≡ (edit_all ops c).0) × Holds (apply_all ops t).1 (edit_all ops c).1
apply_all-Holds ops t c v e h =
    let (answers, ready) =
      apply_all-IsReady ops t c
        (record {
          chain = v.chain;
          text = v.text;
          bytes = v.bytes;
          served = no_cache-IsServed t v.chain e;
        })
        h in
    (answers, ready-Holds _ _ ready)
