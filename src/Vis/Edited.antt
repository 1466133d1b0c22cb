-- ===== src/Vis/Edited.antt =====
-- vis/text.c: what text_insert makes of a text, in either of its two cases.
use suckless.Prelude.{
  ℕ, zero, suc, ◌+◌, ◌≤◌, ◌<◌, ◌≡◌, refl, sym, ap, ap₂, ◌∙◌, Bool, true, false, if◌then◌else◌, List,
  [], ◌∷◌, ◌++◌, some, arith, length, length-append, take, drop,
}
use mathlib.Core.List.{append_assoc}
use suckless.Vis.Text.{Text, Span, span_swap, cache_piece, at_block_end}
use suckless.Vis.Edit.{insert_between, insert_inside, set_spans}
use suckless.Vis.Chain.{
  content, content-append, total, piece_bytes, length-content, length-slice, slice, IsText,
  Below-Out, Below-split,
}
use suckless.Vis.Frame.{Beside, recorded-Beside}
use suckless.Vis.Inside.{
  with_after, inside_last, inside-Clear, inside-Agrees, inside-Heaped, inside_all, inside_span,
  removed, added, inside-IsText, inside_kept, insert_inside-IsSwapped, insert_inside-content,
}
use suckless.Vis.Insert.{
  with_piece, between_last, between-Clear, between-Agrees, between-Heaped, between_all,
  between_span, nothing, one, between-IsText, between_kept, insert_between-IsSwapped,
  insert_between-content,
}
use suckless.Vis.Recorded.{IsSwapped}
use suckless.Vis.Store.{Before}
use suckless.Vis.Served.{IsServed, IsKept, Every, inserted-IsServed, inserted_covers}
use suckless.Vis.Agree.{Heaped}

-- The bytes c with the data cs put in before position pos.
abbrev pub inserted : List ℕ → ℕ → List ℕ → List ℕ
inserted c pos cs = take pos c ++ (cs ++ drop pos c)

pub take-append : (l m : List ℕ) (k : ℕ) → take (length l + k) (l ++ m) ≡ l ++ take k m
take-append [] m k = ap (λ n. take n m) (omega arith)
take-append (x ∷ l) m k =
    ap (λ n. take n (x ∷ l ++ m)) {y = suc (length l + k)} (omega arith)
    ∙ ap (λ n. x ∷ n) (take-append l m k)

pub drop-append : (l m : List ℕ) (k : ℕ) → drop (length l + k) (l ++ m) ≡ drop k m
drop-append [] m k = ap (λ n. drop n m) (omega arith)
drop-append (x ∷ l) m k =
    ap (λ n. drop n (x ∷ l ++ m)) {y = suc (length l + k)} (omega arith) ∙ drop-append l m k

pub take_within : (l m : List ℕ) (k : ℕ) → k ≤ length l → take k (l ++ m) ≡ take k l
take_within l m zero h = refl
take_within [] m (suc k) h = absurd (omega arith)
take_within (x ∷ l) m (suc k) h = ap (λ n. x ∷ n) (take_within l m k (omega arith))

pub drop_within : (l m : List ℕ) (k : ℕ) → k ≤ length l → drop k (l ++ m) ≡ drop k l ++ m
drop_within l m zero h = refl
drop_within [] m (suc k) h = absurd (omega arith)
drop_within (x ∷ l) m (suc k) h = drop_within l m k (omega arith)

take_all : (l : List ℕ) → take (length l) l ≡ l
take_all [] = refl
take_all (x ∷ l) = ap (λ n. x ∷ n) (take_all l)

pub drop_all : (l : List ℕ) → drop (length l) l ≡ []
drop_all [] = refl
drop_all (x ∷ l) = drop_all l

pub inserted-append :
    (a b r cs : List ℕ) (k : ℕ)
    → k ≤ length b
    → inserted (a ++ (b ++ r)) (length a + k) cs ≡ a ++ (take k b ++ (cs ++ (drop k b ++ r)))
inserted-append a b r cs k h =
    ap₂ (λ x y. x ++ (cs ++ y)) (take-append a (b ++ r) k ∙ ap (λ n. a ++ n) (take_within b r k h))
      (drop-append a (b ++ r) k ∙ drop_within b r k h)
    ∙ append_assoc a (take k b) (cs ++ (drop k b ++ r))

-- The chain l of t as it stands before the edit, with the pieces of the edit at hand and the change
-- recorded, and the swap that leads from there to u. bytes is what u holds then.
pub record IsEditedAs (H : Type 0) (t u : Text) (l bytes : List ℕ) : Type 0 where
  pub base : Text
  pub recorded : Text
  pub old : Span
  pub new : Span
  pub chain : List ℕ
  pub base_text : IsText base l
  pub base_bytes : content base l ≡ content t l
  pub base_notes :
      (base.revs ≡ t.revs)
      × (base.current ≡ t.current)
      × (base.history ≡ t.history)
      × (base.nrevs ≡ t.nrevs)
  pub notes : recorded ≡ record (set_spans old new base) { cache = recorded.cache }
  pub noted : Beside base recorded
  pub result : u ≡ span_swap old new recorded
  pub swapped : IsSwapped base recorded old new chain
  pub bytes_are : content base chain ≡ bytes
  pub served : ((p : ℕ) → t.cache ≡ some p → p < t.fresh) → IsServed u chain
  pub kept : H → IsKept t base u new

abbrev pub IsEdited : Text → Text → List ℕ → List ℕ → Type 0
IsEdited t u l bytes = IsEditedAs (Heaped t) t u l bytes

cache_if :
    (b : Bool) (p : ℕ) (t : Text)
    → let u = if b then record t { cache = some p } else t in u ≡ record t { cache = u.cache }
cache_if true p t = refl
cache_if false p t = refl

pub cache_piece_notes :
    (p : ℕ) (t : Text) → cache_piece p t ≡ record t { cache = (cache_piece p t).cache }
unfolding cache_piece
cache_piece_notes p t = cache_if (at_block_end t p) p t

pub length_bytes : (t : Text) (p : ℕ) → length (piece_bytes t p) ≡ t.len p
length_bytes t p = length-slice (t.blocks (t.blk p)).bytes (t.off p) (t.len p)

bytes_between :
    (a b r d cs : List ℕ) (n k : ℕ)
    → d ≡ cs
    → length a ≡ n
    → length b ≡ k
    → a ++ (b ++ (d ++ r)) ≡ inserted (a ++ (b ++ r)) (n + k) cs
bytes_between a b r d cs n k e f g =
    ap₂ (λ x y. a ++ (x ++ y)) (sym (take_all b)) (ap₂ (λ x y. x ++ (y ++ r)) e (sym (drop_all b)))
    ∙ (sym (inserted-append a b r cs (length b) (omega arith))
        ∙ ap (λ m. inserted (a ++ (b ++ r)) m cs) {y = n + k} (omega (arith, f, g)))

bytes_inside :
    (a c b r d cs : List ℕ) (n m k : ℕ)
    → d ≡ cs
    → length a ≡ n
    → length c ≡ m
    → k ≤ length b
    → a ++ (c ++ (take k b ++ (d ++ (drop k b ++ r))))
      ≡ inserted (a ++ (c ++ (b ++ r))) (n + m + k) cs
bytes_inside a c b r d cs n m k e f g h =
    ap (λ x. a ++ (c ++ (take k b ++ (x ++ (drop k b ++ r))))) e
    ∙ (sym (append_assoc a c _)
        ∙ (sym (inserted-append (a ++ c) b r cs k h)
            ∙ (ap (λ x. inserted x (length (a ++ c) + k) cs) (append_assoc a c (b ++ r))
                ∙ ap (λ m. inserted (a ++ (c ++ (b ++ r))) m cs) {y = n + m + k}
                    (omega (arith, f, g, length-append {0} a c)))))

-- The data between two pieces.
pub insert_between-IsEdited :
    (H : Type 0) (t : Text) (left : List ℕ) (p s : ℕ) (right : List ℕ) (blk off : ℕ) (cs : List ℕ)
    → IsText t (left ++ p ∷ (s ∷ right))
    → 0 < length cs
    → blk < t.nblocks
    → off + length cs ≤ (t.blocks blk).len
    → slice (t.blocks blk).bytes off (length cs) ≡ cs
    → blk + 1 ≡ t.nblocks
    → off + length cs ≡ (t.blocks blk).len
    → Every (λ q. Before blk off (t.blk q) (t.off q) (t.len q)) (left ++ p ∷ (s ∷ right))
    → (H → Heaped t × ((q : ℕ) → q < t.fresh → Before blk off (t.blk q) (t.off q) (t.len q)))
    → IsEditedAs H t
        (insert_between p blk off (length cs) t)
        (left ++ p ∷ (s ∷ right))
        (inserted (content t (left ++ p ∷ (s ∷ right))) (total t left + t.len p) cs)
unfolding insert_between content
insert_between-IsEdited H t left p s right blk off cs is pos b room stored last full clear pre =
    let base = with_piece t left p s right blk off (length cs) in
    let so = nothing t left p s right blk off (length cs) in
    let sn = one t left p s right blk off (length cs) in
    let swapped =
      insert_between-IsSwapped t left p s right blk off (length cs) _
        (recorded-Beside t.fresh so sn base) is pos b room in
    record {
      base = base;
      recorded = cache_piece t.fresh (set_spans so sn base);
      old = so;
      new = sn;
      chain = left ++ p ∷ (t.fresh ∷ s ∷ right);
      base_text = between-IsText t left p s right blk off (length cs) is;
      base_bytes =
          between_kept t left p s right blk off (length cs) _
            (Below-Out t.fresh t.fresh _ (omega arith) is.below);
      base_notes = (refl, refl, refl, refl);
      notes = cache_piece_notes t.fresh (set_spans so sn base);
      noted = recorded-Beside t.fresh so sn base;
      result = refl;
      swapped = swapped;
      bytes_are =
          insert_between-content t left p s right blk off (length cs) is
          ∙ (bytes_between (content t left) (piece_bytes t p) _ _ cs (total t left) (t.len p) stored
                (length-content t left) (length_bytes t p)
              ∙ ap (λ c. inserted c (total t left + t.len p) cs)
                  (sym (content-append t left (p ∷ (s ∷ right)))));
      served = λ c.
          let (lb, lo, ll) = between_last t left p s right blk off (length cs) in
          inserted-IsServed base _ so sn t.fresh _ swapped.only_links (omega (arith, lb, last))
            (omega (arith, lo, ll, full, ap (λ i. (t.blocks i).len) lb)) (omega arith)
            (omega (arith, ll, pos)) (between-Clear t left p s right blk off (length cs) is clear);
      kept = λ h.
          let (heap, all) = pre h in
          let (lb, lo, ll) = between_last t left p s right blk off (length cs) in
          record {
            before = between-Agrees t left p s right blk off (length cs) heap;
            heaped = between-Heaped t left p s right blk off (length cs) heap b room;
            covers = λ c p' o.
                let (same, here, clear) =
                  inserted_covers base _ so sn t.fresh swapped.only_links (omega (arith, lb, last))
                    (omega (arith, lo, ll, full, ap (λ i. (t.blocks i).len) lb))
                    (between_all t left p s right blk off (length cs) all) p' o in
                (
                  omega (arith, same, between_span t left p s right blk off (length cs)),
                  omega (arith, here),
                  clear,
                );
          };
    }

-- The data in a piece.
pub insert_inside-IsEdited :
    (H : Type 0) (t : Text) (left : List ℕ) (a p s : ℕ) (right : List ℕ) (blk off at : ℕ)
    (cs : List ℕ)
    → IsText t (left ++ a ∷ (p ∷ s ∷ right))
    → at < t.len p
    → 0 < length cs
    → blk < t.nblocks
    → off + length cs ≤ (t.blocks blk).len
    → slice (t.blocks blk).bytes off (length cs) ≡ cs
    → blk + 1 ≡ t.nblocks
    → off + length cs ≡ (t.blocks blk).len
    → Every (λ q. Before blk off (t.blk q) (t.off q) (t.len q)) (left ++ a ∷ (p ∷ s ∷ right))
    → (H → Heaped t × ((q : ℕ) → q < t.fresh → Before blk off (t.blk q) (t.off q) (t.len q)))
    → IsEditedAs H t
        (insert_inside p at blk off (length cs) t)
        (left ++ a ∷ (p ∷ s ∷ right))
        (inserted (content t (left ++ a ∷ (p ∷ s ∷ right))) (total t left + t.len a + at) cs)
unfolding insert_inside content
insert_inside-IsEdited H t left a p s right blk off at cs is k pos b room stored last full clear
      pre =
    let base = with_after t left a p s right blk off (length cs) at in
    let so = removed t left a p s right blk off (length cs) at in
    let sn = added t left a p s right blk off (length cs) at in
    let swapped =
      insert_inside-IsSwapped t left a p s right blk off (length cs) at _
        (recorded-Beside (t.fresh + 1) so sn base) is k pos b room in
    record {
      base = base;
      recorded = cache_piece (t.fresh + 1) (set_spans so sn base);
      old = so;
      new = sn;
      chain = left ++ a ∷ (t.fresh ∷ (t.fresh + 1) ∷ (t.fresh + 2) ∷ s ∷ right);
      base_text = inside-IsText t left a p s right blk off (length cs) at _ is;
      base_bytes = inside_kept t left a p s right blk off (length cs) at _ is.below;
      base_notes = (refl, refl, refl, refl);
      notes = cache_piece_notes (t.fresh + 1) (set_spans so sn base);
      noted = recorded-Beside (t.fresh + 1) so sn base;
      result = refl;
      swapped = swapped;
      bytes_are =
          insert_inside-content t left a p s right blk off (length cs) at is k
          ∙ (bytes_inside (content t left) (piece_bytes t a) (piece_bytes t p) _ _ cs (total t left)
                (t.len a) at stored (length-content t left) (length_bytes t a)
                (omega (arith, k, length_bytes t p))
              ∙ ap (λ c. inserted c (total t left + t.len a + at) cs)
                  (sym (content-append t left (a ∷ (p ∷ s ∷ right)))));
      served = λ c.
          let low = (Below-split t.fresh left (a ∷ (p ∷ s ∷ right)) is.below).1.1.0 in
          let (lb, lo, ll) = inside_last t left a p s right blk off (length cs) at low in
          inserted-IsServed base _ so sn (t.fresh + 1) _ swapped.only_links
            (omega (arith, lb, last)) (omega (arith, lo, ll, full, ap (λ i. (t.blocks i).len) lb))
            (omega arith) (omega (arith, ll, pos))
            (inside-Clear t left a p s right blk off (length cs) at is k clear);
      kept = λ h.
          let (heap, all) = pre h in
          let low = (Below-split t.fresh left (a ∷ (p ∷ s ∷ right)) is.below).1.1.0 in
          let (lb, lo, ll) = inside_last t left a p s right blk off (length cs) at low in
          record {
            before = inside-Agrees t left a p s right blk off (length cs) at heap;
            heaped = inside-Heaped t left a p s right blk off (length cs) at heap low k b room;
            covers = λ c p' o.
                let (same, here, clear) =
                  inserted_covers base _ so sn (t.fresh + 1) swapped.only_links
                    (omega (arith, lb, last))
                    (omega (arith, lo, ll, full, ap (λ i. (t.blocks i).len) lb))
                    (inside_all t left a p s right blk off (length cs) at low k all) p' o in
                (
                  omega (arith, same, inside_span t left a p s right blk off (length cs) at low),
                  omega (arith, here),
                  clear,
                );
          };
    }
