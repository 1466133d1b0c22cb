-- ===== src/Vis/Cut.antt =====
-- vis/text.c, text_delete: what the text holds without a range of its bytes.
use suckless.Prelude.{
  ℕ, ◌+◌, ◌-◌, ◌≤◌, ◌≡◌, sym, ap, ap₂, ◌∙◌, List, [], ◌∷◌, ◌++◌, arith, length, length-append, take,
  drop,
}
use mathlib.Core.List.{append_assoc}
use suckless.Vis.Links.{last_or}
use suckless.Vis.Text.{Text}
use suckless.Vis.Chain.{content, content-append, total, piece_bytes, length-content, length-slice}
use suckless.Vis.Edited.{length_bytes, drop-append, drop_within, take-append, take_within}

-- The bytes c without the n at position pos.
abbrev pub deleted : List ℕ → ℕ → ℕ → List ℕ
deleted c pos n = take pos c ++ drop (pos + n) c

last_within : (t : Text) (y : ℕ) (l : List ℕ) → t.len (last_or y l) ≤ total t (y ∷ l)
unfolding total
last_within t y [] = omega arith
last_within t y (z ∷ l) = omega (arith, last_within t z l)

-- A segment that ends within its last piece: what is behind the first k bytes.
pub drop-content :
    (t : Text) (y : ℕ) (l r : List ℕ) (k : ℕ)
    → k ≤ total t (y ∷ l)
    → total t (y ∷ l) ≤ k + t.len (last_or y l)
    → drop k (content t (y ∷ l ++ r))
      ≡ drop (t.len (last_or y l) - (total t (y ∷ l) - k)) (piece_bytes t (last_or y l))
        ++ content t r
unfolding content total
drop-content t y [] r k h i =
    drop_within (piece_bytes t y) (content t r) k
      (omega (arith, h, length-slice (t.blocks (t.blk y)).bytes (t.off y) (t.len y)))
    ∙ ap (λ n. drop n (piece_bytes t y) ++ content t r) (omega (arith, h, i))
drop-content t y (z ∷ l) r k h i =
    ap (λ n. drop n (piece_bytes t y ++ content t (z ∷ l ++ r)))
      {y = length (piece_bytes t y) + (k - t.len y)}
      (omega (arith, i, last_within t z l, length_bytes t y))
    ∙ (drop-append (piece_bytes t y) (content t (z ∷ l ++ r)) (k - t.len y)
        ∙ (drop-content t z l r (k - t.len y) (omega (arith, h))
              (omega (arith, i, last_within t z l))
            ∙ ap (λ n. drop n (piece_bytes t (last_or z l)) ++ content t r)
                (omega (arith, h, i, last_within t z l))))

-- A range that starts o bytes into the segment behind a and ends in its last piece.
pub deleted_bytes :
    (t : Text) (left : List ℕ) (a y : ℕ) (m : List ℕ) (b : ℕ) (right : List ℕ) (o n : ℕ)
    → o ≤ t.len y
    → o + n ≤ total t (y ∷ m)
    → total t (y ∷ m) ≤ o + n + t.len (last_or y m)
    → deleted (content t (left ++ a ∷ (y ∷ m ++ b ∷ right))) (total t left + t.len a + o) n
      ≡ content t left
        ++ (piece_bytes t a
            ++ (take o (piece_bytes t y)
                ++ (drop
                      (t.len (last_or y m) - (total t (y ∷ m) - (o + n)))
                      (piece_bytes t (last_or y m))
                    ++ content t (b ∷ right))))
unfolding content
deleted_bytes t left a y m b right o n h i j =
    ap (λ c. deleted c (total t left + t.len a + o) n) parts
    ∙ (ap₂ (◌++◌) taken dropped
        ∙ (append_assoc (content t left ++ piece_bytes t a) (take o (piece_bytes t y)) _
            ∙ append_assoc (content t left) (piece_bytes t a) _))
  where
    before : List ℕ
    before = content t left ++ piece_bytes t a

    behind : List ℕ
    behind = content t (y ∷ m ++ b ∷ right)

    length_before : length before ≡ total t left + t.len a
    length_before = omega (
      arith,
      length-append {0} (content t left) (piece_bytes t a),
      length-content t left,
      length_bytes t a,
    )

    parts : content t (left ++ a ∷ (y ∷ m ++ b ∷ right)) ≡ before ++ behind
    parts = content-append t left _ ∙ sym (append_assoc (content t left) (piece_bytes t a) behind)

    taken :
        take (total t left + t.len a + o) (before ++ behind) ≡ before ++ take o (piece_bytes t y)
    taken =
        ap (λ k. take k (before ++ behind)) {y = length before + o} (omega (arith, length_before))
        ∙ (take-append before behind o
            ∙ ap (λ x. before ++ x)
                (take_within (piece_bytes t y) (content t (m ++ b ∷ right)) o
                  (omega (arith, h, length_bytes t y))))

    dropped :
        drop (total t left + t.len a + o + n) (before ++ behind)
        ≡ drop (t.len (last_or y m) - (total t (y ∷ m) - (o + n))) (piece_bytes t (last_or y m))
          ++ content t (b ∷ right)
    dropped =
        ap (λ k. drop k (before ++ behind)) {y = length before + (o + n)}
          (omega (arith, length_before))
        ∙ (drop-append before behind (o + n) ∙ drop-content t y m (b ∷ right) (o + n) i j)
