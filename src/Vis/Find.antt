-- ===== src/Vis/Find.antt =====
-- vis/text.c, piece_get_intern: the piece that holds a byte position of a text.
use suckless.Prelude.{
  ℕ, zero, suc, ◌+◌, ◌-◌, ◌≤◌, ◌<◌, ◌≡◌, ◌≢◌, ◌⊎◌, inl, inr, refl, sym, ap, subst, ◌∙◌, ◌&&◌, leb,
  if◌then◌else◌, List, [], ◌∷◌, ◌++◌, Option, some, arith, length,
}
use suckless.Vis.Links.{Fwd, last_or}
use suckless.Vis.Text.{Text, begin, ending}
use suckless.Vis.Edit.{find_from, piece_get_intern}
use suckless.Vis.Chain.{total, IsText}

-- What the search gives for the byte position pos of the chain l that starts at position cur: a
-- piece before the last one, and the offset in it. The offset is 0 in the first piece alone.
pub record IsPlace (t : Text) (l : List ℕ) (cur pos : ℕ) (found : Option (ℕ × ℕ)) : Type 0 where
  pub piece : ℕ
  pub at : ℕ
  pub left : List ℕ
  pub succ : ℕ
  pub right : List ℕ
  pub result : found ≡ some (piece, at)
  pub splits : l ≡ left ++ piece ∷ (succ ∷ right)
  pub position : pos ≡ cur + total t left + at
  pub within : at ≤ t.len piece
  pub inner : cur < pos → 0 < at
  pub start : pos ≡ cur → left ≡ []

within_or_beyond : (m n : ℕ) → (m ≤ n) ⊎ (n < m)
within_or_beyond m n = ground arith

module _ (t : Text) (pos : ℕ) where
  one_step :
      (k p q cur : ℕ)
      → t.next p ≡ some q
      → find_from (suc k) t pos p cur ≡ (
          if leb cur pos && leb pos (cur + t.len p)
          then some (p, pos - cur)
          else find_from k t pos q (cur + t.len p))
  unfolding find_from
  one_step k p q cur h = rw (h, find_from) refl

  here :
      (k p q cur : ℕ)
      → t.next p ≡ some q
      → cur ≤ pos
      → pos ≤ cur + t.len p
      → find_from (suc k) t pos p cur ≡ some (p, pos - cur)
  here k p q cur h c d = one_step k p q cur h ∙ ground (arith, c, d)

  beyond :
      (k p q cur : ℕ)
      → t.next p ≡ some q
      → cur + t.len p < pos
      → find_from (suc k) t pos p cur ≡ find_from k t pos q (cur + t.len p)
  beyond k p q cur h c = one_step k p q cur h ∙ ground (arith, c)

  find_from-IsPlace :
      (k p cur : ℕ) (l : List ℕ)
      → Fwd t.next (p ∷ l)
      → last_or p l ≡ ending
      → t.len ending ≡ 0
      → length l < k
      → cur < pos
      → pos ≤ cur + total t (p ∷ l)
      → IsPlace t (p ∷ l) cur pos (find_from k t pos p cur)
  unfolding total
  find_from-IsPlace k p cur [] f e z lk c d = absurd (omega (arith, ap t.len e, z, c, d))
  find_from-IsPlace zero p cur (q ∷ l) f e z lk c d = absurd (omega arith)
  find_from-IsPlace (suc k) p cur (q ∷ l) f e z lk c d =
      elim (within_or_beyond pos (cur + t.len p)) [
        | inl h ↦ record {
          piece = p;
          at = pos - cur;
          left = [];
          succ = q;
          right = l;
          result = here k p q cur f.0 (omega arith) h;
          splits = refl;
          position = omega arith;
          within = omega arith;
          inner = λ h. omega arith;
          start = λ h. refl;
        }
        | inr h ↦
            let rest =
              find_from-IsPlace k q (cur + t.len p) l f.1 e z (omega arith) h (omega arith) in
            record {
              piece = rest.piece;
              at = rest.at;
              left = p ∷ rest.left;
              succ = rest.succ;
              right = rest.right;
              result = beyond k p q cur f.0 h ∙ rest.result;
              splits = ap (λ m. p ∷ m) rest.splits;
              position = omega (arith, rest.position);
              within = rest.within;
              inner = λ i. rest.inner h;
              start = λ i. absurd (omega (arith, i));
            }
      ]

begin_place : (t : Text) (k p q : ℕ) → 0 < k → t.next p ≡ some q → find_from k t 0 p 0 ≡ some (p, 0)
begin_place t zero p q h e = absurd (omega arith)
begin_place t (suc k) p q h e = here t 0 k p q 0 e (omega arith) (omega arith)

pub not_both : begin ≢ ending
not_both = λ e. omega (arith, e)

-- On a well-formed text, piece_get_intern finds every position up to the text's size: in a piece
-- before the last one, at an offset within the piece that accounts for the pieces before it, and at
-- offset 0 only at position 0.
pub piece_get_intern-IsPlace :
    (t : Text) (l : List ℕ) (pos : ℕ)
    → IsText t l
    → pos ≤ t.size
    → IsPlace t l 0 pos (piece_get_intern t pos)
unfolding piece_get_intern total
piece_get_intern-IsPlace t [] pos v h = absurd (not_both v.final)
piece_get_intern-IsPlace t (p ∷ []) pos v h = absurd (not_both (sym v.first ∙ v.final))
piece_get_intern-IsPlace t (p ∷ q ∷ l) zero v h = record {
  piece = p;
  at = 0;
  left = [];
  succ = q;
  right = l;
  result =
      subst (λ b. find_from t.fresh t 0 b 0 ≡ some (p, 0)) v.first
        (begin_place t t.fresh p q (omega (arith, v.count)) v.linked.0.0);
  splits = refl;
  position = refl;
  within = omega arith;
  inner = λ h. omega (arith, h);
  start = λ e. refl;
}
piece_get_intern-IsPlace t (p ∷ q ∷ l) (suc pos) v h =
    subst (λ b. IsPlace t (p ∷ q ∷ l) 0 (suc pos) (find_from t.fresh t (suc pos) b 0)) v.first
      (find_from-IsPlace t (suc pos) t.fresh p 0 (q ∷ l) v.linked.0 v.final v.ending_len
        (omega (arith, v.count)) (omega arith) (omega (arith, v.sized, h)))
