-- ===== src/Vis/Deleted.antt =====
-- vis/text.c, text_delete: the four cases of its end, as swaps of the removed segment.
use suckless.Prelude.{
  ℕ, ◌+◌, ◌-◌, ◌≤◌, ◌<◌, ◌≡◌, refl, ap, ◌∙◌, List, [], ◌∷◌, ◌++◌, Option, some, arith, length,
  length-append,
}
use suckless.Vis.Links.{Held, Fwd, Out, Out-split, Distinct, Distinct-middle, last_or}
use suckless.Vis.Text.{Text, Span, span_init, span_len}
use suckless.Vis.Chain.{total, IsText, Below, AllStored}
use suckless.Vis.Swap.{chain-Held, Spans, Out-last}
use suckless.Vis.Frame.{Beside}
use suckless.Vis.Recorded.{
  IsSwapped, recorded-IsSwapped, span_len_one, span_len_more, Distinct-without, Out-without,
}

-- The span of a segment of the chain: span_init follows it from its first piece to its last.
segment_len :
    (k : ℕ) (t : Text) (y : ℕ) (l : List ℕ) (b : ℕ)
    → Fwd t.next (y ∷ l ++ b ∷ [])
    → Distinct (y ∷ l)
    → length l < k
    → span_len k t (some y) (some (last_or y l)) ≡ total t (y ∷ l)
unfolding total
segment_len k t y [] b f d h = span_len_one k t y (omega arith) ∙ omega arith
segment_len k t y (z ∷ l) b f d h =
    span_len_more k t y (last_or z l) (omega arith) (Out-last y z l d.0)
    ∙ ap (λ n. t.len y + n)
        (ap (λ q. span_len (k - 1) t q (some (last_or z l))) f.0
          ∙ segment_len (k - 1) t z l b f.1 d.1 (omega (arith, h)))

front-Distinct : (l m : List ℕ) → Distinct (l ++ m) → Distinct l
front-Distinct [] m d = tt
front-Distinct (x ∷ l) m d = ((Out-split x l m d.0).0, front-Distinct l m d.1)

pub cut-Distinct :
    (l : List ℕ) (a : ℕ) (old : List ℕ) (b : ℕ) (r : List ℕ)
    → Distinct (l ++ a ∷ (old ++ b ∷ r))
    → Distinct (l ++ a ∷ (b ∷ r))
cut-Distinct l a [] b r d = d
cut-Distinct l a (y ∷ old) b r d =
    cut-Distinct l a old b r (Distinct-without l a y (old ++ b ∷ r) d)

pub cut-Out :
    (x : ℕ) (l : List ℕ) (a : ℕ) (old : List ℕ) (b : ℕ) (r : List ℕ)
    → Out x (l ++ a ∷ (old ++ b ∷ r))
    → Out x (l ++ a ∷ (b ∷ r))
cut-Out x l a [] b r d = d
cut-Out x l a (y ∷ old) b r d = cut-Out x l a old b r (Out-without x l a y (old ++ b ∷ r) d)

pub cut_length :
    (l : List ℕ) (a : ℕ) (old : List ℕ) (b : ℕ) (r : List ℕ)
    → length (l ++ a ∷ (old ++ b ∷ r)) ≡ length (l ++ a ∷ (b ∷ r)) + length old
cut_length l a old b r = omega (
  arith,
  length-append {0} l (a ∷ (old ++ b ∷ r)),
  length-append {0} l (a ∷ (b ∷ r)),
  length-append {0} old (b ∷ r),
)

-- The swap of the segment y ∷ m between a and b, on a text u with the new pieces at hand.
pub swap_segment :
    (u v : Text) (left : List ℕ) (a y : ℕ) (m : List ℕ) (b : ℕ) (right new : List ℕ)
    (start : Option ℕ) (added : Span)
    → Beside u v
    → IsText u (left ++ a ∷ (y ∷ m ++ b ∷ right))
    → start ≡ some y
    → 0 < total u (y ∷ m)
    → Distinct (left ++ a ∷ (new ++ b ∷ right))
    → Held u.next u.prev a new b
    → Spans u added new
    → Below u.fresh new
    → AllStored u new
    → length (left ++ a ∷ (b ∷ right)) + length new ≤ u.fresh
    → IsSwapped u v (span_init u start (some (last_or y m))) added (left ++ a ∷ (new ++ b ∷ right))
unfolding span_init
swap_segment u v left a y m b right new start added beside is e h d held spans below stored count =
    let (fw, bw) = chain-Held u.next u.prev left a (y ∷ m) b right is.linked in
    let whole = Distinct-middle left a (y ∷ m ++ b ∷ right) is.distinct in
    let len =
      ap (λ s. span_len u.fresh u s (some (last_or y m))) e
      ∙ segment_len u.fresh u y m b fw (front-Distinct (y ∷ m) (b ∷ right) whole.2)
          (omega (arith, is.count, cut_length left a (y ∷ m) b right)) in
    recorded-IsSwapped u (span_init u start (some (last_or y m))) added left a (y ∷ m) new b right
      is d held (len, omega (arith, len, h), e, refl) spans (omega arith) below stored
      (omega (arith, cut_length left a new b right, count)) v beside
