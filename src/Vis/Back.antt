-- ===== src/Vis/Back.antt =====
-- vis/text.c: the span_swap that undoes a span_swap.
use suckless.Prelude.{
  ℕ, ◌+◌, ◌-◌, ◌≤◌, ◌<◌, ◌≡◌, sym, subst, ap, fun_ext, ◌∙◌, List, [], ◌∷◌, ◌++◌, Option, some,
  arith, length, put_at,
}
use suckless.Vis.Links.{
  Held, Fwd, Bwd, Distinct, head_or, last_or, Fwd-split, Bwd-split, Distinct-middle, Out-split,
}
use suckless.Vis.Text.{Text, Span, span_swap}
use suckless.Vis.Chain.{total, total-append, IsText, Below, AllStored}
use suckless.Vis.Swap.{
  Spans, Spans-len, relinked, total-relinked, span_swap-IsText, span_swap-eq-relinked, chain-Held,
}

put_at_again : (g : ℕ → Option ℕ) (a : ℕ) (v w : Option ℕ) → g a ≡ w → put_at (put_at g a v) a w ≡ g
put_at_again g a v w h = fun_ext (λ i. ground (arith, h))

pub next_of :
    (nx : ℕ → Option ℕ) (l : List ℕ) (a : ℕ) (m : List ℕ) (b : ℕ) (r : List ℕ)
    → Fwd nx (l ++ a ∷ (m ++ b ∷ r))
    → nx a ≡ some (head_or m b)
next_of nx l a [] b r h = (Fwd-split nx l a (b ∷ r) h).1.0
next_of nx l a (y ∷ m) b r h = (Fwd-split nx l a (y ∷ m ++ b ∷ r) h).1.0

prev_after :
    (pv : ℕ → Option ℕ) (a : ℕ) (m : List ℕ) (b : ℕ) (r : List ℕ)
    → Bwd pv (a ∷ m ++ b ∷ r)
    → pv b ≡ some (last_or a m)
prev_after pv a [] b r h = h.0
prev_after pv a (y ∷ m) b r h = prev_after pv y m b r h.1

pub prev_of :
    (pv : ℕ → Option ℕ) (l : List ℕ) (a : ℕ) (m : List ℕ) (b : ℕ) (r : List ℕ)
    → Bwd pv (l ++ a ∷ (m ++ b ∷ r))
    → pv b ≡ some (last_or a m)
prev_of pv l a m b r h = prev_after pv a m b r (Bwd-split pv l a (m ++ b ∷ r) h).1

Spans-relinked :
    (a b : ℕ) (new : List ℕ) (n : ℕ) (t : Text) (s : Span) (m : List ℕ)
    → Spans t s m
    → Spans (relinked a b new n t) s m
Spans-relinked a b new n t s [] h = h
Spans-relinked a b new n t s (y ∷ m) (h, k, q, r) =
    (h ∙ sym (total-relinked a b new n t (y ∷ m)), k, q, r)

relinked_back :
    (t : Text) (a b : ℕ) (old new : List ℕ) (n k : ℕ)
    → t.next a ≡ some (head_or old b)
    → t.prev b ≡ some (last_or a old)
    → k ≡ t.size
    → relinked a b old k (relinked a b new n t) ≡ t
relinked_back t a b old new n k h h' e = λ i. record t {
  next = put_at_again t.next a (some (head_or new b)) (some (head_or old b)) h i;
  prev = put_at_again t.prev b (some (last_or a new)) (some (last_or a old)) h' i;
  size = e i;
}

size_back :
    (t : Text) (l : List ℕ) (a : ℕ) (old : List ℕ) (b : ℕ) (r : List ℕ) (n k : ℕ)
    → t.size ≡ total t (l ++ a ∷ (old ++ b ∷ r))
    → n ≡ total t old
    → t.size - n + k - k + n ≡ t.size
unfolding total
size_back t l a old b r n k e f =
    omega (arith, total-append t l (a ∷ (old ++ b ∷ r)), total-append t old (b ∷ r))

-- On a well-formed text, where the segment old between a and b is swapped for a segment new of
-- stored pieces that points to a and b, not both empty, the swap of new for old gives the text
-- there was before, every member of it.
pub span_swap-span_swap :
    (t : Text) (so sn : Span) (l : List ℕ) (a : ℕ) (old new : List ℕ) (b : ℕ) (r : List ℕ)
    → IsText t (l ++ a ∷ (old ++ b ∷ r))
    → Distinct (l ++ a ∷ (new ++ b ∷ r))
    → Held t.next t.prev a new b
    → Spans t so old
    → Spans t sn new
    → 0 < length old + length new
    → Below t.fresh new
    → AllStored t new
    → length (l ++ a ∷ (new ++ b ∷ r)) ≤ t.fresh
    → span_swap sn so (span_swap so sn t) ≡ t
span_swap-span_swap t so sn l a old new b r v d h xo xn e bl st ct =
    let (w, held, eq) = span_swap-IsText t so sn l a old new b r v d h xo xn e bl st ct in
    let n = t.size - so.len + sn.len in
    let u = relinked a b new n t in
    ap (span_swap sn so) eq
    ∙ (span_swap-eq-relinked u sn so a new old b (Spans-relinked a b new n t sn new xn)
          (Spans-relinked a b new n t so old xo)
          (subst (λ v. Held v.next v.prev a new b) eq (chain-Held _ _ l a new b r w.linked))
          (subst (λ v. Held v.next v.prev a old b) eq held)
          (Out-split a new (b ∷ r) (Distinct-middle l a (new ++ b ∷ r) d).1).0
          (Out-split a old (b ∷ r) (Distinct-middle l a (old ++ b ∷ r) v.distinct).1).0
          (omega (arith, e))
        ∙ relinked_back t a b old new n (n - sn.len + so.len)
            (next_of t.next l a old b r v.linked.0) (prev_of t.prev l a old b r v.linked.1)
            (size_back t l a old b r so.len sn.len v.sized (Spans-len t so old xo)))
