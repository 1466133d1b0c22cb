-- ===== src/Vis/Swap.antt =====
-- vis/text.c, span_swap: on a chain of pieces it puts one segment in the place of another.
use suckless.Prelude.{
  ℕ, ◌+◌, ◌-◌, ◌≤◌, ◌<◌, ◌≡◌, ◌≢◌, refl, sym, subst, ◌∙◌, false, ◌==◌, List, [], ◌∷◌, ◌++◌, Option,
  some, arith, length, put_at,
}
use suckless.Vis.Links.{
  Linked, Held, Fwd, Bwd, Distinct, Out, head_or, last_or, swap_links, Distinct-middle, Out-split,
  Fwd-split, Bwd-split, Fwd-tail, Bwd-init,
}
use suckless.Vis.Text.{Text, Span, span_swap, begin, ending}
use suckless.Vis.Chain.{
  content_pointwise, total_pointwise, AllStored_pointwise, total, IsText, Below, AllStored, content,
  total-append, append_head, append_last, Below-split, Below-append, AllStored_split,
  AllStored-append,
}

-- The span runs over the pieces m.
abbrev pub Spans : Text → Span → List ℕ → Type 0
Spans t s [] = s.len ≡ 0
Spans t s (y ∷ l) =
    (s.len ≡ total t (y ∷ l)) × (0 < s.len) × (s.start ≡ some y) × (s.end ≡ some (last_or y l))

-- The text after the swap of old for new between a and b.
abbrev pub relinked : ℕ → ℕ → List ℕ → ℕ → Text → Text
relinked a b new size t = record t {
  next = put_at t.next a (some (head_or new b));
  prev = put_at t.prev b (some (last_or a new));
  size = size;
}

pub Fwd-last :
    (g : ℕ → Option ℕ) (y : ℕ) (l : List ℕ) (b : ℕ)
    → Fwd g (y ∷ (l ++ b ∷ []))
    → g (last_or y l) ≡ some b
Fwd-last g y [] b h = h.0
Fwd-last g y (z ∷ l) b h = Fwd-last g z l b h.1

pub Out-last : (a y : ℕ) (l : List ℕ) → Out a (y ∷ l) → a ≢ last_or y l
Out-last a y [] h = h.0
Out-last a y (z ∷ l) h = Out-last a z l h.1

pos_zero : (n : ℕ) → 0 < n → (n == 0) ≡ false
pos_zero n h = ground arith

pub apart : (a x : ℕ) → a ≢ x → (a == x) ≡ false
apart a x h = ground arith

-- The three cases of span_swap that change something.
swap_insert :
    (t : Text) (old new : Span) (a y b : ℕ) (l : List ℕ)
    → old.len ≡ 0
    → 0 < new.len
    → new.start ≡ some y
    → new.end ≡ some (last_or y l)
    → t.prev y ≡ some a
    → t.next (last_or y l) ≡ some b
    → a ≢ last_or y l
    → span_swap old new t ≡ relinked a b (y ∷ l) (t.size - old.len + new.len) t
unfolding span_swap
swap_insert t old new a y b l ho hn hs he hp hx hd =
    simp (ho, hs, he, hp, hx, pos_zero new.len hn, apart a (last_or y l) hd) refl

swap_delete :
    (t : Text) (old new : Span) (a y b : ℕ) (l : List ℕ)
    → new.len ≡ 0
    → 0 < old.len
    → old.start ≡ some y
    → old.end ≡ some (last_or y l)
    → t.prev y ≡ some a
    → t.next (last_or y l) ≡ some b
    → a ≢ last_or y l
    → span_swap old new t ≡ relinked a b [] (t.size - old.len + new.len) t
unfolding span_swap
swap_delete t old new a y b l hn ho hs he hp hx hd =
    simp (hn, hs, he, hp, hx, pos_zero old.len ho, apart a (last_or y l) hd) refl

swap_replace :
    (t : Text) (old new : Span) (a y b z : ℕ) (l m : List ℕ)
    → 0 < old.len
    → 0 < new.len
    → old.start ≡ some y
    → old.end ≡ some (last_or y l)
    → new.start ≡ some z
    → new.end ≡ some (last_or z m)
    → t.prev y ≡ some a
    → t.next (last_or y l) ≡ some b
    → a ≢ last_or y l
    → span_swap old new t ≡ relinked a b (z ∷ m) (t.size - old.len + new.len) t
unfolding span_swap
swap_replace t old new a y b z l m ho hn hs he hs' he' hp hx hd =
    simp
      (pos_zero old.len ho, pos_zero new.len hn, hs, he, hs', he', hp, hx, apart a (last_or y l) hd)
      refl

segment_start : (pv : ℕ → Option ℕ) (a y : ℕ) (l : List ℕ) → Bwd pv (a ∷ y ∷ l) → pv y ≡ some a
segment_start pv a y l h = h.0

-- The segment between a and b of a chain points to them.
pub chain-Held :
    (nx pv : ℕ → Option ℕ) (l : List ℕ) (a : ℕ) (m : List ℕ) (b : ℕ) (r : List ℕ)
    → Linked nx pv (l ++ a ∷ (m ++ b ∷ r))
    → Held nx pv a m b
chain-Held nx pv l a m b r (fw, bw) =
    let (f1, f2) = Fwd-split nx l a (m ++ b ∷ r) fw in
    let (f3, f4) = Fwd-split nx m b r (Fwd-tail nx a (m ++ b ∷ r) f2) in
    let (b1, b2) = Bwd-split pv l a (m ++ b ∷ r) bw in
    let (b3, b4) = Bwd-split pv (a ∷ m) b r b2 in (f3, Bwd-init pv (a ∷ m) b b3)

-- What span_swap does between a and b, at any two segments that are not both empty.
pub span_swap-eq-relinked :
    (t : Text) (so sn : Span) (a : ℕ) (old new : List ℕ) (b : ℕ)
    → Spans t so old
    → Spans t sn new
    → Held t.next t.prev a old b
    → Held t.next t.prev a new b
    → Out a old
    → Out a new
    → 0 < length old + length new
    → span_swap so sn t ≡ relinked a b new (t.size - so.len + sn.len) t
span_swap-eq-relinked t so sn a [] [] b xo xn ho hn ao an e = absurd (omega arith)
span_swap-eq-relinked t so sn a [] (y ∷ l) b xo (_, ln, sy, ey) ho (fw, bw) ao an e =
    swap_insert t so sn a y b l xo ln sy ey bw.0 (Fwd-last t.next y l b fw) (Out-last a y l an)
span_swap-eq-relinked t so sn a (y ∷ l) [] b (_, ln, sy, ey) xn (fw, bw) hn ao an e =
    swap_delete t so sn a y b l xn ln sy ey bw.0 (Fwd-last t.next y l b fw) (Out-last a y l ao)
span_swap-eq-relinked t so sn a (y ∷ l) (z ∷ m) b (_, lo, sy, ey) (_, ln, sz, ez) (fw, bw) hn ao an
      e =
    swap_replace t so sn a y b z l m lo ln sy ey sz ez bw.0 (Fwd-last t.next y l b fw)
      (Out-last a y l ao)

pub Spans-len : (t : Text) (s : Span) (m : List ℕ) → Spans t s m → s.len ≡ total t m
unfolding total
Spans-len t s [] h = h
Spans-len t s (y ∷ l) h = h.0

pub total-relinked :
    (a b : ℕ) (new : List ℕ) (n : ℕ) (t : Text) (l : List ℕ)
    → total (relinked a b new n t) l ≡ total t l
total-relinked a b new n t l = total_pointwise t (relinked a b new n t) l (λ p. refl)

pub content-relinked :
    (a b : ℕ) (new : List ℕ) (n : ℕ) (t : Text) (l : List ℕ)
    → content (relinked a b new n t) l ≡ content t l
content-relinked a b new n t l = content_pointwise t (relinked a b new n t) l (λ p. refl)

AllStored_relinked :
    (a b : ℕ) (new : List ℕ) (n : ℕ) (t : Text) (l : List ℕ)
    → AllStored t l
    → AllStored (relinked a b new n t) l
AllStored_relinked a b new n t l s = AllStored_pointwise t (relinked a b new n t) l (λ p h. h) s

last_piece :
    (l : List ℕ) (a : ℕ) (m : List ℕ) (b : ℕ) (r : List ℕ)
    → last_or begin (l ++ a ∷ (m ++ b ∷ r)) ≡ last_or b r
last_piece l a m b r = append_last l begin a (m ++ b ∷ r) ∙ append_last m a b r

-- The pieces of the chain with new in the place of old.
module _ (t : Text) (l : List ℕ) (a : ℕ) (old new : List ℕ) (b : ℕ) (r : List ℕ) where
  relinked_size :
      (n k : ℕ)
      → t.size ≡ total t (l ++ a ∷ (old ++ b ∷ r))
      → n ≡ total t old
      → k ≡ total t new
      → t.size - n + k ≡ total t (l ++ a ∷ (new ++ b ∷ r))
  unfolding total
  relinked_size n k e f g = omega (
    arith,
    total-append t l (a ∷ (old ++ b ∷ r)),
    total-append t l (a ∷ (new ++ b ∷ r)),
    total-append t old (b ∷ r),
    total-append t new (b ∷ r),
  )

  relinked-Below :
      (n : ℕ) → Below n (l ++ a ∷ (old ++ b ∷ r)) → Below n new → Below n (l ++ a ∷ (new ++ b ∷ r))
  relinked-Below n h k =
      let (hl, (ha, hr)) = Below-split n l (a ∷ (old ++ b ∷ r)) h in
      let (ho, hb) = Below-split n old (b ∷ r) hr in
      Below-append n l (a ∷ (new ++ b ∷ r)) hl (ha, Below-append n new (b ∷ r) k hb)

  relinked_stored :
      AllStored t (l ++ a ∷ (old ++ b ∷ r))
      → AllStored t new
      → AllStored t (l ++ a ∷ (new ++ b ∷ r))
  relinked_stored h k =
      let (hl, (ha, hr)) = AllStored_split t l (a ∷ (old ++ b ∷ r)) h in
      let (ho, hb) = AllStored_split t old (b ∷ r) hr in
      AllStored-append t l (a ∷ (new ++ b ∷ r)) hl (ha, AllStored-append t new (b ∷ r) k hb)

  relinked-IsText :
      (n k : ℕ)
      → IsText t (l ++ a ∷ (old ++ b ∷ r))
      → Distinct (l ++ a ∷ (new ++ b ∷ r))
      → Held t.next t.prev a new b
      → n ≡ total t old
      → k ≡ total t new
      → Below t.fresh new
      → AllStored t new
      → length (l ++ a ∷ (new ++ b ∷ r)) ≤ t.fresh
      → IsText (relinked a b new (t.size - n + k) t) (l ++ a ∷ (new ++ b ∷ r))
        × Held
            (relinked a b new (t.size - n + k) t).next
            (relinked a b new (t.size - n + k) t).prev
            a
            old
            b
  relinked-IsText n k v d h e f bl st ct =
      let (linked, held) = swap_links t.next t.prev l a old new b r v.linked v.distinct h an bn in
      (
        record {
          linked = linked;
          distinct = d;
          first = append_head l a ending (new ++ b ∷ r) (old ++ b ∷ r) ∙ v.first;
          final = last_piece l a new b r ∙ (sym (last_piece l a old b r) ∙ v.final);
          closed = rw (apart a ending not_last) v.closed;
          begin_len = v.begin_len;
          ending_len = v.ending_len;
          below = relinked-Below t.fresh v.below bl;
          count = ct;
          stored = AllStored_relinked a b new (t.size - n + k) t _ (relinked_stored v.stored st);
          sized = relinked_size n k v.sized e f ∙ sym (total-relinked a b new (t.size - n + k) t _);
        },
        held,
      )
    where
      an : Out a new
      an = (Out-split a new (b ∷ r) (Distinct-middle l a (new ++ b ∷ r) d).1).0

      bn : Out b new
      bn = (Distinct-middle new b r (Distinct-middle l a (new ++ b ∷ r) d).2).0

      not_last : a ≢ ending
      not_last = λ e.
          Out-last a b r
            (Out-split a old (b ∷ r) (Distinct-middle l a (old ++ b ∷ r) v.distinct).1).1
            (e ∙ (sym v.final ∙ last_piece l a old b r))

-- On a well-formed text, the swap of the segment old between a and b for a segment new of stored
-- pieces that points to a and b, where not both are empty, gives a well-formed text with new in the
-- place of old. It writes two links and the size, and old still points to a and b.
pub span_swap-IsText :
    (t : Text) (so sn : Span) (l : List ℕ) (a : ℕ) (old new : List ℕ) (b : ℕ) (r : List ℕ)
    → IsText t (l ++ a ∷ (old ++ b ∷ r))
    → Distinct (l ++ a ∷ (new ++ b ∷ r))
    → Held t.next t.prev a new b
    → Spans t so old
    → Spans t sn new
    → 0 < length old + length new
    → Below t.fresh new
    → AllStored t new
    → length (l ++ a ∷ (new ++ b ∷ r)) ≤ t.fresh
    → let u = span_swap so sn t in
      IsText u (l ++ a ∷ (new ++ b ∷ r))
      × Held u.next u.prev a old b
      × (u ≡ relinked a b new (t.size - so.len + sn.len) t)
span_swap-IsText t so sn l a old new b r v d h xo xn some_piece bl st ct =
    let (text, kept) =
      relinked-IsText t l a old new b r so.len sn.len v d h (Spans-len t so old xo)
        (Spans-len t sn new xn) bl st ct in
    subst
      (λ u.
        IsText u (l ++ a ∷ (new ++ b ∷ r))
        × Held u.next u.prev a old b
        × (u ≡ relinked a b new (t.size - so.len + sn.len) t))
      (sym swapped) (text, kept, refl)
  where
    swapped : span_swap so sn t ≡ relinked a b new (t.size - so.len + sn.len) t
    swapped =
        span_swap-eq-relinked t so sn a old new b xo xn
          (chain-Held t.next t.prev l a old b r v.linked) h
          (Out-split a old (b ∷ r) (Distinct-middle l a (old ++ b ∷ r) v.distinct).1).0
          (Out-split a new (b ∷ r) (Distinct-middle l a (new ++ b ∷ r) d).1).0 some_piece
