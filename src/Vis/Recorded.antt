-- ===== src/Vis/Recorded.antt =====
-- vis/text.c: the swap at the end of text_insert and text_delete, after the change was recorded.
use suckless.Prelude.{
  ℕ, zero, suc, ◌+◌, ◌-◌, ◌≤◌, ◌<◌, ◌≡◌, ◌≢◌, inl, inr, refl, sym, ap, subst, ◌∙◌, true, ◌==◌, List,
  [], ◌∷◌, ◌++◌, none, some, arith, length,
}
use suckless.Vis.Links.{last_or, Held, Out, Distinct}
use suckless.Vis.Text.{Text, Span, span_swap, span_len}
use suckless.Vis.Chain.{content, IsText, Below, Below-split, AllStored}
use suckless.Vis.Swap.{apart, Spans, relinked, content-relinked, span_swap-IsText}
use suckless.Vis.Agree.{last_low}
use suckless.Vis.Relink.{Ends}
use suckless.Vis.Back.{span_swap-span_swap}
use suckless.Vis.Frame.{
  beside, Beside, over, content-beside, total-beside, AllStored_beside, IsText-beside,
}

pub Out-middle :
    (x : ℕ) (l : List ℕ) (a : ℕ) (m : List ℕ) (n : ℕ)
    → Out x (l ++ a ∷ m)
    → x ≢ n
    → Out x (l ++ a ∷ (n ∷ m))
Out-middle x [] a m n h k = (h.0, (k, h.1))
Out-middle x (y ∷ l) a m n h k = (h.0, Out-middle x l a m n h.1 k)

pub Out-without :
    (x : ℕ) (l : List ℕ) (a n : ℕ) (m : List ℕ) → Out x (l ++ a ∷ (n ∷ m)) → Out x (l ++ a ∷ m)
Out-without x [] a n m h = (h.0, h.1.1)
Out-without x (y ∷ l) a n m h = (h.0, Out-without x l a n m h.1)

-- One more element after a, and one less.
pub Distinct-add :
    (l : List ℕ) (a : ℕ) (m : List ℕ) (n : ℕ)
    → Distinct (l ++ a ∷ m)
    → Out n (l ++ a ∷ m)
    → Distinct (l ++ a ∷ (n ∷ m))
Distinct-add [] a m n d h = (((λ e. h.0 (sym e)), d.0), (h.1, d.1))
Distinct-add (y ∷ l) a m n d h =
    (Out-middle y l a m n d.0 (λ e. h.0 (sym e)), Distinct-add l a m n d.1 h.1)

pub Distinct-without :
    (l : List ℕ) (a n : ℕ) (m : List ℕ) → Distinct (l ++ a ∷ (n ∷ m)) → Distinct (l ++ a ∷ m)
Distinct-without [] a n m d = (d.0.1, d.1.1)
Distinct-without (y ∷ l) a n m d = (Out-without y l a n m d.0, Distinct-without l a n m d.1)

Spans-beside : (w t : Text) (s : Span) (m : List ℕ) → Spans t s m → Spans (beside w t) s m
Spans-beside w t s [] h = h
Spans-beside w t s (y ∷ m) (h, k, q, r) = (h ∙ sym (total-beside w t (y ∷ m)), k, q, r)

Spans-Ends : (t : Text) (s : Span) (l : List ℕ) → Below t.fresh l → Spans t s l → Ends t.fresh s
Spans-Ends t s [] b h = inl h
Spans-Ends t s (y ∷ l) b (_, _, h, k) = inr (
  record { piece = y; is = h; low = b.0 },
  record { piece = last_or y l; is = k; low = last_low t.fresh y l b.0 b.1 },
)

Spans-some :
    (t : Text) (so sn : Span) (old new : List ℕ)
    → 0 < length old + length new
    → Spans t so old
    → Spans t sn new
    → 0 < so.len + sn.len
Spans-some t so sn [] [] e xo xn = absurd (omega arith)
Spans-some t so sn [] (y ∷ l) e xo (_, k, _, _) = omega (arith, k)
Spans-some t so sn (y ∷ l) new e (_, k, _, _) xn = omega (arith, k)

-- A text with the segment new put in, its bytes, and the way back.
pub record IsSwapped (t v : Text) (so sn : Span) (chain : List ℕ) : Type 0 where
  pub text : IsText (span_swap so sn v) chain
  pub bytes : content (span_swap so sn v) chain ≡ content t chain
  pub back : (w : Text) → span_swap sn so (beside w (span_swap so sn v)) ≡ beside w v
  pub moves : (w : Text) → span_swap so sn (beside w v) ≡ beside w (span_swap so sn v)
  pub only_links :
      let u = span_swap so sn v in u ≡ record v { next = u.next; prev = u.prev; size = u.size }
  pub old_ends : Ends t.fresh so
  pub new_ends : Ends t.fresh sn
  pub some_span : 0 < so.len + sn.len

relinked_links :
    (v u : Text) (a b : ℕ) (new : List ℕ) (n : ℕ)
    → u ≡ relinked a b new n v
    → u ≡ record v { next = u.next; prev = u.prev; size = u.size }
relinked_links v u a b new n e =
    subst (λ u. u ≡ record v { next = u.next; prev = u.prev; size = u.size }) (sym e) refl

module _ (t : Text) (so sn : Span) (l : List ℕ) (a : ℕ) (old new : List ℕ) (b : ℕ) (r : List ℕ)
    (is : IsText t (l ++ a ∷ (old ++ b ∷ r))) (d : Distinct (l ++ a ∷ (new ++ b ∷ r)))
    (h : Held t.next t.prev a new b) (xo : Spans t so old) (xn : Spans t sn new)
    (e : 0 < length old + length new) (bl : Below t.fresh new) (st : AllStored t new)
    (ct : length (l ++ a ∷ (new ++ b ∷ r)) ≤ t.fresh) where
  forth :
      (w : Text)
      → let v = beside w t in
        let u = span_swap so sn v in
        IsText u (l ++ a ∷ (new ++ b ∷ r))
        × Held u.next u.prev a old b
        × (u ≡ relinked a b new (t.size - so.len + sn.len) v)
  forth w =
      span_swap-IsText (beside w t) so sn l a old new b r (IsText-beside w t _ is) d h
        (Spans-beside w t so old xo) (Spans-beside w t sn new xn) e bl (AllStored_beside w t new st)
        ct

  and_back : (w : Text) → span_swap sn so (span_swap so sn (beside w t)) ≡ beside w t
  and_back w =
      span_swap-span_swap (beside w t) so sn l a old new b r (IsText-beside w t _ is) d h
        (Spans-beside w t so old xo) (Spans-beside w t sn new xn) e bl (AllStored_beside w t new st)
        ct

  pub recorded-IsSwapped : (v : Text) → Beside t v → IsSwapped t v so sn (l ++ a ∷ (new ++ b ∷ r))
  recorded-IsSwapped v beside_t =
      over (λ v. IsSwapped t v so sn (l ++ a ∷ (new ++ b ∷ r))) t v beside_t
        (λ w.
          let (done, held, eq) = forth w in
          record {
            text = done;
            bytes =
                ap (λ u. content u (l ++ a ∷ (new ++ b ∷ r))) eq
                ∙ (content-relinked a b new _ (beside w t) _ ∙ content-beside w t _);
            back = λ w'.
                ap (λ u. span_swap sn so (beside w' u)) eq
                ∙ (ap (span_swap sn so) (sym (forth w').2) ∙ and_back w');
            moves = λ w'. (forth w').2 ∙ sym (ap (beside w') eq);
            only_links = relinked_links (beside w t) _ a b new _ eq;
            old_ends =
                Spans-Ends t so old
                  (Below-split t.fresh old (b ∷ r)
                    (Below-split t.fresh l (a ∷ (old ++ b ∷ r)) is.below).1.1).0
                  xo;
            new_ends = Spans-Ends t sn new bl xn;
            some_span = Spans-some t so sn old new e xo xn;
          })

same_self : (p : ℕ) → (p == p) ≡ true
same_self p = ground arith

-- The lengths that span_init computes.
pub span_len_one : (k : ℕ) (t : Text) (p : ℕ) → 0 < k → span_len k t (some p) (some p) ≡ t.len p
unfolding span_len
span_len_one zero t p h = absurd (omega arith)
span_len_one (suc k) t p h = rw (same_self p) (omega arith)

pub span_len_more :
    (k : ℕ) (t : Text) (p q : ℕ)
    → 0 < k
    → p ≢ q
    → span_len k t (some p) (some q) ≡ t.len p + span_len (k - 1) t (t.next p) (some q)
unfolding span_len
span_len_more zero t p q h n = absurd (omega arith)
span_len_more (suc k) t p q h n =
    rw (apart p q n) (ap (λ j. t.len p + span_len j t (t.next p) (some q)) (omega arith))

pub span_len-none : (k : ℕ) (t : Text) → span_len k t none none ≡ 0
unfolding span_len
span_len-none zero t = refl
span_len-none (suc k) t = refl
