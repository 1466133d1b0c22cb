-- ===== src/Vis/Relink.antt =====
-- vis/text.c, span_swap: what it writes, and the same swap in two texts that agree.
use suckless.Prelude.{
  ℕ, ◌+◌, ◌-◌, ◌<◌, ◌≡◌, ◌≢◌, ◌⊎◌, inl, inr, refl, sym, ap, subst, ◌∙◌, false, Bool-cases, ◌==◌,
  Option, none, some, arith, put_at,
}
use suckless.Vis.Text.{Text, Span, span_swap, set_next, set_prev, follow}
use suckless.Vis.Store.{same_or_apart}
use suckless.Vis.Frame.{put_at_here, put_at_apart}
use suckless.Vis.Agree.{Heaped, SameData, LinksTo}

-- What a swap writes.
abbrev pub Relinked : Text → Text → Type 0
Relinked t u = u ≡ record t { next = u.next; prev = u.prev; size = u.size; fault = u.fault }

set_next-Relinked : (p q : Option ℕ) (t : Text) → Relinked t (set_next p q t)
set_next-Relinked none q t = refl
set_next-Relinked (some p) q t = refl

set_prev-Relinked : (p q : Option ℕ) (t : Text) → Relinked t (set_prev p q t)
set_prev-Relinked none q t = refl
set_prev-Relinked (some p) q t = refl

pub Relinked-trans : (t u v : Text) → Relinked t u → Relinked u v → Relinked t v
Relinked-trans t u v a b =
    b
    ∙ ap
        (λ (w : Text).
          let r : Text = record w {
            next = v.next;
            prev = v.prev;
            size = v.size;
            fault = v.fault;
          } in
          r)
        a

writes-Relinked :
    (p q : Option ℕ) (f g : Text → Option ℕ) (n : ℕ) (t : Text)
    → let t1 = set_next p q t in
      let t2 : Text = set_prev (f t1) (g t1) t1 in Relinked t (record t2 { size = n })
writes-Relinked p q f g n t =
    let t1 = set_next p q t in
    let t2 = set_prev (f t1) (g t1) t1 in
    let e = Relinked-trans t t1 t2 (set_next-Relinked p q t) (set_prev-Relinked (f t1) (g t1) t1) in
    ap (λ (w : Text). let r : Text = record w { size = n } in r) e

pub span_swap-Relinked : (old new : Span) (t : Text) → Relinked t (span_swap old new t)
unfolding span_swap
span_swap-Relinked old new t = elim (Bool-cases (old.len == 0)) [
  | inl o ↦ elim (Bool-cases (new.len == 0)) [
    | inl n ↦ rw (o, n) refl
    | inr n ↦
        rw (o, n)
          (writes-Relinked (follow t.prev new.start) new.start (λ u. follow u.next new.end)
            (λ u. new.end) (t.size - old.len + new.len) t)
  ]
  | inr o ↦ elim (Bool-cases (new.len == 0)) [
    | inl n ↦
        rw (o, n)
          (writes-Relinked (follow t.prev old.start) (follow t.next old.end)
            (λ u. follow u.next old.end) (λ u. follow u.prev old.start) (t.size - old.len + new.len)
            t)
    | inr n ↦
        rw (o, n)
          (writes-Relinked (follow t.prev old.start) new.start (λ u. follow u.next old.end)
            (λ u. new.end) (t.size - old.len + new.len) t)
  ]
]

-- A swap leaves the bytes of the pieces.
pub span_swap-SameData :
    (old new : Span) (t u : Text) → SameData t u → SameData t (span_swap old new u)
span_swap-SameData old new t u h = subst (SameData t) (sym (span_swap-Relinked old new u)) h

pub span_swap-Heaped : (old new : Span) (t : Text) → Heaped t → Heaped (span_swap old new t)
span_swap-Heaped old new t h = subst Heaped (sym (span_swap-Relinked old new t)) h

pub span_swap-fresh : (old new : Span) (t : Text) → (span_swap old new t).fresh ≡ t.fresh
span_swap-fresh old new t = ap (λ u. u.fresh) (span_swap-Relinked old new t)

-- A piece below n.
pub record Low (n : ℕ) (p : Option ℕ) : Type 0 where
  pub piece : ℕ
  pub is : p ≡ some piece
  pub low : piece < n

-- The ends of a span that is not empty are pieces below n.
abbrev pub Ends : ℕ → Span → Type 0
Ends n s = (s.len ≡ 0) ⊎ (Low n s.start × Low n s.end)

write_links :
    (f g : ℕ → Option ℕ) (a q n : ℕ) (v : Option ℕ)
    → q < n
    → ((q : ℕ) → q < n → f q ≡ g q)
    → put_at f a v q ≡ put_at g a v q
write_links f g a q n v k h = elim (same_or_apart q a) [
  | inl e ↦
      subst (λ q. put_at f a v q ≡ put_at g a v q) (sym e)
        (put_at_here f a v ∙ sym (put_at_here g a v))
  | inr e ↦
      let far : a ≢ q = λ i. e (sym i) in
      put_at_apart f a q v far ∙ (h q k ∙ sym (put_at_apart g a q v far))
]

set_next-SameLinks :
    (p p' v v' : Option ℕ) (t u : Text) (n : ℕ)
    → p' ≡ p
    → v' ≡ v
    → LinksTo n t u
    → LinksTo n (set_next p v t) (set_next p' v' u)
set_next-SameLinks p p' v v' t u n e f h =
    subst (λ x. LinksTo n (set_next p v t) (set_next x v' u)) (sym e)
      (subst (λ x. LinksTo n (set_next p v t) (set_next p x u)) (sym f) (at p))
  where
    at : (p : Option ℕ) → LinksTo n (set_next p v t) (set_next p v u)
    at none = h
    at (some a) = λ q k. (write_links u.next t.next a q n v k (λ q k. (h q k).0), (h q k).1)

set_prev-SameLinks :
    (p p' v v' : Option ℕ) (t u : Text) (n : ℕ)
    → p' ≡ p
    → v' ≡ v
    → LinksTo n t u
    → LinksTo n (set_prev p v t) (set_prev p' v' u)
set_prev-SameLinks p p' v v' t u n e f h =
    subst (λ x. LinksTo n (set_prev p v t) (set_prev x v' u)) (sym e)
      (subst (λ x. LinksTo n (set_prev p v t) (set_prev p x u)) (sym f) (at p))
  where
    at : (p : Option ℕ) → LinksTo n (set_prev p v t) (set_prev p v u)
    at none = h
    at (some a) = λ q k. ((h q k).0, write_links u.prev t.prev a q n v k (λ q k. (h q k).1))

follow-Low :
    (n : ℕ) (t u : Text) (x : Option ℕ)
    → LinksTo n t u
    → Low n x
    → (follow u.next x ≡ follow t.next x) × (follow u.prev x ≡ follow t.prev x)
follow-Low n t u x h l =
    subst (λ x. (follow u.next x ≡ follow t.next x) × (follow u.prev x ≡ follow t.prev x))
      (sym l.is) (h l.piece l.low)

Ends-of : (n : ℕ) (s : Span) → (s.len == 0) ≡ false → Ends n s → Low n s.start × Low n s.end
Ends-of n s e h = elim h [ inl z ↦ absurd (ground (arith, e, z)) | inr k ↦ k ]

-- The same swap in both texts.
pub span_swap-SameLinks :
    (s o : Span) (t u : Text) (n : ℕ)
    → LinksTo n t u
    → Ends n s
    → Ends n o
    → LinksTo n (span_swap s o t) (span_swap s o u)
unfolding span_swap
span_swap-SameLinks s o t u n h es eo = elim (Bool-cases (s.len == 0)) [
  | inl z ↦ elim (Bool-cases (o.len == 0)) [
    | inl y ↦ rw (z, y) h
    | inr y ↦
        let (a, b) = Ends-of n o y eo in
        let one =
          set_next-SameLinks (follow t.prev o.start) (follow u.prev o.start) o.start o.start t u n
            (follow-Low n t u o.start h a).1 refl h in
        rw (z, y)
          (set_prev-SameLinks _ _ o.end o.end _ _ n
            (follow-Low n (set_next (follow t.prev o.start) o.start t)
              (set_next (follow u.prev o.start) o.start u) o.end one b).0
            refl one)
  ]
  | inr z ↦
      let (a, b) = Ends-of n s z es in
      elim (Bool-cases (o.len == 0)) [
        | inl y ↦
            let one =
              set_next-SameLinks (follow t.prev s.start) (follow u.prev s.start)
                (follow t.next s.end) (follow u.next s.end) t u n (follow-Low n t u s.start h a).1
                (follow-Low n t u s.end h b).0 h in
            rw (z, y)
              (set_prev-SameLinks _ _ _ _ _ _ n
                (follow-Low n (set_next (follow t.prev s.start) (follow t.next s.end) t)
                  (set_next (follow u.prev s.start) (follow u.next s.end) u) s.end one b).0
                (follow-Low n (set_next (follow t.prev s.start) (follow t.next s.end) t)
                  (set_next (follow u.prev s.start) (follow u.next s.end) u) s.start one a).1
                one)
        | inr y ↦
            let one =
              set_next-SameLinks (follow t.prev s.start) (follow u.prev s.start) o.start o.start t u
                n (follow-Low n t u s.start h a).1 refl h in
            rw (z, y)
              (set_prev-SameLinks _ _ o.end o.end _ _ n
                (follow-Low n (set_next (follow t.prev s.start) o.start t)
                  (set_next (follow u.prev s.start) o.start u) s.end one b).0
                refl one)
      ]
]

-- The length of a span that is not empty has a part in the size alone.
pub span_swap-len :
    (s o : Span) (m : ℕ) (t : Text)
    → 0 < s.len
    → 0 < m
    → let s' : Span = record s { len = m } in
      span_swap s' o t ≡ record (span_swap s o t) { size = t.size - m + o.len }
unfolding span_swap
span_swap-len s o m t h k =
    let a : (s.len == 0) ≡ false = ground (arith, h) in
    let b : (m == 0) ≡ false = ground (arith, k) in
    elim (Bool-cases (o.len == 0)) [ inl y ↦ rw (a, b, y) refl | inr y ↦ rw (a, b, y) refl ]

pub span_swap-size :
    (s o : Span) (t : Text) → 0 < s.len + o.len → (span_swap s o t).size ≡ t.size - s.len + o.len
unfolding span_swap
span_swap-size s o t h = elim (Bool-cases (s.len == 0)) [
  | inl z ↦ elim (Bool-cases (o.len == 0)) [
    | inl y ↦ absurd (ground (arith, z, y, h))
    | inr y ↦ rw (z, y) refl
  ]
  | inr z ↦ rw z refl
]
