-- ===== src/Vis/Served.antt =====
-- vis/text.c, cache_contains: the cached piece, and where the bytes of the other pieces lie.
use suckless.Prelude.{
  ℕ, zero, suc, ◌+◌, ◌≤◌, ◌<◌, ◌≡◌, ◌⊎◌, inl, inr, refl, sym, ap, subst, ◌∙◌, Bool, true, false,
  ◌&&◌, ◌==◌, List, [], ◌∷◌, ◌++◌, Option, none, some, arith, put_at,
}
use suckless.Vis.Text.{
  Text, Change, Span, cache_piece, at_block_end, cache_contains, current_changes, same, span_has,
}
use suckless.Vis.Edit.{set_spans, put_spans}
use suckless.Vis.Chain.{Below}
use suckless.Vis.Frame.{beside, set_spans-Beside}
use suckless.Vis.Store.{Before}
use suckless.Vis.Swap.{apart}
use suckless.Vis.Agree.{Agrees, Heaped}

abbrev pub Every : (ℕ → Type 0) → List ℕ → Type 0
Every P [] = Unit {0}
Every P (x ∷ l) = P x × Every P l

pub Every-Below :
    (P Q : ℕ → Type 0) (n : ℕ) (l : List ℕ)
    → ((q : ℕ) → q < n → P q → Q q)
    → Below n l
    → Every P l
    → Every Q l
Every-Below P Q n [] h b e = tt
Every-Below P Q n (x ∷ l) h b e = (h x b.0 e.0, Every-Below P Q n l h b.1 e.1)

pub Every-map : (P Q : ℕ → Type 0) (l : List ℕ) → ((q : ℕ) → P q → Q q) → Every P l → Every Q l
Every-map P Q [] h e = tt
Every-map P Q (x ∷ l) h e = (h x e.0, Every-map P Q l h e.1)

pub Every-split : (P : ℕ → Type 0) (l m : List ℕ) → Every P (l ++ m) → Every P l × Every P m
Every-split P [] m e = (tt, e)
Every-split P (x ∷ l) m e = let (r, h) = Every-split P l m e.1 in ((e.0, r), h)

-- One more element after a, and one less.
pub Every-add :
    (P : ℕ → Type 0) (l : List ℕ) (a n : ℕ) (m : List ℕ)
    → Every P (l ++ a ∷ m)
    → P n
    → Every P (l ++ a ∷ (n ∷ m))
Every-add P [] a n m e h = (e.0, (h, e.1))
Every-add P (x ∷ l) a n m e h = (e.0, Every-add P l a n m e.1 h)

pub Every-without :
    (P : ℕ → Type 0) (l : List ℕ) (a n : ℕ) (m : List ℕ)
    → Every P (l ++ a ∷ (n ∷ m))
    → Every P (l ++ a ∷ m) × P n
Every-without P [] a n m e = ((e.0, e.1.1), e.1.0)
Every-without P (x ∷ l) a n m e = let (r, h) = Every-without P l a n m e.1 in ((e.0, r), h)

pub Before-same :
    (i j b o n i' j' b' o' n' : ℕ)
    → i' ≡ i
    → j' ≡ j
    → b' ≡ b
    → o' ≡ o
    → n' ≡ n
    → Before i j b o n
    → Before i' j' b' o' n'
Before-same i j b o n i' j' b' o' n' e1 e2 e3 e4 e5 h = rw (e1, e2, e3, e4, e5) h

-- A part of the bytes.
pub Before-part :
    (i j b o n o' n' : ℕ) → 0 < n → o' + n' ≤ o + n → Before i j b o n → Before i j b o' n'
Before-part i j b o n o' n' k h c = elim c [
  | inl z ↦ absurd (omega (arith, z, k))
  | inr d ↦ elim d [ inl a ↦ inr (inl a) | inr e ↦ inr (inr (omega (arith, e, h))) ]
]

-- q is p, or its bytes lie before those of p where they lie in the same block.
abbrev pub Clear : Text → ℕ → ℕ → Type 0
Clear t p q = (q ≡ p) ⊎ Before (t.blk p) (t.off p) (t.blk q) (t.off q) (t.len q)

-- The piece that the cache serves has bytes, and those of the chain's other pieces are clear of it.
pub record IsServed (t : Text) (l : List ℕ) : Type 0 where
  pub below : (p : ℕ) → t.cache ≡ some p → p < t.fresh
  pub clear : (p : ℕ) → cache_contains t p ≡ true → (0 < t.len p) × Every (Clear t p) l

and_left : (a b : Bool) → (a && b) ≡ true → a ≡ true
and_left true b h = refl
and_left false b h = h

same-some : (c : Option ℕ) (p : ℕ) → same c (some p) ≡ true → c ≡ some p
same-some none p h = absurd (ground (arith, h))
same-some (some q) p h = ap some (ground (arith, h))

pub cached_piece : (t : Text) (p : ℕ) → cache_contains t p ≡ true → t.cache ≡ some p
unfolding cache_contains
cached_piece t p h = same-some t.cache p (and_left _ _ h)

pub some_inj : (p q : ℕ) → some p ≡ some q → p ≡ q
some_inj p q h = ground (arith, h)

same-some_inj : (p q : ℕ) → same (some p) (some q) ≡ true → q ≡ p
same-some_inj p q h = ground (arith, h)

-- A text that serves the piece n alone.
pub new-IsServed :
    (w base : Text) (f g : ℕ → Option ℕ) (z n : ℕ) (l : List ℕ)
    → n < base.fresh
    → 0 < base.len n
    → Every (Clear base n) l
    → IsServed
        (record (record (beside w base) { cache = some n }) { next = f; prev = g; size = z })
        l
unfolding cache_contains
new-IsServed w base f g z n l h k e = record {
  below = λ p c. subst (λ q. q < base.fresh) (some_inj n p c) h;
  clear = λ p c.
      subst (λ q. (0 < base.len q) × Every (Clear base q) l)
        (sym (same-some_inj n p (and_left _ _ c))) (k, e);
}

piece_at_end :
    (t : Text) (p : ℕ) → at_block_end t p ≡ true → cache_piece p t ≡ record t { cache = some p }
unfolding cache_piece
piece_at_end t p h = rw h refl

-- The text after an insertion, whose new piece n ends the last block.
pub inserted-IsServed :
    (base u : Text) (so sn : Span) (n : ℕ) (l : List ℕ)
    → (let v = cache_piece n (set_spans so sn base) in
        u ≡ record v { next = u.next; prev = u.prev; size = u.size })
    → base.blk n + 1 ≡ base.nblocks
    → base.off n + base.len n ≡ (base.blocks (base.blk n)).len
    → n < base.fresh
    → 0 < base.len n
    → Every (Clear base n) l
    → IsServed u l
inserted-IsServed base u so sn n l e last full h k c =
    let b = set_spans-Beside so sn base in
    let w = set_spans so sn base in
    let ends : at_block_end (beside w base) n ≡ true = ground (arith, last, full) in
    let cached : cache_piece n w ≡ record (beside w base) { cache = some n } =
      ap (cache_piece n) b ∙ piece_at_end (beside w base) n ends in
    let relink : Text → Text = λ v. record v { next = u.next; prev = u.prev; size = u.size } in
    subst (λ v. IsServed v l) (sym (e ∙ ap relink cached))
      (new-IsServed w base u.next u.prev u.size n l h k c)

-- It serves n alone, and so all the pieces are clear of the piece that it serves.
pub inserted_covers :
    (base u : Text) (so sn : Span) (n : ℕ)
    → (let v = cache_piece n (set_spans so sn base) in
        u ≡ record v { next = u.next; prev = u.prev; size = u.size })
    → base.blk n + 1 ≡ base.nblocks
    → base.off n + base.len n ≡ (base.blocks (base.blk n)).len
    → ((q : ℕ) → q < base.fresh → Clear base n q)
    → (p : ℕ) → cache_contains u p ≡ true
    → (u.len p ≡ base.len n) × (p ≡ n) × ((q : ℕ) → q < u.fresh → Clear u p q)
inserted_covers base u so sn n e last full c p h =
    let b = set_spans-Beside so sn base in
    let w = set_spans so sn base in
    let ends : at_block_end (beside w base) n ≡ true = ground (arith, last, full) in
    let cached : cache_piece n w ≡ record (beside w base) { cache = some n } =
      ap (cache_piece n) b ∙ piece_at_end (beside w base) n ends in
    let relink : Text → Text = λ v. record v { next = u.next; prev = u.prev; size = u.size } in
    let whole = e ∙ ap relink cached in
    let same_p : p ≡ n = sym (some_inj n p (sym (ap (λ v. v.cache) whole) ∙ cached_piece u p h)) in
    subst (λ v. (v.len p ≡ base.len n) × (p ≡ n) × ((q : ℕ) → q < v.fresh → Clear v p q))
      (sym whole)
      (ap base.len same_p, same_p, λ q k. subst (λ m. Clear base m q) (sym same_p) (c q k))

pub changes_at :
    (t : Text) (ds : List Change) (c : Option ℕ)
    → t.current ≡ c
    → let u : Text = elim c [
      | none ↦ record t { fault = true }
      | some r ↦ record t { revs = put_at t.revs r (record (t.revs r) { changes = ds }) }
    ] in
      (u.cache ≡ t.cache)
      × (u.current ≡ t.current)
      × ((current_changes u ≡ []) ⊎ (current_changes u ≡ ds))
changes_at t ds none e = (refl, refl, inl (rw e refl))
changes_at t ds (some r) e = (refl, refl, inr (rw e (ground arith)))

span_test :
    (k p : ℕ) (u : Text) (so sn : Span) (cs : List Change) (e : Bool)
    → span_has k u p sn.start sn.end ≡ false
    → (elim (put_spans so sn cs) [
      | [] ↦ false
      | c ∷ cs ↦ span_has k u p c.new.start c.new.end && e
    ])
      ≡ false
span_test k p u so sn [] e h = refl
span_test k p u so sn (c ∷ cs) e h = rw h refl

changed_test :
    (k p : ℕ) (u : Text) (so sn : Span) (cs ds : List Change) (e : Bool)
    → ((ds ≡ []) ⊎ (ds ≡ put_spans so sn cs))
    → span_has k u p sn.start sn.end ≡ false
    → (elim ds [ [] ↦ false | c ∷ cs ↦ span_has k u p c.new.start c.new.end && e ]) ≡ false
changed_test k p u so sn cs ds e d h = elim d [
  | inl z ↦ rw z refl
  | inr z ↦ rw z (span_test k p u so sn cs e h)
]

pub and_right : (a b : Bool) → (a && b) ≡ true → b ≡ true
and_right true b h = h
and_right false b h = absurd (ground (arith, h))

-- The second half of the test of cache_contains.
abbrev listed : Text → ℕ → Bool
listed t p = elim (current_changes t) [
  | [] ↦ false
  | c ∷ cs ↦ span_has t.fresh t p c.new.start c.new.end && at_block_end t p
]

-- The text after a deletion: the cached piece is none of the pieces that it added.
pub deleted_missed :
    (base u : Text) (so sn : Span) (n : ℕ)
    → (let v = set_spans so sn base in u ≡ record v { next = u.next; prev = u.prev; size = u.size })
    → ((p : ℕ) → base.cache ≡ some p → p < n)
    → ((k p : ℕ) → p < n → span_has k u p sn.start sn.end ≡ false)
    → (u.cache ≡ base.cache) × ((p : ℕ) → cache_contains u p ≡ true → true ≡ false)
unfolding cache_contains
deleted_missed base u so sn n e c k =
    let (cache, current, changes) =
      changes_at base (put_spans so sn (current_changes base)) base.current refl in
    let cached : u.cache ≡ base.cache = ap (λ v. v.cache) e ∙ cache in
    let same_changes : current_changes u ≡ current_changes (set_spans so sn base) =
      ap current_changes e in
    (
      cached,
      λ p o.
          let small = c p (sym cached ∙ same-some u.cache p (and_left _ _ o)) in
          let miss =
            changed_test u.fresh p u so sn (current_changes base) (current_changes u)
              (at_block_end u p)
              (subst (λ x. (x ≡ []) ⊎ (x ≡ put_spans so sn (current_changes base)))
                (sym same_changes) changes)
              (k u.fresh p small) in
          sym (and_right (same u.cache (some p)) (listed u p) o) ∙ miss,
    )

pub deleted-IsServed :
    (base u : Text) (so sn : Span) (n : ℕ) (l : List ℕ)
    → (let v = set_spans so sn base in u ≡ record v { next = u.next; prev = u.prev; size = u.size })
    → ((p : ℕ) → base.cache ≡ some p → p < n)
    → n ≤ base.fresh
    → ((k p : ℕ) → p < n → span_has k u p sn.start sn.end ≡ false)
    → IsServed u l
deleted-IsServed base u so sn n l e c h k =
    let (cached, miss) = deleted_missed base u so sn n e c k in
    let fresh : u.fresh ≡ base.fresh =
      ap (λ v. v.fresh) e ∙ ap (λ v. v.fresh) (set_spans-Beside so sn base) in
    record {
      below = λ p o. omega (arith, c p (sym cached ∙ o), h, fresh);
      clear = λ p o. absurd (ground (arith, miss p o));
    }

-- Spans that hold no older piece.
pub none_has : (k p : ℕ) (t : Text) → span_has k t p none none ≡ false
unfolding span_has
none_has zero p t = refl
none_has (suc k) p t = refl

pub one_has : (k p n : ℕ) (t : Text) → p < n → span_has k t p (some n) (some n) ≡ false
unfolding span_has
one_has zero p n t h = refl
one_has (suc k) p n t h =
    let no : (n == p) ≡ false = apart n p (λ e. omega (arith, e, h)) in
    let yes : (n == n) ≡ true = ground arith in rw (no, yes) refl

pub two_has :
    (k p n : ℕ) (t : Text)
    → p < n
    → t.next n ≡ some (n + 1)
    → span_has k t p (some n) (some (n + 1)) ≡ false
unfolding span_has
two_has zero p n t h e = refl
two_has (suc k) p n t h e =
    let no : (n == p) ≡ false = apart n p (λ e. omega (arith, e, h)) in
    let no1 : (n == n + 1) ≡ false = apart n (n + 1) (λ e. omega (arith, e)) in
    rw (no, no1, e) (one_has k p (n + 1) t (omega (arith, h)))

-- What an edit of t keeps: the pieces of t are those of base, and every piece of base is stored. The
-- cached piece of u is one that the edit added, and the bytes of all the others are clear of it.
pub record IsKept (t base u : Text) (new : Span) : Type 0 where
  pub before : Agrees t base
  pub heaped : Heaped base
  pub covers :
      ((p : ℕ) → t.cache ≡ some p → p < t.fresh)
      → (p : ℕ) → cache_contains u p ≡ true
      → (u.len p ≤ new.len) × (t.fresh ≤ p) × ((q : ℕ) → q < u.fresh → Clear u p q)
