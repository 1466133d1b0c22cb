-- ===== src/Vis/Agree.antt =====
-- vis/text.c: texts that agree on the pieces of one of them.
use suckless.Prelude.{
  ℕ, ◌+◌, ◌≤◌, ◌<◌, ◌≡◌, ◌≢◌, refl, ap₂, subst, ◌∙◌, List, [], ◌∷◌, ◌++◌, Option, arith,
}
use suckless.Vis.Links.{Fwd, Bwd, last_or}
use suckless.Vis.Text.{Text, begin, ending}
use suckless.Vis.Chain.{content, total, piece_bytes, IsText, Below, Below-mono, Stored, AllStored}
use suckless.Vis.Find.{not_both}
use suckless.Vis.Frame.{IsInit}

-- Every piece lies in the used part of a block.
abbrev pub Heaped : Text → Type 0
Heaped t = (q : ℕ) → q < t.fresh → Stored t q

-- The pieces of t have the links in u that they have in t, and the bytes.
abbrev pub SameLinks : Text → Text → Type 0
SameLinks t u = (q : ℕ) → q < t.fresh → (u.next q ≡ t.next q) × (u.prev q ≡ t.prev q)

abbrev pub SameData : Text → Text → Type 0
SameData t u =
    (q : ℕ) → q < t.fresh → (u.len q ≡ t.len q) × (piece_bytes u q ≡ piece_bytes t q) × Stored u q

-- u has the pieces of t as they are, and maybe more.
pub record Agrees (t u : Text) : Type 0 where
  pub fresh : t.fresh ≤ u.fresh
  pub links : SameLinks t u
  pub bytes : SameData t u
  pub size : u.size ≡ t.size

pub Agrees-refl : (t : Text) → Heaped t → Agrees t t
Agrees-refl t h = record {
  fresh = omega arith;
  links = λ q k. (refl, refl);
  bytes = λ q k. (refl, refl, h q k);
  size = refl;
}

pub Agrees-trans : (t u v : Text) → Agrees t u → Agrees u v → Agrees t v
Agrees-trans t u v a b = record {
  fresh = omega (arith, a.fresh, b.fresh);
  links = λ q k.
      let low : q < u.fresh = omega (arith, k, a.fresh) in
      ((b.links q low).0 ∙ (a.links q k).0, (b.links q low).1 ∙ (a.links q k).1);
  bytes = λ q k.
      let (l, c, s) = a.bytes q k in
      let (l', c', s') = b.bytes q (omega (arith, k, a.fresh)) in (l' ∙ l, c' ∙ c, s');
  size = b.size ∙ a.size;
}

Agrees-Fwd : (t u : Text) (l : List ℕ) → Agrees t u → Below t.fresh l → Fwd t.next l → Fwd u.next l
Agrees-Fwd t u [] a b f = tt
Agrees-Fwd t u (x ∷ []) a b f = tt
Agrees-Fwd t u (x ∷ y ∷ l) a b f = ((a.links x b.0).0 ∙ f.0, Agrees-Fwd t u (y ∷ l) a b.1 f.1)

Agrees-Bwd : (t u : Text) (l : List ℕ) → Agrees t u → Below t.fresh l → Bwd t.prev l → Bwd u.prev l
Agrees-Bwd t u [] a b f = tt
Agrees-Bwd t u (x ∷ []) a b f = tt
Agrees-Bwd t u (x ∷ y ∷ l) a b f = ((a.links y b.1.0).1 ∙ f.0, Agrees-Bwd t u (y ∷ l) a b.1 f.1)

Agrees-content :
    (t u : Text) (l : List ℕ)
    → Agrees t u
    → Below t.fresh l
    → (content u l ≡ content t l) × (total u l ≡ total t l) × AllStored u l
unfolding content total
Agrees-content t u [] a b = (refl, refl, tt)
Agrees-content t u (q ∷ l) a b =
    let (e, c, s) = a.bytes q b.0 in
    let (c', e', s') = Agrees-content t u l a b.1 in (ap₂ (◌++◌) c c', ap₂ (◌+◌) e e', (s, s'))

pub last_low : (n x : ℕ) (l : List ℕ) → x < n → Below n l → last_or x l < n
last_low n x [] h b = h
last_low n x (y ∷ l) h b = last_low n y l b.0 b.1

-- The sentinels are in the chain.
sentinels : (t : Text) (l : List ℕ) → IsText t l → (begin < t.fresh) × (ending < t.fresh)
sentinels t [] is = absurd (not_both is.final)
sentinels t (x ∷ l) is =
    let low : x < t.fresh = is.below.0 in
    (
      subst (λ n. n < t.fresh) is.first low,
      subst (λ n. n < t.fresh) is.final (last_low t.fresh x l low is.below.1),
    )

-- What the one text holds, the other holds.
pub Agrees-IsText :
    (t u : Text) (l : List ℕ) → Agrees t u → IsText t l → IsText u l × (content u l ≡ content t l)
Agrees-IsText t u l a is =
    let (c, e, s) = Agrees-content t u l a is.below in
    let (b, n) = sentinels t l is in
    (
      record {
        linked = (Agrees-Fwd t u l a is.below is.linked.0, Agrees-Bwd t u l a is.below is.linked.1);
        distinct = is.distinct;
        first = is.first;
        final = is.final;
        closed = (a.links ending n).0 ∙ is.closed;
        begin_len = (a.bytes begin b).0 ∙ is.begin_len;
        ending_len = (a.bytes ending n).0 ∙ is.ending_len;
        below = Below-mono t.fresh u.fresh l a.fresh is.below;
        count = omega (arith, is.count, a.fresh);
        stored = s;
        sized = omega (arith, a.size, is.sized, e);
      },
      c,
    )

-- The links of the pieces below n are the same.
abbrev pub LinksTo : ℕ → Text → Text → Type 0
LinksTo n t u = (q : ℕ) → q < n → (u.next q ≡ t.next q) × (u.prev q ≡ t.prev q)

-- The pieces below n of the text s, as they are in u.
abbrev pub KeptTo : ℕ → Text → Text → Type 0
KeptTo n t u =
    LinksTo n t u
    × ((q : ℕ) → q < n → (u.len q ≡ t.len q) × (piece_bytes u q ≡ piece_bytes t q) × Stored u q)

pub kept_start : (t : Text) → Heaped t → KeptTo t.fresh t t
kept_start t h = ((λ q k. (refl, refl)), (λ q k. (refl, refl, h q k)))

-- The initialisation of a newer piece.
pub kept_init :
    (p : ℕ) (pr nx : Option ℕ) (b o m : ℕ) (s t u : Text) (n : ℕ)
    → IsInit p pr nx b o m t u
    → n ≤ p
    → KeptTo n s t
    → KeptTo n s u
kept_init p pr nx b o m s t u n i h (links, bytes) =
    let far : (q : ℕ) → q < n → p ≢ q = λ q k e. omega (arith, e, h, k) in
    (
      (λ q k. let (_, x, y) = i.away q (far q k) in (x ∙ (links q k).0, y ∙ (links q k).1)),
      (λ q k.
          let (l, c, st) = bytes q k in
          ((i.away q (far q k)).0 ∙ l, i.away_bytes q (far q k) ∙ c, i.away_stored q (far q k) st)),
    )

pub kept-Agrees :
    (t u : Text) → t.fresh ≤ u.fresh → u.size ≡ t.size → KeptTo t.fresh t u → Agrees t u
kept-Agrees t u h e (links, bytes) = record { fresh = h; links = links; bytes = bytes; size = e }
