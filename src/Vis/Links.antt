-- ===== src/Vis/Links.antt =====
-- Doubly linked lists over a heap of links: `next` and `prev` are functions of the node.
use suckless.Prelude.{ℕ, ◌≡◌, ◌≢◌, sym, Option, some, List, [], ◌∷◌, ◌++◌, arith, put_at}

-- a is no element of the list.
abbrev pub Out : ℕ → List ℕ → Type 0
Out a [] = Unit {0}
Out a (x ∷ xs) = (a ≢ x) × Out a xs

abbrev pub Distinct : List ℕ → Type 0
Distinct [] = Unit {0}
Distinct (x ∷ xs) = Out x xs × Distinct xs

-- The links between neighbours: forwards, and backwards.
abbrev pub Fwd : (ℕ → Option ℕ) → List ℕ → Type 0
Fwd g [] = Unit {0}
Fwd g (x ∷ []) = Unit {0}
Fwd g (x ∷ y ∷ l) = (g x ≡ some y) × Fwd g (y ∷ l)

abbrev pub Bwd : (ℕ → Option ℕ) → List ℕ → Type 0
Bwd g [] = Unit {0}
Bwd g (x ∷ []) = Unit {0}
Bwd g (x ∷ y ∷ l) = (g y ≡ some x) × Bwd g (y ∷ l)

abbrev pub head_or : List ℕ → ℕ → ℕ
head_or [] d = d
head_or (x ∷ l) d = x

abbrev pub last_or : ℕ → List ℕ → ℕ
last_or d [] = d
last_or d (x ∷ l) = last_or x l

pub Out-append : (a : ℕ) (l m : List ℕ) → Out a l → Out a m → Out a (l ++ m)
Out-append a [] m p q = q
Out-append a (x ∷ l) m p q = (p.0, Out-append a l m p.1 q)

pub Out-split : (a : ℕ) (l m : List ℕ) → Out a (l ++ m) → Out a l × Out a m
Out-split a [] m p = (tt, p)
Out-split a (x ∷ l) m p = let (q, r) = Out-split a l m p.1 in ((p.0, q), r)

pub Distinct-middle :
    (l : List ℕ) (a : ℕ) (m : List ℕ) → Distinct (l ++ a ∷ m) → Out a l × Out a m × Distinct m
Distinct-middle [] a m d = (tt, d.0, d.1)
Distinct-middle (x ∷ l) a m d =
    let (out, rest, dm) = Distinct-middle l a m d.1 in
    let (h, k) = Out-split x l (a ∷ m) d.0 in (((λ e. k.0 (sym e)), out), rest, dm)

pub Distinct-far :
    (l : List ℕ) (a : ℕ) (m : List ℕ) (b : ℕ) (r : List ℕ)
    → Distinct (l ++ a ∷ (m ++ b ∷ r))
    → Out b l
Distinct-far [] a m b r d = tt
Distinct-far (x ∷ l) a m b r d =
    let (h, k) = Out-split x l (a ∷ (m ++ b ∷ r)) d.0 in
    let (h', k') = Out-split x m (b ∷ r) k.1 in ((λ e. k'.0 (sym e)), Distinct-far l a m b r d.1)

put_at_same : (g : ℕ → Option ℕ) (a : ℕ) (v : Option ℕ) → put_at g a v a ≡ v
put_at_same g a v = ground arith

pub Fwd-split :
    (g : ℕ → Option ℕ) (l : List ℕ) (a : ℕ) (m : List ℕ)
    → Fwd g (l ++ a ∷ m)
    → Fwd g (l ++ a ∷ []) × Fwd g (a ∷ m)
Fwd-split g [] a m h = (tt, h)
Fwd-split g (x ∷ []) a m h = ((h.0, tt), h.1)
Fwd-split g (x ∷ y ∷ l) a m h = let (p, q) = Fwd-split g (y ∷ l) a m h.1 in ((h.0, p), q)

pub Fwd-join :
    (g : ℕ → Option ℕ) (l : List ℕ) (a : ℕ) (m : List ℕ)
    → Fwd g (l ++ a ∷ [])
    → Fwd g (a ∷ m)
    → Fwd g (l ++ a ∷ m)
Fwd-join g [] a m h k = k
Fwd-join g (x ∷ []) a m h k = (h.0, k)
Fwd-join g (x ∷ y ∷ l) a m h k = (h.0, Fwd-join g (y ∷ l) a m h.1 k)

pub Bwd-split :
    (g : ℕ → Option ℕ) (l : List ℕ) (a : ℕ) (m : List ℕ)
    → Bwd g (l ++ a ∷ m)
    → Bwd g (l ++ a ∷ []) × Bwd g (a ∷ m)
Bwd-split g [] a m h = (tt, h)
Bwd-split g (x ∷ []) a m h = ((h.0, tt), h.1)
Bwd-split g (x ∷ y ∷ l) a m h = let (p, q) = Bwd-split g (y ∷ l) a m h.1 in ((h.0, p), q)

pub Bwd-join :
    (g : ℕ → Option ℕ) (l : List ℕ) (a : ℕ) (m : List ℕ)
    → Bwd g (l ++ a ∷ [])
    → Bwd g (a ∷ m)
    → Bwd g (l ++ a ∷ m)
Bwd-join g [] a m h k = k
Bwd-join g (x ∷ []) a m h k = (h.0, k)
Bwd-join g (x ∷ y ∷ l) a m h k = (h.0, Bwd-join g (y ∷ l) a m h.1 k)

-- A write at a node whose link the list does not use.
pub Fwd-frame :
    (g : ℕ → Option ℕ) (a : ℕ) (v : Option ℕ) (l : List ℕ)
    → Out a l
    → Fwd g l
    → Fwd (put_at g a v) l
Fwd-frame g a v [] o h = tt
Fwd-frame g a v (x ∷ []) o h = tt
Fwd-frame g a v (x ∷ y ∷ l) o h = (ground arith, Fwd-frame g a v (y ∷ l) o.1 h.1)

pub Fwd-frame_last :
    (g : ℕ → Option ℕ) (a : ℕ) (v : Option ℕ) (l : List ℕ)
    → Out a l
    → Fwd g (l ++ a ∷ [])
    → Fwd (put_at g a v) (l ++ a ∷ [])
Fwd-frame_last g a v [] o h = tt
Fwd-frame_last g a v (x ∷ []) o h = (ground arith, tt)
Fwd-frame_last g a v (x ∷ y ∷ l) o h = (ground arith, Fwd-frame_last g a v (y ∷ l) o.1 h.1)

pub Bwd-frame :
    (g : ℕ → Option ℕ) (a : ℕ) (v : Option ℕ) (l : List ℕ)
    → Out a l
    → Bwd g l
    → Bwd (put_at g a v) l
Bwd-frame g a v [] o h = tt
Bwd-frame g a v (x ∷ []) o h = tt
Bwd-frame g a v (x ∷ y ∷ l) o h = (ground arith, Bwd-frame g a v (y ∷ l) o.1 h.1)

pub Bwd-frame_head :
    (g : ℕ → Option ℕ) (a : ℕ) (v : Option ℕ) (l : List ℕ)
    → Out a l
    → Bwd g (a ∷ l)
    → Bwd (put_at g a v) (a ∷ l)
Bwd-frame_head g a v [] o h = tt
Bwd-frame_head g a v (x ∷ l) o h = (ground arith, Bwd-frame g a v (x ∷ l) o h.1)

pub Fwd-tail : (g : ℕ → Option ℕ) (a : ℕ) (m : List ℕ) → Fwd g (a ∷ m) → Fwd g m
Fwd-tail g a [] h = tt
Fwd-tail g a (x ∷ m) h = h.1

pub Bwd-init : (g : ℕ → Option ℕ) (m : List ℕ) (b : ℕ) → Bwd g (m ++ b ∷ []) → Bwd g m
Bwd-init g [] b h = tt
Bwd-init g (x ∷ []) b h = tt
Bwd-init g (x ∷ y ∷ m) b h = (h.0, Bwd-init g (y ∷ m) b h.1)

Fwd-cons :
    (g : ℕ → Option ℕ) (a : ℕ) (m : List ℕ) (b : ℕ) (r : List ℕ)
    → g a ≡ some (head_or m b)
    → Fwd g (m ++ b ∷ r)
    → Fwd g (a ∷ m ++ b ∷ r)
Fwd-cons g a [] b r h k = (h, k)
Fwd-cons g a (x ∷ m) b r h k = (h, k)

Bwd-snoc :
    (g : ℕ → Option ℕ) (a : ℕ) (m : List ℕ) (b : ℕ) (r : List ℕ)
    → g b ≡ some (last_or a m)
    → Bwd g (a ∷ m)
    → Bwd g (b ∷ r)
    → Bwd g (a ∷ m ++ b ∷ r)
Bwd-snoc g a [] b r h k l = (h, l)
Bwd-snoc g a (x ∷ m) b r h k l = (k.0, Bwd-snoc g x m b r h k.1 l)

-- A segment that is not linked in, but whose ends point to the nodes a and b.
abbrev pub Held : (ℕ → Option ℕ) → (ℕ → Option ℕ) → ℕ → List ℕ → ℕ → Type 0
Held nx pv a m b = Fwd nx (m ++ b ∷ []) × Bwd pv (a ∷ m)

abbrev pub Linked : (ℕ → Option ℕ) → (ℕ → Option ℕ) → List ℕ → Type 0
Linked nx pv l = Fwd nx l × Bwd pv l

-- The two writes of a swap: what stood between a and b is held, and what was held stands there.
pub swap_links :
    (nx pv : ℕ → Option ℕ) (l : List ℕ) (a : ℕ) (old new : List ℕ) (b : ℕ) (r : List ℕ)
    → Linked nx pv (l ++ a ∷ (old ++ b ∷ r))
    → Distinct (l ++ a ∷ (old ++ b ∷ r))
    → Held nx pv a new b
    → Out a new
    → Out b new
    → let nx' = put_at nx a (some (head_or new b)) in
      let pv' = put_at pv b (some (last_or a new)) in
      Linked nx' pv' (l ++ a ∷ (new ++ b ∷ r)) × Held nx' pv' a old b
swap_links nx pv l a old new b r (fw, bw) d (hf, hb) an bn =
    let (al, aout, dm) = Distinct-middle l a (old ++ b ∷ r) d in
    let (bo, br, dr) = Distinct-middle old b r dm in
    let (ao, abr) = Out-split a old (b ∷ r) aout in
    let (f1, f2) = Fwd-split nx l a (old ++ b ∷ r) fw in
    let (f3, f4) = Fwd-split nx old b r (Fwd-tail nx a (old ++ b ∷ r) f2) in
    let (b1, b2) = Bwd-split pv l a (old ++ b ∷ r) bw in
    let (b3, b4) = Bwd-split pv (a ∷ old) b r b2 in
    let nx' = put_at nx a (some (head_or new b)) in
    let pv' = put_at pv b (some (last_or a new)) in
    let keep_f =
      λ (m : List ℕ) (o : Out a m) (h : Fwd nx m). Fwd-frame nx a (some (head_or new b)) m o h in
    let keep_b =
      λ (m : List ℕ) (o : Out b m) (h : Bwd pv m). Bwd-frame pv b (some (last_or a new)) m o h in
    let mid = keep_f (new ++ b ∷ []) (Out-append a new (b ∷ []) an (abr.0, tt)) hf in
    let after = keep_f (b ∷ r) abr f4 in
    let bl = Distinct-far l a old b r d in
    let ba : b ≢ a = λ e. abr.0 (sym e) in
    let bv = put_at_same pv b (some (last_or a new)) in
    let held_f = keep_f (old ++ b ∷ []) (Out-append a old (b ∷ []) ao (abr.0, tt)) f3 in
    let held_b = keep_b (a ∷ old) (ba, bo) (Bwd-init pv (a ∷ old) b b3) in
    (
      (
        Fwd-join nx' l a (new ++ b ∷ r) (Fwd-frame_last nx a (some (head_or new b)) l al f1) (
            Fwd-cons nx' a new b r (put_at_same nx a (some (head_or new b)))
              (Fwd-join nx' new b r mid after)),
        Bwd-join pv' l a (new ++ b ∷ r)
            (keep_b (l ++ a ∷ []) (Out-append b l (a ∷ []) bl (ba, tt)) b1)
            (Bwd-snoc pv' a new b r bv (keep_b (a ∷ new) (ba, bn) hb)
              (Bwd-frame_head pv b (some (last_or a new)) r br b4)),
      ),
      (held_f, held_b),
    )
