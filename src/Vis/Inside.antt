-- ===== src/Vis/Inside.antt =====
-- vis/text.c, text_insert into a piece: it is replaced by three pieces.
use suckless.Prelude.{
  ℕ, zero, suc, ◌+◌, ◌-◌, ◌≤◌, ◌<◌, ◌≡◌, ◌⊎◌, inl, inr, refl, sym, ap, ap₂, subst, ◌∙◌, List, [],
  ◌∷◌, ◌++◌, some, arith, take, drop,
}
use suckless.Vis.Links.{Held, Out, Distinct}
use suckless.Vis.Text.{Text, Span, span_init, span_len}
use suckless.Vis.Edit.{piece_init, piece_alloc}
use suckless.Vis.Chain.{
  content, content-append, total, piece_bytes, slice, IsText, Below, Below-Out, Below-split, Stored,
  AllStored, AllStored_split,
}
use suckless.Vis.Swap.{chain-Held}
use suckless.Vis.Frame.{Beside, IsInit, piece_init-IsInit, piece_alloc-IsText, piece_alloc-content}
use suckless.Vis.Store.{Before}
use suckless.Vis.Agree.{Agrees, Heaped, kept-Agrees, kept_init, kept_start}
use suckless.Vis.Served.{
  Clear, Every, Every-add, Every-without, Every-Below, Before-same, Before-part,
}
use suckless.Vis.Recorded.{
  IsSwapped, recorded-IsSwapped, Distinct-add, Distinct-without, Out-middle, Out-without,
  span_len_one, span_len_more,
}
use suckless.Vis.Insert.{length_middle}

pub take-slice : (f : ℕ → ℕ) (i n k : ℕ) → k ≤ n → take k (slice f i n) ≡ slice f i k
take-slice f i n zero h = refl
take-slice f i zero (suc k) h = absurd (omega arith)
take-slice f i (suc n) (suc k) h = ap (λ l. f i ∷ l) (take-slice f (i + 1) n k (omega arith))

pub drop-slice : (f : ℕ → ℕ) (i n k : ℕ) → k ≤ n → drop k (slice f i n) ≡ slice f (i + k) (n - k)
drop-slice f i n zero h = ap₂ (slice f) (omega arith) (omega arith)
drop-slice f i zero (suc k) h = absurd (omega arith)
drop-slice f i (suc n) (suc k) h =
    drop-slice f (i + 1) n k (omega arith) ∙ ap₂ (slice f) (omega arith) (omega arith)

-- A piece with bytes of its own points to a block.
pub filled :
    (t : Text) (p : ℕ)
    → 0 < t.len p
    → Stored t p
    → (t.blk p < t.nblocks) × (t.off p + t.len p ≤ (t.blocks (t.blk p)).len)
filled t p h s = elim s [ inl z ↦ absurd (omega (arith, z)) | inr k ↦ k ]

module _ (t : Text) (left : List ℕ) (a p s : ℕ) (right : List ℕ) (blk off len at : ℕ) where
  abbrev pub with_before : Text
  with_before =
      piece_init t.fresh (t.prev p) (some (t.fresh + 1)) (t.blk p) (t.off p) at (piece_alloc 3 t)

  abbrev pub with_new : Text
  with_new = piece_init (t.fresh + 1) (some t.fresh) (some (t.fresh + 2)) blk off len with_before

  abbrev pub with_after : Text
  with_after =
      piece_init (t.fresh + 2) (some (t.fresh + 1)) (with_new.next p) (with_new.blk p)
        (with_new.off p + at) (with_new.len p - at) with_new

  abbrev pub three : List ℕ
  three = t.fresh ∷ (t.fresh + 1) ∷ (t.fresh + 2) ∷ []

  abbrev pub added : Span
  added = span_init with_after (some t.fresh) (some (t.fresh + 2))

  abbrev pub removed : Span
  removed = span_init with_after (some p) (some p)

  abbrev first :
      IsInit t.fresh
        (t.prev p)
        (some (t.fresh + 1))
        (t.blk p)
        (t.off p)
        at
        (piece_alloc 3 t)
        with_before
  first =
      piece_init-IsInit t.fresh (t.prev p) (some (t.fresh + 1)) (t.blk p) (t.off p) at
        (piece_alloc 3 t)

  abbrev second :
      IsInit (t.fresh + 1) (some t.fresh) (some (t.fresh + 2)) blk off len with_before with_new
  second =
      piece_init-IsInit (t.fresh + 1) (some t.fresh) (some (t.fresh + 2)) blk off len with_before

  abbrev third :
      IsInit
        (t.fresh + 2)
        (some (t.fresh + 1))
        (with_new.next p)
        (with_new.blk p)
        (with_new.off p + at)
        (with_new.len p - at)
        with_new
        with_after
  third =
      piece_init-IsInit (t.fresh + 2) (some (t.fresh + 1)) (with_new.next p) (with_new.blk p)
        (with_new.off p + at) (with_new.len p - at) with_new

  pub inside_kept : (l : List ℕ) → Below t.fresh l → content with_after l ≡ content t l
  inside_kept l b =
      third.away_content l (Below-Out t.fresh (t.fresh + 2) l (omega arith) b)
      ∙ (second.away_content l (Below-Out t.fresh (t.fresh + 1) l (omega arith) b)
          ∙ (first.away_content l (Below-Out t.fresh t.fresh l (omega arith) b)
              ∙ piece_alloc-content 3 t l))

  pub inside-IsText : (l : List ℕ) → IsText t l → IsText with_after l
  inside-IsText l is =
      third.away_text l
        (second.away_text l
          (first.away_text l (piece_alloc-IsText 3 t l is)
            (Below-Out t.fresh t.fresh l (omega arith) is.below))
          (Below-Out t.fresh (t.fresh + 1) l (omega arith) is.below))
        (Below-Out t.fresh (t.fresh + 2) l (omega arith) is.below)

  -- The piece p, before and after the last of the three.
  same_len : p < t.fresh → (with_new.len p ≡ t.len p) × (with_after.len p ≡ t.len p)
  same_len h =
      let e1 = (first.away p (λ e. omega (arith, e, h))).0 in
      let e2 = (second.away p (λ e. omega (arith, e, h))).0 in
      let e3 = (third.away p (λ e. omega (arith, e, h))).0 in (e2 ∙ e1, e3 ∙ (e2 ∙ e1))

  same_next : p < t.fresh → with_new.next p ≡ t.next p
  same_next h =
      (second.away p (λ e. omega (arith, e, h))).1 ∙ (first.away p (λ e. omega (arith, e, h))).1

  same_bytes : p < t.fresh → piece_bytes with_new p ≡ piece_bytes t p
  same_bytes h =
      second.away_bytes p (λ e. omega (arith, e, h)) ∙ first.away_bytes p (λ e. omega (arith, e, h))

  same-Stored : p < t.fresh → Stored t p → Stored with_new p
  same-Stored h s =
      second.away_stored p (λ e. omega (arith, e, h))
        (first.away_stored p (λ e. omega (arith, e, h)) s)

  -- The members of the three pieces.
  held :
      t.prev p ≡ some a
      → t.next p ≡ some s
      → p < t.fresh
      → Held with_after.next with_after.prev a three s
  held e f h =
      let f3 = third.away t.fresh (λ e. omega (arith, e)) in
      let f2 = second.away t.fresh (λ e. omega (arith, e)) in
      let snd = third.away (t.fresh + 1) (λ e. omega (arith, e)) in
      (
        (
          f3.1 ∙ (f2.1 ∙ first.here.1),
          (snd.1 ∙ second.here.1, (third.here.1 ∙ (same_next h ∙ f), tt)),
        ),
        (f3.2 ∙ (f2.2 ∙ (first.here.2 ∙ e)), (snd.2 ∙ second.here.2, (third.here.2, tt))),
      )

  lens :
      p < t.fresh
      → (with_after.len t.fresh ≡ at)
        × (with_after.len (t.fresh + 1) ≡ len)
        × (with_after.len (t.fresh + 2) ≡ t.len p - at)
  lens h = (
    (third.away t.fresh (λ e. omega (arith, e))).0
        ∙ ((second.away t.fresh (λ e. omega (arith, e))).0 ∙ first.here.0),
    (third.away (t.fresh + 1) (λ e. omega (arith, e))).0 ∙ second.here.0,
    third.here.0 ∙ ap (λ n. n - at) (same_len h).0,
  )

  all_stored :
      p < t.fresh
      → at < t.len p
      → Stored t p
      → blk < t.nblocks
      → off + len ≤ (t.blocks blk).len
      → AllStored with_after three
  unfolding piece_init
  all_stored h k s b r =
      let (pb, pr) = filled t p (omega (arith, k)) s in
      let (qb, qr) = filled with_new p (omega (arith, k, (same_len h).0)) (same-Stored h s) in
      (
        third.away_stored t.fresh (λ e. omega (arith, e))
            (second.away_stored t.fresh (λ e. omega (arith, e))
              (first.here_stored pb (omega (arith, pr, k)))),
        (
          third.away_stored (t.fresh + 1) (λ e. omega (arith, e)) (second.here_stored b r),
          (third.here_stored qb (omega (arith, qr, k, (same_len h).0)), tt),
        ),
      )

  three_bytes :
      p < t.fresh
      → at < t.len p
      → (piece_bytes with_after t.fresh ≡ take at (piece_bytes t p))
        × (piece_bytes with_after (t.fresh + 1) ≡ slice (t.blocks blk).bytes off len)
        × (piece_bytes with_after (t.fresh + 2) ≡ drop at (piece_bytes t p))
  unfolding piece_init
  three_bytes h k = (
    third.away_bytes t.fresh (λ e. omega (arith, e))
        ∙ (second.away_bytes t.fresh (λ e. omega (arith, e))
            ∙ (first.here_bytes ∙ sym (take-slice _ (t.off p) (t.len p) at (omega (arith, k))))),
    third.away_bytes (t.fresh + 1) (λ e. omega (arith, e)) ∙ second.here_bytes,
    third.here_bytes
        ∙ (sym (
              drop-slice (with_new.blocks (with_new.blk p)).bytes (with_new.off p) (with_new.len p)
                at (omega (arith, k, (same_len h).0)))
            ∙ ap (drop at) (same_bytes h)),
  )

  three-Distinct :
      Distinct (left ++ a ∷ (p ∷ s ∷ right))
      → Below t.fresh (left ++ a ∷ (p ∷ s ∷ right))
      → Distinct (left ++ a ∷ (three ++ s ∷ right))
  three-Distinct d b =
      let out : (n : ℕ) → Out (t.fresh + n) (left ++ a ∷ (s ∷ right)) = λ n.
        Out-without (t.fresh + n) left a p (s ∷ right)
          (Below-Out t.fresh (t.fresh + n) _ (omega arith) b) in
      let out1 =
        Out-middle (t.fresh + 1) left a (s ∷ right) (t.fresh + 2) (out 1) (λ e. omega (arith, e)) in
      let out0 =
        Out-middle t.fresh left a ((t.fresh + 2) ∷ s ∷ right) (t.fresh + 1)
          (Out-middle t.fresh left a (s ∷ right) (t.fresh + 2)
            (Out-without t.fresh left a p (s ∷ right) (Below-Out t.fresh t.fresh _ (omega arith) b))
            (λ e. omega (arith, e)))
          (λ e. omega (arith, e)) in
      Distinct-add left a ((t.fresh + 1) ∷ (t.fresh + 2) ∷ s ∷ right) t.fresh
        (Distinct-add left a ((t.fresh + 2) ∷ s ∷ right) (t.fresh + 1)
          (Distinct-add left a (s ∷ right) (t.fresh + 2) (Distinct-without left a p (s ∷ right) d)
            (out 2))
          out1)
        out0

  added_len :
      (k : ℕ)
      → 2 < k
      → p < t.fresh
      → span_len k with_after (some t.fresh) (some (t.fresh + 2)) ≡ total with_after three
  unfolding total
  added_len k h b =
      let n0 : with_after.next t.fresh ≡ some (t.fresh + 1) =
        (third.away t.fresh (λ e. omega (arith, e))).1
        ∙ ((second.away t.fresh (λ e. omega (arith, e))).1 ∙ first.here.1) in
      let n1 : with_after.next (t.fresh + 1) ≡ some (t.fresh + 2) =
        (third.away (t.fresh + 1) (λ e. omega (arith, e))).1 ∙ second.here.1 in
      span_len_more k with_after t.fresh (t.fresh + 2) (omega (arith, h)) (λ e. omega (arith, e))
      ∙ ap (λ n. with_after.len t.fresh + n)
          (ap (λ q. span_len (k - 1) with_after q (some (t.fresh + 2))) n0
            ∙ (span_len_more (k - 1) with_after (t.fresh + 1) (t.fresh + 2) (omega (arith, h))
                  (λ e. omega (arith, e))
                ∙ ap (λ n. with_after.len (t.fresh + 1) + n)
                    (ap (λ q. span_len (k - 1 - 1) with_after q (some (t.fresh + 2))) n1
                      ∙ (span_len_one (k - 1 - 1) with_after (t.fresh + 2) (omega (arith, h))
                          ∙ omega arith))))

  old_spans :
      (k : ℕ)
      → 0 < k
      → 0 < t.len p
      → p < t.fresh
      → (span_len k with_after (some p) (some p) ≡ total with_after (p ∷ []))
        × (0 < span_len k with_after (some p) (some p))
  unfolding total
  old_spans k h l b =
      let e = span_len_one k with_after p h in
      (omega (arith, e), omega (arith, e, (same_len b).1, l))

  new_spans :
      (k : ℕ)
      → 2 < k
      → 0 < len
      → p < t.fresh
      → (span_len k with_after (some t.fresh) (some (t.fresh + 2)) ≡ total with_after three)
        × (0 < span_len k with_after (some t.fresh) (some (t.fresh + 2)))
  unfolding total
  new_spans k h l b = let e = added_len k h b in (e, omega (arith, e, (lens b).1, l))

  pub insert_inside-IsSwapped :
      (v : Text)
      → Beside with_after v
      → IsText t (left ++ a ∷ (p ∷ s ∷ right))
      → at < t.len p
      → 0 < len
      → blk < t.nblocks
      → off + len ≤ (t.blocks blk).len
      → IsSwapped with_after v removed added (left ++ a ∷ (three ++ s ∷ right))
  unfolding piece_init span_init
  insert_inside-IsSwapped v recorded is k pos b room =
      let below = (Below-split t.fresh left (a ∷ (p ∷ s ∷ right)) is.below).1.1.0 in
      let (fw, bw) = chain-Held t.next t.prev left a (p ∷ []) s right is.linked in
      let (os, ol) = old_spans (t.fresh + 3) (omega arith) (omega (arith, k)) below in
      let (ns, nl) = new_spans (t.fresh + 3) (omega arith) pos below in
      recorded-IsSwapped with_after removed added left a (p ∷ []) three s right (inside-IsText _ is)
        (three-Distinct is.distinct is.below) (held bw.0 fw.0 below) (os, ol, refl, refl)
        (ns, nl, refl, refl) (omega arith) (omega arith, (omega arith, (omega arith, tt)))
        (all_stored below k (AllStored_split t left (a ∷ (p ∷ s ∷ right)) is.stored).1.1.0 b room)
        (omega (
          arith,
          is.count,
          length_middle left a p (s ∷ right),
          length_middle left a t.fresh ((t.fresh + 1) ∷ (t.fresh + 2) ∷ s ∷ right),
          length_middle left a (t.fresh + 1) ((t.fresh + 2) ∷ s ∷ right),
          length_middle left a (t.fresh + 2) (s ∷ right),
        ))
        v recorded

  pub insert_inside-content :
      IsText t (left ++ a ∷ (p ∷ s ∷ right))
      → at < t.len p
      → content with_after (left ++ a ∷ (three ++ s ∷ right))
        ≡ content t left
          ++ (piece_bytes t a
              ++ (take at (piece_bytes t p)
                  ++ (slice (t.blocks blk).bytes off len
                      ++ (drop at (piece_bytes t p) ++ content t (s ∷ right)))))
  unfolding content
  insert_inside-content is k =
      let (bl, (ba, (bp, br))) = Below-split t.fresh left (a ∷ (p ∷ s ∷ right)) is.below in
      let (b0, b1, b2) = three_bytes bp k in
      content-append with_after left (a ∷ (three ++ s ∷ right))
      ∙ ap₂ (◌++◌) (inside_kept left bl) (
          ap₂ (◌++◌)
            (third.away_bytes a (λ e. omega (arith, e, ba))
              ∙ (second.away_bytes a (λ e. omega (arith, e, ba))
                  ∙ first.away_bytes a (λ e. omega (arith, e, ba))))
            (ap₂ (◌++◌) b0 (ap₂ (◌++◌) b1 (ap₂ (◌++◌) b2 (inside_kept (s ∷ right) br)))))

  same_place :
      (q : ℕ)
      → q < t.fresh
      → (with_new.blk q ≡ t.blk q)
        × (with_new.off q ≡ t.off q)
        × (with_after.blk q ≡ t.blk q)
        × (with_after.off q ≡ t.off q)
        × (with_after.len q ≡ t.len q)
  same_place q h =
      let (b1, o1) = first.place_away q (λ e. omega (arith, e, h)) in
      let (b2, o2) = second.place_away q (λ e. omega (arith, e, h)) in
      let (b3, o3) = third.place_away q (λ e. omega (arith, e, h)) in
      let e1 = (first.away q (λ e. omega (arith, e, h))).0 in
      let e2 = (second.away q (λ e. omega (arith, e, h))).0 in
      let e3 = (third.away q (λ e. omega (arith, e, h))).0 in
      (b2 ∙ b1, o2 ∙ o1, b3 ∙ (b2 ∙ b1), o3 ∙ (o2 ∙ o1), e3 ∙ (e2 ∙ e1))

  -- The places of the three pieces.
  pub inside_last :
      p < t.fresh
      → (with_after.blk (t.fresh + 1) ≡ blk)
        × (with_after.off (t.fresh + 1) ≡ off)
        × (with_after.len (t.fresh + 1) ≡ len)
  inside_last h =
      let (b3, o3) = third.place_away (t.fresh + 1) (λ e. omega (arith, e)) in
      (b3 ∙ second.place_here.0, o3 ∙ second.place_here.1, (lens h).1)

  before_place : (with_after.blk t.fresh ≡ t.blk p) × (with_after.off t.fresh ≡ t.off p)
  before_place =
      let (b2, o2) = second.place_away t.fresh (λ e. omega (arith, e)) in
      let (b3, o3) = third.place_away t.fresh (λ e. omega (arith, e)) in
      (b3 ∙ (b2 ∙ first.place_here.0), o3 ∙ (o2 ∙ first.place_here.1))

  after_place :
      p < t.fresh
      → (with_after.blk (t.fresh + 2) ≡ t.blk p) × (with_after.off (t.fresh + 2) ≡ t.off p + at)
  after_place h =
      let (b, o, _, _, _) = same_place p h in
      (third.place_here.0 ∙ b, third.place_here.1 ∙ ap (λ n. n + at) o)

  parts-Clear :
      p < t.fresh
      → at < t.len p
      → Before blk off (t.blk p) (t.off p) (t.len p)
      → Clear with_after (t.fresh + 1) t.fresh × Clear with_after (t.fresh + 1) (t.fresh + 2)
  parts-Clear low k here =
      let (lb, lo, ll) = inside_last low in
      (
        inr (
            Before-same _ _ _ _ _ _ _ _ _ _ lb lo before_place.0 before_place.1 (lens low).0
              (Before-part _ _ _ _ (t.len p) _ at (omega (arith, k)) (omega (arith, k)) here)),
        inr (
            Before-same _ _ _ _ _ _ _ _ _ _ lb lo (after_place low).0 (after_place low).1
              (lens low).2
              (Before-part _ _ _ _ (t.len p) _ (t.len p - at) (omega (arith, k)) (omega (arith, k))
                here)),
      )

  -- The piece with the data ends the last block, and the bytes of the others lie before its own.
  pub inside-Clear :
      IsText t (left ++ a ∷ (p ∷ s ∷ right))
      → at < t.len p
      → Every (λ q. Before blk off (t.blk q) (t.off q) (t.len q)) (left ++ a ∷ (p ∷ s ∷ right))
      → Every (Clear with_after (t.fresh + 1)) (left ++ a ∷ (three ++ s ∷ right))
  inside-Clear is k h =
      let low = (Below-split t.fresh left (a ∷ (p ∷ s ∷ right)) is.below).1.1.0 in
      let (lb, lo, ll) = inside_last low in
      let C = Clear with_after (t.fresh + 1) in
      let (rest, here) =
        Every-without (λ q. Before blk off (t.blk q) (t.off q) (t.len q)) left a p (s ∷ right) h in
      let (all, _) = Every-without C left a p (s ∷ right) (
        Every-Below _ C t.fresh _
          (λ q m b.
            let (_, _, b', o', n') = same_place q m in
            inr (Before-same _ _ _ _ _ _ _ _ _ _ lb lo b' o' n' b))
          is.below h) in
      let (before, after) = parts-Clear low k here in
      Every-add C left a t.fresh ((t.fresh + 1) ∷ (t.fresh + 2) ∷ s ∷ right)
        (Every-add C left a (t.fresh + 1) ((t.fresh + 2) ∷ s ∷ right)
          (Every-add C left a (t.fresh + 2) (s ∷ right) all after) (inl refl))
        before

  -- The pieces of t, and the three new ones.
  pub inside-Agrees : Heaped t → Agrees t with_after
  unfolding piece_init
  inside-Agrees h = kept-Agrees t with_after (omega arith) refl (
      kept_init _ _ _ _ _ _ t with_new with_after t.fresh third (omega arith) (
        kept_init _ _ _ _ _ _ t with_before with_new t.fresh second (omega arith) (
          kept_init _ _ _ _ _ _ t (piece_alloc 3 t) with_before t.fresh first (omega arith)
            (kept_start t h))))

  three_cases :
      (q : ℕ)
      → q < t.fresh + 3
      → (q < t.fresh) ⊎ ((q ≡ t.fresh) ⊎ ((q ≡ t.fresh + 1) ⊎ (q ≡ t.fresh + 2)))
  three_cases q k = ground (arith, k)

  pub inside-Heaped :
      Heaped t
      → p < t.fresh
      → at < t.len p
      → blk < t.nblocks
      → off + len ≤ (t.blocks blk).len
      → Heaped with_after
  unfolding piece_init
  inside-Heaped h low k b room q m =
      let (s0, (s1, (s2, _))) = all_stored low k (h p low) b room in
      elim (three_cases q m) [
        | inl e ↦ ((inside-Agrees h).bytes q e).2
        | inr r ↦ elim r [
          | inl e ↦ subst (Stored with_after) (sym e) s0
          | inr r ↦ elim r [
            | inl e ↦ subst (Stored with_after) (sym e) s1
            | inr e ↦ subst (Stored with_after) (sym e) s2
          ]
        ]
      ]

  pub inside_all :
      p < t.fresh
      → at < t.len p
      → ((q : ℕ) → q < t.fresh → Before blk off (t.blk q) (t.off q) (t.len q))
      → (q : ℕ) → q < t.fresh + 3
      → Clear with_after (t.fresh + 1) q
  inside_all low k h q m =
      let (before, after) = parts-Clear low k (h p low) in
      let (lb, lo, ll) = inside_last low in
      let C = Clear with_after (t.fresh + 1) in
      elim (three_cases q m) [
        | inl e ↦
            let (_, _, b', o', n') = same_place q e in
            inr (Before-same _ _ _ _ _ _ _ _ _ _ lb lo b' o' n' (h q e))
        | inr r ↦ elim r [
          | inl e ↦ subst C (sym e) before
          | inr r ↦ elim r [ inl e ↦ inl e | inr e ↦ subst C (sym e) after ]
        ]
      ]

  pub inside_span : p < t.fresh → with_after.len (t.fresh + 1) ≤ added.len
  unfolding span_init piece_init total
  inside_span low = omega (arith, added_len (t.fresh + 3) (omega arith) low)
