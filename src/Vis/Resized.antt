-- ===== src/Vis/Resized.antt =====
-- vis/text.c, cache_insert and cache_delete: the last block and the length of the cached piece change.
use suckless.Prelude.{
  ℕ, ◌+◌, ◌-◌, ◌≤◌, ◌<◌, ◌≡◌, ◌≢◌, ◌⊎◌, inl, inr, refl, sym, ap, ap₂, subst, ◌∙◌, List, [], ◌∷◌,
  ◌++◌, some, arith, put_at,
}
use suckless.Vis.Links.{Out, Distinct-middle}
use suckless.Vis.Block.{Block}
use suckless.Vis.Text.{Text, begin, ending}
use suckless.Vis.Chain.{
  content, content-append, total, total-append, piece_bytes, slice, IsText, Stored, AllStored,
  AllStored-append, AllStored_split, Below-split,
}
use suckless.Vis.Frame.{beside, put_at_here, put_at_apart}
use suckless.Vis.Store.{same_or_apart}
use suckless.Vis.Served.{Every, Every-map, Every-split, Clear, IsServed, cached_piece, some_inj}

module _ (t w : Text) (p : ℕ) (blk : Block) (n size : ℕ) (last : t.blk p + 1 ≡ t.nblocks)
    (long : blk.len ≡ t.off p + n)
    (before : (o k : ℕ)
      → o + k ≤ t.off p
      → slice blk.bytes o k ≡ slice (t.blocks (t.blk p)).bytes o k) where
  abbrev pub resized : Text
  resized = record (beside w t) {
    blocks = put_at t.blocks (t.nblocks - 1) blk;
    len = put_at t.len p n;
    size = size;
  }

  block_at : (q : ℕ) → t.blk q ≡ t.blk p → resized.blocks (t.blk q) ≡ blk
  block_at q e = ground (arith, e, last)

  block_off : (q : ℕ) → t.blk q ≢ t.blk p → resized.blocks (t.blk q) ≡ t.blocks (t.blk q)
  block_off q e =
      put_at_apart t.blocks (t.nblocks - 1) (t.blk q) blk (λ h. e (omega (arith, h, last)))

  len_here : resized.len p ≡ n
  len_here = put_at_here t.len p n

  len_off : (q : ℕ) → p ≢ q → resized.len q ≡ t.len q
  len_off q h = put_at_apart t.len p q n h

  bytes_here : piece_bytes resized p ≡ slice blk.bytes (t.off p) n
  bytes_here = ap₂ (λ b k. slice b.bytes (t.off p) k) (block_at p refl) len_here

  Stored-here : Stored resized p
  Stored-here =
      inr (omega (arith, last), omega (arith, len_here, long, ap (λ b. b.len) (block_at p refl)))

  -- The members of another piece whose block is b then.
  kept_at :
      (q : ℕ) (b : Block)
      → p ≢ q
      → resized.blocks (t.blk q) ≡ b
      → slice b.bytes (t.off q) (t.len q) ≡ piece_bytes t q
      → t.off q + t.len q ≤ b.len
      → t.blk q < t.nblocks
      → (piece_bytes resized q ≡ piece_bytes t q) × Stored resized q
  kept_at q b h e same room lt = (
    ap₂ (λ b k. slice b.bytes (t.off q) k) e (len_off q h) ∙ same,
    inr (lt, omega (arith, len_off q h, room, ap (λ b. b.len) e)),
  )

  kept :
      (q : ℕ)
      → p ≢ q
      → Clear t p q
      → Stored t q
      → (piece_bytes resized q ≡ piece_bytes t q) × Stored resized q
  kept q h c s = elim s [
    | inl z ↦ (
      ap (slice (resized.blocks (t.blk q)).bytes (t.off q)) (len_off q h ∙ z)
          ∙ sym (ap (slice (t.blocks (t.blk q)).bytes (t.off q)) z),
      inl (len_off q h ∙ z),
    )
    | inr (lt, le) ↦ elim (same_or_apart (t.blk q) (t.blk p)) [
      | inr a ↦ kept_at q (t.blocks (t.blk q)) h (block_off q a) refl le lt
      | inl e ↦ elim c [
        | inl same ↦ absurd (h (sym same))
        | inr d ↦ elim d [
          | inl z ↦ (
            ap (slice (resized.blocks (t.blk q)).bytes (t.off q)) (len_off q h ∙ z)
                ∙ sym (ap (slice (t.blocks (t.blk q)).bytes (t.off q)) z),
            inl (len_off q h ∙ z),
          )
          | inr f ↦ elim f [
            | inl a ↦ absurd (a e)
            | inr k ↦
                kept_at q blk h (block_at q e)
                  (before (t.off q) (t.len q) k
                    ∙ ap (λ b. slice (t.blocks b).bytes (t.off q) (t.len q)) (sym e))
                  (omega (arith, k, long)) lt
          ]
        ]
      ]
    ]
  ]

  all_kept :
      (l : List ℕ)
      → Out p l
      → Every (Clear t p) l
      → AllStored t l
      → (content resized l ≡ content t l) × (total resized l ≡ total t l) × AllStored resized l
  unfolding content total
  all_kept [] o c s = (refl, refl, tt)
  all_kept (q ∷ l) o c s =
      let (b, st) = kept q o.0 c.0 s.0 in
      let (b', k', st') = all_kept l o.1 c.1 s.1 in
      (ap₂ (◌++◌) b b', ap₂ (◌+◌) (len_off q o.0) k', (st, st'))

  Clear-kept : (q : ℕ) → Clear t p q → Clear resized p q
  Clear-kept q d = elim (same_or_apart q p) [
    | inl h ↦ inl h
    | inr h ↦
        subst (λ k. (q ≡ p) ⊎ ((k ≡ 0) ⊎ ((t.blk q ≢ t.blk p) ⊎ (t.off q + k ≤ t.off p))))
          (sym (len_off q (λ e. h (sym e)))) d
  ]

  pub resized_others :
      ((q : ℕ) → q < t.fresh → Stored t q)
      → ((q : ℕ) → q < t.fresh → Clear t p q)
      → ((q : ℕ) → q < t.fresh → Stored resized q)
        × ((q : ℕ)
            → q < t.fresh
            → p ≢ q
            → (resized.len q ≡ t.len q) × (piece_bytes resized q ≡ piece_bytes t q))
        × ((q : ℕ) → q < t.fresh → Clear resized p q)
  resized_others h c = (
    (λ q k. elim (same_or_apart q p) [
      | inl e ↦ subst (Stored resized) (sym e) Stored-here
      | inr e ↦ (kept q (λ i. e (sym i)) (c q k) (h q k)).1
    ]),
    (λ q k e. (len_off q e, (kept q e (c q k) (h q k)).0)),
    λ q k. Clear-kept q (c q k),
  )

  -- The chain with the piece p, which is neither sentinel.
  module _ (left : List ℕ) (s : ℕ) (right : List ℕ) (is : IsText t (left ++ p ∷ (s ∷ right)))
      (pos : 0 < t.len p) (c : Every (Clear t p) (left ++ p ∷ (s ∷ right)))
      (fits : size + t.len p ≡ t.size + n) where
    parts :
        (content resized left ≡ content t left)
        × (total resized left ≡ total t left)
        × AllStored resized left
        × (content resized (s ∷ right) ≡ content t (s ∷ right))
        × (total resized (s ∷ right) ≡ total t (s ∷ right))
        × AllStored resized (s ∷ right)
    parts =
        let (ol, or, _) = Distinct-middle left p (s ∷ right) is.distinct in
        let (cl, cr) = Every-split (Clear t p) left (p ∷ (s ∷ right)) c in
        let (sl, sr) = AllStored_split t left (p ∷ (s ∷ right)) is.stored in
        let (a1, a2, a3) = all_kept left ol cl sl in
        let (b1, b2, b3) = all_kept (s ∷ right) or cr.1 sr.1 in (a1, a2, a3, b1, b2, b3)

    pub resized-IsText : IsText resized (left ++ p ∷ (s ∷ right))
    unfolding total
    resized-IsText =
        let (_, a2, a3, _, b2, b3) = parts in
        record {
          linked = is.linked;
          distinct = is.distinct;
          first = is.first;
          final = is.final;
          closed = is.closed;
          begin_len =
              len_off begin (λ e. omega (arith, ap t.len e, is.begin_len, pos)) ∙ is.begin_len;
          ending_len =
              len_off ending (λ e. omega (arith, ap t.len e, is.ending_len, pos)) ∙ is.ending_len;
          below = is.below;
          count = is.count;
          stored = AllStored-append resized left (p ∷ (s ∷ right)) a3 (Stored-here, b3);
          sized = omega (
            arith,
            fits,
            is.sized,
            a2,
            b2,
            len_here,
            total-append t left (p ∷ (s ∷ right)),
            total-append resized left (p ∷ (s ∷ right)),
          );
        }

    pub resized-content :
        content resized (left ++ p ∷ (s ∷ right))
        ≡ content t left ++ (slice blk.bytes (t.off p) n ++ content t (s ∷ right))
    unfolding content
    resized-content =
        let (a1, _, _, b1, _, _) = parts in
        content-append resized left (p ∷ (s ∷ right)) ∙ ap₂ (◌++◌) a1 (ap₂ (◌++◌) bytes_here b1)

    pub resized-IsServed : w.cache ≡ some p → 0 < n → IsServed resized (left ++ p ∷ (s ∷ right))
    resized-IsServed e k = record {
      below = λ q f.
          subst (λ r. r < t.fresh) (some_inj p q (sym e ∙ f))
            (Below-split t.fresh left (p ∷ (s ∷ right)) is.below).1.0;
      clear = λ q f.
          subst (λ r. (0 < resized.len r) × Every (Clear resized r) (left ++ p ∷ (s ∷ right)))
            (some_inj p q (sym e ∙ cached_piece resized q f))
            (omega (arith, len_here, k), clear_then);
    }
      where
        clear_then : Every (Clear resized p) (left ++ p ∷ (s ∷ right))
        clear_then = Every-map (Clear t p) (Clear resized p) _ Clear-kept c
