-- ===== src/Vis/Insert.antt =====
-- vis/text.c, text_insert: where the cache does not serve, the new pieces hold the text with the data
-- put in.
use suckless.Prelude.{
  ℕ, suc, ◌+◌, ◌≤◌, ◌<◌, ◌≡◌, ◌≢◌, inl, inr, refl, sym, ap₂, subst, ◌∙◌, List, [], ◌∷◌, ◌++◌, none,
  some, arith, length, length-append,
}
use suckless.Vis.Links.{Out, Out-split}
use suckless.Vis.Text.{Text, Span, span_init, span_len}
use suckless.Vis.Edit.{piece_init, piece_alloc}
use suckless.Vis.Chain.{
  content, content-append, total, piece_bytes, slice, IsText, Below-Out, Stored,
}
use suckless.Vis.Back.{next_of}
use suckless.Vis.Frame.{Beside, IsInit, piece_init-IsInit, piece_alloc-IsText, piece_alloc-content}
use suckless.Vis.Store.{Before, same_or_apart}
use suckless.Vis.Agree.{Agrees, Heaped, kept-Agrees, kept_init, kept_start}
use suckless.Vis.Served.{Clear, Every, Every-add, Every-Below, Before-same}
use suckless.Vis.Recorded.{IsSwapped, recorded-IsSwapped, Distinct-add, span_len_one, span_len-none}

pub length_middle :
    (l : List ℕ) (a n : ℕ) (m : List ℕ) → length (l ++ a ∷ (n ∷ m)) ≡ suc (length (l ++ a ∷ m))
length_middle l a n m =
    omega (arith, length-append {0} l (a ∷ (n ∷ m)), length-append {0} l (a ∷ m))

-- The insertion of one piece behind the piece p.
module _ (t : Text) (left : List ℕ) (p s : ℕ) (right : List ℕ) (blk off len : ℕ) where
  abbrev pub with_piece : Text
  with_piece = piece_init t.fresh (some p) (t.next p) blk off len (piece_alloc 1 t)

  abbrev pub one : Span
  one = span_init with_piece (some t.fresh) (some t.fresh)

  abbrev pub nothing : Span
  nothing = span_init with_piece none none

  abbrev init : IsInit t.fresh (some p) (t.next p) blk off len (piece_alloc 1 t) with_piece
  init = piece_init-IsInit t.fresh (some p) (t.next p) blk off len (piece_alloc 1 t)

  pub between_kept : (l : List ℕ) → Out t.fresh l → content with_piece l ≡ content t l
  between_kept l h = init.away_content l h ∙ piece_alloc-content 1 t l

  pub between-IsText :
      IsText t (left ++ p ∷ (s ∷ right)) → IsText with_piece (left ++ p ∷ (s ∷ right))
  between-IsText is =
      init.away_text _ (piece_alloc-IsText 1 t _ is)
        (Below-Out t.fresh t.fresh _ (omega arith) is.below)

  pub insert_between-IsSwapped :
      (v : Text)
      → Beside with_piece v
      → IsText t (left ++ p ∷ (s ∷ right))
      → 0 < len
      → blk < t.nblocks
      → off + len ≤ (t.blocks blk).len
      → IsSwapped with_piece v nothing one (left ++ p ∷ (t.fresh ∷ s ∷ right))
  unfolding piece_init span_init span_len total
  insert_between-IsSwapped v recorded is h stored room =
      let here = init.here in
      let size = span_len_one (t.fresh + 1) with_piece t.fresh (omega arith) in
      recorded-IsSwapped with_piece nothing one left p [] (t.fresh ∷ []) s right (between-IsText is)
        (Distinct-add left p (s ∷ right) t.fresh is.distinct out)
        ((here.1 ∙ next_of t.next left p [] s right is.linked.0, tt), (here.2, tt))
        (span_len-none (t.fresh + 1) with_piece)
        (omega (arith, size), omega (arith, size, here.0, h), refl, refl) (omega arith)
        (omega arith, tt) (init.here_stored stored room, tt)
        (omega (arith, length_middle left p t.fresh (s ∷ right), is.count)) v recorded
    where
      out : Out t.fresh (left ++ p ∷ (s ∷ right))
      out = Below-Out t.fresh t.fresh _ (omega arith) is.below

  -- What the pieces hold then.
  pub insert_between-content :
      IsText t (left ++ p ∷ (s ∷ right))
      → content with_piece (left ++ p ∷ (t.fresh ∷ s ∷ right))
        ≡ content t left
          ++ (piece_bytes t p ++ (slice (t.blocks blk).bytes off len ++ content t (s ∷ right)))
  unfolding content
  insert_between-content is =
      let (ol, (op, or)) =
        Out-split t.fresh left (p ∷ (s ∷ right))
          (Below-Out t.fresh t.fresh _ (omega arith) is.below) in
      content-append with_piece left (p ∷ (t.fresh ∷ s ∷ right))
      ∙ ap₂ (◌++◌) (between_kept left ol) (
          ap₂ (◌++◌) (init.away_bytes p op)
            (ap₂ (◌++◌) init.here_bytes (between_kept (s ∷ right) or)))

  -- The new piece ends the last block, and the bytes of the others lie before its own.
  pub between_last :
      (with_piece.blk t.fresh ≡ blk)
      × (with_piece.off t.fresh ≡ off)
      × (with_piece.len t.fresh ≡ len)
  between_last = (init.place_here.0, init.place_here.1, init.here.0)

  pub between-Clear :
      IsText t (left ++ p ∷ (s ∷ right))
      → Every (λ q. Before blk off (t.blk q) (t.off q) (t.len q)) (left ++ p ∷ (s ∷ right))
      → Every (Clear with_piece t.fresh) (left ++ p ∷ (t.fresh ∷ s ∷ right))
  between-Clear is h =
      Every-add (Clear with_piece t.fresh) left p t.fresh (s ∷ right)
        (Every-Below _ (Clear with_piece t.fresh) t.fresh _
          (λ q k b.
            let far : t.fresh ≢ q = λ e. omega (arith, e, k) in
            inr (
              Before-same _ _ _ _ _ _ _ _ _ _ init.place_here.0 init.place_here.1
                (init.place_away q far).0 (init.place_away q far).1 (init.away q far).0 b))
          is.below h)
        (inl refl)

  -- The pieces of t, and the new one.
  pub between-Agrees : Heaped t → Agrees t with_piece
  unfolding piece_init
  between-Agrees h = kept-Agrees t with_piece (omega arith) refl (
      kept_init t.fresh (some p) (t.next p) blk off len t (piece_alloc 1 t) with_piece t.fresh init
        (omega arith) (kept_start t h))

  pub between-Heaped :
      Heaped t → blk < t.nblocks → off + len ≤ (t.blocks blk).len → Heaped with_piece
  unfolding piece_init
  between-Heaped h b room q k = elim (same_or_apart q t.fresh) [
    | inl e ↦ subst (Stored with_piece) (sym e) (init.here_stored b room)
    | inr e ↦ ((between-Agrees h).bytes q (omega (arith, k, e))).2
  ]

  pub between_all :
      ((q : ℕ) → q < t.fresh → Before blk off (t.blk q) (t.off q) (t.len q))
      → (q : ℕ) → q < t.fresh + 1
      → Clear with_piece t.fresh q
  between_all h q k = elim (same_or_apart q t.fresh) [
    | inl e ↦ inl e
    | inr e ↦
        let far : t.fresh ≢ q = λ i. e (sym i) in
        inr (
          Before-same _ _ _ _ _ _ _ _ _ _ init.place_here.0 init.place_here.1
            (init.place_away q far).0 (init.place_away q far).1 (init.away q far).0
            (h q (omega (arith, k, e))))
  ]

  pub between_span : with_piece.len t.fresh ≤ one.len
  unfolding span_init piece_init
  between_span = omega (arith, span_len_one (t.fresh + 1) with_piece t.fresh (omega arith))
