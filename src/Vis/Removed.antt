-- ===== src/Vis/Removed.antt =====
-- vis/text.c, text_delete: the deletion from piece boundary to piece boundary, and the deletions that
-- leave one part of a piece.
use suckless.Prelude.{
  ℕ, ◌+◌, ◌-◌, ◌≤◌, ◌<◌, ◌≡◌, inl, inr, refl, sym, ap, ap₂, subst, ◌∙◌, true, false, List, [], ◌∷◌,
  ◌++◌, Option, none, some, arith, length, take, drop,
}
use suckless.Vis.Links.{Out, Out-split, last_or}
use suckless.Vis.Text.{Text, span_swap, span_init}
use suckless.Vis.Edit.{piece_init, piece_alloc, set_spans, delete_cut}
use suckless.Vis.Chain.{
  content, content-append, total, piece_bytes, slice, IsText, Below-Out, Stored, AllStored,
  AllStored_split,
}
use suckless.Vis.Swap.{chain-Held, Fwd-last}
use suckless.Vis.Back.{next_of, prev_of}
use suckless.Vis.Frame.{
  Beside, IsInit, piece_init-IsInit, piece_alloc-IsText, piece_alloc-content, piece_alloc-total,
  set_spans-Beside,
}
use suckless.Vis.Recorded.{IsSwapped, span_len_one, span_len-none, Distinct-add}
use suckless.Vis.Edited.{IsEdited, length_bytes, drop_all}
use suckless.Vis.Store.{same_or_apart}
use suckless.Vis.Agree.{Agrees, Agrees-refl, Heaped, kept-Agrees, kept_init, kept_start}
use suckless.Vis.Served.{deleted_missed, deleted-IsServed, none_has, one_has}
use suckless.Vis.Cut.{deleted, deleted_bytes}
use suckless.Vis.Deleted.{swap_segment, cut-Distinct, cut-Out, cut_length}
use suckless.Vis.Inside.{take-slice, drop-slice, filled}

-- Nothing is left of the last piece.
none_left : (t : Text) (q k : ℕ) → t.len q ≤ k → k ≤ t.len q → drop k (piece_bytes t q) ≡ []
none_left t q k h i =
    ap (λ n. drop n (piece_bytes t q)) {y = length (piece_bytes t q)}
      (omega (arith, h, i, length_bytes t q))
    ∙ drop_all (piece_bytes t q)

pub last-Stored :
    (t : Text) (y : ℕ) (l r : List ℕ) → AllStored t (y ∷ l ++ r) → Stored t (last_or y l)
last-Stored t y [] r h = h.0
last-Stored t y (z ∷ l) r h = last-Stored t z l r h.1

module _ (t : Text) (left : List ℕ) (a y : ℕ) (m : List ℕ) (b : ℕ) (right : List ℕ)
    (is : IsText t (left ++ a ∷ (y ∷ m ++ b ∷ right))) (some_bytes : 0 < total t (y ∷ m)) where
  -- From boundary to boundary.
  pub whole-IsEdited :
      (before at over : ℕ)
      → IsEdited t
          (delete_cut false false before a at (last_or y m) over t)
          (left ++ a ∷ (y ∷ m ++ b ∷ right))
          (deleted
            (content t (left ++ a ∷ (y ∷ m ++ b ∷ right)))
            (total t left + t.len a + 0)
            (total t (y ∷ m)))
  unfolding delete_cut span_init content
  whole-IsEdited before at over =
      let so = span_init t (t.next a) (some (last_or y m)) in
      let sn = span_init t none none in
      let swapped =
        swap_segment t (set_spans so sn t) left a y m b right [] (t.next a) sn
          (set_spans-Beside so sn t) is (next_of t.next left a (y ∷ m) b right is.linked.0)
          some_bytes (cut-Distinct left a (y ∷ m) b right is.distinct) (tt, tt)
          (span_len-none t.fresh t) tt tt
          (omega (arith, is.count, cut_length left a (y ∷ m) b right)) in
      record {
        base = t;
        recorded = set_spans so sn t;
        old = so;
        new = sn;
        chain = left ++ a ∷ (b ∷ right);
        base_text = is;
        base_bytes = refl;
        base_notes = (refl, refl, refl, refl);
        notes = refl;
        noted = set_spans-Beside so sn t;
        result = refl;
        swapped = swapped;
        bytes_are =
            content-append t left (a ∷ (b ∷ right))
            ∙ sym (
                deleted_bytes t left a y m b right 0 (total t (y ∷ m)) (omega arith) (omega arith)
                  (omega arith)
                ∙ ap (λ x. content t left ++ (piece_bytes t a ++ (x ++ content t (b ∷ right))))
                    (none_left t (last_or y m) _ (omega arith) (omega arith)));
        served = λ c.
            deleted-IsServed t _ so sn t.fresh _ swapped.only_links c (omega arith)
              (λ k p h. none_has k p _);
        kept = λ h. record {
          before = Agrees-refl t h;
          heaped = h;
          covers = λ c p o. absurd (
              ground (
                arith,
                (deleted_missed t _ so sn t.fresh swapped.only_links c (λ k p h. none_has k p _)).1
                    p o,
              ));
        };
      }

  -- The text with one new piece that points to a and b.
  module _ (pr nx : Option ℕ) (bl of n : ℕ) (back : pr ≡ some a) (ahead : nx ≡ some b)
      (some_left : 0 < n) (inside : bl < t.nblocks) (room : of + n ≤ (t.blocks bl).len) where
    abbrev with_part : Text
    with_part = piece_init t.fresh pr nx bl of n (piece_alloc 1 t)

    abbrev part : IsInit t.fresh pr nx bl of n (piece_alloc 1 t) with_part
    part = piece_init-IsInit t.fresh pr nx bl of n (piece_alloc 1 t)

    out : Out t.fresh (left ++ a ∷ (y ∷ m ++ b ∷ right))
    out = Below-Out t.fresh t.fresh _ (omega arith) is.below

    part-IsText : IsText with_part (left ++ a ∷ (y ∷ m ++ b ∷ right))
    part-IsText = part.away_text _ (piece_alloc-IsText 1 t _ is) out

    part_kept : (l : List ℕ) → Out t.fresh l → content with_part l ≡ content t l
    part_kept l h = part.away_content l h ∙ piece_alloc-content 1 t l

    part_total : total with_part (y ∷ m) ≡ total t (y ∷ m)
    part_total =
        let (ol, (oa, (oy, om))) = Out-split t.fresh left (a ∷ (y ∷ m ++ b ∷ right)) out in
        part.away_total (y ∷ m) (oy, (Out-split t.fresh m (b ∷ right) om).0)
        ∙ piece_alloc-total 1 t (y ∷ m)

    part-IsSwapped :
        (v : Text) (start : Option ℕ)
        → Beside with_part v
        → start ≡ some y
        → IsSwapped with_part v
            (span_init with_part start (some (last_or y m)))
            (span_init with_part (some t.fresh) (some t.fresh))
            (left ++ a ∷ (t.fresh ∷ b ∷ right))
    unfolding span_init piece_init total
    part-IsSwapped v start beside e =
        let size = span_len_one (t.fresh + 1) with_part t.fresh (omega arith) in
        swap_segment with_part v left a y m b right (t.fresh ∷ []) start
          (span_init with_part (some t.fresh) (some t.fresh)) beside part-IsText e
          (omega (arith, some_bytes, part_total))
          (Distinct-add left a (b ∷ right) t.fresh (cut-Distinct left a (y ∷ m) b right is.distinct)
            (cut-Out t.fresh left a (y ∷ m) b right out))
          ((part.here.1 ∙ ahead, tt), (part.here.2 ∙ back, tt))
          (omega (arith, size), omega (arith, size, part.here.0, some_left), refl, refl)
          (omega arith, tt) (part.here_stored inside room, tt)
          (omega (arith, is.count, cut_length left a (y ∷ m) b right))

    part-content :
        content with_part (left ++ a ∷ (t.fresh ∷ b ∷ right))
        ≡ content t left
          ++ (piece_bytes t a ++ (slice (t.blocks bl).bytes of n ++ content t (b ∷ right)))
    unfolding content
    part-content =
        let (ol, (oa, (oy, om))) = Out-split t.fresh left (a ∷ (y ∷ m ++ b ∷ right)) out in
        content-append with_part left (a ∷ (t.fresh ∷ b ∷ right))
        ∙ ap₂ (◌++◌) (part_kept left ol) (
            ap₂ (◌++◌) (part.away_bytes a oa) (
              ap₂ (◌++◌) part.here_bytes
                (part_kept (b ∷ right) (Out-split t.fresh m (b ∷ right) om).1)))

    part-Agrees : Heaped t → Agrees t with_part
    unfolding piece_init
    part-Agrees h = kept-Agrees t with_part (omega arith) refl (
        kept_init t.fresh pr nx bl of n t (piece_alloc 1 t) with_part t.fresh part (omega arith)
          (kept_start t h))

    part-Heaped : Heaped t → Heaped with_part
    unfolding piece_init
    part-Heaped h q k = elim (same_or_apart q t.fresh) [
      | inl e ↦ subst (Stored with_part) (sym e) (part.here_stored inside room)
      | inr e ↦ ((part-Agrees h).bytes q (omega (arith, k, e))).2
    ]

    part-IsEdited :
        (start : Option ℕ) (w : Text) (bytes : List ℕ)
        → let so = span_init with_part start (some (last_or y m)) in
          let sn = span_init with_part (some t.fresh) (some t.fresh) in
          start ≡ some y
          → w ≡ span_swap so sn (set_spans so sn with_part)
          → content t left
              ++ (piece_bytes t a ++ (slice (t.blocks bl).bytes of n ++ content t (b ∷ right)))
            ≡ bytes
          → IsEdited t w (left ++ a ∷ (y ∷ m ++ b ∷ right)) bytes
    unfolding piece_init span_init
    part-IsEdited start w bytes e r c =
        let so = span_init with_part start (some (last_or y m)) in
        let sn = span_init with_part (some t.fresh) (some t.fresh) in
        let swapped =
          part-IsSwapped (set_spans so sn with_part) start (set_spans-Beside so sn with_part) e in
        record {
          base = with_part;
          recorded = set_spans so sn with_part;
          old = so;
          new = sn;
          chain = left ++ a ∷ (t.fresh ∷ b ∷ right);
          base_text = part-IsText;
          base_bytes = part_kept _ out;
          base_notes = (refl, refl, refl, refl);
          notes = refl;
          noted = set_spans-Beside so sn with_part;
          result = r;
          swapped = swapped;
          bytes_are = part-content ∙ c;
          served = λ f.
              deleted-IsServed with_part w so sn t.fresh _
                (subst
                  (λ u. u ≡ record (set_spans so sn with_part) {
                    next = u.next;
                    prev = u.prev;
                    size = u.size;
                  })
                  (sym r) swapped.only_links)
                f (omega arith) (λ k p h. one_has k p t.fresh _ h);
          kept = λ h. record {
            before = part-Agrees h;
            heaped = part-Heaped h;
            covers = λ f p o. absurd (
                ground (
                  arith,
                  (deleted_missed with_part w so sn t.fresh
                        (subst
                          (λ u. u ≡ record (set_spans so sn with_part) {
                            next = u.next;
                            prev = u.prev;
                            size = u.size;
                          })
                          (sym r) swapped.only_links)
                        f (λ k p h. one_has k p t.fresh _ h)).1
                      p o,
                ));
          };
        }

  pub last_inside :
      0 < t.len (last_or y m)
      → (t.blk (last_or y m) < t.nblocks)
        × (t.off (last_or y m) + t.len (last_or y m) ≤ (t.blocks (t.blk (last_or y m))).len)
  last_inside h = filled t (last_or y m) h (
      last-Stored t y m (b ∷ right)
        (AllStored_split t left (a ∷ (y ∷ m ++ b ∷ right)) is.stored).1.1)

  pub next_last : t.next (last_or y m) ≡ some b
  next_last = Fwd-last t.next y m b (chain-Held t.next t.prev left a (y ∷ m) b right is.linked).0

  -- The bytes of the new piece behind the range.
  pub rest_bytes :
      (over k : ℕ)
      → over ≤ t.len (last_or y m)
      → k ≡ t.len (last_or y m) - over
      → slice
          (t.blocks (t.blk (last_or y m))).bytes
          (t.off (last_or y m) + t.len (last_or y m) - over)
          over
        ≡ drop k (piece_bytes t (last_or y m))
  rest_bytes over k h e =
      let q = last_or y m in
      let from : t.off q + t.len q - over ≡ t.off q + k = omega (arith, h, e) in
      let size : over ≡ t.len q - k = omega (arith, h, e) in
      ap₂ (slice (t.blocks (t.blk q)).bytes) from size
      ∙ sym (drop-slice (t.blocks (t.blk q)).bytes (t.off q) (t.len q) k (omega (arith, h, e)))

  -- The part of the last piece behind the range.
  pub end-IsEdited :
      (at over n : ℕ)
      → n + over ≡ total t (y ∷ m)
      → 0 < over
      → over < t.len (last_or y m)
      → IsEdited t
          (delete_cut false true a a at (last_or y m) over t)
          (left ++ a ∷ (y ∷ m ++ b ∷ right))
          (deleted (content t (left ++ a ∷ (y ∷ m ++ b ∷ right))) (total t left + t.len a + 0) n)
  unfolding delete_cut
  end-IsEdited at over n e h k =
      let q = last_or y m in
      let (inside, room) = last_inside (omega (arith, h, k)) in
      part-IsEdited (some a) (t.next q) (t.blk q) (t.off q + t.len q - over) over refl next_last h
        inside (omega (arith, room, k)) (t.next a) _ _
        (next_of t.next left a (y ∷ m) b right is.linked.0) refl
        (ap (λ x. content t left ++ (piece_bytes t a ++ (x ++ content t (b ∷ right))))
            (rest_bytes over (t.len q - (total t (y ∷ m) - (0 + n))) (omega (arith, k))
              (omega (arith, e)))
          ∙ sym (
              deleted_bytes t left a y m b right 0 n (omega arith) (omega (arith, e))
                (omega (arith, e, k))))

  -- The part of the first piece before the range.
  pub start-IsEdited :
      (at over n : ℕ)
      → at + n ≡ total t (y ∷ m)
      → 0 < at
      → at < t.len y
      → IsEdited t
          (delete_cut true false t.fresh y at (last_or y m) over (piece_alloc 1 t))
          (left ++ a ∷ (y ∷ m ++ b ∷ right))
          (deleted (content t (left ++ a ∷ (y ∷ m ++ b ∷ right))) (total t left + t.len a + at) n)
  unfolding delete_cut
  start-IsEdited at over n e h k =
      let q = last_or y m in
      let (inside, room) =
        filled t y (omega (arith, h, k))
          (AllStored_split t left (a ∷ (y ∷ m ++ b ∷ right)) is.stored).1.1.0 in
      part-IsEdited (t.prev y) (t.next q) (t.blk y) (t.off y) at
        (prev_of t.prev left a [] y (m ++ b ∷ right) is.linked.1) next_last h inside
        (omega (arith, room, k)) (some y) _ _ refl refl
        (ap (λ x. content t left ++ (piece_bytes t a ++ (x ++ content t (b ∷ right))))
            (sym (take-slice (t.blocks (t.blk y)).bytes (t.off y) (t.len y) at (omega (arith, k))))
          ∙ (ap
                (λ x.
                  content t left
                  ++ (piece_bytes t a
                      ++ (take at (piece_bytes t y) ++ (x ++ content t (b ∷ right)))))
                (sym (
                  none_left t q (t.len q - (total t (y ∷ m) - (at + n))) (omega (arith, e))
                    (omega arith)))
              ∙ sym (
                  deleted_bytes t left a y m b right at n (omega (arith, k)) (omega (arith, e))
                    (omega (arith, e)))))
