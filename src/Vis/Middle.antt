-- ===== src/Vis/Middle.antt =====
-- vis/text.c, text_delete: the deletion that starts and stops midway through a piece.
use suckless.Prelude.{
  ℕ, ◌+◌, ◌-◌, ◌<◌, ◌≡◌, ◌⊎◌, inl, inr, refl, sym, ap, ap₂, subst, ◌∙◌, true, List, [], ◌∷◌, ◌++◌,
  some, arith, take, drop,
}
use mathlib.Core.List.{append_assoc}
use suckless.Vis.Links.{Fwd, Held, Out, Out-split, Distinct, last_or}
use suckless.Vis.Text.{Text, span_init, span_len}
use suckless.Vis.Edit.{piece_init, piece_alloc, set_spans, delete_cut}
use suckless.Vis.Chain.{
  content, content-append, total, piece_bytes, IsText, Below-Out, Below-split, Stored, AllStored,
  AllStored_split,
}
use suckless.Vis.Back.{next_of, prev_of}
use suckless.Vis.Frame.{
  IsInit, piece_init-IsInit, piece_alloc-IsText, piece_alloc-content, piece_alloc-total,
  set_spans-Beside,
}
use suckless.Vis.Recorded.{span_len_one, span_len_more, Distinct-add, Out-middle}
use suckless.Vis.Edited.{IsEdited}
use suckless.Vis.Agree.{Agrees, Heaped, kept-Agrees, kept_init, kept_start}
use suckless.Vis.Served.{deleted_missed, deleted-IsServed, two_has}
use suckless.Vis.Cut.{deleted, deleted_bytes}
use suckless.Vis.Deleted.{swap_segment, cut-Distinct, cut-Out, cut_length}
use suckless.Vis.Inside.{take-slice, filled}
use suckless.Vis.Removed.{last_inside, next_last, rest_bytes}

module _ (t : Text) (left : List ℕ) (a y : ℕ) (m : List ℕ) (b : ℕ) (right : List ℕ)
    (is : IsText t (left ++ a ∷ (y ∷ m ++ b ∷ right))) (some_bytes : 0 < total t (y ∷ m))
    (at over : ℕ) (some_before : 0 < at) (at_within : at < t.len y) (some_after : 0 < over)
    (over_within : over < t.len (last_or y m)) where
  abbrev wide : Text
  wide = piece_alloc 1 (piece_alloc 1 t)

  abbrev with_end : Text
  with_end =
      piece_init (t.fresh + 1) (some t.fresh) (t.next (last_or y m)) (t.blk (last_or y m))
        (t.off (last_or y m) + t.len (last_or y m) - over) over wide

  abbrev with_both : Text
  with_both =
      piece_init t.fresh (with_end.prev y) (some (t.fresh + 1)) (with_end.blk y) (with_end.off y) at
        with_end

  abbrev last :
      IsInit
        (t.fresh + 1)
        (some t.fresh)
        (t.next (last_or y m))
        (t.blk (last_or y m))
        (t.off (last_or y m) + t.len (last_or y m) - over)
        over
        wide
        with_end
  last =
      piece_init-IsInit (t.fresh + 1) (some t.fresh) (t.next (last_or y m)) (t.blk (last_or y m))
        (t.off (last_or y m) + t.len (last_or y m) - over) over wide

  abbrev first :
      IsInit t.fresh
        (with_end.prev y)
        (some (t.fresh + 1))
        (with_end.blk y)
        (with_end.off y)
        at
        with_end
        with_both
  first =
      piece_init-IsInit t.fresh (with_end.prev y) (some (t.fresh + 1)) (with_end.blk y)
        (with_end.off y) at with_end

  abbrev both : List ℕ
  both = t.fresh ∷ (t.fresh + 1) ∷ []

  out : (n : ℕ) → Out (t.fresh + n) (left ++ a ∷ (y ∷ m ++ b ∷ right))
  out n = Below-Out t.fresh (t.fresh + n) _ (omega arith) is.below

  Out-fresh : Out t.fresh (left ++ a ∷ (y ∷ m ++ b ∷ right))
  Out-fresh = Below-Out t.fresh t.fresh _ (omega arith) is.below

  both-IsText : IsText with_both (left ++ a ∷ (y ∷ m ++ b ∷ right))
  both-IsText =
      first.away_text _
        (last.away_text _ (piece_alloc-IsText 1 (piece_alloc 1 t) _ (piece_alloc-IsText 1 t _ is))
          (out 1))
        Out-fresh

  both_kept : (l : List ℕ) → Out t.fresh l → Out (t.fresh + 1) l → content with_both l ≡ content t l
  both_kept l h k =
      first.away_content l h
      ∙ (last.away_content l k
          ∙ (piece_alloc-content 1 (piece_alloc 1 t) l ∙ piece_alloc-content 1 t l))

  both_total : total with_both (y ∷ m) ≡ total t (y ∷ m)
  both_total =
      let (ol, (oa, (oy, om))) = Out-split t.fresh left (a ∷ (y ∷ m ++ b ∷ right)) Out-fresh in
      let (pl, (pa, (py, pm))) = Out-split (t.fresh + 1) left (a ∷ (y ∷ m ++ b ∷ right)) (out 1) in
      first.away_total (y ∷ m) (oy, (Out-split t.fresh m (b ∷ right) om).0)
      ∙ (last.away_total (y ∷ m) (py, (Out-split (t.fresh + 1) m (b ∷ right) pm).0)
          ∙ (piece_alloc-total 1 (piece_alloc 1 t) (y ∷ m) ∙ piece_alloc-total 1 t (y ∷ m)))

  y_below : y < t.fresh
  y_below = (Below-split t.fresh left (a ∷ (y ∷ m ++ b ∷ right)) is.below).1.1.0

  both-Held : Held with_both.next with_both.prev a both b
  both-Held =
      let l = first.away (t.fresh + 1) (λ e. omega (arith, e)) in
      let y_prev = (last.away y (λ e. omega (arith, e, y_below))).2 in
      let back = prev_of t.prev left a [] y (m ++ b ∷ right) is.linked.1 in
      (
        (first.here.1, (l.1 ∙ (last.here.1 ∙ next_last t left a y m b right is some_bytes), tt)),
        (first.here.2 ∙ (y_prev ∙ back), (l.2 ∙ last.here.2, tt)),
      )

  both-Stored : AllStored with_both both
  unfolding piece_init
  both-Stored =
      let (inside, room) =
        last_inside t left a y m b right is some_bytes (omega (arith, over_within)) in
      let same = (last.away y (λ e. omega (arith, e, y_below))).0 in
      let stored =
        last.away_stored y (λ e. omega (arith, e, y_below))
          (AllStored_split t left (a ∷ (y ∷ m ++ b ∷ right)) is.stored).1.1.0 in
      let (y_inside, y_room) = filled with_end y (omega (arith, same, at_within)) stored in
      (
        first.here_stored y_inside (omega (arith, y_room, same, at_within)),
        (
          first.away_stored (t.fresh + 1) (λ e. omega (arith, e))
              (last.here_stored inside (omega (arith, room, over_within))),
          tt,
        ),
      )

  both_len :
      (k : ℕ)
      → 1 < k
      → (span_len k with_both (some t.fresh) (some (t.fresh + 1)) ≡ total with_both both)
        × (0 < span_len k with_both (some t.fresh) (some (t.fresh + 1)))
  unfolding total
  both_len k h =
      let more =
        span_len_more k with_both t.fresh (t.fresh + 1) (omega (arith, h))
          (λ e. omega (arith, e)) in
      let step = ap (λ q. span_len (k - 1) with_both q (some (t.fresh + 1))) first.here.1 in
      let one = span_len_one (k - 1) with_both (t.fresh + 1) (omega (arith, h)) in
      (omega (arith, more, step, one), omega (arith, more, first.here.0, some_before))

  both-Distinct : Distinct (left ++ a ∷ (both ++ b ∷ right))
  both-Distinct =
      let rest = cut-Distinct left a (y ∷ m) b right is.distinct in
      let free : Out t.fresh (left ++ a ∷ (b ∷ right)) =
        cut-Out t.fresh left a (y ∷ m) b right Out-fresh in
      let free1 = cut-Out (t.fresh + 1) left a (y ∷ m) b right (out 1) in
      Distinct-add left a ((t.fresh + 1) ∷ b ∷ right) t.fresh
        (Distinct-add left a (b ∷ right) (t.fresh + 1) rest free1)
        (Out-middle t.fresh left a (b ∷ right) (t.fresh + 1) free (λ e. omega (arith, e)))

  both-content :
      content with_both (left ++ a ∷ (both ++ b ∷ right))
      ≡ content t left
        ++ (piece_bytes t a
            ++ (take at (piece_bytes t y)
                ++ (drop (t.len (last_or y m) - over) (piece_bytes t (last_or y m))
                    ++ content t (b ∷ right))))
  unfolding content piece_init
  both-content =
      let (ol, (oa, (oy, om))) = Out-split t.fresh left (a ∷ (y ∷ m ++ b ∷ right)) Out-fresh in
      let (pl, (pa, (py, pm))) = Out-split (t.fresh + 1) left (a ∷ (y ∷ m ++ b ∷ right)) (out 1) in
      let same = (last.away y (λ e. omega (arith, e, y_below))).0 in
      let before =
        first.here_bytes
        ∙ (sym (
              take-slice (with_end.blocks (with_end.blk y)).bytes (with_end.off y) (with_end.len y)
                at (omega (arith, same, at_within)))
            ∙ ap (take at) (last.away_bytes y (λ e. omega (arith, e, y_below)))) in
      let after =
        first.away_bytes (t.fresh + 1) (λ e. omega (arith, e))
        ∙ (last.here_bytes
            ∙ rest_bytes t left a y m b right is some_bytes over (t.len (last_or y m) - over)
                (omega (arith, over_within)) refl) in
      content-append with_both left (a ∷ (both ++ b ∷ right))
      ∙ ap₂ (◌++◌) (both_kept left ol pl) (
          ap₂ (◌++◌) (first.away_bytes a oa ∙ last.away_bytes a pa) (
            ap₂ (◌++◌) before (
              ap₂ (◌++◌) after (
                both_kept (b ∷ right) (Out-split t.fresh m (b ∷ right) om).1
                  (Out-split (t.fresh + 1) m (b ∷ right) pm).1))))

  both_next :
      (u : Text) → IsText u (left ++ a ∷ (both ++ b ∷ right)) → u.next t.fresh ≡ some (t.fresh + 1)
  both_next u is =
      next_of u.next (left ++ a ∷ []) t.fresh [] (t.fresh + 1) (b ∷ right)
        (subst (Fwd u.next) (sym (append_assoc left (a ∷ []) (both ++ b ∷ right))) is.linked.0)

  both-Agrees : Heaped t → Agrees t with_both
  unfolding piece_init
  both-Agrees h = kept-Agrees t with_both (omega arith) refl (
      kept_init _ _ _ _ _ _ t with_end with_both t.fresh first (omega arith)
        (kept_init _ _ _ _ _ _ t wide with_end t.fresh last (omega arith) (kept_start t h)))

  both_cases : (q : ℕ) → q < t.fresh + 1 + 1 → (q < t.fresh) ⊎ ((q ≡ t.fresh) ⊎ (q ≡ t.fresh + 1))
  both_cases q k = ground (arith, k)

  both-Heaped : Heaped t → Heaped with_both
  unfolding piece_init
  both-Heaped h q k =
      let (s0, (s1, _)) = both-Stored in
      elim (both_cases q k) [
        | inl e ↦ ((both-Agrees h).bytes q e).2
        | inr r ↦ elim r [
          | inl e ↦ subst (Stored with_both) (sym e) s0
          | inr e ↦ subst (Stored with_both) (sym e) s1
        ]
      ]

  -- Both parts of the pieces at the ends of the range stay.
  pub middle-IsEdited :
      (n : ℕ)
      → at + n + over ≡ total t (y ∷ m)
      → IsEdited t
          (delete_cut true true t.fresh y at (last_or y m) over (piece_alloc 1 t))
          (left ++ a ∷ (y ∷ m ++ b ∷ right))
          (deleted (content t (left ++ a ∷ (y ∷ m ++ b ∷ right))) (total t left + t.len a + at) n)
  unfolding delete_cut piece_init span_init
  middle-IsEdited n e =
      let so = span_init with_both (some y) (some (last_or y m)) in
      let sn = span_init with_both (some t.fresh) (some (t.fresh + 1)) in
      let (size, pos) = both_len (t.fresh + 1 + 1) (omega arith) in
      let swapped =
        swap_segment with_both (set_spans so sn with_both) left a y m b right both (some y) sn
          (set_spans-Beside so sn with_both) both-IsText refl
          (omega (arith, both_total, some_bytes)) both-Distinct both-Held (size, pos, refl, refl)
          (omega arith, (omega arith, tt)) both-Stored
          (omega (arith, is.count, cut_length left a (y ∷ m) b right)) in
      record {
        base = with_both;
        recorded = set_spans so sn with_both;
        old = so;
        new = sn;
        chain = left ++ a ∷ (both ++ b ∷ right);
        base_text = both-IsText;
        base_bytes = both_kept _ Out-fresh (out 1);
        base_notes = (refl, refl, refl, refl);
        notes = refl;
        noted = set_spans-Beside so sn with_both;
        result = refl;
        swapped = swapped;
        bytes_are =
            both-content
            ∙ (ap
                  (λ k.
                    content t left
                    ++ (piece_bytes t a
                        ++ (take at (piece_bytes t y)
                            ++ (drop k (piece_bytes t (last_or y m)) ++ content t (b ∷ right)))))
                  {y = t.len (last_or y m) - (total t (y ∷ m) - (at + n))} (omega (arith, e))
                ∙ sym (
                    deleted_bytes t left a y m b right at n (omega (arith, at_within))
                      (omega (arith, e)) (omega (arith, e, over_within))));
        served = λ c.
            deleted-IsServed with_both _ so sn t.fresh _ swapped.only_links c (omega arith)
              (λ k p h. two_has k p t.fresh _ h (both_next _ swapped.text));
        kept = λ h. record {
          before = both-Agrees h;
          heaped = both-Heaped h;
          covers = λ c p o. absurd (
              ground (
                arith,
                (deleted_missed with_both _ so sn t.fresh swapped.only_links c
                      (λ k p h. two_has k p t.fresh _ h (both_next _ swapped.text))).1
                    p o,
              ));
        };
      }
