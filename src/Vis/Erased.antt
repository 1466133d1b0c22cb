-- ===== src/Vis/Erased.antt =====
-- vis/text.c, text_delete: the end of the operation at any place of a text.
use suckless.Prelude.{
  ℕ, ◌+◌, ◌-◌, ◌≤◌, ◌<◌, ◌≡◌, ◌⊎◌, inl, inr, sym, ap, ap₂, subst, ◌∙◌, Bool, true, false, not, ◌==◌,
  List, [], ◌∷◌, ◌++◌, arith, length, length-append,
}
use mathlib.Core.List.{append_assoc}
use suckless.Vis.Links.{Fwd, Fwd-split, last_or}
use suckless.Vis.Text.{Text, begin, ending}
use suckless.Vis.Edit.{skip_from, piece_alloc, delete_cut}
use suckless.Vis.Chain.{content, total, IsText, append_last}
use suckless.Vis.Frame.{piece_alloc-total}
use suckless.Vis.Edited.{IsEdited}
use suckless.Vis.Inserted.{equal_test}
use suckless.Vis.Skip.{reached, skip_from-IsSkipped}
use suckless.Vis.Cut.{deleted}
use suckless.Vis.Removed.{whole-IsEdited, end-IsEdited, start-IsEdited}
use suckless.Vis.Middle.{middle-IsEdited}

-- What delete_new does after its loop, and from its allocation on.
abbrev pub cut_stop : Bool → ℕ → ℕ → ℕ → ℕ → Text → ℕ × ℕ → Text
cut_stop midway_start before p at len t stop =
    delete_cut midway_start (not (stop.1 == len)) before p at stop.0 (stop.1 - len) t

pub equal_or_more : (m n : ℕ) → n ≤ m → (m ≡ n) ⊎ (n < m)
equal_or_more m n h = ground arith

not_equal : (m n : ℕ) → n < m → (m == n) ≡ false
not_equal m n h = ground arith

-- The loop stopped at the last piece of the segment y ∷ m, which starts behind the piece p.
behind_cut :
    (t : Text) (left : List ℕ) (p y : ℕ) (m : List ℕ) (b : ℕ) (r : List ℕ) (at len cur : ℕ)
    → IsText t (left ++ p ∷ (y ∷ m ++ b ∷ r))
    → cur ≡ total t (y ∷ m)
    → 0 < len
    → len ≤ cur
    → cur < len + t.len (last_or y m)
    → IsEdited t
        (cut_stop false p p at len t (last_or y m, cur))
        (left ++ p ∷ (y ∷ m ++ b ∷ r))
        (deleted (content t (left ++ p ∷ (y ∷ m ++ b ∷ r))) (total t left + t.len p + 0) len)
behind_cut t left p y m b r at len cur is size pos h i = elim (equal_or_more cur len h) [
  | inl e ↦ rw (equal_test cur len e) (
      subst
        (λ n.
          IsEdited t (delete_cut false false p p at (last_or y m) (cur - len) t)
            (left ++ p ∷ (y ∷ m ++ b ∷ r))
            (deleted (content t (left ++ p ∷ (y ∷ m ++ b ∷ r))) (total t left + t.len p + 0) n))
        (sym size ∙ e)
        (whole-IsEdited t left p y m b r is (omega (arith, size, pos, h)) p at (cur - len)))
  | inr more ↦ rw (not_equal cur len more) (
      end-IsEdited t left p y m b r is (omega (arith, size, pos, h)) at (cur - len) len
        (omega (arith, size, h)) (omega (arith, more)) (omega (arith, i, h)))
]

-- The loop stopped at the last piece of the segment y ∷ m, and the range starts within y.
within_cut :
    (t : Text) (left : List ℕ) (a y : ℕ) (m : List ℕ) (b : ℕ) (r : List ℕ) (at len cur : ℕ)
    → IsText t (left ++ a ∷ (y ∷ m ++ b ∷ r))
    → at + cur ≡ total t (y ∷ m)
    → 0 < at
    → at < t.len y
    → len ≤ cur
    → cur < len + t.len (last_or y m)
    → IsEdited t
        (cut_stop true t.fresh y at len (piece_alloc 1 t) (last_or y m, cur))
        (left ++ a ∷ (y ∷ m ++ b ∷ r))
        (deleted (content t (left ++ a ∷ (y ∷ m ++ b ∷ r))) (total t left + t.len a + at) len)
within_cut t left a y m b r at len cur is size pos in_piece h i = elim (equal_or_more cur len h) [
  | inl e ↦ rw (equal_test cur len e) (
      start-IsEdited t left a y m b r is (omega (arith, size, pos)) at (cur - len) len
        (omega (arith, size, e)) pos in_piece)
  | inr more ↦ rw (not_equal cur len more) (
      middle-IsEdited t left a y m b r is (omega (arith, size, pos)) at (cur - len) pos in_piece
        (omega (arith, more)) (omega (arith, i, h)) len (omega (arith, size, h)))
]

module _ (t : Text) (left : List ℕ) (p s : ℕ) (right : List ℕ) (at len : ℕ)
    (is : IsText t (left ++ p ∷ (s ∷ right))) (some_len : 0 < len)
    (in_text : at + len ≤ t.len p + total t (s ∷ right)) where
  chain_behind : Fwd t.next (p ∷ s ∷ right)
  chain_behind = (Fwd-split t.next left p (s ∷ right) is.linked.0).1

  ends_there : last_or s right ≡ ending
  ends_there = sym (append_last left begin p (s ∷ right)) ∙ is.final

  few : length right < t.fresh
  few = omega (arith, is.count, length-append {0} left (p ∷ (s ∷ right)))

  -- The deletion that starts behind the piece p.
  pub boundary-IsEdited :
      at ≡ t.len p
      → IsEdited t
          (cut_stop false p p at len t (skip_from t.fresh t len p 0))
          (left ++ p ∷ (s ∷ right))
          (deleted (content t (left ++ p ∷ (s ∷ right))) (total t left + at) len)
  boundary-IsEdited e =
      let stop =
        skip_from-IsSkipped t.fresh t len p 0 s right chain_behind ends_there is.ending_len few
          (omega (arith, in_text, e)) in
      subst
        (λ r.
          IsEdited t (cut_stop false p p at len t r) (left ++ p ∷ (s ∷ right))
            (deleted (content t (left ++ p ∷ (s ∷ right))) (total t left + at) len))
        (sym stop.result)
        (behind stop.skipped stop.succ stop.right stop.splits stop.reaches (stop.tight some_len)
          (stop.moves some_len))
    where
      behind :
          (d : List ℕ) (b : ℕ) (r : List ℕ)
          → s ∷ right ≡ d ++ b ∷ r
          → len ≤ 0 + total t d
          → 0 + total t d < len + t.len (last_or p d)
          → 0 < length d
          → IsEdited t
              (cut_stop false p p at len t (last_or p d, 0 + total t d))
              (left ++ p ∷ (s ∷ right))
              (deleted (content t (left ++ p ∷ (s ∷ right))) (total t left + at) len)
      behind [] b r f h i j = absurd (omega (arith, j))
      behind (y ∷ m) b r f h i j =
          let is' = subst (λ l. IsText t (left ++ p ∷ l)) f is in
          subst
            (λ l.
              IsEdited t (cut_stop false p p at len t (last_or y m, 0 + total t (y ∷ m)))
                (left ++ p ∷ l) (deleted (content t (left ++ p ∷ l)) (total t left + at) len))
            (sym f)
            (subst
              (λ n.
                IsEdited t (cut_stop false p p at len t (last_or y m, 0 + total t (y ∷ m)))
                  (left ++ p ∷ (y ∷ m ++ b ∷ r))
                  (deleted (content t (left ++ p ∷ (y ∷ m ++ b ∷ r))) n len))
              (omega (arith, e))
              (behind_cut t left p y m b r at len (0 + total t (y ∷ m)) is' (omega arith) some_len h
                i))

  -- The deletion that starts within the piece p, which has the piece a before it.
  pub midway-IsEdited :
      (before : List ℕ) (a n : ℕ)
      → left ≡ before ++ a ∷ []
      → n ≡ total t before + t.len a + at
      → 0 < at
      → at < t.len p
      → IsEdited t
          (cut_stop true t.fresh p at len
            (piece_alloc 1 t)
            (skip_from (t.fresh + 1) (piece_alloc 1 t) len p (t.len p - at)))
          (left ++ p ∷ (s ∷ right))
          (deleted (content t (left ++ p ∷ (s ∷ right))) n len)
  unfolding total
  midway-IsEdited before a n e f h i =
      let same = piece_alloc-total 1 t (s ∷ right) in
      let stop =
        skip_from-IsSkipped (t.fresh + 1) (piece_alloc 1 t) len p (t.len p - at) s right
          chain_behind ends_there is.ending_len (omega (arith, few))
          (omega (arith, in_text, same, i)) in
      let m = stop.skipped in
      let parts : left ++ p ∷ (s ∷ right) ≡ before ++ a ∷ (p ∷ m ++ stop.succ ∷ stop.right) =
        ap₂ (λ l r. l ++ p ∷ r) e stop.splits
        ∙ append_assoc before (a ∷ []) (p ∷ m ++ stop.succ ∷ stop.right) in
      let cur = t.len p - at + total (piece_alloc 1 t) m in
      let tight : cur < len + t.len (last_or p m) = elim (reached len (t.len p - at)) [
        | inl done ↦ omega (
          arith,
          h,
          i,
          some_len,
          done,
          ap (λ m. total (piece_alloc 1 t) m) (stop.stays done),
          ap (λ m. t.len (last_or p m)) (stop.stays done),
        )
        | inr more ↦ stop.tight more
      ] in
      subst
        (λ stop.
          IsEdited t (cut_stop true t.fresh p at len (piece_alloc 1 t) stop)
            (left ++ p ∷ (s ∷ right)) (deleted (content t (left ++ p ∷ (s ∷ right))) n len))
        (sym stop.result)
        (subst
          (λ l.
            IsEdited t (cut_stop true t.fresh p at len (piece_alloc 1 t) (last_or p m, cur)) l
              (deleted (content t l) n len))
          (sym parts)
          (subst
            (λ n.
              IsEdited t (cut_stop true t.fresh p at len (piece_alloc 1 t) (last_or p m, cur))
                (before ++ a ∷ (p ∷ m ++ stop.succ ∷ stop.right))
                (deleted (content t (before ++ a ∷ (p ∷ m ++ stop.succ ∷ stop.right))) n len))
            (sym f)
            (within_cut t before a p m stop.succ stop.right at len cur (subst (IsText t) parts is)
              (omega (arith, i, piece_alloc-total 1 t m)) h i stop.reaches tight)))
