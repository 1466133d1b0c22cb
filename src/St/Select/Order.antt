-- ===== src/St/Select/Order.antt =====
-- st/st.c, selnormalize and selected: which cells a regular selection covers.
use suckless.Prelude.{
  ℕ, ◌-◌, ◌<◌, ◌≡◌, ◌≢◌, ◌⊎◌, inl, inr, refl, ◌∙◌, ap, ap₂, Bool, true, false, not, ◌&&◌, ◌||◌,
  arith, ltb, leb, ◌==◌, if◌then◌else◌, eq_bool, min,
}
use suckless.Prelude.Int.{pos, negsuc, ◌-ℤ◌, ltb_ℤ, leb_ℤ}
use suckless.St.Term.{Term, Selection, Point, sel_regular, sel_empty, mode_altscreen}
use suckless.St.Select.{
  eq_ℤ, tlinelen, ordered, expanded, selsnap, normalized, selnormalize, selected,
}

-- Whether the position (x, y) is (x', y') or before it in reading order.
abbrev pub in_order : ℕ → ℕ → ℕ → ℕ → Bool
in_order x y x' y' = ltb y y' || (y == y' && leb x x')

-- The left end of the selection, on its row.
from_text : (n a x : ℕ) → leb (if ltb n a then n else a) x ≡ leb (min a n) (min x n)
from_text n a x = ground arith

to_text :
    (n col b x : ℕ) → x < col → leb x (if leb n b then col - 1 else b) ≡ leb (min x n) (min b n)
to_text n col b x h = ground arith

-- The cells of a selection from (a, i) to (b, k), by the ends that the expansion gives; n, m and l are
-- the lengths of the rows of the ends and of the cell (x, j).
sorted_cells :
    (n m l col a i b k x j : ℕ)
    → (j ≡ i → l ≡ n)
    → (j ≡ k → l ≡ m)
    → (i ≡ k → n ≡ m)
    → x < col
    → in_order a i b k ≡ true
    → (leb i j
        && leb j k
        && (not (j == i) || leb (if ltb n a then n else a) x)
        && (not (j == k) || leb x (if leb m b then col - 1 else b)))
      ≡ (in_order (min a n) i (min x l) j && in_order (min x l) j (min b m) k)
sorted_cells n m l col a i b k x j e1 e2 e3 h o =
    rw (from_text n a x, to_text m col b x h) (ground arith)

-- The other direction adds nothing.
other_way :
    (a i b k x j : ℕ)
    → in_order a i b k ≡ true
    → let p = in_order a i x j && in_order x j b k in
      let q = in_order b k x j && in_order x j a i in (p ≡ (p || q)) × (p ≡ (q || p))
other_way a i b k x j o = ground arith

clamped_order :
    (n m a i b k : ℕ)
    → (i ≡ k → n ≡ m)
    → in_order a i b k ≡ true
    → in_order (min a n) i (min b m) k ≡ true
clamped_order n m a i b k e o = ground arith

-- A regular selection that is there, without snapping, on the screen.
abbrev pub IsDragged : Term → Type 0
IsDragged t =
    (t.sel.type ≡ sel_regular)
    × (t.sel.snap ≡ 0)
    × (t.sel.mode ≢ sel_empty)
    × (t.sel.alt ≡ t.mode mode_altscreen)

selsnap_none : (t : Term) (f : Bool) (p : Point) → t.sel.snap ≡ 0 → selsnap t f p ≡ p
unfolding selsnap
selsnap_none t f p h = rw h refl

abbrev pub point : ℕ → ℕ → Point
point x y = record { x = pos x; y = pos y }

eq_bool_self : (b : Bool) → eq_bool b b ≡ true
eq_bool_self true = refl
eq_bool_self false = refl

differs : (a b : ℕ) → a ≢ b → (a == b) ≡ false
differs a b h = ground (arith, h)

same_row : (i j : ℕ) → eq_ℤ (pos j) (pos i) ≡ (j == i)
same_row i j = ground arith

not_after : (i j : ℕ) → leb_ℤ (pos i) (pos j) ≡ leb i j
not_after i j = ground arith

there : (c : ℕ) → eq_ℤ (pos c) (negsuc 0) ≡ false
there c = ground arith

from_pos :
    (n a : ℕ) → (if ltb_ℤ (pos n) (pos a) then pos n else pos a) ≡ pos (if ltb n a then n else a)
from_pos n a = ground arith

to_pos :
    (m b col : ℕ)
    → 0 < col
    → (if leb_ℤ (pos m) (pos b) then pos col -ℤ pos 1 else pos b)
      ≡ pos (if leb m b then col - 1 else b)
to_pos m b col h = ground arith

module _ (t : Term) (a i b k c : ℕ) (d : IsDragged t)
    (o : ordered t.sel ≡ (point a i, point b k)) where
  abbrev n : ℕ
  n = tlinelen t i

  abbrev m : ℕ
  m = tlinelen t k

  expanded_ends :
      0 < t.col
      → expanded t (point a i) (point b k)
        ≡ (point (if ltb n a then n else a) i, point (if leb m b then t.col - 1 else b) k)
  expanded_ends h =
      ap₂ (λ p q. (record { x = p; y = pos i }, record { x = q; y = pos k })) (from_pos n a)
        (to_pos m b t.col h)

  normalized_nb : 0 < t.col → (normalized t).nb ≡ point (if ltb n a then n else a) i
  unfolding normalized
  normalized_nb h = rw (o, d.0, d.1) (ap (λ e. e.0) (expanded_ends h))

  normalized_ne : 0 < t.col → (normalized t).ne ≡ point (if leb m b then t.col - 1 else b) k
  unfolding normalized
  normalized_ne h = rw (o, d.0, d.1) (ap (λ e. e.1) (expanded_ends h))

  -- The cells between the two ends.
  selected_ends :
      (x j : ℕ)
      → 0 < t.col
      → t.sel.ob.x ≡ pos c
      → selected (selnormalize t) (pos x) (pos j) ≡ (
          leb i j
          && leb j k
          && (not (j == i) || leb (if ltb n a then n else a) x)
          && (not (j == k) || leb x (if leb m b then t.col - 1 else b)))
  unfolding selected selnormalize normalized
  selected_ends x j h l =
      let empty = differs t.sel.mode sel_empty d.2 in
      let lo = if ltb n a then n else a in
      let hi = if leb m b then t.col - 1 else b in
      rw
        (
          normalized_nb h,
          normalized_ne h,
          same_row i j,
          same_row k j,
          not_after i j,
          not_after j k,
          not_after lo x,
          not_after x hi,
          empty,
          l,
          there c,
          d.3,
          d.0,
          eq_bool_self,
        )
        refl

-- The positions of a row past its text count as one, the line break.
abbrev pub in_text : Term → ℕ → ℕ → ℕ
in_text t x y = min x (tlinelen t y)

-- Whether (x, y) is between (a, i) and (b, k) in reading order, counted so.
abbrev pub reads_between : Term → ℕ → ℕ → ℕ → ℕ → ℕ → ℕ → Bool
reads_between t a i b k x y =
    in_order (in_text t a i) i (in_text t x y) y && in_order (in_text t x y) y (in_text t b k) k

-- A selection whose ends are ordered so, the first of them (a, i).
selected_sorted :
    (t : Term) (a i b k c x j : ℕ)
    → IsDragged t
    → ordered t.sel ≡ (point a i, point b k)
    → t.sel.ob.x ≡ pos c
    → x < t.col
    → in_order a i b k ≡ true
    → (selected (selnormalize t) (pos x) (pos j)
        ≡ (reads_between t a i b k x j || reads_between t b k a i x j))
      × (selected (selnormalize t) (pos x) (pos j)
          ≡ (reads_between t b k a i x j || reads_between t a i b k x j))
selected_sorted t a i b k c x j d o l h r =
    let rows = selected_ends t a i b k c d o x j (omega (arith, h)) l in
    let cells =
      sorted_cells (tlinelen t i) (tlinelen t k) (tlinelen t j) t.col a i b k x j
        (λ e. ap (tlinelen t) e) (λ e. ap (tlinelen t) e) (λ e. ap (tlinelen t) e) h r in
    let both =
      other_way (in_text t a i) i (in_text t b k) k (in_text t x j) j
        (clamped_order (tlinelen t i) (tlinelen t k) a i b k (λ e. ap (tlinelen t) e) r) in
    (rows ∙ cells ∙ both.0, rows ∙ cells ∙ both.1)

one_way : (a i b k : ℕ) → (in_order a i b k ≡ true) ⊎ (in_order b k a i ≡ true)
one_way a i b k = ground arith

module _ (s : Selection) (a i b k : ℕ) (r : s.type ≡ sel_regular) (p : s.ob ≡ point a i)
    (q : s.oe ≡ point b k) where
  ordered_down : in_order a i b k ≡ true → ordered s ≡ (point a i, point b k)
  ordered_down h = rw (r, p, q) (ground arith)

  ordered_up : in_order b k a i ≡ true → ordered s ≡ (point b k, point a i)
  ordered_up h = rw (r, p, q) (ground arith)

-- After selnormalize, a regular selection without snapping, dragged between two positions in any
-- direction, selects exactly the cells that are read between the two, where the cells of a row past
-- its text count as one position, its line break.
pub selected-selnormalize :
    (t : Term) (a i b k x j : ℕ)
    → IsDragged t
    → t.sel.ob ≡ point a i
    → t.sel.oe ≡ point b k
    → x < t.col
    → selected (selnormalize t) (pos x) (pos j)
      ≡ (reads_between t a i b k x j || reads_between t b k a i x j)
selected-selnormalize t a i b k x j d p q h = elim (one_way a i b k) [
  | inl r ↦
      (selected_sorted t a i b k a x j d (ordered_down t.sel a i b k d.0 p q r) (ap (λ z. z.x) p) h
        r).0
  | inr r ↦
      (selected_sorted t b k a i a x j d (ordered_up t.sel a i b k d.0 p q r) (ap (λ z. z.x) p) h
        r).1
]
