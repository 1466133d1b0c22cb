-- ===== src/St/Edit/Wide.antt =====
-- st/st.c, tsetchar: the two halves of wide characters.
use suckless.Prelude.{
  ℕ, suc, ◌+◌, ◌-◌, ◌<◌, ◌≡◌, ◌≢◌, refl, sym, subst, Bool, true, false, not, ◌&&◌, ◌||◌, arith,
  ◌==◌, if◌then◌else◌, put_at, get_or, between, ◌⊎◌, inl, inr,
}
use suckless.St.Term.{Term, Line, Glyph, attr_wide, attr_wdummy, cs_graphic0}
use suckless.St.Edit.{vt100_0, tsetchar, stored, translated, split_wide}
use suckless.St.Edit.Cells.{split_wide_at}

-- The wide glyphs of a line are those that have a dummy on their right, and no glyph is both; the
-- first column has no dummy.
pub record IsPaired (col : ℕ) (l : Line) : Type 0 where
  pub halves : (i : ℕ) → suc i < col → (l i).mode attr_wide ≡ (l (suc i)).mode attr_wdummy
  pub first : (l 0).mode attr_wdummy ≡ false
  pub apart : (i : ℕ) → ((l i).mode attr_wide && (l i).mode attr_wdummy) ≡ false

-- The line with the glyph g, which is neither half of a wide character, at x.
module _ (col x : ℕ) (l : Line) (g : Glyph) (p : IsPaired col l) (hx : x < col)
    (gw : g.mode attr_wide ≡ false) (gd : g.mode attr_wdummy ≡ false) where
  abbrev written : Line
  written = put_at (split_wide col x l) x g

  written_halves :
      (i : ℕ) → suc i < col → (written i).mode attr_wide ≡ (written (suc i)).mode attr_wdummy
  written_halves i h =
      ground
        (arith, split_wide_at col x l i, split_wide_at col x l (suc i), p.halves i h, p.apart x)

  written_first : (written 0).mode attr_wdummy ≡ false
  written_first = ground (arith, split_wide_at col x l 0, p.first)

  written_apart : (i : ℕ) → ((written i).mode attr_wide && (written i).mode attr_wdummy) ≡ false
  written_apart i = ground (arith, split_wide_at col x l i, p.apart i)

  -- Whether the cell i holds the other half of a wide character that is at x.
  abbrev is_cut : ℕ → Bool
  is_cut i = (i == x + 1 && (l x).mode attr_wide) || (suc i == x && (l i).mode attr_wide)

  written_rune : (i : ℕ) → i < col → i ≢ x → (written i).u ≡ (if is_cut i then b' ' else (l i).u)
  written_rune i h k = ground (arith, split_wide_at col x l i, p.halves i, p.apart x)

  written_colours :
      (i : ℕ) → i < col → i ≢ x → ((written i).fg ≡ (l i).fg) × ((written i).bg ≡ (l i).bg)
  written_colours i h k = ground (arith, split_wide_at col x l i)

  written_attributes :
      (i b : ℕ)
      → i < col
      → i ≢ x
      → (written i).mode b ≡ ((l i).mode b && not (is_cut i && (b == 9 || b == 10)))
  written_attributes i b h k =
      ground (arith, split_wide_at col x l i, p.halves i, p.halves x, p.apart x, p.apart i)

  written-IsPaired : IsPaired col written
  written-IsPaired = record {
    halves = written_halves;
    first = written_first;
    apart = written_apart;
  }

if-IsPaired :
    (col : ℕ) (b : Bool) (l m : Line)
    → IsPaired col l
    → IsPaired col m
    → IsPaired col (if b then l else m)
if-IsPaired col true l m p q = p
if-IsPaired col false l m p q = q

put_at_twice : (f : ℕ → Line) (l : Line) (x y : ℕ) (g : Glyph) → put_at f y (put_at l x g) y x ≡ g
put_at_twice f l x y g = ground arith

-- The glyph h shows the rune u in the colours of g, with its attributes, and is marked if u is one of
-- the characters that are drawn as boxes.
pub record Shows (box : Bool) (u : ℕ) (g h : Glyph) : Type 0 where
  pub rune : h.u ≡ u
  pub colours : (h.fg ≡ g.fg) × (h.bg ≡ g.bg)
  pub attributes : (b : ℕ) → h.mode b ≡ (g.mode b || (b == 11 && box))

stored-Shows : (t : Term) (u : ℕ) (g : Glyph) → Shows (t.isboxdraw u) u g (stored t u g)
stored-Shows t u g = record { rune = refl; colours = (refl, refl); attributes = λ b. ground arith }

-- The glyph h is what is left of g; if g is half of a character that was cut, it is a space and no
-- half any more.
pub record IsLeft (cut : Bool) (g h : Glyph) : Type 0 where
  pub rune : h.u ≡ (if cut then b' ' else g.u)
  pub colours : (h.fg ≡ g.fg) × (h.bg ≡ g.bg)
  pub attributes : (b : ℕ) → h.mode b ≡ (g.mode b && not (cut && (b == 9 || b == 10)))

put_at_row : (f : ℕ → Line) (l : Line) (y : ℕ) → put_at f y l y ≡ l
put_at_row f l y = ground arith

same_or_apart : (i j : ℕ) → (i ≡ j) ⊎ (i ≢ j)
same_or_apart i j = ground arith

written-IsLeft :
    (col x : ℕ) (l : Line) (g : Glyph)
    → IsPaired col l
    → x < col
    → g.mode attr_wide ≡ false
    → g.mode attr_wdummy ≡ false
    → (i : ℕ) → i < col
    → (i ≡ x)
      ⊎ IsLeft
          ((i == x + 1 && (l x).mode attr_wide) || (suc i == x && (l i).mode attr_wide))
          (l i)
          (put_at (split_wide col x l) x g i)
written-IsLeft col x l g p hx gw gd i hi = elim (same_or_apart i x) [
  | inl e ↦ inl e
  | inr e ↦ inr (record {
    rune = written_rune col x l g p hx gw gd i hi e;
    colours = written_colours col x l g p hx gw gd i hi e;
    attributes = λ b. written_attributes col x l g p hx gw gd i b hi e;
  })
]

-- On a screen whose wide characters are whole, a glyph that is neither half of one, written inside
-- the screen, leaves them whole on every row: of a character of which it covers one half, the other
-- half becomes a space. Nothing is written before the line. The cell shows the rune, or the one of the
-- line drawing set if that is selected and has one for it; all other cells are as they were.
pub tsetchar-IsPaired :
    (u : ℕ) (g : Glyph) (x y : ℕ) (t : Term) (j i : ℕ)
    → ((k : ℕ) → IsPaired t.col (t.line k))
    → x < t.col
    → i < t.col
    → g.mode attr_wide ≡ false
    → g.mode attr_wdummy ≡ false
    → let t' = tsetchar u g x y t in
      let l = t.line y in
      let d = get_or vt100_0 (u - 0x41) 0 in
      let graphic = t.trantbl t.charset == cs_graphic0 && between u 0x41 0x7E && not (d == 0) in
      let u' = if graphic then d else u in
      let cut = (i == x + 1 && (l x).mode attr_wide) || (suc i == x && (l i).mode attr_wide) in
      IsPaired t.col (t'.line j)
      × (t'.fault ≡ t.fault)
      × Shows (t.isboxdraw u') u' g (t'.line y x)
      × ((i ≡ x) ⊎ IsLeft cut (l i) (t'.line y i))
      × ((j ≡ y) ⊎ (t'.line j ≡ t.line j))
unfolding tsetchar translated
tsetchar-IsPaired u g x y t j i p hx hi gw gd = (
  if-IsPaired t.col (y == j) _ _
      (written-IsPaired t.col x (t.line y) new (p y) hx new_wide new_dummy) (p j),
  ground (arith, (p y).first),
  subst (Shows (t.isboxdraw (translated t u)) (translated t u) g)
      (sym (put_at_twice t.line (split_wide t.col x (t.line y)) x y new))
      (stored-Shows t (translated t u) g),
  subst (λ m. (i ≡ x) ⊎ IsLeft cut (t.line y i) (m i))
      (sym (put_at_row t.line (put_at (split_wide t.col x (t.line y)) x new) y))
      (written-IsLeft t.col x (t.line y) new (p y) hx new_wide new_dummy i hi),
  ground arith,
)
  where
    new : Glyph
    new = stored t (translated t u) g

    cut : Bool
    cut = (i == x + 1 && (t.line y x).mode attr_wide) || (suc i == x && (t.line y i).mode attr_wide)

    new_wide : new.mode attr_wide ≡ false
    new_wide = ground (arith, gw)

    new_dummy : new.mode attr_wdummy ≡ false
    new_dummy = ground (arith, gd)
