-- ===== src/Vis/Chain.antt =====
-- What a text holds: its pieces in order and their bytes, and the invariant of the piece table.
use suckless.Prelude.{
  ℕ, zero, suc, ◌+◌, ◌≤◌, ◌<◌, ◌≡◌, ◌⊎◌, refl, ap, ap₂, List, [], ◌∷◌, ◌++◌, none, arith, length,
  length-append,
}
use mathlib.Core.List.{append_assoc}
use suckless.Vis.Links.{Linked, Distinct, Out, head_or, last_or}
use suckless.Vis.Text.{Text, begin, ending}

-- n bytes from offset i on.
abbrev pub slice : (ℕ → ℕ) → ℕ → ℕ → List ℕ
slice f i zero = []
slice f i (suc n) = f i ∷ slice f (i + 1) n

abbrev pub piece_bytes : Text → ℕ → List ℕ
piece_bytes t p = slice (t.blocks (t.blk p)).bytes (t.off p) (t.len p)

unfoldable pub content : Text → List ℕ → List ℕ
content t [] = []
content t (p ∷ l) = piece_bytes t p ++ content t l

unfoldable pub total : Text → List ℕ → ℕ
total t [] = 0
total t (p ∷ l) = t.len p + total t l

abbrev pub Below : ℕ → List ℕ → Type 0
Below n [] = Unit {0}
Below n (x ∷ l) = (x < n) × Below n l

-- The bytes of a piece lie in the used part of a block.
abbrev pub Stored : Text → ℕ → Type 0
Stored t p =
    (t.len p ≡ 0) ⊎ ((t.blk p < t.nblocks) × (t.off p + t.len p ≤ (t.blocks (t.blk p)).len))

abbrev pub AllStored : Text → List ℕ → Type 0
AllStored t [] = Unit {0}
AllStored t (p ∷ l) = Stored t p × AllStored t l

-- The chain of pieces l, from the sentinel `begin` to the sentinel `ending`, is linked both ways, and
-- the text's size is that of its pieces.
pub record IsText (t : Text) (l : List ℕ) : Type 0 where
  pub linked : Linked t.next t.prev l
  pub distinct : Distinct l
  pub first : head_or l ending ≡ begin
  pub final : last_or begin l ≡ ending
  pub closed : t.next ending ≡ none
  pub begin_len : t.len begin ≡ 0
  pub ending_len : t.len ending ≡ 0
  pub below : Below t.fresh l
  pub count : length l ≤ t.fresh
  pub stored : AllStored t l
  pub sized : t.size ≡ total t l

pub length-slice : (f : ℕ → ℕ) (i n : ℕ) → length (slice f i n) ≡ n
length-slice f i zero = refl
length-slice f i (suc n) = ap suc (length-slice f (i + 1) n)

pub content-append : (t : Text) (l m : List ℕ) → content t (l ++ m) ≡ content t l ++ content t m
unfolding content
content-append t [] m = refl
content-append t (p ∷ l) m = simp (content-append t l m, append_assoc)

pub total-append : (t : Text) (l m : List ℕ) → total t (l ++ m) ≡ total t l + total t m
unfolding total
total-append t [] m = omega arith
total-append t (p ∷ l) m = omega (arith, total-append t l m)

pub length-content : (t : Text) (l : List ℕ) → length (content t l) ≡ total t l
unfolding content total
length-content t [] = refl
length-content t (p ∷ l) = omega (
  arith,
  length-append {0} (piece_bytes t p) (content t l),
  length-content t l,
  length-slice (t.blocks (t.blk p)).bytes (t.off p) (t.len p),
)

pub Below-Out : (n x : ℕ) (l : List ℕ) → n ≤ x → Below n l → Out x l
Below-Out n x [] h b = tt
Below-Out n x (y ∷ l) h b = ((λ e. omega (arith, e)), Below-Out n x l h b.1)

pub Below-mono : (n m : ℕ) (l : List ℕ) → n ≤ m → Below n l → Below m l
Below-mono n m [] h b = tt
Below-mono n m (x ∷ l) h b = (omega arith, Below-mono n m l h b.1)

pub Below-append : (n : ℕ) (l m : List ℕ) → Below n l → Below n m → Below n (l ++ m)
Below-append n [] m p q = q
Below-append n (x ∷ l) m p q = (p.0, Below-append n l m p.1 q)

pub Below-split : (n : ℕ) (l m : List ℕ) → Below n (l ++ m) → Below n l × Below n m
Below-split n [] m p = (tt, p)
Below-split n (x ∷ l) m p = let (q, r) = Below-split n l m p.1 in ((p.0, q), r)

pub AllStored-append :
    (t : Text) (l m : List ℕ) → AllStored t l → AllStored t m → AllStored t (l ++ m)
AllStored-append t [] m p q = q
AllStored-append t (x ∷ l) m p q = (p.0, AllStored-append t l m p.1 q)

pub AllStored_split :
    (t : Text) (l m : List ℕ) → AllStored t (l ++ m) → AllStored t l × AllStored t m
AllStored_split t [] m p = (tt, p)
AllStored_split t (x ∷ l) m p = let (q, r) = AllStored_split t l m p.1 in ((p.0, q), r)

-- Texts whose pieces agree.
pub content_pointwise :
    (t u : Text) (l : List ℕ)
    → ((p : ℕ) → piece_bytes u p ≡ piece_bytes t p)
    → content u l ≡ content t l
unfolding content
content_pointwise t u [] h = refl
content_pointwise t u (p ∷ l) h = ap₂ (◌++◌) (h p) (content_pointwise t u l h)

pub total_pointwise :
    (t u : Text) (l : List ℕ) → ((p : ℕ) → u.len p ≡ t.len p) → total u l ≡ total t l
unfolding total
total_pointwise t u [] h = refl
total_pointwise t u (p ∷ l) h = ap₂ (◌+◌) (h p) (total_pointwise t u l h)

pub AllStored_pointwise :
    (t u : Text) (l : List ℕ) → ((p : ℕ) → Stored t p → Stored u p) → AllStored t l → AllStored u l
AllStored_pointwise t u [] h s = tt
AllStored_pointwise t u (p ∷ l) h s = (h p s.0, AllStored_pointwise t u l h s.1)

-- u has the pieces of t, with their bytes, and maybe more.
abbrev pub Extends : Text → Text → Type 0
Extends t u =
    (p : ℕ)
    → p < t.fresh
    → Stored t p
    → (u.len p ≡ t.len p) × (piece_bytes u p ≡ piece_bytes t p) × Stored u p

pub content-Extends :
    (t u : Text) (l : List ℕ)
    → Extends t u
    → Below t.fresh l
    → AllStored t l
    → (content u l ≡ content t l) × (total u l ≡ total t l) × AllStored u l
unfolding content total
content-Extends t u [] e b s = (refl, refl, tt)
content-Extends t u (p ∷ l) e b s =
    let (h, k, r) = e p b.0 s.0 in
    let (h', k', r') = content-Extends t u l e b.1 s.1 in
    (ap₂ (◌++◌) k h', omega (arith, h, k'), (r, r'))

pub append_head :
    (l : List ℕ) (a d : ℕ) (m n : List ℕ) → head_or (l ++ a ∷ m) d ≡ head_or (l ++ a ∷ n) d
append_head [] a d m n = refl
append_head (x ∷ l) a d m n = refl

pub append_last : (l : List ℕ) (d a : ℕ) (m : List ℕ) → last_or d (l ++ a ∷ m) ≡ last_or a m
append_last [] d a m = refl
append_last (x ∷ l) d a m = append_last l x a m
