-- ===== src/St/Base64/Bounds.antt =====
-- base64dec stays within the buffer that it allocates.
use suckless.Prelude.{
  ℕ, zero, suc, ◌+◌, ◌*◌, ◌/◌, ◌≤◌, ◌<◌, ◌≡◌, ◌≢◌, ◌⊎◌, inl, inr, refl, Bool, true, false, List, [],
  ◌∷◌, ◌++◌, arith, if◌then◌else◌, length, length-append,
}
use suckless.St.Base64.{
  base64dec_getc, base64_group, base64dec_from, base64dec, base64_size, digit_of, pad,
}

-- A call reads at least one character, or reaches the end and gives '='.
getc_reads :
    (isprint : ℕ → Bool) (src : List ℕ)
    → let (c, rest) = base64dec_getc isprint src in
      (length rest < length src) ⊎ ((length rest ≡ 0) × (c ≡ b'='))
unfolding base64dec_getc
getc_reads isprint [] = ground arith
getc_reads isprint (c ∷ cs) = ground (arith, getc_reads isprint cs)

group_size : (a b c d : ℕ) → length (base64_group a b c d).0 ≤ 3
unfolding base64_group
group_size a b c d = ground arith

group_more :
    (a b c d : ℕ) → (base64_group a b c d).1 ≡ true → (a ≢ pad) × (b ≢ pad) × (c ≢ pad) × (d ≢ pad)
unfolding base64_group
group_more a b c d h = ground arith

base64dec_from_nil : (isprint : ℕ → Bool) (fuel : ℕ) → base64dec_from isprint fuel [] ≡ []
unfolding base64dec_from
base64dec_from_nil isprint zero = refl
base64dec_from_nil isprint (suc fuel) = refl

-- The length that a round leaves, when it read four characters or met the end.
four_reads :
    (isprint : ℕ → Bool) (src : List ℕ)
    → let s4 =
        (base64dec_getc isprint
          (base64dec_getc isprint (base64dec_getc isprint (base64dec_getc isprint src).1).1).1).1 in
      (length s4 + 4 ≤ length src) ⊎ (length s4 ≡ 0)
four_reads isprint src =
    let s1 = (base64dec_getc isprint src).1 in
    let s2 = (base64dec_getc isprint s1).1 in
    let s3 = (base64dec_getc isprint s2).1 in
    ground (
      arith,
      getc_reads isprint src,
      getc_reads isprint s1,
      getc_reads isprint s2,
      getc_reads isprint s3,
    )

nil_of_length : (xs : List ℕ) → length xs ≡ 0 → xs ≡ []
nil_of_length [] h = refl
nil_of_length (x ∷ xs) h = absurd (omega arith)

-- A round that stores at most three bytes, and what the rounds behind it store.
round_length :
    (more : Bool) (bytes rest : List ℕ) (n m : ℕ)
    → length bytes ≤ 3
    → (m + 4 ≤ n) ⊎ ((m ≡ 0) × (length rest ≡ 0))
    → 0 < n
    → length rest ≤ (m + 3) / 4 * 3
    → length (bytes ++ (if more then rest else [])) ≤ (n + 3) / 4 * 3
round_length true bytes rest n m hb (inl h) hn hr = omega (arith, length-append bytes rest)
round_length true bytes rest n m hb (inr h) hn hr = omega (arith, length-append bytes rest)
round_length false bytes rest n m hb h hn hr = omega (arith, length-append bytes [])

base64dec_from-le :
    (isprint : ℕ → Bool) (fuel : ℕ) (src : List ℕ)
    → length (base64dec_from isprint fuel src) ≤ (length src + 3) / 4 * 3
unfolding base64dec_from
base64dec_from-le isprint zero src = omega arith
base64dec_from-le isprint (suc fuel) [] = omega arith
base64dec_from-le isprint (suc fuel) (s ∷ src) =
    round_length _ _ (base64dec_from isprint fuel s4) (suc (length src)) (length s4)
      (group_size (digit_of g1.0) (digit_of g2.0) (digit_of g3.0) (digit_of g4.0)) ends
      (omega arith) (base64dec_from-le isprint fuel s4)
  where
    g1 : ℕ × List ℕ
    g1 = base64dec_getc isprint (s ∷ src)

    g2 : ℕ × List ℕ
    g2 = base64dec_getc isprint g1.1

    g3 : ℕ × List ℕ
    g3 = base64dec_getc isprint g2.1

    g4 : ℕ × List ℕ
    g4 = base64dec_getc isprint g3.1

    s4 : List ℕ
    s4 = g4.1

    ends :
        (length s4 + 4 ≤ suc (length src))
        ⊎ ((length s4 ≡ 0) × (length (base64dec_from isprint fuel s4) ≡ 0))
    ends = elim (four_reads isprint (s ∷ src)) [
      | inl h ↦ inl h
      | inr h ↦ inr (h, rw (nil_of_length s4 h, base64dec_from_nil isprint fuel))
    ]

-- Whatever the text and the locale, the bytes that base64dec stores and the NUL behind them fit the
-- buffer that it allocated.
pub base64dec-fits :
    (isprint : ℕ → Bool) (src : List ℕ)
    → length (base64dec isprint src) + 1 ≤ base64_size (length src)
unfolding base64dec base64_size
base64dec-fits isprint src = ground (arith, base64dec_from-le isprint (length src) src)
