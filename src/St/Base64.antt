-- ===== src/St/Base64.antt =====
-- st/st.c, base64_digits, base64dec_getc and base64dec. isprint is the C library's.
pub mod Bounds
use suckless.Prelude.{
  ℕ, zero, suc, ◌+◌, ◌-◌, ◌*◌, ◌/◌, ◌%◌, ◌^◌, bit_and, bit_or, Bool, true, false, List, [], ◌∷◌,
  ◌++◌, length, ◌==◌, if◌then◌else◌, get_or,
}

-- An entry of -1.
abbrev pub pad : ℕ
pad = 256

abbrev pub base64_digits : List ℕ
base64_digits =
    0 ∷ 0 ∷ 0 ∷ 0 ∷ 0 ∷ 0 ∷ 0 ∷ 0 ∷ 0 ∷ 0 ∷ 0 ∷ 0 ∷ 0 ∷ 0 ∷ 0 ∷ 0 ∷ 0 ∷ 0 ∷ 0 ∷ 0 ∷ 0 ∷ 0 ∷ 0 ∷ 0
    ∷ 0 ∷ 0 ∷ 0 ∷ 0 ∷ 0 ∷ 0 ∷ 0 ∷ 0 ∷ 0 ∷ 0 ∷ 0 ∷ 0 ∷ 0 ∷ 0 ∷ 0 ∷ 0 ∷ 0 ∷ 0 ∷ 0 ∷ 62 ∷ 0 ∷ 0 ∷ 0
    ∷ 63 ∷ 52 ∷ 53 ∷ 54 ∷ 55 ∷ 56 ∷ 57 ∷ 58 ∷ 59 ∷ 60 ∷ 61 ∷ 0 ∷ 0 ∷ 0 ∷ pad ∷ 0 ∷ 0 ∷ 0 ∷ 0 ∷ 1 ∷ 2
    ∷ 3 ∷ 4 ∷ 5 ∷ 6 ∷ 7 ∷ 8 ∷ 9 ∷ 10 ∷ 11 ∷ 12 ∷ 13 ∷ 14 ∷ 15 ∷ 16 ∷ 17 ∷ 18 ∷ 19 ∷ 20 ∷ 21 ∷ 22
    ∷ 23 ∷ 24 ∷ 25 ∷ 0 ∷ 0 ∷ 0 ∷ 0 ∷ 0 ∷ 0 ∷ 26 ∷ 27 ∷ 28 ∷ 29 ∷ 30 ∷ 31 ∷ 32 ∷ 33 ∷ 34 ∷ 35 ∷ 36
    ∷ 37 ∷ 38 ∷ 39 ∷ 40 ∷ 41 ∷ 42 ∷ 43 ∷ 44 ∷ 45 ∷ 46 ∷ 47 ∷ 48 ∷ 49 ∷ 50 ∷ 51 ∷ 0 ∷ 0 ∷ 0 ∷ 0 ∷ 0
    ∷ 0 ∷ 0 ∷ 0 ∷ 0 ∷ 0 ∷ 0 ∷ 0 ∷ 0 ∷ 0 ∷ 0 ∷ 0 ∷ 0 ∷ 0 ∷ 0 ∷ 0 ∷ 0 ∷ 0 ∷ 0 ∷ 0 ∷ 0 ∷ 0 ∷ 0 ∷ 0 ∷ 0
    ∷ 0 ∷ 0 ∷ 0 ∷ 0 ∷ 0 ∷ 0 ∷ 0 ∷ 0 ∷ 0 ∷ 0 ∷ 0 ∷ 0 ∷ 0 ∷ 0 ∷ 0 ∷ 0 ∷ 0 ∷ 0 ∷ 0 ∷ 0 ∷ 0 ∷ 0 ∷ 0 ∷ 0
    ∷ 0 ∷ 0 ∷ 0 ∷ 0 ∷ 0 ∷ 0 ∷ 0 ∷ 0 ∷ 0 ∷ 0 ∷ 0 ∷ 0 ∷ 0 ∷ 0 ∷ 0 ∷ 0 ∷ 0 ∷ 0 ∷ 0 ∷ 0 ∷ 0 ∷ 0 ∷ 0 ∷ 0
    ∷ 0 ∷ 0 ∷ 0 ∷ 0 ∷ 0 ∷ 0 ∷ 0 ∷ 0 ∷ 0 ∷ 0 ∷ 0 ∷ 0 ∷ 0 ∷ 0 ∷ 0 ∷ 0 ∷ 0 ∷ 0 ∷ 0 ∷ 0 ∷ 0 ∷ 0 ∷ 0 ∷ 0
    ∷ 0 ∷ 0 ∷ 0 ∷ 0 ∷ 0 ∷ 0 ∷ 0 ∷ 0 ∷ 0 ∷ 0 ∷ 0 ∷ 0 ∷ 0 ∷ 0 ∷ 0 ∷ 0 ∷ 0 ∷ 0 ∷ 0 ∷ 0 ∷ 0 ∷ 0 ∷ 0 ∷ 0
    ∷ 0 ∷ 0 ∷ 0 ∷ 0 ∷ 0 ∷ 0 ∷ 0 ∷ []

-- The byte that base64dec_getc returns, and the text from *src on behind it.
unfoldable pub base64dec_getc : (ℕ → Bool) → List ℕ → ℕ × List ℕ
base64dec_getc isprint [] = (b'=', [])
base64dec_getc isprint (c ∷ cs) = if isprint c then (c, cs) else base64dec_getc isprint cs

-- The table has 255 entries: the entry of the character 255 is read past its end, and is 0 here.
abbrev pub digit_of : ℕ → ℕ
digit_of c = get_or base64_digits c 0

-- The bytes that one round of the loop stores, from its four digits, and whether it goes on.
unfoldable pub base64_group : ℕ → ℕ → ℕ → ℕ → List ℕ × Bool
base64_group a b c d =
    let one = bit_or (a * 2 ^ 2) (bit_and b 0x30 / 2 ^ 4) % 256 in
    let two = bit_or (bit_and b 0x0F * 2 ^ 4) (bit_and c 0x3C / 2 ^ 2) % 256 in
    let three = bit_or (bit_and c 0x03 * 2 ^ 6) d % 256 in
    if a == pad
    then ([], false)
    else if b == pad
    then ([], false)
    else if c == pad
    then (one ∷ [], false)
    else if d == pad
    then (one ∷ two ∷ [], false)
    else (one ∷ two ∷ three ∷ [], true)

-- `while (*src)`; a round reads a character unless the text ends in it, so one round of fuel for
-- each character is enough.
unfoldable pub base64dec_from : (ℕ → Bool) → ℕ → List ℕ → List ℕ
base64dec_from isprint zero src = []
base64dec_from isprint (suc fuel) [] = []
base64dec_from isprint (suc fuel) (s ∷ src) =
    let (a, s1) = base64dec_getc isprint (s ∷ src) in
    let (b, s2) = base64dec_getc isprint s1 in
    let (c, s3) = base64dec_getc isprint s2 in
    let (d, s4) = base64dec_getc isprint s3 in
    let (bytes, more) = base64_group (digit_of a) (digit_of b) (digit_of c) (digit_of d) in
    let rest = base64dec_from isprint fuel s4 in bytes ++ (if more then rest else [])

-- The bytes stored before the final NUL.
unfoldable pub base64dec : (ℕ → Bool) → List ℕ → List ℕ
unfolding base64dec_from base64dec_getc base64_group
base64dec isprint src = base64dec_from isprint (length src) src

-- The size of the buffer that base64dec allocates.
unfoldable pub base64_size : ℕ → ℕ
base64_size n = (if n % 4 == 0 then n else n + (4 - n % 4)) / 4 * 3 + 1
