-- ===== src/St/Utf8/Encode.antt =====
-- utf8encode writes the UTF-8 form of RFC 3629.
use suckless.Prelude.{
  ℕ, ◌+◌, ◌/◌, ◌%◌, ◌^◌, ◌≤◌, ◌<◌, bit_and, bit_or, ◌≡◌, refl, ap, ◌∙◌, ◌-◌, Bool, true, ◌||◌, List,
  [], ◌∷◌, ltb, ◌==◌, ==_iff, if◌then◌else◌, between, drop, arith,
}
use mathlib.Core.Path.{ap₂}
use suckless.Prelude.Bits.{holds_to, holds_to_at, bit_or-mod, bit_and-mod}
use suckless.St.Utf8.{
  utf_invalid, utfmax, utf8encodebyte, utf8encode_from, utf8encode, utf8validate, utf8valid_rune,
  utf8len_from,
}

-- The table of RFC 3629, section 3.
abbrev pub rfc3629 : ℕ → List ℕ
rfc3629 u =
    if ltb u 0x80
    then u ∷ []
    else if ltb u 0x800
    then (0xC0 + u / 64) ∷ (0x80 + u % 64) ∷ []
    else if ltb u 0x10000
    then (0xE0 + u / 4096) ∷ (0x80 + u / 64 % 64) ∷ (0x80 + u % 64) ∷ []
    else (0xF0 + u / 262144) ∷ (0x80 + u / 4096 % 64) ∷ (0x80 + u / 64 % 64) ∷ (0x80 + u % 64) ∷ []

-- `byte | (u & ~mask)` in a char, for a table entry.
abbrev low_byte : ℕ → ℕ → ℕ → ℕ
low_byte b m v = bit_or b (bit_and v (255 - m))

low_byte_lem :
    (b m u : ℕ)
    → b < 256
    → m < 256
    → bit_or b (bit_and u (2 ^ 32 - 1 - m)) % 256 ≡ low_byte b m (u % 256)
low_byte_lem b m u hb hm =
    bit_or-mod 8 b (bit_and u (2 ^ 32 - 1 - m))
    ∙ ap₂ bit_or fits (bit_and-mod 8 u (2 ^ 32 - 1 - m) ∙ ap (bit_and (u % 256)) cut)
  where
    fits : b % 256 ≡ b
    fits = omega arith

    cut : (2 ^ 32 - 1 - m) % 256 ≡ 255 - m
    cut = omega arith

-- Every byte, for an entry whose mask keeps the digits below w.
table : ℕ → ℕ → ℕ → Bool
unfolding holds_to
table b m w = holds_to (λ v. low_byte b m v == b + v % w) 256

entry :
    (b m w u : ℕ)
    → b < 256
    → m < 256
    → table b m w ≡ true
    → bit_or b (bit_and u (2 ^ 32 - 1 - m)) % 256 ≡ b + u % 256 % w
unfolding table
entry b m w u hb hm t =
    low_byte_lem b m u hb hm
    ∙ (==_iff _ _).0 (holds_to_at (λ v. low_byte b m v == b + v % w) 256 (u % 256) (omega arith) t)

pub utf8encodebyte_tail : (u : ℕ) → utf8encodebyte u 0 ≡ 0x80 + u % 64
unfolding utf8encodebyte table
utf8encodebyte_tail u = omega (arith, entry 0x80 0xC0 64 u (omega arith) (omega arith) refl)

pub utf8encodebyte_one : (u : ℕ) → u < 0x80 → utf8encodebyte u 1 ≡ u
unfolding utf8encodebyte table
utf8encodebyte_one u h = omega (arith, entry 0 0x80 128 u (omega arith) (omega arith) refl)

pub utf8encodebyte_two : (u : ℕ) → u < 32 → utf8encodebyte u 2 ≡ 0xC0 + u
unfolding utf8encodebyte table
utf8encodebyte_two u h = omega (arith, entry 0xC0 0xE0 32 u (omega arith) (omega arith) refl)

pub utf8encodebyte_three : (u : ℕ) → u < 16 → utf8encodebyte u 3 ≡ 0xE0 + u
unfolding utf8encodebyte table
utf8encodebyte_three u h = omega (arith, entry 0xE0 0xF0 16 u (omega arith) (omega arith) refl)

pub utf8encodebyte_four : (u : ℕ) → u < 8 → utf8encodebyte u 4 ≡ 0xF0 + u
unfolding utf8encodebyte table
utf8encodebyte_four u h = omega (arith, entry 0xF0 0xF8 8 u (omega arith) (omega arith) refl)

encode_valid :
    (v : ℕ)
    → v ≤ 0x10FFFF
    → let len = utf8len_from (drop 1 utfmax) 1 v in
      (if ltb 4 len then [] else utf8encode_from (len - 1) v len []) ≡ rfc3629 v
unfolding utf8len_from utf8encode_from
encode_valid v h = ground (
  arith,
  utf8encodebyte_tail v,
  utf8encodebyte_tail (v / 64),
  utf8encodebyte_tail (v / 64 / 64),
  utf8encodebyte_one v,
  utf8encodebyte_two (v / 64),
  utf8encodebyte_three (v / 64 / 64),
  utf8encodebyte_four (v / 64 / 64 / 64),
)

-- The bytes of the RFC for a rune that it can carry, for any other those of U+FFFD.
pub utf8encode-rfc3629 :
    (u : ℕ)
    → utf8encode u ≡ rfc3629 (if between u 0xD800 0xDFFF || ltb 0x10FFFF u then utf_invalid else u)
unfolding utf8encode utf8validate utf8valid_rune
utf8encode-rfc3629 u = ground (arith, encode_valid u, encode_valid 0xFFFD)
