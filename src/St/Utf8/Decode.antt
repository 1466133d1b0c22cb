-- ===== src/St/Utf8/Decode.antt =====
-- utf8decode reads what utf8encode writes, and reads nothing else as a rune.
use suckless.Prelude.{
  ℕ, ◌+◌, ◌-◌, ◌*◌, ◌/◌, ◌%◌, ◌^◌, ◌≤◌, ◌<◌, bit_or, ◌≡◌, ◌⊎◌, refl, ap, ◌∙◌, Bool, true, ◌&&◌,
  List, [], ◌∷◌, ◌++◌, ltb, ◌==◌, ==_iff, if◌then◌else◌, between, arith, length,
}
use suckless.Prelude.Bits.{holds_to, holds_to_at, bit_or_shifted}
use suckless.St.Utf8.{
  utf_invalid, utf8decodebyte, utf8decode_from, utf8decode, utf8encode, utf8validate,
  utf8valid_rune,
}
use suckless.St.Utf8.Encode.{rfc3629, utf8encode-rfc3629}

-- What the tables say of a byte.
abbrev pub byte_class : ℕ → ℕ × ℕ
byte_class c =
    if ltb c 0x80
    then (c, 1)
    else if ltb c 0xC0
    then (c - 0x80, 0)
    else if ltb c 0xE0
    then (c - 0xC0, 2)
    else if ltb c 0xF0
    then (c - 0xE0, 3)
    else if ltb c 0xF8
    then (c - 0xF0, 4)
    else (0, 5)

same_class : ℕ → Bool
unfolding utf8decodebyte
same_class c = (utf8decodebyte c).0 == (byte_class c).0 && (utf8decodebyte c).1 == (byte_class c).1

class_table : holds_to same_class 256 ≡ true
unfolding holds_to same_class
class_table = refl

utf8decodebyte_class :
    (c : ℕ)
    → c < 256
    → ((utf8decodebyte c).0 ≡ (byte_class c).0) × ((utf8decodebyte c).1 ≡ (byte_class c).1)
unfolding same_class
utf8decodebyte_class c h =
    let t = holds_to_at same_class 256 c h class_table in
    ground (
      arith,
      t,
      ==_iff (utf8decodebyte c).0 (byte_class c).0,
      ==_iff (utf8decodebyte c).1 (byte_class c).1,
    )

-- One more continuation byte.
shift_in : (u v : ℕ) → u < 2 ^ 26 → v < 64 → bit_or (u * 2 ^ 6 % 2 ^ 32) v ≡ u * 64 + v
shift_in u v hu hv = ap (λ k. bit_or k v) fits ∙ bit_or_shifted 6 u v hv
  where
    fits : u * 2 ^ 6 % 2 ^ 32 ≡ u * 2 ^ 6
    fits = omega arith

-- The loop at a byte, by the class of the byte.
pub utf8decode_from_cons :
    (c : ℕ) (cs : List ℕ) (j len u : ℕ)
    → c < 256
    → u < 2 ^ 26
    → j < len
    → utf8decode_from (c ∷ cs) j len u ≡ (
        if between c 0x80 0xBF
        then utf8decode_from cs (j + 1) len (u * 64 + (c - 0x80))
        else (j, utf_invalid))
unfolding utf8decode_from
utf8decode_from_cons c cs j len u hc hu hj =
    ground (arith, utf8decodebyte_class c hc, shift_in u (c - 0x80) hu)

pub utf8decode_from_end :
    (cs : List ℕ) (len u : ℕ) → utf8decode_from cs len len u ≡ (len, utf8valid_rune u len)
unfolding utf8decode_from utf8validate
utf8decode_from_end [] len u = ground arith
utf8decode_from_end (c ∷ cs) len u = ground arith

-- The four forms, by the class of the lead byte.
pub lead :
    (c : ℕ) (cs : List ℕ)
    → c < 256
    → utf8decode (c ∷ cs) ≡ (
        if between (byte_class c).1 1 4
        then utf8decode_from cs 1 (byte_class c).1 (byte_class c).0
        else (1, utf_invalid))
unfolding utf8decode
lead c cs h = ground (arith, utf8decodebyte_class c h)

-- A continuation byte of the table.
tail_step :
    (x : ℕ) (cs : List ℕ) (j len u : ℕ)
    → x < 64
    → u < 2 ^ 26
    → j < len
    → utf8decode_from ((0x80 + x) ∷ cs) j len u ≡ utf8decode_from cs (j + 1) len (u * 64 + x)
tail_step x cs j len u hx hu hj =
    utf8decode_from_cons (0x80 + x) cs j len u (omega arith) hu hj ∙ ground arith

one_byte : (u : ℕ) (rest : List ℕ) → u < 0x80 → utf8decode (u ∷ rest) ≡ (1, u)
unfolding utf8valid_rune
one_byte u rest h = ground (arith, lead u rest, utf8decode_from_end rest 1 u)

two_bytes :
    (a b : ℕ) (rest : List ℕ)
    → a < 32
    → b < 64
    → utf8decode ((0xC0 + a) ∷ (0x80 + b) ∷ rest) ≡ (2, utf8valid_rune (a * 64 + b) 2)
two_bytes a b rest ha hb =
    lead (0xC0 + a) ((0x80 + b) ∷ rest) (omega arith)
    ∙ ground (arith, tail_step b rest 1 2 a, utf8decode_from_end rest 2 (a * 64 + b))

three_bytes :
    (a b c : ℕ) (rest : List ℕ)
    → a < 16
    → b < 64
    → c < 64
    → utf8decode ((0xE0 + a) ∷ (0x80 + b) ∷ (0x80 + c) ∷ rest)
      ≡ (3, utf8valid_rune ((a * 64 + b) * 64 + c) 3)
three_bytes a b c rest ha hb hc =
    lead (0xE0 + a) ((0x80 + b) ∷ (0x80 + c) ∷ rest) (omega arith)
    ∙ ground (
      arith,
      tail_step b ((0x80 + c) ∷ rest) 1 3 a,
      tail_step c rest 2 3 (a * 64 + b),
      utf8decode_from_end rest 3 ((a * 64 + b) * 64 + c),
    )

four_bytes :
    (a b c d : ℕ) (rest : List ℕ)
    → a < 8
    → b < 64
    → c < 64
    → d < 64
    → utf8decode ((0xF0 + a) ∷ (0x80 + b) ∷ (0x80 + c) ∷ (0x80 + d) ∷ rest)
      ≡ (4, utf8valid_rune (((a * 64 + b) * 64 + c) * 64 + d) 4)
four_bytes a b c d rest ha hb hc hd =
    lead (0xF0 + a) ((0x80 + b) ∷ (0x80 + c) ∷ (0x80 + d) ∷ rest) (omega arith)
    ∙ ground (
      arith,
      tail_step b ((0x80 + c) ∷ (0x80 + d) ∷ rest) 1 4 a,
      tail_step c ((0x80 + d) ∷ rest) 2 4 (a * 64 + b),
      tail_step d rest 3 4 ((a * 64 + b) * 64 + c),
      utf8decode_from_end rest 4 (((a * 64 + b) * 64 + c) * 64 + d),
    )

-- A Unicode scalar value.
abbrev pub IsScalar : ℕ → Type 0
IsScalar u = (u ≤ 0x10FFFF) × ((u < 0xD800) ⊎ (0xDFFF < u))

rfc3629-decode :
    (u : ℕ) (rest : List ℕ) → IsScalar u → utf8decode (rfc3629 u ++ rest) ≡ (length (rfc3629 u), u)
unfolding utf8valid_rune
rfc3629-decode u rest h = ground (
  arith,
  one_byte u rest,
  two_bytes (u / 64) (u % 64) rest,
  three_bytes (u / 4096) (u / 64 % 64) (u % 64) rest,
  four_bytes (u / 262144) (u / 4096 % 64) (u / 64 % 64) (u % 64) rest,
)

-- Decoding what was encoded gives the rune back, and reads its bytes exactly, whatever follows.
pub utf8decode-utf8encode :
    (u : ℕ) (rest : List ℕ)
    → IsScalar u
    → utf8decode (utf8encode u ++ rest) ≡ (length (utf8encode u), u)
utf8decode-utf8encode u rest h = rw utf8encode-rfc3629 (ground (arith, rfc3629-decode u rest))
