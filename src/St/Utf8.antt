-- ===== src/St/Utf8.antt =====
-- st/st.c, the UTF-8 codec: utf8decode, utf8decodebyte, utf8encode, utf8encodebyte, utf8validate
-- and their tables. A Rune is a number below 2^32, a char is the number of its byte.
pub mod Encode
pub mod Decode
pub mod Sound
pub mod Partial
use suckless.Prelude.{
  ℕ, zero, suc, ◌+◌, ◌-◌, ◌*◌, ◌/◌, ◌%◌, ◌^◌, bit_and, bit_or, Bool, ◌||◌, not, List, [], ◌∷◌, ltb,
  ◌==◌, if◌then◌else◌, between, get_or, drop,
}

abbrev pub utf_invalid : ℕ
utf_invalid = 0xFFFD

abbrev pub utf_siz : ℕ
utf_siz = 4

abbrev pub utfbyte : List ℕ
utfbyte = 0x80 ∷ 0 ∷ 0xC0 ∷ 0xE0 ∷ 0xF0 ∷ []

abbrev pub utfmask : List ℕ
utfmask = 0xC0 ∷ 0x80 ∷ 0xE0 ∷ 0xF0 ∷ 0xF8 ∷ []

abbrev pub utfmin : List ℕ
utfmin = 0 ∷ 0 ∷ 0x80 ∷ 0x800 ∷ 0x10000 ∷ []

abbrev pub utfmax : List ℕ
utfmax = 0x10FFFF ∷ 0x7F ∷ 0x7FF ∷ 0xFFFF ∷ 0x10FFFF ∷ []

-- The loop of utf8decodebyte from index i on, over the rest of the two tables.
pub utf8decodebyte_from : List ℕ → List ℕ → ℕ → ℕ → ℕ × ℕ
utf8decodebyte_from (m ∷ ms) (b ∷ bs) i c =
    if bit_and c m == b then (bit_and c (255 - m), i) else utf8decodebyte_from ms bs (i + 1) c
utf8decodebyte_from [] bs i c = (0, i)
utf8decodebyte_from (m ∷ ms) [] i c = (0, i)

-- The payload of a byte, and its index in the tables (5 if it has none).
unfoldable pub utf8decodebyte : ℕ → ℕ × ℕ
unfolding utf8decodebyte_from
utf8decodebyte c = utf8decodebyte_from utfmask utfbyte 0 c

-- `for (i = 1; *u > utfmax[i]; ++i)` over the rest of the table.
pub utf8len_from : List ℕ → ℕ → ℕ → ℕ
utf8len_from (m ∷ ms) i u = if ltb m u then utf8len_from ms (i + 1) u else i
utf8len_from [] i u = i

-- The rune that is left in *u.
unfoldable pub utf8valid_rune : ℕ → ℕ → ℕ
utf8valid_rune u i =
    if not (between u (get_or utfmin i 0) (get_or utfmax i 0)) || between u 0xD800 0xDFFF
    then utf_invalid
    else u

-- The rune and the length that utf8validate leaves.
unfoldable pub utf8validate : ℕ → ℕ → ℕ × ℕ
unfolding utf8len_from utf8valid_rune
utf8validate u i = let v = utf8valid_rune u i in (v, utf8len_from (drop 1 utfmax) 1 v)

-- The result is a char, so of the int only the low byte is left.
unfoldable pub utf8encodebyte : ℕ → ℕ → ℕ
utf8encodebyte u i = bit_or (get_or utfbyte i 0) (bit_and u (2 ^ 32 - 1 - get_or utfmask i 0)) % 256

-- The loop of utf8encode, i = len - 1, ..., 1, and the lead byte; `acc` is what stands in c behind i.
pub utf8encode_from : ℕ → ℕ → ℕ → List ℕ → List ℕ
utf8encode_from zero u len acc = utf8encodebyte u len ∷ acc
utf8encode_from (suc i) u len acc = utf8encode_from i (u / 2 ^ 6) len (utf8encodebyte u 0 ∷ acc)

-- The bytes written to c; their number is the result of the C function.
unfoldable pub utf8encode : ℕ → List ℕ
unfolding utf8encode_from utf8encodebyte utf8validate
utf8encode u =
    let (v, len) = utf8validate u 0 in
    if ltb utf_siz len then [] else utf8encode_from (len - 1) v len []

-- The loop of utf8decode at i = j, over the bytes from c[i] on, and what follows it.
pub utf8decode_from : List ℕ → ℕ → ℕ → ℕ → ℕ × ℕ
utf8decode_from [] j len u = if ltb j len then (0, utf_invalid) else (len, (utf8validate u len).0)
utf8decode_from (c ∷ cs) j len u =
    let rest = utf8decode_from cs (j + 1) len (bit_or (u * 2 ^ 6 % 2 ^ 32) (utf8decodebyte c).0) in
    if ltb j len
    then (if (utf8decodebyte c).1 == 0 then rest else (j, utf_invalid))
    else (len, (utf8validate u len).0)

-- The number of bytes read (0 if the sequence is incomplete) and the rune that is left in *u, for
-- the `clen` bytes at c.
unfoldable pub utf8decode : List ℕ → ℕ × ℕ
unfolding utf8decode_from utf8decodebyte utf8validate
utf8decode [] = (0, utf_invalid)
utf8decode (c ∷ cs) =
    let (u, len) = utf8decodebyte c in
    if between len 1 utf_siz then utf8decode_from cs 1 len u else (1, utf_invalid)
