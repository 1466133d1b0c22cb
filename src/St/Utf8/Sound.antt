-- ===== src/St/Utf8/Sound.antt =====
-- What utf8decode accepts, and how far it reads.
use suckless.Prelude.{
  ℕ, ◌+◌, ◌-◌, ◌*◌, ◌≤◌, ◌<◌, ◌≡◌, ◌⊎◌, true, List, [], ◌∷◌, between, arith, length, take,
}
use suckless.St.Utf8.{utf_invalid, utf8decode_from, utf8decode, utf8valid_rune}
use suckless.St.Utf8.Encode.{rfc3629}
use suckless.St.Utf8.Decode.{IsScalar, lead, utf8decode_from_cons, utf8decode_from_end}

abbrev pub AllBytes : List ℕ → Type 0
AllBytes [] = Unit {0}
AllBytes (c ∷ cs) = (c < 256) × AllBytes cs

pub utf8decode_from_nil : (j len u : ℕ) → j < len → utf8decode_from [] j len u ≡ (0, utf_invalid)
unfolding utf8decode_from
utf8decode_from_nil j len u h = ground arith

-- What a call gives that read n bytes of cs and left u: nothing was read and fewer than four
-- bytes are there; or the rune is U+FFFD; or the bytes are the shortest form of the rune.
abbrev pub Outcome : List ℕ → ℕ × ℕ → Type 0
Outcome cs (n, u) =
    ((n ≡ 0) × (u ≡ utf_invalid) × (length cs < 4))
    ⊎ ((0 < n) × (n ≤ length cs) × (n ≤ 4) × (u ≡ utf_invalid))
    ⊎ ((n ≤ length cs) × IsScalar u × (take n cs ≡ rfc3629 u))

-- The bytes of a sequence up to its last, read into the runes below.
abbrev pub tail_of : ℕ → ℕ → ℕ
tail_of u c = u * 64 + (c - 0x80)

module _ (a : ℕ) (cs : List ℕ) where
  done1 : a < 0x80 → Outcome (a ∷ cs) (1, utf8valid_rune a 1)
  unfolding utf8valid_rune
  done1 h = ground arith

module _ (a b : ℕ) (cs : List ℕ) where
  done2 :
      between a 0xC0 0xDF ≡ true
      → between b 0x80 0xBF ≡ true
      → Outcome (a ∷ b ∷ cs) (2, utf8valid_rune (tail_of (a - 0xC0) b) 2)
  unfolding utf8valid_rune
  done2 ha hb = ground arith

module _ (a b c : ℕ) (cs : List ℕ) where
  done3 :
      between a 0xE0 0xEF ≡ true
      → between b 0x80 0xBF ≡ true
      → between c 0x80 0xBF ≡ true
      → Outcome (a ∷ b ∷ c ∷ cs) (3, utf8valid_rune (tail_of (tail_of (a - 0xE0) b) c) 3)
  unfolding utf8valid_rune
  done3 ha hb hc = ground arith

module _ (a b c d : ℕ) (cs : List ℕ) where
  done4 :
      between a 0xF0 0xF7 ≡ true
      → between b 0x80 0xBF ≡ true
      → between c 0x80 0xBF ≡ true
      → between d 0x80 0xBF ≡ true
      → Outcome
          (a ∷ b ∷ c ∷ d ∷ cs)
          (4, utf8valid_rune (tail_of (tail_of (tail_of (a - 0xF0) b) c) d) 4)
  unfolding utf8valid_rune
  done4 ha hb hc hd = ground arith

-- A sequence of two bytes, of three and of four, at each place where it may end.
module _ (a : ℕ) where
  class2 :
      (cs : List ℕ)
      → between a 0xC0 0xDF ≡ true
      → AllBytes cs
      → Outcome (a ∷ cs) (utf8decode_from cs 1 2 (a - 0xC0))
  class2 [] h k = ground (arith, utf8decode_from_nil 1 2 (a - 0xC0))
  class2 (b ∷ cs) h k = ground (
    arith,
    utf8decode_from_cons b cs 1 2 (a - 0xC0),
    utf8decode_from_end cs 2 (tail_of (a - 0xC0) b),
    done2 a b cs h,
  )

  class3_last :
      (b : ℕ) (cs : List ℕ)
      → between a 0xE0 0xEF ≡ true
      → between b 0x80 0xBF ≡ true
      → AllBytes cs
      → Outcome (a ∷ b ∷ cs) (utf8decode_from cs 2 3 (tail_of (a - 0xE0) b))
  class3_last b [] h hb k = ground (arith, utf8decode_from_nil 2 3 (tail_of (a - 0xE0) b))
  class3_last b (c ∷ cs) h hb k = ground (
    arith,
    utf8decode_from_cons c cs 2 3 (tail_of (a - 0xE0) b),
    utf8decode_from_end cs 3 (tail_of (tail_of (a - 0xE0) b) c),
    done3 a b c cs h hb,
  )

  class3 :
      (cs : List ℕ)
      → between a 0xE0 0xEF ≡ true
      → AllBytes cs
      → Outcome (a ∷ cs) (utf8decode_from cs 1 3 (a - 0xE0))
  class3 [] h k = ground (arith, utf8decode_from_nil 1 3 (a - 0xE0))
  class3 (b ∷ cs) h k = ground (arith, utf8decode_from_cons b cs 1 3 (a - 0xE0), class3_last b cs h)

  class4_last :
      (b c : ℕ) (cs : List ℕ)
      → between a 0xF0 0xF7 ≡ true
      → between b 0x80 0xBF ≡ true
      → between c 0x80 0xBF ≡ true
      → AllBytes cs
      → Outcome (a ∷ b ∷ c ∷ cs) (utf8decode_from cs 3 4 (tail_of (tail_of (a - 0xF0) b) c))
  class4_last b c [] h hb hc k =
      ground (arith, utf8decode_from_nil 3 4 (tail_of (tail_of (a - 0xF0) b) c))
  class4_last b c (d ∷ cs) h hb hc k = ground (
    arith,
    utf8decode_from_cons d cs 3 4 (tail_of (tail_of (a - 0xF0) b) c),
    utf8decode_from_end cs 4 (tail_of (tail_of (tail_of (a - 0xF0) b) c) d),
    done4 a b c d cs h hb hc,
  )

  class4_third :
      (b : ℕ) (cs : List ℕ)
      → between a 0xF0 0xF7 ≡ true
      → between b 0x80 0xBF ≡ true
      → AllBytes cs
      → Outcome (a ∷ b ∷ cs) (utf8decode_from cs 2 4 (tail_of (a - 0xF0) b))
  class4_third b [] h hb k = ground (arith, utf8decode_from_nil 2 4 (tail_of (a - 0xF0) b))
  class4_third b (c ∷ cs) h hb k =
      ground (arith, utf8decode_from_cons c cs 2 4 (tail_of (a - 0xF0) b), class4_last b c cs h hb)

  class4 :
      (cs : List ℕ)
      → between a 0xF0 0xF7 ≡ true
      → AllBytes cs
      → Outcome (a ∷ cs) (utf8decode_from cs 1 4 (a - 0xF0))
  class4 [] h k = ground (arith, utf8decode_from_nil 1 4 (a - 0xF0))
  class4 (b ∷ cs) h k =
      ground (arith, utf8decode_from_cons b cs 1 4 (a - 0xF0), class4_third b cs h)

utf8decode_nil-Outcome : Outcome [] (utf8decode [])
unfolding utf8decode
utf8decode_nil-Outcome = ground arith

-- Every call of utf8decode on bytes ends in one of three ways. It reads nothing, and then fewer
-- than four bytes are there. It reads between one byte and four, and no more than are there, and
-- leaves U+FFFD. Or it leaves a Unicode scalar value, and what it read is that value's form in
-- RFC 3629: an overlong form, a surrogate or a value past U+10FFFF is never accepted.
pub utf8decode-Outcome : (cs : List ℕ) → AllBytes cs → Outcome cs (utf8decode cs)
utf8decode-Outcome [] h = utf8decode_nil-Outcome
utf8decode-Outcome (a ∷ cs) (ha, h) = ground (
  arith,
  lead a cs ha,
  utf8decode_from_end cs 1 a,
  done1 a cs,
  class2 a cs,
  class3 a cs,
  class4 a cs,
)
