-- ===== src/St/Utf8/Partial.antt =====
-- st/st.c, utf8decode: what stands in the buffer when it reads nothing.
use suckless.Prelude.{ℕ, ◌-◌, ◌<◌, ◌≡◌, true, List, [], ◌∷◌, between, arith, length, if◌then◌else◌}
use suckless.St.Utf8.{utf8decode_from, utf8decode}
use suckless.St.Utf8.Decode.{lead, utf8decode_from_cons, utf8decode_from_end}
use suckless.St.Utf8.Sound.{AllBytes, utf8decode_from_nil, tail_of}

-- The length of the sequence that a lead byte announces in RFC 3629's scheme; 0 for other bytes.
abbrev pub announced : ℕ → ℕ
announced a =
    if between a 0xC0 0xDF
    then 2
    else if between a 0xE0 0xEF
    then 3
    else if between a 0xF0 0xF7
    then 4
    else 0

abbrev pub AllTails : List ℕ → Type 0
AllTails [] = Unit {0}
AllTails (c ∷ cs) = (between c 0x80 0xBF ≡ true) × AllTails cs

-- Nothing, or the beginning of a sequence: a lead byte and continuation bytes, fewer than announced.
abbrev pub IsUnfinished : List ℕ → Type 0
IsUnfinished [] = Unit {0}
IsUnfinished (a ∷ cs) = (length (a ∷ cs) < announced a) × AllTails cs

-- What a call that gives r says of the bytes.
abbrev Stops : List ℕ → ℕ × ℕ → Type 0
Stops cs r = r.0 ≡ 0 → IsUnfinished cs

-- A sequence of two bytes, of three and of four, at each place where it may end.
module _ (a : ℕ) where
  class2 :
      (cs : List ℕ)
      → between a 0xC0 0xDF ≡ true
      → AllBytes cs
      → Stops (a ∷ cs) (utf8decode_from cs 1 2 (a - 0xC0))
  class2 [] h k = ground (arith, utf8decode_from_nil 1 2 (a - 0xC0))
  class2 (b ∷ cs) h k = ground (
    arith,
    utf8decode_from_cons b cs 1 2 (a - 0xC0),
    utf8decode_from_end cs 2 (tail_of (a - 0xC0) b),
  )

  class3_last :
      (b : ℕ) (cs : List ℕ)
      → between a 0xE0 0xEF ≡ true
      → between b 0x80 0xBF ≡ true
      → AllBytes cs
      → Stops (a ∷ b ∷ cs) (utf8decode_from cs 2 3 (tail_of (a - 0xE0) b))
  class3_last b [] h hb k = ground (arith, utf8decode_from_nil 2 3 (tail_of (a - 0xE0) b))
  class3_last b (c ∷ cs) h hb k = ground (
    arith,
    utf8decode_from_cons c cs 2 3 (tail_of (a - 0xE0) b),
    utf8decode_from_end cs 3 (tail_of (tail_of (a - 0xE0) b) c),
  )

  class3 :
      (cs : List ℕ)
      → between a 0xE0 0xEF ≡ true
      → AllBytes cs
      → Stops (a ∷ cs) (utf8decode_from cs 1 3 (a - 0xE0))
  class3 [] h k = ground (arith, utf8decode_from_nil 1 3 (a - 0xE0))
  class3 (b ∷ cs) h k = ground (arith, utf8decode_from_cons b cs 1 3 (a - 0xE0), class3_last b cs h)

  class4_last :
      (b c : ℕ) (cs : List ℕ)
      → between a 0xF0 0xF7 ≡ true
      → between b 0x80 0xBF ≡ true
      → between c 0x80 0xBF ≡ true
      → AllBytes cs
      → Stops (a ∷ b ∷ c ∷ cs) (utf8decode_from cs 3 4 (tail_of (tail_of (a - 0xF0) b) c))
  class4_last b c [] h hb hc k =
      ground (arith, utf8decode_from_nil 3 4 (tail_of (tail_of (a - 0xF0) b) c))
  class4_last b c (d ∷ cs) h hb hc k = ground (
    arith,
    utf8decode_from_cons d cs 3 4 (tail_of (tail_of (a - 0xF0) b) c),
    utf8decode_from_end cs 4 (tail_of (tail_of (tail_of (a - 0xF0) b) c) d),
  )

  class4_third :
      (b : ℕ) (cs : List ℕ)
      → between a 0xF0 0xF7 ≡ true
      → between b 0x80 0xBF ≡ true
      → AllBytes cs
      → Stops (a ∷ b ∷ cs) (utf8decode_from cs 2 4 (tail_of (a - 0xF0) b))
  class4_third b [] h hb k = ground (arith, utf8decode_from_nil 2 4 (tail_of (a - 0xF0) b))
  class4_third b (c ∷ cs) h hb k =
      ground (arith, utf8decode_from_cons c cs 2 4 (tail_of (a - 0xF0) b), class4_last b c cs h hb)

  class4 :
      (cs : List ℕ)
      → between a 0xF0 0xF7 ≡ true
      → AllBytes cs
      → Stops (a ∷ cs) (utf8decode_from cs 1 4 (a - 0xF0))
  class4 [] h k = ground (arith, utf8decode_from_nil 1 4 (a - 0xF0))
  class4 (b ∷ cs) h k =
      ground (arith, utf8decode_from_cons b cs 1 4 (a - 0xF0), class4_third b cs h)

-- A call that reads nothing stands before the beginning of a sequence, or before nothing.
pub utf8decode-IsUnfinished : (cs : List ℕ) → AllBytes cs → (utf8decode cs).0 ≡ 0 → IsUnfinished cs
utf8decode-IsUnfinished [] h e = tt
utf8decode-IsUnfinished (a ∷ cs) (ha, h) e =
    ground (arith, lead a cs ha, utf8decode_from_end cs 1 a, class2 a cs, class3 a cs, class4 a cs)
