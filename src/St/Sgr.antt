-- ===== src/St/Sgr.antt =====
-- st/st.c, the character attributes: tdefcolor and tsetattr. They read attr[0 .. l) and, for the kind
-- of a colour, one entry past the parameter, which may be attr[l]; with 16 parameters that is past the
-- array of the source, and here the value of the function at 16.
use suckless.Prelude.{
  ℕ, zero, suc, ◌+◌, ◌-◌, ◌*◌, ◌^◌, bit_or, Bool, true, false, ◌&&◌, List, [], ◌∷◌, Option, none,
  some, ltb, leb, ◌==◌, between, if◌then◌else◌,
}
use suckless.Prelude.Int.{ℤ, pos, negsuc}
use suckless.St.Term.{
  Term, Glyph, modbit, clear_bits, attr_bold, attr_faint, attr_italic, attr_underline, attr_blink,
  attr_reverse, attr_invisible, attr_struck,
}

-- BETWEEN(z, 0, 255)
abbrev pub is_byte : ℤ → Bool
is_byte (pos n) = leb n 255
is_byte (negsuc n) = false

abbrev pub byte_of : ℤ → ℕ
byte_of (pos n) = n
byte_of (negsuc n) = 0

-- TRUECOLOR(r, g, b)
unfoldable pub truecolor : ℕ → ℕ → ℕ → ℕ
truecolor r g b = bit_or (bit_or (bit_or (2 ^ 24) (r * 2 ^ 16)) (g * 2 ^ 8)) b

abbrev pub is_pos : ℤ → ℕ → Bool
is_pos (pos n) k = n == k
is_pos (negsuc n) k = false

-- The colour (`none` for an idx of -1) and the new value of *npar.
unfoldable pub tdefcolor : (ℕ → ℤ) → ℕ → ℕ → Option ℕ × ℕ
unfolding truecolor
tdefcolor attr npar l =
    let r = attr (npar + 2) in
    let g = attr (npar + 3) in
    let b = attr (npar + 4) in
    if is_pos (attr (npar + 1)) 2
    then (if leb l (npar + 4) then (none, npar) else (
      if is_byte r && is_byte g && is_byte b
          then some (truecolor (byte_of r) (byte_of g) (byte_of b))
          else none,
      npar + 4,
    ))
    else if is_pos (attr (npar + 1)) 5
    then (if leb l (npar + 2)
        then (none, npar)
        else (if is_byte r then some (byte_of r) else none, npar + 2))
    else (none, npar)

abbrev pub set_attr : Glyph → ℕ → Glyph
set_attr g bit = record g { mode = modbit g.mode true bit }

abbrev pub clear_attr : Glyph → List ℕ → Glyph
clear_attr g bits = record g { mode = clear_bits g.mode bits }

-- The cases of the switch but 38 and 48.
unfoldable pub sgr : ℕ → ℕ → ℕ → Glyph → Glyph
sgr defaultfg defaultbg n g =
    if n == 0
    then record (clear_attr g (
        attr_bold ∷ attr_faint ∷ attr_italic ∷ attr_underline ∷ attr_blink ∷ attr_reverse
        ∷ attr_invisible ∷ attr_struck ∷ [])) { fg = defaultfg; bg = defaultbg }
    else if n == 1
    then set_attr g attr_bold
    else if n == 2
    then set_attr g attr_faint
    else if n == 3
    then set_attr g attr_italic
    else if n == 4
    then set_attr g attr_underline
    else if between n 5 6
    then set_attr g attr_blink
    else if n == 7
    then set_attr g attr_reverse
    else if n == 8
    then set_attr g attr_invisible
    else if n == 9
    then set_attr g attr_struck
    else if n == 22
    then clear_attr g (attr_bold ∷ attr_faint ∷ [])
    else if n == 23
    then clear_attr g (attr_italic ∷ [])
    else if n == 24
    then clear_attr g (attr_underline ∷ [])
    else if n == 25
    then clear_attr g (attr_blink ∷ [])
    else if n == 27
    then clear_attr g (attr_reverse ∷ [])
    else if n == 28
    then clear_attr g (attr_invisible ∷ [])
    else if n == 29
    then clear_attr g (attr_struck ∷ [])
    else if n == 39
    then record g { fg = defaultfg }
    else if n == 49
    then record g { bg = defaultbg }
    else if between n 30 37
    then record g { fg = n - 30 }
    else if between n 40 47
    then record g { bg = n - 40 }
    else if between n 90 97
    then record g { fg = n - 90 + 8 }
    else if between n 100 107
    then record g { bg = n - 100 + 8 }
    else g

abbrev pub set_fg : Glyph → Option ℕ → Glyph
set_fg g none = g
set_fg g (some idx) = record g { fg = idx }

abbrev pub set_bg : Glyph → Option ℕ → Glyph
set_bg g none = g
set_bg g (some idx) = record g { bg = idx }

-- One round of the loop: the attributes and the value of i before `i++`.
unfoldable pub sgr_step : ℕ → ℕ → (ℕ → ℤ) → ℕ → ℕ → Glyph → Glyph × ℕ
sgr_step defaultfg defaultbg attr i l g =
    let colour = tdefcolor attr i l in
    if is_pos (attr i) 38
    then (set_fg g colour.0, colour.1)
    else if is_pos (attr i) 48
    then (set_bg g colour.0, colour.1)
    else (elim (attr i) [ pos n ↦ sgr defaultfg defaultbg n g | negsuc n ↦ g ], i)

-- The loop from i on; each round raises i, so l - i rounds are enough.
unfoldable pub tsetattr_from : ℕ → ℕ → ℕ → (ℕ → ℤ) → ℕ → ℕ → Glyph → Glyph
tsetattr_from zero defaultfg defaultbg attr i l g = g
tsetattr_from (suc fuel) defaultfg defaultbg attr i l g =
    let s = sgr_step defaultfg defaultbg attr i l g in
    let rest = tsetattr_from fuel defaultfg defaultbg attr (s.1 + 1) l s.0 in
    if ltb i l then rest else g

unfoldable pub tsetattr : (ℕ → ℤ) → ℕ → Term → Term
tsetattr attr l t = record t {
  c = record t.c { attr = tsetattr_from l t.defaultfg t.defaultbg attr 0 l t.c.attr };
}
