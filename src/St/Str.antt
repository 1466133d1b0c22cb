-- ===== src/St/Str.antt =====
-- st/st.c, the string sequences (OSC, DCS, APC, PM): strreset, strparse, tstrsequence, strhandle.
-- args are the strings that start at the pointers of strescseq.args; the NULs that strparse puts
-- into buf behind them are not shown, since nothing reads buf again before strreset.
use suckless.Prelude.{
  ℕ, zero, suc, Bool, true, false, ◌||◌, List, [], ◌∷◌, Option, none, some, ltb, ◌==◌,
  if◌then◌else◌, length,
}
use suckless.Prelude.Int.{ℤ, pos, negsuc, wrap_int}
use suckless.St.Term.{
  Term, esc_buf_siz, esc_arg_siz, modbit, esc_str, esc_str_end, call, xsettitle, xsetsel, xclipcopy,
  xsetcolorname, xclearwin,
}
use suckless.St.Select.{eq_ℤ}
use suckless.St.Base64.{base64dec}
use suckless.St.Csi.{strtol}
use suckless.St.Modes.{redraw}

unfoldable pub strreset : Term → Term
strreset t = record t { str = record { type = 0; buf = []; siz = esc_buf_siz; args = [] } }

-- The bytes up to the next ';' or NUL, whether it is a ';', and the bytes behind it.
unfoldable pub str_arg : List ℕ → List ℕ × Bool × List ℕ
str_arg [] = ([], false, [])
str_arg (c ∷ cs) =
    let (a, more, rest) = str_arg cs in
    if c == 0 then ([], false, []) else if c == b';' then ([], true, cs) else (c ∷ a, more, rest)

-- `while (strescseq.narg < STR_ARG_SIZ)`, k = STR_ARG_SIZ - narg.
unfoldable pub str_args : ℕ → List ℕ → List (List ℕ)
str_args zero p = []
str_args (suc k) p =
    let (a, more, rest) = str_arg p in
    let others = str_args k rest in a ∷ (if more then others else [])

unfoldable pub strparse : Term → Term
unfolding str_args str_arg
strparse t = record t { str = record t.str { args = parsed t.str.buf } }
  where
    parsed : List ℕ → List (List ℕ)
    parsed [] = []
    parsed (c ∷ cs) = if c == 0 then [] else str_args esc_arg_siz (c ∷ cs)

-- strescseq.args[i]
abbrev pub arg_at : List (List ℕ) → ℕ → Option (List ℕ)
arg_at [] i = none
arg_at (a ∷ as') zero = some a
arg_at (a ∷ as') (suc i) = arg_at as' i

-- atoi
abbrev pub atoi : List ℕ → ℤ
atoi s = wrap_int (strtol s).0

abbrev pub atoi_or : ℤ → Option (List ℕ) → ℤ
atoi_or d none = d
atoi_or d (some s) = atoi s

-- The part of strhandle from the computation of j on.
unfoldable pub set_colour : ℤ → Option (List ℕ) → Term → Term
unfolding redraw
set_colour j p t =
    let t1 = call (xsetcolorname j p) t in
    if t.bad_color j p
    then t1
    else redraw (if eq_ℤ j (pos t.defaultbg) then call xclearwin t1 else t1)

-- `case 52` of strhandle, where args[2] is there if narg > 2.
unfoldable pub set_clipboard : Option (List ℕ) → Term → Term
set_clipboard none t = t
set_clipboard (some s) t =
    if t.allowwindowops then call xclipcopy (call (xsetsel (base64dec t.isprint s)) t) else t

-- `case ']'` of strhandle.
unfoldable pub osc : List (List ℕ) → Term → Term
unfolding set_colour set_clipboard
osc args t =
    let narg = length args in
    let par = atoi_or (pos 0) (arg_at args 0) in
    if eq_ℤ par (pos 0) || eq_ℤ par (pos 1) || eq_ℤ par (pos 2)
    then (if ltb 1 narg then call (xsettitle (arg_at args 1)) t else t)
    else if eq_ℤ par (pos 52)
    then set_clipboard (arg_at args 2) t
    else if eq_ℤ par (pos 4)
    then (if ltb narg 3
        then t
        else set_colour (atoi_or (negsuc 0) (arg_at args 1)) (arg_at args 2) t)
    else if eq_ℤ par (pos 104)
    then set_colour (atoi_or (negsuc 0) (arg_at args 1)) none t
    else t

unfoldable pub strhandle : Term → Term
unfolding strparse osc
strhandle t =
    let t1 = strparse (record t { esc = modbit (modbit t.esc false esc_str_end) false esc_str }) in
    if t1.str.type == b']'
    then osc t1.str.args t1
    else if t1.str.type == b'k'
    then call (xsettitle (arg_at t1.str.args 0)) t1
    else t1

unfoldable pub tstrsequence : ℕ → Term → Term
unfolding strreset
tstrsequence c t =
    let type =
      if c == 0x90
      then b'P'
      else if c == 0x9f
      then b'_'
      else if c == 0x9e
      then b'^'
      else if c == 0x9d
      then b']'
      else c in
    let t1 = strreset t in
    record t1 { str = record t1.str { type = type }; esc = modbit t1.esc true esc_str }
