-- ===== src/St/Csi.antt =====
-- st/st.c, reading a CSI sequence: csireset and csiparse, with strtol of the C library (base 10,
-- a long of 64 bits). The bytes from a pointer on are a list; the end reads as NUL.
pub mod Parse
use suckless.Prelude.{
  ℕ, zero, suc, ◌+◌, ◌-◌, ◌*◌, ◌^◌, Bool, true, false, not, ◌&&◌, ◌||◌, List, [], ◌∷◌, ltb, leb,
  ◌==◌, between, if◌then◌else◌, put_at, length,
}
use suckless.Prelude.Int.{ℤ, pos, negsuc, wrap_int}
use suckless.St.Term.{Term, CsiEscape, esc_arg_siz}

abbrev pub empty_csi : CsiEscape
empty_csi = record { buf = []; priv = false; arg = λ _. pos 0; narg = 0; mode0 = 0; mode1 = 0 }

unfoldable pub csireset : Term → Term
csireset t = record t { csi = empty_csi }

abbrev pub peek : List ℕ → ℕ
peek [] = 0
peek (c ∷ cs) = c

abbrev pub next : List ℕ → List ℕ
next [] = []
next (c ∷ cs) = cs

abbrev pub is_digit : ℕ → Bool
is_digit c = between c b'0' b'9'

-- isspace in strtol
abbrev pub is_space : ℕ → Bool
is_space c = c == b' ' || between c 9 13

unfoldable pub skip_space : List ℕ → List ℕ
skip_space [] = []
skip_space (c ∷ cs) = if is_space c then skip_space cs else c ∷ cs

-- The value of the leading digits behind n, and what follows them.
unfoldable pub digits_from : ℕ → List ℕ → ℕ × List ℕ
digits_from n [] = (n, [])
digits_from n (c ∷ cs) = if is_digit c then digits_from (n * 10 + (c - b'0')) cs else (n, c ∷ cs)

-- LONG_MAX and LONG_MIN where the value is out of range.
abbrev pub to_long : Bool → ℕ → ℤ
to_long true zero = pos 0
to_long true (suc n) = negsuc (if ltb n (2 ^ 63) then n else 2 ^ 63 - 1)
to_long false n = pos (if ltb n (2 ^ 63) then n else 2 ^ 63 - 1)

-- strtol(p, &np, 10): the value and the bytes from np on; np is p if there are no digits.
unfoldable pub strtol : List ℕ → ℤ × List ℕ
unfolding skip_space digits_from
strtol p =
    let s = skip_space p in
    let minus = peek s == b'-' in
    let d = if minus || peek s == b'+' then next s else s in
    let (n, np) = digits_from 0 d in if is_digit (peek d) then (to_long minus n, np) else (pos 0, p)

-- `if (v == LONG_MAX || v == LONG_MIN) v = -1;` and the conversion to int.
abbrev pub to_arg : ℤ → ℤ
to_arg (pos n) = if n == 2 ^ 63 - 1 then negsuc 0 else wrap_int (pos n)
to_arg (negsuc n) = if n == 2 ^ 63 - 1 then negsuc 0 else wrap_int (negsuc n)

-- The loop of csiparse: arg, narg and p behind it. Every round but the last reads a semicolon, so the
-- number of bytes is enough fuel.
unfoldable pub csiparse_args : ℕ → List ℕ → (ℕ → ℤ) → ℕ → (ℕ → ℤ) × ℕ × List ℕ
csiparse_args zero p arg narg = (arg, narg, p)
csiparse_args (suc fuel) [] arg narg = (arg, narg, [])
csiparse_args (suc fuel) (c ∷ p) arg narg =
    let (v, np) = strtol (c ∷ p) in
    let arg' = put_at arg narg (to_arg v) in
    let rest = csiparse_args fuel (next np) arg' (narg + 1) in
    if not (peek np == b';') || narg + 1 == esc_arg_siz then (arg', narg + 1, np) else rest

unfoldable pub csiparse : CsiEscape → CsiEscape
csiparse e =
    let private = peek e.buf == b'?' in
    let (arg, narg, p) =
      csiparse_args (length e.buf) (if private then next e.buf else e.buf) e.arg 0 in
    record e {
      priv = private || e.priv;
      arg = arg;
      narg = narg;
      mode0 = peek p;
      mode1 = peek (next p);
    }
