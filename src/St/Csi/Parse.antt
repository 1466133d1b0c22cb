-- ===== src/St/Csi/Parse.antt =====
-- st/st.c, csiparse: the bounds of arg[ESC_ARG_SIZ], and the rounds of the loop.
use suckless.Prelude.{
  ℕ, zero, suc, ◌+◌, ◌-◌, ◌*◌, ◌≤◌, ◌<◌, ◌≡◌, ◌⊎◌, refl, sym, ap, ◌∙◌, List, [], ◌∷◌, arith, put_at,
  if◌then◌else◌, ◌==◌, length,
}
use suckless.Prelude.Int.{ℤ}
use suckless.St.Term.{CsiEscape, esc_arg_siz}
use suckless.St.Csi.{csiparse_args, csiparse, strtol, skip_space, digits_from, peek, next, to_arg}

csiparse_args_bound :
    (fuel : ℕ) (p : List ℕ) (arg : ℕ → ℤ) (narg j : ℕ)
    → narg < esc_arg_siz
    → esc_arg_siz ≤ j
    → ((csiparse_args fuel p arg narg).1 ≤ esc_arg_siz)
      × ((csiparse_args fuel p arg narg).0 j ≡ arg j)
unfolding csiparse_args
csiparse_args_bound zero p arg narg j h hj = (omega arith, refl)
csiparse_args_bound (suc fuel) [] arg narg j h hj = (omega arith, refl)
csiparse_args_bound (suc fuel) (c ∷ p) arg narg j h hj =
    let (v, np) = strtol (c ∷ p) in
    ground (arith, csiparse_args_bound fuel (next np) (put_at arg narg (to_arg v)) (narg + 1) j)

length-skip_space : (p : List ℕ) → length (skip_space p) ≤ length p
unfolding skip_space
length-skip_space [] = omega arith
length-skip_space (c ∷ p) = ground (arith, length-skip_space p)

length-digits_from : (n : ℕ) (p : List ℕ) → length (digits_from n p).1 ≤ length p
unfolding digits_from
length-digits_from n [] = omega arith
length-digits_from n (c ∷ p) = ground (arith, length-digits_from (n * 10 + (c - b'0')) p)

length-next : (p : List ℕ) → length (next p) ≤ length p
length-next [] = omega arith
length-next (c ∷ p) = omega arith

peek_next : (p : List ℕ) → (peek p ≡ 0) ⊎ (length (next p) < length p)
peek_next [] = ground arith
peek_next (c ∷ p) = ground arith

-- strtol leaves no more bytes than it was given.
length-strtol : (p : List ℕ) → length (strtol p).1 ≤ length p
unfolding strtol
length-strtol p =
    let s = skip_space p in
    ground (
      arith,
      length-skip_space p,
      length-next s,
      length-digits_from 0 s,
      length-digits_from 0 (next s),
    )

csiparse_args_nil :
    (fuel : ℕ) (arg : ℕ → ℤ) (narg : ℕ) → csiparse_args fuel [] arg narg ≡ (arg, narg, [])
unfolding csiparse_args
csiparse_args_nil zero arg narg = refl
csiparse_args_nil (suc fuel) arg narg = refl

-- The fuel makes no difference where it is the number of bytes or more.
csiparse_args_enough :
    (fuel more : ℕ) (p : List ℕ) (arg : ℕ → ℤ) (narg : ℕ)
    → length p ≤ fuel
    → length p ≤ more
    → csiparse_args more p arg narg ≡ csiparse_args fuel p arg narg
unfolding csiparse_args
csiparse_args_enough fuel more [] arg narg h k =
    csiparse_args_nil more arg narg ∙ sym (csiparse_args_nil fuel arg narg)
csiparse_args_enough zero more (c ∷ p) arg narg h k = absurd (omega (arith, h))
csiparse_args_enough (suc fuel) zero (c ∷ p) arg narg h k = absurd (omega (arith, k))
csiparse_args_enough (suc fuel) (suc more) (c ∷ p) arg narg h k =
    let (v, np) = strtol (c ∷ p) in
    ground (
      arith,
      length-strtol (c ∷ p),
      peek_next np,
      csiparse_args_enough fuel more (next np) (put_at arg narg (to_arg v)) (narg + 1),
    )

-- Whatever bytes were collected, csiparse counts at most ESC_ARG_SIZ parameters and writes no entry
-- of `arg` from ESC_ARG_SIZ on; and its loop has ended by itself: with any fuel of at least the
-- number of bytes the entries and their number are the same.
pub csiparse_bound :
    (e : CsiEscape) (j more : ℕ)
    → esc_arg_siz ≤ j
    → length e.buf ≤ more
    → let p = if peek e.buf == b'?' then next e.buf else e.buf in
      ((csiparse e).narg ≤ esc_arg_siz)
      × ((csiparse e).arg j ≡ e.arg j)
      × ((csiparse e).arg ≡ (csiparse_args more p e.arg 0).0)
      × ((csiparse e).narg ≡ (csiparse_args more p e.arg 0).1)
unfolding csiparse
csiparse_bound e j more h k =
    let p = if peek e.buf == b'?' then next e.buf else e.buf in
    let b = csiparse_args_bound (length e.buf) p e.arg 0 j (omega arith) h in
    let short : length p ≤ length e.buf = ground (arith, length-next e.buf) in
    let same = csiparse_args_enough more (length e.buf) p e.arg 0 (omega (arith, short, k)) short in
    (b.0, b.1, ap (λ r. r.0) same, ap (λ r. r.1) same)
