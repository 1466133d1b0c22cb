-- ===== src/Prelude/Int.antt =====
-- Signed integers over the native numbers, under the library's names, and the C type int as the
-- integers from -2^31 to 2^31 - 1.
use Prim.Native.Nat.{ℕ, suc, ◌+◌, ◌-◌, ◌%◌, ◌^◌, ◌≤◌, ◌<◌}
use mathlib.Core.Path.{◌≡◌}
use mathlib.Core.Bool.{Bool}
use native.Mathlib.Omega.{arith}
use suckless.Prelude.Tests.{ltb, leb, if◌then◌else◌}

-- `negsuc n` is -(n + 1).
pub data ℤ : Type 0 where
  pos : ℕ → ℤ
  negsuc : ℕ → ℤ

abbrev pub pos_part : ℤ → ℕ
pos_part (pos n) = n
pos_part (negsuc n) = 0

abbrev pub neg_part : ℤ → ℕ
neg_part (pos n) = 0
neg_part (negsuc n) = suc n

-- a - b, as an integer.
abbrev pub sub_ℕ : ℕ → ℕ → ℤ
sub_ℕ a b = if leb b a then pos (a - b) else negsuc (b - a - 1)

infixl 65 ◌+ℤ◌ ◌-ℤ◌
abbrev pub ◌+ℤ◌ : ℤ → ℤ → ℤ
a +ℤ b = sub_ℕ (pos_part a + pos_part b) (neg_part a + neg_part b)

abbrev pub ◌-ℤ◌ : ℤ → ℤ → ℤ
a -ℤ b = sub_ℕ (pos_part a + neg_part b) (neg_part a + pos_part b)

infix 50 ◌≤ℤ◌
abbrev pub ◌≤ℤ◌ : ℤ → ℤ → Type 0
a ≤ℤ b = pos_part a + neg_part b ≤ pos_part b + neg_part a

abbrev pub ltb_ℤ : ℤ → ℤ → Bool
ltb_ℤ a b = ltb (pos_part a + neg_part b) (pos_part b + neg_part a)

abbrev pub leb_ℤ : ℤ → ℤ → Bool
leb_ℤ a b = leb (pos_part a + neg_part b) (pos_part b + neg_part a)

-- MIN and MAX
abbrev pub min_ℤ : ℤ → ℤ → ℤ
min_ℤ a b = if ltb_ℤ a b then a else b

abbrev pub max_ℤ : ℤ → ℤ → ℤ
max_ℤ a b = if ltb_ℤ a b then b else a

-- The int whose bit pattern is w, w < 2^32.
abbrev pub signed32 : ℕ → ℤ
signed32 w = if ltb w (2 ^ 31) then pos w else negsuc (2 ^ 32 - w - 1)

-- The bit pattern of the low 32 bits of an integer.
abbrev pub pattern32 : ℤ → ℕ
pattern32 (pos n) = n % 2 ^ 32
pattern32 (negsuc n) = 2 ^ 32 - 1 - n % 2 ^ 32

-- The value that a conversion to int, or a sum computed in two's complement, leaves.
unfoldable pub wrap_int : ℤ → ℤ
wrap_int z = signed32 (pattern32 z)

-- Nothing is lost where the value fits.
pub wrap_int-pos : (n : ℕ) → n < 2 ^ 31 → wrap_int (pos n) ≡ pos n
unfolding wrap_int
wrap_int-pos n h = ground arith

pub wrap_int-negsuc : (n : ℕ) → n < 2 ^ 31 → wrap_int (negsuc n) ≡ negsuc n
unfolding wrap_int
wrap_int-negsuc n h = ground arith

-- The first integer past the range comes back as the least int.
pub wrap_int_overflow : (n : ℕ) → n < 2 ^ 31 → wrap_int (pos (2 ^ 31 + n)) ≡ negsuc (2 ^ 31 - n - 1)
unfolding wrap_int
wrap_int_overflow n h = ground arith

-- LIMIT(x, lo, hi), for bounds that are not negative.
unfoldable pub limit : ℤ → ℕ → ℕ → ℕ
limit (pos n) lo hi = if ltb n lo then lo else if ltb hi n then hi else n
limit (negsuc n) lo hi = lo

pub limit_bounds : (z : ℤ) (lo hi : ℕ) → lo ≤ hi → (lo ≤ limit z lo hi) × (limit z lo hi ≤ hi)
unfolding limit
limit_bounds (pos n) lo hi h = ground arith
limit_bounds (negsuc n) lo hi h = (omega arith, omega arith)

pub limit_inside : (n lo hi : ℕ) → lo ≤ n → n ≤ hi → limit (pos n) lo hi ≡ n
unfolding limit
limit_inside n lo hi h k = ground arith

pub limit_mono : (a b : ℤ) (lo hi : ℕ) → a ≤ℤ b → lo ≤ hi → limit a lo hi ≤ limit b lo hi
unfolding limit
limit_mono (pos a) (pos b) lo hi h k = ground arith
limit_mono (pos a) (negsuc b) lo hi h k = absurd (omega arith)
limit_mono (negsuc a) (pos b) lo hi h k = ground arith
limit_mono (negsuc a) (negsuc b) lo hi h k = omega arith

pub min_ℤ-le-max_ℤ : (a b : ℤ) → min_ℤ a b ≤ℤ max_ℤ a b
min_ℤ-le-max_ℤ a b = ground arith
