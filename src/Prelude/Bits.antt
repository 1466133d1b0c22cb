-- ===== src/Prelude/Bits.antt =====
-- Masks, shifts and unions of bits as arithmetic.
use Prim.Native.Nat.{
  ℕ, zero, suc, ◌+◌, ◌*◌, ◌/◌, ◌%◌, ◌^◌, ◌≤◌, ◌<◌, min, max, bit_and, bit_or, digits,
  bit_and-bitwise, bit_or-bitwise,
}
use mathlib.Core.Path.{◌≡◌, refl, ap}
use mathlib.Core.Bool.{Bool, true, ◌&&◌}
use native.Mathlib.Nat.{pow-suc, one-le-pow, mul_comm}
use native.Mathlib.Omega.{arith}

-- Whether a test holds of 0, ..., k - 1.
unfoldable pub holds_to : (ℕ → Bool) → ℕ → Bool
holds_to test zero = true
holds_to test (suc k) = test k && holds_to test k

pub holds_to_at : (test : ℕ → Bool) (k i : ℕ) → i < k → holds_to test k ≡ true → test i ≡ true
unfolding holds_to
holds_to_at test zero i lt every = absurd (omega arith)
holds_to_at test (suc k) i lt every = ground (arith, holds_to_at test k i)

-- `digits` gives the same on any fuel that is at least its first number.
module _ (rest : ℕ → ℕ) (combine : ℕ → ℕ → ℕ) where
  next_digit : ℕ → ℕ → ℕ → ℕ
  next_digit x y high = high * 2 + combine (suc x % 2) (y % 2)

  fuel_free : (x y k l : ℕ) → x ≤ k → x ≤ l → digits rest combine k x y ≡ digits rest combine l x y
  unfolding next_digit
  fuel_free zero y zero zero hk hl = refl
  fuel_free zero y zero (suc l) hk hl = refl
  fuel_free zero y (suc k) zero hk hl = refl
  fuel_free zero y (suc k) (suc l) hk hl = refl
  fuel_free (suc x) y zero l hk hl = absurd (omega arith)
  fuel_free (suc x) y (suc k) zero hk hl = absurd (omega arith)
  fuel_free (suc x) y (suc k) (suc l) hk hl =
      let shorter = fuel_free (suc x / 2) (y / 2) k l (omega arith) (omega arith) in
      ap (next_digit x y) shorter

  lowest :
      (x y : ℕ)
      → digits rest combine (suc x) (suc x) y
        ≡ next_digit x y (digits rest combine (suc x / 2) (suc x / 2) (y / 2))
  unfolding next_digit
  lowest x y =
      let shorter = fuel_free (suc x / 2) (y / 2) x (suc x / 2) (omega arith) (omega arith) in
      ap (next_digit x y) shorter

pub bit_or_low : (a b : ℕ) → bit_or a b ≡ bit_or (a / 2) (b / 2) * 2 + max (a % 2) (b % 2)
unfolding next_digit
bit_or_low zero b = simp bit_or-bitwise (omega arith)
bit_or_low (suc a) b = simp bit_or-bitwise (lowest (λ y. y) max a b)

pub bit_and_low : (a b : ℕ) → bit_and a b ≡ bit_and (a / 2) (b / 2) * 2 + min (a % 2) (b % 2)
unfolding next_digit
bit_and_low zero b = simp bit_and-bitwise (omega arith)
bit_and_low (suc a) b = simp bit_and-bitwise (lowest (λ y. zero) min a b)

mod-double : (a m : ℕ) → 0 < m → a % (2 * m) ≡ a / 2 % m * 2 + a % 2
mod-double a m h = grind arith

-- The digits of a remainder, one step down.
halve-mod : (a m : ℕ) → 0 < m → (a % (2 * m) / 2 ≡ a / 2 % m) × (a % (2 * m) % 2 ≡ a % 2)
halve-mod a m h = omega (arith, mod-double a m h)

-- A bitwise operation whose lowest digit is `op` of the lowest digits acts on the low k bits alone.
module _ (bits op : ℕ → ℕ → ℕ)
    (low : (a b : ℕ) → bits a b ≡ bits (a / 2) (b / 2) * 2 + op (a % 2) (b % 2))
    (digit : (a b : ℕ) → op (a % 2) (b % 2) < 2) (none_left : bits 0 0 ≡ 0) where
  double_mod :
      (m a b : ℕ)
      → 0 < m
      → bits (a / 2) (b / 2) % m ≡ bits (a / 2 % m) (b / 2 % m)
      → bits a b % (2 * m) ≡ bits (a % (2 * m)) (b % (2 * m))
  double_mod m a b h ih =
      rw (mod-double (bits a b) m h, low (a % (2 * m)) (b % (2 * m)))
        (rw ((halve-mod a m h).0, (halve-mod a m h).1, (halve-mod b m h).0, (halve-mod b m h).1)
          (omega
            (arith, ih, digit a b, low a b, ap (λ (t : ℕ). t % m) (half (low a b) (digit a b)))))
    where
      half : {x y r : ℕ} → x ≡ y * 2 + r → r < 2 → x / 2 ≡ y
      half e l = omega arith

  bits-mod : (k a b : ℕ) → bits a b % 2 ^ k ≡ bits (a % 2 ^ k) (b % 2 ^ k)
  bits-mod zero a b = rw (one (bits a b), one a, one b, none_left)
    where
      one : (n : ℕ) → n % 2 ^ 0 ≡ 0
      one n = omega arith
  bits-mod (suc k) a b =
      rw (pow-suc 2 k, mul_comm (2 ^ k) 2)
        (double_mod (2 ^ k) a b (one-le-pow k 2 (omega arith)) (bits-mod k (a / 2) (b / 2)))

pub bit_or-mod : (k a b : ℕ) → bit_or a b % 2 ^ k ≡ bit_or (a % 2 ^ k) (b % 2 ^ k)
bit_or-mod = bits-mod bit_or max bit_or_low (λ a b. omega arith) refl

pub bit_and-mod : (k a b : ℕ) → bit_and a b % 2 ^ k ≡ bit_and (a % 2 ^ k) (b % 2 ^ k)
bit_and-mod = bits-mod bit_and min bit_and_low (λ a b. omega arith) refl

-- `(q << k) | r` is a sum when `r` fits k bits.
bit_or-zero_fuel : (n a : ℕ) → a ≤ n → bit_or a 0 ≡ a
bit_or-zero_fuel n zero h = refl
bit_or-zero_fuel zero (suc a) h = absurd (omega arith)
bit_or-zero_fuel (suc n) (suc a) h =
    omega (arith, bit_or_low (suc a) 0, bit_or-zero_fuel n (suc a / 2) (omega arith))

pub bit_or-zero : (a : ℕ) → bit_or a 0 ≡ a
bit_or-zero a = bit_or-zero_fuel a a (omega arith)

pub bit_or_shifted : (k q r : ℕ) → r < 2 ^ k → bit_or (q * 2 ^ k) r ≡ q * 2 ^ k + r
bit_or_shifted zero q r h = ground (arith, bit_or-zero (q * 2 ^ 0))
bit_or_shifted (suc k) q r h =
    let double : q * 2 ^ suc k ≡ q * 2 ^ k * 2 =
      omega (arith, ap (λ (t : ℕ). q * t) (pow-suc 2 k)) in
    ground (arith, double, pow-suc 2 k, bit_or_low (q * 2 ^ suc k) r, bit_or_shifted k q (r / 2))
