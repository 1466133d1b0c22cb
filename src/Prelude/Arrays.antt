-- ===== src/Prelude/Arrays.antt =====
-- A C array as a function of its index. A store outside the array's bounds would show as a change
-- there, so the absence of such stores is a statement about the function.
use Prim.Native.Nat.{ℕ}
use suckless.Prelude.Tests.{◌==◌, if◌then◌else◌}

-- a[i] = v
abbrev pub put_at {ℓ} : {A : Type ℓ} → (ℕ → A) → ℕ → A → ℕ → A
put_at a i v j = if i == j then v else a j

-- a[y][x] = v
abbrev pub put_at₂ {ℓ} : {A : Type ℓ} → (ℕ → ℕ → A) → ℕ → ℕ → A → ℕ → ℕ → A
put_at₂ a y x v = put_at a y (put_at (a y) x v)
