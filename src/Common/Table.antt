-- ===== src/Common/Table.antt =====
-- Rows of a table by their primary key.
use Prim.Native.Nat.{ℕ}
use mathlib.Core.Path.{◌≡◌}
use mathlib.Core.Logic.{◌≢◌}
use mathlib.Core.Option.{Option, some}
use native.Mathlib.Omega.{arith}
use ai_calling_agent.Common.Tests.{if◌then◌else◌, ◌==◌, ==_refl}

module _ {ℓ} {A : Type ℓ} where
  -- The row of a key is written, or replaced.
  abbrev pub put_row : ℕ → A → (ℕ → Option A) → ℕ → Option A
  put_row k row table j = if j == k then some row else table j

  pub put_row_self : (k : ℕ) (row : A) (table : ℕ → Option A) → put_row k row table k ≡ some row
  put_row_self k row table = rw ==_refl

  pub put_row_ne :
      (k j : ℕ) (row : A) (table : ℕ → Option A) → j ≢ k → put_row k row table j ≡ table j
  put_row_ne k j row table h = ground arith
