-- ===== src/Base/Loop.antt =====
-- `for (k = 0; k < n; k++) s = body(k, s)`, and its invariant rule.
use Prim.Native.Nat.{ℕ, zero, suc, ◌<◌}
use native.Mathlib.Omega.{arith}

-- The state after the rounds 0 to `n - 1`: the last of them runs on what the others leave.
unfoldable pub count_to {ℓ} : {S : Type ℓ} → ℕ → (ℕ → S → S) → S → S
count_to zero body s = s
count_to (suc n) body s = body n (count_to n body s)

-- What every round below `n` carries from its index to the next holds after `n` rounds.
pub count_to_inv {ℓ κ} :
    {S : Type ℓ} (P : ℕ → S → Type κ) {body : ℕ → S → S} (n : ℕ) {s : S}
    → ((k : ℕ) (t : S) → k < n → P k t → P (suc k) (body k t))
    → P 0 s
    → P n (count_to n body s)
unfolding count_to
count_to_inv P zero keep start = start
count_to_inv P (suc n) keep start =
    keep n (count_to n _ _) (omega arith)
      (count_to_inv P n (λ k t below. keep k t (omega arith)) start)
