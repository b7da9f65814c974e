-- ===== src/Common/Loops.antt =====
-- `for (size_t i = 0; i < n; ++i) s = body(i, s)`, with its invariant rule.
use Prim.Native.Nat.{ℕ, zero, suc}

abbrev pub for_below {ℓ} : {S : Type ℓ} → ℕ → (ℕ → S → S) → S → S
for_below zero body s = s
for_below (suc n) body s = body n (for_below n body s)

pub for_below_inv {ℓ κ} :
    {S : Type ℓ} (P : ℕ → S → Type κ) (body : ℕ → S → S)
    → ((i : ℕ) (s : S) → P i s → P (suc i) (body i s))
    → (n : ℕ) (s : S) → P zero s
    → P n (for_below n body s)
for_below_inv P body keep zero s h = h
for_below_inv P body keep (suc n) s h =
    keep n (for_below n body s) (for_below_inv P body keep n s h)
