-- ===== src/Header/Buffer.antt =====
-- A buffer of known length as the table of its bytes, so that reads and writes at numerals compute.
use photo_transfer_nativesmb.Common.{
  ℕ, zero, suc, ◌≡◌, refl, ap, List, [], ◌∷◌, length, get_or, arith,
}

unfoldable pub tabulate : ℕ → (ℕ → ℕ) → List ℕ
tabulate zero f = []
tabulate (suc n) f = f 0 ∷ tabulate n (λ k. f (suc k))

pub tabulate-get_or : (b : List ℕ) (n : ℕ) → length b ≡ n → b ≡ tabulate n (λ i. get_or b i 0)
unfolding tabulate
tabulate-get_or [] zero h = refl
tabulate-get_or [] (suc n) h = absurd (omega arith)
tabulate-get_or (x ∷ b) zero h = absurd (omega arith)
tabulate-get_or (x ∷ b) (suc n) h = ap (λ r. x ∷ r) (tabulate-get_or b n (omega arith))
