-- ===== src/Retry/Budget/Balance.antt =====
-- What each method does to the balance, on int64 durations that stay in range.
use dmpf.Prelude.{ℕ, ◌+◌, ◌-◌, ◌≤◌, ◌<◌, ◌≡◌, ◌∙◌, true, false, arith}
use dmpf.Prelude.Int.{ℤ, pos, negsuc, pos_part, sub_ℕ, ◌+ℤ◌, ◌-ℤ◌}
use dmpf.Prelude.Word.{half_range, add64, sub64, IsInt64, wrap64_of_IsInt64}
use dmpf.Retry.Budget.{Budget, debit, reserve, settle}

pub sub64_exact : (m n : ℕ) → m < half_range → n < half_range → sub64 (pos m) (pos n) ≡ sub_ℕ m n
unfolding sub64 ◌-ℤ◌
sub64_exact m n h k = wrap64_of_IsInt64 (pos m -ℤ pos n) (ground arith) ∙ ground arith

pub add64_exact : (m n : ℕ) → m + n < half_range → add64 (pos m) (pos n) ≡ pos (m + n)
unfolding add64 ◌+ℤ◌
add64_exact m n h = wrap64_of_IsInt64 (pos m +ℤ pos n) (ground arith) ∙ ground arith

module _ (b : Budget) (r : ℕ) (balance : b.remaining ≡ pos r) (fits : r < half_range) where
  pub debit_exact :
      (spent : ℤ)
      → IsInt64 spent
      → debit spent b ≡ record b { remaining = pos (r - pos_part spent) }
  unfolding debit
  debit_exact (pos n) h = ground (arith, sub64_exact r n fits)
  debit_exact (negsuc n) h = ground arith

  pub reserve_granted :
      (n : ℕ)
      → b.armed ≡ true
      → 0 < n
      → n ≤ r
      → reserve (pos n) b ≡ (record b { remaining = pos (r - n) }, true)
  unfolding reserve
  reserve_granted n a p q = ground (arith, sub64_exact r n fits)

  pub reserve_refused : (n : ℕ) → r < n → reserve (pos n) b ≡ (b, false)
  unfolding reserve
  reserve_refused n q = ground arith

  -- Settling a claim leaves the balance plus the claim less the real cost, and zero if the cost is more
  -- than both, provided that balance and claim together, and the cost, are within int64.
  pub settle_exact :
      (claim cost : ℕ)
      → r + claim < half_range
      → cost < half_range
      → settle (pos claim) (pos cost) b ≡ record b { remaining = pos (r + claim - cost) }
  unfolding settle
  settle_exact claim cost h k = ground (
    arith,
    sub64_exact cost claim,
    sub64_exact claim cost,
    sub64_exact r (cost - claim) fits,
    add64_exact r (claim - cost),
  )
