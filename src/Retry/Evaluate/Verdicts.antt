-- ===== src/Retry/Evaluate/Verdicts.antt =====
-- The conjunction of the five conditions, and the factor that names the first one that fails.
use dmpf.Prelude.{
  Bool, true, false, Option, none, some, ◌≡◌, refl, ◌↔◌, ◌⊎◌, inl, inr, arith, Option-cases,
  Bool-cases,
}
use dmpf.Prelude.Int.{ℤ, pos, ◌≤ℤ◌, ◌<ℤ◌}
use dmpf.Prelude.Word.{add64}
use dmpf.Prelude.Float.{FloatOps}
use dmpf.Retry.Budget.{Budget, remaining_of}
use dmpf.Retry.Evaluate.{
  Retryability, retryable, Factor, factor_none, factor_attempts, factor_retryable,
  factor_idempotent, factor_budget, factor_deadline, denied_by, Operation, Input, classified,
  repeatable, covers, wait_of, need_of, evaluate,
}

module _ (O : FloatOps) (Err : Type 0) where
  -- The conditions, each in the words of the sheet that declares it.
  abbrev pub Within : Input O Err → Type 0
  Within i = add64 i.attempt (pos 1) <ℤ i.max_attempts

  abbrev pub IsTransient : Input O Err → Type 0
  IsTransient i = (c : Err → Retryability) × (i.classifier ≡ some c) × (c i.err ≡ retryable)

  abbrev pub IsRepeatable : Input O Err → Type 0
  IsRepeatable i =
      (i.operation.idempotent ≡ true)
      ⊎ ((f : Err → Bool) × (i.operation.effect_absent ≡ some f) × (f i.err ≡ true))

  abbrev pub IsFunded : Input O Err → Type 0
  IsFunded i = (b : Budget) × (i.budget ≡ some b) × (need_of O Err i ≤ℤ remaining_of b)

  abbrev pub IsTimely : Input O Err → Type 0
  IsTimely i = need_of O Err i ≤ℤ i.remaining

  classified_iff :
      (c : Option (Err → Retryability)) (e : Err)
      → (classified O Err c e ≡ true)
        ↔ ((f : Err → Retryability) × (c ≡ some f) × (f e ≡ retryable))
  unfolding classified
  classified_iff none e = ((λ h. cc), (λ h. cc (h.1)))
  classified_iff (some f) e = ((λ h. (f, refl, ground arith)), (λ h. ground (arith, h.1, h.2)))

  repeatable_iff :
      (op : Operation O Err) (e : Err)
      → (repeatable O Err op e ≡ true)
        ↔ ((op.idempotent ≡ true) ⊎ ((f : Err → Bool) × (op.effect_absent ≡ some f) × (f e ≡ true)))
  unfolding repeatable
  repeatable_iff op e =
      (to (Bool-cases op.idempotent) (Option-cases op.effect_absent), λ h. ground arith)
    where
      to :
          (op.idempotent ≡ true) ⊎ (op.idempotent ≡ false)
          → (op.effect_absent ≡ none) ⊎ ((f : Err → Bool) × (op.effect_absent ≡ some f))
          → repeatable O Err op e ≡ true
          → (op.idempotent ≡ true) ⊎ ((f : Err → Bool) × (op.effect_absent ≡ some f) × (f e ≡ true))
      to (inl yes') o h = inl yes'
      to (inr no') (inl gone) h = absurd (ground arith)
      to (inr no') (inr (f, there)) h = inr (f, there, ground arith)

  covers_iff :
      (o : Option Budget) (need : ℤ)
      → (covers O Err o need ≡ true) ↔ ((b : Budget) × (o ≡ some b) × (need ≤ℤ remaining_of b))
  unfolding covers
  covers_iff none need = ((λ h. cc), (λ h. cc (h.1)))
  covers_iff (some b) need = ((λ h. (b, refl, ground arith)), (λ h. ground (arith, h.1, h.2)))

  -- A retry is allowed, with the backoff as its wait and the estimate on top of it as its need, exactly
  -- when all of these hold: the attempt that follows is below the ceiling; a classifier is given and
  -- calls the error retryable; the operation is idempotent or knows that this error left no effect; a
  -- budget is given whose balance covers the need; and the remaining deadline covers it too.
  pub evaluate-allowed_iff :
      (i : Input O Err)
      → (evaluate O Err i ≡ record {
        allowed = true;
        denied = factor_none;
        wait = wait_of O Err i;
        need = need_of O Err i;
      })
        ↔ (Within i × IsTransient i × IsRepeatable i × IsFunded i × IsTimely i)
  unfolding evaluate
  evaluate-allowed_iff i = (
    (λ h. (
      ground arith,
      (classified_iff i.classifier i.err).0 (ground arith),
      (repeatable_iff i.operation i.err).0 (ground arith),
      (covers_iff i.budget (need_of O Err i)).0 (ground arith),
      ground arith,
    )),
    (λ (w, c, r, f, t).
        let c' = (classified_iff i.classifier i.err).1 c in
        let r' = (repeatable_iff i.operation i.err).1 r in
        let f' = (covers_iff i.budget (need_of O Err i)).1 f in ground (arith, c', r', f')),
  )

  -- The factor that a denial names is the first condition that fails: those before it hold.
  abbrev pub Denies : Input O Err → Factor → Type 0
  Denies i factor_none = ⊥
  Denies i factor_attempts = ¬ Within i
  Denies i factor_retryable = Within i × ¬ IsTransient i
  Denies i factor_idempotent = Within i × IsTransient i × ¬ IsRepeatable i
  Denies i factor_budget = Within i × IsTransient i × IsRepeatable i × ¬ IsFunded i
  Denies i factor_deadline = Within i × IsTransient i × IsRepeatable i × IsFunded i × ¬ IsTimely i

  -- Every verdict that does not allow the retry names, in its factor, the first of the five conditions
  -- that fails, all earlier ones holding, and carries neither a wait nor a need.
  pub evaluate-Denies :
      (i : Input O Err) (f : Factor)
      → (evaluate O Err i).allowed ≡ false
      → (evaluate O Err i).denied ≡ f
      → Denies i f × (evaluate O Err i ≡ denied_by f)
  unfolding evaluate
  evaluate-Denies i factor_none a d = absurd (ground arith)
  evaluate-Denies i factor_attempts a d = ((λ w. ground arith), ground arith)
  evaluate-Denies i factor_retryable a d = (
    (ground arith, (λ c. let c' = (classified_iff i.classifier i.err).1 c in ground arith)),
    ground arith,
  )
  evaluate-Denies i factor_idempotent a d = (
    (
      ground arith,
      (classified_iff i.classifier i.err).0 (ground arith),
      (λ r. let r' = (repeatable_iff i.operation i.err).1 r in ground arith),
    ),
    ground arith,
  )
  evaluate-Denies i factor_budget a d = (
    (
      ground arith,
      (classified_iff i.classifier i.err).0 (ground arith),
      (repeatable_iff i.operation i.err).0 (ground arith),
      (λ b. let b' = (covers_iff i.budget (need_of O Err i)).1 b in ground arith),
    ),
    ground arith,
  )
  evaluate-Denies i factor_deadline a d = (
    (
      ground arith,
      (classified_iff i.classifier i.err).0 (ground arith),
      (repeatable_iff i.operation i.err).0 (ground arith),
      (covers_iff i.budget (need_of O Err i)).0 (ground arith),
      (λ t. ground arith),
    ),
    ground arith,
  )
