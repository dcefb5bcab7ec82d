-- ===== src/Memory/Objects/Bounds.antt =====
-- libs/backend/go/memory/objectstore.go: what Retain leaves of a retention that is running.
use dmpf.Prelude.{
  ◌≡◌, refl, string_eq, true, Option, none, some, arith, Bool-cases, Option-cases, inl, inr,
}
use dmpf.Prelude.Int.{ℤ, ◌≤ℤ◌, ◌<ℤ◌}
use dmpf.Ports.Results.{Result, ok, ◌>>=◌, ◌>>◌}
use dmpf.Ports.Objects.{
  RetentionMode, compliance, governance, other_mode, known, Retention, Declaration,
}
use dmpf.Memory.ObjectKeys.{Address, address_eq}
use dmpf.Memory.Objects.{check_retention, extension_refusal, is_retained}
use dmpf.Memory.Objects.Requests.{>>=_inv}

abbrev pub IsBound : ℤ → Option Retention → Type 0
IsBound until none = ⊥
IsBound until (some r) = (r.mode ≡ compliance) × (until ≤ℤ r.until)

pub check_retention-known :
    (decl : Declaration) (now : ℤ) (r : Retention)
    → check_retention decl now r ≡ ok tt
    → known r.mode ≡ true
unfolding check_retention
check_retention-known decl now r passed = elim (Option-cases decl.ceiling) [
  | inl absent ↦ absurd (ground (arith, passed, absent))
  | inr (ceiling, there) ↦ elim (Bool-cases (known r.mode)) [
    | inl modal ↦ modal
    | inr strange ↦ absurd (ground (arith, passed, there, strange))
  ]
]

-- What an extension that is not refused leaves of a COMPLIANCE retention that is running.
pub IsBound-extension :
    (now until : ℤ) (r to : Retention)
    → now <ℤ until
    → IsBound until (some r)
    → known to.mode ≡ true
    → extension_refusal now (some r) to ≡ none
    → IsBound until (some to)
IsBound-extension now until r to early bound is_known free =
    from r.mode to.mode r.until to.until bound.0 bound.1 is_known free
  where
    from :
        (m m' : RetentionMode) (u w : ℤ)
        → m ≡ compliance
        → until ≤ℤ u
        → known m' ≡ true
        → extension_refusal now
            (some (record { mode = m; until = u }))
            (record { mode = m'; until = w })
          ≡ none
        → (m' ≡ compliance) × (until ≤ℤ w)
    from compliance compliance u w same late is_known free =
        (refl, ground (arith, early, late, free))
    from compliance governance u w same late is_known free =
        absurd (ground (arith, early, late, free))
    from compliance (other_mode m) u w same late is_known free = absurd (ground (arith, is_known))
    from governance m' u w same late is_known free = absurd (ground (arith, same))
    from (other_mode m) m' u w same late is_known free = absurd (ground (arith, same))

-- A version under a bound is retained until its date.
pub IsBound-is_retained :
    (now until : ℤ) (r : Option Retention)
    → now <ℤ until
    → IsBound until r
    → is_retained now r ≡ true
IsBound-is_retained now until none early bound = absurd bound
IsBound-is_retained now until (some r) early bound = ground (arith, early, bound.1)

-- A retention that reached the bucket passed the check.
pub checked_retention :
    (located : Result Address) (check locked : Result (Unit {0})) (at : Address)
    → (located >>= λ a. check >> locked >> ok a) ≡ ok at
    → check ≡ ok tt
checked_retention located check locked at made =
    let (a, _, inner) = >>=_inv located (λ a. check >> locked >> ok a) at made in
    let (_, both, _) = >>=_inv (check >> locked) (λ _. ok a) at inner in
    let (_, passed, _) = >>=_inv check (λ _. locked) tt both in passed
