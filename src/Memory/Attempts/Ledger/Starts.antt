-- ===== src/Memory/Attempts/Ledger/Starts.antt =====
-- When `Begin` starts an attempt of a message.
use dmpf.Prelude.{
  ℕ, ◌+◌, ◌≡◌, refl, ◌≢◌, ◌⊎◌, inl, inr, ◌↔◌, String, false, List, [], ◌∷◌, ◌++◌, none, arith,
  length, All, Option-cases, string_eq,
}
use dmpf.Prelude.Int.{ℤ}
use dmpf.Ports.Attempts.{ExternalClass, started, in_flight, done, Attempt}
use dmpf.Memory.Rows.{row_key_eq}
use dmpf.Memory.Attempts.Row.{AttemptRow, new_row}
use dmpf.Memory.Attempts.Ledger.{AttemptKey, attempt_of, is_done, last_done, opens, begin_in}

last_done-none :
    (message : String) (n : ℕ) (rows : List AttemptRow)
    → (last_done message n rows ≡ none) ↔ All (λ r. is_done message r ≡ false) rows
unfolding last_done
last_done-none message n [] = ((λ h. tt), (λ h. refl))
last_done-none message n (r ∷ rows) =
    let (to, from) = last_done-none message (n + 1) rows in ground (arith, to, from)

-- The three answers of `Begin`.
pub begin_in_cases :
    (scope : AttemptKey) (message : String) (now : ℤ) (rows : List AttemptRow)
    → ((a : Attempt) × (c : ExternalClass) × (last_done message 1 rows ≢ none)
        × (begin_in scope message now rows ≡ (rows, done a c)))
      ⊎ (((a : Attempt) × (opens rows ≢ none)
            × (begin_in scope message now rows ≡ (rows, in_flight a)))
          ⊎ ((last_done message 1 rows ≡ none)
              × (opens rows ≡ none)
              × (begin_in scope message now rows ≡ (
                rows ++ new_row message now ∷ [],
                started (attempt_of scope (length rows + 1) (new_row message now)),
              ))))
unfolding begin_in
begin_in_cases scope message now rows = elim (Option-cases (last_done message 1 rows)) [
  | inr ((n, r), found) ↦
      inl (attempt_of scope n r, r.class, (λ p. absurd (ground arith)), ground arith)
  | inl clear ↦ elim (Option-cases (opens rows)) [
    | inr (r, there) ↦
        inr (inl (attempt_of scope (length rows) r, (λ p. absurd (ground arith)), ground arith))
    | inl closed ↦ inr (inr (clear, closed, ground arith))
  ]
]

-- An attempt of a message starts exactly where no attempt of the message has ended for good and the
-- last attempt of the key, if there is one, is finished; it is then a new row behind the others, numbered
-- by its place. In every other case the rows stay as they are.
pub begin_in_starts :
    (scope : AttemptKey) (message : String) (now : ℤ) (rows : List AttemptRow)
    → let (next, start) = begin_in scope message now rows in
      (All (λ r. is_done message r ≡ false) rows
        → opens rows ≡ none
        → (next ≡ rows ++ new_row message now ∷ [])
          × (start ≡ started (attempt_of scope (length rows + 1) (new_row message now))))
      × ((a : Attempt)
          → start ≡ started a
          → All (λ r. is_done message r ≡ false) rows × (opens rows ≡ none))
      × (((a : Attempt) → start ≢ started a) → next ≡ rows)
begin_in_starts scope message now rows =
    let (to, from) = last_done-none message 1 rows in
    elim (begin_in_cases scope message now rows) [
      | inl (a, c, found, same) ↦ rw same (
        (λ clear closed. absurd (found (from clear))),
        (λ b p. absurd (ground arith)),
        (λ h. refl),
      )
      | inr (inl (a, there, same)) ↦
          rw same
            ((λ clear closed. absurd (there closed)), (λ b p. absurd (ground arith)), (λ h. refl))
      | inr (inr (clear, closed, same)) ↦
          rw same ((λ p q. (refl, refl)), (λ b p. (to clear, closed)), (λ h. absurd (h _ refl)))
    ]
