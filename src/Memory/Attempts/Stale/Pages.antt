-- ===== src/Memory/Attempts/Stale/Pages.antt =====
-- libs/backend/go/memory/attempt_ledger.go: what a page of stale attempts holds.
use mathlib.Core.List.{Memᴰ}
use mathlib.Core.List.Memᴰ
use dmpf.Prelude.{
  ℕ, zero, suc, ◌≤◌, ◌<◌, ◌≡◌, refl, sym, ap, subst, ◌⊎◌, inl, inr, string_eq, true, List, [], ◌∷◌,
  length, arith, Bool-cases,
}
use dmpf.Prelude.Int.{ℤ, pos, pos_part, ltb_ℤ}
use dmpf.Ports.Results.{ok}
use dmpf.Ports.Attempts.{Attempt, AttemptCursor, cursor_of}
use dmpf.Memory.Attempts.Row.{AttemptRow}
use dmpf.Memory.Attempts.Ledger.{AttemptKey, Ledger, attempt_of}
use dmpf.Memory.Attempts.Stale.{
  cursor_ltb, is_overdue, overdue_rows, overdue, insert_attempt, sort_attempts, first_of, stale,
}

-- An attempt that the rows of a key hold unfinished, at its number, started by the cutoff and after the cursor.
module _ (cutoff : ℤ) (after : AttemptCursor) (x : Attempt) where
  abbrev pub PendingRow : AttemptKey → ℕ → List AttemptRow → Type 0
  PendingRow scope n [] = ⊥
  PendingRow scope n (r ∷ rows) =
      (x ≡ attempt_of scope n r) × (is_overdue cutoff after x r ≡ true)
      ⊎ PendingRow scope (suc n) rows

  abbrev pub IsPending : Ledger → Type 0
  IsPending [] = ⊥
  IsPending ((scope, rows) ∷ l) = PendingRow scope 1 rows ⊎ IsPending l

  rows_found :
      (scope : AttemptKey) (n : ℕ) (rows : List AttemptRow)
      → Memᴰ x (overdue_rows cutoff after scope n rows)
      → PendingRow scope n rows
  rows_found scope n [] m = Memᴰ.not-nil m
  rows_found scope n (r ∷ rows) m =
      elim (Bool-cases (is_overdue cutoff after (attempt_of scope n r) r)) [
        | inl late ↦
            elim (Memᴰ.cases_cons
              (subst (λ (xs : List Attempt). Memᴰ x xs) (ground (arith, late)) m)) [
                | inl same ↦ inl (same, rw same late)
                | inr later ↦ inr (rows_found scope (suc n) rows later)
              ]
        | inr early ↦ inr (
            rows_found scope (suc n) rows
              (subst (λ (xs : List Attempt). Memᴰ x xs) (ground (arith, early)) m))
      ]

  found-rows :
      (scope : AttemptKey) (n : ℕ) (rows : List AttemptRow)
      → PendingRow scope n rows
      → Memᴰ x (overdue_rows cutoff after scope n rows)
  found-rows scope n [] p = absurd p
  found-rows scope n (r ∷ rows) (inl (same, late)) =
      subst (λ (xs : List Attempt). Memᴰ x xs) (ground (arith, same, late))
        (Memᴰ.head {xs = overdue_rows cutoff after scope (suc n) rows} same)
  found-rows scope n (r ∷ rows) (inr later) =
      let m = found-rows scope (suc n) rows later in
      elim (Bool-cases (is_overdue cutoff after (attempt_of scope n r) r)) [
        | inl late ↦
            subst (λ (xs : List Attempt). Memᴰ x xs) (ground (arith, late))
              (Memᴰ.tail {x = attempt_of scope n r} m)
        | inr early ↦ subst (λ (xs : List Attempt). Memᴰ x xs) (ground (arith, early)) m
      ]

  IsPending-overdue : (l : Ledger) → Memᴰ x (overdue cutoff after l) → IsPending l
  IsPending-overdue [] m = Memᴰ.not-nil m
  IsPending-overdue ((scope, rows) ∷ l) m =
      elim (Memᴰ.append_cases (overdue_rows cutoff after scope 1 rows) m) [
        | inl here ↦ inl (rows_found scope 1 rows here)
        | inr later ↦ inr (IsPending-overdue l later)
      ]

  overdue-IsPending : (l : Ledger) → IsPending l → Memᴰ x (overdue cutoff after l)
  overdue-IsPending [] p = absurd p
  overdue-IsPending ((scope, rows) ∷ l) (inl here) =
      Memᴰ.append_left (overdue cutoff after l) (found-rows scope 1 rows here)
  overdue-IsPending ((scope, rows) ∷ l) (inr later) =
      Memᴰ.append_right (overdue_rows cutoff after scope 1 rows) (overdue-IsPending l later)

-- The sort keeps the attempts, and a page takes the first of them.
module _ (x : Attempt) where
  inserted : (a : Attempt) (xs : List Attempt) → Memᴰ x (insert_attempt a xs) → Memᴰ x (a ∷ xs)
  inserted a [] m = m
  inserted a (b ∷ rest) m = elim (Bool-cases (cursor_ltb (cursor_of b) (cursor_of a))) [
    | inr other ↦ subst (λ (xs : List Attempt). Memᴰ x xs) (ground (arith, other)) m
    | inl before ↦
        elim (Memᴰ.cases_cons
          (subst (λ (xs : List Attempt). Memᴰ x xs) (ground (arith, before)) m)) [
            | inl same ↦ Memᴰ.tail (Memᴰ.head same)
            | inr later ↦ elim (Memᴰ.cases_cons (inserted a rest later)) [
              | inl one ↦ Memᴰ.head one
              | inr old ↦ Memᴰ.tail (Memᴰ.tail old)
            ]
          ]
  ]

  into_inserted : (a : Attempt) (xs : List Attempt) → Memᴰ x (a ∷ xs) → Memᴰ x (insert_attempt a xs)
  into_inserted a [] m = m
  into_inserted a (b ∷ rest) m = elim (Bool-cases (cursor_ltb (cursor_of b) (cursor_of a))) [
    | inr other ↦ subst (λ (xs : List Attempt). Memᴰ x xs) (ground (arith, other)) m
    | inl before ↦
        subst (λ (xs : List Attempt). Memᴰ x xs) (ground (arith, before))
          (elim (Memᴰ.cases_cons m) [
            | inl same ↦ Memᴰ.tail {x = b} (into_inserted a rest (Memᴰ.head same))
            | inr old ↦ elim (Memᴰ.cases_cons old) [
              | inl one ↦ Memᴰ.head one
              | inr older ↦ Memᴰ.tail (into_inserted a rest (Memᴰ.tail older))
            ]
          ])
  ]

  sorted : (xs : List Attempt) → Memᴰ x (sort_attempts xs) → Memᴰ x xs
  sorted [] m = m
  sorted (a ∷ rest) m = elim (Memᴰ.cases_cons (inserted a (sort_attempts rest) m)) [
    | inl same ↦ Memᴰ.head same
    | inr old ↦ Memᴰ.tail (sorted rest old)
  ]

  into_sorted : (xs : List Attempt) → Memᴰ x xs → Memᴰ x (sort_attempts xs)
  into_sorted [] m = m
  into_sorted (a ∷ rest) m = into_inserted a (sort_attempts rest) (elim (Memᴰ.cases_cons m) [
    | inl same ↦ Memᴰ.head same
    | inr old ↦ Memᴰ.tail (into_sorted rest old)
  ])

  on_page : (n : ℕ) (xs : List Attempt) → Memᴰ x (first_of n xs) → Memᴰ x xs
  on_page zero xs m = absurd (Memᴰ.not-nil m)
  on_page (suc n) [] m = m
  on_page (suc n) (y ∷ xs) m = elim (Memᴰ.cases_cons m) [
    | inl same ↦ Memᴰ.head same
    | inr later ↦ Memᴰ.tail (on_page n xs later)
  ]

short_page : (n : ℕ) (xs : List Attempt) → length (first_of n xs) < n → first_of n xs ≡ xs
short_page zero xs short = absurd (omega (arith, short))
short_page (suc n) [] short = refl
short_page (suc n) (x ∷ xs) short =
    ap (λ (ys : List Attempt). x ∷ ys) (short_page n xs (omega (arith, short)))

page_size : (n : ℕ) (xs : List Attempt) → length (first_of n xs) ≤ n
page_size zero xs = omega arith
page_size (suc n) [] = omega arith
page_size (suc n) (x ∷ xs) = omega (arith, page_size n xs)

-- A page of stale attempts holds no more than its limit and only attempts that are pending: unfinished,
-- started by the cutoff, and after the cursor of the page before. A page that is not full holds all of them.
pub stale_page :
    (cutoff : ℤ) (after : AttemptCursor) (limit : ℤ) (l : Ledger) (page : List Attempt)
    → stale cutoff after limit l ≡ ok page
    → (length page ≤ pos_part limit)
      × ((x : Attempt) → Memᴰ x page → IsPending cutoff after x l)
      × (length page < pos_part limit → (x : Attempt) → IsPending cutoff after x l → Memᴰ x page)
unfolding stale
stale_page cutoff after limit l page made = elim (Bool-cases (ltb_ℤ limit (pos 1))) [
  | inl few ↦ absurd (ground (arith, made, few))
  | inr enough ↦
      let all = sort_attempts (overdue cutoff after l) in
      let one : first_of (pos_part limit) all ≡ page = ground (arith, made, enough) in
      subst
        (λ (ys : List Attempt).
          (length ys ≤ pos_part limit)
          × ((x : Attempt) → Memᴰ x ys → IsPending cutoff after x l)
          × (length ys < pos_part limit → (x : Attempt) → IsPending cutoff after x l → Memᴰ x ys))
        one
        (
          page_size (pos_part limit) all,
          (λ x m.
              IsPending-overdue cutoff after x l
                (sorted x (overdue cutoff after l) (on_page x (pos_part limit) all m))),
          (λ short x p.
              subst (λ (ys : List Attempt). Memᴰ x ys) (sym (short_page (pos_part limit) all short))
                (into_sorted x (overdue cutoff after l) (overdue-IsPending cutoff after x l p))),
        )
]
