-- ===== src/Memory/Attempts/Stale.antt =====
-- libs/backend/go/memory/attempt_ledger.go: Stale, the pages of the attempts that are overdue. Attempts with
-- equal cursors are one attempt, so the sort needs no order among them.
pub mod Pages
use mathlib.Core.List.{Memᴰ}
use mathlib.Core.List.Memᴰ
use dmpf.Prelude.{
  ℕ, zero, suc, ◌+◌, ◌≤◌, ◌<◌, ◌≡◌, refl, sym, ap, subst, ◌∙◌, ◌⊎◌, inl, inr, String, string_eq,
  text_ltb, Bool, true, false, ◌&&◌, ◌||◌, not, List, [], ◌∷◌, ◌++◌, length, ltb, eqb, ◌==◌,
  if◌then◌else◌, arith, Bool-cases,
}
use dmpf.Prelude.Int.{ℤ, pos, pos_part, ◌<ℤ◌, ltb_ℤ, leb_ℤ, eqb_ℤ}
use dmpf.Ports.Results.{Result, ok, err, Error, invalid_attempt}
use dmpf.Ports.Attempts.{Attempt, AttemptCursor, cursor_of}
use dmpf.Memory.Attempts.Row.{AttemptRow}
use dmpf.Memory.Attempts.Ledger.{AttemptKey, Ledger, attempt_of}

-- Whether compareCursor puts one cursor in front of another.
unfoldable pub cursor_ltb : AttemptCursor → AttemptCursor → Bool
cursor_ltb a b =
    ltb_ℤ a.started_at b.started_at
    || (eqb_ℤ a.started_at b.started_at
        && (text_ltb a.tenant b.tenant
            || (a.tenant == b.tenant && (text_ltb a.key b.key || (a.key == b.key && ltb a.n b.n)))))

abbrev pub is_start : AttemptCursor → Bool
is_start c = eqb_ℤ c.started_at (pos 0) && c.tenant == "" && c.key == "" && eqb c.n 0

abbrev pub is_overdue : ℤ → AttemptCursor → Attempt → AttemptRow → Bool
is_overdue cutoff after a r =
    not r.finished
    && leb_ℤ r.started_at cutoff
    && (is_start after || cursor_ltb after (cursor_of a))

module _ (cutoff : ℤ) (after : AttemptCursor) where
  abbrev pub overdue_rows : AttemptKey → ℕ → List AttemptRow → List Attempt
  overdue_rows scope n [] = []
  overdue_rows scope n (r ∷ rows) =
      let rest = overdue_rows scope (suc n) rows in
      if is_overdue cutoff after (attempt_of scope n r) r then attempt_of scope n r ∷ rest else rest

  abbrev pub overdue : Ledger → List Attempt
  overdue [] = []
  overdue ((scope, rows) ∷ l) = overdue_rows scope 1 rows ++ overdue l

abbrev pub insert_attempt : Attempt → List Attempt → List Attempt
insert_attempt a [] = a ∷ []
insert_attempt a (b ∷ rest) =
    let later = insert_attempt a rest in
    if cursor_ltb (cursor_of b) (cursor_of a) then b ∷ later else a ∷ b ∷ rest

abbrev pub sort_attempts : List Attempt → List Attempt
sort_attempts [] = []
sort_attempts (a ∷ rest) = insert_attempt a (sort_attempts rest)

abbrev pub first_of : ℕ → List Attempt → List Attempt
first_of zero xs = []
first_of (suc n) [] = []
first_of (suc n) (x ∷ xs) = x ∷ first_of n xs

unfoldable pub stale : ℤ → AttemptCursor → ℤ → Ledger → Result (List Attempt)
stale cutoff after limit l =
    if ltb_ℤ limit (pos 1)
    then err invalid_attempt
    else ok (first_of (pos_part limit) (sort_attempts (overdue cutoff after l)))
