-- ===== src/Application/Sweep/Pages.antt =====
-- sweep.go: a page reaches every attempt that it lists, whatever fails.
use dmpf.Prelude.{
  ℕ, ◌+◌, ◌≡◌, ◌≢◌, refl, ◌∙◌, List, [], ◌∷◌, ◌++◌, Option, none, arith, length, append_assoc,
  append-nil,
}
use dmpf.Ports.Results.{Result, ok, err, panic, Error}
use dmpf.Ports.Attempts.{Attempt, AttemptCursor, cursor_of}
use dmpf.Application.Sweep.{SweepPage, visited, counted, sweep_loop, sweep_stale}

-- The cursor of the last attempt, or the one that the page resumed from.
abbrev pub last_cursor : AttemptCursor → List Attempt → AttemptCursor
last_cursor after [] = after
last_cursor after (a ∷ rest) = last_cursor (cursor_of a) rest

-- A sweeper that never panics, under a context that stays live.
pub record IsLive {S : Type 0} (ended : S → Option Error)
    (close : Attempt → S → S × Result (Unit {0})) : Type 0 where
  pub live : (s : S) → ended s ≡ none
  pub returns : (a : Attempt) (s : S) → (close a s).1 ≢ panic

module _ {S : Type 0} (ended : S → Option Error) (close : Attempt → S → S × Result (Unit {0})) where
  -- Every attempt is closed in turn, on the state that the ones before it left.
  abbrev pub close_all : List Attempt → S → S
  close_all [] s = s
  close_all (a ∷ rest) s = close_all rest ((close a s).0)

  abbrev pub errors_of : List Attempt → S → List Error
  errors_of [] s = []
  errors_of (a ∷ rest) s = elim ((close a s).1) [
    | err x ↦ x ∷ errors_of rest ((close a s).0)
    | _ ↦ errors_of rest ((close a s).0)
  ]

  abbrev pub closed_of : List Attempt → S → ℕ
  closed_of [] s = 0
  closed_of (a ∷ rest) s = elim ((close a s).1) [
    | ok closed ↦ closed_of rest ((close a s).0) + 1
    | _ ↦ closed_of rest ((close a s).0)
  ]

  -- The page that a whole list leaves.
  abbrev pub whole_page : List Attempt → SweepPage → S → SweepPage
  whole_page attempts page s = record {
    seen = page.seen + length attempts;
    swept = page.swept + closed_of attempts s;
    next = last_cursor page.next attempts;
  }

  Whole : List Attempt → SweepPage → List Error → S → Type 0
  Whole attempts page failures s =
      sweep_loop ended close attempts page failures s
      ≡ (close_all attempts s, ok (whole_page attempts page s, failures ++ errors_of attempts s))

  -- One attempt, and what the rest of the list leaves.
  Whole-cons :
      IsLive ended close
      → (a : Attempt) (rest : List Attempt) (page : SweepPage) (failures : List Error) (s : S)
      → ((later : SweepPage) (more : List Error) → Whole rest later more ((close a s).0))
      → Whole (a ∷ rest) page failures s
  unfolding Whole sweep_loop
  Whole-cons h a rest page failures s tail = from ((close a s).1) refl
    where
      from : (k : Result (Unit {0})) → (close a s).1 ≡ k → Whole (a ∷ rest) page failures s
      from (ok closed) e =
          rw (h.live s, e, sweep_loop) (tail (counted (visited a page)) failures ∙ ground arith)
      from (err x) e =
          rw (h.live s, e, sweep_loop)
            (tail (visited a page) (failures ++ x ∷ [])
              ∙ ground (arith, append_assoc failures (x ∷ []) (errors_of rest ((close a s).0))))
      from panic e = absurd (h.returns a s e)

  sweep_loop_all :
      IsLive ended close
      → (attempts : List Attempt) (page : SweepPage) (failures : List Error) (s : S)
      → Whole attempts page failures s
  unfolding Whole sweep_loop
  sweep_loop_all h [] page failures s = ground (arith, append-nil failures)
  sweep_loop_all h (a ∷ rest) page failures s =
      Whole-cons h a rest page failures s
        (λ later more. sweep_loop_all h rest later more ((close a s).0))

  closed_or_failed :
      IsLive ended close
      → (attempts : List Attempt) (s : S)
      → closed_of attempts s + length (errors_of attempts s) ≡ length attempts
  closed_or_failed h [] s = omega arith
  closed_or_failed h (a ∷ rest) s =
      let later = closed_or_failed h rest ((close a s).0) in ground (arith, later, h.returns a s)

  -- Under a context that stays live, and with a close that never panics, a sweep reaches every attempt
  -- that the ledger listed, in its order and whatever fails: each is closed on the state that the ones
  -- before it left, the page counts them all and the ones that closed, its cursor is that of the last, and
  -- the errors of the others are joined, one for each.
  pub sweep_stale_all :
      IsLive ended close
      → (attempts : List Attempt) (after : AttemptCursor) (s : S)
      → (sweep_stale ended close (ok attempts) after s ≡ (
        close_all attempts s,
        ok (
          record {
            seen = length attempts;
            swept = closed_of attempts s;
            next = last_cursor after attempts;
          },
          errors_of attempts s,
        ),
      ))
        × (closed_of attempts s + length (errors_of attempts s) ≡ length attempts)
  unfolding sweep_stale Whole
  sweep_stale_all h attempts after s = (
    sweep_loop_all h attempts (record { seen = 0; swept = 0; next = after }) [] s ∙ ground arith,
    closed_or_failed h attempts s,
  )
