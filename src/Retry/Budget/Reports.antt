-- ===== src/Retry/Budget/Reports.antt =====
-- The exhaustion of a budget is reported once.
use dmpf.Prelude.{ℕ, suc, ◌≤◌, ◌≡◌, Bool, true, List, [], ◌∷◌, arith, if◌then◌else◌}
use dmpf.Retry.Budget.{Budget, report_exhaustion, exhausted}

-- The two methods that report, called by any of the dependencies.
pub data Call : Type 0 where
  denied emptied : Call

abbrev pub answer : Budget → Call → Budget × Bool
answer b denied = report_exhaustion b
answer b emptied = exhausted b

-- How many of the calls answer true; between them the balance may move, as `moved` says.
pub reports : (Budget → Budget) → Budget → List Call → ℕ
reports moved b [] = 0
reports moved b (c ∷ cs) =
    let (next, told) = answer b c in
    let n = reports moved (moved next) cs in if told then suc n else n

module _ (moved : Budget → Budget) (keeps : (b : Budget) → (moved b).reported ≡ b.reported) where
  reports_after : (b : Budget) (cs : List Call) → b.reported ≡ true → reports moved b cs ≡ 0
  unfolding reports report_exhaustion exhausted
  reports_after b [] h = ground arith
  reports_after b (denied ∷ cs) h = ground (arith, keeps b, reports_after (moved b) cs)
  reports_after b (emptied ∷ cs) h = ground (arith, keeps b, reports_after (moved b) cs)

  told-reported : (b : Budget) (c : Call) → (answer b c).1 ≡ true → (answer b c).0.reported ≡ true
  unfolding report_exhaustion exhausted
  told-reported b denied h = ground arith
  told-reported b emptied h = ground arith

  -- Whatever calls follow one another, and whatever happens to the balance in between, as long as nothing
  -- else touches the mark of a report, at most one call answers that the budget is exhausted.
  pub reports_once : (b : Budget) (cs : List Call) → reports moved b cs ≤ 1
  unfolding reports
  reports_once b [] = ground arith
  reports_once b (c ∷ cs) =
      let next = (answer b c).0 in
      ground (
        arith,
        told-reported b c,
        keeps next,
        reports_after (moved next) cs,
        reports_once (moved next) cs,
      )
