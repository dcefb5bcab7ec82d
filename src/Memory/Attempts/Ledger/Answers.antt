-- ===== src/Memory/Attempts/Ledger/Answers.antt =====
-- What a later call is answered once an attempt was begun and closed with a final class.
use dmpf.Prelude.{
  ◌+◌, ◌≡◌, refl, sym, ap, ◌∙◌, String, string_eq, true, false, List, [], ◌∷◌, ◌++◌, some, arith,
  length, get_elem?, set, inl, inr, ◌==◌, beq_refl,
}
use dmpf.Prelude.Int.{ℤ, pos, pos_part}
use dmpf.Prelude.Maps.{insert, lookup-insert_self}
use dmpf.Ports.Results.{Result, ok, err, panic}
use dmpf.Ports.Context.{Context}
use dmpf.Ports.Attempts.{
  is_retryable, Attempt, AttemptStart, started, AttemptOutcome, recorded, Finished,
}
use dmpf.Memory.Rows.{row_key_eq, scoped_key}
use dmpf.Memory.Attempts.Row.{AttemptRow, new_row, close_row, finish_row, valid_outcome}
use dmpf.Memory.Attempts.Ledger.{
  AttemptKey, Ledger, rows_of, attempt_of, is_done, begin_in, finish_in, begin, finish,
  store_started, store_answered,
}
use dmpf.Memory.Attempts.Ledger.Starts.{begin_in_cases}

module _ (r : AttemptRow) where
  get_elem?-append : (rows : List AttemptRow) → get_elem? (rows ++ r ∷ []) (length rows) ≡ some r
  get_elem?-append [] = refl
  get_elem?-append (s ∷ rows) = get_elem?-append rows

  set-append :
      (rows : List AttemptRow) (next : AttemptRow)
      → set (rows ++ r ∷ []) (length rows) next ≡ rows ++ next ∷ []
  set-append [] next = refl
  set-append (s ∷ rows) next = ap (λ (t : List AttemptRow). s ∷ t) (set-append rows next)

-- The outcome of the attempt in the last row closes it.
finish_in-append :
    (o : AttemptOutcome) (r : AttemptRow) (rows : List AttemptRow)
    → pos_part o.n ≡ length rows + 1
    → r.finished ≡ false
    → finish_in o (rows ++ r ∷ [])
      ≡ (rows ++ close_row o r ∷ [], ok (record { result = recorded; class = o.class }))
unfolding finish_in finish_row
finish_in-append o r rows n open_row =
    ground (arith, get_elem?-append r rows, set-append r rows (close_row o r))

close_row_done :
    (o : AttemptOutcome) (message : String) (now : ℤ)
    → is_retryable o.class ≡ false
    → (is_done message (close_row o (new_row message now)) ≡ true)
      × ((close_row o (new_row message now)).class ≡ o.class)
      × ((close_row o (new_row message now)).started_at ≡ now)
      × ((close_row o (new_row message now)).message_id ≡ message)
unfolding close_row
close_row_done o message now h = ground (arith, beq_refl message)

rows_of-insert_self :
    (scope : AttemptKey) (rows : List AttemptRow) (l : Ledger)
    → rows_of scope (insert scope rows l) ≡ rows
unfolding rows_of
rows_of-insert_self scope rows l = ground (arith, lookup-insert_self scope rows l)

-- Begin that started, step by step.
begun_rows :
    (scope : AttemptKey) (message : String) (now : ℤ) (rows next : List AttemptRow) (a : Attempt)
    → begin_in scope message now rows ≡ (next, started a)
    → (next ≡ rows ++ new_row message now ∷ [])
      × (a ≡ attempt_of scope (length rows + 1) (new_row message now))
begun_rows scope message now rows next a h = elim (begin_in_cases scope message now rows) [
  | inl (b, c, found, same) ↦ absurd (ground (arith, same, h))
  | inr (inl (b, found, same)) ↦ absurd (ground (arith, same, h))
  | inr (inr (clear, closed, same)) ↦ ground (arith, same, h)
]

-- What a begin that started tells: its scope, and the row that it added.
pub record Begun (ctx : Context) (key message : String) (now : ℤ) (l next : Ledger) (a : Attempt)
    : Type 0 where
  pub scope : AttemptKey
  pub scoped : scoped_key ctx key ≡ ok scope
  pub named : (key == "" ≡ false) × (message == "" ≡ false)
  pub left : next ≡ insert scope (rows_of scope l ++ new_row message now ∷ []) l
  pub attempt : a ≡ attempt_of scope (length (rows_of scope l) + 1) (new_row message now)

pub begin_scoped :
    (ctx : Context) (key message : String) (now : ℤ) (l : Ledger) (scope : AttemptKey)
    → (key == "" ≡ false) × (message == "" ≡ false)
    → scoped_key ctx key ≡ ok scope
    → begin ctx key message now l ≡ (
        let (rows, start) = begin_in scope message now (rows_of scope l) in
        (store_started scope rows start l, ok start))
unfolding begin
begin_scoped ctx key message now l scope (k, m) h = rw h (ground arith)

begin_guards :
    (ctx : Context) (key message : String) (now : ℤ) (l next : Ledger) (start : AttemptStart)
    → begin ctx key message now l ≡ (next, ok start)
    → (key == "" ≡ false)
      × (message == "" ≡ false)
      × ((scope : AttemptKey) × (scoped_key ctx key ≡ ok scope))
unfolding begin
begin_guards ctx key message now l next start h = from (scoped_key ctx key) refl
  where
    from :
        (k : Result AttemptKey)
        → scoped_key ctx key ≡ k
        → (key == "" ≡ false)
          × (message == "" ≡ false)
          × ((scope : AttemptKey) × (scoped_key ctx key ≡ ok scope))
    from (ok scope) e = (ground (arith, h), ground (arith, h), (scope, e))
    from (err x) e = absurd (ground (arith, h, e))
    from panic e = absurd (ground (arith, h, e))

pub begin-Begun :
    (ctx : Context) (key message : String) (now : ℤ) (l next : Ledger) (a : Attempt)
    → begin ctx key message now l ≡ (next, ok (started a))
    → Begun ctx key message now l next a
begin-Begun ctx key message now l next a h =
    let (k, m, (scope, scoped)) = begin_guards ctx key message now l next (started a) h in
    let stepped = sym (begin_scoped ctx key message now l scope (k, m) scoped) ∙ h in
    let begun : begin_in scope message now (rows_of scope l)
        ≡ ((begin_in scope message now (rows_of scope l)).0, started a) =
      ground (arith, stepped) in
    let (rows, attempt) = begun_rows scope message now (rows_of scope l) _ a begun in
    record {
      scope = scope;
      scoped = scoped;
      named = (k, m);
      left = ground (arith, stepped, begun, rows);
      attempt = attempt;
    }

finish_scoped :
    (ctx : Context) (o : AttemptOutcome) (l : Ledger) (scope : AttemptKey)
    → valid_outcome o ≡ true
    → scoped_key ctx o.key ≡ ok scope
    → finish ctx o l ≡ (
        let (rows, answer) = finish_in o (rows_of scope l) in
        (store_answered scope rows answer l, answer))
unfolding finish
finish_scoped ctx o l scope h e = rw e (ground (arith, h))

finish_guard :
    (ctx : Context) (o : AttemptOutcome) (l closed : Ledger) (f : Finished)
    → finish ctx o l ≡ (closed, ok f)
    → valid_outcome o ≡ true
unfolding finish
finish_guard ctx o l closed f h = ground (arith, h)

-- What the closing of an attempt left: the row of the attempt, ended for good, behind the earlier ones.
pub record Closed (ctx : Context) (key message : String) (closed : Ledger) : Type 0 where
  pub scope : AttemptKey
  pub scoped : scoped_key ctx key ≡ ok scope
  pub named : (key == "" ≡ false) × (message == "" ≡ false)
  pub earlier : List AttemptRow
  pub last : AttemptRow
  pub rows : rows_of scope closed ≡ earlier ++ last ∷ []
  pub ended : is_done message last ≡ true

-- An attempt that Begin started is recorded by the Finish of its outcome, and is ended for good where the
-- class is not retryable.
pub begin-finish :
    (ctx : Context) (key message : String) (now : ℤ) (l begun closed : Ledger) (a : Attempt)
    (o : AttemptOutcome) (f : Finished)
    → begin ctx key message now l ≡ (begun, ok (started a))
    → finish ctx o begun ≡ (closed, ok f)
    → o.key ≡ key
    → o.n ≡ pos a.n
    → is_retryable o.class ≡ false
    → (f.result ≡ recorded) × Closed ctx key message closed
begin-finish ctx key message now l begun closed a o f hb hf same_key same_n final =
    let b = begin-Begun ctx key message now l begun a hb in
    let rows = rows_of b.scope l in
    let row = new_row message now in
    let stored : rows_of b.scope begun ≡ rows ++ row ∷ [] =
      ap (rows_of b.scope) b.left ∙ rows_of-insert_self b.scope (rows ++ row ∷ []) l in
    let numbered : pos_part o.n ≡ length rows + 1 = ground (arith, same_n, b.attempt) in
    let step = finish_in-append o row rows numbered refl in
    let c = close_row o row in
    let (is_last, _, _, _) = close_row_done o message now final in
    let scoped = ap (scoped_key ctx) same_key ∙ b.scoped in
    let answered : ◌≡◌ {A = Ledger × Result Finished}
        (insert b.scope (rows ++ c ∷ []) begun, ok (record { result = recorded; class = o.class }))
        (closed, ok f) =
      sym (
        finish_scoped ctx o begun b.scope (finish_guard ctx o begun closed f hf) scoped
        ∙ ap
            (λ (x : List AttemptRow × Result Finished). (store_answered b.scope x.0 x.1 begun, x.1))
            (ap (finish_in o) stored ∙ step))
      ∙ hf in
    (
      ground (arith, ap (λ x. x.1) answered),
      record {
        scope = b.scope;
        scoped = b.scoped;
        named = b.named;
        earlier = rows;
        last = c;
        rows =
            ap (rows_of b.scope) (sym (ap (λ x. x.0) answered))
            ∙ rows_of-insert_self b.scope (rows ++ c ∷ []) begun;
        ended = is_last;
      },
    )
