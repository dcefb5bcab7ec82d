-- ===== src/Memory/Inbox/Held.antt =====
-- An inbox that still holds the entries of an earlier one answers the receipts of those entries alike.
use text.Mathlib.TextEquality.{eq_iff}
use dmpf.Prelude.{◌≡◌, refl, sym, subst, ◌∙◌, ap, String, some, arith, inl, inr, Option-cases}
use dmpf.Prelude.Maps.{lookup}
use dmpf.Ports.Results.{Result, ok, err, panic}
use dmpf.Ports.Context.{Context}
use dmpf.Ports.Inbox.{Receipt, Reception, first}
use dmpf.Memory.Inbox.{
  InboxKey, InboxRow, InboxRows, TxInbox, Pending, fresh, inbox_key_eq, filed_id, receive, register,
}
use dmpf.Memory.Inbox.Replays.{IsServed, register-receive}

-- Every entry of the earlier rows stands in the later ones; others may have come.
abbrev pub Holds : InboxRows → InboxRows → Type 0
Holds earlier later =
    (key : InboxKey) (row : InboxRow) → lookup key earlier ≡ some row → lookup key later ≡ some row

-- An answer that an entry gave: not a first reception.
abbrev pub IsAnswered : Reception Pending → Type 0
IsAnswered (first p) = ⊥
IsAnswered _ = Unit

receive-IsAnswered :
    (key : InboxKey) (r : Receipt) (earlier later : InboxRows) (answer : Reception Pending)
    → Holds earlier later
    → IsAnswered answer
    → receive key r earlier ≡ answer
    → receive key r later ≡ answer
unfolding receive
receive-IsAnswered key r earlier later answer holds known h =
    elim (Option-cases (lookup key earlier)) [
      | inl absent ↦
          let opened : answer ≡ fresh key r = ground (arith, absent, h) in
          absurd (subst IsAnswered opened known)
      | inr (row, there) ↦ ground (arith, there, holds key row there, h)
    ]

pub register-IsAnswered :
    (i : TxInbox) (there : Context) (r : Receipt) (earlier later : InboxRows)
    (answer : Reception Pending)
    → Holds earlier later
    → IsAnswered answer
    → register i there r earlier ≡ ok answer
    → register i there r later ≡ ok answer
unfolding register
register-IsAnswered i there r earlier later answer holds known h = from (filed_id i there r) refl
  where
    from : (k : Result String) → filed_id i there r ≡ k → register i there r later ≡ ok answer
    from (ok id) filed =
        let served : IsServed i r =
          ground
            (arith, h, eq_iff i.consumer "", eq_iff r.consumer "", eq_iff r.consumer i.consumer) in
        let key : InboxKey = record { consumer = i.consumer; id = id } in
        let answered : receive key r earlier ≡ answer =
          ground (arith, sym (register-receive i there r earlier id served filed) ∙ h) in
        register-receive i there r later id served filed
        ∙ ap (λ x. ok x) (receive-IsAnswered key r earlier later answer holds known answered)
    from (err x) filed = absurd (ground (arith, h, filed))
    from panic filed = absurd (ground (arith, h, filed))
