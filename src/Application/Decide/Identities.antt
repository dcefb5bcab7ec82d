-- ===== src/Application/Decide/Identities.antt =====
-- The identifiers that a use case resolves before its transaction opens.
use dmpf.Prelude.{
  ◌≡◌, ◌≢◌, String, string_eq, false, List, [], ◌∷◌, ◌++◌, arith, ◌==◌, any, ap, sym, append_assoc,
  append-nil,
}
use text.Mathlib.TextEquality.{eq_iff}
use dmpf.Ports.Results.{ok, panic}
use dmpf.Application.Decide.{take_ids}

abbrev pub IsFresh : List String → String → Type 0
IsFresh taken id = any (λ t. t == id) taken ≡ false

-- No identifier is empty, in `taken` or a repetition.
abbrev pub AllFresh : List String → List String → Type 0
AllFresh taken [] = Unit
AllFresh taken (id ∷ ids) = (id ≢ "") × IsFresh taken id × AllFresh (taken ++ id ∷ []) ids

-- Identifiers are resolved exactly where none of them is empty or repeated, and are then those that
-- the generator handed out, in its order; every other supply panics.
pub take_ids_lem :
    (taken supply : List String)
    → (AllFresh taken supply → take_ids taken supply ≡ ok (taken ++ supply))
      × ((take_ids taken supply ≢ panic) → AllFresh taken supply)
unfolding take_ids
take_ids_lem taken [] = ((λ h. ap ok (sym (append-nil taken))), (λ h. tt))
take_ids_lem taken (id ∷ ids) =
    let (forth, back) = take_ids_lem (taken ++ id ∷ []) ids in
    (
      (λ (named, new, later).
          ground (arith, eq_iff id "", forth later, append_assoc taken (id ∷ []) ids)),
      (λ h.
          let named : id ≢ "" = λ p. h (ground (arith, eq_iff id "")) in
          let new : IsFresh taken id = ground arith in
          (named, new, back (λ p. h (ground (arith, eq_iff id ""))))),
    )
