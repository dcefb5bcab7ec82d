-- ===== src/Transport/Admission/Slots.antt =====
-- The controller under any sequence of requests and releases.
pub mod Entering
pub mod Lookups
pub mod Runs
use dmpf.Prelude.{
  ℕ, suc, ◌+◌, ◌<◌, ◌≡◌, refl, ◌≢◌, String, string_eq, Bool, true, false, ◌||◌, not, List, [], ◌∷◌,
  Option, none, some, All, eqb, arith, length, if◌then◌else◌, Option-cases, Bool-cases, inl, inr,
  subst, sym, ap, ◌∙◌, Eq, ◌==◌,
}
use text.Mathlib.TextEquality.{eq_iff}
use dmpf.Prelude.Int.{ℤ, pos, ◌+ℤ◌, ◌-ℤ◌, ◌≤ℤ◌, ◌<ℤ◌, eq_of_parts, -ℤ_parts, +ℤ_parts, leb_ℤ}
use dmpf.Prelude.Float.{FloatOps}
use dmpf.Prelude.Maps.{lookup}
use dmpf.Transport.Admission.{
  Reason, admitted, saturated, BucketKey, same_key, Limit, Bucket, Controller, take_bucket,
  evict_idle, make_room, find_bucket, refill, enter, admit_under, admit, leave, release,
  valid_limit, valid_limits, new_controller, new_bucket, with_front,
}
use dmpf.Transport.Admission.Buckets as Buckets
use dmpf.Transport.Admission.Buckets.{count, give_back, holds, IsNew, IsDistinct, IsCounted}

module _ (O : FloatOps) where
  open O use {geb, one_f}

  -- `slots` are the releases handed out and not yet called, by the identity of their bucket.
  pub record Session : Type 0 where
    pub controller : Controller O
    pub slots : List ℕ

  pub data Move : Type 0 where
    asks : (route tenant : String) → ℤ → Move
    gives_back : ℕ → Move

  pub handed : Session → Controller O × (Reason × Option ℕ) → Session
  handed s (c, (why, none)) = record s { controller = c }
  handed s (c, (why, some id)) = record { controller = c; slots = id ∷ s.slots }

  pub step : Session → Move → Session
  unfolding handed
  step s (asks route tenant now) = handed s (admit O route tenant now s.controller)
  step s (gives_back id) =
      if eqb (count id s.slots) 0
      then s
      else record { controller = release O id s.controller; slots = give_back id s.slots }

  pub run : Session → List Move → Session
  unfolding step
  run s [] = s
  run s (m ∷ ms) = run (step s m) ms

  -- No bucket has more requests in flight than the limit of its route.
  abbrev pub IsCapped : List (String × Limit O) → Bucket O → Type 0
  IsCapped limits b =
      (l : Limit O) → lookup b.key.route limits ≡ some l → b.inflight ≤ℤ l.concurrency

  abbrev pub HasConcurrency : List (String × Limit O) → Type 0
  HasConcurrency limits =
      (route : String) (l : Limit O) → lookup route limits ≡ some l → pos 0 <ℤ l.concurrency

  pub record Inv (limits : List (String × Limit O)) (max_keys : ℤ) (s : Session) : Type 0 where
    pub same_limits : s.controller.limits ≡ limits
    pub same_ceiling : s.controller.max_keys ≡ max_keys
    pub distinct : IsDistinct O s.controller.lru
    pub issued : All (λ b. b.id < s.controller.issued) s.controller.lru
    pub counted : IsCounted O s.slots s.controller.lru
    pub held : (id : ℕ) → count id s.slots ≢ 0 → holds O id s.controller.lru ≡ true
    pub within : pos (length s.controller.lru) ≤ℤ max_keys
    pub capped : All (IsCapped limits) s.controller.lru
