-- ===== src/Transport/Admission.antt =====
-- libs/backend/go/transport/admission/admission.go: admission per route and tenant, by a token bucket and
-- a ceiling of requests in flight. The list is the LRU order, most recent first; the Go map is an index of
-- it. `id` is the identity of a bucket, which a release keeps hold of.
pub mod Buckets
pub mod Slots
use dmpf.Prelude.{
  ℕ, suc, ◌+◌, ◌≡◌, ◌↔◌, String, string_eq, Bool, true, false, ◌&&◌, ◌||◌, not, List, [], ◌∷◌,
  Option, none, some, Eq, ◌==◌, eqb, arith, if◌then◌else◌, length,
}
use text.Mathlib.TextEquality.{eq_iff}
use dmpf.Prelude.Int.{ℤ, pos, ◌+ℤ◌, ◌-ℤ◌, ltb_ℤ, leb_ℤ, eqb_ℤ}
use dmpf.Prelude.Float.{FloatOps}
use dmpf.Prelude.Maps.{lookup}

pub data Reason : Type 0 where
  admitted rate_limited saturated undeclared_route : Reason

pub record BucketKey : Type 0 where
  pub route : String
  pub tenant : String

abbrev pub same_key : BucketKey → BucketKey → Bool
same_key a b = a.route == b.route && a.tenant == b.tenant

module _ (O : FloatOps) where
  open O use {F, zero_f, one_f, of_int, add, sub, mul, geb, seconds}

  pub record Limit : Type 0 where
    pub per_second : F
    pub burst : ℤ
    pub concurrency : ℤ

  pub record Bucket : Type 0 where
    pub id : ℕ
    pub key : BucketKey
    pub tokens : F
    pub refilled : ℤ
    pub inflight : ℤ

  -- `issued` counts the buckets that were ever created.
  pub record Controller : Type 0 where
    pub limits : List (String × Limit)
    pub max_keys : ℤ
    pub lru : List Bucket
    pub issued : ℕ

  -- The bucket of a key, and the others in their order.
  pub take_bucket : BucketKey → List Bucket → Option (Bucket × List Bucket)
  take_bucket k [] = none
  take_bucket k (b ∷ rest) =
      let later = take_bucket k rest in
      if same_key b.key k
      then some (b, rest)
      else elim later [ none ↦ none | some (found, others) ↦ some (found, b ∷ others) ]

  -- From the back, the first idle bucket goes.
  pub evict_idle : List Bucket → Option (List Bucket)
  evict_idle [] = none
  evict_idle (b ∷ rest) = elim (evict_idle rest) [
    | some left ↦ some (b ∷ left)
    | none ↦ if eqb_ℤ b.inflight (pos 0) then some rest else none
  ]

  pub make_room : ℤ → List Bucket → Option (List Bucket)
  unfolding evict_idle
  make_room max_keys lru = if leb_ℤ max_keys (pos (length lru)) then evict_idle lru else some lru

  abbrev pub new_bucket : ℕ → BucketKey → Limit → ℤ → Bucket
  new_bucket id k limit now = record {
    id = id;
    key = k;
    tokens = of_int limit.burst;
    refilled = now;
    inflight = pos 0;
  }

  -- `lookup`: the bucket, the others behind it, and the count of buckets created.
  pub find_bucket : BucketKey → Limit → ℤ → Controller → Option (Bucket × (List Bucket × ℕ))
  unfolding take_bucket make_room
  find_bucket k limit now c = elim (take_bucket k c.lru) [
    | some (b, others) ↦ some (b, (others, c.issued))
    | none ↦ elim (make_room c.max_keys c.lru) [
      | none ↦ none
      | some left ↦ some (new_bucket c.issued k limit now, (left, c.issued + 1))
    ]
  ]

  -- `<` on floats, and the builtin min: false of a NaN, and a NaN where either is.
  abbrev pub below : F → F → Bool
  below a b = geb b a && not (geb a b)

  abbrev pub smaller : F → F → F
  smaller a b = if not (geb a a) then a else if not (geb b b) then b else if geb a b then b else a

  pub refill : Limit → ℤ → Bucket → Bucket
  refill limit now b =
      if ltb_ℤ (pos 0) (now -ℤ b.refilled)
      then record b {
        tokens =
            smaller (of_int limit.burst)
              (add b.tokens (mul (seconds (now -ℤ b.refilled)) limit.per_second));
        refilled = now;
      }
      else b

  abbrev pub with_front : Controller → Bucket → List Bucket → ℕ → Controller
  with_front c b others issued = record c { lru = b ∷ others; issued = issued }

  -- What follows `lookup`; the identity of the bucket is what the release keeps.
  pub enter : Limit → ℤ → Controller → Bucket → List Bucket → ℕ → Controller × (Reason × Option ℕ)
  unfolding refill
  enter limit now c b others issued =
      let full = refill limit now b in
      if leb_ℤ limit.concurrency b.inflight
      then (with_front c b others issued, (saturated, none))
      else if below full.tokens one_f
      then (with_front c full others issued, (rate_limited, none))
      else (
        with_front c
            (record full { tokens = sub full.tokens one_f; inflight = full.inflight +ℤ pos 1 })
            others issued,
        (admitted, some full.id),
      )

  -- `Admit` on a declared route.
  pub admit_under : Limit → BucketKey → ℤ → Controller → Controller × (Reason × Option ℕ)
  unfolding find_bucket enter
  admit_under limit k now c = elim (find_bucket k limit now c) [
    | none ↦ (c, (saturated, none))
    | some (b, (others, issued)) ↦ enter limit now c b others issued
  ]

  pub admit : String → String → ℤ → Controller → Controller × (Reason × Option ℕ)
  unfolding admit_under
  admit route tenant now c = elim (lookup route c.limits) [
    | none ↦ (c, (undeclared_route, none))
    | some limit ↦ admit_under limit (record { route = route; tenant = tenant }) now c
  ]

  pub leave : ℕ → List Bucket → List Bucket
  leave id [] = []
  leave id (b ∷ rest) =
      let later = leave id rest in
      if eqb b.id id then record b { inflight = b.inflight -ℤ pos 1 } ∷ rest else b ∷ later

  -- The first call of a release; the later ones do nothing.
  pub release : ℕ → Controller → Controller
  unfolding leave
  release id c = record c { lru = leave id c.lru }

  -- `Validate` of a limit and of a configuration, and `New`.
  unfoldable pub valid_limit : Limit → Bool
  valid_limit l =
      not (geb zero_f l.per_second) && ltb_ℤ (pos 0) l.burst && ltb_ℤ (pos 0) l.concurrency

  unfoldable pub valid_limits : List (String × Limit) → Bool
  unfolding valid_limit
  valid_limits [] = true
  valid_limits ((route, l) ∷ rest) = let later = valid_limits rest in valid_limit l && later

  unfoldable pub new_controller : List (String × Limit) → ℤ → Option Controller
  unfolding valid_limits
  new_controller limits max_keys =
      if eqb (length limits) 0 || leb_ℤ max_keys (pos 0) || not (valid_limits limits)
      then none
      else some (record { limits = limits; max_keys = max_keys; lru = []; issued = 0 })
