-- ===== src/Transport/Admission/Slots/Runs.antt =====
-- The slots of a controller over any sequence of requests and releases.
use dmpf.Prelude.{
  ℕ, ◌+◌, ◌<◌, ◌≡◌, refl, ◌≢◌, String, string_eq, true, List, [], ◌∷◌, some, eqb, arith,
  Option-cases, Bool-cases, inl, inr, subst, ◌∙◌,
}
use text.Mathlib.TextEquality.{eq_iff}
use dmpf.Prelude.Int.{ℤ, pos, ◌<ℤ◌, -ℤ_parts}
use dmpf.Prelude.Float.{FloatOps}
use dmpf.Prelude.Maps.{lookup}
use dmpf.Transport.Admission.{
  BucketKey, Limit, Controller, take_bucket, make_room, find_bucket, admit_under, admit, release,
  valid_limit, valid_limits, new_controller, new_bucket,
}
use dmpf.Transport.Admission.Buckets as Buckets
use dmpf.Transport.Admission.Buckets.{count, give_back, holds, IsNew, IsDistinct, IsCounted}
use dmpf.Transport.Admission.Slots.{
  Session, Move, asks, gives_back, handed, step, run, IsCapped, HasConcurrency, Inv,
}
use dmpf.Transport.Admission.Slots.Entering.{enter-Inv}
use dmpf.Transport.Admission.Slots.Lookups.{found-Front, make_room-Room, new-Front}

module _ (O : FloatOps) (limits : List (String × Limit O)) (max_keys : ℤ)
    (positive : HasConcurrency O limits) where
  open O use {geb, one_f}

  admit_under-Inv :
      (s : Session O) (l : Limit O) (route tenant : String) (now : ℤ)
      → Inv O limits max_keys s
      → lookup route limits ≡ some l
      → Inv O limits max_keys (
          handed O s (admit_under O l (record { route = route; tenant = tenant }) now s.controller))
  unfolding admit_under find_bucket handed
  admit_under-Inv s l route tenant now v at =
      let key : BucketKey = record { route = route; tenant = tenant } in
      elim (Option-cases (take_bucket O key s.controller.lru)) [
        | inr ((b, others), found) ↦
            rw (found, admit_under, find_bucket)
              (enter-Inv O limits max_keys positive s l now b others s.controller.issued v
                (found-Front O limits max_keys positive s l route tenant b others v at found))
        | inl missing ↦ elim (Option-cases (make_room O s.controller.max_keys s.controller.lru)) [
          | inl full ↦ rw (missing, admit_under, find_bucket, full) v
          | inr (left, made) ↦
              rw (missing, admit_under, find_bucket, made)
                (enter-Inv O limits max_keys positive s l now
                  (new_bucket O s.controller.issued key l now) left (s.controller.issued + 1) v
                  (new-Front O limits max_keys positive s l route tenant now left v at
                    (make_room-Room O limits max_keys positive s left v made)))
        ]
      ]

  asks-Inv :
      (s : Session O) (route tenant : String) (now : ℤ)
      → Inv O limits max_keys s
      → Inv O limits max_keys (step O s (asks route tenant now))
  unfolding step admit handed
  asks-Inv s route tenant now v = elim (Option-cases (lookup route s.controller.limits)) [
    | inl undeclared ↦ rw (undeclared, step, admit) v
    | inr (l, declared) ↦
        rw (declared, step, admit)
          (admit_under-Inv s l route tenant now v
            (subst (λ ls. lookup route ls ≡ some l) v.same_limits declared))
  ]

  gives_back-Inv :
      (s : Session O) (id : ℕ)
      → Inv O limits max_keys s
      → Inv O limits max_keys (step O s (gives_back id))
  unfolding step release
  gives_back-Inv s id v = elim (Bool-cases (eqb (count id s.slots) 0)) [
    | inl spent ↦ rw (spent, step) v
    | inr out ↦
        let lru = s.controller.lru in
        let some_out : count id s.slots ≢ 0 = λ p. ground arith in
        rw (out, step)
          (record {
            same_limits = v.same_limits;
            same_ceiling = v.same_ceiling;
            distinct = Buckets.leave-IsDistinct O id lru v.distinct;
            issued =
                Buckets.leave-All O (λ x. x.id < s.controller.issued) id lru (λ b h. h) v.issued;
            counted = Buckets.leave-IsCounted O id s.slots lru some_out v.distinct v.counted;
            held = λ other h.
                Buckets.holds-leave O id other lru
                ∙ v.held other
                    (λ p. h (ground (arith, Buckets.count-give_back id other s.slots some_out)));
            within = ground (arith, Buckets.length-leave O id lru, v.within);
            capped =
                Buckets.leave-All O (IsCapped O limits) id lru
                  (λ b h l at. ground (arith, h l at, -ℤ_parts b.inflight (pos 1))) v.capped;
          })
  ]

  run-Inv :
      (s : Session O) (ms : List (Move O))
      → Inv O limits max_keys s
      → Inv O limits max_keys (run O s ms)
  unfolding run
  run-Inv s [] v = v
  run-Inv s (asks route tenant now ∷ ms) v =
      run-Inv (step O s (asks route tenant now)) ms (asks-Inv s route tenant now v)
  run-Inv s (gives_back id ∷ ms) v = run-Inv (step O s (gives_back id)) ms (gives_back-Inv s id v)

module _ (O : FloatOps) where
  valid_limits-HasConcurrency :
      (limits : List (String × Limit O)) → valid_limits O limits ≡ true → HasConcurrency O limits
  unfolding valid_limits valid_limit lookup
  valid_limits-HasConcurrency [] h route l at = absurd (ground arith)
  valid_limits-HasConcurrency ((r, m) ∷ rest) h route l at =
      let tail : valid_limits O rest ≡ true = ground arith in
      ground (arith, valid_limits-HasConcurrency rest tail route l, eq_iff r route)

  -- From a controller that its configuration allows, after any requests and releases: each bucket counts
  -- exactly the requests whose release is still to be called, never more than the limit of its route
  -- allows; no bucket with such a request was evicted; and there are never more buckets than the ceiling.
  pub run_controller-Inv :
      (limits : List (String × Limit O)) (max_keys : ℤ) (c : Controller O) (ms : List (Move O))
      → new_controller O limits max_keys ≡ some c
      → Inv O limits max_keys (run O (record { controller = c; slots = [] }) ms)
  unfolding new_controller count
  run_controller-Inv limits max_keys c ms made =
      let valid : valid_limits O limits ≡ true = ground arith in
      let ceiling : pos 0 <ℤ max_keys = ground arith in
      let fresh : Controller O = record {
        limits = limits;
        max_keys = max_keys;
        lru = [];
        issued = 0;
      } in
      let same : fresh ≡ c = ground arith in
      subst (λ x. Inv O limits max_keys (run O (record { controller = x; slots = [] }) ms)) same
        (run-Inv O limits max_keys (valid_limits-HasConcurrency limits valid)
          (record { controller = fresh; slots = [] }) ms
          (record {
            same_limits = refl;
            same_ceiling = refl;
            distinct = tt;
            issued = tt;
            counted = tt;
            held = λ id h. absurd (h refl);
            within = ground arith;
            capped = tt;
          }))
