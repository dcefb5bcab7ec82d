-- ===== src/Transport/Admission/Slots/Lookups.antt =====
-- The bucket that `lookup` finds, or makes room for.
use dmpf.Prelude.{
  ℕ, ◌+◌, ◌<◌, ◌≡◌, refl, ◌≢◌, String, string_eq, true, false, List, [], ◌∷◌, some, All, eqb, arith,
  length, Bool-cases, inl, inr, subst, sym, ap, ◌∙◌,
}
use text.Mathlib.TextEquality.{eq_iff}
use dmpf.Prelude.Int.{ℤ, pos, ◌≤ℤ◌, leb_ℤ}
use dmpf.Prelude.Float.{FloatOps}
use dmpf.Prelude.Maps.{lookup}
use dmpf.Transport.Admission.{
  BucketKey, same_key, Limit, Bucket, take_bucket, evict_idle, make_room, new_bucket,
}
use dmpf.Transport.Admission.Buckets as Buckets
use dmpf.Transport.Admission.Buckets.{count, give_back, holds, IsNew, IsDistinct, IsCounted}
use dmpf.Transport.Admission.Slots.{Session, IsCapped, HasConcurrency, Inv}
use dmpf.Transport.Admission.Slots.Entering.{Front}

module _ (O : FloatOps) (limits : List (String × Limit O)) (max_keys : ℤ)
    (positive : HasConcurrency O limits) where
  open O use {geb, one_f}

  same_key-route :
      (b : Bucket O) (route tenant : String)
      → same_key b.key (record { route = route; tenant = tenant }) ≡ true
      → b.key.route ≡ route
  same_key-route b route tenant h = ground (arith, eq_iff b.key.route route)

  -- The bucket that is there comes to the front.
  pub found-Front :
      (s : Session O) (l : Limit O) (route tenant : String) (b : Bucket O)
      (others : List (Bucket O))
      → Inv O limits max_keys s
      → lookup route limits ≡ some l
      → take_bucket O (record { route = route; tenant = tenant }) s.controller.lru
        ≡ some (b, others)
      → Front O limits max_keys positive s l b others s.controller.issued
  found-Front s l route tenant b others v at found =
      let key : BucketKey = record { route = route; tenant = tenant } in
      let lru = s.controller.lru in
      let (n, k, w) = Buckets.take_bucket-parts O key lru others b found in
      let (new, apart) = Buckets.take_bucket-IsDistinct O key lru others b found v.distinct in
      let (ib, io) =
        Buckets.take_bucket-All O (λ x. x.id < s.controller.issued) key lru others b found
          v.issued in
      let (cb, co) =
        Buckets.take_bucket-All O (λ x. x.inflight ≡ pos (count x.id s.slots)) key lru others b
          found v.counted in
      let (pb, po) =
        Buckets.take_bucket-All O (IsCapped O limits) key lru others b found v.capped in
      let there : lookup b.key.route limits ≡ some l =
        subst (λ r. lookup r limits ≡ some l) (sym (same_key-route b route tenant k)) at in
      record {
        limit_of = there;
        new = new;
        distinct = apart;
        issued_b = ib;
        issued_others = io;
        counted_b = cb;
        counted_others = co;
        held = λ id h. sym (w id) ∙ v.held id h;
        within = ground (arith, n, v.within);
        capped_b = pb l there;
        capped_others = po;
      }

  -- Room for a bucket that is not there: what is left of the list.
  pub record Room (s : Session O) (left : List (Bucket O)) : Type 0 where
    pub distinct : IsDistinct O left
    pub issued : All (λ x. x.id < s.controller.issued) left
    pub counted : IsCounted O s.slots left
    pub held : (id : ℕ) → count id s.slots ≢ 0 → holds O id left ≡ true
    pub within : pos (length left + 1) ≤ℤ max_keys
    pub capped : All (IsCapped O limits) left

  pub make_room-Room :
      (s : Session O) (left : List (Bucket O))
      → Inv O limits max_keys s
      → make_room O s.controller.max_keys s.controller.lru ≡ some left
      → Room s left
  unfolding make_room
  make_room-Room s left v made =
      elim (Bool-cases (leb_ℤ s.controller.max_keys (pos (length s.controller.lru)))) [
        | inr free ↦
            let same : s.controller.lru ≡ left = ground arith in
            subst (Room s) same (record {
              distinct = v.distinct;
              issued = v.issued;
              counted = v.counted;
              held = v.held;
              within = ground (arith, v.same_ceiling);
              capped = v.capped;
            })
        | inl full ↦
            let lru = s.controller.lru in
            let gone : evict_idle O lru ≡ some left = ground arith in
            record {
              distinct = Buckets.evict_idle-IsDistinct O lru left gone v.distinct;
              issued =
                  Buckets.evict_idle-All O (λ x. x.id < s.controller.issued) lru left gone v.issued;
              counted =
                  Buckets.evict_idle-All O (λ x. x.inflight ≡ pos (count x.id s.slots)) lru left
                    gone v.counted;
              held = λ id h.
                  Buckets.evict_idle-holds O s.slots lru left id gone v.counted h (v.held id h);
              within = ground (arith, Buckets.length-evict_idle O lru left gone, v.within);
              capped = Buckets.evict_idle-All O (IsCapped O limits) lru left gone v.capped;
            }
      ]

  -- A new bucket has an identity that no slot carries.
  pub new-Front :
      (s : Session O) (l : Limit O) (route tenant : String) (now : ℤ) (left : List (Bucket O))
      → Inv O limits max_keys s
      → lookup route limits ≡ some l
      → Room s left
      → Front O limits max_keys positive s l
          (new_bucket O s.controller.issued (record { route = route; tenant = tenant }) l now)
          left
          (s.controller.issued + 1)
  new-Front s l route tenant now left v at r = record {
    limit_of = at;
    new = below left r.issued;
    distinct = r.distinct;
    issued_b = omega arith;
    issued_others = weaken left r.issued;
    counted_b = ap pos (sym unused);
    counted_others = r.counted;
    held = λ id h. ground (arith, r.held id h);
    within = r.within;
    capped_b = ground (arith, positive route l at);
    capped_others = r.capped;
  }
    where
      unheld :
          (bs : List (Bucket O))
          → All (λ x. x.id < s.controller.issued) bs
          → holds O s.controller.issued bs ≡ false
      unheld [] h = refl
      unheld (x ∷ bs) (h, hs) = ground (arith, unheld bs hs)

      unused : count s.controller.issued s.slots ≡ 0
      unused = elim (Bool-cases (eqb (count s.controller.issued s.slots) 0)) [
        | inl none_out ↦ ground arith
        | inr some_out ↦ absurd (
            ground (
              arith,
              v.held s.controller.issued (λ p. ground arith),
              unheld s.controller.lru v.issued,
            ))
      ]

      below :
          (bs : List (Bucket O))
          → All (λ x. x.id < s.controller.issued) bs
          → IsNew O s.controller.issued bs
      below [] h = h
      below (x ∷ bs) (h, hs) = (ground arith, below bs hs)

      weaken :
          (bs : List (Bucket O))
          → All (λ x. x.id < s.controller.issued) bs
          → All (λ x. x.id < s.controller.issued + 1) bs
      weaken [] h = h
      weaken (x ∷ bs) (h, hs) = (omega arith, weaken bs hs)
