-- ===== src/Transport/Admission/Slots/Entering.antt =====
-- What `Admit` does once it has its bucket.
use dmpf.Prelude.{
  ℕ, suc, ◌+◌, ◌<◌, ◌≡◌, refl, ◌≢◌, String, string_eq, true, ◌||◌, List, [], ◌∷◌, some, All, eqb,
  arith, length, Bool-cases, inl, inr, subst, sym, ap,
}
use dmpf.Prelude.Int.{ℤ, pos, ◌+ℤ◌, ◌≤ℤ◌, ◌<ℤ◌, eq_of_parts, +ℤ_parts, leb_ℤ}
use dmpf.Prelude.Float.{FloatOps}
use dmpf.Prelude.Maps.{lookup}
use dmpf.Transport.Admission.{below, Limit, Bucket, refill, enter, with_front}
use dmpf.Transport.Admission.Buckets.{count, holds, IsNew, IsDistinct, IsCounted}
use dmpf.Transport.Admission.Slots.{Session, handed, IsCapped, HasConcurrency, Inv}

module _ (O : FloatOps) (limits : List (String × Limit O)) (max_keys : ℤ)
    (positive : HasConcurrency O limits) where
  open O use {geb, one_f}

  -- What `lookup` gives to the rest of `Admit`.
  pub record Front (s : Session O) (l : Limit O) (b : Bucket O) (others : List (Bucket O))
      (issued : ℕ) : Type 0 where
    pub limit_of : lookup b.key.route limits ≡ some l
    pub new : IsNew O b.id others
    pub distinct : IsDistinct O others
    pub issued_b : b.id < issued
    pub issued_others : All (λ x. x.id < issued) others
    pub counted_b : b.inflight ≡ pos (count b.id s.slots)
    pub counted_others : IsCounted O s.slots others
    pub held : (id : ℕ) → count id s.slots ≢ 0 → (eqb b.id id || holds O id others) ≡ true
    pub within : pos (length others + 1) ≤ℤ max_keys
    pub capped_b : b.inflight ≤ℤ l.concurrency
    pub capped_others : All (IsCapped O limits) others

  capped_front :
      (l : Limit O) (b full : Bucket O)
      → lookup b.key.route limits ≡ some l
      → full.key ≡ b.key
      → full.inflight ≤ℤ l.concurrency
      → IsCapped O limits full
  capped_front l b full there k cap m at =
      let same : lookup full.key.route limits ≡ some l =
        subst (λ key. lookup key.route limits ≡ some l) (sym k) there in
      ground arith

  Front-Inv :
      (s : Session O) (l : Limit O) (b : Bucket O) (others : List (Bucket O)) (n : ℕ)
      (full : Bucket O)
      → Inv O limits max_keys s
      → Front s l b others n
      → full.id ≡ b.id
      → full.key ≡ b.key
      → full.inflight ≡ b.inflight
      → Inv O limits max_keys (record s { controller = with_front O s.controller full others n })
  Front-Inv s l b others n full v f i k c = record {
    same_limits = v.same_limits;
    same_ceiling = v.same_ceiling;
    distinct = (subst (λ x. IsNew O x others) (sym i) f.new, f.distinct);
    issued = (ground (arith, f.issued_b), f.issued_others);
    counted = (ground (arith, f.counted_b), f.counted_others);
    held = λ id h. ground (arith, f.held id h);
    within = ground (arith, f.within);
    capped = (capped_front l b full f.limit_of k (ground (arith, f.capped_b)), f.capped_others);
  }

  -- One more request in flight, and its slot.
  entered-Inv :
      (s : Session O) (l : Limit O) (b : Bucket O) (others : List (Bucket O)) (n : ℕ)
      (full : Bucket O)
      → Inv O limits max_keys s
      → Front s l b others n
      → full.id ≡ b.id
      → full.key ≡ b.key
      → full.inflight ≡ b.inflight +ℤ pos 1
      → b.inflight <ℤ l.concurrency
      → Inv O limits max_keys (record {
        controller = with_front O s.controller full others n;
        slots = full.id ∷ s.slots;
      })
  unfolding count
  entered-Inv s l b others n full v f i k c room = record {
    same_limits = v.same_limits;
    same_ceiling = v.same_ceiling;
    distinct = (subst (λ x. IsNew O x others) (sym i) f.new, f.distinct);
    issued = (ground (arith, f.issued_b), f.issued_others);
    counted = (
      ground (
        arith,
        f.counted_b,
        +ℤ_parts b.inflight (pos 1),
        eq_of_parts (b.inflight +ℤ pos 1) (pos (suc (count b.id s.slots))),
      ),
      others-counted others (subst (λ x. IsNew O x others) (sym i) f.new) f.counted_others,
    );
    held = λ id h. ground (arith, f.held id);
    within = ground (arith, f.within);
    capped = (
      capped_front l b full f.limit_of k (ground (arith, +ℤ_parts b.inflight (pos 1))),
      f.capped_others,
    );
  }
    where
      others-counted :
          (bs : List (Bucket O))
          → IsNew O full.id bs
          → IsCounted O s.slots bs
          → IsCounted O (full.id ∷ s.slots) bs
      others-counted [] new cs = cs
      others-counted (x ∷ bs) (m, new) (c, cs) = (ground arith, others-counted bs new cs)

  refill_parts :
      (l : Limit O) (now : ℤ) (b : Bucket O)
      → ((refill O l now b).id ≡ b.id)
        × ((refill O l now b).key ≡ b.key)
        × ((refill O l now b).inflight ≡ b.inflight)
  unfolding refill
  refill_parts l now b = ground arith

  pub enter-Inv :
      (s : Session O) (l : Limit O) (now : ℤ) (b : Bucket O) (others : List (Bucket O)) (n : ℕ)
      → Inv O limits max_keys s
      → Front s l b others n
      → Inv O limits max_keys (handed O s (enter O l now s.controller b others n))
  unfolding enter handed
  enter-Inv s l now b others n v f =
      let (i, k, c) = refill_parts l now b in
      elim (Bool-cases (leb_ℤ l.concurrency b.inflight)) [
        | inl full ↦ rw (full, enter) (Front-Inv s l b others n b v f refl refl refl)
        | inr room ↦ elim (Bool-cases (below O (refill O l now b).tokens one_f)) [
          | inl dry ↦ rw (room, enter, dry) (Front-Inv s l b others n (refill O l now b) v f i k c)
          | inr wet ↦
              rw (room, enter, wet)
                (entered-Inv s l b others n
                  (record (refill O l now b) {
                    tokens = O.sub (refill O l now b).tokens one_f;
                    inflight = (refill O l now b).inflight +ℤ pos 1;
                  })
                  v f i k (ap (λ x. x +ℤ pos 1) c) (ground arith))
        ]
      ]
