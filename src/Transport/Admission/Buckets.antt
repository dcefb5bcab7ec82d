-- ===== src/Transport/Admission/Buckets.antt =====
-- What looking up, evicting and releasing do to the list of buckets.
use dmpf.Prelude.{
  ℕ, suc, ◌+◌, ◌≡◌, refl, ◌≢◌, Bool, true, false, ◌||◌, List, [], ◌∷◌, some, All, eqb, arith,
  length, if◌then◌else◌, Option-cases, Bool-cases, inl, inr, subst, sym,
}
use dmpf.Prelude.Int.{pos, ◌-ℤ◌, eq_of_parts, -ℤ_parts}
use dmpf.Prelude.Float.{FloatOps}
use dmpf.Transport.Admission.{BucketKey, same_key, Bucket, take_bucket, evict_idle, leave}

-- How many of the slots handed out and not yet given back are of a bucket.
unfoldable pub count : ℕ → List ℕ → ℕ
count id [] = 0
count id (t ∷ ts) = let n = count id ts in if eqb t id then suc n else n

pub give_back : ℕ → List ℕ → List ℕ
give_back id [] = []
give_back id (t ∷ ts) = let rest = give_back id ts in if eqb t id then ts else t ∷ rest

pub count-give_back :
    (id other : ℕ) (ts : List ℕ)
    → count id ts ≢ 0
    → count other (give_back id ts) + (if eqb id other then 1 else 0) ≡ count other ts
unfolding count give_back
count-give_back id other [] h = absurd (h refl)
count-give_back id other (t ∷ ts) h = ground (arith, count-give_back id other ts)

module _ (O : FloatOps) where
  abbrev pub holds : ℕ → List (Bucket O) → Bool
  holds id [] = false
  holds id (b ∷ rest) = eqb b.id id || holds id rest

  -- No other bucket has the identity.
  abbrev pub IsNew : ℕ → List (Bucket O) → Type 0
  IsNew id = All (λ b. b.id ≢ id)

  abbrev pub IsDistinct : List (Bucket O) → Type 0
  IsDistinct [] = Unit
  IsDistinct (b ∷ rest) = IsNew b.id rest × IsDistinct rest

  -- Every slot that a bucket counts is one that was handed out and not given back.
  abbrev pub IsCounted : List ℕ → List (Bucket O) → Type 0
  IsCounted ts = All (λ b. b.inflight ≡ pos (count b.id ts))

  pub take_bucket-All :
      (P : Bucket O → Type 0) (k : BucketKey) (lru others : List (Bucket O)) (b : Bucket O)
      → take_bucket O k lru ≡ some (b, others)
      → All P lru
      → P b × All P others
  unfolding take_bucket
  take_bucket-All P k [] others b h all = absurd (ground arith)
  take_bucket-All P k (c ∷ rest) others b h (here, there) = elim (Bool-cases (same_key c.key k)) [
    | inl same ↦
        let first : c ≡ b = ground arith in
        let left : rest ≡ others = ground arith in (subst P first here, subst (All P) left there)
    | inr apart ↦ elim (Option-cases (take_bucket O k rest)) [
      | inl gone ↦ absurd (ground arith)
      | inr ((found, left), at) ↦
          let (p, ps) = take_bucket-All P k rest left found at there in
          let first : found ≡ b = ground arith in
          let kept : c ∷ left ≡ others = ground arith in
          (subst P first p, subst (All P) kept (here, ps))
    ]
  ]

  pub take_bucket-IsDistinct :
      (k : BucketKey) (lru others : List (Bucket O)) (b : Bucket O)
      → take_bucket O k lru ≡ some (b, others)
      → IsDistinct lru
      → IsNew b.id others × IsDistinct others
  unfolding take_bucket
  take_bucket-IsDistinct k [] others b h d = absurd (ground arith)
  take_bucket-IsDistinct k (c ∷ rest) others b h (new, d) = elim (Bool-cases (same_key c.key k)) [
    | inl same ↦
        let first : c ≡ b = ground arith in
        let left : rest ≡ others = ground arith in
        (
          subst (λ x. IsNew x.id others) first (subst (IsNew c.id) left new),
          subst IsDistinct left d,
        )
    | inr apart ↦ elim (Option-cases (take_bucket O k rest)) [
      | inl gone ↦ absurd (ground arith)
      | inr ((found, left), at) ↦
          let (p, ps) = take_bucket-IsDistinct k rest left found at d in
          let (q, qs) = take_bucket-All (λ x. x.id ≢ c.id) k rest left found at new in
          let first : found ≡ b = ground arith in
          let kept : c ∷ left ≡ others = ground arith in
          (
            subst (λ x. IsNew x.id others) first
                (subst (IsNew found.id) kept ((λ e. q (sym e)), p)),
            subst IsDistinct kept (qs, ps),
          )
    ]
  ]

  pub take_bucket-parts :
      (k : BucketKey) (lru others : List (Bucket O)) (b : Bucket O)
      → take_bucket O k lru ≡ some (b, others)
      → (length lru ≡ length others + 1)
        × (same_key b.key k ≡ true)
        × ((id : ℕ) → holds id lru ≡ (eqb b.id id || holds id others))
  unfolding take_bucket
  take_bucket-parts k [] others b h = absurd (ground arith)
  take_bucket-parts k (c ∷ rest) others b h = elim (Bool-cases (same_key c.key k)) [
    | inl same ↦ (ground arith, ground arith, (λ id. ground arith))
    | inr apart ↦ elim (Option-cases (take_bucket O k rest)) [
      | inl gone ↦ absurd (ground arith)
      | inr ((found, left), at) ↦
          let (n, s, w) = take_bucket-parts k rest left found at in
          (ground arith, ground arith, (λ id. ground (arith, w id)))
    ]
  ]

  pub evict_idle-All :
      (P : Bucket O → Type 0) (lru left : List (Bucket O))
      → evict_idle O lru ≡ some left
      → All P lru
      → All P left
  unfolding evict_idle
  evict_idle-All P [] left h all = absurd (ground arith)
  evict_idle-All P (b ∷ rest) left h (p, ps) = elim (Option-cases (evict_idle O rest)) [
    | inr (kept, at) ↦
        let same : b ∷ kept ≡ left = ground arith in
        subst (All P) same (p, evict_idle-All P rest kept at ps)
    | inl none_idle ↦ let same : rest ≡ left = ground arith in subst (All P) same ps
  ]

  pub evict_idle-IsDistinct :
      (lru left : List (Bucket O)) → evict_idle O lru ≡ some left → IsDistinct lru → IsDistinct left
  unfolding evict_idle
  evict_idle-IsDistinct [] left h d = absurd (ground arith)
  evict_idle-IsDistinct (b ∷ rest) left h (new, d) = elim (Option-cases (evict_idle O rest)) [
    | inr (kept, at) ↦
        let same : b ∷ kept ≡ left = ground arith in
        subst IsDistinct same
          (evict_idle-All (λ x. x.id ≢ b.id) rest kept at new, evict_idle-IsDistinct rest kept at d)
    | inl none_idle ↦ let same : rest ≡ left = ground arith in subst IsDistinct same d
  ]

  -- A bucket with a slot in flight is not the one that goes.
  pub evict_idle-holds :
      (ts : List ℕ) (lru left : List (Bucket O)) (id : ℕ)
      → evict_idle O lru ≡ some left
      → IsCounted ts lru
      → count id ts ≢ 0
      → holds id lru ≡ true
      → holds id left ≡ true
  unfolding evict_idle
  evict_idle-holds ts [] left id h c some_left there = absurd (ground arith)
  evict_idle-holds ts (b ∷ rest) left id h (c, cs) some_left there =
      elim (Option-cases (evict_idle O rest)) [
        | inr (kept, at) ↦
            let same : b ∷ kept ≡ left = ground arith in
            subst (λ l. holds id l ≡ true) same
              (ground (arith, evict_idle-holds ts rest kept id at cs some_left))
        | inl none_idle ↦
            let same : rest ≡ left = ground arith in
            subst (λ l. holds id l ≡ true) same (ground arith)
      ]

  pub length-evict_idle :
      (lru left : List (Bucket O)) → evict_idle O lru ≡ some left → length lru ≡ length left + 1
  unfolding evict_idle
  length-evict_idle [] left h = absurd (ground arith)
  length-evict_idle (b ∷ rest) left h = elim (Option-cases (evict_idle O rest)) [
    | inr (kept, at) ↦ ground (arith, length-evict_idle rest kept at)
    | inl none_idle ↦ ground arith
  ]

  pub leave-IsNew : (id x : ℕ) (lru : List (Bucket O)) → IsNew x lru → IsNew x (leave O id lru)
  unfolding leave
  leave-IsNew id x [] h = h
  leave-IsNew id x (b ∷ rest) (h, hs) = ground (arith, leave-IsNew id x rest hs)

  pub leave-IsDistinct :
      (id : ℕ) (lru : List (Bucket O)) → IsDistinct lru → IsDistinct (leave O id lru)
  unfolding leave
  leave-IsDistinct id [] d = d
  leave-IsDistinct id (b ∷ rest) (new, d) = elim (Bool-cases (eqb b.id id)) [
    | inl same ↦ rw (same, leave) (new, d)
    | inr apart ↦ rw (apart, leave) (leave-IsNew id b.id rest new, leave-IsDistinct id rest d)
  ]

  pub holds-leave :
      (id other : ℕ) (lru : List (Bucket O)) → holds other (leave O id lru) ≡ holds other lru
  unfolding leave
  holds-leave id other [] = refl
  holds-leave id other (b ∷ rest) = ground (arith, holds-leave id other rest)

  pub length-leave : (id : ℕ) (lru : List (Bucket O)) → length (leave O id lru) ≡ length lru
  unfolding leave
  length-leave id [] = refl
  length-leave id (b ∷ rest) = ground (arith, length-leave id rest)

  -- A property of a bucket that a smaller count of its requests keeps.
  pub leave-All :
      (P : Bucket O → Type 0) (id : ℕ) (lru : List (Bucket O))
      → ((b : Bucket O) → P b → P (record b { inflight = b.inflight -ℤ pos 1 }))
      → All P lru
      → All P (leave O id lru)
  unfolding leave
  leave-All P id [] keeps all = all
  leave-All P id (b ∷ rest) keeps (p, ps) = elim (Bool-cases (eqb b.id id)) [
    | inl same ↦ rw (same, leave) (keeps b p, ps)
    | inr apart ↦ rw (apart, leave) (p, leave-All P id rest keeps ps)
  ]

  give_back-IsCounted :
      (id : ℕ) (ts : List ℕ) (lru : List (Bucket O))
      → count id ts ≢ 0
      → IsNew id lru
      → IsCounted ts lru
      → IsCounted (give_back id ts) lru
  give_back-IsCounted id ts [] h new c = c
  give_back-IsCounted id ts (b ∷ rest) h (n, new) (c, cs) =
      (ground (arith, count-give_back id b.id ts h), give_back-IsCounted id ts rest h new cs)

  pub leave-IsCounted :
      (id : ℕ) (ts : List ℕ) (lru : List (Bucket O))
      → count id ts ≢ 0
      → IsDistinct lru
      → IsCounted ts lru
      → IsCounted (give_back id ts) (leave O id lru)
  unfolding leave
  leave-IsCounted id ts [] h d c = c
  leave-IsCounted id ts (b ∷ rest) h (new, d) (c, cs) = elim (Bool-cases (eqb b.id id)) [
    | inl same ↦
        let this : b.id ≡ id = ground arith in
        rw (same, leave)
          (
            ground (
              arith,
              count-give_back id id ts h,
              -ℤ_parts b.inflight (pos 1),
              eq_of_parts (b.inflight -ℤ pos 1) (pos (count b.id (give_back id ts))),
            ),
            give_back-IsCounted id ts rest h (subst (λ x. IsNew x rest) this new) cs,
          )
    | inr apart ↦
        rw (apart, leave)
          (ground (arith, count-give_back id b.id ts h), leave-IsCounted id ts rest h d cs)
  ]
