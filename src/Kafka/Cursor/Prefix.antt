-- ===== src/Kafka/Cursor/Prefix.antt =====
-- The cursor commits an offset only once every record up to it was acknowledged.
use dmpf.Prelude.{
  ◌≡◌, refl, inl, inr, true, arith, List, [], ◌∷◌, ◌++◌, Option, none, some, All, ◌∙◌, ap, sym, any,
  subst, Bool-cases, All-append, append_assoc, append-nil,
}
use dmpf.Prelude.Int.{ℤ, eqb_ℤ}
use dmpf.Kafka.Cursor.{Cursor, Tracked, track, mark, next_contiguous}
use dmpf.Kafka.Cursor.Acked.{
  acked_prefix, after_prefix, last_of, records, next_contiguous_lem, last_of-append, IsWaiting,
  after_prefix-IsWaiting,
}

-- The life of one partition: what is delivered, acknowledged and committed.
pub data Move (R : Type 0) : Type 0 where
  deliver : R → Move R
  acknowledge : ℤ → Move R
  advance : Move R

-- `committed` is the last record that NextContiguous returned, up to which the group commits.
pub record Session (R : Type 0) : Type 0 where
  pub cursor : Cursor R
  pub committed : Option R
  pub marked : List ℤ

abbrev pub start : {R : Type 0} → Session R
start = record { cursor = []; committed = none; marked = [] }

module _ {R : Type 0} (offset_of : R → ℤ) where
  -- What is committed after NextContiguous answered.
  abbrev pub committed_after : Option R → Option R → Option R
  committed_after before none = before
  committed_after before (some r) = some r

  pub step : Session R → Move R → Session R
  step s (deliver r) = record s { cursor = track r s.cursor }
  step s (acknowledge offset) = record s {
    cursor = mark offset_of offset s.cursor;
    marked = offset ∷ s.marked;
  }
  step s advance =
      let (answer, left) = next_contiguous s.cursor in
      record s { cursor = left; committed = committed_after s.committed answer }

  pub run : Session R → List (Move R) → Session R
  unfolding step
  run s [] = s
  run s (m ∷ ms) = run (step s m) ms

  abbrev pub delivered : List (Move R) → List R
  delivered [] = []
  delivered (deliver r ∷ ms) = r ∷ delivered ms
  delivered (acknowledge offset ∷ ms) = delivered ms
  delivered (advance ∷ ms) = delivered ms

  abbrev pub IsMarked : List ℤ → R → Type 0
  IsMarked marked r = any (λ o. eqb_ℤ (offset_of r) o) marked ≡ true

  abbrev pub AckedMarked : List ℤ → Cursor R → Type 0
  AckedMarked marked = All (λ t. t.acked ≡ true → IsMarked marked t.record_of)

  records-track : (r : R) (c : Cursor R) → records (track r c) ≡ records c ++ r ∷ []
  unfolding track
  records-track r [] = refl
  records-track r (t ∷ c) = ap (λ rs. t.record_of ∷ rs) (records-track r c)

  records-mark : (o : ℤ) (c : Cursor R) → records (mark offset_of o c) ≡ records c
  unfolding mark
  records-mark o [] = refl
  records-mark o (t ∷ c) = ground (arith, records-mark o c)

  All-weaken : (o : ℤ) (m : List ℤ) (rs : List R) → All (IsMarked m) rs → All (IsMarked (o ∷ m)) rs
  All-weaken o m [] h = h
  All-weaken o m (r ∷ rs) (h, hs) = (ground arith, All-weaken o m rs hs)

  track-AckedMarked :
      (r : R) (m : List ℤ) (c : Cursor R) → AckedMarked m c → AckedMarked m (track r c)
  unfolding track
  track-AckedMarked r m [] h = ((λ e. absurd (ground arith)), tt)
  track-AckedMarked r m (t ∷ c) (h, hs) = (h, track-AckedMarked r m c hs)

  weaken-AckedMarked : (o : ℤ) (m : List ℤ) (c : Cursor R) → AckedMarked m c → AckedMarked (o ∷ m) c
  weaken-AckedMarked o m [] h = h
  weaken-AckedMarked o m (t ∷ c) (h, hs) = ((λ e. ground (arith, h e)), weaken-AckedMarked o m c hs)

  mark-AckedMarked :
      (o : ℤ) (m : List ℤ) (c : Cursor R)
      → AckedMarked m c
      → AckedMarked (o ∷ m) (mark offset_of o c)
  unfolding mark
  mark-AckedMarked o m [] h = h
  mark-AckedMarked o m (t ∷ c) (h, hs) = elim (Bool-cases (eqb_ℤ (offset_of t.record_of) o)) [
    | inl same ↦ rw same ((λ e. ground arith), weaken-AckedMarked o m c hs)
    | inr apart ↦ rw apart ((λ e. ground (arith, h e)), mark-AckedMarked o m c hs)
  ]

  prefix-AckedMarked :
      (m : List ℤ) (c : Cursor R)
      → AckedMarked m c
      → All (IsMarked m) (acked_prefix c) × AckedMarked m (after_prefix c)
  prefix-AckedMarked m [] h = (tt, tt)
  prefix-AckedMarked m (t ∷ c) (h, hs) = elim (Bool-cases t.acked) [
    | inl acked ↦ let (ps, left) = prefix-AckedMarked m c hs in rw acked ((h acked, ps), left)
    | inr halted ↦ rw halted (tt, ((λ e. absurd (ground arith)), hs))
  ]

  committed_after-cons :
      (before : Option R) (r : R) (rs : List R)
      → committed_after before (last_of (some r) rs) ≡ last_of (some r) rs
  committed_after-cons before r [] = refl
  committed_after-cons before r (q ∷ rs) = committed_after-cons before q rs

  committed_after-last_of :
      (before : Option R) (rs : List R)
      → committed_after before (last_of none rs) ≡ last_of before rs
  committed_after-last_of before [] = refl
  committed_after-last_of before (r ∷ rs) = committed_after-cons before r rs

  -- Acknowledging the first record and calling NextContiguous commits it, or one of those acknowledged behind.
  head-committed :
      (s : Session R) (t : Tracked R) (c : Cursor R)
      → s.cursor ≡ t ∷ c
      → (step (step s (acknowledge (offset_of t.record_of))) advance).committed
        ≡ last_of (some t.record_of) (acked_prefix c)
  unfolding step mark
  head-committed s t c there =
      let o = offset_of t.record_of in
      let known : eqb_ℤ o o ≡ true = ground arith in
      let marked : mark offset_of o s.cursor ≡ record t { acked = true } ∷ c =
        ap (mark offset_of o) there ∙ ground (arith, known) in
      rw (marked, (next_contiguous_lem (record t { acked = true } ∷ c)).0)
        (committed_after-cons s.committed t.record_of (acked_prefix c))

  -- `done` are the records that have left the cursor, and `given` the ones delivered.
  abbrev pub IsDone : Session R → List R → List R → Type 0
  IsDone s given done =
      (given ≡ done ++ records s.cursor)
      × (s.committed ≡ last_of none done)
      × All (IsMarked s.marked) done

  abbrev Inv : Session R → List R → Type 0
  Inv s given = ((done : List R) × IsDone s given done) × AckedMarked s.marked s.cursor

  advance-Inv : (s : Session R) (given : List R) → Inv s given → Inv (step s advance) given
  unfolding step
  advance-Inv s given ((done, (eq, last, hc)), hm) =
      let (popped, parts) = next_contiguous_lem s.cursor in
      let (ps, left) = prefix-AckedMarked s.marked s.cursor hm in
      let front = acked_prefix s.cursor in
      rw popped (
        (
          done ++ front,
          (
            eq
                ∙ ap (λ rs. done ++ rs) parts
                ∙ sym (append_assoc done front (records (after_prefix s.cursor))),
            committed_after-last_of s.committed front
                ∙ ap (λ o. last_of o front) last
                ∙ sym (last_of-append none done front),
            All-append (IsMarked s.marked) done front hc ps,
          ),
        ),
        left,
      )

  step-Inv :
      (s : Session R) (m : Move R) (given : List R)
      → Inv s given
      → Inv (step s m) (given ++ delivered (m ∷ []))
  unfolding step
  step-Inv s (deliver r) given ((done, (eq, last, hc)), hm) = (
    (
      done,
      (
        ap (λ g. g ++ r ∷ []) eq
            ∙ append_assoc done (records s.cursor) (r ∷ [])
            ∙ ap (λ rs. done ++ rs) (sym (records-track r s.cursor)),
        last,
        hc,
      ),
    ),
    track-AckedMarked r s.marked s.cursor hm,
  )
  step-Inv s (acknowledge o) given ((done, (eq, last, hc)), hm) = (
    (
      done,
      (
        append-nil given ∙ eq ∙ ap (λ rs. done ++ rs) (sym (records-mark o s.cursor)),
        last,
        All-weaken o s.marked done hc,
      ),
    ),
    mark-AckedMarked o s.marked s.cursor hm,
  )
  step-Inv s advance given h =
      subst (Inv (step s advance)) (sym (append-nil given)) (advance-Inv s given h)

  delivered_cons :
      (m : Move R) (ms : List (Move R)) → delivered (m ∷ ms) ≡ delivered (m ∷ []) ++ delivered ms
  delivered_cons (deliver r) ms = refl
  delivered_cons (acknowledge o) ms = refl
  delivered_cons advance ms = refl

  run-from-Inv :
      (s : Session R) (given : List R) (ms : List (Move R))
      → Inv s given
      → Inv (run s ms) (given ++ delivered ms)
  unfolding run
  run-from-Inv s given [] h = subst (Inv s) (sym (append-nil given)) h
  run-from-Inv s given (m ∷ ms) h =
      subst (Inv (run s (m ∷ ms)))
        (append_assoc given (delivered (m ∷ [])) (delivered ms)
          ∙ ap (λ rs. given ++ rs) (sym (delivered_cons m ms)))
        (run-from-Inv (step s m) (given ++ delivered (m ∷ [])) ms (step-Inv s m given h))

  -- Whatever the order of deliveries, acknowledgements and calls of NextContiguous on a partition, the last
  -- record that a call returned is the last of the records that have left the cursor, none where none has. Those
  -- are the first ones delivered, in order and without a gap, each of an offset that was acknowledged, and the
  -- ones that follow are still in the cursor. After one more call, the first record left is unacknowledged; and
  -- once the first record in the cursor is acknowledged, a call returns it or the last of the acknowledged records
  -- that follow it without a gap.
  pub run-committed :
      (ms : List (Move R))
      → let s = run start ms in
        ((done : List R) × IsDone s (delivered ms) done)
        × IsWaiting (step s advance).cursor
        × ((t : Tracked R) (c : Cursor R)
            → s.cursor ≡ t ∷ c
            → (step (step s (acknowledge (offset_of t.record_of))) advance).committed
              ≡ last_of (some t.record_of) (acked_prefix c))
  unfolding step
  run-committed ms = (
    (run-from-Inv start [] ms (([], (refl, refl, tt)), tt)).0,
    rw (next_contiguous_lem (run start ms).cursor).0 (after_prefix-IsWaiting (run start ms).cursor),
    head-committed (run start ms),
  )
