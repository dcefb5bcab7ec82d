-- ===== src/Application/OutcomeCodec/Outcomes.antt =====
-- outcome_codec.go: the round trip of EncodeOutcome and DecodeOutcome, and where it ends.
use dmpf.Prelude.{
  ℕ, ◌≤◌, ◌<◌, ◌≡◌, List, [], ◌∷◌, ◌++◌, append-nil, append_assoc, arith, length, All,
}
use dmpf.Prelude.Word.{full_range}
use dmpf.Domain.{Rejection}
use dmpf.Ports.Results.{ok, err, undecodable_outcome}
use dmpf.Application.Decide.{Outcome, accept, refuse}
use dmpf.Application.Varint.{append_uvarint}
use dmpf.Application.OutcomeCodec.{
  Texts, max_details_count, reading, OutcomeCodec, encode_string, encode_details, decode_rejection,
  encode_outcome, decode_outcome,
}
use dmpf.Application.OutcomeCodec.RoundTrip.{
  Fits, DetailFits, decode_uint_lem, decode_string_lem, decode_details_lem, encode_rejection_at,
  rejection_bytes,
}

-- What a context declares: its codec appends, and reads back the responses that are `Valid`.
pub record IsCodec {R : Type 0} (codec : OutcomeCodec R) (Valid : R → Type 0) : Type 0 where
  pub appends : (buf : List ℕ) (r : R) → codec.encode buf r ≡ buf ++ codec.encode [] r
  pub decodes :
      (r : R) (rest : List ℕ)
      → Valid r
      → codec.decode (reading (codec.encode [] r ++ rest)) ≡ (r, reading rest)

module _ (t : Texts) where
  -- The texts of a rejection have lengths that a uint64 holds.
  pub record IsStorable (r : Rejection) : Type 0 where
    pub code_fits : Fits t r.code
    pub message_fits : Fits t r.message
    pub details_fit : All (DetailFits t) r.details
    pub count_fits : length r.details < full_range

  -- The decoder on the four parts of a rejection.
  decode_rejection_lem :
      (r : Rejection) (rest : List ℕ)
      → IsStorable r
      → length r.details ≤ max_details_count
      → decode_rejection t (reading (rejection_bytes t r ++ rest)) ≡ ok (r, reading rest)
  unfolding decode_rejection
  decode_rejection_lem r rest s few =
      let code = encode_string t [] r.code in
      let message = encode_string t [] r.message in
      let count = append_uvarint [] (length r.details) in
      let details = encode_details t [] r.details in
      ground (
        arith,
        append_assoc code (message ++ (count ++ details)) rest,
        append_assoc message (count ++ details) rest,
        append_assoc count details rest,
        decode_string_lem t r.code (message ++ (count ++ (details ++ rest))) s.code_fits,
        decode_string_lem t r.message (count ++ (details ++ rest)) s.message_fits,
        decode_uint_lem (length r.details) (details ++ rest) s.count_fits,
        decode_details_lem t r.details rest s.details_fit,
      )

  decode_rejection_many :
      (r : Rejection) (rest : List ℕ)
      → IsStorable r
      → max_details_count < length r.details
      → decode_rejection t (reading (rejection_bytes t r ++ rest)) ≡ err undecodable_outcome
  unfolding decode_rejection
  decode_rejection_many r rest s many =
      let code = encode_string t [] r.code in
      let message = encode_string t [] r.message in
      let count = append_uvarint [] (length r.details) in
      let details = encode_details t [] r.details in
      ground (
        arith,
        append_assoc code (message ++ (count ++ details)) rest,
        append_assoc message (count ++ details) rest,
        append_assoc count details rest,
        decode_string_lem t r.code (message ++ (count ++ (details ++ rest))) s.code_fits,
        decode_string_lem t r.message (count ++ (details ++ rest)) s.message_fits,
        decode_uint_lem (length r.details) (details ++ rest) s.count_fits,
      )

  abbrev pub IsReadable : {R : Type 0} → (R → Type 0) → Outcome R → Type 0
  IsReadable Valid (accept r) = Valid r
  IsReadable Valid (refuse r) = IsStorable r × (length r.details ≤ max_details_count)

  module _ {R : Type 0} (codec : OutcomeCodec R) (Valid : R → Type 0)
      (lawful : IsCodec codec Valid) where
    -- DecodeOutcome returns the outcome that EncodeOutcome wrote, on both branches: the accepted response
    -- as the operation's codec declares it, and a rejection of at most 1,024 details whose texts have
    -- lengths within uint64.
    pub decode_outcome-encode_outcome :
        (o : Outcome R)
        → IsReadable Valid o
        → decode_outcome t codec (encode_outcome t codec o) ≡ ok o
    unfolding decode_outcome encode_outcome
    decode_outcome-encode_outcome (accept r) h = ground (
      arith,
      lawful.appends (1 ∷ b'a' ∷ []) r,
      lawful.decodes r [] h,
      append-nil (codec.encode [] r),
    )
    decode_outcome-encode_outcome (refuse r) (s, few) = ground (
      arith,
      encode_rejection_at t r (1 ∷ b'r' ∷ []),
      decode_rejection_lem r [] s few,
      append-nil (rejection_bytes t r),
    )

    -- A rejection of more than 1,024 details is encoded, and DecodeOutcome refuses what was encoded.
    pub decode_outcome_many :
        (r : Rejection)
        → IsStorable r
        → max_details_count < length r.details
        → decode_outcome t codec (encode_outcome t codec (refuse r)) ≡ err undecodable_outcome
    unfolding decode_outcome encode_outcome
    decode_outcome_many r s many = ground (
      arith,
      encode_rejection_at t r (1 ∷ b'r' ∷ []),
      decode_rejection_many r [] s many,
      append-nil (rejection_bytes t r),
    )
