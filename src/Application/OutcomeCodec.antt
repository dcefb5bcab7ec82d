-- ===== src/Application/OutcomeCodec.antt =====
-- libs/backend/go/application/outcome_codec.go: the bytes that an idempotency record keeps of an outcome.
-- An Encoder is its buffer. `Texts` is Go's conversion between a string and its bytes.
pub mod RoundTrip
pub mod Outcomes
use dmpf.Prelude.{
  ℕ, zero, suc, ◌-◌, ◌≡◌, String, Bool, true, false, ◌||◌, not, List, [], ◌∷◌, ◌++◌, ltb, eqb,
  if◌then◌else◌, length,
}
use dmpf.Prelude.Int.{ℤ, pos, pos_part, leb_ℤ}
use dmpf.Domain.{Detail, Rejection}
use dmpf.Ports.Results.{Result, ok, err, panic, undecodable_outcome}
use dmpf.Application.Decide.{Outcome, accept, refuse}
use dmpf.Application.Varint.{append_uvarint, append_varint, read_uvarint, read_varint}

pub record Texts : Type 0 where
  pub bytes : String → List ℕ
  pub text : List ℕ → String
  pub text_of_bytes : (s : String) → text (bytes s) ≡ s

abbrev pub outcome_version : ℕ
outcome_version = 1

abbrev pub branch_accepted : ℕ
branch_accepted = b'a'

abbrev pub branch_rejected : ℕ
branch_rejected = b'r'

abbrev pub max_details_count : ℕ
max_details_count = 1024

-- buf[:n] and buf[n:], where n is at most the length.
abbrev pub take : ℕ → List ℕ → List ℕ
take zero bs = []
take (suc n) [] = []
take (suc n) (b ∷ bs) = b ∷ take n bs

abbrev pub drop : ℕ → List ℕ → List ℕ
drop zero bs = bs
drop (suc n) [] = []
drop (suc n) (b ∷ bs) = drop n bs

-- `failed` is whether `err` is set.
pub record Decoder : Type 0 where
  pub buf : List ℕ
  pub failed : Bool

abbrev pub reading : List ℕ → Decoder
reading bs = record { buf = bs; failed = false }

abbrev pub fail : Decoder → Decoder
fail d = record d { failed = true }

abbrev pub advance : Decoder → ℤ → Decoder
advance d n = record d { buf = drop (pos_part n) d.buf }

unfoldable pub decode_uint : Decoder → ℕ × Decoder
decode_uint d =
    let read = read_uvarint d.buf in
    if d.failed
    then (0, d)
    else if leb_ℤ read.1 (pos 0)
    then (0, fail d)
    else (read.0, advance d read.1)

unfoldable pub decode_int : Decoder → ℤ × Decoder
decode_int d =
    let read = read_varint d.buf in
    if d.failed
    then (pos 0, d)
    else if leb_ℤ read.1 (pos 0)
    then (pos 0, fail d)
    else (read.0, advance d read.1)

abbrev pub encode_int : List ℕ → ℤ → List ℕ
encode_int = append_varint

-- One operation's response as bytes.
pub record OutcomeCodec (R : Type 0) : Type 0 where
  pub encode : List ℕ → R → List ℕ
  pub decode : Decoder → R × Decoder

module _ (t : Texts) where
  unfoldable pub encode_string : List ℕ → String → List ℕ
  encode_string buf value = append_uvarint buf (length (t.bytes value)) ++ t.bytes value

  unfoldable pub decode_string : Decoder → String × Decoder
  decode_string d =
      let n = (decode_uint d).0 in
      let after = (decode_uint d).1 in
      if after.failed
      then ("", after)
      else if ltb (length after.buf) n
      then ("", fail after)
      else (t.text (take n after.buf), record after { buf = drop n after.buf })

  unfoldable pub encode_detail : List ℕ → Detail → List ℕ
  encode_detail buf d = encode_string (encode_string buf d.key) d.value

  unfoldable pub encode_details : List ℕ → List Detail → List ℕ
  encode_details buf [] = buf
  encode_details buf (d ∷ ds) = encode_details (encode_detail buf d) ds

  unfoldable pub decode_detail : Decoder → Detail × Decoder
  decode_detail d =
      let key = decode_string d in
      let value = decode_string key.1 in (record { key = key.0; value = value.0 }, value.1)

  unfoldable pub decode_details : ℕ → Decoder → List Detail × Decoder
  decode_details zero d = ([], d)
  decode_details (suc count) d =
      let one = decode_detail d in let rest = decode_details count one.1 in (one.0 ∷ rest.0, rest.1)

  unfoldable pub encode_rejection : List ℕ → Rejection → List ℕ
  encode_rejection buf r =
      encode_details
        (append_uvarint (encode_string (encode_string buf r.code) r.message) (length r.details))
        r.details

  -- The checks after the branch is read.
  abbrev pub finished {ℓ} : {A : Type ℓ} → A × Decoder → Result A
  finished (a, d) =
      if d.failed
      then err undecodable_outcome
      else if not (eqb (length d.buf) 0)
      then err undecodable_outcome
      else ok a

  unfoldable pub decode_rejection : Decoder → Result (Rejection × Decoder)
  decode_rejection d =
      let code = decode_string d in
      let message = decode_string code.1 in
      let count = decode_uint message.1 in
      let details = decode_details count.0 count.1 in
      if ltb max_details_count count.0
      then err undecodable_outcome
      else ok (record { code = code.0; message = message.0; details = details.0 }, details.1)

  module _ {R : Type 0} (codec : OutcomeCodec R) where
    unfoldable pub encode_outcome : Outcome R → List ℕ
    encode_outcome (accept r) = codec.encode (outcome_version ∷ branch_accepted ∷ []) r
    encode_outcome (refuse r) = encode_rejection (outcome_version ∷ branch_rejected ∷ []) r

    abbrev pub refused : Result (Rejection × Decoder) → Result (Outcome R)
    refused (ok (r, d)) = finished (refuse r, d)
    refused (err x) = err x
    refused panic = panic

    abbrev pub decode_branch : ℕ → Decoder → Result (Outcome R)
    decode_branch branch d =
        let accepted = codec.decode d in
        if eqb branch branch_accepted
        then finished (accept accepted.0, accepted.1)
        else if eqb branch branch_rejected
        then refused (decode_rejection d)
        else err undecodable_outcome

    unfoldable pub decode_outcome : List ℕ → Result (Outcome R)
    decode_outcome [] = err undecodable_outcome
    decode_outcome (version ∷ []) = err undecodable_outcome
    decode_outcome (version ∷ branch ∷ stored) =
        if not (eqb version outcome_version)
        then err undecodable_outcome
        else decode_branch branch (reading stored)
