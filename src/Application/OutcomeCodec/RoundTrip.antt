-- ===== src/Application/OutcomeCodec/RoundTrip.antt =====
-- outcome_codec.go: what the decoder makes of what the encoder wrote.
use dmpf.Prelude.{
  ℕ, ◌<◌, ◌≡◌, refl, sym, ap, String, List, [], ◌∷◌, ◌++◌, append-nil, append_assoc, arith, length,
  length-append, All,
}
use dmpf.Prelude.Int.{ℤ}
use dmpf.Prelude.Word.{full_range, IsInt64}
use dmpf.Domain.{Detail, Rejection}
use dmpf.Application.Varint.{append_uvarint, append_varint}
use dmpf.Application.Varint.RoundTrip.{
  read_uvarint-append_uvarint, read_varint-append_varint, append_uvarint_at, append_uvarint_some,
  append_varint_some,
}
use dmpf.Application.OutcomeCodec.{
  Texts, take, drop, reading, decode_uint, decode_int, encode_string, decode_string, encode_detail,
  decode_detail, encode_details, decode_details, encode_rejection,
}

take_append : (xs ys : List ℕ) → take (length xs) (xs ++ ys) ≡ xs
take_append [] ys = refl
take_append (x ∷ xs) ys = ap (λ (t : List ℕ). x ∷ t) (take_append xs ys)

drop_append : (xs ys : List ℕ) → drop (length xs) (xs ++ ys) ≡ ys
drop_append [] ys = refl
drop_append (x ∷ xs) ys = drop_append xs ys

pub decode_uint_lem :
    (v : ℕ) (rest : List ℕ)
    → v < full_range
    → decode_uint (reading (append_uvarint [] v ++ rest)) ≡ (v, reading rest)
unfolding decode_uint
decode_uint_lem v rest h = ground (
  arith,
  read_uvarint-append_uvarint v rest h,
  append_uvarint_some v,
  drop_append (append_uvarint [] v) rest,
)

pub decode_int_lem :
    (a : ℤ) (rest : List ℕ)
    → IsInt64 a
    → decode_int (reading (append_varint [] a ++ rest)) ≡ (a, reading rest)
unfolding decode_int
decode_int_lem a rest h = ground (
  arith,
  read_varint-append_varint a rest h,
  append_varint_some a,
  drop_append (append_varint [] a) rest,
)

module _ (t : Texts) where
  abbrev pub Fits : String → Type 0
  Fits s = length (t.bytes s) < full_range

  abbrev pub DetailFits : Detail → Type 0
  DetailFits d = Fits d.key × Fits d.value

  pub encode_string_at :
      (s : String) (buf : List ℕ) → encode_string t buf s ≡ buf ++ encode_string t [] s
  unfolding encode_string
  encode_string_at s buf = ground (
    arith,
    append_uvarint_at (length (t.bytes s)) buf,
    append_assoc buf (append_uvarint [] (length (t.bytes s))) (t.bytes s),
  )

  pub decode_string_lem :
      (s : String) (rest : List ℕ)
      → Fits s
      → decode_string t (reading (encode_string t [] s ++ rest)) ≡ (s, reading rest)
  unfolding decode_string encode_string
  decode_string_lem s rest h = ground (
    arith,
    append_assoc (append_uvarint [] (length (t.bytes s))) (t.bytes s) rest,
    decode_uint_lem (length (t.bytes s)) (t.bytes s ++ rest) h,
    length-append (t.bytes s) rest,
    take_append (t.bytes s) rest,
    drop_append (t.bytes s) rest,
    t.text_of_bytes s,
  )

  encode_detail_at :
      (d : Detail) (buf : List ℕ) → encode_detail t buf d ≡ buf ++ encode_detail t [] d
  unfolding encode_detail
  encode_detail_at d buf =
      let key = encode_string t [] d.key in
      ground (
        arith,
        encode_string_at d.key buf,
        encode_string_at d.value (buf ++ key),
        encode_string_at d.value key,
        append_assoc buf key (encode_string t [] d.value),
      )

  decode_detail_lem :
      (d : Detail) (rest : List ℕ)
      → DetailFits d
      → decode_detail t (reading (encode_detail t [] d ++ rest)) ≡ (d, reading rest)
  unfolding encode_detail decode_detail
  decode_detail_lem d rest (hk, hv) =
      let key = encode_string t [] d.key in
      let value = encode_string t [] d.value in
      ground (
        arith,
        encode_string_at d.value key,
        append_assoc key value rest,
        decode_string_lem d.key (value ++ rest) hk,
        decode_string_lem d.value rest hv,
      )

  encode_details_at :
      (ds : List Detail) (buf : List ℕ) → encode_details t buf ds ≡ buf ++ encode_details t [] ds
  unfolding encode_details
  encode_details_at [] buf = sym (append-nil buf)
  encode_details_at (d ∷ ds) buf = ground (
    arith,
    encode_detail_at d buf,
    encode_details_at ds (buf ++ encode_detail t [] d),
    encode_details_at ds (encode_detail t [] d),
    append_assoc buf (encode_detail t [] d) (encode_details t [] ds),
  )

  pub decode_details_lem :
      (ds : List Detail) (rest : List ℕ)
      → All DetailFits ds
      → decode_details t (length ds) (reading (encode_details t [] ds ++ rest)) ≡ (ds, reading rest)
  unfolding encode_details decode_details
  decode_details_lem [] rest h = refl
  decode_details_lem (d ∷ ds) rest (hd, hs) = ground (
    arith,
    encode_details_at ds (encode_detail t [] d),
    append_assoc (encode_detail t [] d) (encode_details t [] ds) rest,
    decode_detail_lem d (encode_details t [] ds ++ rest) hd,
    decode_details_lem ds rest hs,
  )

  abbrev pub rejection_bytes : Rejection → List ℕ
  rejection_bytes r =
      encode_string t [] r.code
      ++ (encode_string t [] r.message
          ++ (append_uvarint [] (length r.details) ++ encode_details t [] r.details))

  pub encode_rejection_at :
      (r : Rejection) (buf : List ℕ) → encode_rejection t buf r ≡ buf ++ rejection_bytes r
  unfolding encode_rejection
  encode_rejection_at r buf =
      let code = encode_string t [] r.code in
      let message = encode_string t [] r.message in
      let count = append_uvarint [] (length r.details) in
      ground (
        arith,
        encode_string_at r.code buf,
        encode_string_at r.message (buf ++ code),
        append_uvarint_at (length r.details) ((buf ++ code) ++ message),
        encode_details_at r.details (((buf ++ code) ++ message) ++ count),
        append_assoc ((buf ++ code) ++ message) count (encode_details t [] r.details),
        append_assoc (buf ++ code) message (count ++ encode_details t [] r.details),
        append_assoc buf code (message ++ (count ++ encode_details t [] r.details)),
      )
