-- ===== src/Examples/Commands.antt =====
-- Commands of the orders service, executed, stored and repeated.
use dmpf.Prelude.{
  ℕ, zero, suc, ◌<◌, All, ap, ◌≡◌, refl, string_eq, nat_eq, String, List, [], ◌∷◌, ◌++◌, arith,
  length,
}
use dmpf.Prelude.Int.{pos, negsuc}
use dmpf.Prelude.Word.{full_range}
use dmpf.Domain.{Rejection, Detail}
use dmpf.Application.OutcomeCodec.RoundTrip.{DetailFits}
use dmpf.Ports.Results.{ok, err, undecodable_outcome}
use dmpf.Orders.Codecs.{item_accepted_codec, item_accepted_codec-IsCodec, ItemFits}
use dmpf.Application.Decide.{refuse}
use dmpf.Application.Varint.{append_varint, read_varint}
use dmpf.Application.Varint.RoundTrip.{read_varint-append_varint}
use dmpf.Application.OutcomeCodec.{encode_outcome, decode_outcome}
use dmpf.Application.OutcomeCodec.Outcomes.{
  IsStorable, decode_outcome-encode_outcome, decode_outcome_many,
}
use dmpf.Application.Fingerprint.Injective.{text_field, under-add_fields}
use dmpf.Examples.Texts.{codes}

read_varint-append_varint_example :
    read_varint (append_varint [] (negsuc 699) ++ [])
    ≡ (negsuc 699, pos (length (append_varint [] (negsuc 699))))
read_varint-append_varint_example = read_varint-append_varint (negsuc 699) [] (omega arith)

abbrev refusal : Rejection
refusal = record {
  code = "orders/full";
  message = "full";
  details = record { key = "limit"; value = "2" } ∷ [];
}

refusal-IsStorable : IsStorable codes refusal
refusal-IsStorable = record {
  code_fits = omega arith;
  message_fits = omega arith;
  details_fit = omega arith;
  count_fits = omega arith;
}

decode_outcome-encode_outcome_example :
    decode_outcome codes
      (item_accepted_codec codes)
      (encode_outcome codes (item_accepted_codec codes) (refuse refusal))
    ≡ ok (refuse refusal)
decode_outcome-encode_outcome_example =
    decode_outcome-encode_outcome codes (item_accepted_codec codes) (ItemFits codes)
      (item_accepted_codec-IsCodec codes) (refuse refusal) (refusal-IsStorable, omega arith)

-- A rejection of 1,025 details.
abbrev many : ℕ → List Detail
many zero = []
many (suc n) = record { key = ""; value = "" } ∷ many n

many_lengths : (n : ℕ) → length (many n) ≡ n
many_lengths zero = refl
many_lengths (suc n) = ap suc (many_lengths n)

many_fit : (n : ℕ) → All (DetailFits codes) (many n)
many_fit zero = tt
many_fit (suc n) = ((omega arith, omega arith), many_fit n)

abbrev crowded : ℕ → Rejection
crowded n = record { code = "orders/full"; message = "full"; details = many n }

crowded-IsStorable : (n : ℕ) → n < full_range → IsStorable codes (crowded n)
crowded-IsStorable n h = record {
  code_fits = omega arith;
  message_fits = omega arith;
  details_fit = many_fit n;
  count_fits = omega (arith, many_lengths n);
}

decode_outcome_many_example :
    decode_outcome codes
      (item_accepted_codec codes)
      (encode_outcome codes (item_accepted_codec codes) (refuse (crowded 1025)))
    ≡ err undecodable_outcome
decode_outcome_many_example =
    decode_outcome_many codes (item_accepted_codec codes) (ItemFits codes)
      (item_accepted_codec-IsCodec codes) (crowded 1025) (crowded-IsStorable 1025 (omega arith))
      (omega (arith, many_lengths 1025))

under-add_fields_example :
    (◌≡◌ {A = String} "place" "place") × (text_field "o-1" ∷ [] ≡ text_field "o-1" ∷ [])
under-add_fields_example =
    under-add_fields codes "place" "place" (text_field "o-1" ∷ []) (text_field "o-1" ∷ [])
      (omega arith) (omega arith) (omega arith) (omega arith) refl
