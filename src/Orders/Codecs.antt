-- ===== src/Orders/Codecs.antt =====
-- apps/backend/orders/application/codecs.go: the responses of the orders service as stored bytes.
use dmpf.Prelude.{ℕ, ◌≡◌, List, [], ◌++◌, append_assoc, arith}
use dmpf.Prelude.Word.{IsInt64}
use dmpf.Orders.{ItemAccepted, PlacedResponse}
use dmpf.Application.Varint.{append_varint}
use dmpf.Application.Varint.RoundTrip.{append_varint_at}
use dmpf.Application.OutcomeCodec.{
  Texts, OutcomeCodec, reading, encode_string, decode_string, encode_int, decode_int,
}
use dmpf.Application.OutcomeCodec.RoundTrip.{
  Fits, encode_string_at, decode_string_lem, decode_int_lem,
}
use dmpf.Application.OutcomeCodec.Outcomes.{IsCodec}

module _ (t : Texts) where
  abbrev pub item_accepted_codec : OutcomeCodec ItemAccepted
  item_accepted_codec = record {
    encode = λ buf r. encode_int (encode_string t buf r.order) r.items;
    decode = λ d.
        let order = decode_string t d in
        let items = decode_int order.1 in (record { order = order.0; items = items.0 }, items.1);
  }

  abbrev pub placed_codec : OutcomeCodec PlacedResponse
  placed_codec = record {
    encode = λ buf r. encode_string t buf r.order;
    decode = λ d. let order = decode_string t d in (record { order = order.0 }, order.1);
  }

  abbrev pub ItemFits : ItemAccepted → Type 0
  ItemFits r = Fits t r.order × IsInt64 r.items

  item_appends :
      (buf : List ℕ) (r : ItemAccepted)
      → item_accepted_codec.encode buf r ≡ buf ++ item_accepted_codec.encode [] r
  item_appends buf r = ground (
    arith,
    encode_string_at t r.order buf,
    append_varint_at r.items (buf ++ encode_string t [] r.order),
    append_varint_at r.items (encode_string t [] r.order),
    append_assoc buf (encode_string t [] r.order) (append_varint [] r.items),
  )

  item_decodes :
      (r : ItemAccepted) (rest : List ℕ)
      → ItemFits r
      → item_accepted_codec.decode (reading (item_accepted_codec.encode [] r ++ rest))
        ≡ (r, reading rest)
  item_decodes r rest (order, items) = ground (
    arith,
    append_varint_at r.items (encode_string t [] r.order),
    append_assoc (encode_string t [] r.order) (append_varint [] r.items) rest,
    decode_string_lem t r.order (append_varint [] r.items ++ rest) order,
    decode_int_lem r.items rest items,
  )

  pub item_accepted_codec-IsCodec : IsCodec item_accepted_codec ItemFits
  item_accepted_codec-IsCodec = record { appends = item_appends; decodes = item_decodes }

  placed_decodes :
      (r : PlacedResponse) (rest : List ℕ)
      → Fits t r.order
      → placed_codec.decode (reading (placed_codec.encode [] r ++ rest)) ≡ (r, reading rest)
  placed_decodes r rest order = ground (arith, decode_string_lem t r.order rest order)

  pub placed_codec-IsCodec : IsCodec placed_codec (λ r. Fits t r.order)
  placed_codec-IsCodec = record {
    appends = λ buf r. encode_string_at t r.order buf;
    decodes = placed_decodes;
  }
