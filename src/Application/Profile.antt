-- ===== src/Application/Profile.antt =====
-- libs/backend/go/application/external_profile.go, outbound_key.go: the profile of a partner, and the key that
-- a command carries to it. A text is its bytes here: an alphabet of ASCII symbols and the key over it.
-- The zero of KeySemantics and of Efficacy stands for every value that is no constant.
pub mod Keys
use Prim.Native.Nat.{bit_and, bit_or}
use dmpf.Prelude.{
  ℕ, zero, suc, ◌+◌, ◌-◌, ◌*◌, ◌/◌, ◌%◌, ◌^◌, ◌≡◌, String, string_eq, List, [], ◌∷◌, ◌++◌, Bool,
  true, false, not, ◌||◌, ◌&&◌, Option, none, some, ◌==◌, min, length, any, ltb, leb, eqb,
  if◌then◌else◌, get_elem?, nat_eq,
}
use dmpf.Prelude.Int.{ℤ, pos, pos_part, ltb_ℤ, leb_ℤ}
use dmpf.Ports.Results.{
  Result, ok, err, ◌>>=◌, ◌>>◌, panic, attempt_profile_invalid, incomplete_outbound_policy,
  incomplete_outbound_intent,
}
use dmpf.Ports.Attempts.{KeySemantics, no_semantics, Efficacy, no_efficacy, ExternalProfile}
use dmpf.Application.OutcomeCodec.{Texts}
use dmpf.Application.Fingerprint.{add_string, add_int, new_fingerprint}

abbrev pub min_key_bits : ℕ
min_key_bits = 128

abbrev pub first_key_symbol : ℕ
first_key_symbol = 0x21

abbrev pub last_key_symbol : ℕ
last_key_symbol = 0x7E

-- The shifts of a length until it is 1; a length below 2 ^ k has less than k of them.
pub bits_from : ℕ → ℕ → ℕ
bits_from zero n = 0
bits_from (suc fuel) n = let more = bits_from fuel (n / 2) in if leb n 1 then 0 else suc more

unfoldable pub symbol_bits : List ℕ → ℕ
unfolding bits_from
symbol_bits alphabet = bits_from (length alphabet) (length alphabet)

abbrev pub is_visible : ℕ → Bool
is_visible b = not (ltb b first_key_symbol || ltb last_key_symbol b)

-- The loop of validateKeyAlphabet, with the symbols that are seen.
unfoldable pub distinct_symbols : List ℕ → List ℕ → Bool
distinct_symbols seen [] = true
distinct_symbols seen (b ∷ bs) =
    is_visible b && not (any (λ s. s == b) seen) && distinct_symbols (b ∷ seen) bs

unfoldable pub valid_key_alphabet : List ℕ → Bool
valid_key_alphabet alphabet = distinct_symbols [] alphabet && not (eqb (symbol_bits alphabet) 0)

abbrev pub declared_semantics : KeySemantics → Bool
declared_semantics no_semantics = false
declared_semantics _ = true

abbrev pub declared_efficacy : Efficacy → Bool
declared_efficacy no_efficacy = false
declared_efficacy _ = true

-- (minKeyBits + bits - 1) / bits
abbrev pub min_length : ℕ → ℕ
min_length bits = (min_key_bits + bits - 1) / bits

-- The bits of a digest from `bit` on, the highest first; an index out of range panics.
unfoldable pub read_bits : List ℕ → ℕ → ℕ → ℕ → Result ℕ
read_bits digest bit zero value = ok value
read_bits digest bit (suc width) value = elim (get_elem? digest (bit / 8)) [
  | none ↦ panic
  | some b ↦
      read_bits digest (suc bit) width (bit_or (bit_and (b / 2 ^ (7 - bit % 8)) 1) (value * 2))
]

abbrev pub symbol_at : List ℕ → ℕ → Result ℕ
symbol_at alphabet v = elim (get_elem? alphabet v) [ none ↦ panic | some s ↦ ok s ]

-- The loop of DeriveOutboundKey from the symbol `i` on.
unfoldable pub symbols_from : List ℕ → List ℕ → ℕ → ℕ → ℕ → Result (List ℕ)
symbols_from digest alphabet bits i zero = ok []
symbols_from digest alphabet bits i (suc more) = read_bits digest (i * bits) bits 0 >>= λ v.
    symbol_at alphabet v >>= λ s.
    symbols_from digest alphabet bits (suc i) more >>= λ rest. ok (s ∷ rest)

abbrev pub digest_bits : ℕ
digest_bits = 256

abbrev pub key_length : ExternalProfile → ℕ → ℕ
key_length p bits = min (pos_part p.key_max_length) (digest_bits / bits)

-- What an outbound key derives from.
pub record OutboundIntent : Type 0 where
  pub tenant : String
  pub destination : String
  pub operation : String
  pub intent_id : String
  pub generation : ℤ

abbrev pub complete_intent : OutboundIntent → Bool
complete_intent i =
    not
      (i.intent_id == "" || i.destination == "" || i.operation == "" || ltb_ℤ i.generation (pos 0))

module _ (t : Texts) where
  unfoldable pub validate_external_profile : ExternalProfile → Result (Unit {0})
  validate_external_profile p =
      let alphabet = t.bytes p.key_alphabet in
      if not (declared_semantics p.key_semantics)
        || not (declared_efficacy p.efficacy)
        || ltb_ℤ p.quiescence (pos 0)
        || leb_ℤ p.max_queries (pos 0)
        || not (valid_key_alphabet alphabet)
        || ltb_ℤ p.key_max_length (pos (min_length (symbol_bits alphabet)))
      then err attempt_profile_invalid
      else ok tt

  abbrev pub canonical_intent : OutboundIntent → List ℕ
  canonical_intent i =
      add_int
        (add_string t
          (add_string t
            (add_string t (add_string t (new_fingerprint t "dmpf.outbound-key") i.tenant)
              i.destination)
            i.operation)
          i.intent_id)
        i.generation

  -- The bytes of the key.
  unfoldable pub derive_outbound_key :
      Option (List ℕ → List ℕ) → ExternalProfile → OutboundIntent → Result (List ℕ)
  derive_outbound_key digest p intent =
      if not (complete_intent intent) then err incomplete_outbound_intent else elim digest [
        | none ↦ err incomplete_outbound_policy
        | some d ↦
            let alphabet = t.bytes p.key_alphabet in
            let bits = symbol_bits alphabet in
            validate_external_profile p
            >> symbols_from (d (canonical_intent intent)) alphabet bits 0 (key_length p bits)
      ]
