-- ===== src/Application/Fingerprint.antt =====
-- libs/backend/go/application/fingerprint.go: the canonical encoding of a command. A Fingerprint is its
-- bytes; the methods return what they leave of it.
pub mod Injective
use dmpf.Prelude.{ℕ, String, List, [], ◌∷◌, ◌++◌, length}
use dmpf.Prelude.Int.{ℤ}
use dmpf.Application.Varint.{append_uvarint, append_varint}
use dmpf.Application.OutcomeCodec.{Texts}

abbrev pub Fingerprint : Type 0
Fingerprint = List ℕ

abbrev pub field_string : ℕ
field_string = b's'

abbrev pub field_int : ℕ
field_int = b'i'

unfoldable pub append_field : Fingerprint → ℕ → List ℕ → Fingerprint
append_field f kind bytes = append_uvarint (f ++ kind ∷ []) (length bytes) ++ bytes

abbrev pub add_int : Fingerprint → ℤ → Fingerprint
add_int f value = append_field f field_int (append_varint [] value)

module _ (t : Texts) where
  abbrev pub add_string : Fingerprint → String → Fingerprint
  add_string f value = append_field f field_string (t.bytes value)

  abbrev pub new_fingerprint : String → Fingerprint
  new_fingerprint operation = add_string [] operation

  unfoldable pub under : String → Fingerprint → List ℕ
  under operation f = new_fingerprint operation ++ f
