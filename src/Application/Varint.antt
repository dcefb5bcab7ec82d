-- ===== src/Application/Varint.antt =====
-- libs/backend/go/application/varint.go: the variable length integers of the stored outcomes and of the
-- fingerprints. A byte slice is a list of numbers, a uint64 is a number below 2 ^ 64, and a shift to the
-- left drops what passes bit 63.
pub mod Bits
pub mod RoundTrip
use Prim.Native.Nat.{bit_and, bit_or}
use dmpf.Prelude.{
  ℕ, zero, suc, ◌+◌, ◌-◌, ◌*◌, ◌/◌, ◌%◌, ◌^◌, Bool, ◌&&◌, ◌||◌, List, [], ◌∷◌, ◌++◌, ltb, leb, eqb,
  if◌then◌else◌,
}
use dmpf.Prelude.Int.{ℤ, pos, negsuc}
use dmpf.Prelude.Word.{half_range, full_range}

abbrev pub max_varint_len : ℕ
max_varint_len = 10

-- The loop of appendUvarint. A value of seven bits ends it, so a uint64 takes nine rounds before its last
-- byte.
pub append_groups : ℕ → List ℕ → ℕ → List ℕ
append_groups zero buf value = buf ++ value % 256 ∷ []
append_groups (suc rounds) buf value =
    let longer = append_groups rounds (buf ++ bit_or (value % 256) 0x80 ∷ []) (value / 128) in
    if leb 0x80 value then longer else buf ++ value % 256 ∷ []

unfoldable pub append_uvarint : List ℕ → ℕ → List ℕ
unfolding append_groups
append_uvarint buf value = append_groups 9 buf value

-- uint64(value), int64(value) and the complement of each.
abbrev pub to_uint64 : ℤ → ℕ
to_uint64 (pos n) = n
to_uint64 (negsuc n) = full_range - 1 - n

abbrev pub to_int64 : ℕ → ℤ
to_int64 n = if ltb n half_range then pos n else negsuc (full_range - 1 - n)

abbrev pub flip_int64 : ℤ → ℤ
flip_int64 (pos n) = negsuc n
flip_int64 (negsuc n) = pos n

abbrev pub flip_negative : ℤ → ℕ → ℕ
flip_negative (pos n) shifted = shifted
flip_negative (negsuc n) shifted = full_range - 1 - shifted

unfoldable pub zigzag : ℤ → ℕ
zigzag value = flip_negative value (to_uint64 value * 2 % full_range)

unfoldable pub append_varint : List ℕ → ℤ → List ℕ
unfolding zigzag
append_varint buf value = append_uvarint buf (zigzag value)

-- The loop of readUvarint: `i` bytes are read, and a count that is not positive is a failure.
unfoldable pub read_groups : List ℕ → ℕ → ℕ → ℕ → ℕ × ℤ
read_groups [] i value shift = (0, pos 0)
read_groups (b ∷ rest) i value shift =
    let later =
      read_groups rest (suc i) (bit_or value (bit_and b 0x7f * 2 ^ shift % full_range))
        (shift + 7) in
    if eqb i max_varint_len || (eqb i (max_varint_len - 1) && ltb 1 b)
    then (0, negsuc i)
    else if ltb b 0x80
    then (bit_or value (b * 2 ^ shift % full_range), pos (suc i))
    else later

unfoldable pub read_uvarint : List ℕ → ℕ × ℤ
unfolding read_groups
read_uvarint buf = read_groups buf 0 0 0

unfoldable pub read_varint : List ℕ → ℤ × ℤ
unfolding read_uvarint
read_varint buf =
    let read = read_uvarint buf in
    let value = to_int64 (read.0 / 2) in
    ((if eqb (bit_and read.0 1) 0 then value else flip_int64 value), read.1)
