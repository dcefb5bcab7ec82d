-- ===== src/Application/Varint/RoundTrip.antt =====
-- varint.go: what readUvarint and readVarint make of what the appends wrote.
use Prim.Native.Nat.{bit_and}
use native.Mathlib.Nat.{div-add-mod}
use native.Mathlib.Numerals.{towards_suc}
use dmpf.Prelude.{
  ℕ, zero, suc, ◌+◌, ◌*◌, ◌/◌, ◌%◌, ◌^◌, ◌≤◌, ◌<◌, ◌≡◌, refl, sym, ap, ◌∙◌, List, [], ◌∷◌, ◌++◌,
  append_assoc, arith, length, leb, if◌then◌else◌,
}
use dmpf.Prelude.Int.{ℤ, pos, negsuc}
use dmpf.Prelude.Word.{full_range, half_range, IsInt64}
use dmpf.Application.Varint.{
  append_groups, append_uvarint, append_varint, zigzag, read_groups, read_uvarint, read_varint,
}
use dmpf.Application.Varint.Bits.{bit_and_low, bit_or_high, bit_or_apart, bit_and_one}

-- The bytes of a value of at most k + 1 groups of seven bits.
groups : ℕ → ℕ → List ℕ
groups zero v = v % 256 ∷ []
groups (suc k) v =
    let more = groups k (v / 128) in if leb 128 v then (v % 128 + 128) ∷ more else v % 256 ∷ []

append_groups-groups : (k v : ℕ) (buf : List ℕ) → append_groups k buf v ≡ buf ++ groups k v
unfolding append_groups groups
append_groups-groups zero v buf = refl
append_groups-groups (suc k) v buf = ground (
  arith,
  bit_or_high (v % 256) (omega arith),
  append_groups-groups k (v / 128) (buf ++ (v % 128 + 128) ∷ []),
  append_assoc buf ((v % 128 + 128) ∷ []) (groups k (v / 128)),
)

pub append_uvarint_at : (v : ℕ) (buf : List ℕ) → append_uvarint buf v ≡ buf ++ append_uvarint [] v
unfolding append_uvarint
append_uvarint_at v buf =
    append_groups-groups 9 v buf ∙ ap (λ (t : List ℕ). buf ++ t) (sym (append_groups-groups 9 v []))

-- A value is given to the loop as what is still to be read, above the bits that are read already.
last_byte :
    (w i acc s : ℕ) (rest : List ℕ)
    → w < 128
    → i < 10
    → (i ≡ 9 → w < 2)
    → acc < 2 ^ s
    → acc + w * 2 ^ s < full_range
    → read_groups (w ∷ rest) i acc s ≡ (acc + w * 2 ^ s, pos (suc i))
unfolding read_groups
last_byte w i acc s rest hw hi top low fits = ground (arith, bit_or_apart s acc w)

inner_byte :
    (g i acc s : ℕ) (rest : List ℕ)
    → g < 128
    → i < 9
    → acc < 2 ^ s
    → acc + g * 2 ^ s < full_range
    → read_groups ((g + 128) ∷ rest) i acc s ≡ read_groups rest (suc i) (acc + g * 2 ^ s) (s + 7)
unfolding read_groups
inner_byte g i acc s rest hg hi low fits =
    ground (arith, bit_or_apart s acc g, bit_and_low (g + 128))

power_seven : (s : ℕ) → 2 ^ (s + 7) ≡ 128 * 2 ^ s
power_seven s = simp towards_suc (omega arith)

-- The lowest group of `w` and the rest, both shifted by `s`.
group_apart : (w s : ℕ) → w * 2 ^ s ≡ w % 128 * 2 ^ s + w / 128 * 2 ^ (s + 7)
group_apart w s = omega (
  arith,
  ap (λ (t : ℕ). t * 2 ^ s) (div-add-mod w 128),
  ap (λ (t : ℕ). w / 128 * t) (power_seven s),
)

group_below : (g s : ℕ) → g < 128 → g * 2 ^ s + 2 ^ s ≤ 2 ^ (s + 7)
group_below g s h = grind (arith, power_seven s)

-- With `k` rounds left and `i` bytes read the two make ten.
read_groups-groups :
    (k i w acc s : ℕ) (rest : List ℕ)
    → k + i ≡ 9
    → w < 2 * 128 ^ k
    → acc < 2 ^ s
    → acc + w * 2 ^ s < full_range
    → read_groups (groups k w ++ rest) i acc s ≡ (acc + w * 2 ^ s, pos (i + length (groups k w)))
unfolding groups
read_groups-groups zero i w acc s rest hk hw low fits = ground (arith, last_byte w i acc s rest)
read_groups-groups (suc k) i w acc s rest hk hw low fits = ground (
  arith,
  last_byte w i acc s rest,
  group_apart w s,
  group_below (w % 128) s,
  inner_byte (w % 128) i acc s (groups k (w / 128) ++ rest),
  read_groups-groups k (suc i) (w / 128) (acc + w % 128 * 2 ^ s) (s + 7) rest,
)

-- readUvarint reads back the uint64 that appendUvarint wrote, whatever follows it, and counts its bytes.
pub read_uvarint-append_uvarint :
    (v : ℕ) (rest : List ℕ)
    → v < full_range
    → read_uvarint (append_uvarint [] v ++ rest) ≡ (v, pos (length (append_uvarint [] v)))
unfolding read_uvarint append_uvarint
read_uvarint-append_uvarint v rest h =
    ground (arith, append_groups-groups 9 v [], read_groups-groups 9 0 v 0 0 rest)

low_bit_even : (n : ℕ) → bit_and (n * 2) 1 ≡ 0
low_bit_even n = omega (arith, bit_and_one (n * 2))

low_bit_odd : (n : ℕ) → bit_and (n * 2 + 1) 1 ≡ 1
low_bit_odd n = omega (arith, bit_and_one (n * 2 + 1))

pub zigzag-pos : (n : ℕ) → n < half_range → zigzag (pos n) ≡ n * 2
unfolding zigzag
zigzag-pos n h = omega arith

pub zigzag-negsuc : (n : ℕ) → n < half_range → zigzag (negsuc n) ≡ n * 2 + 1
unfolding zigzag
zigzag-negsuc n h = omega arith

pub zigzag_fits : (a : ℤ) → IsInt64 a → zigzag a < full_range
zigzag_fits (pos n) h = omega (arith, zigzag-pos n)
zigzag_fits (negsuc n) h = omega (arith, zigzag-negsuc n)

-- readVarint reads back every int64 that appendVarint wrote, whatever follows it, and counts its bytes.
pub read_varint-append_varint :
    (a : ℤ) (rest : List ℕ)
    → IsInt64 a
    → read_varint (append_varint [] a ++ rest) ≡ (a, pos (length (append_varint [] a)))
unfolding read_varint append_varint
read_varint-append_varint (pos n) rest h = ground (
  arith,
  read_uvarint-append_uvarint (zigzag (pos n)) rest (zigzag_fits (pos n) h),
  zigzag-pos n,
  low_bit_even n,
)
read_varint-append_varint (negsuc n) rest h = ground (
  arith,
  read_uvarint-append_uvarint (zigzag (negsuc n)) rest (zigzag_fits (negsuc n) h),
  zigzag-negsuc n,
  low_bit_odd n,
)

pub append_varint_at : (a : ℤ) (buf : List ℕ) → append_varint buf a ≡ buf ++ append_varint [] a
unfolding append_varint
append_varint_at a buf = append_uvarint_at (zigzag a) buf

groups_some : (k v : ℕ) → 0 < length (groups k v)
unfolding groups
groups_some zero v = omega arith
groups_some (suc k) v = ground arith

pub append_uvarint_some : (v : ℕ) → 0 < length (append_uvarint [] v)
unfolding append_uvarint
append_uvarint_some v = rw (append_groups-groups 9 v []) (groups_some 9 v)

pub append_varint_some : (a : ℤ) → 0 < length (append_varint [] a)
unfolding append_varint
append_varint_some a = append_uvarint_some (zigzag a)
