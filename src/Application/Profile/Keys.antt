-- ===== src/Application/Profile/Keys.antt =====
-- outbound_key.go: the key of a valid profile has its length, its strength and its alphabet.
use Prim.Native.Nat.{bit_and, bit_or}
use native.Mathlib.Nat.{div-add-mod, mod-lt}
use dmpf.Prelude.{
  ℕ, zero, suc, ◌+◌, ◌-◌, ◌*◌, ◌/◌, ◌%◌, ◌^◌, ◌≤◌, ◌<◌, ◌≡◌, ◌⊎◌, inl, inr, refl, ap, List, [], ◌∷◌,
  true, some, min, length, All, get_elem?, arith,
}
use dmpf.Prelude.Int.{pos, pos_part, ◌≤ℤ◌}
use dmpf.Ports.Results.{ok}
use dmpf.Ports.Attempts.{ExternalProfile}
use dmpf.Application.OutcomeCodec.{Texts}
use dmpf.Application.Varint.Bits.{bit_and_one, bit_or_apart}
use dmpf.Application.Profile.{
  bits_from, symbol_bits, min_length, validate_external_profile, read_bits, symbol_at, symbols_from,
  key_length, OutboundIntent, complete_intent, canonical_intent, derive_outbound_key,
  valid_key_alphabet,
}

power_suc : (s : ℕ) → 2 ^ suc s ≡ 2 * 2 ^ s
power_suc s = omega arith

bits_from_power : (fuel n : ℕ) → 0 < n → 2 ^ bits_from fuel n ≤ n
unfolding bits_from
bits_from_power zero n h = omega arith
bits_from_power (suc fuel) n h =
    ground (arith, power_suc (bits_from fuel (n / 2)), bits_from_power fuel (n / 2))

bits_from_below : (k fuel n : ℕ) → n < 2 ^ k → bits_from fuel n ≤ k
unfolding bits_from
bits_from_below k zero n h = omega arith
bits_from_below zero (suc fuel) n h = ground arith
bits_from_below (suc k) (suc fuel) n h = ground (arith, power_suc k, bits_from_below k fuel (n / 2))

elem_there :
    {A : Type 0} (xs : List A) (i : ℕ) → i < length xs → (x : A) × (get_elem? xs i ≡ some x)
elem_there [] i h = absurd (omega arith)
elem_there (x ∷ xs) zero h = (x, refl)
elem_there (x ∷ xs) (suc i) h = elem_there xs i (omega arith)

bit_appended : (x v : ℕ) → bit_or (bit_and x 1) (v * 2) ≡ x % 2 + v * 2
bit_appended x v = rw (bit_and_one x) (bit_or_apart 1 (x % 2) v (omega arith))

bound_doubles : (n v w : ℕ) → n < v * 2 + 2 → (n + 1) * 2 ^ w ≤ (v + 1) * 2 ^ suc w
bound_doubles n v w h =
    let k : ℕ = v * 2 + 2 - (n + 1) in
    let e : n + 1 + k ≡ v * 2 + 2 = omega arith in
    omega (arith, ap (λ (t : ℕ). t * 2 ^ w) e, ap (λ (t : ℕ). (v + 1) * t) (power_suc w))

-- The bits of a digest that is long enough.
read_bits_ok :
    (digest : List ℕ) (bit width value : ℕ)
    → bit + width ≤ 8 * length digest
    → (r : ℕ) × (read_bits digest bit width value ≡ ok r) × (r < (value + 1) * 2 ^ width)
unfolding read_bits
read_bits_ok digest bit zero value h = (value, refl, omega arith)
read_bits_ok digest bit (suc width) value h =
    let (b, there) = elem_there digest (bit / 8) (omega arith) in
    let x = b / 2 ^ (7 - bit % 8) in
    let next = bit_or (bit_and x 1) (value * 2) in
    let (r, read, below) = read_bits_ok digest (suc bit) width next (omega arith) in
    (
      r,
      rw (there, read_bits) read,
      omega (arith, below, bound_doubles next value width (omega (arith, bit_appended x value))),
    )

-- The symbol is one of the alphabet's.
abbrev pub Among : List ℕ → ℕ → Type 0
Among [] s = ⊥
Among (x ∷ xs) s = (x ≡ s) ⊎ Among xs s

symbol_there :
    (alphabet : List ℕ) (v : ℕ)
    → v < length alphabet
    → (s : ℕ) × (symbol_at alphabet v ≡ ok s) × Among alphabet s
symbol_there [] v h = absurd (omega arith)
symbol_there (x ∷ xs) zero h = (x, refl, inl refl)
symbol_there (x ∷ xs) (suc v) h =
    let (s, there, among) = symbol_there xs v (omega arith) in (s, there, inr among)

bits_left : (i more bits : ℕ) → i * bits + bits * suc more ≡ suc i * bits + bits * more
bits_left i more bits = grind arith

symbols_from_ok :
    (digest alphabet : List ℕ) (bits i more : ℕ)
    → i * bits + bits * more ≤ 8 * length digest
    → 2 ^ bits ≤ length alphabet
    → (key : List ℕ) × (symbols_from digest alphabet bits i more ≡ ok key)
      × (length key ≡ more)
      × All (Among alphabet) key
unfolding symbols_from
symbols_from_ok digest alphabet bits i zero fits enough = ([], refl, refl, tt)
symbols_from_ok digest alphabet bits i (suc more) fits enough =
    let (v, read, below) = read_bits_ok digest (i * bits) bits 0 (grind (arith, fits)) in
    let (s, there, among) = symbol_there alphabet v (omega (arith, below)) in
    let (rest, got, long, all_among) =
      symbols_from_ok digest alphabet bits (suc i) more (omega (arith, bits_left i more bits))
        enough in
    (s ∷ rest, rw (read, symbols_from) (rw there (rw got refl)), ap suc long, (among, all_among))

mul_mono : (b m n : ℕ) → m ≤ n → b * m ≤ b * n
mul_mono b m n h = let e : m + (n - m) ≡ n = omega arith in omega (arith, ap (λ (t : ℕ). b * t) e)

ceiling : (b : ℕ) → 0 < b → 128 ≤ b * min_length b
ceiling b h = omega (arith, div-add-mod (128 + b - 1) b, mod-lt (128 + b - 1) h)

floor_above : (b : ℕ) → 0 < b → b ≤ 63 → 128 ≤ b * (256 / b)
floor_above b h small = omega (arith, div-add-mod 256 b, mod-lt 256 h)

floor_below : (b : ℕ) → 0 < b → b * (256 / b) ≤ 256
floor_below b h = omega (arith, div-add-mod 256 b)

-- The length that a valid profile takes has the strength, and fits the digest.
key_bits :
    (b m : ℕ)
    → 0 < b
    → b ≤ 63
    → min_length b ≤ m
    → (128 ≤ b * min m (256 / b)) × (b * min m (256 / b) ≤ 256)
key_bits b m h small long = ground (
  arith,
  ceiling b h,
  floor_above b h small,
  floor_below b h,
  mul_mono b (min_length b) m long,
  mul_mono b m (256 / b),
)

few_bits : (alphabet : List ℕ) → length alphabet < 2 ^ 63 → symbol_bits alphabet ≤ 63
unfolding symbol_bits
few_bits alphabet h = bits_from_below 63 (length alphabet) (length alphabet) h

bits_enough :
    (alphabet : List ℕ) → 0 < symbol_bits alphabet → 2 ^ symbol_bits alphabet ≤ length alphabet
unfolding symbol_bits bits_from
bits_enough [] h = absurd (omega (arith, h))
bits_enough (x ∷ xs) h = bits_from_power (length (x ∷ xs)) (length (x ∷ xs)) (omega arith)

-- The digests of the policy have 32 bytes.
abbrev pub IsDigest : (List ℕ → List ℕ) → Type 0
IsDigest digest = (bytes : List ℕ) → length (digest bytes) ≡ 32

module _ (t : Texts) where
  abbrev pub alphabet_of : ExternalProfile → List ℕ
  alphabet_of p = t.bytes p.key_alphabet

  valid_parts :
      (p : ExternalProfile)
      → validate_external_profile t p ≡ ok tt
      → (0 < symbol_bits (alphabet_of p))
        × (min_length (symbol_bits (alphabet_of p)) ≤ pos_part p.key_max_length)
  unfolding validate_external_profile valid_key_alphabet
  valid_parts p h = ground (arith, h)

  -- For a complete intent, a valid profile and a digest of 32 bytes, DeriveOutboundKey answers a key: it is
  -- no longer than the profile takes, it is made of the alphabet's symbols alone, and at the bits that a
  -- symbol carries it has 128 bits or more. The alphabet has a length that an int holds.
  pub derive_outbound_key_strong :
      (digest : List ℕ → List ℕ) (p : ExternalProfile) (intent : OutboundIntent)
      → IsDigest digest
      → length (alphabet_of p) < 2 ^ 63
      → complete_intent intent ≡ true
      → validate_external_profile t p ≡ ok tt
      → (key : List ℕ) × (derive_outbound_key t (some digest) p intent ≡ ok key)
        × (pos (length key) ≤ℤ p.key_max_length)
        × (128 ≤ symbol_bits (alphabet_of p) * length key)
        × All (Among (alphabet_of p)) key
  unfolding derive_outbound_key
  derive_outbound_key_strong digest p intent sized short complete valid =
      let alphabet = alphabet_of p in
      let bits = symbol_bits alphabet in
      let (some_bits, long) = valid_parts p valid in
      let (strong, fits) =
        key_bits bits (pos_part p.key_max_length) some_bits (few_bits alphabet short) long in
      let (key, derived, size, among) =
        symbols_from_ok (digest (canonical_intent t intent)) alphabet bits 0 (key_length p bits)
          (omega (arith, sized (canonical_intent t intent), fits))
          (bits_enough alphabet some_bits) in
      (key, rw (complete, valid) derived, ground (arith, size), rw size strong, among)
