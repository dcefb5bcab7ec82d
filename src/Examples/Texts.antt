-- ===== src/Examples/Texts.antt =====
-- Texts as the numbers of their characters: an instance of the conversion between a string and its bytes.
use Prim.Native.Nat.{compare, Ordering}
use Prim.Native.Char.{Char, char, code, IsLt, IsScalar}
use dmpf.Prelude.{ℕ, ◌≡◌, refl, ap, String, List, [], ◌∷◌, Option, none, some, ◌∙◌}
use dmpf.Application.OutcomeCodec.{Texts}

abbrev BothBelow : Ordering → Ordering → Type 0
BothBelow Ordering.lt o = IsLt o
BothBelow Ordering.eq o = ⊥
BothBelow Ordering.gt o = ⊥

abbrev BelowOrBetween : Ordering → Ordering → Ordering → Type 0
BelowOrBetween Ordering.lt o p = Unit
BelowOrBetween Ordering.eq o p = BothBelow o p
BelowOrBetween Ordering.gt o p = BothBelow o p

abbrev less : (o : Ordering) → Option (IsLt o)
less Ordering.lt = some tt
less Ordering.eq = none
less Ordering.gt = none

abbrev both_less : (o p : Ordering) → Option (BothBelow o p)
both_less Ordering.lt p = less p
both_less Ordering.eq p = none
both_less Ordering.gt p = none

abbrev scalar : (o p q : Ordering) → Option (BelowOrBetween o p q)
scalar Ordering.lt p q = some tt
scalar Ordering.eq p q = both_less p q
scalar Ordering.gt p q = both_less p q

abbrev pub put : (n : ℕ) → Option (IsScalar n) → String → String
put n none s = s
put n (some p) s = String.◌∷◌ (char n p) s

abbrev pub text_of : List ℕ → String
text_of [] = ""
text_of (n ∷ ns) =
    put n (scalar (compare n 55296) (compare 57343 n) (compare n 1114112)) (text_of ns)

abbrev pub codes_of : String → List ℕ
codes_of String.[] = []
codes_of (String.◌∷◌ c s) = code c ∷ codes_of s

less-some : (o : Ordering) (p : IsLt o) → less o ≡ some p
less-some Ordering.lt tt = refl
less-some Ordering.eq p = absurd p
less-some Ordering.gt p = absurd p

both_less-some : (o p : Ordering) (h : BothBelow o p) → both_less o p ≡ some h
both_less-some Ordering.lt p h = less-some p h
both_less-some Ordering.eq p h = absurd h
both_less-some Ordering.gt p h = absurd h

scalar-some : (o p q : Ordering) (h : BelowOrBetween o p q) → scalar o p q ≡ some h
scalar-some Ordering.lt p q tt = refl
scalar-some Ordering.eq p q h = both_less-some p q h
scalar-some Ordering.gt p q h = both_less-some p q h

put_char :
    (c : Char) (s : String) → text_of (code c ∷ codes_of s) ≡ String.◌∷◌ c (text_of (codes_of s))
put_char (char n p) s =
    ap (λ o. put n o (text_of (codes_of s)))
      (scalar-some (compare n 55296) (compare 57343 n) (compare n 1114112) p)

pub text_of_codes : (s : String) → text_of (codes_of s) ≡ s
text_of_codes String.[] = refl
text_of_codes (String.◌∷◌ c s) = put_char c s ∙ ap (String.◌∷◌ c) (text_of_codes s)

abbrev pub codes : Texts
codes = record { bytes = codes_of; text = text_of; text_of_bytes = text_of_codes }
