-- ===== src/Application/Fingerprint/Injective.antt =====
-- fingerprint.go: two commands have one canonical encoding only where they are the same command.
use dmpf.Prelude.{
  ℕ, ◌<◌, ◌≡◌, ◌≢◌, refl, sym, ap, ◌∙◌, String, List, [], ◌∷◌, ◌++◌, append-nil, append_assoc,
  arith, length, All,
}
use dmpf.Prelude.Int.{ℤ}
use dmpf.Prelude.Word.{full_range, IsInt64}
use dmpf.Application.Varint.{append_uvarint, append_varint, read_uvarint, read_varint}
use dmpf.Application.Varint.RoundTrip.{
  read_uvarint-append_uvarint, read_varint-append_varint, append_uvarint_at,
}
use dmpf.Application.OutcomeCodec.{Texts}
use dmpf.Application.Fingerprint.{
  Fingerprint, append_field, add_string, add_int, under, field_string, field_int,
}

-- A field of a command as a Fingerprint takes it.
pub data Field : Type 0 where
  text_field : String → Field
  int_field : ℤ → Field

head_of : List ℕ → ℕ
head_of [] = 0
head_of (x ∷ xs) = x

tail_of : List ℕ → List ℕ
tail_of [] = []
tail_of (x ∷ xs) = xs

-- Two lists of one length at the front of equal lists are equal, and so is what follows them.
split_equal :
    (xs ys rest more : List ℕ)
    → length xs ≡ length ys
    → xs ++ rest ≡ ys ++ more
    → (xs ≡ ys) × (rest ≡ more)
unfolding head_of tail_of
split_equal [] [] rest more n h = (refl, h)
split_equal [] (y ∷ ys) rest more n h = absurd (omega (arith, n))
split_equal (x ∷ xs) [] rest more n h = absurd (omega (arith, n))
split_equal (x ∷ xs) (y ∷ ys) rest more n h =
    let (same, after) = split_equal xs ys rest more (omega (arith, n)) (ap tail_of h) in
    (ground (arith, ap head_of h, same), after)

-- A length in front of its bytes says where they end.
sized_equal :
    (xs ys rest more : List ℕ)
    → length xs < full_range
    → length ys < full_range
    → append_uvarint [] (length xs) ++ (xs ++ rest) ≡ append_uvarint [] (length ys) ++ (ys ++ more)
    → (xs ≡ ys) × (rest ≡ more)
sized_equal xs ys rest more hx hy h =
    let one = read_uvarint-append_uvarint (length xs) (xs ++ rest) hx in
    let two = read_uvarint-append_uvarint (length ys) (ys ++ more) hy in
    let same : length xs ≡ length ys =
      ap (λ (r : ℕ × ℤ). r.0) (sym one ∙ ap read_uvarint h ∙ two) in
    let after =
      split_equal (append_uvarint [] (length xs)) (append_uvarint [] (length ys)) (xs ++ rest)
        (ys ++ more) (ap (λ (n : ℕ). length (append_uvarint [] n)) same) h in
    split_equal xs ys rest more same after.1

module _ (t : Texts) where
  abbrev kind_of : Field → ℕ
  kind_of (text_field s) = field_string
  kind_of (int_field a) = field_int

  abbrev content : Field → List ℕ
  content (text_field s) = t.bytes s
  content (int_field a) = append_varint [] a

  -- A text has a length that a uint64 holds, and an integer is an int64 with such an encoding.
  abbrev FieldFits : Field → Type 0
  FieldFits (text_field s) = length (t.bytes s) < full_range
  FieldFits (int_field a) = IsInt64 a × (length (append_varint [] a) < full_range)

  abbrev add_field : Fingerprint → Field → Fingerprint
  add_field f (text_field s) = add_string t f s
  add_field f (int_field a) = add_int f a

  pub add_fields : Fingerprint → List Field → Fingerprint
  add_fields f [] = f
  add_fields f (x ∷ xs) = add_fields (add_field f x) xs

  -- A field as its kind, its length and its content.
  field_bytes : Field → List ℕ
  field_bytes x = kind_of x ∷ (append_uvarint [] (length (content x)) ++ content x)

  append_field_at :
      (f : Fingerprint) (kind : ℕ) (bytes : List ℕ)
      → append_field f kind bytes ≡ f ++ (kind ∷ (append_uvarint [] (length bytes) ++ bytes))
  unfolding append_field
  append_field_at f kind bytes = ground (
    arith,
    append_uvarint_at (length bytes) (f ++ kind ∷ []),
    append_assoc (f ++ kind ∷ []) (append_uvarint [] (length bytes)) bytes,
    append_assoc f (kind ∷ []) (append_uvarint [] (length bytes) ++ bytes),
  )

  add_field_at : (f : Fingerprint) (x : Field) → add_field f x ≡ f ++ field_bytes x
  unfolding field_bytes
  add_field_at f (text_field s) = append_field_at f field_string (t.bytes s)
  add_field_at f (int_field a) = append_field_at f field_int (append_varint [] a)

  add_fields_at : (xs : List Field) (f : Fingerprint) → add_fields f xs ≡ f ++ add_fields [] xs
  unfolding add_fields
  add_fields_at [] f = sym (append-nil f)
  add_fields_at (x ∷ xs) f = ground (
    arith,
    add_field_at f x,
    add_field_at [] x,
    add_fields_at xs (f ++ field_bytes x),
    add_fields_at xs (field_bytes x),
    append_assoc f (field_bytes x) (add_fields [] xs),
  )

  add_fields_cons :
      (x : Field) (xs : List Field) → add_fields [] (x ∷ xs) ≡ field_bytes x ++ add_fields [] xs
  unfolding add_fields
  add_fields_cons x xs =
      ap (λ f. add_fields f xs) (add_field_at [] x) ∙ add_fields_at xs (field_bytes x)

  -- The kind tells a text from an integer, and the content tells which.
  content_equal :
      (x y : Field)
      → FieldFits x
      → FieldFits y
      → kind_of x ≡ kind_of y
      → content x ≡ content y
      → x ≡ y
  content_equal (text_field s) (text_field r) hx hy k h =
      ap text_field (sym (t.text_of_bytes s) ∙ ap t.text h ∙ t.text_of_bytes r)
  content_equal (text_field s) (int_field b) hx hy k h = absurd (omega (arith, k))
  content_equal (int_field a) (text_field r) hx hy k h = absurd (omega (arith, k))
  content_equal (int_field a) (int_field b) (ia, fa) (ib, fb) k h =
      ap (λ (r : ℤ × ℤ). int_field r.0)
        (sym (read_varint-append_varint a [] ia)
          ∙ ap (λ (c : List ℕ). read_varint (c ++ [])) h
          ∙ read_varint-append_varint b [] ib)

  content_fits : (x : Field) → FieldFits x → length (content x) < full_range
  content_fits (text_field s) h = h
  content_fits (int_field a) h = h.1

  field_equal :
      (x y : Field) (rest more : List ℕ)
      → FieldFits x
      → FieldFits y
      → field_bytes x ++ rest ≡ field_bytes y ++ more
      → (x ≡ y) × (rest ≡ more)
  unfolding field_bytes head_of tail_of
  field_equal x y rest more hx hy h =
      let sizes =
        sym (append_assoc (append_uvarint [] (length (content x))) (content x) rest)
        ∙ ap tail_of h
        ∙ append_assoc (append_uvarint [] (length (content y))) (content y) more in
      let (same, after) =
        sized_equal (content x) (content y) rest more (content_fits x hx) (content_fits y hy)
          sizes in
      (content_equal x y hx hy (ap head_of h) same, after)

  nothing_written : (xs : List Field) (x : Field) → [] ≢ field_bytes x ++ add_fields [] xs
  unfolding field_bytes
  nothing_written xs x h = ground arith

  text_equal : (s r : String) → text_field s ≡ text_field r → s ≡ r
  text_equal s r h = ground (arith, h)

  fields_equal :
      (xs ys : List Field)
      → All FieldFits xs
      → All FieldFits ys
      → add_fields [] xs ≡ add_fields [] ys
      → xs ≡ ys
  unfolding add_fields
  fields_equal [] [] hx hy h = refl
  fields_equal [] (y ∷ ys) hx hy h = absurd (nothing_written ys y (h ∙ add_fields_cons y ys))
  fields_equal (x ∷ xs) [] hx hy h = absurd (nothing_written xs x (sym h ∙ add_fields_cons x xs))
  fields_equal (x ∷ xs) (y ∷ ys) (hx, hxs) (hy, hys) h =
      let front = sym (add_fields_cons x xs) ∙ h ∙ add_fields_cons y ys in
      let (same, after) = field_equal x y (add_fields [] xs) (add_fields [] ys) hx hy front in
      ground (arith, same, fields_equal xs ys hxs hys after)

  -- The digest that the inbox compares is taken over bytes that name one command: where the operation is
  -- led by its fields, under the same bytes the operations are the same and so are the fields, in their
  -- kinds, values and order. Each text has a length within uint64, and each integer is an int64.
  pub under-add_fields :
      (op other : String) (xs ys : List Field)
      → length (t.bytes op) < full_range
      → length (t.bytes other) < full_range
      → All FieldFits xs
      → All FieldFits ys
      → under t op (add_fields [] xs) ≡ under t other (add_fields [] ys)
      → (op ≡ other) × (xs ≡ ys)
  unfolding under
  under-add_fields op other xs ys ho hr hx hy h =
      let front =
        sym (ap (λ f. f ++ add_fields [] xs) (add_field_at [] (text_field op)))
        ∙ h
        ∙ ap (λ f. f ++ add_fields [] ys) (add_field_at [] (text_field other)) in
      let (same, after) = field_equal (text_field op) (text_field other) _ _ ho hr front in
      (text_equal op other same, fields_equal xs ys hx hy after)
