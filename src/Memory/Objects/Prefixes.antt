-- ===== src/Memory/Objects/Prefixes.antt =====
-- libs/backend/go/memory/objectstore.go: the keys that a context resolves, and the tenant's they are not.
use Prim.Native.Char.{Char, code}
use dmpf.Prelude.{
  append_text, ℕ, ◌≡◌, ◌≢◌, refl, ap, ◌∙◌, String, string_eq, ◌==◌, false, ◌||◌, Option, none, some,
  arith, Bool-cases, Option-cases, inl, inr,
}
use dmpf.Ports.Results.{ok, ◌>>=◌, ◌>>◌}
use dmpf.Ports.Context.{Context, ExecutionContext, require_execution_context}
use dmpf.Ports.Objects.{
  Scope, scope_tenant, scope_platform, other_scope, Declaration, ObjectRef, validate_key, is_slash,
}
use dmpf.Memory.ObjectKeys.{
  Address, address_eq, acquire, contains_slash, tenant_key, physical_of, physical, locate,
}
use dmpf.Memory.Objects.Requests.{>>=_inv}

-- The tenant that a carrier names.
abbrev pub tenant_of : Context → Option String
tenant_of ctx = elim ctx.execution [ none ↦ none | some execution ↦ execution.tenant ]

abbrev first_code : String → ℕ
first_code String.[] = 0
first_code (String.◌∷◌ c s) = code c

abbrev others : String → String
others String.[] = String.[]
others (String.◌∷◌ c s) = s

abbrev first_char : Char → String → Char
first_char d String.[] = d
first_char d (String.◌∷◌ c s) = c

-- What stands in front of the first slash is determined by the whole.
slash_inj :
    (s t x y : String)
    → contains_slash s ≡ false
    → contains_slash t ≡ false
    → append_text s (String.◌∷◌ "/" x) ≡ append_text t (String.◌∷◌ "/" y)
    → s ≡ t
unfolding contains_slash
slash_inj String.[] String.[] x y plain plain' same = refl
slash_inj String.[] (String.◌∷◌ c t) x y plain plain' same =
    let met : 47 ≡ code c = ap first_code same in
    let free : (is_slash c || contains_slash t) ≡ false = plain' in
    absurd (ground (arith, free, met))
slash_inj (String.◌∷◌ c s) String.[] x y plain plain' same =
    let met : code c ≡ 47 = ap first_code same in
    let free : (is_slash c || contains_slash s) ≡ false = plain in
    absurd (ground (arith, free, met))
slash_inj (String.◌∷◌ c s) (String.◌∷◌ d t) x y plain plain' same =
    let left : (is_slash c || contains_slash s) ≡ false = plain in
    let right : (is_slash d || contains_slash t) ≡ false = plain' in
    let rest = slash_inj s t x y (ground (arith, left)) (ground (arith, right)) (ap others same) in
    ap (λ (u : String). String.◌∷◌ c u) rest ∙ ap (λ e. String.◌∷◌ e t) (ap (first_char c) same)

abbrev after_tenant : String → String
after_tenant s = others (others (others (others (others (others (others s))))))

tenant_key_inj :
    (s t x y : String)
    → contains_slash s ≡ false
    → contains_slash t ≡ false
    → tenant_key s x ≡ tenant_key t y
    → s ≡ t
tenant_key_inj s t x y plain plain' same = slash_inj s t x y plain plain' (ap after_tenant same)

platform_apart : (t x y : String) → append_text "platform/" x ≢ tenant_key t y
platform_apart t x y same = let met : 112 ≡ 116 = ap first_code same in absurd (omega (arith, met))

scoped_apart :
    (u key p t y : String)
    → contains_slash t ≡ false
    → some u ≢ some t
    → physical_of scope_tenant (some u) key ≡ ok p
    → p ≢ tenant_key t y
scoped_apart u key p t y plain other made same = elim (Bool-cases (contains_slash u)) [
  | inl slashed ↦ absurd (ground (arith, made, slashed))
  | inr clean ↦
      let whole : tenant_key u key ≡ tenant_key t y = ground (arith, made, same, clean) in
      other (ap (λ v. some v) (tenant_key_inj u t key y clean plain whole))
]

-- A key that a context resolves is not one of a tenant that it does not name.
resolved_apart :
    (scope : Scope) (tenant : Option String) (key p t y : String)
    → contains_slash t ≡ false
    → tenant ≢ some t
    → physical_of scope tenant key ≡ ok p
    → p ≢ tenant_key t y
resolved_apart scope_platform none key p t y plain other made same =
    platform_apart t key y (ground (arith, made, same))
resolved_apart scope_platform (some u) key p t y plain other made same =
    absurd (ground (arith, made))
resolved_apart scope_tenant none key p t y plain other made same = absurd (ground (arith, made))
resolved_apart (other_scope s) none key p t y plain other made same = absurd (ground (arith, made))
resolved_apart scope_tenant (some u) key p t y plain other made same =
    scoped_apart u key p t y plain other made same
resolved_apart (other_scope s) (some u) key p t y plain other made same =
    scoped_apart u key p t y plain other made same

required-tenant_of :
    (ctx : Context) (execution : ExecutionContext)
    → require_execution_context ctx ≡ ok execution
    → tenant_of ctx ≡ execution.tenant
unfolding require_execution_context
required-tenant_of ctx execution made = elim (Option-cases ctx.execution) [
  | inl absent ↦ absurd (ground (arith, absent, made))
  | inr (x, there) ↦ ground (arith, there, made)
]

-- The context names another tenant than `t`, or none.
abbrev pub IsForeign : String → Context → Type 0
IsForeign t ctx = tenant_of ctx ≢ some t

pub physical_apart :
    (decl : Declaration) (ctx : Context) (key p t y : String)
    → contains_slash t ≡ false
    → IsForeign t ctx
    → physical decl ctx key ≡ ok p
    → p ≢ tenant_key t y
unfolding physical
physical_apart decl ctx key p t y plain other made =
    let (execution, both, resolved) =
      >>=_inv (acquire ctx.cancelled >> require_execution_context ctx)
        (λ execution. physical_of decl.scope execution.tenant key) p made in
    let (_, _, required) =
      >>=_inv (acquire ctx.cancelled) (λ _. require_execution_context ctx) execution both in
    resolved_apart decl.scope execution.tenant key p t y plain
      (λ met. other (required-tenant_of ctx execution required ∙ met)) resolved

pub located_apart :
    (decl : Declaration) (ctx : Context) (ref : ObjectRef) (at a : Address) (t y : String)
    → contains_slash t ≡ false
    → IsForeign t ctx
    → a.physical_key ≡ tenant_key t y
    → locate decl ctx ref ≡ ok at
    → (at == a) ≡ false
unfolding locate
located_apart decl ctx ref at a t y plain other mine made = elim (Bool-cases (ref.version == "")) [
  | inl unversioned ↦ absurd (ground (arith, made, unversioned))
  | inr versioned ↦
      let whole : (validate_key ref.key >> physical decl ctx ref.key >>= λ key.
      ok (record { physical_key = key; version = ref.version }))
          ≡ ok at =
        ground (arith, made, versioned) in
      let (key, both, built) =
        >>=_inv (validate_key ref.key >> physical decl ctx ref.key)
          (λ key. ok (record { physical_key = key; version = ref.version })) at whole in
      let (_, _, resolved) =
        >>=_inv (validate_key ref.key) (λ _. physical decl ctx ref.key) key both in
      let apart = physical_apart decl ctx ref.key key t y plain other resolved in
      elim (Bool-cases (at == a)) [
        | inr unmet ↦ unmet
        | inl met ↦
            let here : at ≡ a = ground (arith, address_eq.equals_iff at a, met) in
            absurd (apart (ground (arith, built) ∙ (ap (λ x. x.physical_key) here ∙ mine)))
      ]
]
