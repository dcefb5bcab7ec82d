-- ===== src/Application/Authorize.antt =====
-- libs/backend/go/application/authorize.go: the hook of step 1, and the decision by permissions.
-- The refusals of `Permitted` all wrap ErrDenied.
use dmpf.Prelude.{
  String, string_eq, true, not, List, [], ◌∷◌, none, some, ◌==◌, any, if◌then◌else◌, ◌≡◌, ◌≢◌, ◌↔◌,
  ◌⊎◌, refl, arith,
}
use text.Mathlib.TextEquality.{eq_iff}
use dmpf.Ports.Results.{Result, ok, err, ◌>>=◌, denied, context_absent}
use dmpf.Ports.Context.{Context, ExecutionContext, is_some, require_execution_context}

abbrev pub Authorize : Type 0 → Type 0
Authorize C = Context → C → Result (Unit {0})

abbrev pub allow_all : {C : Type 0} → Authorize C
allow_all ctx cmd = ok tt

-- execution.Permissions(): a nil slice holds nothing.
abbrev pub permissions_of : ExecutionContext → List String
permissions_of e = elim e.permissions [ none ↦ [] | some held ↦ held ]

unfoldable pub decide_permitted : String → ExecutionContext → Result (Unit {0})
decide_permitted permission execution =
    if not (is_some execution.tenant)
    then err denied
    else if permission == ""
    then err denied
    else if not (is_some execution.subject)
    then ok tt
    else if not (any (λ p. p == permission) (permissions_of execution))
    then err denied
    else ok tt

unfoldable pub permitted : {C : Type 0} → (C → String) → Authorize C
permitted required ctx cmd = require_execution_context ctx >>= decide_permitted (required cmd)

-- The permission is one of those on the carrier.
abbrev pub Holds : String → List String → Type 0
Holds p [] = ⊥
Holds p (q ∷ ps) = (q ≡ p) ⊎ Holds p ps

Holds-iff : (p : String) (ps : List String) → (any (λ q. q == p) ps ≡ true) ↔ Holds p ps
Holds-iff p [] = ground arith
Holds-iff p (q ∷ ps) = ground (arith, eq_iff q p, Holds-iff p ps)

-- What lets an execution pass: it has a tenant, the operation declares a permission, and the subject
-- holds it where there is a subject.
abbrev pub MayPass : String → ExecutionContext → Type 0
MayPass permission execution =
    (execution.tenant ≢ none)
    × (permission ≢ "")
    × ((execution.subject ≡ none) ⊎ Holds permission (permissions_of execution))

decide_permitted_iff :
    (permission : String) (e : ExecutionContext)
    → (decide_permitted permission e ≡ ok tt) ↔ MayPass permission e
unfolding decide_permitted
decide_permitted_iff permission e =
    ground (arith, eq_iff permission "", Holds-iff permission (permissions_of e))

decide_permitted_else :
    (permission : String) (e : ExecutionContext)
    → decide_permitted permission e ≢ ok tt
    → decide_permitted permission e ≡ err denied
unfolding decide_permitted
decide_permitted_else permission e h = ground arith

-- `Permitted` lets a command pass under an execution context exactly when the context has a tenant, the
-- operation declares a permission, and the subject holds that permission, if there is a subject: a chain
-- without one passes on its tenant. Any other command is denied, and one without an execution context is
-- refused for its absence.
pub permitted_iff :
    {C : Type 0} (required : C → String) (ctx : Context) (cmd : C)
    → (ctx.execution ≡ none → permitted required ctx cmd ≡ err context_absent)
      × ((e : ExecutionContext)
          → ctx.execution ≡ some e
          → ((permitted required ctx cmd ≡ ok tt) ↔ MayPass (required cmd) e)
            × (permitted required ctx cmd ≢ ok tt → permitted required ctx cmd ≡ err denied))
unfolding permitted require_execution_context
permitted_iff required ctx cmd = (
  λ absent. rw absent refl,
  λ e there.
      rw there (decide_permitted_iff (required cmd) e, decide_permitted_else (required cmd) e),
)
