-- ===== src/Examples/Objects.antt =====
-- A bucket that two tenants share.
use dmpf.Prelude.{
  ℕ, ◌≡◌, refl, ap, String, string_eq, List, [], ◌∷◌, Option, none, some, length, false, arith,
}
use text.Mathlib.TextEquality.{eq_iff}
use dmpf.Prelude.Int.{pos, ◌+ℤ◌, ◌-ℤ◌}
use dmpf.Prelude.Word.{wrap64}
use dmpf.Prelude.Decimal.{itoa, digits_from, digit}
use dmpf.Prelude.Maps.{lookup, insert}
use dmpf.Ports.Results.{ok}
use dmpf.Ports.Context.{Context, require_execution_context}
use dmpf.Ports.Objects.{
  scope_tenant, compliance, Retention, Declaration, PutRequest, validate_key, segments,
  has_dot_segment, add_span, ObjectVersion, Object, ref_of,
}
use dmpf.Memory.ObjectKeys.{
  Address, address_eq, Bucket, StoredVersion, new_bucket, contains_slash, physical,
}
use dmpf.Memory.Objects.{put, get, head, check_retention, version_id}
use dmpf.Memory.Objects.Requests.{Operation, purges, run_operations}
use dmpf.Memory.Objects.Prefixes.{IsForeign}
use dmpf.Memory.Objects.Isolation.{run_operations_isolation}
use dmpf.Memory.Objects.RoundTrip.{IsStored, put-get}
use dmpf.Memory.Objects.Worm.{put_retained}
use dmpf.Ports.Context.Validity.{granted}
use dmpf.Examples.Storage.{here, caller}

-- A stand-in for the hash, which the length of the body decides.
abbrev sum : List ℕ → String
sum body = itoa (pos (length body))

abbrev archive : Declaration
archive = record {
  scope = scope_tenant;
  encryption = record { algorithm = "AES256"; key_ref = "k" };
  ceiling = some (record { span = pos 9000000000; origin = "policy" });
}

abbrev until_five : Retention
until_five = record { mode = compliance; until = pos 5000000007 }

abbrev report : PutRequest
report = record {
  key = "a/r";
  body = 7 ∷ 8 ∷ [];
  content_sha256 = "2";
  content_type = "text/plain";
  retention = some until_five;
}

abbrev stored : ObjectVersion
stored = record {
  key = "a/r";
  version = "v-000001";
  content_sha256 = "2";
  size = 2;
  stored_at = pos 1000000000;
}

abbrev address : Address
address = record { physical_key = "tenant/acme/a/r"; version = "v-000001" }

abbrev kept : StoredVersion
kept = record {
  info = record {
    object_version = stored;
    content_type = "text/plain";
    retention = some (record { mode = compliance; until = pos 5000000000 });
    legal_hold = false;
    encryption = archive.encryption;
  };
  body = 7 ∷ 8 ∷ [];
}

abbrev bucket : Bucket
bucket = record { versions = (address, kept) ∷ []; issued = 1 }

put-report : put sum archive here none (pos 1000000000) report new_bucket ≡ (bucket, ok stored)
unfolding put itoa digits_from digit physical check_retention version_id validate_key segments
    has_dot_segment add_span wrap64 ◌+ℤ◌ ◌-ℤ◌ require_execution_context insert contains_slash
put-report = refl

-- A purge that the owner asks too early.
abbrev early_purge : Operation
early_purge = record {
  declaration = archive;
  context = here;
  locked = none;
  now = pos 4999999999;
  request = purges (ref_of stored);
}

put_retained_example :
    (o : Object) × (get archive here none
        (ref_of stored)
        (run_operations sum (early_purge ∷ []) bucket)
      ≡ ok o)
    × (o.body ≡ 7 ∷ 8 ∷ [])
    × (o.info.object_version ≡ stored)
put_retained_example =
    put_retained sum archive here none (pos 1000000000) report until_five new_bucket bucket stored
      (early_purge ∷ []) put-report refl refl (omega arith, tt)

put-get_example :
    (a : Address) × (w : StoredVersion) × (get archive here none (ref_of stored) bucket
      ≡ ok (record { info = w.info; body = w.body }))
    × (head archive here none (ref_of stored) bucket ≡ ok w.info)
    × IsStored sum archive report a w stored
put-get_example =
    put-get sum archive here none (pos 1000000000) report new_bucket bucket stored put-report

-- A caller of another tenant, after the retention's date.
abbrev stranger : Context
stranger = record here { execution = some (record (granted caller) { tenant = some "zeta" }) }

abbrev foreign_purge : Operation
foreign_purge = record early_purge { context = stranger; now = pos 6000000000 }

stranger-IsForeign : IsForeign "acme" stranger
stranger-IsForeign same = absurd (ground (arith, eq_iff zeta acme, ap name_in same))
  where
    zeta : String
    zeta = "zeta"

    acme : String
    acme = "acme"

    name_in : Option String → String
    name_in none = ""
    name_in (some t) = t

plain_name : contains_slash "acme" ≡ false
unfolding contains_slash
plain_name = refl

run_operations_isolation_example :
    lookup address (run_operations sum (foreign_purge ∷ []) bucket).versions
    ≡ lookup address bucket.versions
run_operations_isolation_example =
    run_operations_isolation sum "acme" "a/r" address (foreign_purge ∷ []) bucket plain_name refl
      (stranger-IsForeign, tt)
