-- ===== src/Tests/Databases.antt =====
-- The validation of a Database.
use steadystate.Prelude.{
  bytes, get_or_empty, lookup, true, ◌≡◌, refl, inl, inr, none, some, [], ◌∷◌, arith,
}
use steadystate.Prelude.Int.{pos}
use steadystate.Prelude.Text.{is_blank, fields, space_length}
use steadystate.Database.Validation.{
  DatabaseSpec, DatabaseOps, retention_matches, validate_database,
}
use steadystate.Database.Laws.Retention.{IsRetention, retention_matches_iff}
use steadystate.Database.Laws.Accepted.{IsValidDatabase, validate_database_iff}
use steadystate.Tests.Data.{quantities}

abbrev pub database_ops : DatabaseOps
database_ops = record { quantities = quantities; one_gibibyte = 1 ∷ []; cron_error = λ s. none }

abbrev pub orders : DatabaseSpec
orders = record {
  engine = bytes "postgres";
  instances = pos 3;
  storage_size = 2 ∷ [];
  backups = record { enabled = true; schedule = bytes "0 0 2 * * *"; retention = bytes "30d" };
  recovery = some (record { source_server_name = bytes "old"; target_in_utc = some true });
}

month-IsRetention : IsRetention (bytes "30d")
unfolding bytes
month-IsRetention = record {
  first = b'3';
  digits = bytes "0";
  last = b'd';
  whole = refl;
  positive = (omega arith, omega arith);
  decimal = ((omega arith, omega arith), tt);
  of_unit = refl;
}

retention_matches_iff_example : retention_matches (bytes "30d") ≡ true
retention_matches_iff_example = (retention_matches_iff (bytes "30d")).1 month-IsRetention

orders-IsValidDatabase : IsValidDatabase database_ops orders []
unfolding bytes is_blank fields space_length get_or_empty lookup
orders-IsValidDatabase = record {
  engine = refl;
  at_least_one = omega arith;
  at_most_three = omega arith;
  size = (2 ∷ [], refl, omega arith);
  six_fields = refl;
  schedule = refl;
  retention = month-IsRetention;
  recovery = inr (_, refl, (refl, refl, inr refl));
  revision = inl refl;
}

validate_database_iff_example : validate_database database_ops orders [] ≡ none
validate_database_iff_example =
    (validate_database_iff database_ops orders []).1 orders-IsValidDatabase
