-- ===== src/Models/Sql/Manager/Partial.antt =====
-- A table that `ModelManager.apply_models` leaves behind.
use pywatt_sdk.Prelude.{String, Bool, false, List}
use pywatt_sdk.Models.{ModelDescriptor}
use pywatt_sdk.Models.Sql.{Printing, SqlError, unsupported_feature_error}
use pywatt_sdk.Models.Sql.Sqlite as Sqlite
use pywatt_sdk.Models.Sql.Manager.{ModelManager}

abbrev no_schemas : SqlError
no_schemas = unsupported_feature_error "SQLite does not support schemas"

module _ (accepts : List String → String → Bool) where
  abbrev pub on_sqlite : Printing → ModelManager → List ModelDescriptor → ModelManager
  on_sqlite w m xs = record m { adapter = Sqlite.adapter w; dry_run = false; models = xs }
