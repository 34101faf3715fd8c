-- ===== src/Models/Sql/Quoting.antt =====
-- The quoting of names, which leaves the quotes inside a name as they are.
use Prim.Native.String.{◌++◌ as append_text}
use text.Mathlib.TextLemmas.{append-nil, append_assoc}
use pywatt_sdk.Prelude.{◌≡◌, refl, ◌∙◌, String, List, [], ◌∷◌}
use pywatt_sdk.Prelude.Texts.{join, concat_texts}
use pywatt_sdk.Models.Sql.Parts.{names_sql}
use pywatt_sdk.Models.Sql.Sqlite as Sqlite

split :
    (x : String) → append_text "\", \"" x ≡ append_text "\"" (append_text ", " (append_text "\"" x))
split x = append_assoc (append_text "\"" ", ") "\"" x ∙ append_assoc "\"" ", " (append_text "\"" x)

-- One name that contains the text `", "` between two names is written as those two names.
pub names_sql_ambiguous :
    (a b : String) (names : List String)
    → names_sql Sqlite.quote_identifier (append_text a (append_text "\", \"" b) ∷ names)
      ≡ names_sql Sqlite.quote_identifier (a ∷ b ∷ names)
unfolding names_sql join Sqlite.quote_identifier
names_sql_ambiguous a b [] =
    simp (append_assoc, append-nil, split, Sqlite.quote_identifier, concat_texts) refl
names_sql_ambiguous a b (n ∷ names) =
    simp (append_assoc, append-nil, split, Sqlite.quote_identifier, concat_texts) refl
