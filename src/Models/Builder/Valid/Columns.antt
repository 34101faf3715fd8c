-- ===== src/Models/Builder/Valid/Columns.antt =====
-- Appending a column, an index or a constraint to a well-formed model.
use pywatt_sdk.Prelude.{
  ◌≡◌, ◌≢◌, inl, inr, refl, ap, String, Bool, true, false, List, [], ◌∷◌, ◌++◌, Option, arith, All,
  All-append,
}
use pywatt_sdk.Models.{
  ColumnDescriptor, Constraint, IndexDescriptor, ModelDescriptor, foreign_key_constraint, Host,
}
use pywatt_sdk.Models.Builder.{append_column, append_constraint, add_index}
use pywatt_sdk.Models.Validation.{column_names, auto_columns, flagged, table_key, is_blank}
use pywatt_sdk.Models.Validation.Rules.{
  Among, Present, Differ, LegalKey, LegalAuto, LegalConstraint, LegalIndex, WellFormed,
}

column_names-append :
    (cs ds : List ColumnDescriptor) → column_names (cs ++ ds) ≡ column_names cs ++ column_names ds
column_names-append [] ds = refl
column_names-append (c ∷ cs) ds = ap (◌∷◌ c.name) (column_names-append cs ds)

flagged-append :
    (cs : List ColumnDescriptor) (c : ColumnDescriptor)
    → c.is_primary_key ≡ false
    → flagged (cs ++ (c ∷ [])) ≡ flagged cs
flagged-append [] c f = rw f
flagged-append (d ∷ cs) c f = rw (flagged-append cs c f)

auto_columns-append :
    (cs : List ColumnDescriptor) (c : ColumnDescriptor)
    → c.auto_increment ≡ false
    → auto_columns (cs ++ (c ∷ [])) ≡ auto_columns cs
auto_columns-append [] c f = rw f
auto_columns-append (d ∷ cs) c f = rw (auto_columns-append cs c f)

Among-append : (k : String) (ns ms : List String) → Among k ns → Among k (ns ++ ms)
Among-append k [] ms a = elim a [ ]
Among-append k (n ∷ ns) ms (inl e) = inl e
Among-append k (n ∷ ns) ms (inr a) = inr (Among-append k ns ms a)

-- A name that an append brings in is the new column's.
pub Among-append_inv :
    (cs : List ColumnDescriptor) (c : ColumnDescriptor) (k : String)
    → c.name ≢ k
    → (Among k (column_names cs) → ⊥)
    → Among k (column_names (cs ++ (c ∷ [])))
    → ⊥
Among-append_inv [] c k d f (inl e) = d e
Among-append_inv [] c k d f (inr a) = a
Among-append_inv (b ∷ cs) c k d f (inl e) = f (inl e)
Among-append_inv (b ∷ cs) c k d f (inr a) = Among-append_inv cs c k d (λ x. f (inr x)) a

Present-append : (ns ms ks : List String) → Present ns ks → Present (ns ++ ms) ks
Present-append ns ms [] p = tt
Present-append ns ms (k ∷ ks) p = (Among-append k ns ms p.0, Present-append ns ms ks p.1)

Differ-append :
    (ns : List String) (k : String) → Differ ns → (Among k ns → ⊥) → Differ (ns ++ (k ∷ []))
Differ-append [] k d f = (tt, tt)
Differ-append (n ∷ ns) k d f = (
  All-append (λ j. n ≢ j) ns (k ∷ []) d.0 (λ e. f (inl e), tt),
  Differ-append ns k d.1 (λ a. f (inr a)),
)

LegalConstraint-append :
    (ns ms : List String) (c : Constraint) → LegalConstraint ns c → LegalConstraint (ns ++ ms) c
LegalConstraint-append ns ms (foreign_key_constraint f) l =
    (l.0, Present-append ns ms f.columns l.1)
LegalConstraint-append ns ms _ l = tt

LegalConstraints-append :
    (ns ms : List String) (cs : List Constraint)
    → All (LegalConstraint ns) cs
    → All (LegalConstraint (ns ++ ms)) cs
LegalConstraints-append ns ms [] l = tt
LegalConstraints-append ns ms (c ∷ cs) l =
    (LegalConstraint-append ns ms c l.0, LegalConstraints-append ns ms cs l.1)

LegalIndexes-append :
    (ns ms : List String) (is : List IndexDescriptor)
    → All (LegalIndex ns) is
    → All (LegalIndex (ns ++ ms)) is
LegalIndexes-append ns ms [] l = tt
LegalIndexes-append ns ms (i ∷ is) l =
    ((l.0.0, Present-append ns ms i.columns l.0.1), LegalIndexes-append ns ms is l.1)

LegalKey-append : (ns ms fs ks : List String) → LegalKey ns fs ks → LegalKey (ns ++ ms) fs ks
LegalKey-append ns ms fs ks (inl e) = inl e
LegalKey-append ns ms fs ks (inr p) = inr (p.0, Present-append ns ms ks p.1)

append_nonempty : (cs : List ColumnDescriptor) (c : ColumnDescriptor) → cs ++ (c ∷ []) ≢ []
append_nonempty [] c = λ e. ground arith
append_nonempty (d ∷ cs) c = λ e. ground arith

-- A column with a fresh name that is neither a key nor counts itself up.
pub append_column-WellFormed :
    (h : Host) (m : ModelDescriptor) (c : ColumnDescriptor)
    → WellFormed h m
    → is_blank h c.name ≡ false
    → (Among c.name (column_names m.columns) → ⊥)
    → c.is_primary_key ≡ false
    → c.auto_increment ≡ false
    → WellFormed h (append_column m c)
append_column-WellFormed h m c w b f k a =
    let ns = column_names m.columns in
    let names = column_names-append m.columns (c ∷ []) in
    record {
      named = w.named;
      has_columns = append_nonempty m.columns c;
      columns_named =
          All-append (λ d. is_blank h d.name ≡ false) m.columns (c ∷ []) w.columns_named (b, tt);
      names_differ = rw names (Differ-append ns c.name w.names_differ f);
      one_key =
          rw (names, flagged-append m.columns c k)
            (LegalKey-append ns (c.name ∷ []) _ (table_key m) w.one_key);
      one_auto = rw (auto_columns-append m.columns c a) w.one_auto;
      auto_legal = rw (auto_columns-append m.columns c a) w.auto_legal;
      constraints_legal =
          rw names (LegalConstraints-append ns (c.name ∷ []) m.constraints w.constraints_legal);
      indexes_legal = rw names (LegalIndexes-append ns (c.name ∷ []) m.indexes w.indexes_legal);
    }

auto_columns-append_all :
    (cs ds : List ColumnDescriptor) → auto_columns (cs ++ ds) ≡ auto_columns cs ++ auto_columns ds
auto_columns-append_all [] ds = refl
auto_columns-append_all (c ∷ cs) ds = ground (arith, auto_columns-append_all cs ds)

only_auto :
    (cs : List ColumnDescriptor) (c : ColumnDescriptor)
    → auto_columns cs ≡ []
    → c.auto_increment ≡ true
    → auto_columns (cs ++ (c ∷ [])) ≡ c ∷ []
only_auto cs c e a = ground (arith, auto_columns-append_all cs (c ∷ []), e, a)

-- A key that counts itself up, with a fresh name, where the table has no key of its own and no column
-- that counts itself up.
pub append_auto-WellFormed :
    (h : Host) (m : ModelDescriptor) (c : ColumnDescriptor)
    → WellFormed h m
    → is_blank h c.name ≡ false
    → (Among c.name (column_names m.columns) → ⊥)
    → table_key m ≡ []
    → auto_columns m.columns ≡ []
    → c.auto_increment ≡ true
    → LegalAuto (table_key m) c
    → WellFormed h (append_column m c)
append_auto-WellFormed h m c w b f k e a l =
    let ns = column_names m.columns in
    let names = column_names-append m.columns (c ∷ []) in
    record {
      named = w.named;
      has_columns = append_nonempty m.columns c;
      columns_named =
          All-append (λ d. is_blank h d.name ≡ false) m.columns (c ∷ []) w.columns_named (b, tt);
      names_differ = rw names (Differ-append ns c.name w.names_differ f);
      one_key = inl k;
      one_auto = rw (only_auto m.columns c e a) (omega arith);
      auto_legal = rw (only_auto m.columns c e a) (l, tt);
      constraints_legal =
          rw names (LegalConstraints-append ns (c.name ∷ []) m.constraints w.constraints_legal);
      indexes_legal = rw names (LegalIndexes-append ns (c.name ∷ []) m.indexes w.indexes_legal);
    }

pub append_constraint-WellFormed :
    (h : Host) (m : ModelDescriptor) (c : Constraint)
    → WellFormed h m
    → LegalConstraint (column_names m.columns) c
    → WellFormed h (append_constraint m c)
append_constraint-WellFormed h m c w l = record {
  named = w.named;
  has_columns = w.has_columns;
  columns_named = w.columns_named;
  names_differ = w.names_differ;
  one_key = w.one_key;
  one_auto = w.one_auto;
  auto_legal = w.auto_legal;
  constraints_legal =
      All-append (LegalConstraint (column_names m.columns)) m.constraints (c ∷ [])
        w.constraints_legal (l, tt);
  indexes_legal = w.indexes_legal;
}

pub append_index-WellFormed :
    (h : Host) (m : ModelDescriptor) (columns : List String) (unique : Bool) (name : Option String)
    → WellFormed h m
    → columns ≢ []
    → Present (column_names m.columns) columns
    → WellFormed h (add_index m columns unique name)
unfolding add_index
append_index-WellFormed h m columns unique name w n p = record {
  named = w.named;
  has_columns = w.has_columns;
  columns_named = w.columns_named;
  names_differ = w.names_differ;
  one_key = w.one_key;
  one_auto = w.one_auto;
  auto_legal = w.auto_legal;
  constraints_legal = w.constraints_legal;
  indexes_legal =
      All-append (LegalIndex (column_names m.columns)) m.indexes _ w.indexes_legal ((n, p), tt);
}
