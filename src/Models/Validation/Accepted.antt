-- ===== src/Models/Validation/Accepted.antt =====
-- `validate_model` accepts what keeps the rules: each of its checks accepts what one rule allows.
use text.Mathlib.TextEquality.{eq_iff}
use pywatt_sdk.Prelude.{
  ◌≤◌, ◌≡◌, ◌≢◌, ◌↔◌, ◌⊎◌, inl, inr, refl, String, Bool, true, false, not, ◌||◌, List, [], ◌∷◌,
  Option, none, some, arith, length, All, nat_eq, string_eq, ◌==◌,
}
use pywatt_sdk.Models.{
  ModelDescriptor, ColumnDescriptor, IndexDescriptor, Constraint, foreign_key_constraint,
  ForeignKeyConstraint, Host,
}
use pywatt_sdk.Models.Validation.{
  ModelDefinitionError, table_name_empty, column_name_empty, duplicate_column, primary_key_missing,
  foreign_key_missing, index_missing, auto_increment_not_key, auto_increment_not_integer,
  foreign_key_lengths, and_then, raise_if, member, check_present, column_names, flagged,
  auto_columns, table_key, is_blank, check_columns, check_any_column, check_primary_key,
  is_integer_type, check_auto_increment, check_foreign_key, check_constraint, check_constraints,
  check_index, check_indexes, validate_model,
}
use pywatt_sdk.Models.Validation.Rules.{
  Among, Differ, Present, LegalKey, LegalAuto, LegalForeignKey, LegalConstraint, LegalIndex,
  WellFormed,
}

-- Checks that accept exactly what two rules allow, one after the other.
and_then-none :
    {A B : Type 0} (x y : Option ModelDefinitionError)
    → (x ≡ none) ↔ A
    → (y ≡ none) ↔ B
    → (and_then x y ≡ none) ↔ (A × B)
and_then-none none y f g = (λ e. (f.0 refl, g.0 e), λ p. g.1 p.1)
and_then-none (some x) y f g = (λ e. ground arith, λ p. f.1 p.0)

raise_if-none : (b : Bool) (e : ModelDefinitionError) → (raise_if b e ≡ none) ↔ (b ≡ false)
raise_if-none true e = ground arith
raise_if-none false e = ground arith

unless-none :
    {A : Type 0} (b : Bool) (e : ModelDefinitionError)
    → (b ≡ true) ↔ A
    → (raise_if (not b) e ≡ none) ↔ A
unless-none true e f = (λ _. f.0 refl, λ _. refl)
unless-none false e f = (λ x. ground arith, λ a. ground (arith, f.1 a))

or-true : {A B : Type 0} (a b : Bool) → (a ≡ true) ↔ A → (b ≡ true) ↔ B → (a || b ≡ true) ↔ (A ⊎ B)
or-true true b f g = (λ _. inl (f.0 refl), λ _. refl)
or-true false b f g =
    (λ e. inr (g.0 e), λ s. elim s [ inl a ↦ ground (arith, f.1 a) | inr c ↦ g.1 c ])

pub member-Among : (k : String) (ns : List String) → (member k ns ≡ true) ↔ Among k ns
member-Among k [] = ground arith
member-Among k (n ∷ ns) = or-true (n == k) (member k ns) (eq_iff n k) (member-Among k ns)

check_present-Present :
    (e : String → ModelDefinitionError) (ns ks : List String)
    → (check_present e ns ks ≡ none) ↔ Present ns ks
unfolding check_present
check_present-Present e ns [] = ground arith
check_present-Present e ns (k ∷ ks) =
    and_then-none (raise_if (not (member k ns)) (e k)) (check_present e ns ks)
      (unless-none (member k ns) (e k) (member-Among k ns)) (check_present-Present e ns ks)

-- No name of the list is among those seen.
abbrev Unseen : List String → List String → Type 0
Unseen seen ns = All (λ n. member n seen ≡ false) ns

or-false : {A : Type 0} (a b : Bool) → (a ≡ true) ↔ A → (a || b ≡ false) ↔ ((A → ⊥) × (b ≡ false))
or-false true b f = (λ e. ground arith, λ p. ground (arith, p.0 (f.0 refl)))
or-false false b f = (λ e. (λ a. ground (arith, f.1 a), e), λ p. p.1)

Unseen-cons :
    (k : String) (seen ns : List String)
    → Unseen (k ∷ seen) ns ↔ (All (λ n. k ≢ n) ns × Unseen seen ns)
Unseen-cons k seen [] = ground arith
Unseen-cons k seen (n ∷ ns) =
    let here = or-false (k == n) (member n seen) (eq_iff k n) in
    let rest = Unseen-cons k seen ns in
    (
      λ p. (((here.0 p.0).0, (rest.0 p.1).0), ((here.0 p.0).1, (rest.0 p.1).1)),
      λ p. (here.1 (p.0.0, p.1.0), rest.1 (p.0.1, p.1.1)),
    )

check_columns-none :
    (h : Host) (seen : List String) (cs : List ColumnDescriptor)
    → (check_columns h seen cs ≡ none) ↔ (
        All (λ c. is_blank h c.name ≡ false) cs
        × (Unseen seen (column_names cs) × Differ (column_names cs)))
unfolding check_columns
check_columns-none h seen [] = ground arith
check_columns-none h seen (c ∷ cs) =
    let blank = raise_if-none (is_blank h c.name) column_name_empty in
    let twice = raise_if-none (member c.name seen) (duplicate_column c.name) in
    let rest = check_columns-none h (c.name ∷ seen) cs in
    let new = Unseen-cons c.name seen (column_names cs) in
    let all = and_then-none _ _ blank (and_then-none _ _ twice rest) in
    (
      λ e.
          let p = all.0 e in
          let q = new.0 p.1.1.1.0 in ((p.0, p.1.1.0), ((p.1.0, q.1), (q.0, p.1.1.1.1))),
      λ p. all.1 (p.0.0, (p.1.0.0, (p.0.1, (new.1 (p.1.1.0, p.1.0.1), p.1.1.1)))),
    )

check_any_column-none : (cs : List ColumnDescriptor) → (check_any_column cs ≡ none) ↔ (cs ≢ [])
check_any_column-none [] = (λ e. ground arith, λ n. ground arith)
check_any_column-none (c ∷ cs) = (λ e. λ f. ground arith, λ n. refl)

check_primary_key-LegalKey :
    (ns fs ks : List String) → (check_primary_key ns fs ks ≡ none) ↔ LegalKey ns fs ks
unfolding check_primary_key
check_primary_key-LegalKey ns fs [] = (λ e. inl refl, λ l. refl)
check_primary_key-LegalKey ns [] (k ∷ ks) =
    let all = check_present-Present primary_key_missing ns (k ∷ ks) in
    (λ e. inr (refl, all.0 e), λ l. elim l [ inl e ↦ ground arith | inr p ↦ all.1 p.1 ])
check_primary_key-LegalKey ns (f ∷ fs) (k ∷ ks) =
    (λ e. ground arith, λ l. elim l [ inl e ↦ ground arith | inr p ↦ ground arith ])

check_auto_increment-LegalAuto :
    (key : List String) (cs : List ColumnDescriptor)
    → (check_auto_increment key cs ≡ none) ↔ ((length cs ≤ 1) × All (LegalAuto key) cs)
unfolding check_auto_increment
check_auto_increment-LegalAuto key [] = (λ e. (ground arith, tt), λ p. refl)
check_auto_increment-LegalAuto key (c ∷ []) =
    let is_key =
      or-true c.is_primary_key (member c.name key) (λ e. e, λ e. e) (member-Among c.name key) in
    let all =
      and_then-none _ _
        (unless-none (c.is_primary_key || member c.name key) auto_increment_not_key is_key)
        (unless-none (is_integer_type c.data_type.type_name) auto_increment_not_integer
          (member-Among c.data_type.type_name ("Integer" ∷ "SmallInt" ∷ "BigInt" ∷ []))) in
    (λ e. (omega arith, (all.0 e, tt)), λ p. all.1 p.1.0)
check_auto_increment-LegalAuto key (c ∷ d ∷ cs) = (λ e. ground arith, λ p. ground arith)

check_foreign_key-LegalForeignKey :
    (ns : List String) (f : ForeignKeyConstraint)
    → (check_foreign_key ns f ≡ none) ↔ LegalForeignKey ns f
check_foreign_key-LegalForeignKey ns f =
    and_then-none _ _
      (unless-none (length f.columns == length f.references_columns) foreign_key_lengths
        (nat_eq.beq_iff (length f.columns) (length f.references_columns)))
      (check_present-Present foreign_key_missing ns f.columns)

check_constraint-LegalConstraint :
    (ns : List String) (c : Constraint) → (check_constraint ns c ≡ none) ↔ LegalConstraint ns c
check_constraint-LegalConstraint ns (foreign_key_constraint f) =
    check_foreign_key-LegalForeignKey ns f
check_constraint-LegalConstraint ns _ = (λ e. tt, λ u. refl)

check_constraints-All :
    (ns : List String) (cs : List Constraint)
    → (check_constraints ns cs ≡ none) ↔ All (LegalConstraint ns) cs
unfolding check_constraints
check_constraints-All ns [] = (λ e. tt, λ u. refl)
check_constraints-All ns (c ∷ cs) =
    and_then-none _ _ (check_constraint-LegalConstraint ns c) (check_constraints-All ns cs)

check_index-LegalIndex :
    (ns ks : List String) → (check_index ns ks ≡ none) ↔ ((ks ≢ []) × Present ns ks)
check_index-LegalIndex ns [] = (λ e. ground arith, λ p. ground (arith, p.0 refl))
check_index-LegalIndex ns (k ∷ ks) =
    let all = check_present-Present index_missing ns (k ∷ ks) in
    (λ e. (λ f. ground arith, all.0 e), λ p. all.1 p.1)

check_indexes-All :
    (ns : List String) (is : List IndexDescriptor)
    → (check_indexes ns is ≡ none) ↔ All (LegalIndex ns) is
unfolding check_indexes
check_indexes-All ns [] = (λ e. tt, λ u. refl)
check_indexes-All ns (i ∷ is) =
    and_then-none _ _ (check_index-LegalIndex ns i.columns) (check_indexes-All ns is)

Unseen-nil : (ns : List String) → Unseen [] ns
Unseen-nil [] = tt
Unseen-nil (n ∷ ns) = (refl, Unseen-nil ns)

-- A model is accepted exactly when it is well formed.
pub validate_model-WellFormed :
    (h : Host) (m : ModelDescriptor) → (validate_model h m ≡ none) ↔ WellFormed h m
unfolding validate_model
validate_model-WellFormed h m =
    let ns = column_names m.columns in
    let all = and_then-none _ _ (raise_if-none (is_blank h m.name) table_name_empty) (
      and_then-none _ _ (check_any_column-none m.columns) (
        and_then-none _ _ (check_columns-none h [] m.columns) (
          and_then-none _ _ (check_primary_key-LegalKey ns (flagged m.columns) (table_key m)) (
            and_then-none _ _
              (check_auto_increment-LegalAuto (table_key m) (auto_columns m.columns))
              (and_then-none _ _ (check_constraints-All ns m.constraints)
                (check_indexes-All ns m.indexes)))))) in
    (
      λ e.
          let (a, (b, (c, (k, (i, (f, x)))))) = all.0 e in
          record {
            named = a;
            has_columns = b;
            columns_named = c.0;
            names_differ = c.1.1;
            one_key = k;
            one_auto = i.0;
            auto_legal = i.1;
            constraints_legal = f;
            indexes_legal = x;
          },
      λ w. all.1 (
        w.named,
        (
          w.has_columns,
          (
            (w.columns_named, (Unseen-nil ns, w.names_differ)),
            (w.one_key, ((w.one_auto, w.auto_legal), (w.constraints_legal, w.indexes_legal))),
          ),
        ),
      ),
    )
