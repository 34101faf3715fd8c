-- ===== src/Models/Sql/Manager/Plan.antt =====
-- What `ModelManager.apply_models` does before it reaches the database, and what a dry run tells.
use pywatt_sdk.Prelude.{
  ◌≡◌, refl, sym, ◌∙◌, ap, String, Bool, true, false, List, [], ◌∷◌, ◌++◌, none, some,
  if◌then◌else◌, arith, Option-cases, inl, inr,
}
use pywatt_sdk.Models.{Host, ModelDescriptor}
use pywatt_sdk.Models.Validation.{ModelDefinitionError, validate_model}
use pywatt_sdk.Models.Sql.{
  DatabaseAdapter, Tried, returned, raised, ◌>>=◌, wrapped, traverse, definition_error,
  model_application_error,
}
use pywatt_sdk.Models.Sql.Manager.{
  ModelManager, chain, listed, issue, issue_all, model_steps, schema_steps, schemas_of, apply_each,
  apply_valid, create_schemas, apply_models, validate_all,
}
use pywatt_sdk.Models.Sql.Manager.Runs.{issue_all-Told, schemas-Told, valid_lem, invalid_lem}

validate_all_fails :
    (h : Host) (before : List ModelDescriptor) (x : ModelDescriptor) (after : List ModelDescriptor)
    (e : ModelDefinitionError)
    → validate_model h x ≡ some e
    → (e' : ModelDefinitionError) × (validate_all h (before ++ (x ∷ after)) ≡ some e')
unfolding validate_all
validate_all_fails h [] x after e invalid = (e, rw invalid refl)
validate_all_fails h (y ∷ before) x after e invalid = elim (Option-cases (validate_model h y)) [
  | inr (e', first) ↦ (e', rw first refl)
  | inl valid ↦
      let (e', later) = validate_all_fails h before x after e invalid in
      (e', rw (valid, later) refl)
]

-- The statements of the models, as long as the database takes them.
abbrev pub plan_each : DatabaseAdapter → List ModelDescriptor → Tried (List String)
plan_each a [] = returned []
plan_each a (x ∷ xs) =
    traverse (λ s. s) (model_steps a x) >>= λ ss. plan_each a xs >>= λ ts. returned (ss ++ ts)

-- What a call of `apply_models` returns, as long as the database takes all statements.
abbrev pub plan :
    Host
    → (List String → List String)
    → DatabaseAdapter
    → Bool
    → List ModelDescriptor
    → Tried (List String)
plan h iterate a auto xs = elim (validate_all h xs) [
  | some e ↦ raised (model_application_error (definition_error e))
  | none ↦ wrapped model_application_error (
      (if auto then traverse (λ s. s) (schema_steps a (iterate (schemas_of xs))) else returned [])
      >>= λ ss. plan_each a xs >>= λ ts. returned (ss ++ ts))
]

chain_result :
    (o p : Tried (List String) × ModelManager)
    → (chain o p).0 ≡ (o.0 >>= λ ss. p.0 >>= λ ts. returned (ss ++ ts))
chain_result (raised e, m) p = refl
chain_result (returned ss, m) (raised e, m') = refl
chain_result (returned ss, m) (returned ts, m') = refl

both_same :
    {r r' t t' : Tried (List String)}
    → r ≡ r'
    → t ≡ t'
    → (r >>= λ ss. t >>= λ ts. returned (ss ++ ts))
      ≡ (r' >>= λ ss. t' >>= λ ts. returned (ss ++ ts))
both_same e f = rw (e, f) refl

if_result :
    (m : ModelManager) (b : Bool) (o : Tried (List String) × ModelManager) (r : Tried (List String))
    → o.0 ≡ r
    → (if b then o else (returned [], m)).0 ≡ (if b then r else returned [])
if_result m true o r e = e
if_result m false o r e = refl

module _ (accepts : List String → String → Bool) (iterate : List String → List String) where
  -- A model that the validation refuses, wherever it stands, keeps every statement from the
  -- database, and no model counts as applied.
  pub apply_models_invalid :
      (h : Host) (m : ModelManager) (before : List ModelDescriptor) (x : ModelDescriptor)
      (after : List ModelDescriptor) (e : ModelDefinitionError)
      → m.models ≡ before ++ (x ∷ after)
      → validate_model h x ≡ some e
      → (e' : ModelDefinitionError) × (apply_models accepts h iterate m
          ≡ (raised (model_application_error (definition_error e')), m))
  apply_models_invalid h m before x after e among invalid =
      let (e', fails) = validate_all_fails h before x after e invalid in
      (e', invalid_lem accepts iterate h m e' (ap (validate_all h) among ∙ fails))

  module _ (all : (log : List String) (s : String) → accepts log s ≡ true) where
    issue_result :
        (m : ModelManager) (s : Tried String)
        → (listed (issue accepts m s)).0 ≡ (s >>= λ t. returned (t ∷ []))
    unfolding issue
    issue_result m (raised e) = refl
    issue_result m (returned s) = ground (arith, all m.executed s)

    issue_all_result :
        (m : ModelManager) (ss : List (Tried String))
        → (issue_all accepts m ss).0 ≡ traverse (λ s. s) ss
    unfolding issue issue_all traverse
    issue_all_result m [] = refl
    issue_all_result m (raised e ∷ ss) = refl
    issue_all_result m (returned s ∷ ss) =
        let o = listed (issue accepts m (returned s)) in
        chain_result o (issue_all accepts o.1 ss)
        ∙ both_same (issue_result m (returned s)) (issue_all_result o.1 ss)

    apply_each_result :
        (m : ModelManager) (xs : List ModelDescriptor)
        → (apply_each accepts m xs).0 ≡ plan_each m.adapter xs
    unfolding apply_each
    apply_each_result m [] = refl
    apply_each_result m (x ∷ xs) =
        let o = issue_all accepts m (model_steps m.adapter x) in
        let q = record o.1 { applied_models = o.1.applied_models ++ (x.name ∷ []) } in
        let kept = issue_all-Told accepts m (model_steps m.adapter x) in
        chain_result o (apply_each accepts q xs)
        ∙ both_same (issue_all_result m (model_steps m.adapter x))
            (apply_each_result q xs ∙ ap (λ a. plan_each a xs) kept.adapter)

    apply_valid_result :
        (m : ModelManager)
        → (apply_valid accepts iterate m).0 ≡ (
            (if m.auto_create_schemas
              then traverse (λ s. s) (schema_steps m.adapter (iterate (schemas_of m.models)))
              else returned [])
            >>= λ ss. plan_each m.adapter m.models >>= λ ts. returned (ss ++ ts))
    unfolding apply_valid
    apply_valid_result m =
        let steps = schema_steps m.adapter (iterate (schemas_of m.models)) in
        let o =
          if m.auto_create_schemas then create_schemas accepts iterate m else (returned [], m) in
        let kept = schemas-Told accepts iterate m in
        chain_result o (apply_each accepts o.1 m.models)
        ∙ both_same
            (if_result m m.auto_create_schemas (issue_all accepts m steps) (traverse (λ s. s) steps)
              (issue_all_result m steps))
            (apply_each_result o.1 m.models ∙ ap (λ a. plan_each a m.models) kept.adapter)

    apply_models_result :
        (h : Host) (m : ModelManager)
        → (apply_models accepts h iterate m).0
          ≡ plan h iterate m.adapter m.auto_create_schemas m.models
    apply_models_result h m = elim (Option-cases (validate_all h m.models)) [
      | inr (e, invalid) ↦
          ap (λ o. o.0) (invalid_lem accepts iterate h m e invalid) ∙ rw (plan, invalid) refl
      | inl valid ↦
          ap (λ o. o.0) (valid_lem accepts iterate h m valid)
          ∙ ap (wrapped model_application_error) (apply_valid_result m)
          ∙ rw (plan, valid) refl
    ]

  -- A dry run and a run on a database that takes every statement have the same outcome, errors
  -- included.
  pub apply_models_dry_run :
      ((log : List String) (s : String) → accepts log s ≡ true)
      → (h : Host) (m : ModelManager)
      → (apply_models accepts h iterate (record m { dry_run = true })).0
        ≡ (apply_models accepts h iterate (record m { dry_run = false })).0
  apply_models_dry_run all h m =
      apply_models_result all h (record m { dry_run = true })
      ∙ sym (apply_models_result all h (record m { dry_run = false }))
