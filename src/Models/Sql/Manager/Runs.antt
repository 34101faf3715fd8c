-- ===== src/Models/Sql/Manager/Runs.antt =====
-- What a run of `ModelManager.apply_models` returns and executes.
use mathlib.Core.List.{append_assoc, append-nil}
use pywatt_sdk.Prelude.{
  ◌≡◌, refl, sym, ◌∙◌, String, Bool, true, false, List, [], ◌∷◌, ◌++◌, none, some, if◌then◌else◌,
  Bool-cases, Option-cases, inl, inr,
}
use pywatt_sdk.Models.{Host, ModelDescriptor}
use pywatt_sdk.Models.Validation.{ModelDefinitionError}
use pywatt_sdk.Models.Sql.{
  Tried, returned, raised, wrapped, definition_error, model_application_error,
}
use pywatt_sdk.Models.Sql.Manager.{
  ModelManager, chain, listed, issue, issue_all, model_steps, schema_steps, schemas_of, apply_each,
  apply_valid, create_schemas, apply_models, validate_all,
}

-- What a run adds to the log: what it returns, unless it is dry.
abbrev pub sent : Bool → List String → List String
sent dry ss = if dry then [] else ss

-- A call that raises has only added to the log; one that returns has added what it returns.
abbrev pub Logged : ModelManager → Tried (List String) → ModelManager → Type 0
Logged m (raised e) m' = (ss : List String) × (m'.executed ≡ m.executed ++ sent m.dry_run ss)
Logged m (returned ss) m' = m'.executed ≡ m.executed ++ sent m.dry_run ss

-- The settings are kept.
pub record Told (m : ModelManager) (o : Tried (List String) × ModelManager) : Type 0 where
  pub adapter : o.1.adapter ≡ m.adapter
  dry : o.1.dry_run ≡ m.dry_run
  logged : Logged m o.0 o.1

sent-append :
    (dry : Bool) (log ss ts : List String)
    → (log ++ sent dry ss) ++ sent dry ts ≡ log ++ sent dry (ss ++ ts)
sent-append true log ss ts = rw append-nil refl
sent-append false log ss ts = append_assoc log ss ts

no_more : (m : ModelManager) → m.executed ≡ m.executed ++ sent m.dry_run []
no_more m = elim (Bool-cases m.dry_run) [
  | inl e ↦ rw (e, append-nil) refl
  | inr e ↦ rw (e, append-nil) refl
]

logged_twice :
    (m m' m'' : ModelManager) (ss ts : List String)
    → m'.dry_run ≡ m.dry_run
    → m'.executed ≡ m.executed ++ sent m.dry_run ss
    → m''.executed ≡ m'.executed ++ sent m'.dry_run ts
    → m''.executed ≡ m.executed ++ sent m.dry_run (ss ++ ts)
logged_twice m m' m'' ss ts d a b = rw (b, d, a) (sent-append m.dry_run m.executed ss ts)

renamed :
    (m : ModelManager) (names : List String) (r : Tried (List String)) (m' : ModelManager)
    → Logged (record m { applied_models = names }) r m'
    → Logged m r m'
renamed m names (raised e) m' l = l
renamed m names (returned ss) m' l = l

wrapped-Logged :
    (m : ModelManager) (r : Tried (List String)) (m' : ModelManager)
    → Logged m r m'
    → Logged m (wrapped model_application_error r) m'
wrapped-Logged m (raised e) m' l = l
wrapped-Logged m (returned ss) m' l = l

if-Told :
    (m : ModelManager) (b : Bool) (o : Tried (List String) × ModelManager)
    → Told m o
    → Told m (if b then o else (returned [], m))
if-Told m true o t = t
if-Told m false o t = record { adapter = refl; dry = refl; logged = no_more m }

chain-Told :
    (m : ModelManager) (o p : Tried (List String) × ModelManager)
    → Told m o
    → Told o.1 p
    → Told m (chain o p)
chain-Told m (raised e, m') p a b = record { adapter = a.adapter; dry = a.dry; logged = a.logged }
chain-Told m (returned ss, m') (raised e, m'') a b =
    let (ts, l) = b.logged in
    record {
      adapter = b.adapter ∙ a.adapter;
      dry = b.dry ∙ a.dry;
      logged = (ss ++ ts, logged_twice m m' m'' ss ts a.dry a.logged l);
    }
chain-Told m (returned ss, m') (returned ts, m'') a b = record {
  adapter = b.adapter ∙ a.adapter;
  dry = b.dry ∙ a.dry;
  logged = logged_twice m m' m'' ss ts a.dry a.logged b.logged;
}

module _ (accepts : List String → String → Bool) where
  issue-Told : (m : ModelManager) (s : Tried String) → Told m (listed (issue accepts m s))
  unfolding issue
  issue-Told m (raised e) = record { adapter = refl; dry = refl; logged = ([], no_more m) }
  issue-Told m (returned s) = elim (Bool-cases m.dry_run) [
    | inl dry ↦ rw dry (record { adapter = refl; dry = refl; logged = sym (append-nil m.executed) })
    | inr real ↦ elim (Bool-cases (accepts m.executed s)) [
      | inl taken ↦ rw (real, taken) (record { adapter = refl; dry = refl; logged = refl })
      | inr refused ↦
          rw (real, refused)
            (record { adapter = refl; dry = refl; logged = ([], sym (append-nil m.executed)) })
    ]
  ]

  pub issue_all-Told :
      (m : ModelManager) (ss : List (Tried String)) → Told m (issue_all accepts m ss)
  unfolding issue_all
  issue_all-Told m [] = record { adapter = refl; dry = refl; logged = no_more m }
  issue_all-Told m (s ∷ ss) =
      let o = listed (issue accepts m s) in
      chain-Told m o (issue_all accepts o.1 ss) (issue-Told m s) (issue_all-Told o.1 ss)

  apply_each-Told :
      (m : ModelManager) (xs : List ModelDescriptor) → Told m (apply_each accepts m xs)
  unfolding apply_each
  apply_each-Told m [] = record { adapter = refl; dry = refl; logged = no_more m }
  apply_each-Told m (x ∷ xs) =
      let o = issue_all accepts m (model_steps m.adapter x) in
      let q = record o.1 { applied_models = o.1.applied_models ++ (x.name ∷ []) } in
      let later = apply_each-Told q xs in
      chain-Told m o (apply_each accepts q xs) (issue_all-Told m (model_steps m.adapter x))
        (record {
          adapter = later.adapter;
          dry = later.dry;
          logged = renamed o.1 q.applied_models _ _ later.logged;
        })

  module _ (iterate : List String → List String) where
    pub schemas-Told :
        (m : ModelManager)
        → Told m
            (if m.auto_create_schemas then create_schemas accepts iterate m else (returned [], m))
    schemas-Told m =
        if-Told m m.auto_create_schemas _
          (issue_all-Told m (schema_steps m.adapter (iterate (schemas_of m.models))))

    apply_valid-Told : (m : ModelManager) → Told m (apply_valid accepts iterate m)
    unfolding apply_valid
    apply_valid-Told m =
        let o =
          if m.auto_create_schemas then create_schemas accepts iterate m else (returned [], m) in
        chain-Told m o (apply_each accepts o.1 m.models) (schemas-Told m)
          (apply_each-Told o.1 m.models)

    pub invalid_lem :
        (h : Host) (m : ModelManager) (e : ModelDefinitionError)
        → validate_all h m.models ≡ some e
        → apply_models accepts h iterate m
          ≡ (raised (model_application_error (definition_error e)), m)
    unfolding apply_models
    invalid_lem h m e invalid = rw (apply_models, invalid) refl

    pub valid_lem :
        (h : Host) (m : ModelManager)
        → validate_all h m.models ≡ none
        → apply_models accepts h iterate m ≡ (
          wrapped model_application_error (apply_valid accepts iterate m).0,
          (apply_valid accepts iterate m).1,
        )
    unfolding apply_models
    valid_lem h m valid = rw (apply_models, valid) refl

    -- Whatever the database does, a call of `apply_models` only adds to the statements that it has
    -- executed. If it returns, they are those that it returns, in order, or none in a dry run.
    pub apply_models-Logged :
        (h : Host) (m : ModelManager)
        → Logged m (apply_models accepts h iterate m).0 (apply_models accepts h iterate m).1
    unfolding apply_models
    apply_models-Logged h m = elim (Option-cases (validate_all h m.models)) [
      | inr (e, invalid) ↦ rw (invalid_lem h m e invalid) ([], no_more m)
      | inl valid ↦ rw (valid_lem h m valid) (wrapped-Logged m _ _ (apply_valid-Told m).logged)
    ]
