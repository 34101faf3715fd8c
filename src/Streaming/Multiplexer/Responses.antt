-- ===== src/Streaming/Multiplexer/Responses.antt =====
-- Which response a request gets.
use pywatt_sdk.Prelude.{
  ◌≡◌, refl, ap, ◌∙◌, String, List, [], ◌∷◌, Option, none, some, arith, string_eq, ◌==◌,
  if◌then◌else◌,
}
use pywatt_sdk.Prelude.Dict.{Dict, get, put, get-put, get-put_self, get-remove_self}
use pywatt_sdk.Streaming.Multiplexer.{register, handle_response, conclude}

module _ {M : Type 0} where
  abbrev pub handle_all : Dict String (Option M) → List (String × M) → Dict String (Option M)
  handle_all pending [] = pending
  handle_all pending ((i, m) ∷ rs) = handle_all (handle_response pending m i) rs

  -- The first response of a list to a request.
  abbrev pub first_for : String → List (String × M) → Option M
  first_for i [] = none
  first_for i ((j, m) ∷ rs) = if j == i then some m else first_for i rs

  abbrev or_first : Option M → String → List (String × M) → Option M
  or_first (some m) i rs = some m
  or_first none i rs = first_for i rs

  get-handle_response :
      (pending : Dict String (Option M)) (i j : String) (f : Option M) (m : M)
      → get pending i ≡ some f
      → get (handle_response pending m j) i ≡ some (or_first f i ((j, m) ∷ []))
  unfolding handle_response
  get-handle_response pending i j none m e =
      ground (arith, e, get-put pending j i (some m), string_eq.beq_iff j i)
  get-handle_response pending i j (some n) m e =
      ground (arith, e, get-put pending j i (some m), string_eq.beq_iff j i)

  or_first_twice :
      (f : Option M) (i : String) (x : String × M) (rs : List (String × M))
      → or_first (or_first f i (x ∷ [])) i rs ≡ or_first f i (x ∷ rs)
  or_first_twice none i x rs = ground arith
  or_first_twice (some m) i x rs = refl

  handle_all_lem :
      (pending : Dict String (Option M)) (i : String) (f : Option M) (rs : List (String × M))
      → get pending i ≡ some f
      → get (handle_all pending rs) i ≡ some (or_first f i rs)
  handle_all_lem pending i none [] e = e
  handle_all_lem pending i (some m) [] e = e
  handle_all_lem pending i f ((j, m) ∷ rs) e =
      handle_all_lem (handle_response pending m j) i (or_first f i ((j, m) ∷ [])) rs
        (get-handle_response pending i j f m e)
      ∙ ap (λ o. some o) (or_first_twice f i (j, m) rs)

  -- A request gets the first response to its id, whatever else arrives, or none if there is none; and
  -- afterwards it is not pending.
  pub conclude-handle_all :
      (pending : Dict String (Option M)) (i : String) (rs : List (String × M))
      → ((conclude (handle_all (register pending i) rs) i).0 ≡ first_for i rs)
        × (get (conclude (handle_all (register pending i) rs) i).1 i ≡ none)
  unfolding conclude register
  conclude-handle_all pending i rs =
      let e = handle_all_lem (put pending i none) i none rs (get-put_self pending i none) in
      (ground (arith, e), get-remove_self (handle_all (put pending i none) rs) i)
