-- ===== src/Security/Cache/Tests.antt =====
-- Runs of a `SecretCache`.
use pywatt_sdk.Prelude.{
  String, List, [], ◌∷◌, none, some, ◌≡◌, refl, arith, string_eq, ◌==◌, if◌then◌else◌,
}
use pywatt_sdk.Prelude.Dict.{get, put, has, remove}
use pywatt_sdk.Security.Values.{Heap, new_secret}
use pywatt_sdk.Security.Cache.{new, insert}
use pywatt_sdk.Security.Cache.Recency.{IsOldest, insert_evicts}
use pywatt_sdk.Security.Cache.Keys.{IsConsistent}
use pywatt_sdk.Security.Cache.Runs.{Op, looks, inserts, run, run-new-IsConsistent}

abbrev heap : Heap
heap = record { object = λ _. new_secret "k" "v" 0; size = 5 }

-- Two entries; the first is read after the second was stored.
abbrev ops : List Op
ops = inserts "a" 0 10 10 ∷ inserts "b" 1 20 20 ∷ looks "a" 30 30 ∷ []

run-new-IsConsistent_example : IsConsistent (run (new 2 900, heap) ops).0
run-new-IsConsistent_example = run-new-IsConsistent 2 900 heap ops

insert_evicts_example :
    let c = (run (new 2 900, heap) ops).0 in
    (x : String) × IsOldest ops c.entries x
    × ((j : String)
        → get (insert c heap "c" 2 40 40).0.entries j
          ≡ (if "c" == j then some 2 else if x == j then none else get c.entries j))
unfolding run has get put
insert_evicts_example =
    insert_evicts 2 900 heap ops "c" 2 40 40 heap refl (omega arith) (omega arith)

-- The second is evicted.
second_evicted :
    let c =
      (run
        (new 2 900, heap)
        (inserts "a" 0 10 10
          ∷ inserts "b" 1 20 20
          ∷ looks "a" 30 30
          ∷ inserts "c" 2 40 40
          ∷ [])).0 in
    c.entries ≡ ("a", 0) ∷ ("c", 2) ∷ []
unfolding run get put has remove
second_evicted = refl
