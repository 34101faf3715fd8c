-- ===== src/Security/Cache/Runs.antt =====
-- Any sequence of operations on a new `SecretCache`.
use pywatt_sdk.Prelude.{ℕ, refl, String, List, [], ◌∷◌, arith, string_eq}
use pywatt_sdk.Prelude.Dict.{get, has}
use pywatt_sdk.Security.Values.{Heap}
use pywatt_sdk.Security.Cache.{SecretCache, new, delete, clear_all, lookup, insert}
use pywatt_sdk.Security.Cache.Keys.{
  IsConsistent, lookup-IsConsistent, delete-IsConsistent, insert-IsConsistent,
}

pub data Op : Type 0 where
  looks : String → ℕ → ℕ → Op
  inserts : String → ℕ → ℕ → ℕ → Op
  deletes : String → Op
  clears : Op

unfoldable pub apply : SecretCache × Heap → Op → SecretCache × Heap
unfolding lookup insert delete clear_all
apply (c, h) (looks key now later) = ((lookup c h key now later).1, h)
apply (c, h) (inserts key r now later) = insert c h key r now later
apply (c, h) (deletes key) = (delete c key, h)
apply (c, h) clears = (clear_all c, h)

unfoldable pub run : SecretCache × Heap → List Op → SecretCache × Heap
unfolding apply
run s [] = s
run s (o ∷ os) = run (apply s o) os

clear_all-IsConsistent : (c : SecretCache) → IsConsistent c → IsConsistent (clear_all c)
unfolding clear_all
clear_all-IsConsistent c v = record {
  same = λ k. refl;
  distinct = tt;
  bounded = omega (arith, v.bounded);
}

pub apply-IsConsistent :
    (c : SecretCache) (h : Heap) (o : Op) → IsConsistent c → IsConsistent (apply (c, h) o).0
unfolding apply
apply-IsConsistent c h (looks key now later) v = lookup-IsConsistent c v h key now later
apply-IsConsistent c h (inserts key r now later) v = insert-IsConsistent c v h key r now later
apply-IsConsistent c h (deletes key) v = delete-IsConsistent c v key
apply-IsConsistent c h clears v = clear_all-IsConsistent c v

run-IsConsistent :
    (s : SecretCache × Heap) (os : List Op) → IsConsistent s.0 → IsConsistent (run s os).0
unfolding run
run-IsConsistent s [] v = v
run-IsConsistent (c, h) (o ∷ os) v =
    run-IsConsistent (apply (c, h) o) os (apply-IsConsistent c h o v)

pub new-IsConsistent : (max_size ttl : ℕ) → IsConsistent (new max_size ttl)
unfolding has get
new-IsConsistent max_size ttl = record { same = λ k. refl; distinct = tt; bounded = omega arith }

-- After any operations a `SecretCache` has an access time for exactly the keys that it holds, and
-- holds at most its size of them, or one where the size is 0.
pub run-new-IsConsistent :
    (max_size ttl : ℕ) (heap : Heap) (os : List Op)
    → IsConsistent (run (new max_size ttl, heap) os).0
run-new-IsConsistent max_size ttl heap os =
    run-IsConsistent (new max_size ttl, heap) os (new-IsConsistent max_size ttl)
