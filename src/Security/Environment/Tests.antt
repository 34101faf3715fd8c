-- ===== src/Security/Environment/Tests.antt =====
-- Runs of the provider over the environment.
use pywatt_sdk.Prelude.{[], ◌∷◌, none, some, ◌≡◌, refl, ◌==◌, if◌then◌else◌, string_eq}
use pywatt_sdk.Prelude.Dict.{put}
use pywatt_sdk.Security.Environment.{TextMethods, store}

-- TextMethods whose letters are `a` and `A` alone.
abbrev texts : TextMethods
texts = record {
  upper = λ s. if s == "a" then "A" else s;
  lower = λ s. if s == "A" then "a" else s;
  after_prefix = λ p s. if s == "S_A" then some "A" else none;
}

set_upper :
    (store texts "S_" []
      (record {
        object = λ _. record { value = ""; key = ""; created_at = 0; expires_at = none };
        size = 0;
      })
      "a"
      "v"
      0).1
    ≡ ("S_A", "v") ∷ []
unfolding store put
set_upper = refl
