-- ===== src/Streaming/Tests.antt =====
-- Messages that are texts.
use pywatt_sdk.Prelude.{
  ◌≡◌, ◌≤◌, ◌<◌, ◌⊎◌, String, List, [], ◌∷◌, Option, none, some, length, string_eq,
}
use pywatt_sdk.Prelude.Dict.{Dict}
use pywatt_sdk.Streaming.{low, normal, high}
use pywatt_sdk.Streaming.Queue.{PriorityMessageQueue, enqueue, take_highest}
use pywatt_sdk.Streaming.Queue.Order.{contents, insert, pop, contents-take_highest, enqueue_lem}
use pywatt_sdk.Streaming.Queue.Waiting.{enqueues, acquires, Event}
use pywatt_sdk.Streaming.Window.Bounds as Bounds

abbrev two : PriorityMessageQueue String
two = record {
  max_size = 3;
  low_queue = "a" ∷ [];
  normal_queue = [];
  high_queue = "b" ∷ [];
  critical_queue = [];
  semaphore = 2;
}

contents-take_highest_example :
    pop (contents two) ≡ ((take_highest two).0, contents (take_highest two).1)
contents-take_highest_example = contents-take_highest two

enqueue_lem_example :
    ((enqueue two "c" normal ≡ none) × (3 ≤ length (contents two)))
    ⊎ ((q : PriorityMessageQueue String) × (enqueue two "c" normal ≡ some q)
        × (contents q ≡ insert normal "c" (contents two))
        × (length (contents two) < 3))
enqueue_lem_example = enqueue_lem two "c" normal

abbrev events : List (Event String)
events = enqueues "a" low ∷ acquires ∷ enqueues "b" high ∷ []

abbrev stream : List Bounds.Event
stream = Bounds.sends 0 5 ∷ Bounds.sends 1 6 ∷ []

abbrev responses : List (String × String)
responses = ("y", "late") ∷ ("x", "first") ∷ ("x", "second") ∷ []

abbrev pending : Dict String (Option String)
pending = ("y", none) ∷ []
