-- ===== src/Ports/Tests.antt =====
-- A port is asked for where the orchestrator answers and the first fallback port is taken.
use pywatt_sdk.Prelude.{refl, true, false, [], ◌∷◌, none, arith, nat_eq, ◌==◌, if◌then◌else◌}
use pywatt_sdk.Ports.{Call, Exchange, new, negotiate_port}
use pywatt_sdk.Ports.Allocation.{FellBack, DrawsWithin, negotiate_port-FellBack}

abbrev answered : Exchange
answered = record {
  request_id = "r";
  is_sent = true;
  responses = record { request_id = "r"; success = true; port = 8080; error_message = none } ∷ [];
}

abbrev busy : Call
busy = record {
  now = 5;
  failed_at = 9;
  exchange = λ _. answered;
  draw = λ i. if i == 0 then 10000 else 10500;
  is_free = λ i port. if port == 10000 then false else true;
}

abbrev anywhere : Call
anywhere = record busy { draw = λ _. 10700 }

within : DrawsWithin anywhere
within i = (ground arith, ground arith)

negotiate_port-FellBack_example : FellBack 1 (negotiate_port new anywhere)
unfolding new
negotiate_port-FellBack_example = negotiate_port-FellBack new anywhere within refl
