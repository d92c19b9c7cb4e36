-- ===== src/Broker/Tests.antt =====
-- A call of `command` that is answered, and the theorems on admin-api/app/broker.py there.
use mqtt_broker_stack.Common.{
  ◌≤◌, Text, codes, ◌≡◌, ◌↔◌, refl, true, Option, none, some, [], ◌∷◌, ◌==◌, arith,
}
use mqtt_broker_stack.Common.Int.{pos, negsuc}
use mqtt_broker_stack.Models.{
  Json, number, string, array, object, end, item, Fields, done, field, answer,
}
use mqtt_broker_stack.Broker.{
  Session, opened, get_field, search_items, search_payload, on_connect, on_subscribe, on_message,
  conclude,
}
use mqtt_broker_stack.Broker.Runs.{
  Step, Reach, start, next, connects, acknowledges, receives, Concluded, conclude-Concluded,
}
use mqtt_broker_stack.Broker.Status.{
  Health, IsOver, IsLong, rank, certificate_state, certificate_state-worsens,
}

abbrev response : Fields
response =
    field (codes "correlationData") (string (codes "c1")) (field (codes "data") (number 7) done)

abbrev other : Fields
other = field (codes "correlationData") (string (codes "c0")) done

abbrev loads : Text → Option Json
loads [] = none
loads (c ∷ t) = some (
    object
      (field (codes "responses") (array (item (object other) (item (object response) end))) done))

abbrev rejected : Text
rejected = codes "rejected"

abbrev invalid : Text
invalid = codes "invalid"

abbrev settled : Session
settled = record opened {
  subscriptions = 1;
  publications = 1;
  response = some response;
  event = true;
}

settled-Reach : Reach loads (codes "c1") rejected invalid settled
settled-Reach =
    let subscribing : Session = record opened { subscriptions = 1 } in
    let waiting : Session = record opened { subscriptions = 1; publications = 1 } in
    let first : Step loads (codes "c1") rejected invalid opened subscribing =
      connects (some 0) refl (unfold on_connect in refl) in
    let second : Step loads (codes "c1") rejected invalid subscribing waiting =
      acknowledges refl (omega arith) (unfold on_subscribe in refl) in
    let third : Step loads (codes "c1") rejected invalid waiting settled =
      receives (codes "x") refl (omega arith)
        (unfold on_message search_payload search_items get_field ◌==◌ in refl) in
    next (next (next start first) second) third

conclude-Concluded_example :
    Concluded loads
      (codes "c1")
      rejected
      invalid
      (λ j. [])
      none
      none
      settled
      (conclude (λ j. []) none none settled)
conclude-Concluded_example =
    conclude-Concluded loads (codes "c1") rejected invalid (λ j. []) refl refl none none settled
      settled-Reach

answered_seven : conclude (λ j. []) none none settled ≡ answer (number 7)
unfolding conclude get_field ◌==◌
answered_seven = refl

certificate_state-worsens_example :
    ((certificate_state 5 (some 9) (negsuc 2) ≡ Health.unavailable) ↔ IsOver 5 (some 9))
    × ((certificate_state 5 (some 9) (negsuc 2) ≡ Health.healthy) ↔ IsLong 5 (some 9) (negsuc 2))
    × (rank (certificate_state 5 (some 9) (negsuc 2))
        ≤ rank (certificate_state 9 (some 9) (negsuc 2)))
certificate_state-worsens_example = certificate_state-worsens 5 9 (some 9) (negsuc 2) (omega arith)

below_threshold :
    (certificate_state 5 (some 9) (pos 1) ≡ Health.degraded)
    × (certificate_state 5 none (pos 1) ≡ Health.unavailable)
unfolding certificate_state
below_threshold = (refl, refl)
