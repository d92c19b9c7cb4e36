-- ===== src/Broker.antt =====
-- admin-api/app/broker.py: `MosquittoAdapter`. One call of `command` makes a client of its own, whose
-- callbacks run in another thread and write into a shared result; here are the callbacks as functions
-- on that result, and what the caller makes of it. The runs of the callbacks are in Runs.
pub mod Runs
pub mod Status
mod Tests
use mqtt_broker_stack.Common.{
  ℕ, ◌+◌, Text, codes, Bool, true, false, ◌&&◌, not, Option, none, some, List, [], ◌∷◌, ◌==◌, ◌++◌,
  is_empty, nat_eq, if◌then◌else◌,
}
use mqtt_broker_stack.Models.{
  Json, null, bool, number, minus, string, array, object, Items, end, item, Fields, done, field,
  Reply, answer, failure,
}

-- What the callbacks and the caller share, how often the client has subscribed and published, and
-- whether the network thread still runs: an exception that a callback does not catch ends it.
pub record Session : Type 0 where
  pub error : Option Text
  pub response : Option Fields
  pub event : Bool
  pub subscriptions : ℕ
  pub publications : ℕ
  pub alive : Bool

abbrev pub opened : Session
opened = record {
  error = none;
  response = none;
  event = false;
  subscriptions = 0;
  publications = 0;
  alive = true;
}

unfoldable pub get_field : Text → Fields → Option Json
get_field name done = none
get_field name (field k v fs) = let rest = get_field name fs in if k == name then some v else rest

-- `bool(value)`
abbrev pub truthy : Json → Bool
truthy null = false
truthy (bool b) = b
truthy (number n) = not (nat_eq n 0)
truthy (minus n) = not (nat_eq n 0)
truthy (string t) = not (is_empty t)
truthy (array end) = false
truthy (array (item j is)) = true
truthy (object done) = false
truthy (object (field k v fs)) = true

abbrev pub is_string : Text → Option Json → Bool
is_string t (some (string s)) = s == t
is_string t _ = false

-- How the search for the response ends: with a match or without one, with a `TypeError` that is caught,
-- or with an `AttributeError` that is not.
pub data Search : Type 0 where
  found : Fields → Search
  missing : Search
  type_error : Search
  attribute_error : Search

-- The generator in `on_message`, which stops at the first match.
unfoldable pub search_items : Text → Items → Search
unfolding get_field
search_items correlation end = missing
search_items correlation (item (object fs) is) =
    let rest = search_items correlation is in
    if is_string correlation (get_field (codes "correlationData") fs) then found fs else rest
search_items correlation (item _ is) = attribute_error

-- Going through a text or an object gives texts, which have no `get`.
abbrev pub search_value : Text → Option Json → Search
search_value correlation none = missing
search_value correlation (some (array is)) = search_items correlation is
search_value correlation (some (string [])) = missing
search_value correlation (some (string (c ∷ s))) = attribute_error
search_value correlation (some (object done)) = missing
search_value correlation (some (object (field k v fs))) = attribute_error
search_value correlation (some _) = type_error

unfoldable pub search_payload : Text → Json → Search
unfolding search_items
search_payload correlation (object fs) = search_value correlation (get_field (codes "responses") fs)
search_payload correlation _ = attribute_error

-- `result["error"] = ...` and `event.set()`
abbrev pub fail : Text → Session → Session
fail message s = record s { error = some message; event = true }

abbrev pub settle : Text → Search → Session → Session
settle invalid (found fs) s = record s { response = some fs; event = true }
settle invalid missing s = s
settle invalid type_error s = fail invalid s
settle invalid attribute_error s = record s { alive = false }

-- `loads` gives `none` for a text that is no JSON; `rejected` and `invalid` are the two messages.
module _ (loads : Text → Option Json) (correlation rejected invalid : Text) where
  -- The reason is what `int(reason_code)` gives, or `none` where it raises.
  unfoldable pub on_connect : Option ℕ → Session → Session
  on_connect none s = record s { alive = false }
  on_connect (some reason_code) s =
      if nat_eq reason_code 0
      then record s { subscriptions = s.subscriptions + 1 }
      else fail rejected s

  unfoldable pub on_subscribe : Session → Session
  on_subscribe s = record s { publications = s.publications + 1 }

  unfoldable pub on_message : Text → Session → Session
  unfolding search_payload
  on_message payload s = elim (loads payload) [
    | none ↦ fail invalid s
    | some j ↦ settle invalid (search_payload correlation j) s
  ]

-- `response.get("error")` and `response.get("data", {})`, with `str_of` for `str`.
module _ (str_of : Json → Text) where
  abbrev pub data_or_empty : Option Json → Json
  data_or_empty none = object done
  data_or_empty (some j) = j

  abbrev pub response_error : Option Json → Option Json → Reply
  response_error none value = answer (data_or_empty value)
  response_error (some j) value =
      if truthy j then failure (str_of j) else answer (data_or_empty value)

  abbrev pub fields_or_empty : Option Fields → Fields
  fields_or_empty none = done
  fields_or_empty (some fs) = fs

  unfoldable pub reply_of_response : Option Fields → Reply
  unfolding get_field
  reply_of_response response =
      response_error (get_field (codes "error") (fields_or_empty response))
        (get_field (codes "data") (fields_or_empty response))

  abbrev pub reply_of_error : Option Text → Option Fields → Reply
  reply_of_error none response = reply_of_response response
  reply_of_error (some []) response = reply_of_response response
  reply_of_error (some (c ∷ t)) response = failure (c ∷ t)

  -- What `command` does when the wait is over.
  unfoldable pub after_wait : Session → Reply
  unfolding reply_of_response
  after_wait s =
      if not s.event
      then failure (codes "broker response timed out")
      else reply_of_error s.error s.response

  -- How `command` ends. The two options are the texts of the exceptions, if any: the `OSError` of
  -- `tls_set`, before a connection is tried, and the `OSError` or `WebsocketConnectionError` of `connect`
  -- or `loop_start`, before the wait.
  unfoldable pub conclude : Option Text → Option Text → Session → Reply
  unfolding after_wait
  conclude (some exc) _ s = failure (codes "broker TLS configuration unavailable: " ++ exc)
  conclude none (some exc) s = failure (codes "broker unavailable: " ++ exc)
  conclude none none s = after_wait s

-- The table in `list_objects`; another kind is a `KeyError`.
unfoldable pub list_field : Text → Option Text
list_field kind =
    if kind == codes "Clients"
    then some (codes "clients")
    else if kind == codes "Groups"
    then some (codes "groups")
    else if kind == codes "Roles"
    then some (codes "roles")
    else none
