-- ===== src/Broker/Runs.antt =====
-- The runs of the callbacks of `command` in admin-api/app/broker.py: any order of connections,
-- acknowledged subscriptions and messages that the network allows.
use mqtt_broker_stack.Common.{
  ℕ, ◌≤◌, ◌<◌, Text, codes, ◌≡◌, ◌⊎◌, inl, inr, refl, sym, ap, ◌∙◌, Bool, true, false, ◌||◌, not,
  Option, none, some, [], ◌∷◌, ◌++◌, arith, nat_eq, Bool-cases, Option-cases, is_empty,
  if◌then◌else◌, if_cases,
}
use mqtt_broker_stack.Models.{
  Json, null, bool, number, minus, string, array, object, Items, end, item, Fields, done, field,
  Reply, answer, failure,
}
use mqtt_broker_stack.Broker.{
  Session, opened, get_field, is_string, Search, found, missing, type_error, attribute_error,
  search_items, search_value, search_payload, settle, fail, on_connect, on_subscribe, on_message,
  data_or_empty, response_error, reply_of_response, reply_of_error, after_wait, conclude, truthy,
}

module _ (loads : Text → Option Json) (correlation rejected invalid : Text) where
  -- A callback runs while the network thread lives; a subscription is acknowledged after it was sent, and
  -- messages come to a client that has subscribed.
  pub data Step (s t : Session) : Type 0 where
    connects :
        (reason_code : Option ℕ)
        → s.alive ≡ true
        → t ≡ on_connect loads correlation rejected invalid reason_code s
        → Step s t
    acknowledges :
        s.alive ≡ true
        → s.publications < s.subscriptions
        → t ≡ on_subscribe loads correlation rejected invalid s
        → Step s t
    receives :
        (payload : Text)
        → s.alive ≡ true
        → 0 < s.subscriptions
        → t ≡ on_message loads correlation rejected invalid payload s
        → Step s t

  pub data Reach : Session → Type 0 where
    start : Reach opened
    next : {s t : Session} → Reach s → Step s t → Reach t

  -- The fields carry the correlation of this command.
  abbrev pub IsOwn : Fields → Type 0
  IsOwn fs = is_string correlation (get_field (codes "correlationData") fs) ≡ true

  abbrev AllOwn : Option Fields → Type 0
  AllOwn none = Unit
  AllOwn (some fs) = IsOwn fs

  abbrev given {ℓ} : {A : Type ℓ} → Option A → Bool
  given none = false
  given (some a) = true

  abbrev IsMessage : Option Text → Type 0
  IsMessage none = Unit
  IsMessage (some t) = (t ≡ rejected) ⊎ (t ≡ invalid)

  abbrev pub or_null : Option Json → Json
  or_null none = null
  or_null (some j) = j

  record IsSound (s : Session) : Type 0 where
    own : AllOwn s.response
    message : IsMessage s.error
    settled : s.event ≡ (given s.error || given s.response)
    counted : s.publications ≤ s.subscriptions

  abbrev FoundOwn : Search → Type 0
  FoundOwn (found fs) = IsOwn fs
  FoundOwn _ = Unit

  search_items-FoundOwn : (is : Items) → FoundOwn (search_items correlation is)
  unfolding search_items
  search_items-FoundOwn end = tt
  search_items-FoundOwn (item (object fs) is) =
      elim (Bool-cases (is_string correlation (get_field (codes "correlationData") fs))) [
        | inl t ↦ rw t t
        | inr f ↦ rw f (search_items-FoundOwn is)
      ]
  search_items-FoundOwn (item null is) = tt
  search_items-FoundOwn (item (bool b) is) = tt
  search_items-FoundOwn (item (number n) is) = tt
  search_items-FoundOwn (item (minus n) is) = tt
  search_items-FoundOwn (item (string t) is) = tt
  search_items-FoundOwn (item (array js) is) = tt

  search_responses-FoundOwn : (o : Option Json) → FoundOwn (search_value correlation o)
  search_responses-FoundOwn none = tt
  search_responses-FoundOwn (some (array is)) = search_items-FoundOwn is
  search_responses-FoundOwn (some (string [])) = tt
  search_responses-FoundOwn (some (string (c ∷ s))) = tt
  search_responses-FoundOwn (some (object done)) = tt
  search_responses-FoundOwn (some (object (field k v fs))) = tt
  search_responses-FoundOwn (some null) = tt
  search_responses-FoundOwn (some (bool b)) = tt
  search_responses-FoundOwn (some (number n)) = tt
  search_responses-FoundOwn (some (minus n)) = tt

  search_payload-FoundOwn : (j : Json) → FoundOwn (search_payload correlation j)
  unfolding search_payload
  search_payload-FoundOwn (object fs) = search_responses-FoundOwn (get_field (codes "responses") fs)
  search_payload-FoundOwn null = tt
  search_payload-FoundOwn (bool b) = tt
  search_payload-FoundOwn (number n) = tt
  search_payload-FoundOwn (minus n) = tt
  search_payload-FoundOwn (string t) = tt
  search_payload-FoundOwn (array is) = tt

  or_true : (b : Bool) → true ≡ (b || true)
  or_true true = refl
  or_true false = refl

  fail-IsSound :
      (message : Text) (s : Session)
      → (message ≡ rejected) ⊎ (message ≡ invalid)
      → IsSound s
      → IsSound (fail message s)
  fail-IsSound message s m i = record {
    own = i.own;
    message = m;
    settled = refl;
    counted = i.counted;
  }

  settle-IsSound :
      (r : Search) (s : Session) → FoundOwn r → IsSound s → IsSound (settle invalid r s)
  settle-IsSound (found fs) s o i = record {
    own = o;
    message = i.message;
    settled = or_true (given s.error);
    counted = i.counted;
  }
  settle-IsSound missing s o i = i
  settle-IsSound type_error s o i = fail-IsSound invalid s (inr refl) i
  settle-IsSound attribute_error s o i = record {
    own = i.own;
    message = i.message;
    settled = i.settled;
    counted = i.counted;
  }

  on_message-IsSound :
      (payload : Text) (s : Session)
      → IsSound s
      → IsSound (on_message loads correlation rejected invalid payload s)
  unfolding on_message
  on_message-IsSound payload s i = elim (Option-cases (loads payload)) [
    | inl e ↦ rw (e, on_message) (fail-IsSound invalid s (inr refl) i)
    | inr (j, e) ↦
        rw (e, on_message)
          (settle-IsSound (search_payload correlation j) s (search_payload-FoundOwn j) i)
  ]

  on_connect-IsSound :
      (reason_code : Option ℕ) (s : Session)
      → IsSound s
      → IsSound (on_connect loads correlation rejected invalid reason_code s)
  unfolding on_connect
  on_connect-IsSound none s i = record {
    own = i.own;
    message = i.message;
    settled = i.settled;
    counted = i.counted;
  }
  on_connect-IsSound (some reason_code) s i =
      if_cases IsSound (nat_eq reason_code 0) _ _
        (record {
          own = i.own;
          message = i.message;
          settled = i.settled;
          counted = omega (arith, i.counted);
        })
        (fail-IsSound rejected s (inl refl) i)

  Step-IsSound : {s t : Session} → Step s t → IsSound s → IsSound t
  Step-IsSound {s} (connects reason_code a e) i = rw e (on_connect-IsSound reason_code s i)
  Step-IsSound {s} (acknowledges a h e) i = rw e (
      unfold on_subscribe in
      record { own = i.own; message = i.message; settled = i.settled; counted = omega arith })
  Step-IsSound {s} (receives payload a h e) i = rw e (on_message-IsSound payload s i)

  Reach-IsSound : {s : Session} → Reach s → IsSound s
  Reach-IsSound start = record { own = tt; message = tt; settled = refl; counted = omega arith }
  Reach-IsSound (next r st) = Step-IsSound st (Reach-IsSound r)

  module _ (str_of : Json → Text) where
    -- How a call of `command` ends after its wait, by what the callbacks have left.
    pub data Awaited (s : Session) : Reply → Type 0 where
      timed_out : s.event ≡ false → Awaited s (failure (codes "broker response timed out"))
      erred : (t : Text) → s.error ≡ some t → Awaited s (failure t)
      refused :
          (fs : Fields) (j : Json)
          → s.response ≡ some fs
          → IsOwn fs
          → get_field (codes "error") fs ≡ some j
          → truthy j ≡ true
          → Awaited s (failure (str_of j))
      answered :
          (fs : Fields)
          → s.response ≡ some fs
          → IsOwn fs
          → s.error ≡ none
          → truthy (or_null (get_field (codes "error") fs)) ≡ false
          → Awaited s (answer (data_or_empty str_of (get_field (codes "data") fs)))

    -- How a call ends, by the exceptions before its wait and by what the callbacks have left.
    pub data Concluded (tls connection : Option Text) (s : Session) : Reply → Type 0 where
      untrusted :
          (exc : Text)
          → tls ≡ some exc
          → Concluded tls connection s
              (failure (codes "broker TLS configuration unavailable: " ++ exc))
      unavailable :
          (exc : Text)
          → tls ≡ none
          → connection ≡ some exc
          → Concluded tls connection s (failure (codes "broker unavailable: " ++ exc))
      awaited :
          {r : Reply} → tls ≡ none → connection ≡ none → Awaited s r → Concluded tls connection s r

    response_cases :
        (s : Session) (fs : Fields)
        → s.response ≡ some fs
        → IsOwn fs
        → s.error ≡ none
        → Awaited s (reply_of_response str_of (some fs))
    unfolding reply_of_response
    response_cases s fs e o n = elim (Option-cases (get_field (codes "error") fs)) [
      | inl g ↦ rw (g, response_error) (answered fs e o n (rw g refl))
      | inr (j, g) ↦ elim (Bool-cases (truthy j)) [
        | inl t ↦ rw (g, response_error, t) (refused fs j e o g t)
        | inr f ↦ rw (g, response_error, f) (answered fs e o n (rw g f))
      ]
    ]

    module _ (rejected_given : is_empty rejected ≡ false)
        (invalid_given : is_empty invalid ≡ false) where
      settled_cases :
          (s : Session) (e : Option Text) (r : Option Fields)
          → s.error ≡ e
          → s.response ≡ r
          → IsMessage e
          → AllOwn r
          → true ≡ (given e || given r)
          → Awaited s (reply_of_error str_of e r)
      settled_cases s none none he hr m o t = absurd (ground arith)
      settled_cases s none (some fs) he hr m o t = response_cases s fs hr o he
      settled_cases s (some []) r he hr m o t = elim m [
        | inl q ↦ absurd (cc (ap is_empty q, rejected_given))
        | inr q ↦ absurd (cc (ap is_empty q, invalid_given))
      ]
      settled_cases s (some (c ∷ t)) r he hr m o g = erred (c ∷ t) he

      after_wait-Awaited : (s : Session) → Reach s → Awaited s (after_wait str_of s)
      unfolding after_wait
      after_wait-Awaited s r =
          let i = Reach-IsSound r in
          elim s.event
              as (λ b.
                s.event ≡ b
                → Awaited s (
                    if not b
                    then failure (codes "broker response timed out")
                    else reply_of_error str_of s.error s.response)) [
                      | true ↦ λ t.
                          settled_cases s s.error s.response refl refl i.message i.own
                            (sym t ∙ i.settled)
                      | false ↦ λ f. timed_out f
                    ]
            refl

      -- In whatever order connections, acknowledged subscriptions and messages come, and whenever the wait
      -- ends: an answer is the data of a response that carries the correlation of this call and no error,
      -- and there was no exception on the way; a failure tells of the exception of the TLS set-up, of the
      -- one of connecting if there was none before, or, if there was neither, is the timeout if nothing
      -- has settled the call, a message of a callback, or the error of a response that carries the
      -- correlation of this call.
      pub conclude-Concluded :
          (tls connection : Option Text) (s : Session)
          → Reach s
          → Concluded tls connection s (conclude str_of tls connection s)
      unfolding conclude
      conclude-Concluded (some exc) connection s r = untrusted exc refl
      conclude-Concluded none (some exc) s r = unavailable exc refl refl
      conclude-Concluded none none s r = awaited refl refl (after_wait-Awaited s r)
