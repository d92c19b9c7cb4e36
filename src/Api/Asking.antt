-- ===== src/Api/Asking.antt =====
-- What a method of admin-api/app/main.py may do if it only asks the broker, and the functions of Queries
-- that look at JSON values.
use mqtt_broker_stack.Common.{
  Text, codes, ◌≡◌, refl, sym, ap, ◌∙◌, ◌++◌, List, [], ◌∷◌, All, All-append, append_assoc,
  append-nil, contains, one_of, Option, none, some, true, false, Bool, Dict, if◌then◌else◌,
}
use mqtt_broker_stack.Models.{
  World, AuditEvent, Exception, key_error, or_raise, BrokerCommand, Json, string, array, object,
  Items, end, item, Fields, Result, ok, raised, Exec, pure, raise, continue, ◌>>=◌,
}
use mqtt_broker_stack.Auth.{}
use mqtt_broker_stack.Broker.{get_field, truthy}
use mqtt_broker_stack.Api.{json_or, json_or_null}
use mqtt_broker_stack.Api.Queries.{
  get_of, iterate, client_contains, clients_with, connection_rows, client_rows, all_rows, key_of,
  index_by, index_of, defaults_of,
}

-- The commands that read.
abbrev pub question_names : List Text
question_names =
    codes "getClient"
    ∷ codes "listClients"
    ∷ codes "listGroups"
    ∷ codes "listRoles"
    ∷ codes "getDefaultACLAccess"
    ∷ []

abbrev pub IsQuestion : BrokerCommand → Type 0
IsQuestion c = one_of c.command question_names ≡ true

-- From `w` to `v` only questions were sent, the audit table only grew, and no operator changed.
pub record Asked (w v : World) : Type 0 where
  pub commands : List BrokerCommand
  pub sent : v.sent ≡ w.sent ++ commands
  pub questions : All IsQuestion commands
  pub events : List AuditEvent
  pub recorded : v.db.events ≡ w.db.events ++ events
  pub operators : v.db.operators ≡ w.db.operators

pub quiet :
    {w v : World}
    → v.sent ≡ w.sent
    → v.db.events ≡ w.db.events
    → v.db.operators ≡ w.db.operators
    → Asked w v
quiet s e o = record {
  commands = [];
  sent = s ∙ sym (append-nil _);
  questions = tt;
  events = [];
  recorded = e ∙ sym (append-nil _);
  operators = o;
}

pub Asked-trans : {u v w : World} → Asked u v → Asked v w → Asked u w
Asked-trans {u} a b = record {
  commands = a.commands ++ b.commands;
  sent = b.sent ∙ ap (λ s. s ++ b.commands) a.sent ∙ append_assoc u.sent a.commands b.commands;
  questions = All-append IsQuestion a.commands b.commands a.questions b.questions;
  events = a.events ++ b.events;
  recorded =
      b.recorded ∙ ap (λ s. s ++ b.events) a.recorded ∙ append_assoc u.db.events a.events b.events;
  operators = b.operators ∙ a.operators;
}

pub record OnlyAsks {A : Type 0} (m : Exec A) : Type 0 where
  pub at : (w : World) → Asked w (m w).1

pub silent : {A : Type 0} {m : Exec A} → ((w : World) → (m w).1 ≡ w) → OnlyAsks m
silent h = record {
  at = λ w.
      quiet (ap (λ (v : World). v.sent) (h w)) (ap (λ (v : World). v.db.events) (h w))
        (ap (λ (v : World). v.db.operators) (h w));
}

pub continue-Asked :
    {A B : Type 0} (f : A → Exec B) (r : Result A × World)
    → ((a : A) → OnlyAsks (f a))
    → Asked r.1 (continue r.0 f r.1).1
continue-Asked f (ok a, v) k = (k a).at v
continue-Asked f (raised e, v) k = quiet refl refl refl

pub OnlyAsks-bind :
    {A B : Type 0} (m : Exec A) (f : A → Exec B)
    → OnlyAsks m
    → ((a : A) → OnlyAsks (f a))
    → OnlyAsks (m >>= f)
OnlyAsks-bind m f k g = record { at = λ w. Asked-trans (k.at w) (continue-Asked f (m w) g) }

-- The functions that only look at JSON values.
pub get_of-OnlyAsks : (j : Json) (name : Text) → OnlyAsks (get_of j name)
get_of-OnlyAsks (object fs) name = silent (λ w. refl)
get_of-OnlyAsks _ name = silent (λ w. refl)

pub iterate-OnlyAsks : (j : Json) → OnlyAsks (iterate j)
iterate-OnlyAsks (array is) = silent (λ w. refl)
iterate-OnlyAsks (string s) = silent (λ w. refl)
iterate-OnlyAsks (object fs) = silent (λ w. refl)
iterate-OnlyAsks _ = silent (λ w. refl)

pub key_of-OnlyAsks : (j : Json) → OnlyAsks (key_of j)
key_of-OnlyAsks (string t) = silent (λ w. refl)
key_of-OnlyAsks (array is) = silent (λ w. refl)
key_of-OnlyAsks (object fs) = silent (λ w. refl)
key_of-OnlyAsks _ = silent (λ w. refl)

pub or_raise-OnlyAsks : {A : Type 0} (o : Option A) (e : Exception) → OnlyAsks (or_raise o e)
or_raise-OnlyAsks none e = silent (λ w. refl)
or_raise-OnlyAsks (some a) e = silent (λ w. refl)

pub pure-OnlyAsks : {A : Type 0} (a : A) → OnlyAsks (pure a)
pure-OnlyAsks a = silent (λ w. refl)

pub raise-OnlyAsks : {A : Type 0} (e : Exception) → OnlyAsks (raise {A = A} e)
raise-OnlyAsks e = silent (λ w. refl)

pub index_of-OnlyAsks : (j : Json) (name : Text) → OnlyAsks (index_of j name)
index_of-OnlyAsks (object fs) name = or_raise-OnlyAsks (get_field name fs) key_error
index_of-OnlyAsks _ name = silent (λ w. refl)

pub index_by-OnlyAsks :
    {V : Type 0} (name : Text) (view : Json → V) (is : Items) (d : Dict V)
    → OnlyAsks (index_by name view is d)
unfolding index_by
index_by-OnlyAsks name view end d = silent (λ w. refl)
index_by-OnlyAsks name view (item j is) d =
    OnlyAsks-bind _ _ (get_of-OnlyAsks j name)
      (λ named. OnlyAsks-bind _ _ (key_of-OnlyAsks _) (λ key. index_by-OnlyAsks name view is _))

pub defaults_of-OnlyAsks : (is : Items) (d : Dict Bool) → OnlyAsks (defaults_of is d)
unfolding defaults_of
defaults_of-OnlyAsks end d = silent (λ w. refl)
defaults_of-OnlyAsks (item j is) d = OnlyAsks-bind _ _ (index_of-OnlyAsks j _) (λ acltype.
    OnlyAsks-bind _ _ (index_of-OnlyAsks j _)
      (λ allow. OnlyAsks-bind _ _ (key_of-OnlyAsks acltype) (λ key. defaults_of-OnlyAsks is _)))

pub connection_rows-OnlyAsks :
    (client : Fields) (observed_at : Text) (is : Items)
    → OnlyAsks (connection_rows client observed_at is)
unfolding connection_rows
connection_rows-OnlyAsks client observed_at end = silent (λ w. refl)
connection_rows-OnlyAsks client observed_at (item (object fs) is) =
    OnlyAsks-bind _ _ (connection_rows-OnlyAsks client observed_at is) (λ rows. silent (λ w. refl))
connection_rows-OnlyAsks client observed_at (item _ is) = silent (λ w. refl)

pub if-OnlyAsks :
    {A : Type 0} (b : Bool) {m n : Exec A} → OnlyAsks m → OnlyAsks n → OnlyAsks (if b then m else n)
if-OnlyAsks true h k = h
if-OnlyAsks false h k = k

pub client_rows-OnlyAsks :
    (client : Fields) (observed_at : Text) → OnlyAsks (client_rows client observed_at)
client_rows-OnlyAsks client observed_at =
    let found : Json = json_or_null (get_field (codes "connections") client) in
    if-OnlyAsks (truthy found)
      (OnlyAsks-bind (iterate found) (connection_rows client observed_at) (iterate-OnlyAsks found)
        (connection_rows-OnlyAsks client observed_at))
      (silent (λ w. refl))

pub all_rows-OnlyAsks : (observed_at : Text) (is : Items) → OnlyAsks (all_rows observed_at is)
unfolding all_rows
all_rows-OnlyAsks observed_at end = silent (λ w. refl)
all_rows-OnlyAsks observed_at (item (object fs) is) =
    OnlyAsks-bind _ _ (client_rows-OnlyAsks fs observed_at)
      (λ rows. OnlyAsks-bind _ _ (all_rows-OnlyAsks observed_at is) (λ rest. silent (λ w. refl)))
all_rows-OnlyAsks observed_at (item _ is) = silent (λ w. refl)

module _ (str_of : Json → Text) (casefold : Text → Text) (needle : Text) where
  pub client_contains-OnlyAsks : (j : Json) → OnlyAsks (client_contains str_of casefold needle j)
  client_contains-OnlyAsks j = OnlyAsks-bind _ _ (get_of-OnlyAsks j (codes "username")) (λ username.
      if-OnlyAsks (contains (casefold (str_of (json_or username (string [])))) needle)
        (silent (λ w. refl))
        (OnlyAsks-bind _ _ (get_of-OnlyAsks j (codes "clientid")) (λ clientid. silent (λ w. refl))))

  pub clients_with-OnlyAsks : (is : Items) → OnlyAsks (clients_with str_of casefold needle is)
  unfolding clients_with
  clients_with-OnlyAsks end = silent (λ w. refl)
  clients_with-OnlyAsks (item j is) =
      OnlyAsks-bind _ _ (client_contains-OnlyAsks j)
        (λ here. OnlyAsks-bind _ _ (clients_with-OnlyAsks is) (λ rest. silent (λ w. refl)))
