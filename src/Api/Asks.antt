-- ===== src/Api/Asks.antt =====
-- The checks of admin-api/app/auth.py and the questions to the broker, as methods that only ask.
use mqtt_broker_stack.Common.{
  ℕ, Text, codes, ◌≡◌, refl, sym, ◌++◌, [], ◌∷◌, append-nil, one_of, Option, none, some,
  Option-cases, inl, inr, true, Bool, arith, ◌==◌, is_empty,
}
use mqtt_broker_stack.Models.{
  key_error, attribute_error, read_clock, gets, raise_if, OperatorSession, array, end, Fields, Env,
}
use mqtt_broker_stack.Auth.{
  Actor, Credentials, Request, text_or, find_session, find_operator, expired_session, drop_session,
  delete_session, admit, current_actor, check_role, require_role, unauthorized,
}
use mqtt_broker_stack.Audit.{append_event}
use mqtt_broker_stack.Broker.{list_field}
use mqtt_broker_stack.Api.{command, audit, json_or}
use mqtt_broker_stack.Api.Queries.{list_objects, Views, PermissionQuery, ask}
use mqtt_broker_stack.Api.Asking.{
  OnlyAsks, question_names, quiet, silent, OnlyAsks-bind, get_of-OnlyAsks, iterate-OnlyAsks,
  or_raise-OnlyAsks, raise-OnlyAsks, index_by-OnlyAsks, defaults_of-OnlyAsks, if-OnlyAsks,
}

module _ (env : Env) where
  -- A question is a command that the broker gets.
  pub command-OnlyAsks :
      (name : Text) (arguments : Fields)
      → one_of name question_names ≡ true
      → OnlyAsks (command env name arguments)
  unfolding command
  command-OnlyAsks name arguments q = record {
    at = λ w. record {
      commands = record { command = name; arguments = arguments } ∷ [];
      sent = refl;
      questions = (q, tt);
      events = [];
      recorded = sym (append-nil _);
      operators = refl;
    };
  }

  pub list_objects-OnlyAsks :
      (kind : Text)
      → one_of (codes "list" ++ kind) question_names ≡ true
      → OnlyAsks (list_objects env kind)
  unfolding list_objects
  list_objects-OnlyAsks kind q =
      OnlyAsks-bind _ _ (or_raise-OnlyAsks (list_field kind) key_error) (λ name.
        OnlyAsks-bind _ _ (command-OnlyAsks (codes "list" ++ kind) _ q)
          (λ listed. OnlyAsks-bind _ _ (get_of-OnlyAsks listed name) (λ value. silent (λ w. refl))))

  pub audit-OnlyAsks :
      (request : Request) (actor : Option Actor) (action target result : Text) (metadata : Fields)
      → OnlyAsks (audit env request actor action target result metadata)
  unfolding audit append_event
  audit-OnlyAsks request actor action target result metadata = record {
    at = λ w. record {
      commands = [];
      sent = sym (append-nil _);
      questions = tt;
      events = _;
      recorded = refl;
      operators = refl;
    };
  }

  admit-OnlyAsks : (now : ℕ) (s : OperatorSession) → OnlyAsks (admit now s)
  unfolding admit
  admit-OnlyAsks now s = record {
    at = λ w. elim (Option-cases (find_operator (λ o. o.id == s.operator_id) w.db.operators)) [
      | inl n ↦ quiet (ground arith) (ground arith) (ground arith)
      | inr (o, f) ↦ quiet (ground arith) (ground arith) (ground arith)
    ];
  }

  drop_session-OnlyAsks : (s : Option OperatorSession) → OnlyAsks (drop_session s)
  unfolding delete_session
  drop_session-OnlyAsks none = silent (λ w. refl)
  drop_session-OnlyAsks (some s) = record { at = λ w. quiet refl refl refl }

  current_actor-OnlyAsks : (token : Option Text) → OnlyAsks (current_actor env token)
  unfolding current_actor
  current_actor-OnlyAsks token =
      let missing : Bool = is_empty (text_or token []) in
      OnlyAsks-bind (raise_if missing (unauthorized (codes "Authentication required"))) _
        (silent (λ w. refl))
        (λ _.
          OnlyAsks-bind
            (gets (λ w.
              find_session (λ s. s.token_hash == env.sha256 (text_or token [])) w.db.sessions))
            _ (silent (λ w. refl))
            (λ session.
              OnlyAsks-bind (read_clock env) _ (record { at = λ w. quiet refl refl refl })
                (λ now.
                  if-OnlyAsks (expired_session session now)
                    (OnlyAsks-bind (drop_session session) _ (drop_session-OnlyAsks session)
                      (λ _. raise-OnlyAsks (unauthorized (codes "Session expired"))))
                    (OnlyAsks-bind _ _ (or_raise-OnlyAsks session attribute_error)
                      (admit-OnlyAsks now)))))

  pub require_role-OnlyAsks :
      (minimum : Text) (credentials : Credentials) → OnlyAsks (require_role env minimum credentials)
  unfolding require_role check_role
  require_role-OnlyAsks minimum credentials =
      OnlyAsks-bind (current_actor env credentials.token) _
        (current_actor-OnlyAsks credentials.token)
        (λ actor. record { at = λ w. quiet (ground arith) (ground arith) (ground arith) })

  pub ask-OnlyAsks : (views : Views) (q : PermissionQuery) → OnlyAsks (ask env views q)
  unfolding ask
  ask-OnlyAsks views q =
      OnlyAsks-bind _ _ (command-OnlyAsks (codes "getClient") _ (unfold ◌==◌ in refl))
        (λ client_data. OnlyAsks-bind _ _ (get_of-OnlyAsks client_data _) (λ found.
          OnlyAsks-bind _ _ (list_objects-OnlyAsks (codes "Groups") (unfold ◌==◌ in refl))
            (λ group_value.
              OnlyAsks-bind _ _ (list_objects-OnlyAsks (codes "Roles") (unfold ◌==◌ in refl))
                (λ role_value. OnlyAsks-bind _ _ (iterate-OnlyAsks group_value) (λ group_items.
                  OnlyAsks-bind _ _ (index_by-OnlyAsks _ views.group group_items []) (λ groups.
                    OnlyAsks-bind _ _ (iterate-OnlyAsks role_value) (λ role_items.
                      OnlyAsks-bind _ _ (index_by-OnlyAsks _ views.role role_items []) (λ roles.
                        OnlyAsks-bind _ _
                          (command-OnlyAsks (codes "getDefaultACLAccess") _ (unfold ◌==◌ in refl))
                          (λ defaults_data.
                            OnlyAsks-bind _ _ (get_of-OnlyAsks defaults_data _) (λ acls.
                              OnlyAsks-bind _ _ (iterate-OnlyAsks (json_or acls (array end)))
                                (λ default_items.
                                  OnlyAsks-bind _ _ (defaults_of-OnlyAsks default_items [])
                                    (λ defaults. silent (λ w. refl)))))))))))))
