-- ===== src/Api/Guards.antt =====
-- What must be shown before any mutating route reaches the broker.
use mqtt_broker_stack.Common.{◌≡◌, ◌≢◌, refl, ap, ◌∙◌, ◌⊎◌, inl, inr}
use mqtt_broker_stack.Models.{World, Json, Exception, Result, ok, raised, raised-bind, Env}
use mqtt_broker_stack.Auth.{Request, Actor, Credentials}
use mqtt_broker_stack.Auth.Sessions.{IsAuthorized, require_mutation_role_sound}
use mqtt_broker_stack.Api.Bodies.{authorize, security_admin}
use mqtt_broker_stack.Api.Clients
use mqtt_broker_stack.Api.Groups
use mqtt_broker_stack.Api.Roles
use mqtt_broker_stack.Api.Routes.{Route, handle}
use mqtt_broker_stack.Api.Sent.{authorize-KeepsSent}

module _ (env : Env) (request : Request) (credentials : Credentials) where
  -- A request that is not authorised ends with the error of the check, in the state after the check.
  pub handle_unauthorized :
      (route : Route) (w w' : World) (e : Exception)
      → authorize env credentials w ≡ (raised e, w')
      → handle env request credentials route w ≡ (raised e, w')
  unfolding handle Clients.create_client Clients.rotate_password Clients.client_state
      Clients.delete_client Clients.assign_client_role Clients.remove_client_role
      Clients.assign_client_group Clients.remove_client_group Groups.create_group
      Groups.update_group Groups.delete_group Groups.assign_group_role Groups.remove_group_role
      Roles.create_role Roles.update_role Roles.delete_role Roles.add_acl Roles.remove_acl
  handle_unauthorized (Route.create_client payload) w w' e h =
      raised-bind (authorize env credentials) _ w w' e h
  handle_unauthorized _ w w' e h = raised-bind (authorize env credentials) _ w w' e h

  pub outcome_cases :
      (w : World)
      → ((e : Exception) × (authorize env credentials w
            ≡ (raised e, (authorize env credentials w).1)))
        ⊎ ((a : Actor) × (authorize env credentials w ≡ (ok a, (authorize env credentials w).1)))
  outcome_cases w = go (authorize env credentials w)
    where
      go :
          (r : Result Actor × World)
          → ((e : Exception) × (r ≡ (raised e, r.1))) ⊎ ((a : Actor) × (r ≡ (ok a, r.1)))
      go (ok a, v) = inr (a, refl)
      go (raised e, v) = inl (e, refl)

  -- Whatever the mutating route, if it sends anything to the broker then the request came from an
  -- authentic, enabled operator with at least the role security_admin, whose CSRF token was sent twice
  -- and belongs to the session.
  pub handle-IsAuthorized :
      (route : Route) (w : World)
      → (handle env request credentials route w).1.sent ≢ w.sent
      → (actor : Actor) × IsAuthorized env security_admin credentials w actor
  handle-IsAuthorized route w n = elim (outcome_cases w) [
    | inl (e, h) ↦ absurd (
        n (
          ap (λ (r : Result Json × World). r.1.sent)
            (handle_unauthorized route w (authorize env credentials w).1 e h)
          ∙ (authorize-KeepsSent env credentials).at w))
    | inr (a, h) ↦ (
      a,
      require_mutation_role_sound env security_admin credentials w a (authorize env credentials w).1
          (unfold authorize in h),
    )
  ]
