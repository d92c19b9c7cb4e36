-- ===== src/Api/Confirmed.antt =====
-- Which mutating routes of admin-api/app/main.py must be confirmed, and that nothing is sent before.
use mqtt_broker_stack.Common.{
  Text, codes, ◌≡◌, ◌≢◌, ◌∙◌, refl, ap, inl, inr, Bool, true, false, ◌&&◌, not, Option, none, some,
  ◌++◌, ◌==◌, eq_iff, one_of, starts_with, Bool-cases,
}
use mqtt_broker_stack.Models.{
  World, Json, Exception, http, Result, ok, raised, raised-bind, Exec, ◌>>=◌, raise_if, Env,
}
use mqtt_broker_stack.Auth.{Request, Actor, Credentials}
use mqtt_broker_stack.Api.{require_confirmation}
use mqtt_broker_stack.Api.Bodies.{AclCreate, authorize, broad_topics, security_admin}
use mqtt_broker_stack.Auth.Sessions.{IsAuthorized, require_mutation_role_sound}
use mqtt_broker_stack.Api.Guards.{handle_unauthorized, outcome_cases}
use mqtt_broker_stack.Api.Clients
use mqtt_broker_stack.Api.Groups
use mqtt_broker_stack.Api.Roles
use mqtt_broker_stack.Api.Routes.{Route, handle}
use mqtt_broker_stack.Api.Sent.{KeepsSent, KeepsSent-bind, authorize-KeepsSent}

-- A deletion whose X-Confirm-Action header is not the sentence that names the deleted object, or an
-- allow rule on a broad topic without the elevated confirmation.
pub data IsUnconfirmed : Route → Type 0 where
  client :
      {name : Text} {given : Option Text}
      → given ≢ some (codes "delete client " ++ name)
      → IsUnconfirmed (Route.delete_client name given)
  group :
      {name : Text} {given : Option Text}
      → given ≢ some (codes "delete group " ++ name)
      → IsUnconfirmed (Route.delete_group name given)
  role :
      {name : Text} {given : Option Text}
      → given ≢ some (codes "delete role " ++ name)
      → IsUnconfirmed (Route.delete_role name given)
  rule :
      {name kind topic : Text} {given : Option Text}
      → given
        ≢ some (codes "remove ACL " ++ (name ++ (codes " " ++ (kind ++ (codes " " ++ topic)))))
      → IsUnconfirmed (Route.remove_acl name kind topic given)
  broad :
      {name : Text} {payload : AclCreate}
      → one_of payload.topic broad_topics ≡ true
      → payload.allow ≡ true
      → payload.elevated_confirmation ≡ false
      → IsUnconfirmed (Route.add_acl name payload)

raises-KeepsSent :
    {A B : Type 0} (m : Exec A) (f : A → Exec B)
    → ((w : World) → (e : Exception) × (m w ≡ (raised e, w)))
    → KeepsSent (m >>= f)
raises-KeepsSent {A} {B} m f r = record {
  at = λ w. ap (λ (x : Result B × World). x.1.sent) (raised-bind m f w w (r w).0 (r w).1);
}

raise_if-raises :
    (b : Bool) (x : Exception)
    → b ≡ true
    → (w : World) → (e : Exception) × (raise_if b x w ≡ (raised e, w))
raise_if-raises b x h w = (x, rw h refl)

require_confirmation-raises :
    (given : Option Text) (expected : Text)
    → given ≢ some expected
    → (w : World) → (e : Exception) × (require_confirmation given expected w ≡ (raised e, w))
unfolding require_confirmation
require_confirmation-raises none expected n w = (_, refl)
require_confirmation-raises (some value) expected n w = elim (Bool-cases (value == expected)) [
  | inl t ↦ absurd (n (ap some ((eq_iff value expected).0 t)))
  | inr f ↦ (http 409 (codes "Confirm this action with X-Confirm-Action: " ++ expected), rw f refl)
]

module _ (env : Env) (request : Request) (credentials : Credentials) where
  unconfirmed-KeepsSent :
      {route : Route} → IsUnconfirmed route → KeepsSent (handle env request credentials route)
  unfolding handle Clients.delete_client Groups.delete_group Roles.delete_role Roles.add_acl
      Roles.remove_acl
  unconfirmed-KeepsSent (client {name} {given} n) =
      KeepsSent-bind (authorize env credentials) _ (authorize-KeepsSent env credentials)
        (λ a. raises-KeepsSent _ _ (require_confirmation-raises given _ n))
  unconfirmed-KeepsSent (group {name} {given} n) =
      KeepsSent-bind (authorize env credentials) _ (authorize-KeepsSent env credentials)
        (λ a. raises-KeepsSent _ _ (require_confirmation-raises given _ n))
  unconfirmed-KeepsSent (role {name} {given} n) =
      KeepsSent-bind (authorize env credentials) _ (authorize-KeepsSent env credentials)
        (λ a. raises-KeepsSent _ _ (require_confirmation-raises given _ n))
  unconfirmed-KeepsSent (rule {name} {kind} {topic} {given} n) =
      KeepsSent-bind (authorize env credentials) _ (authorize-KeepsSent env credentials)
        (λ a. raises-KeepsSent _ _ (require_confirmation-raises given _ n))
  unconfirmed-KeepsSent (broad {name} {payload} t y n) =
      KeepsSent-bind (authorize env credentials) _ (authorize-KeepsSent env credentials) (λ a.
        raises-KeepsSent _ _ (
          raise_if-raises
            (one_of payload.topic broad_topics
              && payload.allow
              && not payload.elevated_confirmation)
            _ (rw (t, y, n) refl)))

  -- A route that deletes a client, a group, a role or a rule without its confirmation sentence, or adds
  -- an allow rule on a broad topic without the elevated confirmation, sends nothing to the broker.
  pub handle_unconfirmed :
      (route : Route) (w : World)
      → IsUnconfirmed route
      → (handle env request credentials route w).1.sent ≡ w.sent
  handle_unconfirmed route w u = (unconfirmed-KeepsSent u).at w

  control_refused :
      (rolename : Text) (payload : AclCreate) (a : Actor) (w v : World)
      → authorize env credentials w ≡ (ok a, v)
      → starts_with payload.topic (codes "$CONTROL/") ≡ true
      → (a.operator.role == codes "super_admin") ≡ false
      → (handle env request credentials (Route.add_acl rolename payload) w).1 ≡ v
  unfolding handle Roles.add_acl
  control_refused rolename payload a w v h s n =
      elim (Bool-cases
        (one_of payload.topic broad_topics && payload.allow && not payload.elevated_confirmation)) [
          | inl t ↦ rw (h, t) refl
          | inr f ↦ rw (h, f, s, n) refl
        ]

  -- If adding a rule on a topic under "$CONTROL/" sends anything to the broker, the request came from an
  -- authentic operator with the role super_admin.
  pub add_acl-control :
      (rolename : Text) (payload : AclCreate) (w : World)
      → starts_with payload.topic (codes "$CONTROL/") ≡ true
      → (handle env request credentials (Route.add_acl rolename payload) w).1.sent ≢ w.sent
      → (a : Actor) × IsAuthorized env security_admin credentials w a
        × (a.operator.role ≡ codes "super_admin")
  add_acl-control rolename payload w s n = elim (outcome_cases env request credentials w) [
    | inl (e, h) ↦ absurd (
        n (
          ap (λ (r : Result Json × World). r.1.sent)
            (handle_unauthorized env request credentials (Route.add_acl rolename payload) w
              (authorize env credentials w).1 e h)
          ∙ (authorize-KeepsSent env credentials).at w))
    | inr (a, h) ↦ elim (Bool-cases (a.operator.role == codes "super_admin")) [
      | inl t ↦ (
        a,
        require_mutation_role_sound env security_admin credentials w a
            (authorize env credentials w).1 (unfold authorize in h),
        (eq_iff a.operator.role (codes "super_admin")).0 t,
      )
      | inr f ↦ absurd (
          n (
            ap (λ (v : World). v.sent)
              (control_refused rolename payload a w (authorize env credentials w).1 h s f)
            ∙ (authorize-KeepsSent env credentials).at w))
    ]
  ]
