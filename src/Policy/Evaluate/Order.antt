-- ===== src/Policy/Evaluate/Order.antt =====
-- The order by which policy.py sorts ACLs is total and transitive.
use mqtt_broker_stack.Common.{true, false, ◌≡◌, arith}
use mqtt_broker_stack.Common.Int.{ℤ, leb_ℤ}
use mqtt_broker_stack.Policy.Evaluate.{Acl, priority_of, acl_before}

leb_ℤ_total : (x y : ℤ) → leb_ℤ x y ≡ false → leb_ℤ y x ≡ true
leb_ℤ_total x y h = ground arith

leb_ℤ_trans : (x y z : ℤ) → leb_ℤ x y ≡ true → leb_ℤ y z ≡ true → leb_ℤ x z ≡ true
leb_ℤ_trans x y z h k = ground arith

pub acl_before_total : (a b : Acl) → acl_before a b ≡ false → acl_before b a ≡ true
unfolding acl_before
acl_before_total a b h = leb_ℤ_total (priority_of b.priority) (priority_of a.priority) h

pub acl_before_trans :
    (a b c : Acl) → acl_before a b ≡ true → acl_before b c ≡ true → acl_before a c ≡ true
unfolding acl_before
acl_before_trans a b c h k =
    leb_ℤ_trans (priority_of c.priority) (priority_of b.priority) (priority_of a.priority) k h

pub acl_before_refl : (a : Acl) → acl_before a a ≡ true
unfolding acl_before
acl_before_refl a = ground arith
