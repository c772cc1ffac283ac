-- ===== src/Roles/Permissions.antt =====
-- The bit masks of middleware/rbac.ts decide membership.
use Prim.Native.Nat.{bit_and, bit_or, bit_and-bitwise}
use quipay_backend.Prelude.{
  ℕ, zero, suc, ◌≤◌, ◌<◌, ◌≡◌, refl, ap, ◌∙◌, inl, inr, Bool, true, false, not, ◌&&◌, ◌||◌, Option,
  none, some, List, [], ◌∷◌, arith, ltb, eqb, if◌then◌else◌, eqb_iff, Bool-cases, nat_eq, string_eq,
  any,
}
use quipay_backend.Roles.{
  Role, user, admin, super_admin, bit, RoleValue, role_of, inherited, User, Verdict, next, status,
  mask_from, has_permission, require_role,
}

abbrev pub same_role : Role → Role → Bool
same_role user user = true
same_role admin admin = true
same_role super_admin super_admin = true
same_role _ _ = false

-- Whether a value is one of the roles.
abbrev pub is_among : RoleValue → List Role → Bool
is_among (inherited name) rs = false
is_among (role_of r) rs = any (same_role r) rs

abbrev same_bool : Bool → Bool → Bool
same_bool true true = true
same_bool false false = true
same_bool _ _ = false

same_bool_sound : (a b : Bool) → same_bool a b ≡ true → a ≡ b
same_bool_sound true true h = refl
same_bool_sound false false h = refl
same_bool_sound true false h = absurd (cc h)
same_bool_sound false true h = absurd (cc h)

-- A test at a number and at every smaller one.
holds_down : (ℕ → Bool) → ℕ → Bool
holds_down test zero = test 0
holds_down test (suc top) =
    let lower = holds_down test top in if test (suc top) then lower else false

from_holds_down :
    (test : ℕ → Bool) (top mask : ℕ) → mask ≤ top → holds_down test top ≡ true → test mask ≡ true
unfolding holds_down
from_holds_down test zero mask small h = ap test (omega arith) ∙ h
from_holds_down test (suc top) mask small h = elim (Bool-cases (test (suc top))) [
  | inl t ↦ elim (Bool-cases (eqb mask (suc top))) [
    | inl last ↦ ap test ((eqb_iff mask (suc top)).0 last) ∙ t
    | inr before ↦ from_holds_down test top mask (ground (arith, before, small)) (rw t at h)
  ]
  | inr f ↦ absurd (cc (rw f at h))
]

-- Masks are below 8; one role more in a mask is one role more that it allows.
abbrev adds : Role → Role → ℕ → Bool
adds r s m =
    same_bool (has_permission (role_of r) (bit_or m (bit s)))
      (same_role r s || has_permission (role_of r) m)
    && ltb (bit_or m (bit s)) 8

table : (r s : Role) → holds_down (adds r s) 7 ≡ true
unfolding holds_down
table user user = refl
table user admin = refl
table user super_admin = refl
table admin user = refl
table admin admin = refl
table admin super_admin = refl
table super_admin user = refl
table super_admin admin = refl
table super_admin super_admin = refl

module _ (r s : Role) (m : ℕ) (small : m < 8) where
  adds_here : adds r s m ≡ true
  adds_here = from_holds_down (adds r s) 7 m (omega arith) (table r s)

  adds_permission :
      has_permission (role_of r) (bit_or m (bit s))
      ≡ (same_role r s || has_permission (role_of r) m)
  adds_permission = same_bool_sound _ _ (ground (arith, adds_here))

  mask_stays_small : bit_or m (bit s) < 8
  mask_stays_small = ground (arith, adds_here)

permission-mask_from :
    (r : Role) (m : ℕ) (rs : List Role)
    → m < 8
    → has_permission (role_of r) (mask_from m rs)
      ≡ (any (same_role r) rs || has_permission (role_of r) m)
permission-mask_from r m [] small = refl
permission-mask_from r m (s ∷ rs) small =
    let rest = permission-mask_from r (bit_or m (bit s)) rs (mask_stays_small r s m small) in
    let first = adds_permission r s m small in
    rest ∙ ap (λ b. any (same_role r) rs || b) first ∙ swap (any (same_role r) rs) (same_role r s) _
  where
    swap : (a b c : Bool) → (a || (b || c)) ≡ ((b || a) || c)
    swap a b c = ground arith

-- An object has no bit.
no_bit : (mask : ℕ) → bit_and 0 mask ≡ 0
no_bit mask = bit_and-bitwise 0 mask

has_permission-is_among :
    (v : RoleValue) (allowed : List Role)
    → has_permission v (mask_from 0 allowed) ≡ is_among v allowed
has_permission-is_among (inherited name) allowed =
    ap (λ (n : ℕ). not (eqb n 0)) (no_bit (mask_from 0 allowed))
has_permission-is_among (role_of user) allowed =
    permission-mask_from user 0 allowed (omega arith) ∙ ground arith
has_permission-is_among (role_of admin) allowed =
    permission-mask_from admin 0 allowed (omega arith) ∙ ground arith
has_permission-is_among (role_of super_admin) allowed =
    permission-mask_from super_admin 0 allowed (omega arith) ∙ ground arith

-- What a route that allows some roles does with a user.
abbrev pub verdict_for : List Role → Option User → Verdict
verdict_for allowed none = status 401
verdict_for allowed (some u) = if is_among u.role allowed then next else status 403

-- `requireRole` hands a request on exactly where its user has one of the allowed roles, whatever roles
-- are allowed; it answers 401 where there is no user and 403 otherwise.
pub require_role-verdict_for :
    (allowed : List Role) (u : Option User) → require_role allowed u ≡ verdict_for allowed u
unfolding require_role
require_role-verdict_for allowed none = refl
require_role-verdict_for allowed (some u) =
    ap (λ (b : Bool). if b then next else status 403) (has_permission-is_among u.role allowed)
