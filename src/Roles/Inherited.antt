-- ===== src/Roles/Inherited.antt =====
-- Role names that middleware/rbac.ts takes although they are none.
use mathlib.Core.Option
use quipay_backend.Prelude.{String, ◌≡◌, refl, false, none, some, List, ◌==◌, nat_eq, string_eq}
use quipay_backend.Roles.{
  Role, role_map, Texts, User, extract_user, authenticate_request, next, status, require_role,
}
use quipay_backend.Roles.Permissions.{require_role-verdict_for}

-- A request without an Authorization header whose role is the name `constructor`, which every object
-- inherits, and that gives some id, is authenticated as the user of that id; every route that requires
-- a role refuses it all the same, with 403.
pub authenticate_request-constructor :
    (texts : Texts) (role id : String)
    → texts.lower_case role ≡ "constructor"
    → (role == "") ≡ false
    → (id == "") ≡ false
    → let result =
        authenticate_request texts
          (record { authorization = none; x_user_role = some role; x_user_id = some id }) in
      (result.0 ≡ next)
      × (Option.map (λ (u : User). u.id) result.1 ≡ some id)
      × ((allowed : List Role) → require_role allowed result.1 ≡ status 403)
unfolding authenticate_request extract_user role_map
authenticate_request-constructor texts role id small role_given id_given =
    rw (role_given, id_given, small) (refl, refl, λ allowed. require_role-verdict_for allowed _)
