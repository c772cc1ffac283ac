-- ===== src/Roles/Tests.antt =====
-- Requests with headers and with a token.
use mathlib.Core.Option
use quipay_backend.Prelude.{ℕ, ◌≡◌, refl, none, some, List, [], ◌∷◌, nat_eq, string_eq}
use quipay_backend.Roles.{
  bearer_token, decode_jwt_payload, user, admin, super_admin, role_of, Texts, text, array, User,
  extract_user, status, require_role,
}
use quipay_backend.Roles.Permissions.{verdict_for, require_role-verdict_for}

abbrev texts : Texts
texts = record {
  lower_case = λ t. t;
  trim = λ t. t;
  decode_segment = λ t.
      some (("sub", text "7") ∷ ("role", text "nobody") ∷ ("roles", array (some "admin")) ∷ []);
}

abbrev token_user : User
token_user = record { id = "7"; role = role_of admin; email = none; stellar_address = none }

-- `bearer  a.b.c`
abbrev bearer : List ℕ
bearer =
    b'b' ∷ b'e' ∷ b'a' ∷ b'r' ∷ b'e' ∷ b'r' ∷ b' ' ∷ b' ' ∷ b'a' ∷ b'.' ∷ b'b' ∷ b'.' ∷ b'c' ∷ []

segment_read :
    Option.map (decode_jwt_payload texts) (bearer_token bearer)
    ≡ some (texts.decode_segment (b'b' ∷ []))
segment_read = refl

token_role :
    extract_user texts
      (record { authorization = some bearer; x_user_role = none; x_user_id = none })
    ≡ some token_user
unfolding extract_user
token_role = refl

require_role-verdict_for_example :
    require_role (user ∷ super_admin ∷ []) (some token_user)
    ≡ verdict_for (user ∷ super_admin ∷ []) (some token_user)
require_role-verdict_for_example =
    require_role-verdict_for (user ∷ super_admin ∷ []) (some token_user)

admin_refused : require_role (user ∷ super_admin ∷ []) (some token_user) ≡ status 403
unfolding require_role
admin_refused = refl
