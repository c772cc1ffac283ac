-- ===== src/Roles.antt =====
-- middleware/rbac.ts: who a request is from, and whether its role is among those a route allows. The
-- decoding of a token's segment (base64 and JSON.parse), `toLowerCase` and `trim` are parameters. The
-- Authorization header and its token are lists of code points.
pub mod Permissions
pub mod Inherited
mod Tests
use mathlib.Core.Option
use Prim.Native.Nat.{bit_and, bit_or}
use quipay_backend.Prelude.{
  ℕ, ◌+◌, String, Bool, not, ◌&&◌, ◌||◌, Option, none, some, List, [], ◌∷◌, leb, eqb, if◌then◌else◌,
  ◌==◌, nat_eq, string_eq, find,
}

pub data Role : Type 0 where
  user admin super_admin : Role

-- The values of the enumeration.
abbrev pub bit : Role → ℕ
bit user = 1
bit admin = 2
bit super_admin = 4

-- What `ROLE_MAP[name]` gives where it is not `undefined`: a role, or what every object inherits.
pub data RoleValue : Type 0 where
  role_of : Role → RoleValue
  inherited : String → RoleValue

-- The operand of `&`: an object or a function counts as 0.
abbrev pub to_int32 : RoleValue → ℕ
to_int32 (role_of r) = bit r
to_int32 (inherited name) = 0

-- The names in small letters that `Object.prototype` has.
abbrev pub inherited_value : String → Option RoleValue
inherited_value name =
    if (name == "constructor") || (name == "__proto__") then some (inherited name) else none

unfoldable pub role_map : String → Option RoleValue
role_map name =
    if (name == "user") || (name == "role_user")
    then some (role_of user)
    else if (name == "admin") || (name == "role_admin")
    then some (role_of admin)
    else if (name == "superadmin") || (name == "role_superadmin")
    then some (role_of super_admin)
    else inherited_value name

-- A claim of a token's payload: a text, an array with its first element if that is a text, or another.
pub data Claim : Type 0 where
  text : String → Claim
  array : Option String → Claim
  other : Claim

pub record Texts : Type 0 where
  pub lower_case : String → String
  pub trim : String → String
  pub decode_segment : List ℕ → Option (List (String × Claim))

pub record User : Type 0 where
  pub id : String
  pub role : RoleValue
  pub email : Option String
  pub stellar_address : Option String

-- The headers that the code reads.
pub record Request : Type 0 where
  pub authorization : Option (List ℕ)
  pub x_user_role : Option String
  pub x_user_id : Option String

abbrev value_of : Option (String × Claim) → Option Claim
value_of none = none
value_of (some entry) = some entry.1

abbrev claim : String → List (String × Claim) → Option Claim
claim key payload = value_of (find (λ (entry : String × Claim). entry.0 == key) payload)

abbrev text_of : Option Claim → Option String
text_of none = none
text_of (some (text t)) = some t
text_of (some (array first)) = none
text_of (some other) = none

-- `Array.isArray(payload.roles) ? payload.roles[0] : payload.roles`
abbrev first_text : Option Claim → Option String
first_text none = none
first_text (some (text t)) = some t
first_text (some (array first)) = first
first_text (some other) = none

abbrev or_next : Option RoleValue → Option RoleValue → Option RoleValue
or_next none next = next
or_next (some v) next = some v

abbrev role_of_text : Texts → Option String → Option RoleValue
role_of_text texts none = none
role_of_text texts (some t) = role_map (texts.lower_case t)

unfoldable pub first_role : Texts → List (Option String) → Option RoleValue
unfolding role_map
first_role texts [] = none
first_role texts (c ∷ cs) = or_next (role_of_text texts c) (first_role texts cs)

abbrev get_role_from_jwt_payload : Texts → List (String × Claim) → Option RoleValue
get_role_from_jwt_payload texts payload = first_role texts (
    text_of (claim "role" payload)
    ∷ text_of (claim "user_role" payload)
    ∷ text_of (claim "userRole" payload)
    ∷ first_text (claim "roles" payload)
    ∷ [])

-- `typeof value === "string" && value.trim()`
abbrev filled : Texts → Option String → Option String
filled texts none = none
filled texts (some t) = if texts.trim t == "" then none else some (texts.trim t)

abbrev or_text : Option String → Option String → Option String
or_text none next = next
or_text (some t) next = some t

abbrev get_string_claim : Texts → List (String × Claim) → List String → Option String
get_string_claim texts payload [] = none
get_string_claim texts payload (key ∷ keys) =
    or_text (filled texts (text_of (claim key payload))) (get_string_claim texts payload keys)

abbrev user_with : Texts → List (String × Claim) → Option RoleValue → Option String → Option User
user_with texts payload none id = none
user_with texts payload (some role) none = none
user_with texts payload (some role) (some id) = some (record {
  id = id;
  role = role;
  email = get_string_claim texts payload ("email" ∷ []);
  stellar_address =
      get_string_claim texts payload (
        "stellar_address" ∷ "stellarAddress" ∷ "wallet_address" ∷ "walletAddress" ∷ "address" ∷ []);
})

abbrev user_of_payload : Texts → Option (List (String × Claim)) → Option User
user_of_payload texts none = none
user_of_payload texts (some payload) =
    user_with texts payload (get_role_from_jwt_payload texts payload)
      (get_string_claim texts payload ("sub" ∷ "user_id" ∷ "userId" ∷ "id" ∷ []))

-- `token.split(".")[1]`; an empty segment is none.
abbrev to_dot : List ℕ → List ℕ
to_dot [] = []
to_dot (c ∷ cs) = let rest = to_dot cs in if eqb c b'.' then [] else c ∷ rest

abbrev after_dot : List ℕ → List ℕ
after_dot [] = []
after_dot (c ∷ cs) = let rest = after_dot cs in if eqb c b'.' then cs else rest

abbrev decode_filled : Texts → List ℕ → Option (List (String × Claim))
decode_filled texts [] = none
decode_filled texts (c ∷ cs) = texts.decode_segment (c ∷ cs)

abbrev pub decode_jwt_payload : Texts → List ℕ → Option (List (String × Claim))
decode_jwt_payload texts token = decode_filled texts (to_dot (after_dot token))

-- `/^Bearer\s+(.+)$/i` of a header, which has no line break.
abbrev starts_with : List ℕ → List ℕ → Option (List ℕ)
starts_with [] cs = some cs
starts_with (p ∷ ps) [] = none
starts_with (p ∷ ps) (c ∷ cs) =
    if eqb c p || (leb b'A' c && eqb (c + 32) p) then starts_with ps cs else none

abbrev is_blank : ℕ → Bool
is_blank c = eqb c 32 || (eqb c 9 || eqb c 160)

-- Behind the blanks; where only blanks follow, the last of two or more is the token.
abbrev behind_blanks : List ℕ → Option (List ℕ)
behind_blanks [] = none
behind_blanks (c ∷ []) = some (c ∷ [])
behind_blanks (c ∷ d ∷ cs) =
    let later = behind_blanks (d ∷ cs) in if is_blank c then later else some (c ∷ d ∷ cs)

abbrev after_bearer : Option (List ℕ) → Option (List ℕ)
after_bearer none = none
after_bearer (some []) = none
after_bearer (some (c ∷ cs)) = if is_blank c then behind_blanks cs else none

abbrev pub bearer_token : List ℕ → Option (List ℕ)
bearer_token header =
    after_bearer (starts_with (b'b' ∷ b'e' ∷ b'a' ∷ b'r' ∷ b'e' ∷ b'r' ∷ []) header)

abbrev pub user_of_token : Texts → Option (List ℕ) → Option User
user_of_token texts none = none
user_of_token texts (some token) = user_of_payload texts (decode_jwt_payload texts token)

abbrev token_of : Option (List ℕ) → Option (List ℕ)
token_of none = none
token_of (some header) = bearer_token header

-- A header that is missing or empty is none.
abbrev given : Option String → Option String
given none = none
given (some t) = if t == "" then none else some t

abbrev header_user : String → Option RoleValue → Option User
header_user id none = none
header_user id (some role) =
    some (record { id = id; role = role; email = none; stellar_address = none })

abbrev pub user_of_headers : Texts → Option String → Option String → Option User
user_of_headers texts none id = none
user_of_headers texts (some role) none = none
user_of_headers texts (some role) (some id) = header_user id (role_map (texts.lower_case role))

abbrev pub or_user : Option User → Option User → Option User
or_user none next = next
or_user (some u) next = some u

unfoldable pub extract_user : Texts → Request → Option User
unfolding role_map first_role
extract_user texts req =
    or_user (user_of_token texts (token_of req.authorization))
      (user_of_headers texts (given req.x_user_role) (given req.x_user_id))

-- What a middleware does: it hands the request on, or answers with a status.
pub data Verdict : Type 0 where
  next : Verdict
  status : ℕ → Verdict

-- `authenticateRequest`: the verdict, and the user of the request that is handed on.
abbrev authenticated : Option User → Verdict × Option User
authenticated none = (status 401, none)
authenticated (some u) = (next, some u)

unfoldable pub authenticate_request : Texts → Request → Verdict × Option User
unfolding extract_user
authenticate_request texts req = authenticated (extract_user texts req)

-- `allowedRoles.reduce((acc, r) => acc | r, 0)`
abbrev pub mask_from : ℕ → List Role → ℕ
mask_from acc [] = acc
mask_from acc (r ∷ rs) = mask_from (bit_or acc (bit r)) rs

abbrev pub has_permission : RoleValue → ℕ → Bool
has_permission role mask = not (eqb (bit_and (to_int32 role) mask) 0)

unfoldable pub require_role : List Role → Option User → Verdict
require_role allowed none = status 401
require_role allowed (some u) =
    if has_permission u.role (mask_from 0 allowed) then next else status 403

abbrev pub require_admin : Option User → Verdict
require_admin u = require_role (admin ∷ super_admin ∷ []) u

abbrev pub require_super_admin : Option User → Verdict
require_super_admin u = require_role (super_admin ∷ []) u

abbrev pub require_user : Option User → Verdict
require_user u = require_role (user ∷ admin ∷ super_admin ∷ []) u
