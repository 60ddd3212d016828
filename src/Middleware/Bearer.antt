-- ===== src/Middleware/Bearer.antt =====
-- Which headers the middleware lets through.
use multi_tenant_messaging.Base.{
  ℕ, String, Bool-cases, Option, ◌≡◌, Bool, some, str_eq, false, if◌then◌else◌, inl, true, arith,
  inr, ltb, refl, ◌*◌, ◌∙◌, ap, ◌+◌, ◌/◌, subst, eq_iff,
}
use multi_tenant_messaging.Base.Text.{split_space, lower_is}
use multi_tenant_messaging.Auth.{
  Claims, Bcrypt, LoginResponse, login, granted, User, get_by_username, claims_of,
}
use multi_tenant_messaging.Db.{UuidFormat, Db}
use multi_tenant_messaging.Middleware.{
  Jwt, jwt_middleware, Checked, Locals, Parsed, check_claims, check_parts, next, claims, halt,
  parse_error, not_valid, other_claims,
}
use mathlib.Core.Option.{none}
use multi_tenant_messaging.Http.{unauthorized_401, answer, error_text}
use multi_tenant_messaging.Auth.Login.{login_granted}

-- A header whose first word is "bearer", in any case, with the token after the space.
abbrev pub Carries : String → String → Type 0
Carries header token =
    (scheme : String) × (split_space header ≡ some (scheme, token))
    × (lower_is scheme "bearer" ≡ true)

abbrev pub locals_of : Claims → Locals
locals_of c = record { user = some c; tenant_id = some c.tenant_id }

-- What the middleware's answer says of the header.
abbrev pub Verdict : Jwt → String → ℕ → String → Checked → Type 0
Verdict jwt secret now header (next l) =
    (token : String) × (c : Claims) × Carries header token
    × (jwt.parse secret now token ≡ claims c)
    × (l ≡ locals_of c)
Verdict jwt secret now header (halt r) =
    (text : String) × (r ≡ answer unauthorized_401 (error_text text))

check_claims-Verdict :
    (jwt : Jwt) (secret : String) (now : ℕ) (header token : String) (parsed : Parsed)
    → Carries header token
    → jwt.parse secret now token ≡ parsed
    → Verdict jwt secret now header (check_claims parsed)
check_claims-Verdict jwt secret now header token parse_error shape e = (_, refl)
check_claims-Verdict jwt secret now header token not_valid shape e = (_, refl)
check_claims-Verdict jwt secret now header token other_claims shape e = (_, refl)
check_claims-Verdict jwt secret now header token (claims c) shape e = (token, c, shape, e, refl)

check_parts-Verdict :
    (jwt : Jwt) (secret : String) (now : ℕ) (header : String) (parts : Option (String × String))
    → split_space header ≡ parts
    → Verdict jwt secret now header (check_parts jwt secret now parts)
check_parts-Verdict jwt secret now header none e = (_, refl)
check_parts-Verdict jwt secret now header (some (scheme, token)) e =
    elim (Bool-cases (lower_is scheme "bearer")) [
      | inl h ↦ rw h (
          check_claims-Verdict jwt secret now header token (jwt.parse secret now token)
            (scheme, e, h) refl)
      | inr h ↦ rw h (_, refl)
    ]

-- The middleware lets a request through only with a header that carries a token, after any spelling of
-- "bearer", which parses under the secret, and then stores this token's claims and their tenant; every
-- other request is answered with 401.
pub jwt_middleware-Verdict :
    (jwt : Jwt) (secret : String) (now : ℕ) (header : String)
    → Verdict jwt secret now header (jwt_middleware jwt secret now header)
unfolding jwt_middleware
jwt_middleware-Verdict jwt secret now header = elim (Bool-cases (str_eq header "")) [
  | inl h ↦ rw h (_, refl)
  | inr h ↦ rw h (check_parts-Verdict jwt secret now header (split_space header) refl)
]

not_empty :
    (header : String) {parts : String × String}
    → split_space header ≡ some parts
    → str_eq header "" ≡ false
unfolding split_space
not_empty header {parts} e = elim (Bool-cases (str_eq header "")) [
  | inl h ↦
      let gone : none ≡ some parts =
        subst (λ s. split_space s ≡ some parts) ((eq_iff header "").0 h) e in
      absurd (ground (arith, gone))
  | inr h ↦ h
]

pub middleware_parsed :
    (jwt : Jwt) (secret : String) (now : ℕ) (header token : String)
    → Carries header token
    → jwt_middleware jwt secret now header ≡ check_claims (jwt.parse secret now token)
unfolding jwt_middleware
middleware_parsed jwt secret now header token (scheme, e, h) =
    rw (not_empty header {parts = (scheme, token)} e, e, h) refl

check_claims_if :
    (b : Bool) (c : Claims)
    → check_claims (if b then claims c else parse_error) ≡ (
        if b
        then next (locals_of c)
        else halt (answer unauthorized_401 (error_text "invalid token")))
check_claims_if true c = refl
check_claims_if false c = refl

signed_claims :
    (jwt : Jwt) (secret : String) (now : ℕ) (header token : String) (c : Claims)
    → Carries header token
    → jwt.sign secret c ≡ some token
    → jwt_middleware jwt secret now header
      ≡ check_claims (if ltb now (c.expires_at * 1_000_000) then claims c else parse_error)
signed_claims jwt secret now header token c shape signed =
    middleware_parsed jwt secret now header token shape
    ∙ ap check_claims (jwt.parse-sign secret token c now signed)

-- A token that `Login` grants, which takes the right password, admits its bearer as the user of the table who
-- logged in: the locals have that user's own id, name, tenant and role as claims, and the tenant once more,
-- at every moment before the second in which the token expires, and at none after it.
pub middleware-login :
    (u : UuidFormat) (h : Bcrypt) (jwt : Jwt) (secret : String) (served : Bool)
    (before expiry now : ℕ) (name password : String) (db : Db) (header : String) {r : LoginResponse}
    → login u h (jwt.sign secret) served before expiry name password db ≡ granted r
    → Carries header r.token
    → (user : User) × (get_by_username u true name db ≡ granted user)
      × (h.verify user.password_hash password ≡ true)
      × (jwt_middleware jwt secret now header ≡ (
          if ltb now ((before + expiry) / 1_000_000 * 1_000_000)
          then next (record {
            user = some (record {
              user_id = user.id;
              username = user.username;
              tenant_id = user.tenant_id;
              role = user.role;
              expires_at = (before + expiry) / 1_000_000;
              issued_at = before / 1_000_000;
            });
            tenant_id = some user.tenant_id;
          })
          else halt (answer unauthorized_401 (error_text "invalid token"))))
middleware-login u h jwt secret served before expiry now name password db header {r} e shape =
    let (user, found, right, signed, told) =
      login_granted u h (jwt.sign secret) served before expiry name password db {r = r} e in
    (
      user,
      found,
      right,
      signed_claims jwt secret now header r.token (claims_of user before expiry) shape signed
          ∙ check_claims_if (ltb now ((before + expiry) / 1_000_000 * 1_000_000))
              (claims_of user before expiry),
    )
