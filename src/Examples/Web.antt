-- ===== src/Examples/Web.antt =====
-- A small router, one token, and requests to an application that is made with them.
use multi_tenant_messaging.Base.{
  ℕ, List, String, Bool, Option, if◌then◌else◌, ◌∷◌, ◌≡◌, [], none, some, str_eq, true, ◌++◌,
  Bool-cases, arith, eq_iff, false, ltb, ◌&&◌, ◌==◌, inl, refl, ◌*◌, inr, not,
}
use multi_tenant_messaging.Http.Request.{
  Method, get, head, post, put, delete_method, Method, Moment, Request,
}
use Prim.Native.Char.{Char, code}
use multi_tenant_messaging.Auth.{Claims, claims_of}
use multi_tenant_messaging.Middleware.{Jwt, Parsed, claims, parse_error}
use multi_tenant_messaging.Router.{FiberRouter, Segment, word, param, Server}
use mathlib.Core.List.{[]}
use multi_tenant_messaging.Examples.Accounts.{eve, plain}
use multi_tenant_messaging.Http.{fiber_error, not_found_404}
use multi_tenant_messaging.Routes.{System}
use multi_tenant_messaging.Base.Int.{pos}
use multi_tenant_messaging.Db.{applied}
use multi_tenant_messaging.Examples.{running_system, unary_ids, config, willing}
use multi_tenant_messaging.Messages.{no_cursor}

-- A matcher on the pieces of a path between slashes.
abbrev glue : Char → List String → List String
glue c [] = String.◌∷◌ c "" ∷ []
glue c (w ∷ ws) = String.◌∷◌ c w ∷ ws

abbrev cut : String → List String
cut String.[] = "" ∷ []
cut (String.◌∷◌ c s) = let rest = cut s in if code c == b'/' then "" ∷ rest else glue c rest

abbrev tail : List String → List String
tail [] = []
tail (w ∷ ws) = ws

abbrev bind : String → String → Option (String → String) → Option (String → String)
bind k x none = none
bind k x (some f) = some (λ j. if str_eq j k then x else f j)

abbrev full : List Segment → List String → Option (String → String)
full [] [] = some (λ j. "")
full [] (x ∷ xs) = none
full (word w ∷ p) [] = none
full (word w ∷ p) (x ∷ xs) = if str_eq w x then full p xs else none
full (param k ∷ p) [] = none
full (param k ∷ p) (x ∷ xs) = bind k x (full p xs)

abbrev fits : List Segment → List String → Bool
fits [] xs = true
fits (s ∷ p) [] = false
fits (word w ∷ p) (x ∷ xs) = str_eq w x && fits p xs
fits (param k ∷ p) (x ∷ xs) = fits p xs

bound :
    (k x : String) (o : Option (String → String)) {f : String → String}
    → bind k x o ≡ some f
    → (g : String → String) × (o ≡ some g)
bound k x none {f} e = absurd (ground (arith, e))
bound k x (some g) {f} e = (g, refl)

full-fits :
    (p q : List Segment) (xs : List String) {f : String → String}
    → full (p ++ q) xs ≡ some f
    → fits p xs ≡ true
full-fits [] q xs {f} e = refl
full-fits (word w ∷ p) q [] {f} e = absurd (ground (arith, e))
full-fits (param k ∷ p) q [] {f} e = absurd (ground (arith, e))
full-fits (word w ∷ p) q (x ∷ xs) {f} e = elim (Bool-cases (str_eq w x)) [
  | inl h ↦ rw h (full-fits p q xs {f = f} (rw h at e))
  | inr h ↦ absurd (ground (arith, (rw h at e)))
]
full-fits (param k ∷ p) q (x ∷ xs) {f} e =
    let (g, there) = bound k x (full (p ++ q) xs) {f = f} e in full-fits p q xs {f = g} there

abbrev answers_to : Method → Method → Bool
answers_to get get = true
answers_to get head = true
answers_to post post = true
answers_to put put = true
answers_to delete_method delete_method = true
answers_to _ _ = false

pub params_under :
    (m n : Method) (p q : List Segment) (path : String) {f : String → String}
    → (if answers_to m n then full (p ++ q) (tail (cut path)) else none) ≡ some f
    → fits p (tail (cut path)) ≡ true
params_under m n p q path {f} e = elim (Bool-cases (answers_to m n)) [
  | inl h ↦ full-fits p q (tail (cut path)) {f = f} (rw h at e)
  | inr h ↦ absurd (ground (arith, (rw h at e)))
]

abbrev pub pieces_router : FiberRouter
pieces_router = record {
  under = λ p path. fits p (tail (cut path));
  params = λ m p n path. if answers_to m n then full p (tail (cut path)) else none;
  unmatched = λ m path. fiber_error not_found_404 "Cannot answer";
  params-under = params_under;
}

-- A token library that signs the claims of one login.
abbrev pub eve_claims : Claims
eve_claims = claims_of eve 9 10_000_000

abbrev same_claims : Claims → Bool
same_claims c =
    str_eq c.user_id eve_claims.user_id
    && str_eq c.username eve_claims.username
    && str_eq c.tenant_id eve_claims.tenant_id
    && str_eq c.role eve_claims.role
    && c.expires_at == eve_claims.expires_at
    && c.issued_at == eve_claims.issued_at

same_claims_path : (c : Claims) → same_claims c ≡ true → c ≡ eve_claims
same_claims_path c h =
    let user : c.user_id ≡ eve_claims.user_id = (eq_iff _ _).0 (ground (arith, h)) in
    let name : c.username ≡ eve_claims.username = (eq_iff _ _).0 (ground (arith, h)) in
    let tenant : c.tenant_id ≡ eve_claims.tenant_id = (eq_iff _ _).0 (ground (arith, h)) in
    let role : c.role ≡ eve_claims.role = (eq_iff _ _).0 (ground (arith, h)) in
    let expires : c.expires_at ≡ eve_claims.expires_at = ground (arith, h) in
    let issued : c.issued_at ≡ eve_claims.issued_at = ground (arith, h) in
    λ i. record {
      user_id = user i;
      username = name i;
      tenant_id = tenant i;
      role = role i;
      expires_at = expires i;
      issued_at = issued i;
    }

abbrev sign_eve : String → Claims → Option String
sign_eve secret c = if same_claims c then some "token" else none

abbrev parse_eve : String → ℕ → String → Parsed
parse_eve secret now token =
    if str_eq token "token"
    then if ltb now (eve_claims.expires_at * 1_000_000) then claims eve_claims else parse_error
    else parse_error

pub parse_signed :
    (secret token : String) (c : Claims) (now : ℕ)
    → sign_eve secret c ≡ some token
    → parse_eve secret now token
      ≡ (if ltb now (c.expires_at * 1_000_000) then claims c else parse_error)
parse_signed secret token c now e = elim (Bool-cases (same_claims c)) [
  | inl h ↦
      let token_is : token ≡ "token" = ground (arith, (rw h at e)) in
      rw (token_is, same_claims_path c h) refl
  | inr h ↦ absurd (ground (arith, (rw h at e)))
]

abbrev pub eve_tokens : Jwt
eve_tokens = record { sign = sign_eve; parse = parse_eve; parse-sign = parse_signed }

abbrev pub server : Server
server = record {
  fiber = pieces_router;
  uuid = record unary_ids { parse = λ s. not (str_eq s "") };
  bcrypt = plain;
  jwt = eve_tokens;
  read_cursor = λ s. no_cursor;
  secret = "s";
  expiry = 10_000_000;
}

abbrev pub at_ten : Moment
at_ten = record {
  now = 10;
  new_id = 6;
  salt = 0;
  served = true;
  ties = λ i. i;
  outcome = applied;
  answers = willing;
  taken = 0;
}

abbrev pub blank : Request
blank = record {
  method = get;
  path = "/health";
  authorization = "";
  query = λ k. "";
  query_int = λ k d. d;
  create_tenant_request = none;
  update_concurrency_request = none;
  create_message_request = none;
  register_request = none;
  login_request = none;
}

abbrev pub bearer : Request
bearer = record blank { authorization = "bearer token" }

abbrev pub bakery_request : Request
bakery_request = record bearer {
  method = post;
  path = "/api/v1/tenants";
  create_tenant_request = some (record { name = "bakery"; workers = pos 60 });
}

abbrev empty_system : System
empty_system = record running_system { manager = config }
