-- ===== src/Http/Request.antt =====
-- A request as the code reads it through github.com/gofiber/fiber: what `BodyParser` makes of the body for
-- each type it is asked for, and what `Get`, `Query` and `QueryInt` return. Besides, what one request gets
-- from its surroundings: clock, new ids, the ends of its SQL statements and the broker's answers.
use multi_tenant_messaging.Base.{ℕ, Bool, String, Option}
use multi_tenant_messaging.Base.Int.{ℤ}
use multi_tenant_messaging.Db.{Outcome}
use multi_tenant_messaging.Amqp.{Answers}
use multi_tenant_messaging.Tenants.{CreateTenantRequest}
use multi_tenant_messaging.Messages.{CreateMessageRequest}
use multi_tenant_messaging.Auth.{RegisterRequest, LoginRequest}

pub data Method : Type 0 where
  get head post put delete_method other_method : Method

pub record Request : Type 0 where
  pub method : Method
  pub path : String
  pub authorization : String  -- "" without the header
  pub query : String → String  -- "" for a missing key
  pub query_int : String → ℤ → ℤ  -- the default for a missing key or a text that is no integer
  pub create_tenant_request : Option CreateTenantRequest
  pub update_concurrency_request : Option ℤ  -- its `workers`
  pub create_message_request : Option CreateMessageRequest
  pub register_request : Option RegisterRequest
  pub login_request : Option LoginRequest

-- `served` is whether a look-up gets an answer, `taken` how many items the workers still take at a stop.
pub record Moment : Type 0 where
  pub now : ℕ
  pub new_id : ℕ
  pub salt : ℕ
  pub served : Bool
  pub ties : ℕ → ℕ  -- the order of tenants of the same time
  pub outcome : Outcome
  pub answers : Answers
  pub taken : ℕ
