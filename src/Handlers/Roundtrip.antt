-- ===== src/Handlers/Roundtrip.antt =====
-- What one handler answers after another.
use multi_tenant_messaging.Base.{
  ℕ, String, ◌≡◌, false, true, some, str_eq, Bool-cases, ap, inl, refl, eq_iff, subst, arith, inr,
  ◌∙◌,
}
use multi_tenant_messaging.Db.{Db, UuidFormat, pending}
use multi_tenant_messaging.Handlers.Messages.{
  create_message_handler, get_message_handler, message_created_or, message_or,
}
use multi_tenant_messaging.Messages.{MessageResponse, create_message, get_message, decoded}
use multi_tenant_messaging.Tenants.{Answer, good, bad}
use multi_tenant_messaging.Http.{Body, message_body, answer, created_201, ok_200, Response}
use multi_tenant_messaging.Http.Request.{Moment, Request}
use multi_tenant_messaging.Json.{Json}
use multi_tenant_messaging.Messages.Create.{get_message-create_message}

abbrev body_message : MessageResponse → Body → MessageResponse
body_message m (message_body n) = n
body_message m _ = m

created_201_good :
    (out : Db × Answer MessageResponse) {m : MessageResponse}
    → (message_created_or out).1 ≡ answer created_201 (message_body m)
    → (out.1 ≡ good m) × ((message_created_or out).0 ≡ out.0)
created_201_good (db, good n) {m} h = (ap (λ (r : Response). good (body_message n r.body)) h, refl)
created_201_good (db, bad e) {m} h = absurd (ground (arith, ap (λ (r : Response). r.status) h))

create_handler_some :
    (u : UuidFormat) (x : Moment) (tenant_id : String) (p : Json) (db : Db)
    → u.parse tenant_id ≡ true
    → create_message_handler u x (some (record { tenant_id = tenant_id; payload = some p })) db
      ≡ message_created_or (create_message u x.outcome x.new_id x.now tenant_id (some p) db)
unfolding create_message_handler
create_handler_some u x tenant_id p db fine = rw fine refl

parsed_not_empty :
    (u : UuidFormat) (text : String)
    → u.parse "" ≡ false
    → u.parse text ≡ true
    → str_eq text "" ≡ false
parsed_not_empty u text none fine = elim (Bool-cases (str_eq text "")) [
  | inl h ↦
      let same : u.parse text ≡ u.parse "" = ap u.parse ((eq_iff text "").0 h) in
      absurd (ground (arith, same, none, fine))
  | inr h ↦ h
]

pub get_handler_parsed :
    (u : UuidFormat) (x : Moment) (id : String) (req : Request) (db : Db)
    → u.parse "" ≡ false
    → u.parse id ≡ true
    → u.parse (req.query "tenant_id") ≡ true
    → get_message_handler u x id req db
      ≡ message_or (get_message u x.served id (req.query "tenant_id") db)
unfolding get_message_handler
get_handler_parsed u x id req db none fine own =
    rw (fine, parsed_not_empty u (req.query "tenant_id") none own, own) refl

-- A message that `POST /messages` answers with 201 is pending, with the payload of the request, and
-- `GET /messages/:id` on its new id and the same tenant then answers 200 with the same message, where
-- `uuid.Parse` accepts the two ids and not the empty text.
pub get_message_handler-create :
    (u : UuidFormat) (x y : Moment) (tenant_id : String) (p : Json) (req : Request) (db : Db)
    {t : ℕ} {m : MessageResponse}
    → u.parse "" ≡ false
    → u.parse (u.print x.new_id) ≡ true
    → u.parse tenant_id ≡ true
    → u.read tenant_id ≡ some t
    → req.query "tenant_id" ≡ tenant_id
    → y.served ≡ true
    → let out =
        create_message_handler u x (some (record { tenant_id = tenant_id; payload = some p })) db in
      out.1 ≡ answer created_201 (message_body m)
      → (get_message_handler u y (u.print x.new_id) req out.0 ≡ answer ok_200 (message_body m))
        × (m.status ≡ pending)
        × (m.payload ≡ decoded p)
get_message_handler-create u x y tenant_id p req db {t} {m} none fine own reads asked up h =
    let made = create_handler_some u x tenant_id p db own in
    let (made_good, kept) =
      created_201_good (create_message u x.outcome x.new_id x.now tenant_id (some p) db) {m = m}
        (subst (λ (out : Db × Response). out.1 ≡ answer created_201 (message_body m)) made h) in
    let (got, status, retries, payload) =
      get_message-create_message u x.outcome x.new_id x.now tenant_id p db {t = t} {r = m} reads
        made_good in
    (
      get_handler_parsed u y (u.print x.new_id) req _ none fine (rw asked own)
          ∙ rw (up, asked, made, kept, got) refl,
      status,
      payload,
    )
