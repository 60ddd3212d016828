-- ===== src/Messages/Create.antt =====
-- `CreateMessage`, then `GetMessage`.
use multi_tenant_messaging.Base.{ℕ, String, Option, ◌≡◌, some, true, arith, refl}
use multi_tenant_messaging.Db.{
  UuidFormat, Outcome, MessageRow, Db, find_row, applied, refused, unconfirmed, pending,
}
use multi_tenant_messaging.Json.{Json}
use multi_tenant_messaging.Messages.{
  MessageResponse, create_message, get_message, message_answer, insert_message, new_message,
  add_message, message_or_none, message_response, decoded,
}
use multi_tenant_messaging.Tenants.{good}
use mathlib.Core.Option.{none}
use multi_tenant_messaging.Base.Int.{pos}

insert_good :
    (u : UuidFormat) (o : Outcome) (row : MessageRow) (found : Option MessageRow) (db : Db)
    {r : MessageResponse}
    → (message_answer u row (insert_message o row found db)).1 ≡ good r
    → ((message_answer u row (insert_message o row found db)).0 ≡ add_message row db)
      × (message_response u row ≡ r)
insert_good u o row (some taken) db e = absurd (ground (arith, e))
insert_good u applied row none db e = (refl, ground (arith, e))
insert_good u refused row none db e = absurd (ground (arith, e))
insert_good u unconfirmed row none db e = absurd (ground (arith, e))

pub get_message_read :
    (u : UuidFormat) (db : Db) (t j : ℕ) (id tenant : String)
    → u.read id ≡ some j
    → u.read tenant ≡ some t
    → get_message u true id tenant db ≡ message_or_none u (find_row j t db.messages)
unfolding get_message
get_message_read u db t j id tenant e f = rw (e, f, get_message)

module _ (u : UuidFormat) (o : Outcome) (i now : ℕ) (tenant_id : String) (p : Json) (db : Db) where
  create_message_read :
      (t : ℕ)
      → u.read tenant_id ≡ some t
      → create_message u o i now tenant_id (some p) db
        ≡ message_answer u
            (new_message i t now p)
            (insert_message o (new_message i t now p) (find_row i t db.messages) db)
  unfolding create_message
  create_message_read t e = rw (e, create_message)

  -- Where `CreateMessage` succeeds, its answer is a pending message that was never retried, with the
  -- payload that was given, and `GetMessage` on the new id and the same tenant gives this very answer.
  pub get_message-create_message :
      {t : ℕ} {r : MessageResponse}
      → u.read tenant_id ≡ some t
      → (create_message u o i now tenant_id (some p) db).1 ≡ good r
      → (get_message u true (u.print i) tenant_id (create_message u o i now tenant_id (some p) db).0
          ≡ good r)
        × (r.status ≡ pending)
        × (r.retry_count ≡ pos 0)
        × (r.payload ≡ decoded p)
  unfolding find_row
  get_message-create_message {t} {r} reads e =
      let row = new_message i t now p in
      let (done, same) =
        insert_good u o row (find_row i t db.messages) db (rw (create_message_read t reads) at e) in
      (
        rw
            (
              create_message_read t reads,
              done,
              get_message_read u (add_message row db) t i (u.print i) tenant_id (u.read-print i)
                  reads,
            )
            (ground (arith, same)),
        ground (arith, same),
        ground (arith, same),
        ground (arith, same),
      )
