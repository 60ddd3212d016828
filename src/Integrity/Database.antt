-- ===== src/Integrity/Database.antt =====
-- The constraints of the tables, under every call that changes them.
use multi_tenant_messaging.Db.{
  Db, Outcome, UuidFormat, MessageRow, UserRow, upsert_processing, set_status, find_row,
  insert_dead_letter, Status,
}
use multi_tenant_messaging.Base.{
  String, ℕ, Bool, ◌≡◌, some, Option-cases, inl, true, inr, arith, refl,
}
use multi_tenant_messaging.Messages.{
  create_message, insert_message, add_message, new_message, message_answer,
}
use multi_tenant_messaging.Tenants.Rows.{
  IsTenantTable, keep_tenants-IsTenantTable, set_concurrency_rows-IsTenantTable,
}
use multi_tenant_messaging.Base.Int.{ℤ}
use multi_tenant_messaging.Db.Keys.{
  IsMessageTable, upsert_rows-IsMessageTable, set_status_rows-IsMessageTable,
}
use multi_tenant_messaging.Json.{Json}
use multi_tenant_messaging.Tenants.{
  CreateTenantRequest, delete_tenant, create_tenant, update_tenant_concurrency, new_tenant,
}
use multi_tenant_messaging.Auth.Ids.{IsUserTable}
use multi_tenant_messaging.Tenants.Cases.{delete_tenant_cases, create_tenant_cases, update_cases}
use multi_tenant_messaging.Auth.{user_fits, add_user, Bcrypt, RegisterRequest, register}
use multi_tenant_messaging.Retry.{Attempt, Burial, WorkError, handle_message, move_to_dead_letter}
use multi_tenant_messaging.Auth.References.{
  IsReferring, add_tenant-IsReferring, remove_tenant-IsReferring, set_concurrency-IsReferring,
  unset_tenant-IsUserTable,
}
use multi_tenant_messaging.Tenants.Calls.{default_range}
use multi_tenant_messaging.Db.Outcomes.{exec_either}
use multi_tenant_messaging.Pool.{WorkItem}
use multi_tenant_messaging.Retry.Tables.{handle_message-kept, move_to_dead_letter-kept}
use mathlib.Core.Bool.{false}
use multi_tenant_messaging.Auth.Tables.{register_cases}

-- Keys and names stand once, a tenant's concurrency is from 1 to 50, and a user's tenant is in the table
-- or none.
pub record IsDatabase (db : Db) : Type 0 where
  pub tenants : IsTenantTable db.tenants
  pub messages : IsMessageTable db.messages
  pub users : IsUserTable db.users
  pub references : IsReferring db.tenants db.users

-- A new row whose key is free.
insert_message-kept :
    (o : Outcome) (row : MessageRow) (db : Db)
    → IsDatabase db
    → IsDatabase (insert_message o row (find_row row.id row.tenant_id db.messages) db).0
insert_message-kept o row db v = elim (Option-cases (find_row row.id row.tenant_id db.messages)) [
  | inl free ↦ rw free (
      exec_either IsDatabase o (add_message row) db v (record {
        tenants = v.tenants;
        messages = (free, v.messages);
        users = v.users;
        references = v.references;
      }))
  | inr (taken, e) ↦ rw e v
]

message_answer-kept :
    (u : UuidFormat) (row : MessageRow) (out : Db × Bool)
    → IsDatabase out.0
    → IsDatabase (message_answer u row out).0
message_answer-kept u row (db, true) v = v
message_answer-kept u row (db, false) v = v

module _ (u : UuidFormat) (db : Db) (v : IsDatabase db) where
  pub create_tenant-IsDatabase :
      (o : Outcome) (i now : ℕ) (req : CreateTenantRequest)
      → IsDatabase (create_tenant u o i now req db).0
  create_tenant-IsDatabase o i now req = create_tenant_cases u IsDatabase db v o i now req (λ free.
      record {
        tenants = (free, default_range req.workers, v.tenants);
        messages = v.messages;
        users = v.users;
        references = add_tenant-IsReferring (new_tenant i now req) db.tenants db.users v.references;
      })

  pub delete_tenant-IsDatabase :
      (o : Outcome) (id : String) → IsDatabase (delete_tenant u o id db).0
  delete_tenant-IsDatabase o id = delete_tenant_cases u IsDatabase db v o id (λ i. record {
    tenants = keep_tenants-IsTenantTable i db.tenants v.tenants;
    messages = v.messages;
    users = unset_tenant-IsUserTable i db.users v.users;
    references = remove_tenant-IsReferring i db.tenants db.users v.references;
  })

  pub update-IsDatabase :
      (o : Outcome) (now : ℕ) (id : String) (n : ℤ)
      → IsDatabase (update_tenant_concurrency u o now id n db).0
  update-IsDatabase o now id n = update_cases u IsDatabase db v o now id n (λ i range. record {
    tenants = set_concurrency_rows-IsTenantTable n now i db.tenants range v.tenants;
    messages = v.messages;
    users = v.users;
    references = set_concurrency-IsReferring n now i db.tenants db.users v.references;
  })

  pub create_message-IsDatabase :
      (o : Outcome) (i now : ℕ) (tenant_id : String) (p : Json)
      → IsDatabase (create_message u o i now tenant_id (some p) db).0
  unfolding create_message
  create_message-IsDatabase o i now tenant_id p = elim (Option-cases (u.read tenant_id)) [
    | inl e ↦ rw (e, create_message) v
    | inr (t, e) ↦
        rw (e, create_message)
          (message_answer-kept u (new_message i t now p) _
            (insert_message-kept o (new_message i t now p) db v))
  ]

  -- A fitting row has a free id and a free name, and its tenant is there.
  add_user-IsDatabase :
      (row : UserRow) (t : ℕ)
      → row.tenant_id ≡ some t
      → user_fits row t db ≡ true
      → IsDatabase (add_user row db)
  add_user-IsDatabase row t own fits = record {
    tenants = v.tenants;
    messages = v.messages;
    users = (ground (arith, fits), ground (arith, fits), v.users);
    references = (rw own (ground (arith, fits)), v.references);
  }

  pub register-IsDatabase :
      (h : Bcrypt) (served : Bool) (o : Outcome) (salt i now : ℕ) (req : RegisterRequest)
      → IsDatabase (register u h served o salt i now req db).0
  register-IsDatabase h served o salt i now req =
      register_cases u IsDatabase db v add_user-IsDatabase h served o salt i now req

upsert-IsDatabase :
    (p : Json) (r : ℤ) (now i t : ℕ) (db : Db)
    → IsDatabase db
    → IsDatabase (upsert_processing p r now i t db)
unfolding upsert_processing
upsert-IsDatabase p r now i t db v = record {
  tenants = v.tenants;
  messages = upsert_rows-IsMessageTable p r now i t db.messages v.messages;
  users = v.users;
  references = v.references;
}

set_status-IsDatabase :
    (s : Status) (now i t : ℕ) (db : Db) → IsDatabase db → IsDatabase (set_status s now i t db)
unfolding set_status
set_status-IsDatabase s now i t db v = record {
  tenants = v.tenants;
  messages = set_status_rows-IsMessageTable s now i t db.messages v.messages;
  users = v.users;
  references = v.references;
}

insert_dead_letter-IsDatabase :
    (p : Json) (why : String) (r : ℤ) (now i t : ℕ) (db : Db)
    → IsDatabase db
    → IsDatabase (insert_dead_letter p why r now i t db)
unfolding insert_dead_letter
insert_dead_letter-IsDatabase p why r now i t db v = record {
  tenants = v.tenants;
  messages = v.messages;
  users = v.users;
  references = v.references;
}

module _ (u : UuidFormat) (item : WorkItem) (db : Db) (v : IsDatabase db) where
  pub handle_message-IsDatabase : (a : Attempt) → IsDatabase (handle_message u item a db).0
  handle_message-IsDatabase a =
      handle_message-kept u IsDatabase item
        (λ p r now i t d _ _ _ w. upsert-IsDatabase p r now i t d w)
        (λ s now i t d _ _ w. set_status-IsDatabase s now i t d w) item a db (refl, refl, refl) v

  pub move_to_dead_letter-IsDatabase :
      (x : WorkError) (b : Burial) → IsDatabase (move_to_dead_letter u item x b db)
  move_to_dead_letter-IsDatabase x b =
      move_to_dead_letter-kept u IsDatabase item
        (λ p r now i t d _ _ _ w. upsert-IsDatabase p r now i t d w)
        (λ s now i t d _ _ w. set_status-IsDatabase s now i t d w)
        (λ p why r now i t d w. insert_dead_letter-IsDatabase p why r now i t d w) item x b db
        (refl, refl, refl) v
