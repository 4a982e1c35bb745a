-- ===== src/Admin/Audit.antt =====
-- The audit log (`audit` of app/services/admin.py).
use tools_backend.Base.{suc, Option, some, [], ◌∷◌, ◌++◌, Text}
use tools_backend.Json.{Fields}
use tools_backend.Admin.Rows.{User}
use tools_backend.Admin.Tables.{Tables}

-- The arguments of `audit`; `category` is "audit" unless the caller says otherwise.
pub record Entry : Type 0 where
  pub action : Text
  pub summary : Text
  pub category : Text
  pub entity_type : Option Text
  pub entity_id : Option Text
  pub ip : Option Text
  pub meta : Fields

unfoldable pub audit : Tables → User → Entry → Tables
audit t actor entry = record t {
  audit_logs =
      t.audit_logs
      ++ record {
        id = t.next_id;
        actor_id = some actor.id;
        actor_email = some actor.email;
        action = entry.action;
        category = entry.category;
        entity_type = entry.entity_type;
        entity_id = entry.entity_id;
        summary = entry.summary;
        ip = entry.ip;
        meta = entry.meta;
        created_at = t.now;
      }
        ∷ [];
  next_id = suc t.next_id;
}
