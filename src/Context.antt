-- ===== src/Context.antt =====
-- src/erp_ai/context/models.py and audit.py: the trusted request context, after validation, and
-- its redacted audit projection. An aware datetime is the number of its instant.
use ai_systems_try.Base.{ℕ, String, Bool, true, false, Option, none, some, List}
use ai_systems_try.Base.{length}

pub record TrustedRequestContext : Type 0 where
  pub request_id : String
  pub customer_environment_id : String
  pub user_id : String
  pub employee_id : Option String
  pub roles : List String
  pub permission_codes : List String
  pub legal_entity_ids : List String
  pub enabled_modules : List String
  pub locale : String
  pub timezone : String
  pub purpose : String
  pub issued_at : ℕ
  pub authorization_snapshot_id : String

pub record ContextAuditRecord : Type 0 where
  pub request_id : String
  pub customer_environment_id : String
  pub user_id : String
  pub purpose : String
  pub locale : String
  pub timezone : String
  pub issued_at : ℕ
  pub authorization_snapshot_id : String
  pub employee_linked : Bool
  pub role_count : ℕ
  pub permission_count : ℕ
  pub legal_entity_count : ℕ
  pub enabled_module_count : ℕ

abbrev pub is_some {ℓ} : {A : Type ℓ} → Option A → Bool
is_some none = false
is_some (some a) = true

unfoldable pub to_audit_record : TrustedRequestContext → ContextAuditRecord
to_audit_record context = record {
  request_id = context.request_id;
  customer_environment_id = context.customer_environment_id;
  user_id = context.user_id;
  purpose = context.purpose;
  locale = context.locale;
  timezone = context.timezone;
  issued_at = context.issued_at;
  authorization_snapshot_id = context.authorization_snapshot_id;
  employee_linked = is_some context.employee_id;
  role_count = length context.roles;
  permission_count = length context.permission_codes;
  legal_entity_count = length context.legal_entity_ids;
  enabled_module_count = length context.enabled_modules;
}
