-- ===== src/Applications/Calls.antt =====
-- src/applications/calls: the administration of calls and their public visibility. The categories
-- and stack tags of a call, which are only shown, are validated and not stored.
pub mod Admin
pub mod Validity
pub mod Requests
pub mod Steps
pub mod Visibility
use nti_backend.Prelude.{
  ℕ, String, Bool, true, false, not, ◌&&◌, ◌||◌, Option, none, some, List, [], ◌∷◌, ◌++◌, map, ◌==◌,
  if◌then◌else◌, nat_eq, string_eq, find, filter, includes, is_some, is_empty, get_or, length, leb,
  trim, unique, Result, ok, err, ensure, bad_request, unique_violation, unavailable,
}
use nti_backend.Domain.{
  ProgramType, program_type_eq, CallStatus, call_status_eq, DocumentType, document_type_eq,
}
use nti_backend.Store.{Db, Call, EligibilityRuleConfig}
use nti_backend.Store.Tables.{update_where}
use nti_backend.Store.Transactions.{Tx, ◌>>=◌, ◌>>◌, pure, gets, modify, fresh_id, require_some}
use nti_backend.Applications.Repository.{find_call}

pub record RuleConfigInput : Type 0 where
  pub code : String
  pub threshold : String

-- The data of `createAdminCall`.
pub record NewCall : Type 0 where
  pub type : ProgramType
  pub title : String
  pub opens_at : Option ℕ
  pub closes_at : Option ℕ
  pub required_document_types : List DocumentType
  pub eligibility_rule_configs : List RuleConfigInput

-- The data of `updateAdminCall`: `none` for a field that is undefined.
pub record CallChange : Type 0 where
  pub type : Option ProgramType
  pub title : Option String
  pub status : Option CallStatus
  pub opens_at : Option (Option ℕ)
  pub closes_at : Option (Option ℕ)
  pub required_document_types : Option (List DocumentType)
  pub eligibility_rule_configs : Option (List RuleConfigInput)

abbrev has_duplicates : List DocumentType → Bool
has_duplicates [] = false
has_duplicates (t ∷ ts) = includes ts t || has_duplicates ts

abbrev pub config_row : ℕ → RuleConfigInput → EligibilityRuleConfig
config_row call_id c = record {
  call_id = call_id;
  code = c.code;
  enabled = true;
  threshold = some c.threshold;
}

abbrev pub call_row : ℕ → NewCall → Call
call_row id c = record {
  id = id;
  type = c.type;
  title = c.title;
  status = CallStatus.draft;
  opens_at = c.opens_at;
  closes_at = c.closes_at;
  required_document_types = c.required_document_types;
}

-- The rows of the required documents are unique by the call and the type.
unfoldable pub create_admin_call : NewCall → Tx Call
create_admin_call c db =
    if has_duplicates c.required_document_types
    then err (unique_violation ("callId" ∷ "documentType" ∷ []))
    else (do
      id ← fresh_id
      modify (λ d. record d {
        calls = d.calls ++ call_row id c ∷ [];
        rule_configs = d.rule_configs ++ map (config_row id) c.eligibility_rule_configs;
      })
      pure (call_row id c))
        db

abbrev pub change_call : CallChange → Call → Call
change_call change c = record c {
  type = get_or change.type c.type;
  title = get_or change.title c.title;
  status = get_or change.status c.status;
  opens_at = get_or change.opens_at c.opens_at;
  closes_at = get_or change.closes_at c.closes_at;
  required_document_types = get_or change.required_document_types c.required_document_types;
}

-- `deleteMany` and `create` of the configs of a call.
abbrev pub replace_configs :
    ℕ → Option (List RuleConfigInput) → List EligibilityRuleConfig → List EligibilityRuleConfig
replace_configs id none configs = configs
replace_configs id (some new) configs =
    filter (λ c. not (c.call_id == id)) configs ++ map (config_row id) new

unfoldable pub update_admin_call : ℕ → CallChange → Tx Call
update_admin_call id change db =
    if not (is_some (find_call id db))
    then err (unavailable "P2025")
    else if has_duplicates (get_or change.required_document_types [])
    then err (unique_violation ("callId" ∷ "documentType" ∷ []))
    else (do
      modify (λ d. record d {
        calls = update_where (λ c. c.id == id) (change_call change) d.calls;
        rule_configs = replace_configs id change.eligibility_rule_configs d.rule_configs;
      })
      found ← gets (find_call id)
      require_some found (unavailable "P2025"))
        db

-- `buildPublicVisibleWhere`
abbrev opened : ℕ → Option ℕ → Bool
opened now none = true
opened now (some at) = leb at now

abbrev not_closed : ℕ → Option ℕ → Bool
not_closed now none = true
not_closed now (some at) = leb now at

unfoldable pub is_public_visible : ℕ → Call → Bool
is_public_visible now c =
    c.status == CallStatus.open_call && opened now c.opens_at && not_closed now c.closes_at

unfoldable pub find_public_visible_by_id : ℕ → ℕ → Db → Option Call
find_public_visible_by_id id now db = find (λ c. c.id == id && is_public_visible now c) db.calls

unfoldable pub find_public_by_id : ℕ → Db → Option Call
find_public_by_id id db = find (λ c. c.id == id && c.status == CallStatus.open_call) db.calls

unfoldable pub has_active_program_b_call : ℕ → Db → Bool
has_active_program_b_call now db =
    not
      (is_empty (filter (λ c. c.type == ProgramType.program_b && is_public_visible now c) db.calls))
