-- ===== src/Applications/Calls/Admin.antt =====
-- src/applications/calls/admin-calls.service.ts. The methods run in no transaction: between the
-- look at the call and its update others may commit.
use nti_backend.Prelude.{
  ℕ, String, Bool, false, not, ◌&&◌, ◌||◌, Option, none, some, List, [], ◌∷◌, map, ◌==◌,
  if◌then◌else◌, nat_eq, string_eq, find, filter, is_some, is_empty, get_or, length, leb, trim,
  unique, Result, bad_request, conflict, forbidden, not_found,
}
use nti_backend.Domain.{ProgramType, program_type_eq, CallStatus, call_status_eq, DocumentType}
use nti_backend.Domain.Roles.{AuthenticatedUserContext, is_admin_role}
use nti_backend.Store.{Db, Call, EligibilityRuleConfig}
use nti_backend.Store.Transactions.{
  Tx, ◌>>=◌, ◌>>◌, pure, gets, require, require_some, read_committed, serializable,
}
use nti_backend.Applications.Repository.{find_call}
use nti_backend.Applications.Signals.{Numbers}
use nti_backend.Applications.Calls.{
  RuleConfigInput, NewCall, CallChange, create_admin_call, update_admin_call,
}

-- `value?: string | null`
pub data OptionalDate : Type 0 where
  undefined_date null_date : OptionalDate
  date : ℕ → OptionalDate

pub record CallOption : Type 0 where
  pub value : String
  pub label : String

unfoldable pub ensure_admin : AuthenticatedUserContext → Tx (Unit {0})
ensure_admin user =
    require (is_admin_role user.role) (forbidden "Only administrators can manage calls")

unfoldable pub get_call_or_throw : ℕ → Tx Call
get_call_or_throw id = do
  found ← gets (find_call id)
  require_some found (not_found "Call not found")

unfoldable pub parse_optional_date : OptionalDate → Option ℕ → Option ℕ
parse_optional_date OptionalDate.undefined_date fallback = fallback
parse_optional_date OptionalDate.null_date fallback = none
parse_optional_date (OptionalDate.date at) fallback = some at

unfoldable pub resolve_required_document_types :
    ProgramType → Option (List DocumentType) → List DocumentType → Tx (List DocumentType)
resolve_required_document_types type requested fallback = do
  require (not (type == ProgramType.program_b && not (is_empty (get_or requested fallback))))
      (bad_request "PROGRAM_B calls cannot define required document types")
  pure (get_or requested fallback)

-- `opensAt && closesAt && opensAt >= closesAt`
unfoldable pub is_reversed : Option ℕ → Option ℕ → Bool
is_reversed none closes_at = false
is_reversed (some opens_at) none = false
is_reversed (some opens_at) (some closes_at) = leb closes_at opens_at

unfoldable pub ensure_valid_date_window : Option ℕ → Option ℕ → Tx (Unit {0})
ensure_valid_date_window opens_at closes_at =
    require (not (is_reversed opens_at closes_at)) (bad_request "opensAt must be before closesAt")

unfoldable pub ensure_call_can_be_opened :
    ProgramType → Option ℕ → Option ℕ → List DocumentType → Tx (Unit {0})
ensure_call_can_be_opened type opens_at closes_at types = do
  require (is_some opens_at && is_some closes_at)
      (bad_request "Call must define both opensAt and closesAt before opening")
  ensure_valid_date_window opens_at closes_at
  require (not (type == ProgramType.program_a && is_empty types))
      (bad_request "PROGRAM_A calls must define at least one required document type before opening")

-- Only their validation: the options themselves are not stored.
unfoldable pub resolve_program_a_options : ProgramType → Option (List CallOption) → Tx (Unit {0})
resolve_program_a_options type options =
    let values = map (λ o. o.value) (get_or options []) in
    require (not (type == ProgramType.program_a) || length (unique values) == length values)
      (bad_request "Program A option values must be unique")

abbrev pub enabled_configs : ℕ → Db → List EligibilityRuleConfig
enabled_configs call_id db = filter (λ c. c.call_id == call_id && c.enabled) db.rule_configs

-- `nextRequiredDocumentTypes`
unfoldable pub next_document_types :
    ProgramType → Option (List DocumentType) → Call → Tx (List DocumentType)
next_document_types next_type requested call =
    if next_type == ProgramType.program_b
    then pure []
    else resolve_required_document_types next_type requested call.required_document_types

unfoldable pub ensure_still_openable :
    Call → ProgramType → Option ℕ → Option ℕ → List DocumentType → Tx (Unit {0})
ensure_still_openable call type opens_at closes_at types =
    if call.status == CallStatus.open_call
    then ensure_call_can_be_opened type opens_at closes_at types
    else pure tt

-- `options !== undefined || nextType !== existingCall.type ? resolveProgramAOptions(…) : undefined`
unfoldable pub resolve_changed_options :
    Bool → ProgramType → Option (List CallOption) → Tx (Unit {0})
resolve_changed_options changed type options =
    if is_some options || changed then resolve_program_a_options type options else pure tt

-- The checks of `updateCall` on the call that is there.
unfoldable pub load_updatable : ℕ → AuthenticatedUserContext → Tx Call
load_updatable id user = do
  ensure_admin user
  call ← get_call_or_throw id
  require (not (call.status == CallStatus.archived)) (conflict "Archived calls cannot be updated")
  pure call

module _ (n : Numbers) where
  open n use {Num, of_hundredths, parse, print}

  unfoldable pub parse_numeric_config : Option String → Option Num
  parse_numeric_config none = none
  parse_numeric_config (some value) = if trim value == "" then none else parse value

  -- `CreateAdminCallDto`
  pub record CallDto : Type 0 where
    pub type : ProgramType
    pub title : String
    pub opens_at : OptionalDate
    pub closes_at : OptionalDate
    pub required_document_types : Option (List DocumentType)
    pub min_team_size : Option Num
    pub max_transferred_subjects : Option Num
    pub max_profile_subjects_average : Option Num
    pub categories : Option (List CallOption)
    pub stack_tags : Option (List CallOption)

  -- `UpdateAdminCallDto`: type and title may be undefined.
  pub record CallChangeDto : Type 0 where
    pub type : Option ProgramType
    pub title : Option String
    pub opens_at : OptionalDate
    pub closes_at : OptionalDate
    pub required_document_types : Option (List DocumentType)
    pub min_team_size : Option Num
    pub max_transferred_subjects : Option Num
    pub max_profile_subjects_average : Option Num
    pub categories : Option (List CallOption)
    pub stack_tags : Option (List CallOption)

  threshold_of : String → List EligibilityRuleConfig → Option String
  threshold_of code configs = elim (find (λ c. c.code == code) configs) [
    | none ↦ none
    | some c ↦ c.threshold
  ]

  -- `requested ?? parseNumericConfig(existing) ?? standard`, printed.
  resolved : Option Num → String → ℕ → List EligibilityRuleConfig → RuleConfigInput
  unfolding threshold_of parse_numeric_config
  resolved requested code standard configs = record {
    code = code;
    threshold = print (
        get_or requested
          (get_or (parse_numeric_config (threshold_of code configs)) (of_hundredths standard)));
  }

  unfoldable pub resolve_eligibility_rule_configs :
      ProgramType
      → Option Num
      → Option Num
      → Option Num
      → List EligibilityRuleConfig
      → List RuleConfigInput
  unfolding resolved
  resolve_eligibility_rule_configs type size transferred average configs =
      if not (type == ProgramType.program_a)
      then []
      else resolved size "TEAM_SIZE_MIN" 300 configs
        ∷ resolved transferred "TRANSFERRED_SUBJECTS_MAX" 0 configs
        ∷ resolved average "PROFILE_SUBJECTS_AVERAGE_MAX" 200 configs
        ∷ []

  unfoldable pub resolve_draft_state : CallDto → Tx NewCall
  resolve_draft_state dto = do
    types ← resolve_required_document_types dto.type dto.required_document_types []
    let opens_at = parse_optional_date dto.opens_at none
    let closes_at = parse_optional_date dto.closes_at none
    ensure_valid_date_window opens_at closes_at
    resolve_program_a_options dto.type dto.categories
    resolve_program_a_options dto.type dto.stack_tags
    pure (record {
      type = dto.type;
      title = dto.title;
      opens_at = opens_at;
      closes_at = closes_at;
      required_document_types = types;
      eligibility_rule_configs =
          resolve_eligibility_rule_configs dto.type dto.min_team_size dto.max_transferred_subjects
            dto.max_profile_subjects_average [];
    })

  unfoldable pub create_call_tx : AuthenticatedUserContext → CallDto → Tx Call
  create_call_tx user dto = do
    ensure_admin user
    draft ← resolve_draft_state dto
    create_admin_call draft

  -- One nested `create`, which is a transaction of its own.
  unfoldable pub create_call : AuthenticatedUserContext → CallDto → Db → Result Call × Db
  create_call user dto = serializable (create_call_tx user dto)

  abbrev pub next_type : CallChangeDto → Call → ProgramType
  next_type dto call = get_or dto.type call.type

  unfoldable pub check_change : CallChangeDto → Call → List DocumentType → Tx (Unit {0})
  check_change dto call types = do
    let opens_at = parse_optional_date dto.opens_at call.opens_at
    let closes_at = parse_optional_date dto.closes_at call.closes_at
    ensure_valid_date_window opens_at closes_at
    ensure_still_openable call (next_type dto call) opens_at closes_at types

  unfoldable pub check_options : CallChangeDto → Call → Tx (Unit {0})
  check_options dto call = do
    let changed = not (next_type dto call == call.type)
    resolve_changed_options changed (next_type dto call) dto.categories
    resolve_changed_options changed (next_type dto call) dto.stack_tags

  -- The data that `updateCall` hands to the repository.
  abbrev pub change_of :
      CallChangeDto → Call → List DocumentType → List EligibilityRuleConfig → CallChange
  change_of dto call types configs = record {
    type = some (next_type dto call);
    title = some (get_or dto.title call.title);
    status = none;
    opens_at = some (parse_optional_date dto.opens_at call.opens_at);
    closes_at = some (parse_optional_date dto.closes_at call.closes_at);
    required_document_types =
        if is_some dto.required_document_types || not (next_type dto call == call.type)
        then some types
        else none;
    eligibility_rule_configs = some (
        resolve_eligibility_rule_configs (next_type dto call) dto.min_team_size
          dto.max_transferred_subjects dto.max_profile_subjects_average configs);
  }

  unfoldable pub prepare_change : CallChangeDto → Call → Tx CallChange
  prepare_change dto call = do
    types ← next_document_types (next_type dto call) dto.required_document_types call
    check_change dto call types
    check_options dto call
    configs ← gets (enabled_configs call.id)
    pure (change_of dto call types configs)

  unfoldable pub load_for_update : ℕ → AuthenticatedUserContext → CallChangeDto → Tx CallChange
  load_for_update id user dto = load_updatable id user >>= prepare_change dto

  unfoldable pub update_call :
      ℕ → AuthenticatedUserContext → CallChangeDto → (Db → Db) → Db → Result Call × Db
  update_call id user dto between =
      read_committed between (load_for_update id user dto) (update_admin_call id)

abbrev pub status_change : CallStatus → CallChange
status_change status = record {
  type = none;
  title = none;
  status = some status;
  opens_at = none;
  closes_at = none;
  required_document_types = none;
  eligibility_rule_configs = none;
}

unfoldable pub load_for_open : ℕ → AuthenticatedUserContext → Tx CallChange
load_for_open id user = do
  ensure_admin user
  call ← get_call_or_throw id
  require (not (call.status == CallStatus.open_call)) (conflict "Call is already open")
  require (not (call.status == CallStatus.archived)) (conflict "Archived calls cannot be reopened")
  ensure_call_can_be_opened call.type call.opens_at call.closes_at call.required_document_types
  pure (status_change CallStatus.open_call)

unfoldable pub open_call : ℕ → AuthenticatedUserContext → (Db → Db) → Db → Result Call × Db
open_call id user between = read_committed between (load_for_open id user) (update_admin_call id)

-- The checks of `closeCall` and `archiveCall`: the one status that they start from.
unfoldable pub load_for_status :
    CallStatus → CallStatus → String → ℕ → AuthenticatedUserContext → Tx CallChange
load_for_status from to message id user = do
  ensure_admin user
  call ← get_call_or_throw id
  require (call.status == from) (conflict message)
  pure (status_change to)

unfoldable pub close_call : ℕ → AuthenticatedUserContext → (Db → Db) → Db → Result Call × Db
close_call id user between =
    read_committed between
      (load_for_status CallStatus.open_call CallStatus.closed "Only open calls can be closed" id
        user)
      (update_admin_call id)

unfoldable pub archive_call : ℕ → AuthenticatedUserContext → (Db → Db) → Db → Result Call × Db
archive_call id user between =
    read_committed between
      (load_for_status CallStatus.closed CallStatus.archived "Only closed calls can be archived" id
        user)
      (update_admin_call id)
