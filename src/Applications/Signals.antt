-- ===== src/Applications/Signals.antt =====
-- src/applications/eligibility-signals: the service, and what it uses of its repository. Signals
-- are recomputed from the team's members when an application is submitted or the team changes.
pub mod Frame
use Prim.Native.String
use nti_backend.Prelude.{
  ℕ, String, ◌*◌, Bool, true, false, not, ◌&&◌, Option, none, some, List, [], ◌∷◌, ◌++◌, map, ◌==◌,
  if◌then◌else◌, nat_eq, string_eq, HasEqual, option_beq, find, filter, any, is_empty, is_some,
  get_or, length, includes, not_found, trim,
}
use nti_backend.Domain.{ApplicationStatus, application_status_eq}
use nti_backend.Store.{
  Db, User, StudentProfile, Application, EligibilityRuleConfig, EligibilitySignal,
}
use nti_backend.Store.Transactions.{Tx, ◌>>=◌, ◌>>◌, pure, gets, modify, require_some}
use nti_backend.Store.Tables.{update_where}
use nti_backend.Applications.Repository.{Member, find_application, members_of_team, closed_statuses}

-- What the language gives for numbers: `Number(text)` where it is finite, `<`, and printing.
pub record Numbers : Type 1 where
  pub Num : Type 0
  pub of_hundredths : ℕ → Num
  pub parse : String → Option Num
  pub below : Num → Num → Bool
  pub print : Num → String

pub record SignalResult : Type 0 where
  pub code : String
  pub passed : Bool
  pub reason : Option String

-- `member.user.studentProfile`
abbrev profile_of : Member → Option StudentProfile
profile_of m = elim m.user [ none ↦ none | some u ↦ u.student_profile ]

abbrev email_of : Member → String
email_of m = elim m.user [ none ↦ "" | some u ↦ u.email ]

-- `members.map(email).join(', ')`
join_emails : List Member → String
join_emails [] = ""
join_emails (m ∷ []) = email_of m
join_emails (m ∷ n ∷ rest) = String.◌++◌ (email_of m) (String.◌++◌ ", " (join_emails (n ∷ rest)))

-- A signal that passes when no member is at fault.
abbrev listing : String → String → List Member → SignalResult
listing code text faulty = record {
  code = code;
  passed = is_empty faulty;
  reason =
      if is_empty faulty
      then none
      else some (String.◌++◌ text (String.◌++◌ (join_emails faulty) "."));
}

compute_declaration_present : List Member → SignalResult
unfolding join_emails
compute_declaration_present members =
    listing "DECLARATION_PRESENT" "Missing academic declaration for member(s): " (
      filter
        (λ m. elim (profile_of m) [
          | none ↦ true
          | some p ↦ not (is_some p.academic_declaration_accepted_at)
        ])
        members)

compute_academic_evidence_present : List Member → SignalResult
unfolding join_emails
compute_academic_evidence_present members =
    listing "ACADEMIC_EVIDENCE_PRESENT" "Missing academic evidence for member(s): " (
      filter
        (λ m. elim (profile_of m) [
          | none ↦ true
          | some p ↦ not (is_some p.academic_evidence_file_id)
        ])
        members)

module _ (n : Numbers) where
  open n use {Num, of_hundredths, parse, below, print}

  -- The threshold of a rule: its text where it is not blank and a finite number, else the default.
  threshold_or : Option EligibilityRuleConfig → Num → Num
  threshold_or none d = d
  threshold_or (some config) d = elim config.threshold [
    | none ↦ d
    | some text ↦ if trim text == "" then d else get_or (parse text) d
  ]

  -- The last row of a code, as `new Map(...)` keeps it; (callId, code) is unique.
  abbrev config_for : String → List EligibilityRuleConfig → Option EligibilityRuleConfig
  config_for code configs = find (λ c. c.code == code) configs

  compute_team_size_min : List Member → List EligibilityRuleConfig → SignalResult
  unfolding threshold_or
  compute_team_size_min members configs =
      let minimum = threshold_or (config_for "TEAM_SIZE_MIN" configs) (of_hundredths 300) in
      let count = of_hundredths (100 * length members) in
      let passed = not (below count minimum) in
      record {
        code = "TEAM_SIZE_MIN";
        passed = passed;
        reason =
            if passed
            then none
            else some (
                String.◌++◌ "Team has " (
                  String.◌++◌ (print count) (
                    String.◌++◌ " member(s), required minimum is "
                      (String.◌++◌ (print minimum) "."))));
      }

  abbrev exceeds_transfers : Num → Member → Bool
  exceeds_transfers maximum m = elim (profile_of m) [
    | none ↦ false
    | some p ↦
        p.has_transferred_subjects
        && below maximum (of_hundredths (100 * get_or p.transferred_subjects_count 1))
  ]

  compute_transferred_subjects_max : List Member → List EligibilityRuleConfig → SignalResult
  unfolding threshold_or join_emails
  compute_transferred_subjects_max members configs =
      let maximum =
        threshold_or (config_for "TRANSFERRED_SUBJECTS_MAX" configs) (of_hundredths 0) in
      listing "TRANSFERRED_SUBJECTS_MAX"
        "Transferred subjects exceed the recommended maximum for member(s): "
        (filter (exceeds_transfers maximum) members)

  abbrev exceeds_average : Num → Member → Bool
  exceeds_average maximum m = elim (profile_of m) [
    | none ↦ false
    | some p ↦ elim p.profile_subjects_average [
      | none ↦ false
      | some average ↦ below maximum (of_hundredths average)
    ]
  ]

  compute_profile_subjects_average_max : List Member → List EligibilityRuleConfig → SignalResult
  unfolding threshold_or join_emails
  compute_profile_subjects_average_max members configs =
      let maximum =
        threshold_or (config_for "PROFILE_SUBJECTS_AVERAGE_MAX" configs) (of_hundredths 200) in
      listing "PROFILE_SUBJECTS_AVERAGE_MAX"
        "Profile-subject average exceeds the recommended maximum for member(s): "
        (filter (exceeds_average maximum) members)

  -- The five results, in the order of the source.
  pub signal_results : List Member → List EligibilityRuleConfig → List SignalResult
  signal_results members configs =
      compute_team_size_min members configs
      ∷ compute_declaration_present members
      ∷ compute_academic_evidence_present members
      ∷ compute_transferred_subjects_max members configs
      ∷ compute_profile_subjects_average_max members configs
      ∷ []

-- `getRuleConfigs`
abbrev rule_configs_of : ℕ → Db → List EligibilityRuleConfig
rule_configs_of call_id db = filter (λ c. c.call_id == call_id && c.enabled) db.rule_configs

abbrev signal_at : ℕ → String → EligibilitySignal → Bool
signal_at id code s = s.application_id == id && s.code == code

-- `upsertSignal`
pub upsert_signal : ℕ → SignalResult → List EligibilitySignal → List EligibilitySignal
upsert_signal id r signals =
    if any (signal_at id r.code) signals
    then update_where (signal_at id r.code) (λ s. record s { passed = r.passed; reason = r.reason })
        signals
    else signals
      ++ record { application_id = id; code = r.code; passed = r.passed; reason = r.reason } ∷ []

abbrev bool_beq : Bool → Bool → Bool
bool_beq true b = b
bool_beq false b = not b

-- One round of the loop: `existing` is the table as it was read before the loop.
upsert_unless_same :
    ℕ → List EligibilitySignal → SignalResult → List EligibilitySignal → List EligibilitySignal
upsert_unless_same id existing r signals = elim (find (signal_at id r.code) existing) [
  | none ↦ upsert_signal id r signals
  | some s ↦
      if bool_beq s.passed r.passed && option_beq s.reason r.reason
      then signals
      else upsert_signal id r signals
]

pub upsert_all :
    ℕ → List EligibilitySignal → List SignalResult → List EligibilitySignal → List EligibilitySignal
upsert_all id existing [] signals = signals
upsert_all id existing (r ∷ rs) signals =
    upsert_all id existing rs (upsert_unless_same id existing r signals)

module _ (n : Numbers) where
  unfoldable pub recompute_for_application : ℕ → Tx (Unit {0})
  recompute_for_application application_id = do
    found ← gets (find_application application_id)
    a ← require_some found (not_found "Application not found")
    configs ← gets (rule_configs_of a.call_id)
    members ← gets (members_of_team a.team_id)
    modify (λ d. record d {
      signals = upsert_all a.id d.signals (signal_results n members configs) d.signals;
    })

  unfoldable pub recompute_each : List ℕ → Tx (Unit {0})
  recompute_each [] = pure tt
  recompute_each (id ∷ ids) = recompute_for_application id >> recompute_each ids

  -- `findActiveApplicationIdsByTeamId`
  abbrev open_applications_of_team : ℕ → Db → List ℕ
  open_applications_of_team team_id db =
      map (λ a. a.id)
        (filter (λ a. a.team_id == team_id && not (includes closed_statuses a.status))
          db.applications)

  unfoldable pub recompute_for_team_applications : ℕ → Tx (Unit {0})
  recompute_for_team_applications team_id = do
    ids ← gets (open_applications_of_team team_id)
    recompute_each ids
