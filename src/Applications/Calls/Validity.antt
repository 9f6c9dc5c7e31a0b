-- ===== src/Applications/Calls/Validity.antt =====
-- A call that is open can be: it has a window of dates, and documents where its program wants them.
use nti_backend.Prelude.{
  ℕ, ◌<◌, ◌≡◌, refl, sym, subst, inl, inr, Bool, true, false, not, ◌&&◌, Option, some, List, ◌==◌,
  nat_eq, arith, is_some, is_empty, get_or, Option-cases, Bool-cases, All, ok,
}
use nti_backend.Domain.{ProgramType, program_type_eq, CallStatus, call_status_eq, DocumentType}
use nti_backend.Domain.Roles.{AuthenticatedUserContext}
use nti_backend.Store.{Db, Call, EligibilityRuleConfig}
use nti_backend.Store.Tables.{
  IsKeyed, find_by_id, update_where, update_where-IsKeyed, All-update_where, find_by_id-All,
}
use nti_backend.Store.Keyed.{All-update_keyed}
use nti_backend.Store.Transactions.{>>=-eq-ok, ◌>>=◌, ◌>>◌, gets, pure}
use nti_backend.Applications.Repository.{find_call}
use nti_backend.Applications.Signals.{Numbers}
use nti_backend.Applications.Calls.{CallChange, change_call, update_admin_call, replace_configs}
use nti_backend.Applications.Calls.Admin.{
  CallChangeDto, is_reversed, parse_optional_date, ensure_admin, get_call_or_throw,
  ensure_valid_date_window, ensure_call_can_be_opened, ensure_still_openable, next_document_types,
  resolve_required_document_types, load_updatable, next_type, check_change, check_options,
  change_of, prepare_change, enabled_configs,
}

abbrev pub can_be_open : Call → Bool
can_be_open c =
    is_some c.opens_at
    && is_some c.closes_at
    && not (is_reversed c.opens_at c.closes_at)
    && not (c.type == ProgramType.program_a && is_empty c.required_document_types)

abbrev pub IsOpenable : Call → Type 0
IsOpenable c = (c.status == CallStatus.open_call) ≡ true → can_be_open c ≡ true

-- Call ids are distinct and used, and what is open can be.
pub record AreCalls (db : Db) : Type 0 where
  pub keyed : IsKeyed (λ c. c.id) db.calls
  pub used : All (λ c. c.id < db.next_id) db.calls
  pub openable : All IsOpenable db.calls

pub update_admin_call_ok :
    (id : ℕ) (change : CallChange) (db db' : Db) (c : Call)
    → update_admin_call id change db ≡ ok (c, db')
    → (is_some (find_call id db) ≡ true)
      × (db' ≡ record db {
        calls = update_where (λ c. c.id == id) (change_call change) db.calls;
        rule_configs = replace_configs id change.eligibility_rule_configs db.rule_configs;
      })
unfolding update_admin_call
update_admin_call_ok id change db db' c h = elim (Bool-cases (is_some (find_call id db))) [
  | inl there ↦ (there, ground arith)
  | inr missing ↦ absurd (ground arith)
]

-- An update that leaves the row that it finds openable.
pub change-AreCalls :
    (id : ℕ) (change : CallChange) (db db' : Db) (r : Call)
    → update_admin_call id change db ≡ ok (r, db')
    → ((c : Call) → find_call id db ≡ some c → IsOpenable c → IsOpenable (change_call change c))
    → AreCalls db
    → AreCalls db'
unfolding find_call
change-AreCalls id change db db' r h leaves v =
    let (there, same) = update_admin_call_ok id change db db' r h in
    elim (Option-cases (find_by_id (λ c. c.id) id db.calls)) [
      | inl missing ↦ absurd (ground arith)
      | inr (c, found) ↦
          let row =
            leaves c found (find_by_id-All IsOpenable (λ c. c.id) id db.calls found v.openable) in
          subst AreCalls (sym same) (record {
            keyed =
                update_where-IsKeyed (λ c. c.id) (λ c. c.id == id) (change_call change) (λ c. refl)
                  db.calls v.keyed;
            used =
                All-update_where (λ c. c.id < db.next_id) (λ c. c.id == id) (change_call change)
                  (λ c _ below. below) db.calls v.used;
            openable =
                All-update_keyed IsOpenable (λ c. c.id) id (change_call change) db.calls v.keyed
                  found row v.openable;
          })
    ]

next_document_types_ok :
    (type : ProgramType) (requested : Option (List DocumentType)) (c : Call) (db db' : Db)
    (types : List DocumentType)
    → next_document_types type requested c db ≡ ok (types, db')
    → (db' ≡ db)
      × ((type == ProgramType.program_a) ≡ true
          → types ≡ get_or requested c.required_document_types)
unfolding next_document_types resolve_required_document_types
next_document_types_ok type requested c db db' types h = ground arith

still_openable_ok :
    (c : Call) (type : ProgramType) (opens_at closes_at : Option ℕ) (types : List DocumentType)
    (db db' : Db) (u : Unit {0})
    → ensure_still_openable c type opens_at closes_at types db ≡ ok (u, db')
    → (c.status == CallStatus.open_call) ≡ true
    → (is_some opens_at
        && is_some closes_at
        && not (is_reversed opens_at closes_at)
        && not (type == ProgramType.program_a && is_empty types))
      ≡ true
unfolding ensure_still_openable ensure_call_can_be_opened ensure_valid_date_window
still_openable_ok c type opens_at closes_at types db db' u h is_open = ground arith

pub load_updatable_ok :
    (id : ℕ) (user : AuthenticatedUserContext) (db db1 : Db) (c : Call)
    → load_updatable id user db ≡ ok (c, db1)
    → (find_call id db ≡ some c) × ((c.status == CallStatus.archived) ≡ false) × (db1 ≡ db)
unfolding load_updatable ensure_admin get_call_or_throw
load_updatable_ok id user db db1 c h = ground arith

check_change_ok :
    (n : Numbers) (dto : CallChangeDto n) (c : Call) (types : List DocumentType) (db db' : Db)
    (u : Unit {0})
    → check_change n dto c types db ≡ ok (u, db')
    → (c.status == CallStatus.open_call) ≡ true
    → (is_some (parse_optional_date dto.opens_at c.opens_at)
        && is_some (parse_optional_date dto.closes_at c.closes_at)
        && not (
            is_reversed
              (parse_optional_date dto.opens_at c.opens_at)
              (parse_optional_date dto.closes_at c.closes_at))
        && not (next_type n dto c == ProgramType.program_a && is_empty types))
      ≡ true
unfolding check_change ensure_valid_date_window
check_change_ok n dto c types db db' u h =
    let opens_at = parse_optional_date dto.opens_at c.opens_at in
    let closes_at = parse_optional_date dto.closes_at c.closes_at in
    let (w, db1, _, checked) =
      >>=-eq-ok (ensure_valid_date_window opens_at closes_at)
        (λ _. ensure_still_openable c (next_type n dto c) opens_at closes_at types) db h in
    still_openable_ok c (next_type n dto c) opens_at closes_at types db1 db' u checked

-- What the update of a call writes leaves an openable call openable.
change_of-IsOpenable :
    (n : Numbers) (dto : CallChangeDto n) (c : Call) (types : List DocumentType)
    (configs : List EligibilityRuleConfig)
    → ((next_type n dto c == ProgramType.program_a) ≡ true
        → types ≡ get_or dto.required_document_types c.required_document_types)
    → ((c.status == CallStatus.open_call) ≡ true
        → (is_some (parse_optional_date dto.opens_at c.opens_at)
            && is_some (parse_optional_date dto.closes_at c.closes_at)
            && not (
                is_reversed
                  (parse_optional_date dto.opens_at c.opens_at)
                  (parse_optional_date dto.closes_at c.closes_at))
            && not (next_type n dto c == ProgramType.program_a && is_empty types))
          ≡ true)
    → IsOpenable (change_call (change_of n dto c types configs) c)
change_of-IsOpenable n dto c types configs next checked is_open =
    let conditions = checked is_open in
    elim (Bool-cases (next_type n dto c == ProgramType.program_a)) [
      | inl program ↦ let same = next program in ground arith
      | inr other ↦ ground arith
    ]

pub prepare_change_ok :
    (n : Numbers) (dto : CallChangeDto n) (c : Call) (db db' : Db) (change : CallChange)
    → prepare_change n dto c db ≡ ok (change, db')
    → (types : List DocumentType) × (configs : List EligibilityRuleConfig) × (change
        ≡ change_of n dto c types configs)
      × IsOpenable (change_call (change_of n dto c types configs) c)
unfolding prepare_change
prepare_change_ok n dto c db db' change h =
    let (types, db1, resolved, rest) =
      >>=-eq-ok (next_document_types (next_type n dto c) dto.required_document_types c)
        (λ types.
          check_change n dto c types
          >> (check_options n dto c
              >> (gets (enabled_configs c.id)
                  >>= (λ configs. pure (change_of n dto c types configs)))))
        db h in
    let (u, db2, checked, rest2) =
      >>=-eq-ok (check_change n dto c types)
        (λ _.
          check_options n dto c
          >> (gets (enabled_configs c.id) >>= (λ configs. pure (change_of n dto c types configs))))
        db1 rest in
    let (w, db3, _, rest3) =
      >>=-eq-ok (check_options n dto c)
        (λ _. gets (enabled_configs c.id) >>= (λ configs. pure (change_of n dto c types configs)))
        db2 rest2 in
    let (_, next) =
      next_document_types_ok (next_type n dto c) dto.required_document_types c db db1 types
        resolved in
    (
      types,
      enabled_configs c.id db3,
      ground arith,
      change_of-IsOpenable n dto c types (enabled_configs c.id db3) next
          (check_change_ok n dto c types db1 db2 u checked),
    )
