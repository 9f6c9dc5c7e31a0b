-- ===== src/Applications/Calls/Requests.antt =====
-- The requests of an administrator on calls, and what each hands to the repository.
use nti_backend.Prelude.{
  ℕ, suc, String, ◌≡◌, sym, ap, subst, true, false, some, [], ◌∷◌, ◌++◌, ◌==◌, nat_eq, arith,
  Result, ok,
}
use nti_backend.Domain.{program_type_eq, CallStatus, call_status_eq}
use nti_backend.Domain.Roles.{AuthenticatedUserContext}
use nti_backend.Store.{Db, Call}
use nti_backend.Store.Transactions.{>>=-eq-ok}
use nti_backend.Applications.Repository.{find_call}
use nti_backend.Applications.Signals.{Numbers}
use nti_backend.Applications.Calls.{NewCall, CallChange, call_row, change_call, create_admin_call}
use nti_backend.Applications.Calls.Admin.{
  CallDto, CallChangeDto, ensure_admin, get_call_or_throw, ensure_valid_date_window,
  ensure_call_can_be_opened, load_updatable, prepare_change, load_for_update, update_call,
  load_for_open, open_call, load_for_status, close_call, archive_call, create_call, status_change,
}
use nti_backend.Applications.Calls.Validity.{IsOpenable, load_updatable_ok, prepare_change_ok}

pub data CallRequest (n : Numbers) : Type 0 where
  create : CallDto n → CallRequest n
  update : ℕ → CallChangeDto n → CallRequest n
  open_it close archive : ℕ → CallRequest n

-- A request with no others between its statements.
unfoldable pub perform :
    (n : Numbers) → AuthenticatedUserContext → CallRequest n → Db → Result Call × Db
perform n user (CallRequest.create dto) = create_call n user dto
perform n user (CallRequest.update id dto) = update_call n id user dto (λ db. db)
perform n user (CallRequest.open_it id) = open_call id user (λ db. db)
perform n user (CallRequest.close id) = close_call id user (λ db. db)
perform n user (CallRequest.archive id) = archive_call id user (λ db. db)

pub load_for_open_ok :
    (id : ℕ) (user : AuthenticatedUserContext) (db db1 : Db) (change : CallChange) (c : Call)
    → load_for_open id user db ≡ ok (change, db1)
    → find_call id db ≡ some c
    → (change ≡ status_change CallStatus.open_call)
      × ((c.status == CallStatus.open_call) ≡ false)
      × ((c.status == CallStatus.archived) ≡ false)
      × IsOpenable (change_call (status_change CallStatus.open_call) c)
unfolding load_for_open ensure_admin get_call_or_throw ensure_call_can_be_opened
    ensure_valid_date_window
load_for_open_ok id user db db1 change c h found =
    (ground arith, ground arith, ground arith, λ is_open. ground arith)

pub load_for_status_ok :
    (from to : CallStatus) (message : String) (id : ℕ) (user : AuthenticatedUserContext)
    (db db1 : Db) (change : CallChange) (c : Call)
    → load_for_status from to message id user db ≡ ok (change, db1)
    → find_call id db ≡ some c
    → (change ≡ status_change to) × ((c.status == from) ≡ true)
unfolding load_for_status ensure_admin get_call_or_throw
load_for_status_ok from to message id user db db1 change c h found = (ground arith, ground arith)

pub load_for_update_ok :
    (n : Numbers) (id : ℕ) (user : AuthenticatedUserContext) (dto : CallChangeDto n) (db db1 : Db)
    (change : CallChange) (c : Call)
    → load_for_update n id user dto db ≡ ok (change, db1)
    → find_call id db ≡ some c
    → IsOpenable (change_call change c)
      × ((change_call change c).status ≡ c.status)
      × ((c.status == CallStatus.archived) ≡ false)
unfolding load_for_update
load_for_update_ok n id user dto db db1 change c h found =
    let (c', db2, loaded, rest) = >>=-eq-ok (load_updatable id user) (prepare_change n dto) db h in
    let (there, open_to_change, _) = load_updatable_ok id user db db2 c' loaded in
    let (types, configs, same, openable) = prepare_change_ok n dto c' db2 db1 change rest in
    let row : c' ≡ c = ground arith in
    (
      subst (λ r. IsOpenable (change_call change r)) row
          (subst (λ k. IsOpenable (change_call k c')) (sym same) openable),
      ap (λ k. (change_call k c).status) same,
      subst (λ r. (r.status == CallStatus.archived) ≡ false) row open_to_change,
    )

pub create_admin_call_ok :
    (new : NewCall) (db db' : Db) (c : Call)
    → create_admin_call new db ≡ ok (c, db')
    → (db'.calls ≡ db.calls ++ call_row db.next_id new ∷ []) × (db'.next_id ≡ suc db.next_id)
unfolding create_admin_call
create_admin_call_ok new db db' c h = (ground arith, ground arith)
