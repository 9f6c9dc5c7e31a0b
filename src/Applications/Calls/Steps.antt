-- ===== src/Applications/Calls/Steps.antt =====
-- The requests of an administrator on calls keep the calls valid and follow the graph of the
-- statuses.
use nti_backend.Prelude.{
  ℕ, suc, String, ◌<◌, ◌≡◌, refl, sym, ap, ◌∙◌, subst, ◌⊎◌, ◌≢◌, inl, inr, false, some, ◌==◌,
  nat_eq, arith, Bool-cases, All, All-append, ok,
}
use nti_backend.Domain.{program_type_eq, CallStatus, call_status_eq}
use nti_backend.Domain.Roles.{AuthenticatedUserContext}
use nti_backend.Store.{Db, Call}
use nti_backend.Store.Tables.{
  IsKeyed, find_by_id, find_by_id-key, find_by_id-append, find_by_id-update_where, append-IsKeyed,
  map_option, patch,
}
use nti_backend.Store.Apart.{All-map}
use nti_backend.Store.Transactions.{
  Tx, ◌>>=◌, >>=-eq-ok, serializable_keeps, read_committed_keeps, read_committed,
}
use nti_backend.Applications.Repository.{find_call}
use nti_backend.Applications.Outcomes.Transactions.{read_committed-ok, serializable-ok}
use nti_backend.Applications.Signals.{Numbers}
use nti_backend.Applications.Calls.{
  NewCall, CallChange, call_row, change_call, create_admin_call, update_admin_call,
}
use nti_backend.Applications.Calls.Admin.{
  CallDto, CallChangeDto, ensure_admin, ensure_valid_date_window, load_for_update, update_call,
  load_for_open, open_call, load_for_status, close_call, archive_call, create_call_tx, create_call,
  status_change, resolve_draft_state,
}
use nti_backend.Applications.Calls.Validity.{
  AreCalls, IsOpenable, update_admin_call_ok, change-AreCalls,
}
use nti_backend.Applications.Calls.Requests.{
  CallRequest, perform, load_for_open_ok, load_for_status_ok, load_for_update_ok,
  create_admin_call_ok,
}
use nti_backend.Applications.Calls.Admin.{
  resolve_required_document_types, resolve_program_a_options,
}

-- The graph of the statuses of a call.
pub data IsCallStep : CallStatus → CallStatus → Type 0 where
  opening : IsCallStep CallStatus.draft CallStatus.open_call
  reopening : IsCallStep CallStatus.closed CallStatus.open_call
  closing : IsCallStep CallStatus.open_call CallStatus.closed
  archiving : IsCallStep CallStatus.closed CallStatus.archived

-- A call after a request: as it was, edited in its status, or moved along the graph. What is
-- archived is as it was.
abbrev pub IsNext : Call → Call → Type 0
IsNext c c' =
    (c' ≡ c)
    ⊎ ((c.status ≢ CallStatus.archived) × ((c'.status ≡ c.status) ⊎ IsCallStep c.status c'.status))

-- What a request that updates a call leaves.
module _ (id : ℕ) (load : Tx CallChange) (db : Db)
    (loads : (db1 : Db) (change : CallChange) (c : Call)
      → load db ≡ ok (change, db1)
      → find_call id db ≡ some c
      → (IsOpenable c → IsOpenable (change_call change c)) × IsNext c (change_call change c)) where
  updated-AreCalls :
      AreCalls db → AreCalls (read_committed (λ d. d) load (update_admin_call id) db).1
  updated-AreCalls =
      read_committed_keeps AreCalls (λ d. d) load (update_admin_call id) db (λ v. v)
        λ change db1 db' r loaded wrote.
          change-AreCalls id change db db' r wrote (λ c found. (loads db1 change c loaded found).0)

  updated-IsNext :
      (k : ℕ) (db' : Db) (r c : Call)
      → read_committed (λ d. d) load (update_admin_call id) db ≡ (ok r, db')
      → find_call k db ≡ some c
      → (c' : Call) × (find_call k db' ≡ some c') × IsNext c c'
  unfolding find_call
  updated-IsNext k db' r c h found =
      let (change, db1, loaded, wrote) =
        read_committed-ok (λ d. d) load (update_admin_call id) db h in
      let (_, same) = update_admin_call_ok id change db db' r wrote in
      let kept =
        ap (λ d. find_by_id (λ c. c.id) k d.calls) same
        ∙ find_by_id-update_where (λ c. c.id) (λ c. c.id == id) (change_call change) (λ c. refl) k
            db.calls
        ∙ ap (map_option (patch (λ c. c.id == id) (change_call change))) found in
      let here = find_by_id-key (λ c. c.id) k db.calls found in
      elim (Bool-cases (c.id == id)) [
        | inr other ↦ (c, kept ∙ (rw other refl), inl refl)
        | inl target ↦
            let target_id : k ≡ id = ground arith in
            (
              change_call change c,
              kept ∙ (rw target refl),
              (loads db1 change c loaded
                  (subst (λ i. find_by_id (λ c. c.id) i db.calls ≡ some c) target_id found)).1,
            )
      ]

stepped :
    (to from : CallStatus) (c : Call)
    → c.status ≡ from
    → from ≢ CallStatus.archived
    → IsCallStep from to
    → IsNext c (change_call (status_change to) c)
stepped to from c e other step =
    inr (λ a. other (sym e ∙ a), inr (subst (λ s. IsCallStep s to) (sym e) step))

opened-IsNext :
    (s : CallStatus) (c : Call)
    → c.status ≡ s
    → (s == CallStatus.open_call) ≡ false
    → (s == CallStatus.archived) ≡ false
    → IsNext c (change_call (status_change CallStatus.open_call) c)
opened-IsNext CallStatus.draft c e not_open not_archived =
    stepped CallStatus.open_call CallStatus.draft c e (λ a. cc) opening
opened-IsNext CallStatus.open_call c e not_open not_archived = absurd (ground arith)
opened-IsNext CallStatus.closed c e not_open not_archived =
    stepped CallStatus.open_call CallStatus.closed c e (λ a. cc) reopening
opened-IsNext CallStatus.archived c e not_open not_archived = absurd (ground arith)

-- What each of the four requests on a call that is there hands to the repository.
open_loads :
    (id : ℕ) (user : AuthenticatedUserContext) (db db1 : Db) (change : CallChange) (c : Call)
    → load_for_open id user db ≡ ok (change, db1)
    → find_call id db ≡ some c
    → (IsOpenable c → IsOpenable (change_call change c)) × IsNext c (change_call change c)
open_loads id user db db1 change c h found =
    let (same, not_open, not_archived, openable) =
      load_for_open_ok id user db db1 change c h found in
    rw same (λ _. openable, opened-IsNext c.status c refl not_open not_archived)

status_loads :
    (from to : CallStatus) (message : String)
    → from ≢ CallStatus.archived
    → (to == CallStatus.open_call) ≡ false
    → IsCallStep from to
    → (id : ℕ) (user : AuthenticatedUserContext) (db db1 : Db) (change : CallChange) (c : Call)
    → load_for_status from to message id user db ≡ ok (change, db1)
    → find_call id db ≡ some c
    → (IsOpenable c → IsOpenable (change_call change c)) × IsNext c (change_call change c)
status_loads from to message other shut step id user db db1 change c h found =
    let (same, at) = load_for_status_ok from to message id user db db1 change c h found in
    rw same (
      λ _ is_open. absurd (ground arith),
      stepped to from c ((call_status_eq.equal_iff c.status from).0 at) other step,
    )

abbrev close_load : ℕ → AuthenticatedUserContext → Tx CallChange
close_load = load_for_status CallStatus.open_call CallStatus.closed "Only open calls can be closed"

abbrev archive_load : ℕ → AuthenticatedUserContext → Tx CallChange
archive_load =
    load_for_status CallStatus.closed CallStatus.archived "Only closed calls can be archived"

close_loads :
    (id : ℕ) (user : AuthenticatedUserContext) (db db1 : Db) (change : CallChange) (c : Call)
    → close_load id user db ≡ ok (change, db1)
    → find_call id db ≡ some c
    → (IsOpenable c → IsOpenable (change_call change c)) × IsNext c (change_call change c)
close_loads =
    status_loads CallStatus.open_call CallStatus.closed "Only open calls can be closed" (λ a. cc)
      refl closing

archive_loads :
    (id : ℕ) (user : AuthenticatedUserContext) (db db1 : Db) (change : CallChange) (c : Call)
    → archive_load id user db ≡ ok (change, db1)
    → find_call id db ≡ some c
    → (IsOpenable c → IsOpenable (change_call change c)) × IsNext c (change_call change c)
archive_loads =
    status_loads CallStatus.closed CallStatus.archived "Only closed calls can be archived" (λ a. cc)
      refl archiving

update_loads :
    (n : Numbers) (id : ℕ) (user : AuthenticatedUserContext) (dto : CallChangeDto n) (db db1 : Db)
    (change : CallChange) (c : Call)
    → load_for_update n id user dto db ≡ ok (change, db1)
    → find_call id db ≡ some c
    → (IsOpenable c → IsOpenable (change_call change c)) × IsNext c (change_call change c)
update_loads n id user dto db db1 change c h found =
    let (openable, kept, not_archived) = load_for_update_ok n id user dto db db1 change c h found in
    (
      λ _. openable,
      inr (
        λ a. absurd (ground (arith, call_status_eq.equal_iff c.status CallStatus.archived)),
        inl kept,
      ),
    )

admin_same :
    (user : AuthenticatedUserContext) (db db' : Db) (u : Unit {0})
    → ensure_admin user db ≡ ok (u, db')
    → db' ≡ db
unfolding ensure_admin
admin_same user db db' u h = ground arith

drafted_same :
    (n : Numbers) (dto : CallDto n) (db db' : Db) (new : NewCall)
    → resolve_draft_state n dto db ≡ ok (new, db')
    → db' ≡ db
unfolding resolve_draft_state resolve_required_document_types ensure_valid_date_window
    resolve_program_a_options
drafted_same n dto db db' new h = ground arith

create_call-AreCalls :
    (n : Numbers) (user : AuthenticatedUserContext) (dto : CallDto n) (db db' : Db) (c : Call)
    → create_call_tx n user dto db ≡ ok (c, db')
    → AreCalls db
    → AreCalls db'
unfolding create_call_tx
create_call-AreCalls n user dto db db' c h v =
    let (u, db1, admin, rest) =
      >>=-eq-ok (ensure_admin user) (λ _. resolve_draft_state n dto >>= create_admin_call) db h in
    let (new, db2, drafted, created) =
      >>=-eq-ok (resolve_draft_state n dto) create_admin_call db1 rest in
    let same = drafted_same n dto db1 db2 new drafted ∙ admin_same user db db1 u admin in
    let (rows, next) =
      create_admin_call_ok new db db' c
        (subst (λ d. create_admin_call new d ≡ ok (c, db')) same created) in
    let row = call_row db.next_id new in
    let below =
      All-map {P = λ k. k.id < db.next_id} {Q = λ k. k.id < suc db.next_id} (λ k b. omega arith)
        db.calls v.used in
    record {
      keyed =
          subst (IsKeyed (λ k. k.id)) (sym rows)
            (append-IsKeyed (λ k. k.id) db.calls row v.keyed v.used);
      used =
          subst (λ m. All (λ k. k.id < m) db'.calls) (sym next)
            (subst (All (λ k. k.id < suc db.next_id)) (sym rows)
              (All-append (λ k. k.id < suc db.next_id) db.calls _ below (omega arith, tt)));
      openable =
          subst (All IsOpenable) (sym rows)
            (All-append IsOpenable db.calls _ v.openable (λ is_open. absurd (ground arith), tt));
    }

-- With no other request between its statements, a request of an administrator on calls keeps the
-- calls valid: ids distinct and used, and every open call with an opening date before its closing
-- date and, in Program A, a required document.
pub perform-AreCalls :
    (n : Numbers) (user : AuthenticatedUserContext) (request : CallRequest n) (db : Db)
    → AreCalls db
    → AreCalls (perform n user request db).1
unfolding perform create_call update_call open_call close_call archive_call
perform-AreCalls n user (CallRequest.create dto) db =
    serializable_keeps AreCalls (create_call_tx n user dto) db
      λ db' c h. create_call-AreCalls n user dto db db' c h
perform-AreCalls n user (CallRequest.update id dto) db =
    updated-AreCalls id (load_for_update n id user dto) db (update_loads n id user dto db)
perform-AreCalls n user (CallRequest.open_it id) db =
    updated-AreCalls id (load_for_open id user) db (open_loads id user db)
perform-AreCalls n user (CallRequest.close id) db =
    updated-AreCalls id (close_load id user) db (close_loads id user db)
perform-AreCalls n user (CallRequest.archive id) db =
    updated-AreCalls id (archive_load id user) db (archive_loads id user db)

created-IsNext :
    (n : Numbers) (user : AuthenticatedUserContext) (dto : CallDto n) (k : ℕ) (db db' : Db)
    (r c : Call)
    → create_call_tx n user dto db ≡ ok (r, db')
    → find_call k db ≡ some c
    → (c' : Call) × (find_call k db' ≡ some c') × IsNext c c'
unfolding create_call_tx find_call
created-IsNext n user dto k db db' r c h found =
    let (u, db1, admin, rest) =
      >>=-eq-ok (ensure_admin user) (λ _. resolve_draft_state n dto >>= create_admin_call) db h in
    let (new, db2, drafted, created) =
      >>=-eq-ok (resolve_draft_state n dto) create_admin_call db1 rest in
    let same = drafted_same n dto db1 db2 new drafted ∙ admin_same user db db1 u admin in
    let (rows, _) =
      create_admin_call_ok new db db' r
        (subst (λ d. create_admin_call new d ≡ ok (r, db')) same created) in
    let there = find_by_id-append (λ a. a.id) k db.calls (call_row db.next_id new) in
    (c, ap (find_by_id (λ a. a.id) k) rows ∙ there ∙ (rw found refl), inl refl)

-- With no other request between its statements, a request of an administrator that succeeds leaves
-- each call that was there as it was, or edits one that is not archived and keeps its status, or
-- moves one along the graph from DRAFT to OPEN, between OPEN and CLOSED, and from CLOSED to
-- ARCHIVED. So an archived call stays as it is.
pub perform-IsNext :
    (n : Numbers) (user : AuthenticatedUserContext) (request : CallRequest n) (k : ℕ) (db : Db)
    {db' : Db} {r c : Call}
    → perform n user request db ≡ (ok r, db')
    → find_call k db ≡ some c
    → (c' : Call) × (find_call k db' ≡ some c') × IsNext c c'
unfolding perform create_call update_call open_call close_call archive_call
perform-IsNext n user (CallRequest.create dto) k db {db'} {r} {c} h found =
    created-IsNext n user dto k db db' r c (serializable-ok (create_call_tx n user dto) db h) found
perform-IsNext n user (CallRequest.update id dto) k db {db'} {r} {c} h found =
    updated-IsNext id (load_for_update n id user dto) db (update_loads n id user dto db) k db' r c h
      found
perform-IsNext n user (CallRequest.open_it id) k db {db'} {r} {c} h found =
    updated-IsNext id (load_for_open id user) db (open_loads id user db) k db' r c h found
perform-IsNext n user (CallRequest.close id) k db {db'} {r} {c} h found =
    updated-IsNext id (close_load id user) db (close_loads id user db) k db' r c h found
perform-IsNext n user (CallRequest.archive id) k db {db'} {r} {c} h found =
    updated-IsNext id (archive_load id user) db (archive_loads id user db) k db' r c h found
