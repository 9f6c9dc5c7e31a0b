-- ===== src/Applications/Tests/Calls.antt =====
-- The theorems on calls: an administrator closes the call of the other tests.
use nti_backend.Prelude.{◌≡◌, refl, none, some, [], ◌∷◌, arith, ok}
use nti_backend.Domain.{UserRole, UserStatus, CallStatus, user_role_eq, call_status_eq}
use nti_backend.Domain.Roles.{AuthenticatedUserContext}
use nti_backend.Store.{Db, Call}
use nti_backend.Store.Tables.{find_by_id, update_where}
use nti_backend.Applications.Repository.{find_call}
use nti_backend.Applications.Calls.{update_admin_call, is_public_visible}
use nti_backend.Applications.Calls.Admin.{
  is_reversed, close_call, load_for_status, ensure_admin, get_call_or_throw,
}
use nti_backend.Applications.Calls.Validity.{AreCalls}
use nti_backend.Applications.Calls.Requests.{CallRequest, perform}
use nti_backend.Applications.Calls.Steps.{perform-AreCalls, perform-IsNext}
use nti_backend.Applications.Calls.Visibility.{is_public_visible_iff}
use nti_backend.Applications.Rules.{ensure_call_open_for_applications}
use nti_backend.Prelude.{is_ok}
use nti_backend.Applications.Tests.World.{call, world, numbers}

abbrev admin : AuthenticatedUserContext
admin = record { id = 3; role = UserRole.admin; status = UserStatus.active; organization_id = none }

abbrev closed_call : Call
closed_call = record call { status = CallStatus.closed }

abbrev closed_db : Db
closed_db = record (world [] []) { calls = closed_call ∷ [] }

closed_run : perform numbers admin (CallRequest.close 4) (world [] []) ≡ (ok closed_call, closed_db)
unfolding perform close_call load_for_status ensure_admin get_call_or_throw update_admin_call
    find_call find_by_id update_where
closed_run = refl

calls_found : find_call 4 (world [] []) ≡ some call
unfolding find_call find_by_id
calls_found = refl

perform-IsNext_example : (c : Call) × (find_call 4 closed_db ≡ some c)
perform-IsNext_example =
    let done =
      perform-IsNext numbers admin (CallRequest.close 4) 4 (world [] []) closed_run calls_found in
    (done.0, done.1)

world-AreCalls : AreCalls (world [] [])
unfolding find_by_id is_reversed
world-AreCalls = record { keyed = (refl, tt); used = (omega arith, tt); openable = (λ _. refl, tt) }

perform-AreCalls_example : AreCalls (perform numbers admin (CallRequest.close 4) (world [] [])).1
perform-AreCalls_example =
    perform-AreCalls numbers admin (CallRequest.close 4) (world [] []) world-AreCalls

-- At its closing time the call is still open.
is_public_visible_iff_example :
    is_public_visible 90 call ≡ is_ok (ensure_call_open_for_applications call 90)
is_public_visible_iff_example = is_public_visible_iff call 90
