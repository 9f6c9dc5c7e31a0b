-- ===== src/Applications/Calls/Visibility.antt =====
-- The calls that are listed as active are those that take applications.
use nti_backend.Prelude.{ℕ, ◌≡◌, arith, is_ok}
use nti_backend.Domain.{call_status_eq}
use nti_backend.Store.{Call}
use nti_backend.Applications.Rules.{ensure_call_open_for_applications}
use nti_backend.Applications.Calls.{is_public_visible}

-- A call is in the list of active calls at a time exactly if an application to it at that time
-- passes the check of the call.
pub is_public_visible_iff :
    (call : Call) (now : ℕ)
    → is_public_visible now call ≡ is_ok (ensure_call_open_for_applications call now)
unfolding is_public_visible ensure_call_open_for_applications
is_public_visible_iff call now = ground arith
