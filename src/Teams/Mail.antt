-- ===== src/Teams/Mail.antt =====
-- The e-mail jobs that src/team hands to the queue: `accepts` says which jobs the queue takes, and
-- `removes` which it can take out again.
use nti_backend.Prelude.{ℕ, String, List, Result}
use nti_backend.Store.{Db}

pub record InvitationEmail : Type 0 where
  pub invitation_id : ℕ
  pub email : String
  pub team_name : String
  pub token : String

-- What a request leaves: its result or exception, the database, and the jobs that stay queued.
pub record Response (A : Type 0) : Type 0 where
  pub result : Result A
  pub db : Db
  pub mail : List InvitationEmail
