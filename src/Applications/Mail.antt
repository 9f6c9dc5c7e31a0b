-- ===== src/Applications/Mail.antt =====
-- The e-mails that src/applications/applications.service.ts hands to the queue. The queue is not
-- part of the repository: whether it accepts a job is the parameter `accepts`. `Promise.all` starts
-- every call, so the accepted jobs stay queued where another one is refused.
use nti_backend.Prelude.{
  ℕ, String, Bool, Option, none, some, List, [], ◌∷◌, map, if◌then◌else◌, string_eq, ◌==◌, filter,
  all, unique, get_or, Result, ok, err, unavailable,
}
use nti_backend.Store.{Db}
use nti_backend.Applications.Repository.{WorkflowView, Member}

pub data EmailJob : Type 0 where
  application_submitted application_approved application_needs_info_requested : EmailJob
  -- The reason that the e-mail shows.
  application_rejected : String → EmailJob

pub record Email : Type 0 where
  pub job : EmailJob
  pub email : String
  pub application_id : ℕ
  pub application_title : String

-- What a request leaves: its result or exception, the database, and the jobs that it queued.
pub record Response (A : Type 0) : Type 0 where
  pub result : Result A
  pub db : Db
  pub mail : List Email

-- `.map((member) => member.user?.email).filter(Boolean)`
abbrev present_emails : List Member → List String
present_emails [] = []
present_emails (m ∷ ms) = elim m.user [
  | none ↦ present_emails ms
  | some u ↦ if u.email == "" then present_emails ms else u.email ∷ present_emails ms
]

unfoldable pub get_application_recipient_emails : WorkflowView → List String
get_application_recipient_emails v = unique (present_emails v.members)

abbrev pub email_to : EmailJob → WorkflowView → String → Email
email_to job v email = record {
  job = job;
  email = email;
  application_id = v.application.id;
  application_title = v.call.title;
}

pub enqueue_needs_info_email : WorkflowView → List Email
enqueue_needs_info_email v =
    map (email_to EmailJob.application_needs_info_requested v) (get_application_recipient_emails v)

-- The three jobs of `sendProgramAApplicationEmail`.
pub data Notification : Type 0 where
  submitted approved rejected : Notification

abbrev pub job_of : Notification → Option String → EmailJob
job_of Notification.submitted reason = EmailJob.application_submitted
job_of Notification.approved reason = EmailJob.application_approved
job_of Notification.rejected reason =
    EmailJob.application_rejected (get_or reason "No reason provided")

unfoldable pub send_program_a_application_email :
    Notification → Option String → WorkflowView → List Email
send_program_a_application_email notification reason v =
    map (email_to (job_of notification reason) v) (get_application_recipient_emails v)

-- The jobs go to the queue after the transaction has committed.
module _ {A V : Type 0} (accepts : Email → Bool) where
  abbrev pub enqueue : (V → List Email) → (V → A) → Result V × Db → Response A
  enqueue mails answer (ok v, db) = record {
    result = if all accepts (mails v) then ok (answer v) else err (unavailable "queue");
    db = db;
    mail = filter accepts (mails v);
  }
  enqueue mails answer (err e, db) = record { result = err e; db = db; mail = [] }
