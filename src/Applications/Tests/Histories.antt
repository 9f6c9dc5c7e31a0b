-- ===== src/Applications/Tests/Histories.antt =====
-- Databases whose applications are valid.
use nti_backend.Prelude.{refl, none, some, [], ◌∷◌, arith}
use nti_backend.Domain.{ApplicationStatus, application_status_eq}
use nti_backend.Store.{Db}
use nti_backend.Store.Tables.{find_by_id}
use nti_backend.Applications.History.{IsValid, replay, status_of}
use nti_backend.Applications.Tests.World.{world, row, event}

abbrev pub empty_db : Db
empty_db = world [] []

abbrev pub draft_db : Db
draft_db = world (row ApplicationStatus.draft none none ∷ []) []

pub draft_db-IsValid : IsValid [] draft_db
unfolding replay status_of find_by_id
draft_db-IsValid = record {
  keyed = (refl, tt);
  used = (ground arith, tt);
  dated = (record { decided = refl; submitted = refl }, tt);
  since = ([], refl);
  history = λ id. ground arith;
}

abbrev pub submitted_db : Db
submitted_db =
    world (row ApplicationStatus.submitted (some 15) none ∷ [])
      (event ApplicationStatus.draft ApplicationStatus.submitted ∷ [])

abbrev pub rejected_db : Db
rejected_db = world (row ApplicationStatus.rejected (some 15) (some 20) ∷ []) (
    event ApplicationStatus.draft ApplicationStatus.submitted
    ∷ event ApplicationStatus.submitted ApplicationStatus.rejected
    ∷ [])

pub empty_db-IsValid : IsValid [] empty_db
unfolding replay status_of find_by_id
empty_db-IsValid = record {
  keyed = tt;
  used = tt;
  dated = tt;
  since = ([], refl);
  history = λ _. refl;
}

pub submitted_db-IsValid : IsValid [] submitted_db
unfolding replay status_of find_by_id
submitted_db-IsValid = record {
  keyed = (refl, tt);
  used = (ground arith, tt);
  dated = (record { decided = refl; submitted = refl }, tt);
  since = (submitted_db.status_events, refl);
  history = λ id. ground arith;
}

pub rejected_db-IsValid : IsValid [] rejected_db
unfolding replay status_of find_by_id
rejected_db-IsValid = record {
  keyed = (refl, tt);
  used = (ground arith, tt);
  dated = (record { decided = refl; submitted = refl }, tt);
  since = (rejected_db.status_events, refl);
  history = λ id. ground arith;
}

abbrev pub archived_db : Db
archived_db = world (row ApplicationStatus.archived (some 15) (some 20) ∷ []) (
    event ApplicationStatus.draft ApplicationStatus.submitted
    ∷ event ApplicationStatus.submitted ApplicationStatus.formally_verified
    ∷ event ApplicationStatus.formally_verified ApplicationStatus.approved
    ∷ event ApplicationStatus.approved ApplicationStatus.onboarding
    ∷ event ApplicationStatus.onboarding ApplicationStatus.active_project
    ∷ event ApplicationStatus.active_project ApplicationStatus.completed
    ∷ event ApplicationStatus.completed ApplicationStatus.archived
    ∷ [])

pub archived_db-IsValid : IsValid [] archived_db
unfolding replay status_of find_by_id
archived_db-IsValid = record {
  keyed = (refl, tt);
  used = (ground arith, tt);
  dated = (record { decided = refl; submitted = refl }, tt);
  since = (archived_db.status_events, refl);
  history = λ id. ground arith;
}
