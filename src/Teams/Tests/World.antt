-- ===== src/Teams/Tests/World.antt =====
-- The team of the applications, with an invitation that is open.
use nti_backend.Prelude.{ℕ, zero, suc, refl, String, Bool, true, false, none, [], ◌∷◌, arith}
use nti_backend.Domain.{InvitationStatus}
use nti_backend.Store.{Db, Invitation}
use nti_backend.Store.Tables.{find_by_id}
use nti_backend.Applications.Tests.World.{world, numbers}
use nti_backend.Teams.Mail.{InvitationEmail}
use nti_backend.Teams.Roster.{IsSound}
use nti_backend.Teams.Runs.{Services}

abbrev pub invitation : Invitation
invitation = record {
  id = 9;
  email = "new@uni.sk";
  token = "t0";
  status = InvitationStatus.pending;
  team_id = 5;
  expires_at = 90;
  revoked_at = none;
}

abbrev pub invited_db : Db
invited_db = record (world [] []) { invitations = invitation ∷ [] }

abbrev pub lower : String → String
lower email = email

abbrev pub takes_all : InvitationEmail → Bool
takes_all _ = true

abbrev pub refuses : InvitationEmail → Bool
refuses _ = false

abbrev pub services : Services
services = record {
  numbers = numbers;
  accepts = takes_all;
  removes = takes_all;
  lower = lower;
  rounds = 9;
}

-- Each draw is one character longer than the one before.
abbrev pub draws : ℕ → String
draws zero = ""
draws (suc n) = String.◌∷◌ "a" (draws n)

pub invited_db-IsSound : IsSound 0 invited_db
unfolding find_by_id
invited_db-IsSound = record {
  roster = record {
    keyed = (refl, tt);
    used = (omega arith, tt);
    apart = (refl, (refl, tt));
    known = (omega arith, (omega arith, tt));
    led = (refl, tt);
  };
  issued = record {
    keyed = (refl, tt);
    used = (omega arith, tt);
    apart = (refl, tt);
    consistent = (λ h. absurd (ground arith), tt);
    known = (omega arith, tt);
  };
  grown = omega arith;
}
