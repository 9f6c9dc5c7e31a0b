-- ===== src/Teams/Tokens.antt =====
-- The tokens of src/team/invitations/invitation.service.ts. `generateToken` draws random bytes: the
-- draws of one attempt are the parameter `draws`, the n-th draw first. The loop that draws again has
-- no bound in the source; `rounds` is its fuel, and `Tokens/Ending` shows how much is enough.
pub mod Ending
use nti_backend.Prelude.{
  ℕ, zero, suc, String, Bool, true, false, not, ◌&&◌, Option, none, some, List, [], ◌∷◌, map,
  if◌then◌else◌, nat_eq, string_eq, ◌==◌, all, includes, Result, ok, err, Exception, conflict,
  unique_violation,
}
use nti_backend.Store.{Db}
use nti_backend.Teams.Invitations.{NewInvitation}

module _ (draws : ℕ → String) where
  -- `generateUniqueToken`: the token, and the number of draws so far.
  unfoldable pub generate_unique_token : ℕ → List String → ℕ → Option (String × ℕ)
  generate_unique_token zero reserved n = none
  generate_unique_token (suc rounds) reserved n = elim (includes reserved (draws n)) [
    | true ↦ generate_unique_token rounds reserved (suc n)
    | false ↦ some (draws n, suc n)
  ]

  -- `generateResendToken`
  unfoldable pub generate_resend_token : ℕ → String → Option (String × ℕ)
  generate_resend_token rounds previous = generate_unique_token rounds (previous ∷ []) 0

  module _ (rounds team_id expires_at : ℕ) where
    abbrev pub new_invitation : String → String → NewInvitation
    new_invitation email token = record {
      email = email;
      token = token;
      team_id = team_id;
      expires_at = expires_at;
    }

    -- `emails.map` in `buildInvitationsToCreate`, with the tokens so far and the number of draws.
    unfoldable pub build_from : List String → ℕ → List String → Option (List NewInvitation)
    build_from generated n [] = some []
    build_from generated n (email ∷ emails) = elim (generate_unique_token rounds generated n) [
      | none ↦ none
      | some (token, m) ↦ elim (build_from (token ∷ generated) m emails) [
        | none ↦ none
        | some rows ↦ some (new_invitation email token ∷ rows)
      ]
    ]

    unfoldable pub build_invitations_to_create : List String → Option (List NewInvitation)
    build_invitations_to_create emails = build_from [] 0 emails

-- `isUniqueConstraintOnFields`: the columns of the index hold every field.
unfoldable pub is_unique_constraint_on_fields : List String → Exception → Bool
is_unique_constraint_on_fields fields (unique_violation target) = all (includes target) fields
is_unique_constraint_on_fields fields e = false

unfoldable pub is_token_unique_constraint_error : Exception → Bool
is_token_unique_constraint_error e = is_unique_constraint_on_fields ("token" ∷ []) e

abbrev pub invitation_token_max_retries : ℕ
invitation_token_max_retries = 5

-- The retry loops of `createInvites` and `updateInvitationForResend` without an outer transaction.
-- `left` counts the attempts that are left, and `i` those made.
module _ {A : Type 0} (message : String) (attempt : ℕ → Db → Result A × Db) where
  unfoldable pub retry : ℕ → ℕ → Db → Result A × Db
  retry zero i db = (err (conflict message), db)
  retry (suc left) i db =
      let (r, db') = attempt i db in
      elim r [
        | ok a ↦ (ok a, db')
        | err e ↦ elim (is_token_unique_constraint_error e && not (left == 0)) [
          | true ↦ retry left (suc i) db'
          | false ↦ (err e, db')
        ]
      ]
