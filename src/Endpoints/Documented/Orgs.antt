-- ===== src/Endpoints/Documented/Orgs.antt =====
-- The method and the path that the doc comments of orgs.go name for each method of the client.
use auth_sdk_go.Base.{refl, [], ◌∷◌}
use auth_sdk_go.Base.Text.{bytes}
use auth_sdk_go.Endpoints.Routes.{fixed, argument, route}
use auth_sdk_go.Endpoints.Documented.Comment.{Endpoint, at, Documents}
use auth_sdk_go.Endpoints.Orgs.{
  OrgsCall, create_organization, update_organization, delete_organization, get_org_hierarchy,
  list_org_users, update_org_user_role, remove_org_user, invite_to_organization, list_invitations,
  revoke_invitation, list_org_sessions, revoke_org_sessions, revoke_user_sessions, create_team,
  orgs_request, TeamsCall, list_teams, get_team, update_team, delete_team, add_team_member,
  list_team_members, remove_team_member, update_team_member_role, get_team_permissions,
  get_invitation, teams_request,
}

unfoldable pub orgs_documented : OrgsCall → Endpoint
orgs_documented (create_organization req token) =
    at (bytes "POST") (fixed (bytes "organizations") ∷ fixed [] ∷ [])
orgs_documented (update_organization org_id req caller_token) =
    at (bytes "PUT") (fixed (bytes "organizations") ∷ argument org_id ∷ [])
orgs_documented (delete_organization org_id caller_token) =
    at (bytes "DELETE") (fixed (bytes "organizations") ∷ argument org_id ∷ [])
orgs_documented (get_org_hierarchy org_id caller_token) =
    at (bytes "GET")
      (fixed (bytes "organizations") ∷ argument org_id ∷ fixed (bytes "hierarchy") ∷ [])
orgs_documented (list_org_users org_id caller_token) =
    at (bytes "GET") (fixed (bytes "organizations") ∷ argument org_id ∷ fixed (bytes "users") ∷ [])
orgs_documented (update_org_user_role org_id user_id req caller_token) = at (bytes "PUT") (
    fixed (bytes "organizations") ∷ argument org_id ∷ fixed (bytes "users") ∷ argument user_id ∷ [])
orgs_documented (remove_org_user org_id user_id caller_token) = at (bytes "DELETE") (
    fixed (bytes "organizations") ∷ argument org_id ∷ fixed (bytes "users") ∷ argument user_id ∷ [])
orgs_documented (invite_to_organization org_id req caller_token) =
    at (bytes "POST")
      (fixed (bytes "organizations") ∷ argument org_id ∷ fixed (bytes "invite") ∷ [])
orgs_documented (list_invitations org_id caller_token) =
    at (bytes "GET")
      (fixed (bytes "organizations") ∷ argument org_id ∷ fixed (bytes "invitations") ∷ [])
orgs_documented (revoke_invitation org_id invitation_id caller_token) = at (bytes "DELETE") (
    fixed (bytes "organizations")
    ∷ argument org_id
    ∷ fixed (bytes "invitations")
    ∷ argument invitation_id
    ∷ [])
orgs_documented (list_org_sessions org_id caller_token) =
    at (bytes "GET")
      (fixed (bytes "organizations") ∷ argument org_id ∷ fixed (bytes "sessions") ∷ [])
orgs_documented (revoke_org_sessions org_id caller_token) =
    at (bytes "DELETE")
      (fixed (bytes "organizations") ∷ argument org_id ∷ fixed (bytes "sessions") ∷ [])
orgs_documented (revoke_user_sessions org_id user_id caller_token) = at (bytes "DELETE") (
    fixed (bytes "organizations")
    ∷ argument org_id
    ∷ fixed (bytes "users")
    ∷ argument user_id
    ∷ fixed (bytes "sessions")
    ∷ [])
orgs_documented (create_team org_id req caller_token) =
    at (bytes "POST") (fixed (bytes "organizations") ∷ argument org_id ∷ fixed (bytes "teams") ∷ [])

pub orgs_request-Documents : (c : OrgsCall) → Documents (orgs_request c) (orgs_documented c)
unfolding orgs_request orgs_documented route
orgs_request-Documents (create_organization req token) = (refl, refl)
orgs_request-Documents _ = (refl, refl)

unfoldable pub teams_documented : TeamsCall → Endpoint
teams_documented (list_teams org_id caller_token) =
    at (bytes "GET") (fixed (bytes "organizations") ∷ argument org_id ∷ fixed (bytes "teams") ∷ [])
teams_documented (get_team team_id caller_token) =
    at (bytes "GET") (fixed (bytes "teams") ∷ argument team_id ∷ [])
teams_documented (update_team team_id req caller_token) =
    at (bytes "PUT") (fixed (bytes "teams") ∷ argument team_id ∷ [])
teams_documented (delete_team team_id caller_token) =
    at (bytes "DELETE") (fixed (bytes "teams") ∷ argument team_id ∷ [])
teams_documented (add_team_member team_id req caller_token) =
    at (bytes "POST") (fixed (bytes "teams") ∷ argument team_id ∷ fixed (bytes "members") ∷ [])
teams_documented (list_team_members team_id caller_token) =
    at (bytes "GET") (fixed (bytes "teams") ∷ argument team_id ∷ fixed (bytes "members") ∷ [])
teams_documented (remove_team_member team_id user_id caller_token) =
    at (bytes "DELETE")
      (fixed (bytes "teams") ∷ argument team_id ∷ fixed (bytes "members") ∷ argument user_id ∷ [])
teams_documented (update_team_member_role team_id user_id req caller_token) =
    at (bytes "PUT")
      (fixed (bytes "teams") ∷ argument team_id ∷ fixed (bytes "members") ∷ argument user_id ∷ [])
teams_documented (get_team_permissions team_id caller_token) =
    at (bytes "GET") (fixed (bytes "teams") ∷ argument team_id ∷ fixed (bytes "permissions") ∷ [])
teams_documented (get_invitation org_id invitation_id caller_token) = at (bytes "GET") (
    fixed (bytes "organizations")
    ∷ argument org_id
    ∷ fixed (bytes "invitations")
    ∷ argument invitation_id
    ∷ [])

pub teams_request-Documents : (c : TeamsCall) → Documents (teams_request c) (teams_documented c)
unfolding teams_request teams_documented route
teams_request-Documents (list_teams org_id caller_token) = (refl, refl)
teams_request-Documents _ = (refl, refl)
