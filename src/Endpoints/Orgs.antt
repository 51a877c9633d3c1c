-- ===== src/Endpoints/Orgs.antt =====
-- orgs.go: organizations and teams.
use auth_sdk_go.Base.{[], ◌∷◌}
use auth_sdk_go.Base.Text.{Bytes, bytes}
use auth_sdk_go.Endpoints.{Request, text, escaped, nothing, json, do_json, do_get}

pub data OrgsCall : Type 0 where
  create_organization : (req token : Bytes) → OrgsCall
  update_organization : (org_id req caller_token : Bytes) → OrgsCall
  delete_organization : (org_id caller_token : Bytes) → OrgsCall
  get_org_hierarchy : (org_id caller_token : Bytes) → OrgsCall
  list_org_users : (org_id caller_token : Bytes) → OrgsCall
  update_org_user_role : (org_id user_id req caller_token : Bytes) → OrgsCall
  remove_org_user : (org_id user_id caller_token : Bytes) → OrgsCall
  invite_to_organization : (org_id req caller_token : Bytes) → OrgsCall
  list_invitations : (org_id caller_token : Bytes) → OrgsCall
  revoke_invitation : (org_id invitation_id caller_token : Bytes) → OrgsCall
  list_org_sessions : (org_id caller_token : Bytes) → OrgsCall
  revoke_org_sessions : (org_id caller_token : Bytes) → OrgsCall
  revoke_user_sessions : (org_id user_id caller_token : Bytes) → OrgsCall
  create_team : (org_id req caller_token : Bytes) → OrgsCall

unfoldable pub orgs_request : OrgsCall → Request
orgs_request (create_organization req token) =
    do_json (bytes "POST") (text (bytes "/organizations/") ∷ []) (json req) token
orgs_request (update_organization org_id req caller_token) =
    do_json (bytes "PUT") (text (bytes "/organizations/") ∷ escaped org_id ∷ []) (json req)
      caller_token
orgs_request (delete_organization org_id caller_token) =
    do_json (bytes "DELETE") (text (bytes "/organizations/") ∷ escaped org_id ∷ []) nothing
      caller_token
orgs_request (get_org_hierarchy org_id caller_token) =
    do_get (text (bytes "/organizations/") ∷ escaped org_id ∷ text (bytes "/hierarchy") ∷ [])
      caller_token
orgs_request (list_org_users org_id caller_token) =
    do_get (text (bytes "/organizations/") ∷ escaped org_id ∷ text (bytes "/users") ∷ [])
      caller_token
orgs_request (update_org_user_role org_id user_id req caller_token) =
    do_json (bytes "PUT")
      (text (bytes "/organizations/")
        ∷ escaped org_id
        ∷ text (bytes "/users/")
        ∷ escaped user_id
        ∷ [])
      (json req) caller_token
orgs_request (remove_org_user org_id user_id caller_token) =
    do_json (bytes "DELETE")
      (text (bytes "/organizations/")
        ∷ escaped org_id
        ∷ text (bytes "/users/")
        ∷ escaped user_id
        ∷ [])
      nothing caller_token
orgs_request (invite_to_organization org_id req caller_token) =
    do_json (bytes "POST")
      (text (bytes "/organizations/") ∷ escaped org_id ∷ text (bytes "/invite") ∷ []) (json req)
      caller_token
orgs_request (list_invitations org_id caller_token) =
    do_get (text (bytes "/organizations/") ∷ escaped org_id ∷ text (bytes "/invitations") ∷ [])
      caller_token
orgs_request (revoke_invitation org_id invitation_id caller_token) =
    do_json (bytes "DELETE")
      (text (bytes "/organizations/")
        ∷ escaped org_id
        ∷ text (bytes "/invitations/")
        ∷ escaped invitation_id
        ∷ [])
      nothing caller_token
orgs_request (list_org_sessions org_id caller_token) =
    do_get (text (bytes "/organizations/") ∷ escaped org_id ∷ text (bytes "/sessions") ∷ [])
      caller_token
orgs_request (revoke_org_sessions org_id caller_token) =
    do_json (bytes "DELETE")
      (text (bytes "/organizations/") ∷ escaped org_id ∷ text (bytes "/sessions") ∷ []) nothing
      caller_token
orgs_request (revoke_user_sessions org_id user_id caller_token) =
    do_json (bytes "DELETE")
      (text (bytes "/organizations/")
        ∷ escaped org_id
        ∷ text (bytes "/users/")
        ∷ escaped user_id
        ∷ text (bytes "/sessions")
        ∷ [])
      nothing caller_token
orgs_request (create_team org_id req caller_token) =
    do_json (bytes "POST")
      (text (bytes "/organizations/") ∷ escaped org_id ∷ text (bytes "/teams") ∷ []) (json req)
      caller_token

pub data TeamsCall : Type 0 where
  list_teams : (org_id caller_token : Bytes) → TeamsCall
  get_team : (team_id caller_token : Bytes) → TeamsCall
  update_team : (team_id req caller_token : Bytes) → TeamsCall
  delete_team : (team_id caller_token : Bytes) → TeamsCall
  add_team_member : (team_id req caller_token : Bytes) → TeamsCall
  list_team_members : (team_id caller_token : Bytes) → TeamsCall
  remove_team_member : (team_id user_id caller_token : Bytes) → TeamsCall
  update_team_member_role : (team_id user_id req caller_token : Bytes) → TeamsCall
  get_team_permissions : (team_id caller_token : Bytes) → TeamsCall
  get_invitation : (org_id invitation_id caller_token : Bytes) → TeamsCall

unfoldable pub teams_request : TeamsCall → Request
teams_request (list_teams org_id caller_token) =
    do_get (text (bytes "/organizations/") ∷ escaped org_id ∷ text (bytes "/teams") ∷ [])
      caller_token
teams_request (get_team team_id caller_token) =
    do_get (text (bytes "/teams/") ∷ escaped team_id ∷ []) caller_token
teams_request (update_team team_id req caller_token) =
    do_json (bytes "PUT") (text (bytes "/teams/") ∷ escaped team_id ∷ []) (json req) caller_token
teams_request (delete_team team_id caller_token) =
    do_json (bytes "DELETE") (text (bytes "/teams/") ∷ escaped team_id ∷ []) nothing caller_token
teams_request (add_team_member team_id req caller_token) =
    do_json (bytes "POST") (text (bytes "/teams/") ∷ escaped team_id ∷ text (bytes "/members") ∷ [])
      (json req) caller_token
teams_request (list_team_members team_id caller_token) =
    do_get (text (bytes "/teams/") ∷ escaped team_id ∷ text (bytes "/members") ∷ []) caller_token
teams_request (remove_team_member team_id user_id caller_token) =
    do_json (bytes "DELETE")
      (text (bytes "/teams/") ∷ escaped team_id ∷ text (bytes "/members/") ∷ escaped user_id ∷ [])
      nothing caller_token
teams_request (update_team_member_role team_id user_id req caller_token) =
    do_json (bytes "PUT")
      (text (bytes "/teams/") ∷ escaped team_id ∷ text (bytes "/members/") ∷ escaped user_id ∷ [])
      (json req) caller_token
teams_request (get_team_permissions team_id caller_token) =
    do_get (text (bytes "/teams/") ∷ escaped team_id ∷ text (bytes "/permissions") ∷ [])
      caller_token
teams_request (get_invitation org_id invitation_id caller_token) =
    do_get
      (text (bytes "/organizations/")
        ∷ escaped org_id
        ∷ text (bytes "/invitations/")
        ∷ escaped invitation_id
        ∷ [])
      caller_token
