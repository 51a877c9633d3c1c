-- ===== src/Endpoints/Tests.antt =====
-- The requests of some calls, and the theorems on their paths at concrete calls.
use auth_sdk_go.Base.{◌+◌, ◌≡◌, refl, [], ◌∷◌, ◌++◌, map}
use auth_sdk_go.Base.Text.{Bytes, bytes}
use auth_sdk_go.Transport.{strip_query}
use auth_sdk_go.Endpoints.{Values, path_text, piece_text}
use auth_sdk_go.Endpoints.Routes.{route, cut, extend, fixed, argument}
use auth_sdk_go.Endpoints.Orgs.{orgs_request, update_org_user_role}
use auth_sdk_go.Endpoints.Calls.{Call, orgs, request}
use auth_sdk_go.Endpoints.Calls.Routed.{endpoint}

-- An escape for the tests, which moves every byte past the slash and the question mark.
abbrev shift : Bytes → Bytes
shift = map (λ c. c + 64)

abbrev no_query : Values → Bytes
no_query q = []

abbrev demotion : Call
demotion = orgs (update_org_user_role (bytes "o/1") (bytes "u?") (bytes "{}") (bytes "t"))

demotion_endpoint :
    endpoint shift no_query demotion
    ≡ bytes "/organizations/" ++ shift (bytes "o/1") ++ bytes "/users/" ++ shift (bytes "u?")
unfolding request orgs_request path_text piece_text strip_query
demotion_endpoint = refl

demotion-route :
    route (request demotion).path
    ≡ fixed []
      ∷ fixed (bytes "organizations")
      ∷ argument (bytes "o/1")
      ∷ fixed (bytes "users")
      ∷ argument (bytes "u?")
      ∷ []
unfolding request orgs_request route cut extend
demotion-route = refl
