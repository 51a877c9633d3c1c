-- ===== src/Lib.antt =====
-- Verification library of the ab0t auth SDK for Go (github.com/ab0t-com/auth-sdk-go).
--
-- The SDK asks the auth service about credentials and hands its answers to Go programs. A request
-- comes in through the middleware (authmw/authmw.go), which asks a validator who the caller is and
-- an authorizer whether an action is allowed. The client's validator sits behind a cache of answers
-- (validationcache.go) and a transport that retries (transport.go, errors.go). A token can also be
-- verified without the service (localverify.go), against a cached key set (jwks.go). For calls to
-- other services the SDK gets tokens (tokenfor.go), and it manages relationship tuples (store.go,
-- permissions.go, authzmodel.go).
--
-- Which file models what, with the names of the source in snake_case:
--   Base: bytes, association lists, times. A Go map is an association list in the order of Go's
--     range over it. A time counts nanoseconds from the zero time.Time and does not wrap.
--   Json: encoding/json's typed decoding, above a parser that is a parameter. Field names are matched
--     up to ASCII case.
--   Errors, Errors/Envelope: errors.go, with the error values of the other files.
--   Credential: IsAPIKey, LooksLikeJWT and CredentialHeader of authclient.go, and the request headers
--     of transport.go.
--   Actor: Actor, Resource and TokenValidationRequest of types.go.
--   Configuration: New and the options of authclient.go.
--   Encoding: the length-prefixed fields that keys are hashed from.
--   ValidationCache: validationcache.go. Entries are objects that a fetch in flight holds by pointer,
--     so the map leads to addresses on a heap. getWith is one step, get_with; entryFor,
--     evictIfFullLocked, InvalidateValidation and ResetValidationCache are entry_for, evict_if_full,
--     drop_prefix and reset. Key has the derivation of keys, Options the configuration, ActorExpiry
--     parseActorExpiry, Invalidation what drops entries, Events the histories, the other children
--     the proofs. The guard of InvalidateValidation is in Operations, as invalidate_validation. A
--     history is a list of events, each with its clock reading and with what the service would
--     answer; time.Parse and SHA-256 are parameters.
--   Gate: the Gate of authmw/authmw.go; a response is the next handler's run or a denial.
--   Jwks: jwks.go. `once` of an entry says that its mutex is held by a call in flight.
--   Transport: the loops of send and doRaw, wait, backoff, Retry-After. A World says whether a
--     request can be made, and what each attempt meets. The loops run on fuel for every retry and one
--     attempt more.
--   LocalVerify: VerifyAccessTokenLocal, in the order of its checks. SHA-256, the RSA check and the
--     JSON parsers are parameters; base64 is modelled. Numbers in JSON are exact, in billionths, where
--     the code rounds to a float64.
--   Operations: ValidateToken, ValidateTokenWith, ValidateAPIKey and Authorize of operations.go over the
--     cache; a panic is `none`. Answers adapts one kind of answer to another; Operations/Expiry is
--     unverifiedJWTExpiry of tokenfor.go.
--   TokenCache: the cache of tokenfor.go. List elements and flights are objects on heaps. cachedToken
--     gives up its mutex for the fetch, so it is two steps, enter and finish, with a wait for another
--     caller's flight between; TokenCache/Calls runs any number of goroutines through them in any
--     order. The loop that trims the list has fuel for every element.
--   TokenFor: TokenFor of tokenfor.go as a plan, the key and the fetch that it hands to cachedToken;
--     TokenFor/Scope is normalizeScope, Forms the posted forms, Answers the token endpoint's answers
--     and classifyTokenError.
--   Relations: typed ids and tuples of permissions.go, the bound store's questions and writes of
--     store.go, and the cleanup loops, the paged read and EnsureAuthorizationModel of authzmodel.go.
--     The service is a state with what each endpoint does to it. The loops run on fuel, a unit for
--     each round; two rounds are enough for either cleanup.
--   ForwardAuth: the decisions of forwardauth.go over the model of doRaw.
--   Cli: cmd/ab0t-auth/store.go, the profile names and the choice of a credential. Cli/Arguments and
--     Cli/Distance: hoistLeadingFlags, partitionArgs, editDistance and suggest of main.go there; what
--     the flag package registers is a parameter. Cli/Commands: can, why, grant and revoke of
--     commands.go, and the exit code of run. Cli/RevokeAll: revoke-all, on the fuel of the cleanup.
--   Endpoints: the client's methods that are one request each, a child for each file. A method is a
--     constructor with its arguments, and a function says what it hands to doJSON, doGet or doForm;
--     Calls puts them together, Routes says what a path means. url.PathEscape and Values.Encode are
--     parameters, a JSON body is the bytes that json.Marshal makes. Endpoints/Hierarchy: the hierarchy
--     of an organization and WalkOrgTree of orgs.go, whose callback acts on a state.
--     Endpoints/Documented: the HTTP method and the path that each method's doc comment names.
--
-- Not modelled: the decoding of the answers of single endpoints and the methods that look at an
-- argument or an answer besides, the other commands and the output of the command line tool, NewPKCE and
-- AuthorizationURL, input and output, and the interleaving of goroutines inside one call of the
-- validation cache. Spaces beyond ASCII are not treated as spaces.
pub mod Base
pub mod Json
pub mod Errors
pub mod Credential
pub mod Encoding
pub mod Configuration
pub mod Endpoints
pub mod Actor
pub mod TokenCache
pub mod TokenFor
pub mod Relations
pub mod ForwardAuth
pub mod Cli
pub mod ValidationCache
pub mod Gate
pub mod Jwks
pub mod Transport
pub mod LocalVerify
pub mod Operations
