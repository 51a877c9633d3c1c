-- ===== src/Endpoints/Routes.antt =====
-- What the path of a request means: its segments, of which some are arguments of the method, and
-- the way in which the client's methods put the pieces of a path together.
pub mod Cut
use auth_sdk_go.Base.{
  ℕ, ◌≡◌, ◌≢◌, refl, ap, sym, ◌∙◌, Bool, true, false, not, ◌&&◌, ◌||◌, List, [], ◌∷◌, ◌++◌, map,
  Option, some, none, arith, ◌==◌, if◌then◌else◌, All, Bool-cases, inl, inr,
}
use auth_sdk_go.Base.Text.{Bytes, bytes, is_empty}
use auth_sdk_go.Credential.{split}
use auth_sdk_go.Transport.{strip_query}
use auth_sdk_go.Endpoints.{Values, Piece, text, escaped, query, always_query, piece_text, path_text}

-- A segment of a path: fixed text, or an argument of the method.
pub data Segment : Type 0 where
  fixed argument : Bytes → Segment

abbrev pub push : ℕ → List Segment → List Segment
push c [] = []
push c (fixed w ∷ ws) = fixed (c ∷ w) ∷ ws
push c (argument s ∷ ws) = argument s ∷ ws

-- A byte before the segments.
unfoldable pub extend : ℕ → List Segment → List Segment
extend c ws = if c == b'/' then fixed [] ∷ ws else push c ws

abbrev pub tail : List Segment → List Segment
tail [] = []
tail (w ∷ ws) = ws

-- The segments of a literal, before those of the rest.
unfoldable pub cut : Bytes → List Segment → List Segment
unfolding extend
cut [] ws = ws
cut (c ∷ t) ws = extend c (cut t ws)

-- The route: the segments that the method means, with its arguments whole, up to the query.
unfoldable pub route : List Piece → List Segment
unfolding cut
route [] = fixed [] ∷ []
route (text t ∷ ps) = cut t (route ps)
route (escaped s ∷ ps) = argument s ∷ tail (route ps)
route (query q ∷ ps) = fixed [] ∷ []
route (always_query q ∷ ps) = fixed [] ∷ []

-- Does a slash, the query or the end of the path come next?
abbrev pub at_slash : List Piece → Bool
at_slash [] = true
at_slash (text (c ∷ t) ∷ ps) = c == b'/'
at_slash (text [] ∷ ps) = false
at_slash (escaped s ∷ ps) = false
at_slash (query q ∷ ps) = true
at_slash (always_query q ∷ ps) = true

-- Does an argument come next?
abbrev pub at_argument : List Piece → Bool
at_argument [] = false
at_argument (text t ∷ ps) = false
at_argument (escaped s ∷ ps) = true
at_argument (query q ∷ ps) = false
at_argument (always_query q ∷ ps) = false

-- A literal without a query, with a slash at its end where an argument comes next.
abbrev pub fits : Bytes → Bool → Bool
fits [] argument_next = not argument_next
fits (c ∷ []) argument_next = not (c == b'?') && (not argument_next || c == b'/')
fits (c ∷ d ∷ t) argument_next = not (c == b'?') && fits (d ∷ t) argument_next

-- Is every argument a segment of its own, as the pieces are put together?
unfoldable pub is_route : List Piece → Bool
is_route [] = true
is_route (text t ∷ ps) = fits t (at_argument ps) && is_route ps
is_route (escaped s ∷ ps) = at_slash ps && is_route ps
is_route (query q ∷ []) = true
is_route (query q ∷ p ∷ ps) = false
is_route (always_query q ∷ []) = true
is_route (always_query q ∷ p ∷ ps) = false

-- The argument is escaped, a literal is sent as it is.
abbrev pub show : (path_escape : Bytes → Bytes) → Segment → Bytes
show path_escape (fixed w) = w
show path_escape (argument s) = path_escape s

abbrev pub fixed_part : Segment → Option Bytes
fixed_part (fixed w) = some w
fixed_part (argument s) = none

abbrev pub arguments : List Segment → List Bytes
arguments [] = []
arguments (fixed w ∷ ws) = arguments ws
arguments (argument s ∷ ws) = s ∷ arguments ws
