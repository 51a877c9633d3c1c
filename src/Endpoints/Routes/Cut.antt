-- ===== src/Endpoints/Routes/Cut.antt =====
-- A path that is sent, cut at its slashes, is the route that the method means.
use auth_sdk_go.Base.{
  ℕ, ◌≡◌, ◌≢◌, refl, ap, sym, ◌∙◌, Bool, true, false, not, ◌&&◌, List, [], ◌∷◌, ◌++◌, map, Option,
  some, arith, ◌==◌, All, Bool-cases, inl, inr,
}
use auth_sdk_go.Base.Text.{Bytes, is_empty}
use auth_sdk_go.Credential.{split}
use auth_sdk_go.Transport.{strip_query}
use auth_sdk_go.Endpoints.{Values, Piece, text, escaped, query, always_query, piece_text, path_text}
use auth_sdk_go.Endpoints.Routes.{
  Segment, fixed, argument, extend, tail, cut, route, at_slash, at_argument, fits, is_route, show,
  fixed_part, arguments,
}

-- Both sides of a conjunction hold.
and-true : (a b : Bool) → (a && b) ≡ true → (a ≡ true) × (b ≡ true)
and-true true b h = (refl, h)
and-true false b h = cc

abbrev HeadIsFixed : List Segment → Type 0
HeadIsFixed [] = ⊥
HeadIsFixed (fixed w ∷ ws) = Unit
HeadIsFixed (argument s ∷ ws) = ⊥

extend-HeadIsFixed : (c : ℕ) (ws : List Segment) → HeadIsFixed ws → HeadIsFixed (extend c ws)
unfolding extend
extend-HeadIsFixed c [] h = absurd h
extend-HeadIsFixed c (fixed w ∷ ws) h = ground arith
extend-HeadIsFixed c (argument s ∷ ws) h = absurd h

extend_slash : (c : ℕ) (ws : List Segment) → (c == b'/') ≡ true → extend c ws ≡ fixed [] ∷ ws
unfolding extend
extend_slash c ws h = rw h

cut-HeadIsFixed :
    (c : ℕ) (t : Bytes) (b : Bool) (ws : List Segment)
    → fits (c ∷ t) b ≡ true
    → (b ≡ false → HeadIsFixed ws)
    → HeadIsFixed (cut (c ∷ t) ws)
unfolding cut
cut-HeadIsFixed c [] true ws f h = rw (extend_slash c ws (ground arith)) tt
cut-HeadIsFixed c [] false ws f h = extend-HeadIsFixed c ws (h refl)
cut-HeadIsFixed c (d ∷ t) b ws f h =
    extend-HeadIsFixed c _ (cut-HeadIsFixed d t b ws (and-true (not (c == b'?')) _ f).1 h)

route-HeadIsFixed :
    (ps : List Piece) → is_route ps ≡ true → at_argument ps ≡ false → HeadIsFixed (route ps)
unfolding route is_route cut
route-HeadIsFixed [] r a = tt
route-HeadIsFixed (text [] ∷ ps) r a =
    let both = and-true (not (at_argument ps)) (is_route ps) r in
    route-HeadIsFixed ps both.1 (ground (arith, both.0))
route-HeadIsFixed (text (c ∷ t) ∷ ps) r a =
    let both = and-true (fits (c ∷ t) (at_argument ps)) (is_route ps) r in
    cut-HeadIsFixed c t (at_argument ps) (route ps) both.0 (route-HeadIsFixed ps both.1)
route-HeadIsFixed (escaped s ∷ ps) r a = absurd (cc)
route-HeadIsFixed (query q ∷ ps) r a = tt
route-HeadIsFixed (always_query q ∷ ps) r a = tt

route-at_slash : (ps : List Piece) → at_slash ps ≡ true → route ps ≡ fixed [] ∷ tail (route ps)
unfolding route cut
route-at_slash [] a = refl
route-at_slash (text [] ∷ ps) a = cc
route-at_slash (text (c ∷ t) ∷ ps) a = rw (extend_slash c (cut t (route ps)) a)
route-at_slash (escaped s ∷ ps) a = cc
route-at_slash (query q ∷ ps) a = refl
route-at_slash (always_query q ∷ ps) a = refl

abbrev pub NoQuery : Bytes → Type 0
NoQuery = All (λ c. c ≢ b'?')

abbrev pub NoSlash : Bytes → Type 0
NoSlash = All (λ c. c ≢ b'/')

fits-NoQuery : (t : Bytes) (b : Bool) → fits t b ≡ true → NoQuery t
fits-NoQuery [] b f = tt
fits-NoQuery (c ∷ []) b f = ground arith
fits-NoQuery (c ∷ d ∷ t) b f =
    let both = and-true (not (c == b'?')) (fits (d ∷ t) b) f in
    (ground (arith, both.0), fits-NoQuery (d ∷ t) b both.1)

strip_query-append : (t s : Bytes) → NoQuery t → strip_query (t ++ s) ≡ t ++ strip_query s
unfolding strip_query
strip_query-append [] s h = refl
strip_query-append (c ∷ t) s h = ground (arith, strip_query-append t s h.1)

split-word :
    (e s : Bytes) {ws : List Bytes}
    → NoSlash e
    → split b'/' s ≡ [] ∷ ws
    → split b'/' (e ++ s) ≡ e ∷ ws
unfolding split
split-word [] s h p = p
split-word (c ∷ e) s h p = rw (split-word e s h.1 p) (ground arith)

split-ne-nil : (s : Bytes) → split b'/' s ≢ []
unfolding split
split-ne-nil [] h = cc
split-ne-nil (c ∷ s) h = ground (arith, split-ne-nil s)

split_slash : (c : ℕ) (s : Bytes) → (c == b'/') ≡ true → split b'/' (c ∷ s) ≡ [] ∷ split b'/' s
unfolding split
split_slash c s h = ground (arith, split-ne-nil s)

module _ (path_escape : Bytes → Bytes) (encode : Values → Bytes) where
  split-extend :
      (c : ℕ) (s : Bytes) (ws : List Segment)
      → HeadIsFixed ws
      → split b'/' s ≡ map (show path_escape) ws
      → split b'/' (c ∷ s) ≡ map (show path_escape) (extend c ws)
  unfolding split extend
  split-extend c s [] h p = absurd h
  split-extend c s (fixed w ∷ ws) h p = rw p (ground arith)
  split-extend c s (argument w ∷ ws) h p = absurd h

  split-cut :
      (t : Bytes) (b : Bool) (s : Bytes) (ws : List Segment)
      → fits t b ≡ true
      → (b ≡ false → HeadIsFixed ws)
      → split b'/' s ≡ map (show path_escape) ws
      → split b'/' (t ++ s) ≡ map (show path_escape) (cut t ws)
  unfolding cut
  split-cut [] b s ws f h p = p
  split-cut (c ∷ []) true s ws f h p =
      split_slash c s (ground arith)
      ∙ ap (λ ps. [] ∷ ps) p
      ∙ ap (map (show path_escape)) (sym (extend_slash c ws (ground arith)))
  split-cut (c ∷ []) false s ws f h p = split-extend c s ws (h refl) p
  split-cut (c ∷ d ∷ t) b s ws f h p =
      let rest = (and-true (not (c == b'?')) (fits (d ∷ t) b) f).1 in
      split-extend c (d ∷ t ++ s) (cut (d ∷ t) ws) (cut-HeadIsFixed d t b ws rest h)
        (split-cut (d ∷ t) b s ws rest h p)

  module _ (escape_safe : (s : Bytes) → NoSlash (path_escape s) × NoQuery (path_escape s)) where
    -- The path of a request, cut at its slashes, is its route.
    pub split-path_text :
        (ps : List Piece)
        → is_route ps ≡ true
        → split b'/' (strip_query (path_text path_escape encode ps))
          ≡ map (show path_escape) (route ps)
    unfolding path_text piece_text is_route route split strip_query
    split-path_text [] r = refl
    split-path_text (text t ∷ ps) r =
        let both = and-true (fits t (at_argument ps)) (is_route ps) r in
        rw (strip_query-append t (path_text path_escape encode ps) (fits-NoQuery t _ both.0)) (
          split-cut t (at_argument ps) _ (route ps) both.0 (route-HeadIsFixed ps both.1)
            (split-path_text ps both.1))
    split-path_text (escaped s ∷ ps) r =
        let both = and-true (at_slash ps) (is_route ps) r in
        rw (strip_query-append (path_escape s) (path_text path_escape encode ps) (escape_safe s).1)
          (split-word (path_escape s) _ (escape_safe s).0
            (split-path_text ps both.1 ∙ ap (map (show path_escape)) (route-at_slash ps both.0)))
    split-path_text (query q ∷ []) r = elim (Bool-cases (is_empty (encode q))) [
      | inl e ↦ rw e
      | inr e ↦ rw e
    ]
    split-path_text (query q ∷ p ∷ ps) r = cc
    split-path_text (always_query q ∷ []) r = refl
    split-path_text (always_query q ∷ p ∷ ps) r = cc

module _ {path_escape : Bytes → Bytes} (unescape : Bytes → Option Bytes)
    (unescape_escape : (s : Bytes) → unescape (path_escape s) ≡ some s) where
  -- Routes of one form that are sent as the same segments have the same arguments.
  pub arguments_unique :
      (vs ws : List Segment)
      → map fixed_part vs ≡ map fixed_part ws
      → map (show path_escape) vs ≡ map (show path_escape) ws
      → arguments vs ≡ arguments ws
  arguments_unique [] [] f p = refl
  arguments_unique [] (w ∷ ws) f p = cc
  arguments_unique (v ∷ vs) [] f p = cc
  arguments_unique (fixed v ∷ vs) (fixed w ∷ ws) f p =
      arguments_unique vs ws (ground arith) (ground arith)
  arguments_unique (fixed v ∷ vs) (argument t ∷ ws) f p = ground arith
  arguments_unique (argument s ∷ vs) (fixed w ∷ ws) f p = ground arith
  arguments_unique (argument s ∷ vs) (argument t ∷ ws) f p =
      ground (arith, unescape_escape s, unescape_escape t, arguments_unique vs ws)
