-- ===== src/TokenFor/Scope/Words.antt =====
-- Fields that are joined by spaces are read back.
use auth_sdk_go.Base.{
  ℕ, ◌≡◌, refl, ap, ◌∙◌, true, false, not, List, [], ◌∷◌, ◌++◌, All, Bool-cases, inl, inr,
}
use auth_sdk_go.Base.Text.{Bytes, same, is_empty}
use auth_sdk_go.Base.Space.{is_space, fields, starts_field, extend_first}
use auth_sdk_go.TokenFor.Scope.{less, insert_sorted, sort_strings, dedup_from, dedup, join}

-- A byte string that is not empty and has no space.
abbrev pub IsWord : Bytes → Type 0
IsWord w = (is_empty w ≡ false) × All (λ c. is_space c ≡ false) w

abbrev space : Bytes
space = b' ' ∷ []

extend_first-IsWord :
    (c : ℕ) (ws : List Bytes) → is_space c ≡ false → All IsWord ws → All IsWord (extend_first c ws)
extend_first-IsWord c [] h k = ((refl, (h, tt)), tt)
extend_first-IsWord c (w ∷ ws) h k = ((refl, (h, k.0.1)), k.1)

pub fields-IsWord : (s : Bytes) → All IsWord (fields s)
unfolding fields
fields-IsWord [] = tt
fields-IsWord (c ∷ s) = elim (Bool-cases (is_space c)) [
  | inl b ↦ rw b (fields-IsWord s)
  | inr b ↦ elim (Bool-cases (starts_field s)) [
    | inl d ↦ rw (b, d) (extend_first-IsWord c (fields s) b (fields-IsWord s))
    | inr d ↦ rw (b, d) ((refl, (b, tt)), fields-IsWord s)
  ]
]

module _ (P : Bytes → Type 0) where
  insert_sorted-All : (w : Bytes) (vs : List Bytes) → P w → All P vs → All P (insert_sorted w vs)
  unfolding insert_sorted
  insert_sorted-All w [] h k = (h, tt)
  insert_sorted-All w (v ∷ vs) h k = elim (Bool-cases (less v w)) [
    | inl b ↦ rw b (k.0, insert_sorted-All w vs h k.1)
    | inr b ↦ rw b (h, k)
  ]

  sort-All : (ws : List Bytes) → All P ws → All P (sort_strings ws)
  unfolding sort_strings
  sort-All [] h = tt
  sort-All (w ∷ ws) h = insert_sorted-All w (sort_strings ws) h.0 (sort-All ws h.1)

  dedup_from-All : (w : Bytes) (vs : List Bytes) → All P vs → All P (dedup_from w vs)
  unfolding dedup_from
  dedup_from-All w [] h = tt
  dedup_from-All w (v ∷ vs) h = elim (Bool-cases (same v w)) [
    | inl b ↦ rw b (dedup_from-All w vs h.1)
    | inr b ↦ rw b (h.0, dedup_from-All v vs h.1)
  ]

  dedup-All : (ws : List Bytes) → All P ws → All P (dedup ws)
  unfolding dedup
  dedup-All [] h = tt
  dedup-All (w ∷ ws) h = (h.0, dedup_from-All w ws h.1)

  pub dedup_sort-All : (ws : List Bytes) → All P ws → All P (dedup (sort_strings ws))
  dedup_sort-All ws h = dedup-All (sort_strings ws) (sort-All ws h)

fields-cons :
    (c : ℕ) (s : Bytes)
    → is_space c ≡ false
    → starts_field s ≡ true
    → fields (c ∷ s) ≡ extend_first c (fields s)
unfolding fields
fields-cons c s h k = rw (h, k) refl

-- A word at the front of a text is its first field, if the text ends there or a space follows.
fields-word : (w : Bytes) → IsWord w → fields w ≡ w ∷ []
unfolding fields
fields-word [] h = cc (h.0)
fields-word (c ∷ []) h = rw (h.1.0) refl
fields-word (c ∷ d ∷ w) h =
    let rest = fields-word (d ∷ w) (refl, h.1.1) in
    fields-cons c (d ∷ w) h.1.0 (ap not h.1.1.0) ∙ ap (extend_first c) rest

fields-word-append : (w r : Bytes) → IsWord w → fields (w ++ (space ++ r)) ≡ w ∷ fields r
unfolding fields
fields-word-append [] r h = cc (h.0)
fields-word-append (c ∷ []) r h = rw (h.1.0) refl
fields-word-append (c ∷ d ∷ w) r h =
    let rest = fields-word-append (d ∷ w) r (refl, h.1.1) in
    fields-cons c (d ∷ (w ++ (space ++ r))) h.1.0 (ap not h.1.1.0) ∙ ap (extend_first c) rest

pub fields-join : (ws : List Bytes) → All IsWord ws → fields (join space ws) ≡ ws
unfolding join fields
fields-join [] h = refl
fields-join (w ∷ []) h = fields-word w h.0
fields-join (w ∷ v ∷ ws) h =
    fields-word-append w (join space (v ∷ ws)) h.0 ∙ ap (λ x. w ∷ x) (fields-join (v ∷ ws) h.1)
