-- ===== src/TokenFor/Scope/Order.antt =====
-- The order of strings, and what sorting and dropping repeats leave: an ascending list of the same
-- strings, which is the only one.
use auth_sdk_go.Base.{
  ◌≡◌, refl, sym, ap, subst, ◌∙◌, true, false, List, [], ◌∷◌, arith, All, Bool-cases, inl, inr,
}
use auth_sdk_go.Base.Text.{Bytes, same, same_iff, same_refl}
use auth_sdk_go.Actor.{contains_string}
use auth_sdk_go.TokenFor.Scope.{less, insert_sorted, sort_strings, dedup_from, dedup}

less_irrefl : (a : Bytes) → less a a ≡ false
unfolding less
less_irrefl [] = refl
less_irrefl (x ∷ xs) = ground (arith, less_irrefl xs)

less_trans : (a b c : Bytes) → less a b ≡ true → less b c ≡ true → less a c ≡ true
unfolding less
less_trans [] [] c h k = cc
less_trans [] (y ∷ ys) [] h k = cc
less_trans [] (y ∷ ys) (z ∷ zs) h k = refl
less_trans (x ∷ xs) [] c h k = cc
less_trans (x ∷ xs) (y ∷ ys) [] h k = cc
less_trans (x ∷ xs) (y ∷ ys) (z ∷ zs) h k = ground (arith, less_trans xs ys zs)

-- What is below `c` is below `b`, or `b` is below `c`.
less_cotrans : (a b c : Bytes) → less a c ≡ true → less a b ≡ false → less b c ≡ true
unfolding less
less_cotrans [] [] [] h k = h
less_cotrans (x ∷ xs) [] [] h k = cc
less_cotrans [] [] (z ∷ zs) h k = refl
less_cotrans (x ∷ xs) [] (z ∷ zs) h k = refl
less_cotrans [] (y ∷ ys) c h k = cc
less_cotrans (x ∷ xs) (y ∷ ys) [] h k = cc
less_cotrans (x ∷ xs) (y ∷ ys) (z ∷ zs) h k = ground (arith, less_cotrans xs ys zs)

less_total : (a b : Bytes) → less a b ≡ false → same a b ≡ false → less b a ≡ true
unfolding less same
less_total [] [] h k = cc
less_total [] (y ∷ ys) h k = cc
less_total (x ∷ xs) [] h k = refl
less_total (x ∷ xs) (y ∷ ys) h k = ground (arith, less_total xs ys)

-- Is everything in the list at least `w`? Above `w`?
abbrev From : Bytes → List Bytes → Type 0
From w = All (λ v. less v w ≡ false)

abbrev Above : Bytes → List Bytes → Type 0
Above w = All (λ v. less w v ≡ true)

abbrev IsSorted : List Bytes → Type 0
IsSorted [] = Unit
IsSorted (w ∷ ws) = From w ws × IsSorted ws

abbrev IsAscending : List Bytes → Type 0
IsAscending [] = Unit
IsAscending (w ∷ ws) = Above w ws × IsAscending ws

From-trans : (w v : Bytes) (vs : List Bytes) → less v w ≡ false → From v vs → From w vs
From-trans w v [] h k = tt
From-trans w v (u ∷ vs) h k = (ground (arith, less_cotrans u v w), From-trans w v vs h k.1)

Above-trans : (w v : Bytes) (vs : List Bytes) → less w v ≡ true → Above v vs → Above w vs
Above-trans w v [] h k = tt
Above-trans w v (u ∷ vs) h k = (less_trans w v u h k.0, Above-trans w v vs h k.1)

insert_sorted-From :
    (u w : Bytes) (vs : List Bytes) → less w u ≡ false → From u vs → From u (insert_sorted w vs)
unfolding insert_sorted
insert_sorted-From u w [] h k = (h, tt)
insert_sorted-From u w (v ∷ vs) h k = elim (Bool-cases (less v w)) [
  | inl b ↦ rw b (k.0, insert_sorted-From u w vs h k.1)
  | inr b ↦ rw b (h, k)
]

not_less_back : (v w : Bytes) → less v w ≡ true → less w v ≡ false
not_less_back v w h = ground (arith, less_trans v w v, less_irrefl v)

insert_sorted-IsSorted : (w : Bytes) (vs : List Bytes) → IsSorted vs → IsSorted (insert_sorted w vs)
unfolding insert_sorted
insert_sorted-IsSorted w [] h = (tt, tt)
insert_sorted-IsSorted w (v ∷ vs) h = elim (Bool-cases (less v w)) [
  | inl b ↦
      rw b (insert_sorted-From v w vs (not_less_back v w b) h.0, insert_sorted-IsSorted w vs h.1)
  | inr b ↦ rw b ((b, From-trans w v vs b h.0), h)
]

sort-IsSorted : (ws : List Bytes) → IsSorted (sort_strings ws)
unfolding sort_strings
sort-IsSorted [] = tt
sort-IsSorted (w ∷ ws) = insert_sorted-IsSorted w (sort_strings ws) (sort-IsSorted ws)

dedup_from-IsAscending :
    (w : Bytes) (vs : List Bytes)
    → From w vs
    → IsSorted vs
    → Above w (dedup_from w vs) × IsAscending (dedup_from w vs)
unfolding dedup_from
dedup_from-IsAscending w [] h k = (tt, tt)
dedup_from-IsAscending w (v ∷ vs) h k = elim (Bool-cases (same v w)) [
  | inl b ↦ rw b (dedup_from-IsAscending w vs h.1 k.1)
  | inr b ↦
      let rest = dedup_from-IsAscending v vs k.0 k.1 in
      let up = less_total v w h.0 b in
      rw b ((up, Above-trans w v (dedup_from v vs) up rest.0), rest)
]

dedup_sorted : (ws : List Bytes) → IsSorted ws → IsAscending (dedup ws)
unfolding dedup
dedup_sorted [] h = tt
dedup_sorted (w ∷ ws) h = dedup_from-IsAscending w ws h.0 h.1

pub dedup-IsAscending : (ws : List Bytes) → IsAscending (dedup (sort_strings ws))
unfolding dedup
dedup-IsAscending ws = dedup_sorted (sort_strings ws) (sort-IsSorted ws)

-- Sorting and dropping repeats keep the set of strings.
contains-insert_sorted :
    (w : Bytes) (vs : List Bytes) (u : Bytes)
    → contains_string (insert_sorted w vs) u ≡ contains_string (w ∷ vs) u
unfolding contains_string insert_sorted
contains-insert_sorted w [] u = refl
contains-insert_sorted w (v ∷ vs) u = ground (arith, contains-insert_sorted w vs u)

contains-sort :
    (ws : List Bytes) (u : Bytes) → contains_string (sort_strings ws) u ≡ contains_string ws u
unfolding contains_string sort_strings
contains-sort [] u = refl
contains-sort (w ∷ ws) u =
    ground (arith, contains-insert_sorted w (sort_strings ws) u, contains-sort ws u)

contains-dedup_from :
    (w : Bytes) (vs : List Bytes) (u : Bytes)
    → contains_string (w ∷ dedup_from w vs) u ≡ contains_string (w ∷ vs) u
unfolding contains_string dedup_from
contains-dedup_from w [] u = refl
contains-dedup_from w (v ∷ vs) u = ground (
  arith,
  same_iff v w,
  same_iff v u,
  same_iff w u,
  contains-dedup_from w vs u,
  contains-dedup_from v vs u,
)

contains-dedup_sorted :
    (ws : List Bytes) (u : Bytes) → contains_string (dedup ws) u ≡ contains_string ws u
unfolding dedup
contains-dedup_sorted [] u = refl
contains-dedup_sorted (w ∷ ws) u = contains-dedup_from w ws u

pub contains-dedup :
    (ws : List Bytes) (u : Bytes)
    → contains_string (dedup (sort_strings ws)) u ≡ contains_string ws u
contains-dedup ws u = contains-dedup_sorted (sort_strings ws) u ∙ contains-sort ws u

All_contains :
    (P : Bytes → Type 0) (ws : List Bytes) (u : Bytes)
    → All P ws
    → contains_string ws u ≡ true
    → P u
unfolding contains_string
All_contains P [] u h k = absurd (cc)
All_contains P (w ∷ ws) u h k = elim (Bool-cases (same w u)) [
  | inl b ↦ subst P ((same_iff w u).0 b) h.0
  | inr b ↦ All_contains P ws u h.1 (rw b at k)
]

absent : (w u : Bytes) (ws : List Bytes) → w ≡ u → Above w ws → contains_string ws u ≡ false
absent w u ws e h = elim (Bool-cases (contains_string ws u)) [
  | inl b ↦
      let below = All_contains (λ v. less w v ≡ true) ws u h b in
      absurd (ground (arith, e, below, less_irrefl u))
  | inr b ↦ b
]

-- Two ascending lists of the same strings begin alike.
same_heads :
    (w v : Bytes) (ws vs : List Bytes)
    → Above w ws
    → Above v vs
    → ((u : Bytes) → contains_string (w ∷ ws) u ≡ contains_string (v ∷ vs) u)
    → w ≡ v
unfolding contains_string
same_heads w v ws vs h k e = elim (Bool-cases (same w v)) [
  | inl b ↦ (same_iff w v).0 b
  | inr b ↦
      let other : same v w ≡ false = ground (arith, same_iff v w, same_iff w v) in
      let there : contains_string ws v ≡ true = ground (arith, e v, same_refl v) in
      let here : contains_string vs w ≡ true = ground (arith, e w, same_refl w) in
      let up = All_contains (λ u. less w u ≡ true) ws v h there in
      let down = All_contains (λ u. less v u ≡ true) vs w k here in
      absurd (ground (arith, less_trans w v w up down, less_irrefl w))
]

-- What an ascending list's head is not, the tail's set says by the whole's.
contains-tail :
    (w : Bytes) (ws vs : List Bytes)
    → Above w ws
    → Above w vs
    → ((u : Bytes) → contains_string (w ∷ ws) u ≡ contains_string (w ∷ vs) u)
    → (u : Bytes) → contains_string ws u ≡ contains_string vs u
unfolding contains_string
contains-tail w ws vs h k e u = elim (Bool-cases (same w u)) [
  | inl b ↦ let here = (same_iff w u).0 b in absent w u ws here h ∙ sym (absent w u vs here k)
  | inr b ↦ rw b at (e u)
]

pub ascending_unique :
    (ws vs : List Bytes)
    → IsAscending ws
    → IsAscending vs
    → ((u : Bytes) → contains_string ws u ≡ contains_string vs u)
    → ws ≡ vs
unfolding contains_string
ascending_unique [] [] h k e = refl
ascending_unique [] (v ∷ vs) h k e = absurd (ground (arith, e v, same_refl v))
ascending_unique (w ∷ ws) [] h k e = absurd (ground (arith, e w, same_refl w))
ascending_unique (w ∷ ws) (v ∷ vs) h k e =
    let heads = same_heads w v ws vs h.0 k.0 e in
    let k' = subst (λ x. Above x vs) (sym heads) k.0 in
    let e' =
      contains-tail w ws vs h.0 k' (λ u. e u ∙ ap (λ x. contains_string (x ∷ vs) u) (sym heads)) in
    ap (λ x. x ∷ ws) heads ∙ ap (λ xs. v ∷ xs) (ascending_unique ws vs h.1 k.1 e')
