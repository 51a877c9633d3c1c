-- ===== src/Cli/Distance/Suggestions.antt =====
-- suggest offers the closest command.
use auth_sdk_go.Base.{
  ℕ, ◌≡◌, refl, sym, subst, ◌∙◌, ◌⊎◌, inl, inr, ◌≤◌, ◌<◌, Bool-cases, List, [], ◌∷◌, some, arith,
  All, ltb, if◌then◌else◌,
}
use auth_sdk_go.Base.Text.{Bytes}
use auth_sdk_go.Cli.Distance.{edit_distance, closest, suggest}
use auth_sdk_go.Cli.Distance.Scripts.{Edits}
use auth_sdk_go.Cli.Distance.Rows.{edit_distance-least}

abbrev pub Among : Bytes → List Bytes → Type 0
Among r [] = ⊥
Among r (c ∷ cs) = (r ≡ c) ⊎ Among r cs

-- No script from the name to the command is shorter.
abbrev AtLeast : Bytes → ℕ → Bytes → Type 0
AtLeast name d c = (m : ℕ) → Edits name c m → d ≤ m

-- Where the result of the loop comes from.
abbrev Origin : (name best : Bytes) (bound : ℕ) → List Bytes → (result : Bytes) → ℕ → Type 0
Origin name best bound commands result d =
    ((d ≡ bound) × (result ≡ best)) ⊎ ((d < bound) × Edits name result d × Among result commands)

record IsClosest (name best : Bytes) (bound : ℕ) (commands : List Bytes) : Type 0 where
  result : Bytes
  d : ℕ
  found : closest name best bound commands ≡ some result
  within : d ≤ bound
  origin : Origin name best bound commands result d
  least : All (AtLeast name d) commands

AtLeast-le :
    (name : Bytes) (d : ℕ) (c : Bytes) (e : ℕ) → d ≤ e → AtLeast name e c → AtLeast name d c
AtLeast-le name d c e h a m s = omega (arith, a m s)

from_closer :
    (name best c : Bytes) (bound e : ℕ) (commands : List Bytes) (result : Bytes) (d : ℕ)
    → e < bound
    → Edits name c e
    → Origin name c e commands result d
    → Origin name best bound (c ∷ commands) result d
from_closer name best c bound e commands result d h s (inl (p, q)) =
    inr (
      omega (arith, p),
      subst (λ r. Edits name r d) (sym q) (subst (Edits name c) (sym p) s),
      inl q,
    )
from_closer name best c bound e commands result d h s (inr (less, t, a)) =
    inr (omega arith, t, inr a)

from_other :
    (name best c : Bytes) (bound : ℕ) (commands : List Bytes) (result : Bytes) (d : ℕ)
    → Origin name best bound commands result d
    → Origin name best bound (c ∷ commands) result d
from_other name best c bound commands result d (inl p) = inl p
from_other name best c bound commands result d (inr (less, t, a)) = inr (less, t, inr a)

closest_step :
    (name best c : Bytes) (bound e : ℕ) (commands : List Bytes)
    → edit_distance name c ≡ some e
    → closest name best bound (c ∷ commands)
      ≡ (if ltb e bound then closest name c e commands else closest name best bound commands)
unfolding closest
closest_step name best c bound e commands eq = ground (arith, eq)

closest_lem :
    (name best : Bytes) (bound : ℕ) (commands : List Bytes) → IsClosest name best bound commands
unfolding closest
closest_lem name best bound [] = record {
  result = best;
  d = bound;
  found = refl;
  within = omega arith;
  origin = inl (refl, refl);
  least = tt;
}
closest_lem name best bound (c ∷ commands) =
    let (e, eq, script, least) = edit_distance-least name c in
    let step = closest_step name best c bound e commands eq in
    elim (Bool-cases (ltb e bound)) [
      | inl closer ↦
          let ih = closest_lem name c e commands in
          record {
            result = ih.result;
            d = ih.d;
            found = step ∙ rw closer ih.found;
            within = ground (arith, ih.within);
            origin =
                from_closer name best c bound e commands ih.result ih.d (ground (arith, closer))
                  script ih.origin;
            least = (AtLeast-le name ih.d c e ih.within least, ih.least);
          }
      | inr other ↦
          let ih = closest_lem name best bound commands in
          record {
            result = ih.result;
            d = ih.d;
            found = step ∙ rw other ih.found;
            within = ih.within;
            origin = from_other name best c bound commands ih.result ih.d ih.origin;
            least = (AtLeast-le name ih.d c e (ground (arith, ih.within)) least, ih.least);
          }
    ]

from_Origin :
    (name : Bytes) (commands : List Bytes) (result : Bytes) (d : ℕ)
    → Origin name [] 3 commands result d
    → ((d ≡ 3) × (result ≡ [])) ⊎ ((d ≤ 2) × Edits name result d × Among result commands)
from_Origin name commands result d (inl p) = inl p
from_Origin name commands result d (inr (less, s, a)) = inr (omega arith, s, a)

-- suggest answers, whatever the name and the commands. There is a number such that no command can be
-- had from the name by fewer deletions, insertions and replacements of a byte; either it is at most
-- two and the answer is a command that is had by so many, or it is three and the answer is empty.
suggest-closest :
    (commands : List Bytes) (name : Bytes)
    → (result : Bytes) × (d : ℕ) × (suggest commands name ≡ some result)
      × (((d ≡ 3) × (result ≡ [])) ⊎ ((d ≤ 2) × Edits name result d × Among result commands))
      × All (AtLeast name d) commands
unfolding suggest
suggest-closest commands name =
    let c = closest_lem name [] 3 commands in
    (c.result, c.d, c.found, from_Origin name commands c.result c.d c.origin, c.least)
