-- ===== src/TokenFor/Scope/Sets.antt =====
-- A scope is an unordered set of words: normalizeScope picks one text for each set.
use auth_sdk_go.Base.{
  ◌≡◌, ◌↔◌, refl, sym, ap, ◌∙◌, List, [], ◌∷◌, arith, leb, length, if◌then◌else◌,
}
use auth_sdk_go.Base.Text.{Bytes}
use auth_sdk_go.Base.Space.{fields}
use auth_sdk_go.Actor.{contains_string}
use auth_sdk_go.TokenFor.Scope.{
  sort_strings, dedup_from, dedup, join, insert_sorted, normalize_scope,
}
use auth_sdk_go.TokenFor.Scope.Order.{dedup-IsAscending, contains-dedup, ascending_unique}
use auth_sdk_go.TokenFor.Scope.Words.{IsWord, fields-IsWord, dedup_sort-All, fields-join}

abbrev words : Bytes → List Bytes
words s = dedup (sort_strings (fields s))

-- The short cut for one field or none changes nothing.
short_cut :
    (ws : List Bytes)
    → (if leb (length ws) 1 then join [] ws else join (b' ' ∷ []) (dedup (sort_strings ws)))
      ≡ join (b' ' ∷ []) (dedup (sort_strings ws))
unfolding join dedup sort_strings insert_sorted dedup_from
short_cut [] = refl
short_cut (w ∷ []) = refl
short_cut (w ∷ v ∷ ws) = ground arith

normalize_scope-words : (s : Bytes) → normalize_scope s ≡ join (b' ' ∷ []) (words s)
unfolding normalize_scope
normalize_scope-words s = short_cut (fields s)

-- What is normalized has exactly the words of the scope, each once and in order.
fields-normalize_scope : (s : Bytes) → fields (normalize_scope s) ≡ words s
fields-normalize_scope s =
    ap fields (normalize_scope-words s)
    ∙ fields-join (words s) (dedup_sort-All IsWord (fields s) (fields-IsWord s))

-- Two scopes are normalized to the same text exactly if they have the same words, in any order and
-- any number.
pub normalize_scope_iff :
    (s t : Bytes)
    → (normalize_scope s ≡ normalize_scope t)
      ↔ ((w : Bytes) → contains_string (fields s) w ≡ contains_string (fields t) w)
normalize_scope_iff s t = (
  λ e w.
      let same = sym (fields-normalize_scope s) ∙ ap fields e ∙ fields-normalize_scope t in
      sym (contains-dedup (fields s) w)
      ∙ ap (λ ws. contains_string ws w) same
      ∙ contains-dedup (fields t) w,
  λ h.
      let same =
        ascending_unique (words s) (words t) (dedup-IsAscending (fields s))
          (dedup-IsAscending (fields t))
          (λ w. contains-dedup (fields s) w ∙ h w ∙ sym (contains-dedup (fields t) w)) in
      normalize_scope-words s ∙ ap (join (b' ' ∷ [])) same ∙ sym (normalize_scope-words t),
)

-- Normalizing twice is normalizing once.
normalize_scope_idem : (s : Bytes) → normalize_scope (normalize_scope s) ≡ normalize_scope s
normalize_scope_idem s =
    (normalize_scope_iff (normalize_scope s) s).1 (λ w.
      ap (λ ws. contains_string ws w) (fields-normalize_scope s) ∙ contains-dedup (fields s) w)
