-- ===== src/Relations/Cleanup/Subject.antt =====
-- readAllTuplesForSubject, which follows the continuation tokens.
pub mod Cleaned
use mathlib.Core.List.{append_assoc, append-nil}
use auth_sdk_go.Base.{
  ℕ, zero, suc, ◌≤◌, arith, ◌≡◌, sym, ap, ◌∙◌, Bool, false, ◌⊎◌, inl, List, [], ◌∷◌, ◌++◌, none,
  some, if◌then◌else◌, length,
}
use auth_sdk_go.Base.Text.{Bytes, is_empty}
use auth_sdk_go.Errors.{Err}
use auth_sdk_go.Relations.{Tuple}
use auth_sdk_go.Relations.Cleanup.{Page, after_page, read_all_for_subject}

-- All tuples of a list of pages.
unfoldable pub concat : List (List Tuple) → List Tuple
concat [] = []
concat (p ∷ ps) = p ++ concat ps

module _ {S : Type 0} (read : (subject cursor : Bytes) → S → S × (Page ⊎ Err)) (subject : Bytes)
    (s : S) where
  -- From this token on, the service has these pages.
  abbrev pub Pages : Bytes → List (List Tuple) → Type 0
  Pages cursor [] = ⊥
  Pages cursor (p ∷ []) = read subject cursor s ≡ (s, inl (p, []))
  Pages cursor (p ∷ q ∷ ps) =
      (next : Bytes) × (is_empty next ≡ false)
      × (read subject cursor s ≡ (s, inl (p, next)))
      × Pages next (q ∷ ps)

  read_all_from :
      (ps : List (List Tuple)) (fuel : ℕ) (cursor : Bytes) (all : List Tuple)
      → length ps ≤ fuel
      → Pages cursor ps
      → read_all_for_subject read fuel subject cursor all s ≡ some (s, all ++ concat ps, none)
  unfolding read_all_for_subject concat
  read_all_from [] fuel cursor all enough h = absurd h
  read_all_from (p ∷ ps) zero cursor all enough h = absurd (omega arith)
  read_all_from (p ∷ []) (suc fuel) cursor all enough h =
      ap (after_page (read_all_for_subject read fuel subject) all) h
      ∙ ap (λ (q : List Tuple). some (s, all ++ q, none)) (sym (append-nil p))
  read_all_from (p ∷ q ∷ ps) (suc fuel) cursor all enough h =
      let next = read_all_for_subject read fuel subject in
      ap (after_page next all) h.2
      ∙ ap (λ (b : Bool). if b then some (s, all ++ p, none) else next h.0 (all ++ p) s) h.1
      ∙ read_all_from (q ∷ ps) fuel h.0 (all ++ p) (omega arith) h.3
      ∙ ap (λ (us : List Tuple). some (s, us, none)) (append_assoc all p (concat (q ∷ ps)))

  -- Where the service hands the subject's tuples out in pages, each but the last with a token for the
  -- next, reading them all takes one request a page, and gives the tuples of all pages in order.
  pub read_all-concat :
      (ps : List (List Tuple)) (fuel : ℕ)
      → length ps ≤ fuel
      → Pages [] ps
      → read_all_for_subject read fuel subject [] [] s ≡ some (s, concat ps, none)
  read_all-concat ps fuel enough h = read_all_from ps fuel [] [] enough h
