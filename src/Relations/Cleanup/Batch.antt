-- ===== src/Relations/Cleanup/Batch.antt =====
-- The tuples that one round of a cleanup by object deletes, among those that the service holds.
use auth_sdk_go.Base.{
  ℕ, ◌+◌, ◌∙◌, sym, ◌⊎◌, inl, none, suc, ◌≡◌, refl, ap, Bool, true, false, not, ◌&&◌, List, [], ◌∷◌,
  map, arith, if◌then◌else◌, length, keep, All,
}
use auth_sdk_go.Base.Text.{Bytes, same, same_iff, same_refl}
use auth_sdk_go.Errors.{Err}
use auth_sdk_go.Relations.{Tuple, WriteResponse}
use auth_sdk_go.Relations.Cleanup.{RelationshipEntry, Deleted, delete_each, tuple_on}

unfoldable pub same_tuple : Tuple → Tuple → Bool
unfolding same
same_tuple t u = same t.object u.object && (same t.relation u.relation && same t.subject u.subject)

-- Is the tuple's object this one?
abbrev is_on : Bytes → Tuple → Bool
is_on object t = same t.object object

unfoldable pub has_tuple : Tuple → List Tuple → Bool
unfolding same_tuple
has_tuple u [] = false
has_tuple u (t ∷ ts) = if same_tuple t u then true else has_tuple u ts

abbrev pub entry_of : Tuple → RelationshipEntry
entry_of t = record { relation = t.relation; subject = t.subject }

-- The tuples of the object, and the others.
abbrev pub of_object : Bytes → List Tuple → List Tuple
of_object object = keep (is_on object)

abbrev pub of_others : Bytes → List Tuple → List Tuple
of_others object = keep (λ t. not (is_on object t))

-- The tuples that a round deletes.
abbrev pub batch : Bytes → List Tuple → List Tuple
batch object ts = map (tuple_on object) (map entry_of (of_object object ts))

pub keep_congr :
    (p q : Tuple → Bool) (ts : List Tuple) → All (λ t. p t ≡ q t) ts → keep p ts ≡ keep q ts
keep_congr p q [] h = refl
keep_congr p q (t ∷ ts) h = ground (arith, keep_congr p q ts h.1, h.0)

keep_ext :
    (p q : Tuple → Bool) (ts : List Tuple) → ((t : Tuple) → p t ≡ q t) → keep p ts ≡ keep q ts
keep_ext p q [] h = refl
keep_ext p q (t ∷ ts) h = ground (arith, keep_ext p q ts h, h t)

keep-true : (ts : List Tuple) → keep (λ t. true) ts ≡ ts
keep-true [] = refl
keep-true (t ∷ ts) = ap (λ us. t ∷ us) (keep-true ts)

keep-keep : (p q : Tuple → Bool) (ts : List Tuple) → keep p (keep q ts) ≡ keep (λ t. q t && p t) ts
keep-keep p q [] = refl
keep-keep p q (t ∷ ts) = ground (arith, keep-keep p q ts)

pub of_object-of_others :
    (object : Bytes) (ts : List Tuple) → of_object object (of_others object ts) ≡ []
of_object-of_others object [] = refl
of_object-of_others object (t ∷ ts) = ground (arith, of_object-of_others object ts)

pub length-mapped :
    (object : Bytes) (ts : List Tuple)
    → length (map (tuple_on object) (map entry_of ts)) ≡ length ts
length-mapped object [] = refl
length-mapped object (t ∷ ts) = ap suc (length-mapped object ts)

same_tuple_refl : (t : Tuple) → same_tuple t t ≡ true
unfolding same_tuple
same_tuple_refl t = rw (same_refl t.object, same_refl t.relation, same_refl t.subject) refl

-- Every tuple is in its list.
has_tuple-cons :
    (u : Tuple) (ts us : List Tuple)
    → All (λ t. has_tuple t ts ≡ true) us
    → All (λ t. has_tuple t (u ∷ ts) ≡ true) us
unfolding has_tuple
has_tuple-cons u ts [] h = tt
has_tuple-cons u ts (t ∷ us) h = (ground (arith, h.0), has_tuple-cons u ts us h.1)

pub has_tuple_self : (ts : List Tuple) → All (λ t. has_tuple t ts ≡ true) ts
unfolding has_tuple
has_tuple_self [] = tt
has_tuple_self (t ∷ ts) =
    (ground (arith, same_tuple_refl t), has_tuple-cons t ts ts (has_tuple_self ts))

-- The batch has the object's tuples and no others.
has_tuple-batch :
    (object : Bytes) (ts : List Tuple) (u : Tuple)
    → has_tuple u (batch object ts) ≡ (has_tuple u ts && is_on object u)
unfolding has_tuple same_tuple
has_tuple-batch object [] u = refl
has_tuple-batch object (t ∷ ts) u = ground (
  arith,
  same_iff t.object object,
  same_iff u.object object,
  same_iff t.object u.object,
  same_iff object u.object,
  has_tuple-batch object ts u,
)

not_in_batch :
    (object : Bytes) (ts us : List Tuple)
    → All (λ t. has_tuple t ts ≡ true) us
    → All (λ t. not (has_tuple t (batch object ts)) ≡ not (is_on object t)) us
not_in_batch object ts [] h = tt
not_in_batch object ts (u ∷ us) h =
    (ground (arith, has_tuple-batch object ts u, h.0), not_in_batch object ts us h.1)

pub without_batch :
    (object : Bytes) (ts : List Tuple)
    → keep (λ t. not (has_tuple t (batch object ts))) ts ≡ of_others object ts
without_batch object ts = keep_congr _ _ ts (not_in_batch object ts ts (has_tuple_self ts))

-- What is on the object is all there is to keep, once the others are gone.
pub of_others-none :
    (object : Bytes) (ts : List Tuple) → of_object object ts ≡ [] → of_others object ts ≡ ts
of_others-none object [] h = refl
of_others-none object (t ∷ ts) h = ground (arith, of_others-none object ts)

pub counted : {S : Type 0} (s : S) (m n : ℕ) → m ≡ n → ◌≡◌ {A = Deleted S} (s, m, none) (s, n, none)
counted s m n e = ap (λ (k : ℕ). (s, k, none)) e

module _ {S : Type 0} (held : S → List Tuple) (delete : Tuple → S → S × (WriteResponse ⊎ Err)) where
  -- A deletion succeeds, and takes the tuple away.
  abbrev pub DeletesOne : Type 0
  DeletesOne =
      (t : Tuple) (s : S)
      → ((res : WriteResponse) × ((delete t s).1 ≡ inl res) × (res.success ≡ true))
        × (held (delete t s).0 ≡ keep (λ u. not (same_tuple t u)) (held s))

module _ {S : Type 0} (held : S → List Tuple) (delete : Tuple → S → S × (WriteResponse ⊎ Err))
    (deletes_one : DeletesOne held delete) where
  pub delete_each_lem :
      (ts : List Tuple) (total : ℕ) (s : S)
      → (s' : S) × (delete_each delete ts total s ≡ (s', total + length ts, none))
        × (held s' ≡ keep (λ u. not (has_tuple u ts)) (held s))
  unfolding delete_each has_tuple
  delete_each_lem [] total s = (s, counted s total _ (omega arith), sym (keep-true (held s)))
  delete_each_lem (t ∷ ts) total s =
      let (answered, less) = deletes_one t s in
      let (s', done, left) = delete_each_lem ts (suc total) (delete t s).0 in
      (
        s',
        rw (answered.1, delete_each) (done ∙ counted s' _ _ (omega arith)),
        left
            ∙ ap (keep (λ u. not (has_tuple u ts))) less
            ∙ keep-keep (λ u. not (has_tuple u ts)) (λ u. not (same_tuple t u)) (held s)
            ∙ keep_ext (λ u. not (same_tuple t u) && not (has_tuple u ts))
                (λ u. not (has_tuple u (t ∷ ts))) (held s) (λ u. ground arith),
      )
