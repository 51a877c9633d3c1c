-- ===== src/Relations/Cleanup/Subject/Cleaned.antt =====
-- DeleteAllRelationshipsForSubject against a service that does what it documents and that nobody else
-- writes to meanwhile: reading hands out all tuples of the subject in pages, and deleting a tuple,
-- there or not, succeeds and takes it away.
use auth_sdk_go.Base.{
  ℕ, suc, ◌≤◌, ◌≡◌, refl, sym, ap, ◌∙◌, Bool, true, not, ◌&&◌, ◌⊎◌, List, [], ◌∷◌, none, some,
  arith, length, keep, All,
}
use auth_sdk_go.Base.Text.{Bytes, same, same_iff}
use auth_sdk_go.Errors.{Err}
use auth_sdk_go.Relations.{typed_id, Tuple, WriteResponse}
use auth_sdk_go.Relations.Cleanup.{Page, drain, after_batch, after_read, delete_all_for_subject}
use auth_sdk_go.Relations.Cleanup.Batch.{
  same_tuple, has_tuple, has_tuple_self, keep_congr, DeletesOne, delete_each_lem, counted,
}
use auth_sdk_go.Relations.Cleanup.Subject.{concat, Pages, read_all-concat}

-- Is the tuple's subject this one?
abbrev is_by : Bytes → Tuple → Bool
is_by subject t = same t.subject subject

-- The tuples of the subject, and the others.
abbrev pub of_subject : Bytes → List Tuple → List Tuple
of_subject subject = keep (is_by subject)

abbrev pub of_other_subjects : Bytes → List Tuple → List Tuple
of_other_subjects subject = keep (λ t. not (is_by subject t))

of_subject-of_other_subjects :
    (subject : Bytes) (ts : List Tuple) → of_subject subject (of_other_subjects subject ts) ≡ []
of_subject-of_other_subjects subject [] = refl
of_subject-of_other_subjects subject (t ∷ ts) =
    ground (arith, of_subject-of_other_subjects subject ts)

of_other_subjects-none :
    (subject : Bytes) (ts : List Tuple)
    → of_subject subject ts ≡ []
    → of_other_subjects subject ts ≡ ts
of_other_subjects-none subject [] h = refl
of_other_subjects-none subject (t ∷ ts) h = ground (arith, of_other_subjects-none subject ts)

has_tuple-of_subject :
    (subject : Bytes) (ts : List Tuple) (u : Tuple)
    → has_tuple u (of_subject subject ts) ≡ (has_tuple u ts && is_by subject u)
unfolding has_tuple same_tuple
has_tuple-of_subject subject [] u = refl
has_tuple-of_subject subject (t ∷ ts) u = ground (
  arith,
  same_iff t.subject subject,
  same_iff u.subject subject,
  same_iff t.subject u.subject,
  has_tuple-of_subject subject ts u,
)

not-of_subject :
    (subject : Bytes) (ts us : List Tuple)
    → All (λ t. has_tuple t ts ≡ true) us
    → All (λ t. not (has_tuple t (of_subject subject ts)) ≡ not (is_by subject t)) us
not-of_subject subject ts [] h = tt
not-of_subject subject ts (u ∷ us) h =
    (ground (arith, has_tuple-of_subject subject ts u, h.0), not-of_subject subject ts us h.1)

without_subject :
    (subject : Bytes) (ts : List Tuple)
    → keep (λ t. not (has_tuple t (of_subject subject ts))) ts ≡ of_other_subjects subject ts
without_subject subject ts = keep_congr _ _ ts (not-of_subject subject ts ts (has_tuple_self ts))

module _ {S : Type 0} (held : S → List Tuple)
    (read : (subject cursor : Bytes) → S → S × (Page ⊎ Err)) (pages : ℕ) where
  -- Reading hands out all tuples of the subject, in `pages` pages at most, and changes nothing.
  abbrev pub ReadsAll : Type 0
  ReadsAll =
      (subject : Bytes) (s : S)
      → (ps : List (List Tuple)) × (length ps ≤ pages)
        × Pages read subject s [] ps
        × (concat ps ≡ of_subject subject (held s))

module _ {S : Type 0} (held : S → List Tuple)
    (read : (subject cursor : Bytes) → S → S × (Page ⊎ Err))
    (delete : Tuple → S → S × (WriteResponse ⊎ Err)) (pages : ℕ)
    (reads_all : ReadsAll held read pages) (deletes_one : DeletesOne held delete) where
  -- A round goes on with what the service holds of the subject.
  round_lem :
      (fuel : ℕ) (subject_type subject_id : Bytes) (total : ℕ) (s : S) (ts : List Tuple)
      → of_subject (typed_id subject_type subject_id) (held s) ≡ ts
      → delete_all_for_subject read delete (suc fuel) pages subject_type subject_id total s
        ≡ drain delete
            (delete_all_for_subject read delete fuel pages subject_type subject_id)
            ts
            total
            s
  unfolding delete_all_for_subject
  round_lem fuel subject_type subject_id total s ts h =
      let (ps, enough, handed, all) = reads_all (typed_id subject_type subject_id) s in
      ap
        (after_read read delete
          (delete_all_for_subject read delete fuel pages subject_type subject_id) total)
        (read_all-concat read (typed_id subject_type subject_id) s ps pages enough handed
          ∙ ap (λ (us : List Tuple). some (s, us, none)) (all ∙ h))

  cleans_from :
      (fuel : ℕ) (subject_type subject_id : Bytes) (s : S) (ts : List Tuple)
      → of_subject (typed_id subject_type subject_id) (held s) ≡ ts
      → (s' : S) × (delete_all_for_subject read delete
            (suc (suc fuel))
            pages
            subject_type
            subject_id
            0
            s
          ≡ some (s', length (of_subject (typed_id subject_type subject_id) (held s)), none))
        × (held s' ≡ of_other_subjects (typed_id subject_type subject_id) (held s))
  unfolding drain
  cleans_from fuel subject_type subject_id s [] h = (
    s,
    round_lem (suc fuel) subject_type subject_id 0 s [] h
        ∙ ap some (counted s _ _ (sym (ap length h))),
    sym (of_other_subjects-none (typed_id subject_type subject_id) (held s) h),
  )
  cleans_from fuel subject_type subject_id s (t ∷ ts) h =
      let subject = typed_id subject_type subject_id in
      let next = delete_all_for_subject read delete (suc fuel) pages subject_type subject_id in
      let (s', done, left) = delete_each_lem held delete deletes_one (t ∷ ts) 0 s in
      let others : held s' ≡ of_other_subjects subject (held s) =
        left
        ∙ ap (λ us. keep (λ u. not (has_tuple u us)) (held s)) (sym h)
        ∙ without_subject subject (held s) in
      let gone = ap (of_subject subject) others ∙ of_subject-of_other_subjects subject (held s) in
      (
        s',
        round_lem (suc fuel) subject_type subject_id 0 s (t ∷ ts) h
            ∙ ap (after_batch next) done
            ∙ round_lem fuel subject_type subject_id _ s' [] gone
            ∙ ap some (counted s' _ _ (omega (arith, ap length h))),
        others,
      )

  -- Against a service that hands out all tuples of a subject, in some number of pages at most, and
  -- that deletes what it is asked to, DeleteAllRelationshipsForSubject returns with no error within two
  -- rounds of that many pages, with the number of tuples that the subject had; no tuple of the subject
  -- is left, and every other tuple is.
  pub delete_all_for_subject_cleans :
      (fuel : ℕ) (subject_type subject_id : Bytes) (s : S)
      → let subject = typed_id subject_type subject_id in
        (s' : S) × (delete_all_for_subject read delete
            (suc (suc fuel))
            pages
            subject_type
            subject_id
            0
            s
          ≡ some (s', length (of_subject subject (held s)), none))
        × (held s' ≡ of_other_subjects subject (held s))
  delete_all_for_subject_cleans fuel subject_type subject_id s =
      cleans_from fuel subject_type subject_id s
        (of_subject (typed_id subject_type subject_id) (held s)) refl
