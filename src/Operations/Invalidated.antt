-- ===== src/Operations/Invalidated.antt =====
-- InvalidateValidation of the client (validationcache.go), for every credential.
use auth_sdk_go.Base.{
  ℕ, ◌≡◌, refl, sym, ap, ◌∙◌, inl, inr, Option-cases, Bool, true, false, not, ◌&&◌, List, Option,
  none, some, if◌then◌else◌,
}
use auth_sdk_go.Base.Text.{Bytes, same, is_empty}
use auth_sdk_go.Base.Assoc.{lookup}
use auth_sdk_go.ValidationCache.{Cache}
use auth_sdk_go.ValidationCache.Key.{validation_key, IsDigest, lookup-invalidated}
use auth_sdk_go.Operations.{Client, invalidate_validation}

-- The address of the decision that the client has cached for a key.
abbrev pub cached_at : Bytes → Client → Option ℕ
cached_at key c = elim c.vcache [ none ↦ none | some v ↦ lookup key v.entries ]

none_either : (b : Bool) (o : Option ℕ) → o ≡ none → o ≡ (if b then none else o)
none_either true o e = e
none_either false o e = refl

cached_some :
    (c : Client) (v : Cache) (key : Bytes)
    → c.vcache ≡ some v
    → cached_at key c ≡ lookup key v.entries
cached_some c v key k = rw k refl

invalidated_cache :
    (digest : Bytes → Bytes) (is_digest : IsDigest digest) (kind cred cred' audience : Bytes)
    (perms : List Bytes) (inc : Bool) (c : Client) (v : Cache) (empty : Bool)
    → is_empty cred ≡ empty
    → c.vcache ≡ some v
    → let key = validation_key digest kind cred' audience perms inc in
      cached_at key (invalidate_validation digest cred c)
      ≡ (if not empty && same cred' cred then none else lookup key v.entries)
unfolding invalidate_validation
invalidated_cache digest is_digest kind cred cred' audience perms inc c v true e k = rw (k, e) refl
invalidated_cache digest is_digest kind cred cred' audience perms inc c v false e k =
    rw (k, e) (lookup-invalidated digest is_digest kind cred cred' audience perms inc v.entries)

-- Under a digest without collisions whose text has no separator, InvalidateValidation of a
-- credential that is not empty drops every decision about it, under whatever question it was
-- cached, and keeps every decision about any other credential. For an empty credential it keeps
-- every decision, those about the empty credential too.
pub invalidate_validation-cached_at :
    (digest : Bytes → Bytes) (is_digest : IsDigest digest) (kind cred cred' audience : Bytes)
    (perms : List Bytes) (inc : Bool) (c : Client)
    → let key = validation_key digest kind cred' audience perms inc in
      cached_at key (invalidate_validation digest cred c)
      ≡ (if not (is_empty cred) && same cred' cred then none else cached_at key c)
unfolding invalidate_validation
invalidate_validation-cached_at digest is_digest kind cred cred' audience perms inc c =
    elim (Option-cases c.vcache) [
      | inl k ↦ rw k (none_either _ none refl)
      | inr (v, k) ↦
          invalidated_cache digest is_digest kind cred cred' audience perms inc c v (is_empty cred)
            refl k
          ∙ ap (λ o. if not (is_empty cred) && same cred' cred then none else o)
              (sym (cached_some c v _ k))
    ]
