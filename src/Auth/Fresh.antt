-- ===== src/Auth/Fresh.antt =====
-- What the token cache guarantees, and whom `IsRequiredSA` admits.
use mathlib.Core.Path.{subst}
use temenos.Base.{
  ℕ, ◌+◌, ◌≤◌, ◌≡◌, refl, ◌⊎◌, inl, inr, true, false, none, some, List, [], ◌∷◌, Bytes, bytes_eq,
  bytes_eq_iff, elem, All, arith, Result, ok, Bool-cases, Option-cases, Result-cases, sym, ap, ◌∙◌,
}
use temenos.Base.Assoc.{lookup, insert, delete}
use temenos.Auth.{
  AuthError, CacheEntry, TokenCache, is_over, drop_over, delete_expired, get, set, cached_validate,
  is_listed, is_required_sa, store,
}

is_listed-eq-elem : (u : Bytes) (sas : List Bytes) → is_listed u sas ≡ elem u sas
unfolding is_listed elem
is_listed-eq-elem u [] = refl
is_listed-eq-elem u (sa ∷ sas) =
    ground (arith, is_listed-eq-elem u sas, bytes_eq_iff u sa, bytes_eq_iff sa u)

module _ (review : ℕ → Bytes → Result AuthError Bytes) (ttl : ℕ) where
  -- The entry was confirmed by the review, and expires one ttl after that.
  abbrev pub IsConfirmed : Bytes × CacheEntry → Type 0
  IsConfirmed e = (t : ℕ) × (review t e.0 ≡ ok e.1.username) × (e.1.expires_at ≡ t + ttl)

  pub record IsHonest (c : TokenCache) : Type 0 where
    pub lifetime : c.ttl ≡ ttl
    pub confirmed : All IsConfirmed c.entries

  All-delete :
      (token : Bytes) (es : List (Bytes × CacheEntry))
      → All IsConfirmed es
      → All IsConfirmed (delete token es)
  unfolding delete
  All-delete token [] h = tt
  All-delete token ((j, e) ∷ es) (p, h) = elim (Bool-cases (bytes_eq j token)) [
    | inl same ↦ rw same (All-delete token es h)
    | inr other ↦ rw other (p, All-delete token es h)
  ]

  drop_over-All :
      (now : ℕ) (es : List (Bytes × CacheEntry))
      → All IsConfirmed es
      → All IsConfirmed (drop_over now es)
  unfolding drop_over
  drop_over-All now [] h = tt
  drop_over-All now ((j, e) ∷ es) (p, h) = elim (Bool-cases (is_over now e)) [
    | inl over ↦ rw over (drop_over-All now es h)
    | inr live ↦ rw live (p, drop_over-All now es h)
  ]

  lookup-IsConfirmed :
      (token : Bytes) (e : CacheEntry) (es : List (Bytes × CacheEntry))
      → All IsConfirmed es
      → lookup token es ≡ some e
      → IsConfirmed (token, e)
  unfolding lookup
  lookup-IsConfirmed token e [] h k = cc
  lookup-IsConfirmed token e ((j, d) ∷ es) (p, h) k = elim (Bool-cases (bytes_eq j token)) [
    | inl same ↦
        let (t, said, end) = p in
        let name : j ≡ token = (bytes_eq_iff j token).0 same in
        let entry : d ≡ e = ground arith in (t, cc, cc)
    | inr other ↦ lookup-IsConfirmed token e es h (rw (other, lookup) at k)
  ]

  -- A user name with its ground: the review gave it just now, or at most one ttl ago.
  abbrev pub IsFresh : ℕ → ℕ → Bytes → Bytes → Type 0
  IsFresh asked answered token username =
      (t : ℕ) × (review t token ≡ ok username) × ((t ≡ answered) ⊎ (asked ≤ t + ttl))

  store-IsHonest :
      (answered : ℕ) (token u : Bytes) (c : TokenCache)
      → IsHonest c
      → review answered token ≡ ok u
      → IsHonest (set answered token u c)
  unfolding set insert
  store-IsHonest answered token u c h said = record {
    lifetime = h.lifetime;
    confirmed = (
      (answered, said, ap (λ n. answered + n) h.lifetime),
      All-delete token c.entries h.confirmed,
    );
  }

  -- The three ways through the cached validator.
  module _ (asked answered : ℕ) (token : Bytes) (c : TokenCache) where
    cached_validate-absent :
        lookup token c.entries ≡ none
        → cached_validate review asked answered token c
          ≡ store answered token (review answered token) c
    unfolding cached_validate get
    cached_validate-absent h = ground arith

    cached_validate-over :
        (e : CacheEntry)
        → lookup token c.entries ≡ some e
        → is_over asked e ≡ true
        → cached_validate review asked answered token c
          ≡ store answered token
              (review answered token)
              (record c { entries = delete token c.entries })
    unfolding cached_validate get
    cached_validate-over e h k = ground arith

    cached_validate-live :
        (e : CacheEntry)
        → lookup token c.entries ≡ some e
        → is_over asked e ≡ false
        → cached_validate review asked answered token c ≡ (c, ok e.username)
    unfolding cached_validate get
    cached_validate-live e h k = ground arith

  -- The cache is honest after the call, and the name returned, if there is one, is fresh.
  abbrev pub Answers : ℕ → ℕ → Bytes → TokenCache × Result AuthError Bytes → Type 0
  Answers asked answered token r =
      IsHonest r.0 × ((u : Bytes) → r.1 ≡ ok u → IsFresh asked answered token u)

  store-Answers :
      (asked answered : ℕ) (token : Bytes) (c : TokenCache)
      → IsHonest c
      → Answers asked answered token (store answered token (review answered token) c)
  unfolding store set
  store-Answers asked answered token c h = elim (Result-cases (review answered token)) [
    | inl (u, said) ↦
        rw said
          (store-IsHonest answered token u c h said, λ v same. (answered, said ∙ same, inl refl))
    | inr (e, refused) ↦ rw refused (h, λ v same. cc)
  ]

  pub cached_validate-Answers :
      (asked answered : ℕ) (token : Bytes) (c : TokenCache)
      → IsHonest c
      → Answers asked answered token (cached_validate review asked answered token c)
  cached_validate-Answers asked answered token c h = elim (Option-cases (lookup token c.entries)) [
    | inl absent ↦
        subst (Answers asked answered token)
          (sym (cached_validate-absent asked answered token c absent))
          (store-Answers asked answered token c h)
    | inr (e, found) ↦ elim (Bool-cases (is_over asked e)) [
      | inl over ↦
          subst (Answers asked answered token)
            (sym (cached_validate-over asked answered token c e found over))
            (store-Answers asked answered token (record c { entries = delete token c.entries })
              (record {
                lifetime = h.lifetime;
                confirmed = All-delete token c.entries h.confirmed;
              }))
      | inr live ↦
          let (t, said, end) = lookup-IsConfirmed token e c.entries h.confirmed found in
          subst (Answers asked answered token)
            (sym (cached_validate-live asked answered token c e found live))
            (h, λ u same. (t, ground arith, inr (ground arith)))
    ]
  ]

  -- Every name that the cached validator returns was given by the review for this token, just now or
  -- at most one ttl before the cache was asked, if that is so of what is in the cache.
  pub cached_validate-IsFresh :
      (asked answered : ℕ) (token u : Bytes) (c : TokenCache)
      → IsHonest c
      → (cached_validate review asked answered token c).1 ≡ ok u
      → IsFresh asked answered token u
  cached_validate-IsFresh asked answered token u c h =
      (cached_validate-Answers asked answered token c h).1 u

  -- What is in the cache after a validation are names that the review gave, with the end of their
  -- time, if that was so before.
  pub cached_validate-IsHonest :
      (asked answered : ℕ) (token : Bytes) (c : TokenCache)
      → IsHonest c
      → IsHonest (cached_validate review asked answered token c).0
  cached_validate-IsHonest asked answered token c h =
      (cached_validate-Answers asked answered token c h).0

  -- The sweep keeps only entries that are not over, and all of them are confirmed still.
  pub delete_expired-IsHonest :
      (now : ℕ) (c : TokenCache)
      → IsHonest c
      → IsHonest (delete_expired now c)
        × All (λ e. now ≤ e.1.expires_at) (delete_expired now c).entries
  unfolding delete_expired
  delete_expired-IsHonest now c h = (
    record { lifetime = h.lifetime; confirmed = drop_over-All now c.entries h.confirmed },
    live c.entries,
  )
    where
      live : (es : List (Bytes × CacheEntry)) → All (λ e. now ≤ e.1.expires_at) (drop_over now es)
      live [] = unfold drop_over in tt
      live ((j, e) ∷ es) = unfold drop_over in ground (arith, live es)

-- `IsRequiredSA` admits exactly the names on a list that is not empty.
pub is_required_sa-eq-elem :
    (u sa : Bytes) (sas : List Bytes) → is_required_sa u (sa ∷ sas) ≡ elem u (sa ∷ sas)
unfolding is_required_sa
is_required_sa-eq-elem u sa sas = is_listed-eq-elem u (sa ∷ sas)
