-- ===== src/Auth/Uses.antt =====
-- internal/auth/auth_cache.go: the cache over its life, with requests and the sweep in any order.
use temenos.Base.{ℕ, ◌≡◌, refl, List, [], ◌∷◌, Bytes, Result, ok}
use temenos.Auth.{
  AuthError, TokenCache, Wake, tick, closed, sweep, new_token_cache, cached_validate,
  delete_expired,
}
use temenos.Auth.Fresh.{
  IsHonest, IsFresh, cached_validate-IsFresh, cached_validate-IsHonest, delete_expired-IsHonest,
}

-- What happens to the cache: a validation, with the times of its look and its write, or the sweep as
-- far as it gets.
pub data Use : Type 0 where
  validation : ℕ → ℕ → Bytes → Use
  sweeping : List Wake → Use

module _ (review : ℕ → Bytes → Result AuthError Bytes) where
  abbrev pub used : Use → TokenCache → TokenCache
  used (validation asked answered token) c = (cached_validate review asked answered token c).0
  used (sweeping wakes) c = (sweep wakes c).0

  abbrev pub uses : List Use → TokenCache → TokenCache
  uses [] c = c
  uses (u ∷ us) c = uses us (used u c)

  module _ (ttl : ℕ) where
    sweep-IsHonest :
        (wakes : List Wake) (c : TokenCache)
        → IsHonest review ttl c
        → IsHonest review ttl (sweep wakes c).0
    unfolding sweep
    sweep-IsHonest [] c h = h
    sweep-IsHonest (tick now ∷ wakes) c h =
        sweep-IsHonest wakes (delete_expired now c) (delete_expired-IsHonest review ttl now c h).0
    sweep-IsHonest (closed ∷ wakes) c h = h

    used-IsHonest :
        (u : Use) (c : TokenCache) → IsHonest review ttl c → IsHonest review ttl (used u c)
    used-IsHonest (validation asked answered token) c h =
        cached_validate-IsHonest review ttl asked answered token c h
    used-IsHonest (sweeping wakes) c h = sweep-IsHonest wakes c h

    uses-IsHonest :
        (us : List Use) (c : TokenCache) → IsHonest review ttl c → IsHonest review ttl (uses us c)
    uses-IsHonest [] c h = h
    uses-IsHonest (u ∷ us) c h = uses-IsHonest us (used u c) (used-IsHonest u c h)

    new_token_cache-IsHonest : IsHonest review ttl (new_token_cache ttl)
    unfolding new_token_cache
    new_token_cache-IsHonest = record { lifetime = refl; confirmed = tt }

    -- However requests and the sweep have followed one another since the cache was made, a name that
    -- the cached validator returns was given by the review for this token, just now or at most one ttl
    -- before the cache was asked.
    pub uses-IsFresh :
        (us : List Use) (asked answered : ℕ) (token u : Bytes)
        → (cached_validate review asked answered token (uses us (new_token_cache ttl))).1 ≡ ok u
        → IsFresh review ttl asked answered token u
    uses-IsFresh us asked answered token u =
        cached_validate-IsFresh review ttl asked answered token u (uses us (new_token_cache ttl))
          (uses-IsHonest us (new_token_cache ttl) new_token_cache-IsHonest)
