-- ===== src/Daemon/Run/Authorization.antt =====
-- internal/daemon/handler.go, internal/auth: for whom a command is executed.
use mathlib.Core.Path.{subst}
use temenos.Base.{
  ap, ℕ, ◌+◌, ◌≤◌, ◌≡◌, refl, sym, ◌∙◌, ◌⊎◌, inl, inr, true, false, not, ◌&&◌, Option, none, some,
  List, [], ◌∷◌, map, Bytes, codes, is_empty, split_on, ◌==◌, trim_space, elem, Result, ok, err,
  Bool-cases, arith,
}
use temenos.Auth.{AuthError, TokenCache, is_required_sa}
use temenos.Auth.Fresh.{IsHonest, cached_validate-Answers, is_required_sa-eq-elem}
use temenos.Sandbox.Config.{Config}
use temenos.Daemon.Run.{
  Review, HandlerError, run_error, validate_token, required_sas, admit, authorize,
}

-- The list of required names is never empty.
split_on-cons : (sep : ℕ) (s : Bytes) → (p : Bytes) × (ps : List Bytes) × (split_on sep s ≡ p ∷ ps)
unfolding split_on
split_on-cons sep [] = ([], [], refl)
split_on-cons sep (c ∷ s) =
    let (p, ps, same) = split_on-cons sep s in
    elim (Bool-cases (c == sep)) [
      | inl hit ↦ ([], split_on sep s, rw hit refl)
      | inr miss ↦ (c ∷ p, ps, rw (miss, same) refl)
    ]

is_required_sa-required_sas :
    (u required : Bytes) → is_required_sa u (required_sas required) ≡ elem u (required_sas required)
unfolding required_sas
is_required_sa-required_sas u required =
    let (p, ps, same) = split_on-cons b',' required in
    rw same (is_required_sa-eq-elem u (trim_space p) (map trim_space ps))

admit_granted :
    (required : Bytes) (r : Result AuthError Bytes)
    → admit required r ≡ none
    → (u : Bytes) × (r ≡ ok u) × (elem u (required_sas required) ≡ true)
unfolding admit
admit_granted required (err e) h = cc
admit_granted required (ok u) h =
    (u, refl, sym (is_required_sa-required_sas u required) ∙ ground arith)

-- What is in the cache, if there is one, was said by the API server at this URL.
abbrev pub IsTrusted : Review → ℕ → Bytes → Option TokenCache → Type 0
IsTrusted review ttl url none = Unit
IsTrusted review ttl url (some c) = IsHonest (λ t token. review t token url) ttl c

-- The two moments at which the API server may have said it.
abbrev pub Said : Review → ℕ → ℕ → ℕ → Bytes → Bytes → Bytes → Type 0
Said review ttl asked answered url token u =
    (t : ℕ) × (review t token url ≡ ok u) × ((t ≡ answered) ⊎ (asked ≤ t + ttl))

validate_token-IsTrusted :
    (review : Review) (ttl asked answered : ℕ) (token url : Bytes) (cache : Option TokenCache)
    → IsTrusted review ttl url cache
    → IsTrusted review ttl url (validate_token review asked answered token url cache).0
      × ((u : Bytes)
          → (validate_token review asked answered token url cache).1 ≡ ok u
          → Said review ttl asked answered url token u)
unfolding validate_token
validate_token-IsTrusted review ttl asked answered token url none h =
    (tt, λ u e. (answered, e, inl refl))
validate_token-IsTrusted review ttl asked answered token url (some c) h =
    cached_validate-Answers (λ t tok. review t tok url) ttl asked answered token c h

module _ (review : Review) (ttl asked answered : ℕ) (cfg : Config) (token : Bytes)
    (cache : Option TokenCache) where
  authorize_steps :
      cfg.kubernetes.enabled ≡ true
      → is_empty cfg.kubernetes.require_service_account ≡ false
      → is_empty token ≡ false
      → let r = validate_token review asked answered token cfg.kubernetes.token_review_url cache in
        authorize review asked answered cfg token cache
        ≡ (r.0, admit cfg.kubernetes.require_service_account r.1)
  unfolding authorize
  authorize_steps on required given = rw (on, required, given) refl

  no_token :
      cfg.kubernetes.enabled ≡ true
      → is_empty cfg.kubernetes.require_service_account ≡ false
      → is_empty token ≡ true
      → authorize review asked answered cfg token cache
        ≡ (cache, some (run_error 401 (codes "authorization required")))
  unfolding authorize
  no_token on required missing = rw (on, required, missing) refl

  authorize_off :
      (cfg.kubernetes.enabled && not (is_empty cfg.kubernetes.require_service_account)) ≡ false
      → authorize review asked answered cfg token cache ≡ (cache, none)
  unfolding authorize
  authorize_off off = rw off refl

-- With authentication configured and a cache that holds only what the API server said, no request
-- passes but one with a token that the API server has reviewed, just now or at most one ttl before
-- the cache was asked, with the name of one of the required service accounts as the answer.
pub authorize_sound :
    (review : Review) (ttl asked answered : ℕ) (cfg : Config) (token : Bytes)
    (cache : Option TokenCache)
    → cfg.kubernetes.enabled ≡ true
    → is_empty cfg.kubernetes.require_service_account ≡ false
    → IsTrusted review ttl cfg.kubernetes.token_review_url cache
    → (authorize review asked answered cfg token cache).1 ≡ none
    → (is_empty token ≡ false)
      × (u : Bytes) × (elem u (required_sas cfg.kubernetes.require_service_account) ≡ true)
      × Said review ttl asked answered cfg.kubernetes.token_review_url token u
authorize_sound review ttl asked answered cfg token cache on required trusted passed =
    elim (Bool-cases (is_empty token)) [
      | inl missing ↦
          let nothing = no_token review ttl asked answered cfg token cache on required missing in cc
      | inr given ↦
          let steps = authorize_steps review ttl asked answered cfg token cache on required given in
          let (after, said) =
            validate_token-IsTrusted review ttl asked answered token cfg.kubernetes.token_review_url
              cache trusted in
          let (u, same, member) =
            admit_granted cfg.kubernetes.require_service_account _
              (ap (λ (x : Option TokenCache × Option HandlerError). x.1) (sym steps) ∙ passed) in
          (given, u, member, said u same)
    ]

-- A cache that holds only what the API server said holds only that after any request too.
pub authorize-IsTrusted :
    (review : Review) (ttl asked answered : ℕ) (cfg : Config) (token : Bytes)
    (cache : Option TokenCache)
    → IsTrusted review ttl cfg.kubernetes.token_review_url cache
    → IsTrusted review ttl cfg.kubernetes.token_review_url
        (authorize review asked answered cfg token cache).0
authorize-IsTrusted review ttl asked answered cfg token cache trusted =
    elim (Bool-cases
      (cfg.kubernetes.enabled && not (is_empty cfg.kubernetes.require_service_account))) [
        | inr off ↦
            subst Trusted (sym (authorize_off review ttl asked answered cfg token cache off))
              trusted
        | inl on ↦ elim (Bool-cases (is_empty token)) [
          | inl missing ↦
              subst Trusted
                (sym (
                  no_token review ttl asked answered cfg token cache (ground arith) (ground arith)
                    missing))
                trusted
          | inr given ↦
              subst Trusted
                (sym (
                  authorize_steps review ttl asked answered cfg token cache (ground arith)
                    (ground arith) given))
                (validate_token-IsTrusted review ttl asked answered token
                  cfg.kubernetes.token_review_url cache trusted).0
        ]
      ]
  where
    Trusted : Option TokenCache × Option HandlerError → Type 0
    Trusted x = IsTrusted review ttl cfg.kubernetes.token_review_url x.0

admit_refused :
    (required : Bytes) (r : Result AuthError Bytes) (e : HandlerError)
    → admit required r ≡ some e
    → (msg : Bytes) × (e ≡ run_error 403 msg)
unfolding admit
admit_refused required (err x) e h = (codes "access denied — token validation failed", cc)
admit_refused required (ok u) e h = elim (Bool-cases (is_required_sa u (required_sas required))) [
  | inl admitted ↦ ground arith
  | inr refused ↦
      let same : ◌≡◌ {A = Option HandlerError}
          (some (run_error 403 (codes "access denied — unauthorized service account"))) (some e) =
        sym (rw refused refl) ∙ h in
      (codes "access denied — unauthorized service account", cc)
]

-- With authentication configured, the error of a refused request is 401 if it has no token, and 403
-- if it has one.
pub authorize_status :
    (review : Review) (asked answered : ℕ) (cfg : Config) (token : Bytes)
    (cache : Option TokenCache) (e : HandlerError)
    → cfg.kubernetes.enabled ≡ true
    → is_empty cfg.kubernetes.require_service_account ≡ false
    → (authorize review asked answered cfg token cache).1 ≡ some e
    → ((is_empty token ≡ true) × (e ≡ run_error 401 (codes "authorization required")))
      ⊎ ((is_empty token ≡ false) × ((msg : Bytes) × (e ≡ run_error 403 msg)))
authorize_status review asked answered cfg token cache e on required refused =
    elim (Bool-cases (is_empty token)) [
      | inl missing ↦
          let same = no_token review 0 asked answered cfg token cache on required missing in
          inl (missing, cc)
      | inr given ↦
          let steps = authorize_steps review 0 asked answered cfg token cache on required given in
          inr (
            given,
            admit_refused cfg.kubernetes.require_service_account _ e
                (ap (λ (x : Option TokenCache × Option HandlerError). x.1) (sym steps) ∙ refused),
          )
    ]
