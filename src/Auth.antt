-- ===== src/Auth.antt =====
-- internal/auth: review of service account tokens, and the cache in front of it.
-- A time is a number of nanoseconds.
pub mod Fresh
pub mod Review
pub mod Uses
use temenos.Base.{
  ℕ, ◌+◌, Bool, true, false, not, ◌&&◌, ◌||◌, Option, none, some, List, [], ◌∷◌, ◌++◌,
  if◌then◌else◌, ltb, leb, Bytes, codes, bytes_eq, is_empty, trim_space, Result, ok, err,
}
use temenos.Base.Assoc.{lookup, insert, delete}

pub data AuthError : Type 0 where
  no_ca no_certificates no_sa_token empty_sa_token no_request bad_request unreachable : AuthError
  bad_reply not_authenticated no_username : AuthError
  bad_status : ℕ → AuthError

-- `tokenReviewResponse`, as far as it is used.
pub record ReviewStatus : Type 0 where
  pub authenticated : Bool
  pub username : Bytes

-- `tokenReviewRequest`
pub record ReviewRequest : Type 0 where
  pub api_version : Bytes
  pub kind : Bytes
  pub token : Bytes
  pub audiences : List Bytes

-- The request that `ValidateToken` builds.
unfoldable pub review_of : Bytes → ReviewRequest
review_of token = record {
  api_version = codes "authentication.k8s.io/v1";
  kind = codes "TokenReview";
  token = token;
  audiences = [];
}

pub record HttpReply : Type 0 where
  pub status : ℕ
  pub body : Bytes

-- What lies outside: the mounted files, the certificate parser, the HTTP client and the JSON
-- encoder and decoder. `post` takes the URL, the bearer token and the body.
pub record Cluster : Type 0 where
  pub ca_file : Option Bytes
  pub has_certificates : Bytes → Bool
  pub token_file : Option Bytes
  pub is_url : Bytes → Bool
  pub post : Bytes → Bytes → Bytes → Option HttpReply
  pub encode_request : ReviewRequest → Option Bytes
  pub decode_review : Bytes → Option ReviewStatus

unfoldable pub token_review_path : Bytes
token_review_path = codes "/apis/authentication.k8s.io/v1/tokenreviews"

module _ (cluster : Cluster) where
  -- `initInCluster`: its error, if it has one.
  unfoldable pub init_in_cluster : Option AuthError
  init_in_cluster = elim cluster.ca_file [
    | none ↦ some no_ca
    | some pem ↦ if cluster.has_certificates pem then none else some no_certificates
  ]

  unfoldable pub read_in_cluster_sa_token : Result AuthError Bytes
  unfolding trim_space
  read_in_cluster_sa_token = elim cluster.token_file [
    | none ↦ err no_sa_token
    | some raw ↦
        let token = trim_space raw in if is_empty token then err empty_sa_token else ok token
  ]

  -- From the decoded body on.
  unfoldable pub read_review : Option ReviewStatus → Result AuthError Bytes
  read_review none = err bad_reply
  read_review (some r) =
      if not r.authenticated
      then err not_authenticated
      else if is_empty r.username
      then err no_username
      else ok r.username

  unfoldable pub read_reply : Option HttpReply → Result AuthError Bytes
  unfolding read_review
  read_reply none = err unreachable
  read_reply (some reply) =
      if ltb reply.status 200 || leb 300 reply.status
      then err (bad_status reply.status)
      else read_review (cluster.decode_review reply.body)

  -- From the marshalled request on.
  unfoldable pub posted : Option Bytes → Bytes → Bytes → Result AuthError Bytes
  unfolding read_reply
  posted none url sa_token = err bad_request
  posted (some body) url sa_token =
      if not (cluster.is_url url)
      then err no_request
      else read_reply (cluster.post url sa_token body)

  -- `ValidateToken`
  unfoldable pub validate_token : Bytes → Bytes → Result AuthError Bytes
  unfolding init_in_cluster read_in_cluster_sa_token posted token_review_path review_of
  validate_token token base_url = elim init_in_cluster [
    | some e ↦ err e
    | none ↦ elim read_in_cluster_sa_token [
      | err e ↦ err e
      | ok sa_token ↦
          posted (cluster.encode_request (review_of token)) (base_url ++ token_review_path) sa_token
    ]
  ]

-- The loop of `IsRequiredSA`.
unfoldable pub is_listed : Bytes → List Bytes → Bool
unfolding bytes_eq
is_listed username [] = false
is_listed username (sa ∷ sas) = if bytes_eq username sa then true else is_listed username sas

unfoldable pub is_required_sa : Bytes → List Bytes → Bool
unfolding is_listed
is_required_sa username [] = true
is_required_sa username (sa ∷ sas) = is_listed username (sa ∷ sas)

pub record CacheEntry : Type 0 where
  pub username : Bytes
  pub expires_at : ℕ

pub record TokenCache : Type 0 where
  pub entries : List (Bytes × CacheEntry)
  pub ttl : ℕ

-- `newTokenCache`; the goroutine that it starts is `sweep`.
unfoldable pub new_token_cache : ℕ → TokenCache
new_token_cache ttl = record { entries = []; ttl = ttl }

-- `now.After(entry.expiresAt)`
abbrev pub is_over : ℕ → CacheEntry → Bool
is_over now entry = ltb entry.expires_at now

unfoldable pub drop_over : ℕ → List (Bytes × CacheEntry) → List (Bytes × CacheEntry)
drop_over now [] = []
drop_over now ((token, entry) ∷ entries) =
    if is_over now entry then drop_over now entries else (token, entry) ∷ drop_over now entries

unfoldable pub delete_expired : ℕ → TokenCache → TokenCache
unfolding drop_over
delete_expired now c = record c { entries = drop_over now c.entries }

-- What wakes the sweep: its ticker, or the end of the cache.
pub data Wake : Type 0 where
  tick : ℕ → Wake
  closed : Wake

-- `sweep`, along what wakes it: the cache, and whether the loop has ended.
unfoldable pub sweep : List Wake → TokenCache → TokenCache × Bool
unfolding delete_expired
sweep [] c = (c, false)
sweep (tick now ∷ wakes) c = sweep wakes (delete_expired now c)
sweep (closed ∷ wakes) c = (c, true)

abbrev get_entry : Option CacheEntry → ℕ → Bytes → TokenCache → TokenCache × Option Bytes
get_entry none now token c = (c, none)
get_entry (some entry) now token c =
    if is_over now entry
    then (record c { entries = delete token c.entries }, none)
    else (c, some entry.username)

unfoldable pub get : ℕ → Bytes → TokenCache → TokenCache × Option Bytes
get now token c = get_entry (lookup token c.entries) now token c

unfoldable pub set : ℕ → Bytes → Bytes → TokenCache → TokenCache
set now token username c = record c {
  entries = insert token (record { username = username; expires_at = now + c.ttl }) c.entries;
}

unfoldable pub store :
    ℕ → Bytes → Result AuthError Bytes → TokenCache → TokenCache × Result AuthError Bytes
unfolding set
store now token (err e) c = (c, err e)
store now token (ok username) c = (set now token username c, ok username)

-- `CachedTokenValidator.ValidateToken`: `asked` is the time of the look into the cache, `answered`
-- that of the write. What the underlying validation answers may change with the time.
unfoldable pub cached_validate :
    (ℕ → Bytes → Result AuthError Bytes)
    → ℕ
    → ℕ
    → Bytes
    → TokenCache
    → TokenCache × Result AuthError Bytes
unfolding get set
cached_validate review asked answered token c =
    let (c', found) = get asked token c in
    elim found [
      | some username ↦ (c', ok username)
      | none ↦ store answered token (review answered token) c'
    ]
