-- ===== src/Auth/Review.antt =====
-- internal/auth/auth.go: what a user name from `ValidateToken` rests on.

use temenos.Base.{
  [], codes, ◌≤◌, ◌<◌, ◌≡◌, refl, inl, inr, true, false, ◌||◌, Option, none, some, ltb, leb, Bytes,
  is_empty, ◌++◌, arith, Result, ok, err, Bool-cases, Option-cases, Result-cases, sym, ap, ◌∙◌,
}
use temenos.Auth.{
  AuthError, bad_status, Cluster, validate_token, ReviewStatus, HttpReply, token_review_path,
  init_in_cluster, read_in_cluster_sa_token, read_reply, read_review, posted, review_of,
}

-- What a review must be for its name to be returned.
abbrev pub Confirms : Cluster → HttpReply → Bytes → Type 0
Confirms cluster reply u =
    (r : ReviewStatus) × (cluster.decode_review reply.body ≡ some r)
    × (r.authenticated ≡ true)
    × (r.username ≡ u)
    × (is_empty u ≡ false)

read_review_ok :
    (cluster : Cluster) (o : Option ReviewStatus) (u : Bytes)
    → read_review cluster o ≡ ok u
    → (r : ReviewStatus) × (o ≡ some r)
      × (r.authenticated ≡ true)
      × (r.username ≡ u)
      × (is_empty u ≡ false)
unfolding read_review
read_review_ok cluster none u e = cc
read_review_ok cluster (some r) u e = elim (Bool-cases r.authenticated) [
  | inr no_auth ↦ ground arith
  | inl auth ↦ elim (Bool-cases (is_empty r.username)) [
    | inl no_name ↦ ground arith
    | inr name ↦
        let same : r.username ≡ u = ground arith in
        (r, refl, auth, same, ap is_empty (sym same) ∙ name)
  ]
]

read_reply_ok :
    (cluster : Cluster) (o : Option HttpReply) (u : Bytes)
    → read_reply cluster o ≡ ok u
    → (reply : HttpReply) × (o ≡ some reply)
      × (200 ≤ reply.status)
      × (reply.status < 300)
      × Confirms cluster reply u
unfolding read_reply
read_reply_ok cluster none u e = cc
read_reply_ok cluster (some reply) u e =
    elim (Bool-cases (ltb reply.status 200 || leb 300 reply.status)) [
      | inl wrong ↦ absurd (refused (rw wrong at e))
      | inr right ↦ (
        reply,
        refl,
        ground arith,
        ground arith,
        read_review_ok cluster (cluster.decode_review reply.body) u (rw right at e),
      )
    ]
  where
    refused : ¬ (◌≡◌ {A = Result AuthError Bytes} (err (bad_status reply.status)) (ok u))
    refused h = cc

posted_ok :
    (cluster : Cluster) (o : Option Bytes) (url sa_token u : Bytes)
    → posted cluster o url sa_token ≡ ok u
    → (body : Bytes) × (reply : HttpReply) × (o ≡ some body)
      × (cluster.post url sa_token body ≡ some reply)
      × (200 ≤ reply.status)
      × (reply.status < 300)
      × Confirms cluster reply u
unfolding posted
posted_ok cluster none url sa_token u e = cc
posted_ok cluster (some body) url sa_token u e = elim (Bool-cases (cluster.is_url url)) [
  | inr wrong ↦ ground arith
  | inl right ↦
      let (reply, got, low, high, confirms) =
        read_reply_ok cluster (cluster.post url sa_token body) u (ground arith) in
      (body, reply, refl, got, low, high, confirms)
]

-- `ValidateToken` gives a name only if the server replied to a review of this token, and of nothing
-- else, with a status of the 200s, and the decoded review is authenticated and names that user, who is
-- not "".
pub validate_token_sound :
    (cluster : Cluster) (token url u : Bytes)
    → validate_token cluster token url ≡ ok u
    → (sa_token : Bytes) × (body : Bytes) × (reply : HttpReply) × (cluster.encode_request (record {
      api_version = codes "authentication.k8s.io/v1";
      kind = codes "TokenReview";
      token = token;
      audiences = [];
    })
        ≡ some body)
      × (cluster.post (url ++ token_review_path) sa_token body ≡ some reply)
      × (200 ≤ reply.status)
      × (reply.status < 300)
      × Confirms cluster reply u
unfolding validate_token
validate_token_sound cluster token url u e = elim (Option-cases (init_in_cluster cluster)) [
  | inr (e0, failed) ↦ ground arith
  | inl ready ↦ elim (Result-cases (read_in_cluster_sa_token cluster)) [
    | inr (e1, failed) ↦ ground arith
    | inl (sa_token, read) ↦
        let (body, reply, made, got, low, high, confirms) =
          posted_ok cluster (cluster.encode_request (review_of token)) (url ++ token_review_path)
            sa_token u (ground arith) in
        (sa_token, body, reply, unfold review_of in made, got, low, high, confirms)
  ]
]
