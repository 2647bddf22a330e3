-- ===== src/Sandbox/Config/Filter.antt =====
-- Which environment keys `FilterEnv` lets through.
use temenos.Base.{
  ◌+◌, ◌≡◌, refl, inl, inr, true, false, not, ◌&&◌, ◌||◌, Option, none, some, List, [], ◌∷◌, ◌++◌,
  if◌then◌else◌, Bytes, codes, bytes_eq_iff, elem, elem-append, length, length-append, arith,
  Bool-cases, ap, ◌∙◌, All, All-append,
}
use temenos.Base.Assoc.{lookup}
use temenos.Base.Sort.{IsSorted, sort-IsSorted, elem-sort, length-sort}
use temenos.FilePath.Match.{match}
use temenos.Sandbox.Config.{
  Config, baseline_allow_env, add_unseen, effective_allow_env, is_hit, matches_any, filter_loop,
  filter_env,
}

matches_any-append :
    (xs ys : List Bytes) (key : Bytes)
    → matches_any (xs ++ ys) key ≡ (matches_any xs key || matches_any ys key)
unfolding matches_any
matches_any-append [] ys key = refl
matches_any-append (x ∷ xs) ys key = ground (arith, matches_any-append xs ys key)

matches_any_of_elem :
    (p : Bytes) (ps : List Bytes) (key : Bytes)
    → elem p ps ≡ true
    → is_hit (match p key) ≡ true
    → matches_any ps key ≡ true
unfolding matches_any elem
matches_any_of_elem p [] key h k = cc
matches_any_of_elem p (q ∷ ps) key h k =
    ground (arith, matches_any_of_elem p ps key, bytes_eq_iff q p)

matches_any-add_unseen :
    (out ps : List Bytes) (key : Bytes)
    → matches_any (add_unseen out ps) key ≡ (matches_any out key || matches_any ps key)
unfolding add_unseen matches_any
matches_any-add_unseen out [] key = ground arith
matches_any-add_unseen out (p ∷ ps) key = elim (Bool-cases (elem p out)) [
  | inl seen ↦
      rw seen
        (ground (arith, matches_any-add_unseen out ps key, matches_any_of_elem p out key seen))
  | inr fresh ↦ rw fresh (
      ground
        (arith, matches_any-add_unseen (out ++ p ∷ []) ps key, matches_any-append out (p ∷ []) key))
]

-- A key is let through by the union of the baseline and the operator's patterns.
pub matches_any-effective_allow_env :
    (c : Config) (key : Bytes)
    → matches_any (effective_allow_env c) key
      ≡ (matches_any baseline_allow_env key || matches_any c.allow_env key)
unfolding effective_allow_env matches_any
matches_any-effective_allow_env c key = ground (
  arith,
  matches_any-add_unseen (add_unseen [] baseline_allow_env) c.allow_env key,
  matches_any-add_unseen [] baseline_allow_env key,
)

or_else : Option Bytes → Option Bytes → Option Bytes
or_else none o = o
or_else (some v) o = some v

lookup-append :
    (k : Bytes) (xs ys : List (Bytes × Bytes))
    → lookup k (xs ++ ys) ≡ or_else (lookup k xs) (lookup k ys)
unfolding lookup or_else
lookup-append k [] ys = refl
lookup-append k ((j, v) ∷ xs) ys = ground (arith, lookup-append k xs ys)

abbrev pub keys : List (Bytes × Bytes) → List Bytes
keys [] = []
keys ((k, v) ∷ env) = k ∷ keys env

-- The two kinds of round of the loop.
module _ (ps : List Bytes) (j v : Bytes) (env allowed : List (Bytes × Bytes))
    (stripped : List Bytes) where
  filter_loop-pass :
      matches_any ps j ≡ true
      → filter_loop ps ((j, v) ∷ env) allowed stripped
        ≡ filter_loop ps env (allowed ++ (j, v) ∷ []) stripped
  unfolding filter_loop
  filter_loop-pass h =
      ap
        (λ b.
          filter_loop ps env (if b then allowed ++ (j, v) ∷ [] else allowed)
            (if b then stripped else stripped ++ j ∷ []))
        h

  filter_loop-strip :
      matches_any ps j ≡ false
      → filter_loop ps ((j, v) ∷ env) allowed stripped
        ≡ filter_loop ps env allowed (stripped ++ j ∷ [])
  unfolding filter_loop
  filter_loop-strip h =
      ap
        (λ b.
          filter_loop ps env (if b then allowed ++ (j, v) ∷ [] else allowed)
            (if b then stripped else stripped ++ j ∷ []))
        h

module _ (ps : List Bytes) (k : Bytes) where
  lookup-filter_loop :
      (env allowed : List (Bytes × Bytes)) (stripped : List Bytes)
      → lookup k (filter_loop ps env allowed stripped).0
        ≡ or_else (lookup k allowed) (if matches_any ps k then lookup k env else none)
  unfolding or_else
  lookup-filter_loop [] allowed stripped = unfold filter_loop lookup in ground arith
  lookup-filter_loop ((j, v) ∷ env) allowed stripped = elim (Bool-cases (matches_any ps j)) [
    | inl pass ↦
        rw
          (
            filter_loop-pass ps j v env allowed stripped pass,
            lookup-filter_loop env (allowed ++ (j, v) ∷ []) stripped,
          )
          (unfold lookup in ground (arith, lookup-append k allowed ((j, v) ∷ []), bytes_eq_iff j k))
    | inr strip ↦
        rw
          (
            filter_loop-strip ps j v env allowed stripped strip,
            lookup-filter_loop env allowed (stripped ++ j ∷ []),
          )
          (unfold lookup in ground (arith, bytes_eq_iff j k))
  ]

  elem-filter_loop :
      (env allowed : List (Bytes × Bytes)) (stripped : List Bytes)
      → elem k (filter_loop ps env allowed stripped).1
        ≡ (elem k stripped || (not (matches_any ps k) && elem k (keys env)))
  unfolding elem
  elem-filter_loop [] allowed stripped = unfold filter_loop in ground (arith, elem-sort k stripped)
  elem-filter_loop ((j, v) ∷ env) allowed stripped = elim (Bool-cases (matches_any ps j)) [
    | inl pass ↦
        rw
          (
            filter_loop-pass ps j v env allowed stripped pass,
            elem-filter_loop env (allowed ++ (j, v) ∷ []) stripped,
          )
          (ground (arith, bytes_eq_iff j k))
    | inr strip ↦
        rw
          (
            filter_loop-strip ps j v env allowed stripped strip,
            elem-filter_loop env allowed (stripped ++ j ∷ []),
          )
          (ground (arith, bytes_eq_iff j k, elem-append k stripped (j ∷ [])))
  ]

filter_loop-IsSorted :
    (ps : List Bytes) (env allowed : List (Bytes × Bytes)) (stripped : List Bytes)
    → IsSorted (filter_loop ps env allowed stripped).1
unfolding filter_loop
filter_loop-IsSorted ps [] allowed stripped = sort-IsSorted stripped
filter_loop-IsSorted ps ((j, v) ∷ env) allowed stripped =
    filter_loop-IsSorted ps env (if matches_any ps j then allowed ++ (j, v) ∷ [] else allowed)
      (if matches_any ps j then stripped else stripped ++ j ∷ [])

length-filter_loop :
    (ps : List Bytes) (env allowed : List (Bytes × Bytes)) (stripped : List Bytes)
    → length (filter_loop ps env allowed stripped).0
        + length (filter_loop ps env allowed stripped).1
      ≡ length allowed + length stripped + length env
length-filter_loop ps [] allowed stripped =
    unfold filter_loop in omega (arith, length-sort stripped)
length-filter_loop ps ((j, v) ∷ env) allowed stripped = elim (Bool-cases (matches_any ps j)) [
  | inl pass ↦ rw (filter_loop-pass ps j v env allowed stripped pass) (
      omega (
        arith,
        length-filter_loop ps env (allowed ++ (j, v) ∷ []) stripped,
        length-append allowed ((j, v) ∷ []),
      ))
  | inr strip ↦ rw (filter_loop-strip ps j v env allowed stripped strip) (
      omega (
        arith,
        length-filter_loop ps env allowed (stripped ++ j ∷ []),
        length-append stripped (j ∷ []),
      ))
]

-- `FilterEnv` divides the variables: a variable that matches a pattern of the baseline or of the
-- operator keeps its value, every other key is in the list of stripped keys, which is sorted, and
-- nothing is lost or made up.
pub filter_env_lem :
    (c : Config) (env : List (Bytes × Bytes))
    → ((k : Bytes)
        → let passes = matches_any baseline_allow_env k || matches_any c.allow_env k in
          (lookup k (filter_env c env).0 ≡ (if passes then lookup k env else none))
          × (elem k (filter_env c env).1 ≡ (not passes && elem k (keys env))))
      × IsSorted (filter_env c env).1
      × (length (filter_env c env).0 + length (filter_env c env).1 ≡ length env)
unfolding filter_env
filter_env_lem c env = (
  λ k. (
    rw (← matches_any-effective_allow_env c k)
        (lookup-filter_loop (effective_allow_env c) k env [] [] ∙ (unfold lookup or_else in refl)),
    rw (← matches_any-effective_allow_env c k)
        (elem-filter_loop (effective_allow_env c) k env [] [] ∙ (unfold elem in refl)),
  ),
  filter_loop-IsSorted (effective_allow_env c) env [] [],
  length-filter_loop (effective_allow_env c) env [] [] ∙ omega arith,
)

All-filter_loop :
    (P : Bytes × Bytes → Type 0) (ps : List Bytes) (env allowed : List (Bytes × Bytes))
    (stripped : List Bytes)
    → All P env
    → All P allowed
    → All P (filter_loop ps env allowed stripped).0
All-filter_loop P ps [] allowed stripped h g = unfold filter_loop in g
All-filter_loop P ps ((j, v) ∷ env) allowed stripped (p, h) g =
    elim (Bool-cases (matches_any ps j)) [
      | inl pass ↦ rw (filter_loop-pass ps j v env allowed stripped pass) (
          All-filter_loop P ps env (allowed ++ (j, v) ∷ []) stripped h
            (All-append P allowed ((j, v) ∷ []) g (p, tt)))
      | inr strip ↦
          rw (filter_loop-strip ps j v env allowed stripped strip)
            (All-filter_loop P ps env allowed (stripped ++ j ∷ []) h g)
    ]

-- What holds of every variable holds of those that are let through.
pub All-filter_env :
    (P : Bytes × Bytes → Type 0) (c : Config) (env : List (Bytes × Bytes))
    → All P env
    → All P (filter_env c env).0
unfolding filter_env
All-filter_env P c env h = All-filter_loop P (effective_allow_env c) env [] [] h tt

-- The keys that the sandbox sets itself match no pattern of the baseline.
pub injected_keys_not_in_baseline :
    (matches_any baseline_allow_env (codes "PATH") ≡ false)
    × (matches_any baseline_allow_env (codes "TERM") ≡ false)
    × (matches_any baseline_allow_env (codes "GOTELEMETRY") ≡ false)
unfolding matches_any baseline_allow_env
injected_keys_not_in_baseline = (refl, refl, refl)
