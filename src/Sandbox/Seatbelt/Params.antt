-- ===== src/Sandbox/Seatbelt/Params.antt =====
-- sandbox/policy.go: the parameters, as sandbox-exec looks them up, and what a rule grants.

use temenos.Base.{
  ℕ, ◌<◌, ◌≤◌, ◌≡◌, refl, true, false, Option, none, some, List, [], ◌∷◌, ◌++◌, if◌then◌else◌,
  Bytes, All, All-append, All-map, arith,
}
use temenos.Sandbox.Mounts.{Mount}
use temenos.Sandbox.Seatbelt.Keys.{
  is_key, metadata_root-differs, readable_root-differs, writable_root-differs,
}
use temenos.Sandbox.Seatbelt.{
  Key, metadata_root, readable_root, writable_root, darwin_user_cache_dir, Rule, allow_metadata,
  allow_read, allow_read_write, allow_metadata_of, allow_map_executable, Param,
}

pub data Access : Type 0 where
  metadata read read_write map_executable : Access

-- The parameter of a key, as sandbox-exec looks it up.
unfoldable pub param : List Param → Key → Option Bytes
unfolding is_key
param [] k = none
param ((j, path) ∷ ps) k = if is_key k j then some path else param ps k

-- What a rule grants, and on which path.
unfoldable pub grant : List Param → Rule → Access × Option Bytes
unfolding param
grant ps (allow_metadata k) = (metadata, param ps k)
grant ps (allow_read k) = (read, param ps k)
grant ps (allow_read_write k) = (read_write, param ps k)
grant ps (allow_metadata_of d) = (metadata, some d)
grant ps (allow_map_executable d) = (map_executable, some d)

-- What a mount asks for.
unfoldable pub asked : Mount → Access × Option Bytes
asked d =
    (if d.metadata_only then metadata else if d.read_only then read else read_write, some d.source)

abbrev pub IsBelow : ℕ → ℕ → ℕ → Param → Type 0
IsBelow r w m (metadata_root i, _) = i < m
IsBelow r w m (readable_root i, _) = i < r
IsBelow r w m (writable_root i, _) = i < w
IsBelow r w m (darwin_user_cache_dir, _) = ⊥

abbrev pub IsKeyFresh : Key → Param → Type 0
IsKeyFresh k p = is_key k p.0 ≡ false

pub param-append :
    (before after : List Param) (k : Key) (path : Bytes)
    → All (IsKeyFresh k) before
    → is_key k k ≡ true
    → param (before ++ (k, path) ∷ after) k ≡ some path
unfolding param
param-append [] after k path h same = rw same refl
param-append ((j, q) ∷ before) after k path (h, hs) same =
    rw h (param-append before after k path hs same)

-- No parameter hides another one.
abbrev pub AreFound : List Param → List Param → Type 0
AreFound ps qs = All (λ p. param ps p.0 ≡ some p.1) qs

pub metadata_root-IsKeyFresh :
    (r w m : ℕ) (p : Param) → IsBelow r w m p → IsKeyFresh (metadata_root m) p
unfolding is_key
metadata_root-IsKeyFresh r w m (metadata_root i, _) h =
    metadata_root-differs m i (λ same. omega (arith, same, h))
metadata_root-IsKeyFresh r w m (readable_root i, _) h = refl
metadata_root-IsKeyFresh r w m (writable_root i, _) h = refl
metadata_root-IsKeyFresh r w m (darwin_user_cache_dir, _) h = refl

pub readable_root-IsKeyFresh :
    (r w m : ℕ) (p : Param) → IsBelow r w m p → IsKeyFresh (readable_root r) p
unfolding is_key
readable_root-IsKeyFresh r w m (metadata_root i, _) h = refl
readable_root-IsKeyFresh r w m (readable_root i, _) h =
    readable_root-differs r i (λ same. omega (arith, same, h))
readable_root-IsKeyFresh r w m (writable_root i, _) h = refl
readable_root-IsKeyFresh r w m (darwin_user_cache_dir, _) h = refl

pub writable_root-IsKeyFresh :
    (r w m : ℕ) (p : Param) → IsBelow r w m p → IsKeyFresh (writable_root w) p
unfolding is_key
writable_root-IsKeyFresh r w m (metadata_root i, _) h = refl
writable_root-IsKeyFresh r w m (readable_root i, _) h = refl
writable_root-IsKeyFresh r w m (writable_root i, _) h =
    writable_root-differs w i (λ same. omega (arith, same, h))
writable_root-IsKeyFresh r w m (darwin_user_cache_dir, _) h = refl

pub darwin_user_cache_dir-IsKeyFresh :
    (r w m : ℕ) (p : Param) → IsBelow r w m p → IsKeyFresh darwin_user_cache_dir p
unfolding is_key
darwin_user_cache_dir-IsKeyFresh r w m (metadata_root i, _) h = refl
darwin_user_cache_dir-IsKeyFresh r w m (readable_root i, _) h = refl
darwin_user_cache_dir-IsKeyFresh r w m (writable_root i, _) h = refl
darwin_user_cache_dir-IsKeyFresh r w m (darwin_user_cache_dir, _) h = absurd h

param-grow :
    (before after : List Param) (k : Key) (path : Bytes)
    → param before k ≡ some path
    → param (before ++ after) k ≡ some path
unfolding param
param-grow [] after k path h = ground arith
param-grow ((j, q) ∷ before) after k path h = ground (arith, param-grow before after k path)

pub AreFound-grow :
    (before after qs : List Param) → AreFound before qs → AreFound (before ++ after) qs
AreFound-grow before after [] h = tt
AreFound-grow before after ((k, path) ∷ qs) (h, hs) =
    (param-grow before after k path h, AreFound-grow before after qs hs)

pub AreFound-append :
    (before : List Param) (k : Key) (path : Bytes)
    → AreFound before before
    → All (IsKeyFresh k) before
    → is_key k k ≡ true
    → AreFound (before ++ (k, path) ∷ []) (before ++ (k, path) ∷ [])
AreFound-append before k path h fresh same =
    let whole : List Param = before ++ (k, path) ∷ [] in
    All-append (λ p. param whole p.0 ≡ some p.1) before ((k, path) ∷ [])
      (AreFound-grow before ((k, path) ∷ []) before h)
      (param-append before [] k path fresh same, tt)

IsBelow-grow :
    (r w m r' w' m' : ℕ) (p : Param)
    → r ≤ r'
    → w ≤ w'
    → m ≤ m'
    → IsBelow r w m p
    → IsBelow r' w' m' p
IsBelow-grow r w m r' w' m' (metadata_root i, _) a b c h = ground arith
IsBelow-grow r w m r' w' m' (readable_root i, _) a b c h = ground arith
IsBelow-grow r w m r' w' m' (writable_root i, _) a b c h = ground arith
IsBelow-grow r w m r' w' m' (darwin_user_cache_dir, _) a b c h = h

pub All-fresh :
    (k : Key) (r w m : ℕ) (ps : List Param)
    → ((p : Param) → IsBelow r w m p → IsKeyFresh k p)
    → All (IsBelow r w m) ps
    → All (IsKeyFresh k) ps
All-fresh k r w m ps f h = All-map (IsBelow r w m) (IsKeyFresh k) f ps h

pub IsBelow-append :
    (r w m r' w' m' : ℕ) (before : List Param) (k : Key) (path : Bytes)
    → r ≤ r'
    → w ≤ w'
    → m ≤ m'
    → All (IsBelow r w m) before
    → IsBelow r' w' m' (k, path)
    → All (IsBelow r' w' m') (before ++ (k, path) ∷ [])
IsBelow-append r w m r' w' m' before k path a b c h new =
    All-append (IsBelow r' w' m') before ((k, path) ∷ [])
      (All-map (IsBelow r w m) (IsBelow r' w' m') (λ p. IsBelow-grow r w m r' w' m' p a b c) before
        h)
      (new, tt)
