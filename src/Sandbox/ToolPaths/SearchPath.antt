-- ===== src/Sandbox/ToolPaths/SearchPath.antt =====
-- The PATH of a sandboxed process, read as the shell reads it.
use temenos.Base.{
  ◌≡◌, refl, ◌≢◌, Bool, true, false, List, [], ◌∷◌, ◌++◌, map, Bytes, codes, is_empty, split_on,
  join, All, All-append, arith, ap, ◌∙◌,
}
use temenos.Sandbox.Config.{Host}
use temenos.Sandbox.ToolPaths.{
  ToolDir, is_present, existing_dirs, all_tool_dirs, build_sandbox_path, bin_dir_of,
  static_tool_dirs, dynamic_tool_dirs,
}

abbrev pub NoColon : Bytes → Type 0
NoColon [] = Unit
NoColon (c ∷ s) = (c ≢ b':') × NoColon s

split_on-append : (p t : Bytes) → NoColon p → split_on b':' (p ++ b':' ∷ t) ≡ p ∷ split_on b':' t
unfolding split_on
split_on-append [] t h = refl
split_on-append (c ∷ p) t (h, hs) = ground (arith, split_on-append p t hs)

split_on_colonless : (p : Bytes) → NoColon p → split_on b':' p ≡ p ∷ []
unfolding split_on
split_on_colonless [] h = refl
split_on_colonless (c ∷ p) (h, hs) = ground (arith, split_on_colonless p hs)

split_on-join :
    (p : Bytes) (ps : List Bytes)
    → All NoColon (p ∷ ps)
    → split_on b':' (join b':' (p ∷ ps)) ≡ p ∷ ps
unfolding join
split_on-join p [] h = split_on_colonless p h.0
split_on-join p (q ∷ ps) (h, hs) =
    split_on-append p (join b':' (q ∷ ps)) h ∙ ap (λ l. p ∷ l) (split_on-join q ps hs)

abbrev pub IsUsed : Host → ToolDir → Type 0
IsUsed host td = (is_empty td.bin_dir ≡ false) × (is_present (host.stat td.bin_dir) ≡ true)

existing_dirs-IsUsed :
    (host : Host) (dirs : List ToolDir) → All (IsUsed host) (existing_dirs host dirs)
unfolding existing_dirs
existing_dirs-IsUsed host [] = tt
existing_dirs-IsUsed host (td ∷ dirs) = ground (arith, existing_dirs-IsUsed host dirs)

all_tool_dirs-IsUsed : (host : Host) (darwin : Bool) → All (IsUsed host) (all_tool_dirs host darwin)
unfolding all_tool_dirs
all_tool_dirs-IsUsed host darwin =
    All-append (IsUsed host) (existing_dirs host (static_tool_dirs darwin))
      (existing_dirs host (dynamic_tool_dirs host))
      (existing_dirs-IsUsed host (static_tool_dirs darwin))
      (existing_dirs-IsUsed host (dynamic_tool_dirs host))

-- The search path is the three system directories, in front, and the tool directories, each of
-- which exists; this holds where no tool directory has a colon in its name.
pub split_on-build_sandbox_path :
    (host : Host) (darwin : Bool)
    → All NoColon (map bin_dir_of (all_tool_dirs host darwin))
    → (split_on b':' (build_sandbox_path host darwin)
        ≡ codes "/usr/bin"
          ∷ codes "/usr/local/bin"
          ∷ codes "/bin"
          ∷ map bin_dir_of (all_tool_dirs host darwin))
      × All (IsUsed host) (all_tool_dirs host darwin)
unfolding build_sandbox_path
split_on-build_sandbox_path host darwin h = (
  split_on-join (codes "/usr/bin")
      (codes "/usr/local/bin" ∷ codes "/bin" ∷ map bin_dir_of (all_tool_dirs host darwin))
      (omega arith, (omega arith, (omega arith, h))),
  all_tool_dirs-IsUsed host darwin,
)
