-- ===== src/Sandbox/Mounts.antt =====
-- sandbox/sandbox.go: mounts, and the metadata-only mounts of their ancestors.
pub mod Ancestors
pub mod Added
pub mod Parents
use temenos.Base.{
  ℕ, zero, suc, ◌+◌, Bool, true, false, List, [], ◌∷◌, ◌++◌, map, if◌then◌else◌, Bytes, elem,
  length,
}
use temenos.FilePath.{dir}
use temenos.FilePath.Shorter.{is_top}

pub record Mount : Type 0 where
  pub source : Bytes
  pub target : Bytes
  pub read_only : Bool
  pub metadata_only : Bool

abbrev pub source_of : Mount → Bytes
source_of m = m.source

-- `Mount{Source: dir, Target: dir, MetadataOnly: true}`
abbrev pub ancestor_mount : Bytes → Mount
ancestor_mount d = record { source = d; target = d; read_only = false; metadata_only = true }

-- The inner loop, from the directory `d` on: the map `existing` and the slice `mounts`.
unfoldable pub climb_dirs : ℕ → Bytes → List Bytes × List Mount → List Bytes × List Mount
unfolding dir is_top elem
climb_dirs zero d state = state
climb_dirs (suc fuel) d (existing, mounts) =
    let more = climb_dirs fuel (dir d) (existing ++ d ∷ [], mounts ++ ancestor_mount d ∷ []) in
    if is_top d then (existing, mounts) else if elem d existing then (existing, mounts) else more

-- The outer loop, over the mounts as they were at its start.
unfoldable pub scan_mounts : List Mount → List Bytes × List Mount → List Bytes × List Mount
unfolding climb_dirs
scan_mounts [] state = state
scan_mounts (m ∷ ms) state =
    scan_mounts ms
      (if m.metadata_only then state else climb_dirs (length m.source + 2) (dir m.source) state)

-- `AddAncestorMounts`
unfoldable pub add_ancestor_mounts : List Mount → List Mount
unfolding scan_mounts
add_ancestor_mounts mounts = (scan_mounts mounts (map source_of mounts, mounts)).1
