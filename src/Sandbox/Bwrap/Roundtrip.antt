-- ===== src/Sandbox/Bwrap/Roundtrip.antt =====
-- sandbox/bwrap.go: the arguments of `buildArgs`, read back.
use temenos.Base.{
  ◌≡◌, refl, ap, ◌∙◌, inl, inr, ◌⊎◌, ℕ, Bool, true, false, Option, some, List, [], ◌∷◌, ◌++◌, map,
  Bytes, codes, bytes_eq, is_empty, All, All-append, Memᴰ, append_assoc, append-nil, Bool-cases,
  arith, not, if◌then◌else◌,
}
use temenos.Sandbox.Config.{Host}
use temenos.Sandbox.Mounts.{Mount}
use temenos.Sandbox.ToolPaths.{all_tool_dirs, is_present}
use temenos.Daemon.Request.{ExecConfig}
use temenos.Sandbox.Bwrap.{
  append_bwrap_tool_binds, append_nix_store_bind, is_bound, ro_bind, mount_args, base_args,
  shared_args, build_args,
}
use temenos.Sandbox.Bwrap.Binds.{
  AreBindable, binds_of, binds_of-append, read_dirs_of, append_bwrap_tool_binds-AreBindable,
}
use temenos.Sandbox.Bwrap.Reading.{
  Operation, IsKnown, end_of_options, read_args, read_args-printed, printed, printed-append,
}
use temenos.Sandbox.Bwrap.Operations.{
  IsBubblewrap, self_bind, base_operations, mount_operation, shown_mounts, chdir_operations,
  operations, shell_command,
}

abbrev nix_store : Bytes
nix_store = codes "/nix/store"

-- A directory that exists and that a tool reads, or the store of Nix.
abbrev pub IsShared : Host → Bytes → Type 0
IsShared host d =
    (is_present (host.stat d) ≡ true)
    × (Memᴰ d (read_dirs_of (all_tool_dirs host false)) ⊎ (d ≡ codes "/nix/store"))

AreBindable-present :
    (host : Host) (known dirs : List Bytes)
    → AreBindable host known dirs
    → All (λ d. Memᴰ d (read_dirs_of (all_tool_dirs host false))) dirs
    → All (IsShared host) dirs
AreBindable-present host known [] h m = tt
AreBindable-present host known (d ∷ dirs) (e, c, p, h) (k, m) =
    ((p, inl k), AreBindable-present host (known ++ d ∷ []) dirs h m)

append_nix_store_bind-IsShared :
    (host : Host) (args : List Bytes)
    → (dirs : List Bytes) × (append_nix_store_bind host args ≡ args ++ binds_of dirs)
      × All (IsShared host) dirs
unfolding append_nix_store_bind
append_nix_store_bind-IsShared host args = elim (Bool-cases (is_present (host.stat nix_store))) [
  | inr missing ↦ ([], rw (missing, append-nil) refl, tt)
  | inl there ↦ elim (Bool-cases (is_bound args nix_store)) [
    | inl bound ↦ ([], rw (there, bound, append-nil) refl, tt)
    | inr free ↦ (nix_store ∷ [], rw (there, free) refl, ((there, inr refl), tt))
  ]
]

printed-binds : (dirs : List Bytes) → printed (map self_bind dirs) ≡ binds_of dirs
printed-binds [] = refl
printed-binds (d ∷ dirs) = ap (λ l. ro_bind d d ++ l) (printed-binds dirs)

printed-base : (k : Bool) → printed (base_operations k) ≡ base_args k ++ shared_args
printed-base true = refl
printed-base false = refl

printed-mounts :
    (host : Host) (ms : List Mount)
    → printed (map mount_operation (shown_mounts host ms)) ≡ mount_args host ms
unfolding mount_args
printed-mounts host [] = refl
printed-mounts host (m ∷ ms) = elim (Bool-cases m.metadata_only) [
  | inl hidden ↦ rw (hidden, printed-mounts host ms) refl
  | inr grant ↦ elim (Bool-cases (is_present (host.stat m.source))) [
    | inr missing ↦ rw (grant, missing, printed-mounts host ms) refl
    | inl there ↦ elim (Bool-cases m.read_only) [
      | inl reads ↦ rw (grant, there, reads, printed-mounts host ms) refl
      | inr writes ↦ rw (grant, there, writes, printed-mounts host ms) refl
    ]
  ]
]

printed-chdir :
    (dir : Bytes)
    → printed (chdir_operations dir)
      ≡ (if not (is_empty dir) then codes "--chdir" ∷ dir ∷ [] else [])
printed-chdir [] = refl
printed-chdir (c ∷ dir) = refl

assembled :
    (a b c d : List Operation) {wa wb wc wd : List Bytes}
    → printed a ≡ wa
    → printed b ≡ wb
    → printed c ≡ wc
    → printed d ≡ wd
    → (tail : List Bytes)
    → (wa ++ wb) ++ (wc ++ (wd ++ tail)) ≡ printed (a ++ (b ++ (c ++ d))) ++ tail
assembled a b c d ea eb ec ed tail = simp (printed-append, append_assoc, ea, eb, ec, ed)

-- The options in front of the mounts.
binds-IsShared :
    (host : Host) (base : List Bytes)
    → (dirs : List Bytes) × (append_nix_store_bind host (append_bwrap_tool_binds host base)
        ≡ base ++ binds_of dirs)
      × All (IsShared host) dirs
binds-IsShared host base =
    let (tools, bound, fresh, known) = append_bwrap_tool_binds-AreBindable host base in
    let (stores, added, shared) = append_nix_store_bind-IsShared host (base ++ binds_of tools) in
    (
      tools ++ stores,
      ap (append_nix_store_bind host) bound ∙ (added ∙ simp (append_assoc, binds_of-append)),
      All-append (IsShared host) tools stores (AreBindable-present host [] tools fresh known)
          shared,
    )

module _ (host : Host) (kubernetes_mode : Bool) (command : Bytes) (cfg : ExecConfig) where
  build_args-printed :
      (dirs : List Bytes) × (build_args host kubernetes_mode command cfg
        ≡ printed (operations host kubernetes_mode dirs cfg)
          ++ end_of_options ∷ shell_command command)
      × All (IsShared host) dirs
  unfolding build_args
  build_args-printed =
      let (dirs, bound, shared) = binds-IsShared host (base_args kubernetes_mode ++ shared_args) in
      (
        dirs,
        ap
              (λ l.
                l
                ++ (mount_args host cfg.mount_dirs
                    ++ ((if not (is_empty cfg.working_dir)
                          then codes "--chdir" ∷ cfg.working_dir ∷ []
                          else [])
                        ++ end_of_options ∷ shell_command command)))
              bound
            ∙ assembled (base_operations kubernetes_mode) (map self_bind dirs)
                (map mount_operation (shown_mounts host cfg.mount_dirs))
                (chdir_operations cfg.working_dir) (printed-base kubernetes_mode)
                (printed-binds dirs) (printed-mounts host cfg.mount_dirs)
                (printed-chdir cfg.working_dir) (end_of_options ∷ shell_command command),
        shared,
      )

module _ (arity : Bytes → Option ℕ) (manual : IsBubblewrap arity) where
  base-IsKnown : (k : Bool) → All (IsKnown arity) (base_operations k)
  unfolding bytes_eq
  base-IsKnown true = ground arith
  base-IsKnown false = ground arith

  binds-IsKnown : (dirs : List Bytes) → All (IsKnown arity) (map self_bind dirs)
  unfolding bytes_eq
  binds-IsKnown [] = tt
  binds-IsKnown (d ∷ dirs) = ((refl, manual.ro_bind_takes), binds-IsKnown dirs)

  mounts-IsKnown : (ms : List Mount) → All (IsKnown arity) (map mount_operation ms)
  unfolding bytes_eq
  mounts-IsKnown [] = tt
  mounts-IsKnown (m ∷ ms) = elim (Bool-cases m.read_only) [
    | inl reads ↦ rw reads ((refl, manual.ro_bind_takes), mounts-IsKnown ms)
    | inr writes ↦ rw writes ((refl, manual.bind_takes), mounts-IsKnown ms)
  ]

  chdir-IsKnown : (dir : Bytes) → All (IsKnown arity) (chdir_operations dir)
  unfolding bytes_eq
  chdir-IsKnown [] = tt
  chdir-IsKnown (c ∷ dir) = ((refl, manual.chdir_takes), tt)

  operations-IsKnown :
      (host : Host) (k : Bool) (dirs : List Bytes) (cfg : ExecConfig)
      → All (IsKnown arity) (operations host k dirs cfg)
  operations-IsKnown host k dirs cfg =
      All-append (IsKnown arity) (base_operations k) _ (base-IsKnown k) (
        All-append (IsKnown arity) (map self_bind dirs) _ (binds-IsKnown dirs) (
          All-append (IsKnown arity) (map mount_operation (shown_mounts host cfg.mount_dirs)) _
            (mounts-IsKnown (shown_mounts host cfg.mount_dirs)) (chdir-IsKnown cfg.working_dir)))

  -- Bubblewrap, where its options take as many operands as its manual says, reads the arguments of
  -- `buildArgs` back whatever the paths and the command are. It does the fixed operations, binds
  -- directories onto themselves for reading, each of which exists and is the store of Nix or read by
  -- a tool, binds the mounts that exist and are not metadata-only, in order, for writing exactly if
  -- they are not read-only, changes to the working directory if one is given, and runs the command
  -- in bash.
  pub read_args-build_args :
      (host : Host) (kubernetes_mode : Bool) (command : Bytes) (cfg : ExecConfig)
      → (dirs : List Bytes) × (read_args arity 0 (build_args host kubernetes_mode command cfg)
          ≡ some ([], operations host kubernetes_mode dirs cfg, shell_command command))
        × All (IsShared host) dirs
  read_args-build_args host k command cfg =
      let (dirs, same, shared) = build_args-printed host k command cfg in
      (
        dirs,
        ap (read_args arity 0) same
            ∙ read_args-printed arity (operations host k dirs cfg) (shell_command command)
                (operations-IsKnown host k dirs cfg),
        shared,
      )
