-- ===== src/Sandbox/Bwrap/Reading.antt =====
-- How bubblewrap reads the arguments of sandbox/bwrap.go: options, each with the number of operands
-- that the manual gives for it, then `--` and the command. The numbers are a parameter.
use mathlib.Core.Option
use temenos.Base.{
  ◌≡◌, refl, ap, ◌∙◌, ℕ, zero, suc, false, Option, none, some, List, [], ◌∷◌, ◌++◌, append_assoc,
  Bytes, codes, bytes_eq, length, All, if◌then◌else◌,
}

pub record Operation : Type 0 where
  pub option : Bytes
  pub operands : List Bytes

-- The operands that are still due, the operations behind them and the command.
abbrev pub Parsed : Type 0
Parsed = List Bytes × List Operation × List Bytes

abbrev add_operand : Bytes → Parsed → Parsed
add_operand a (xs, ops, command) = (a ∷ xs, ops, command)

abbrev add_operation : Bytes → Parsed → Parsed
add_operation a (xs, ops, command) = ([], record { option = a; operands = xs } ∷ ops, command)

abbrev pub end_of_options : Bytes
end_of_options = codes "--"

-- The number is that of the operands which the last option still takes.
unfoldable pub read_args : (Bytes → Option ℕ) → ℕ → List Bytes → Option Parsed
unfolding bytes_eq
read_args arity n [] = none
read_args arity (suc n) (a ∷ args) = Option.map (add_operand a) (read_args arity n args)
read_args arity zero (a ∷ args) =
    if bytes_eq a end_of_options then some ([], [], args) else elim (arity a) [
      | none ↦ none
      | some n ↦ Option.map (add_operation a) (read_args arity n args)
    ]

abbrev pub printed : List Operation → List Bytes
printed [] = []
printed (op ∷ ops) = op.option ∷ op.operands ++ printed ops

pub printed-append : (xs ys : List Operation) → printed (xs ++ ys) ≡ printed xs ++ printed ys
printed-append [] ys = refl
printed-append (x ∷ xs) ys = simp (printed-append xs ys, append_assoc)

module _ (arity : Bytes → Option ℕ) where
  abbrev pub IsKnown : Operation → Type 0
  IsKnown op =
      (bytes_eq op.option end_of_options ≡ false) × (arity op.option ≡ some (length op.operands))

  read_args-operands :
      (xs rest : List Bytes) (ops : List Operation) (command : List Bytes)
      → read_args arity 0 rest ≡ some ([], ops, command)
      → read_args arity (length xs) (xs ++ rest) ≡ some (xs, ops, command)
  unfolding read_args
  read_args-operands [] rest ops command h = h
  read_args-operands (x ∷ xs) rest ops command h =
      rw (read_args-operands xs rest ops command h) refl

  read_args_option :
      (op : Operation) (rest : List Bytes)
      → bytes_eq op.option end_of_options ≡ false
      → arity op.option ≡ some (length op.operands)
      → read_args arity 0 (op.option ∷ rest)
        ≡ Option.map (add_operation op.option) (read_args arity (length op.operands) rest)
  unfolding read_args
  read_args_option op rest e known = rw (read_args, e, known) refl

  -- Whatever the operands and the command are, also texts that look like options, the arguments read
  -- back as the operations that they were written from.
  pub read_args-printed :
      (ops : List Operation) (command : List Bytes)
      → All IsKnown ops
      → read_args arity 0 (printed ops ++ end_of_options ∷ command) ≡ some ([], ops, command)
  unfolding read_args
  read_args-printed [] command h = refl
  read_args-printed (op ∷ ops) command ((e, known), h) =
      let rest : List Bytes = printed ops ++ end_of_options ∷ command in
      let args = append_assoc op.operands (printed ops) (end_of_options ∷ command) in
      ap (λ l. read_args arity 0 (op.option ∷ l)) args
      ∙ (read_args_option op (op.operands ++ rest) e known
          ∙ ap (λ r. Option.map (add_operation op.option) r)
              (read_args-operands op.operands rest ops command (read_args-printed ops command h)))
