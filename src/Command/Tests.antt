-- ===== src/Command/Tests.antt =====
-- The theorems about `processCommand` at small lines.
use nfs_network_file_system.Prelude.{
  ℕ, ◌≡◌, refl, arith, List, [], ◌∷◌, ◌++◌, none, some, length, get_or, replicate,
}
use nfs_network_file_system.Prelude.Bytes.{Bytes, codes}
use nfs_network_file_system.Command.{max_args, tokens, tokens_loop, process_command}
use nfs_network_file_system.Command.Tokens.{line_of, tokens-line_of, process_command-AllBlank}
use nfs_network_file_system.Command.Rows.{row_after, process_command-row_after}

abbrev parts : List (Bytes × Bytes)
parts = (codes "READ", 32 ∷ []) ∷ (codes "/f", 9 ∷ 10 ∷ []) ∷ []

tokens-line_of_example : tokens ((32 ∷ []) ++ line_of parts) ≡ codes "READ" ∷ codes "/f" ∷ []
tokens-line_of_example =
    tokens-line_of (32 ∷ []) parts (refl, tt)
      ((λ e. cc), (refl, (refl, (refl, (refl, tt)))), ((λ e. cc), (refl, (refl, tt)), tt))
      ((λ e. cc), (refl, tt), ((λ e. cc), (refl, (refl, tt)), tt))

process_command-AllBlank_example : process_command (32 ∷ 10 ∷ []) [] ≡ none
process_command-AllBlank_example = process_command-AllBlank (32 ∷ 10 ∷ []) [] (refl, (refl, tt))

abbrev line : Bytes
line = codes "READ /f"

abbrev rows : List Bytes
rows = replicate max_args (codes "old")

process_command-row_after_example :
    (args' : List Bytes) × (process_command line rows ≡ some (args', length (tokens line)))
    × (length args' ≡ max_args)
    × ((i : ℕ) → get_or args' i [] ≡ row_after rows 0 (tokens line) i)
process_command-row_after_example =
    process_command-row_after line rows refl (unfold tokens in unfold tokens_loop in omega arith)
      (unfold tokens in unfold tokens_loop in omega arith)
      (unfold tokens in unfold tokens_loop in omega arith)
