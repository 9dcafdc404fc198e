-- ===== src/Command.antt =====
-- `processCommand`, which namingserver.c and clientinit.c share: a line is split into its words, which
-- are copied to the rows of `ARGS`.
pub mod Tokens
mod Rows
mod Tests
use nfs_network_file_system.Prelude.{
  ℕ, zero, suc, ◌+◌, ◌<◌, ◌||◌, Bool, true, false, List, [], ◌∷◌, ◌++◌, Option, none, some, ◌==◌,
  ltb, if◌then◌else◌, get_or, set, length, map, ◌>>=◌,
}
use nfs_network_file_system.Prelude.Bytes.{Bytes}
use nfs_network_file_system.Text.{space}

abbrev pub max_args : ℕ
max_args = 15

abbrev pub path_max : ℕ
path_max = 4096

-- if (c == '\t' || c == '\n') c = ' ';
abbrev pub to_blank : ℕ → ℕ
to_blank c = if (c == 9) || (c == 10) then space else c

-- The characters up to the next blank, put in front of the words that follow.
abbrev pub add_word : Bytes → List Bytes → List Bytes
add_word [] ws = ws
add_word (c ∷ w) ws = (c ∷ w) ∷ ws

-- All that the calls of `strtok(…, " ")` give: the longest parts with no blank, none of them empty.
unfoldable pub tokens_loop : Bytes → Bytes → List Bytes
tokens_loop [] w = add_word w []
tokens_loop (c ∷ s) w =
    if c == space then add_word w (tokens_loop s []) else tokens_loop s (w ++ c ∷ [])

unfoldable pub tokens : Bytes → List Bytes
unfolding tokens_loop
tokens s = tokens_loop (map to_blank s) []

-- `strcpy(ARGS[idx], token)`; `none` where it writes behind the row or there is no such row.
unfoldable pub copy_arg : List Bytes → ℕ → Bytes → Option (List Bytes)
copy_arg args idx token =
    if ltb idx max_args
    then (if ltb (length token) path_max then some (set args idx token) else none)
    else none

unfoldable pub copy_args : List Bytes → ℕ → List Bytes → Option (List Bytes × ℕ)
copy_args args idx [] = some (args, idx)
copy_args args idx (t ∷ ts) = elim (copy_arg args idx t) [
  | none ↦ none
  | some args' ↦ copy_args args' (idx + 1) ts
]

-- The rows, and `no_args`. Rows that no word is copied to keep what they held. A line with no word is
-- `none` too: `strcpy(ARGS[0], NULL)`.
unfoldable pub process_command : Bytes → List Bytes → Option (List Bytes × ℕ)
process_command command args = elim (tokens command) [
  | [] ↦ none
  | t ∷ ts ↦ copy_args args 0 (t ∷ ts)
]
