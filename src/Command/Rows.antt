-- ===== src/Command/Rows.antt =====
-- What the rows of `ARGS` hold after `processCommand`.
use nfs_network_file_system.Prelude.{
  ℕ, ◌+◌, ◌<◌, ◌≤◌, ◌≡◌, refl, ◌∙◌, List, [], ◌∷◌, some, ◌==◌, if◌then◌else◌, arith, length, get_or,
  set, length-set, get_or-set,
}
use nfs_network_file_system.Prelude.Bytes.{Bytes}
use nfs_network_file_system.Command.{
  max_args, path_max, copy_arg, copy_args, tokens, process_command,
}

-- Every word and its NUL fit into a row.
abbrev pub AllFit : List Bytes → Type 0
AllFit [] = Unit {0}
AllFit (w ∷ ws) = (length w < path_max) × AllFit ws

-- Row number `i` after the words are copied to the rows from number `from` on: a row with no word for it
-- is as it was.
abbrev pub row_after : List Bytes → ℕ → List Bytes → ℕ → Bytes
row_after args from [] i = get_or args i []
row_after args from (w ∷ ws) i = if i == from then w else row_after args (from + 1) ws i

copy_arg-set :
    (args : List Bytes) (idx : ℕ) (w : Bytes)
    → idx < max_args
    → length w < path_max
    → copy_arg args idx w ≡ some (set args idx w)
unfolding copy_arg
copy_arg-set args idx w h fits = ground arith

row_after-set :
    (args : List Bytes) (idx from : ℕ) (v : Bytes) (ws : List Bytes) (i : ℕ)
    → idx < length args
    → idx < from
    → row_after (set args idx v) from ws i ≡ (if i == idx then v else row_after args from ws i)
row_after-set args idx from v [] i h lt = ground (arith, get_or-set args idx i v [] h)
row_after-set args idx from v (w ∷ ws) i h lt =
    let rest = row_after-set args idx (from + 1) v ws i h (omega arith) in ground (arith, rest)

copy_args-row_after :
    (args : List Bytes) (from : ℕ) (ws : List Bytes)
    → length args ≡ max_args
    → from + length ws ≤ max_args
    → AllFit ws
    → (args' : List Bytes) × (copy_args args from ws ≡ some (args', from + length ws))
      × (length args' ≡ max_args)
      × ((i : ℕ) → get_or args' i [] ≡ row_after args from ws i)
unfolding copy_args
copy_args-row_after args from [] full room fit = (args, ground arith, full, λ i. refl)
copy_args-row_after args from (w ∷ ws) full room fit =
    let step = copy_arg-set args from w (omega arith) fit.0 in
    let (args', run, full', rows) =
      copy_args-row_after (set args from w) (from + 1) ws (length-set args from w ∙ full)
        (omega arith) fit.1 in
    (
      args',
      ground (arith, step, run),
      full',
      λ i. rows i ∙ row_after-set args from (from + 1) w ws i (omega arith) (omega arith),
    )

from_tokens :
    (line : Bytes) (args ws : List Bytes)
    → tokens line ≡ ws
    → length args ≡ max_args
    → 0 < length ws
    → length ws ≤ max_args
    → AllFit ws
    → (args' : List Bytes) × (process_command line args ≡ some (args', length ws))
      × (length args' ≡ max_args)
      × ((i : ℕ) → get_or args' i [] ≡ row_after args 0 ws i)
unfolding process_command
from_tokens line args [] split full some_word room fit = absurd (omega arith)
from_tokens line args (w ∷ ws) split full some_word room fit =
    let (args', run, full', rows) = copy_args-row_after args 0 (w ∷ ws) full (omega arith) fit in
    (args', ground (arith, split, run), full', rows)

-- A line of one to fifteen words, each of which fits into a row, is split without a fault: the number of
-- arguments is that of the words, the first rows hold the words in their order, and every row after them
-- still holds what it held.
pub process_command-row_after :
    (line : Bytes) (args : List Bytes)
    → length args ≡ max_args
    → 0 < length (tokens line)
    → length (tokens line) ≤ max_args
    → AllFit (tokens line)
    → (args' : List Bytes) × (process_command line args ≡ some (args', length (tokens line)))
      × (length args' ≡ max_args)
      × ((i : ℕ) → get_or args' i [] ≡ row_after args 0 (tokens line) i)
process_command-row_after line args full some_word room fit =
    from_tokens line args (tokens line) refl full some_word room fit
