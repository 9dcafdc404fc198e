-- ===== src/Operations.antt =====
-- operations/create_file.c and operations/delete.c: the commands CREATE and DELETE on a storage server.
pub mod Lemmas
pub mod Extension
mod Tests
use nfs_network_file_system.Prelude.{
  ℕ, zero, suc, ◌+◌, ◌-◌, ◌<◌, ◌&&◌, Bool, true, false, not, List, [], ◌∷◌, ◌++◌, Option, none,
  some, ◌==◌, ltb, if◌then◌else◌, ◌>>=◌, get_or, length, take, drop,
}
use nfs_network_file_system.Prelude.Bytes.{Bytes, codes}
use nfs_network_file_system.Text.{slash, char_at}
use nfs_network_file_system.Hashmap.{Hashmap}
use nfs_network_file_system.MapOperations.{CString, minus_one, set_value, remove_entry}
use nfs_network_file_system.Command.{path_max}

-- The globals of the storage server that the operations change.
pub record Files : Type 0 where
  pub path_to_sem : Hashmap
  pub associated_files : ℕ

-- How `fork` and the program that the child runs end.
pub data Outcome : Type 0 where
  fork_failed : Outcome
  exited : ℕ → Outcome
  signalled : Outcome

-- WIFEXITED(status) && WEXITSTATUS(status) == 0
unfoldable pub succeeded : Outcome → Bool
succeeded fork_failed = false
succeeded (exited status) = status == 0
succeeded signalled = false

-- `strchr(s, '.')`: the position of the first period.
unfoldable pub first_period : Bytes → Option ℕ
first_period [] = none
first_period (c ∷ s) = if c == b'.' then some 0 else do i ← first_period s; some (i + 1)

-- extension && extension != filename && extension[1] != '\0'
unfoldable pub is_file : Bytes → Bool
unfolding first_period
is_file name = elim (first_period name) [
  | none ↦ false
  | some i ↦ not (i == 0) && not (char_at name (i + 1) == 0)
]

-- The texts that `snprintf` cuts to the size of `full_path`.
unfoldable pub create_full_path : Bytes → Bytes → Bytes
create_full_path path filename = take (path_max - 1) (b'.' ∷ path ++ slash ∷ filename)

unfoldable pub delete_full_path : Bytes → Bytes
delete_full_path path = take (path_max - 1) (b'.' ∷ path)

unfoldable pub create_command : Bytes → Bytes → List Bytes
unfolding is_file create_full_path
create_command path filename =
    (if is_file filename then codes "touch" else codes "mkdir")
    ∷ create_full_path path filename
    ∷ []

unfoldable pub delete_command : Bytes → List Bytes
unfolding is_file delete_full_path
delete_command path =
    if is_file path
    then codes "rm" ∷ delete_full_path path ∷ []
    else codes "rm" ∷ codes "-rf" ∷ delete_full_path path ∷ []

-- `full_path + 1`, with the period in front of it.
unfoldable pub inner_path : Bytes → CString
inner_path full_path = record { before = b'.'; text = drop 1 full_path }

-- What a program that is run comes to is a parameter.
module _ (execvp : List Bytes → Outcome) where
  unfoldable pub create : Files → Bytes → Bytes → Option (Files × ℕ)
  unfolding create_command inner_path succeeded
  create f path filename =
      if succeeded (execvp (create_command path filename))
      then (do
        m ← set_value f.path_to_sem (inner_path (create_full_path path filename)) f.associated_files
        some (record { path_to_sem = m; associated_files = f.associated_files + 1 }, 1))
      else some (f, 0)

  -- 1 for a success, 0 for a failure, -1 for a syntax error.
  unfoldable pub run_create : Files → List Bytes → ℕ → Option (Files × ℕ)
  unfolding create
  run_create f args no_args =
      if no_args == 3 then create f (get_or args 1 []) (get_or args 2 []) else some (f, minus_one)

  unfoldable pub delete_item : Files → Bytes → Option (Files × ℕ)
  unfolding delete_command inner_path succeeded
  delete_item f path =
      if succeeded (execvp (delete_command path))
      then (do
        m ← remove_entry f.path_to_sem (inner_path (delete_full_path path)).text
        some (record f { path_to_sem = m }, 1))
      else some (f, 0)

  unfoldable pub run_delete : Files → List Bytes → ℕ → Option (Files × ℕ)
  unfolding delete_item
  run_delete f args no_args =
      if no_args == 2 then delete_item f (get_or args 1 []) else some (f, minus_one)
