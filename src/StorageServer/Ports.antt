-- ===== src/StorageServer/Ports.antt =====
-- storageserverinit.c: the commands of the naming server and of clients, the thread of a port, and what
-- `main` sets up for the chosen files.
use nfs_network_file_system.Prelude.{
  ℕ, zero, suc, ◌+◌, Bool, true, false, List, [], ◌∷◌, ◌++◌, Option, none, some, ◌==◌, ltb,
  if◌then◌else◌, get_or, set, length,
}
use nfs_network_file_system.Prelude.Bytes.{Bytes, codes}
use nfs_network_file_system.Text.{slash, case_eq, basename}
use nfs_network_file_system.Hashmap.{hashmap_create}
use nfs_network_file_system.MapOperations.{c_string, minus_one, max_acc_paths, set_value, get_value}
use nfs_network_file_system.Io.{
  Socket, client, naming, text, number, Run, Io, pure, ◌>>=◌, ◌>>◌, returning, send, recv,
  recv_text, recv_new_int, exit_failure, crash,
}
use nfs_network_file_system.Command.{path_max}
use nfs_network_file_system.Operations.{
  Files, Outcome, create_command, delete_command, run_create, run_delete,
}
use nfs_network_file_system.StorageServer.{
  Locks, no_locks, read_file, write_to_file, send_file, is_archive, receive_all,
}

-- The globals of a storage server.
pub record Store (Fs : Type 0) : Type 0 where
  pub files : Files
  pub locks : Locks
  pub fs : Fs

-- What the server asks of the operating system, on a state `Fs` of its files: `fopen` for reading and for
-- writing, the content that a written file is left with, `stat` for a directory and for the line of
-- details, and a program that is run.
pub record System (Fs : Type 0) : Type 0 where
  pub content : Fs → Bytes → Option Bytes
  pub can_write : Fs → Bytes → Bool
  pub written : Fs → Bytes → Bytes → Fs
  pub is_directory : Fs → Bytes → Option Bool
  pub details : Fs → Bytes → Option Bytes
  pub execute : Fs → List Bytes → Outcome × Fs

-- The arguments of a connection, each acknowledged; `strcpy` writes behind a row that is too short.
unfoldable pub recv_arguments : Socket → ℕ → Io (List Bytes)
recv_arguments peer zero = pure []
recv_arguments peer (suc n) = do
  argument ← recv_text
  if ltb (length argument) path_max
      then (do
        send peer (text (codes "ACK"))
        arguments ← recv_arguments peer n
        pure (argument ∷ arguments))
      else crash

module _ {Fs : Type 0} (os : System Fs) where
  abbrev pub dotted : Bytes → Bytes
  dotted path = b'.' ∷ path

  abbrev pub arg : List Bytes → ℕ → Bytes
  arg args i = get_or args i []

  abbrev pub with_result : Fs → Locks → Option (Files × ℕ) → Io (Store Fs × ℕ)
  with_result fs l none = λ w. Run.blocked w
  with_result fs l (some (f, result)) = pure (record { files = f; locks = l; fs = fs }, result)

  -- `runCreate` and `runDelete`, with the files after the program that they run.
  unfoldable pub create_server_side : Store Fs → List Bytes → ℕ → Io (Store Fs × ℕ)
  create_server_side s args no_args =
      let command = create_command (arg args 1) (arg args 2) in
      with_result (if no_args == 3 then (os.execute s.fs command).1 else s.fs) s.locks
        (run_create (λ c. (os.execute s.fs c).0) s.files args no_args)

  unfoldable pub delete_server_side : Store Fs → List Bytes → ℕ → Io (Store Fs × ℕ)
  delete_server_side s args no_args =
      let command = delete_command (arg args 1) in
      with_result (if no_args == 2 then (os.execute s.fs command).1 else s.fs) s.locks
        (run_delete (λ c. (os.execute s.fs c).0) s.files args no_args)

  unfoldable pub read_server_side : Store Fs → List Bytes → ℕ → Io (Store Fs × ℕ)
  read_server_side s args no_args =
      if no_args == 2
      then (do
        sem_index ← returning (get_value s.files.path_to_sem (c_string (arg args 1)))
        if sem_index == minus_one then pure (s, 0) else do
          l ← read_file s.locks sem_index (os.content s.fs (dotted (arg args 1)))
          pure (record s { locks = l }, 1))
      else pure (s, 0)

  unfoldable pub write_server_side : Store Fs → List Bytes → ℕ → Io (Store Fs × ℕ)
  write_server_side s args no_args =
      if no_args == 2
      then (do
        sem_index ← returning (get_value s.files.path_to_sem (c_string (arg args 1)))
        if sem_index == minus_one then pure (s, 0) else do
          let path = dotted (arg args 1)
          (l, content) ← write_to_file s.locks sem_index (os.can_write s.fs path)
          pure (record s { locks = l; fs = os.written s.fs path content }, 1))
      else pure (s, 0)

  -- The line of details is sent, and any answer is awaited.
  unfoldable pub file_details_server_side : Store Fs → List Bytes → ℕ → Io (Store Fs × ℕ)
  file_details_server_side s args no_args =
      if no_args == 2
      then elim (os.details s.fs (dotted (arg args 1))) [
        | none ↦ exit_failure
        | some line ↦ do send client (text line); _ ← recv; pure (s, 1)
      ]
      else pure (s, 0)

  abbrev pub archive : Bytes → Bytes
  archive path = path ++ codes ".tar.gz"

  -- A directory is packed into an archive, which is sent and then removed. The shell's commands are run by
  -- `system`, whose result is not looked at.
  unfoldable pub run_send : Store Fs → List Bytes → ℕ → Io (Store Fs × ℕ)
  run_send s args no_args =
      let path = dotted (arg args 1) in
      if no_args == 2
      then elim (os.is_directory s.fs path) [
        | none ↦ exit_failure
        | some false ↦ do send_file path (os.content s.fs path); pure (s, 1)
        | some true ↦ do
          let packed = (os.execute s.fs (codes "tar" ∷ codes "-czvf" ∷ archive path ∷ path ∷ [])).1
          send_file (archive path) (os.content packed (archive path))
          pure (
            record s { fs = (os.execute packed (codes "rm" ∷ basename (archive path) ∷ [])).1 },
            1,
          )
      ]
      else pure (s, 0)

  -- `receive_file`: the name, the chunks, and whether it is an archive, which is then unpacked.
  unfoldable pub run_receive : Store Fs → List Bytes → ℕ → Io (Store Fs × ℕ)
  run_receive s args no_args =
      let path = dotted (arg args 1) in
      if no_args == 2
      then (do
        name ← recv_text
        let target = path ++ slash ∷ name
        elim (is_archive name) [
          | none ↦ crash
          | some zip ↦
              if os.can_write s.fs target
              then (do
                content ← receive_all
                send naming (number (if zip then 1 else 0))
                let fs' = os.written s.fs target content
                pure (
                  record s {
                    fs =
                        if zip
                        then (os.execute fs'
                            (codes "tar" ∷ codes "-xzf" ∷ target ∷ codes "-C" ∷ path ∷ [])).1
                        else fs';
                  },
                  1,
                ))
              else exit_failure
        ])
      else pure (s, 0)

  unfoldable pub exec_client_command : Store Fs → List Bytes → ℕ → Io (Store Fs × ℕ)
  unfolding read_server_side write_server_side file_details_server_side
  exec_client_command s args no_args =
      if case_eq (arg args 0) (codes "READ")
      then read_server_side s args no_args
      else if case_eq (arg args 0) (codes "WRITE")
      then write_server_side s args no_args
      else if case_eq (arg args 0) (codes "DETAILS")
      then file_details_server_side s args no_args
      else pure (s, minus_one)

  unfoldable pub exec_command : Store Fs → List Bytes → ℕ → Io (Store Fs × ℕ)
  unfolding create_server_side delete_server_side run_send run_receive
  exec_command s args no_args =
      if case_eq (arg args 0) (codes "CREATE")
      then create_server_side s args no_args
      else if case_eq (arg args 0) (codes "DELETE")
      then delete_server_side s args no_args
      else if case_eq (arg args 0) (codes "SEND")
      then run_send s args no_args
      else if case_eq (arg args 0) (codes "RECEIVE")
      then run_receive s args no_args
      else pure (s, minus_one)

  -- `ARGS[0]` is read whatever their number is.
  abbrev pub with_command : List Bytes → Io (Store Fs × ℕ) → Io (Store Fs × ℕ)
  with_command [] run = crash
  with_command (a ∷ args) run = run

  -- One connection at the port for the naming server.
  unfoldable pub naming_connection : Store Fs → Io (Store Fs)
  unfolding recv_arguments exec_command
  naming_connection s = do
    no_args ← recv_new_int
    args ← recv_arguments naming no_args
    done ← recv_text
    if case_eq done (codes "DONE")
        then (do
          (s', result) ← with_command args (exec_command s args no_args)
          send naming (text (if result == 1 then codes "ACK" else codes "FAIL"))
          pure s')
        else exit_failure

  -- One connection at the port for clients.
  unfoldable pub client_connection : Store Fs → Io (Store Fs)
  unfolding recv_arguments exec_client_command
  client_connection s = do
    no_args ← recv_new_int
    args ← recv_arguments client no_args
    done ← recv_text
    if case_eq done (codes "DONE")
        then (do (s', result) ← with_command args (exec_client_command s args no_args); pure s')
        else exit_failure

-- The loop of `main` over the files that are chosen: each gets the next index, whose semaphores are
-- initialised with 1.
unfoldable pub choose_files : List Bytes → Files → Locks → Option (Files × Locks)
choose_files [] f l = some (f, l)
choose_files (p ∷ ps) f l =
    let i = f.associated_files in
    elim (set_value f.path_to_sem (c_string p) i) [
      | none ↦ none
      | some m ↦
          choose_files ps (record { path_to_sem = m; associated_files = i + 1 })
            (record {
              semaphores = set l.semaphores i 1;
              semlocks = set l.semlocks i 1;
              reader_count = set l.reader_count i 0;
            })
    ]

-- `main` before it registers; `none` where it exits because too many files are asked for.
unfoldable pub initial_store : List Bytes → Option (Files × Locks)
unfolding choose_files
initial_store chosen =
    if ltb max_acc_paths (length chosen)
    then none
    else choose_files chosen (record { path_to_sem = hashmap_create; associated_files = 0 })
        no_locks
