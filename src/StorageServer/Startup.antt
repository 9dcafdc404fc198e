-- ===== src/StorageServer/Startup.antt =====
-- storageserverinit.c before the threads of its ports start: `getFiles`, which lists the files below the
-- server's directory, the choice of the accessible ones, and the registration with the naming server.
use nfs_network_file_system.Prelude.{
  ℕ, zero, suc, ◌+◌, Bool, ◌&&◌, ◌||◌, List, [], ◌∷◌, ◌++◌, Option, none, some, ltb, if◌then◌else◌,
  length, drop, set, get_elem?,
}
use nfs_network_file_system.Prelude.Bytes.{Bytes, codes}
use nfs_network_file_system.Text.{slash, case_eq}
use nfs_network_file_system.MapOperations.{max_acc_paths}
use nfs_network_file_system.Io.{
  naming, text, chunk, Io, pure, ◌>>=◌, ◌>>◌, or_crash, send, recv, recv_text, exit_failure,
}
use nfs_network_file_system.Command.{path_max}
use nfs_network_file_system.Operations.{Files}
use nfs_network_file_system.NamingServer.{StorageServer}
use nfs_network_file_system.StorageServer.{Locks}
use nfs_network_file_system.StorageServer.Ports.{initial_store}

-- What `opendir` and `readdir` give: a directory that cannot be opened, or its entries in the order in
-- which they are read. An entry that is no directory by its `d_type` is a file.
mutual
  pub data Directory : Type 0 where
    unreadable : Directory
    readable : Entries → Directory

  pub data Entries : Type 0 where
    end : Entries
    file : Bytes → Entries → Entries
    directory : Bytes → Directory → Entries → Entries

abbrev pub max_files : ℕ
max_files = 1024

abbrev pub max_file_name_len : ℕ
max_file_name_len = 256

-- The names that `getFiles` passes over: the directory itself and the one above.
abbrev pub is_dots : Bytes → Bool
is_dots name = case_eq name (codes ".") || case_eq name (codes "..")

abbrev pub joined_path : Bytes → Bytes → Bytes
joined_path path name = path ++ slash ∷ name

-- The name is put together in a buffer of `PATH_MAX` bytes, less the server's own path, and is copied to
-- the next of the 1024 buffers of 256 bytes: `none` where a copy leaves its buffer. The names that are
-- there are all that `it_array` counts. The `strcpy` of a text to its own beginning is taken to copy
-- byte after byte.
unfoldable pub add_file : Bytes → Bytes → Bytes → List Bytes → Option (List Bytes)
add_file root path name files =
    let full = joined_path path name in
    let relative = drop (length root) full in
    if ltb (length full) path_max
      && (ltb (length relative) max_file_name_len && ltb (length files) max_files)
    then some (files ++ relative ∷ [])
    else none

-- A name that is not passed over is added.
unfoldable pub add_named : Bytes → Bytes → Bytes → List Bytes → Option (List Bytes)
unfolding add_file
add_named root path name files = if is_dots name then some files else add_file root path name files

unfoldable mutual
  unfolding add_named

  pub get_files : Bytes → Bytes → Directory → List Bytes → Option (List Bytes)
  get_files root path unreadable files = some files
  get_files root path (readable es) files = get_entries root path es files

  pub get_entries : Bytes → Bytes → Entries → List Bytes → Option (List Bytes)
  get_entries root path end files = some files
  get_entries root path (file name es) files = elim (add_named root path name files) [
    | none ↦ none
    | some files' ↦ get_entries root path es files'
  ]
  get_entries root path (directory name d es) files = elim (add_named root path name files) [
    | none ↦ none
    | some files' ↦
        elim (if is_dots name
          then some files'
          else get_files root (joined_path path name) d files') [
            | none ↦ none
            | some files'' ↦ get_entries root path es files''
          ]
  ]

-- `files[file_num - 1]` for each number that is typed in; the buffers without a name are not read.
unfoldable pub pick_files : List Bytes → List ℕ → Option (List Bytes)
pick_files files [] = some []
pick_files files (zero ∷ numbers) = none
pick_files files (suc i ∷ numbers) = elim (get_elem? files i) [
  | none ↦ none
  | some p ↦ elim (pick_files files numbers) [ none ↦ none | some ps ↦ some (p ∷ ps) ]
]

-- The rows of `accessible_paths` as they are on the stack, with `/home/` in the first one, and over
-- them the chosen files.
unfoldable pub fill_rows : ℕ → List Bytes → List Bytes → List Bytes
fill_rows i [] rows = rows
fill_rows i (p ∷ ps) rows = fill_rows (i + 1) ps (set rows i p)

unfoldable pub accessible_rows : List Bytes → List Bytes → List Bytes
unfolding fill_rows
accessible_rows rows chosen = fill_rows 0 chosen (set rows 0 (codes "/home/"))

-- `encode` gives the bytes of a `struct StorageServer`.
module _ (encode : StorageServer → Bytes) where
  -- The exchange with the naming server.
  unfoldable pub register : StorageServer → Io (Unit {0})
  register ss = do
    send naming (text (codes "s"))
    started ← recv
    send naming (chunk (encode ss))
    answer ← recv_text
    if case_eq answer (codes "ACK") then pure tt else exit_failure

  -- `main` up to the threads, from the server's path and what is below it, for the ports and the
  -- numbers of files that are typed in. `stack` is what stands in the rows before they are written.
  unfoldable pub start_up :
      Bytes → Directory → ℕ → ℕ → List ℕ → Bytes → List Bytes → Io (Files × Locks)
  start_up root dir naming_port client_port numbers ip stack = do
    files ← or_crash (get_files root root dir [])
    if ltb max_acc_paths (length numbers) then exit_failure else do
      chosen ← or_crash (pick_files files numbers)
      (f, l) ← or_crash (initial_store chosen)
      register (record {
        ip = ip;
        naming_port = naming_port;
        client_port = client_port;
        accessible_paths = accessible_rows stack chosen;
      })
      pure (f, l)
