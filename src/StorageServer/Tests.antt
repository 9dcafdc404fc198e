-- ===== src/StorageServer/Tests.antt =====
-- The theorems about storageserverinit.c at a server with no file, and at a file of a few bytes.
use nfs_network_file_system.Prelude.{
  ◌&&◌, leb, length, if◌then◌else◌, ◌≡◌, refl, arith, true, false, List, [], ◌∷◌, ◌++◌, none, some,
}
use nfs_network_file_system.Prelude.Bytes.{Bytes, codes, bytes_eq}
use nfs_network_file_system.Text.{case_eq}
use nfs_network_file_system.MapOperations.{CString, minus_one, get_value}
use nfs_network_file_system.MapOperations.Values.{PathMap, IsPath}
use nfs_network_file_system.Io.{naming, World, client, text, sent, ok, blocked, c_text}
use nfs_network_file_system.Operations.{Files, exited, succeeded}
use nfs_network_file_system.StorageServer.{
  Locks, no_locks, chunks, chunks_loop, read_file, write_to_file,
}
use nfs_network_file_system.StorageServer.Locking.{IsFree, IsShut-blocked}
use nfs_network_file_system.StorageServer.Transfer.{
  concat, AllChunks, chunks-concat, chunk_acks, chunk_events, read_file-chunk_events, incoming,
  answers, write_to_file-concat, write_to_file-chunks,
}
use nfs_network_file_system.StorageServer.Ports.{
  naming_connection, Store, System, create_server_side, read_server_side, initial_store,
}
use nfs_network_file_system.Operations.Lemmas.{joined}
use nfs_network_file_system.StorageServer.Connections.{
  network, word_acks, command_replies, create_words, makes, naming_connection-run_create,
}
use nfs_network_file_system.StorageServer.Created.{
  IsSetUp, last_index, initial_store-last_index, initial_store-IsSetUp, created-blocked,
}
use nfs_network_file_system.StorageServer.Startup.{
  Directory, readable, unreadable, end, file, directory, max_files, get_files,
}
use nfs_network_file_system.StorageServer.Listing.{listing, all_short, get_files-listing}

abbrev quiet : World
quiet = record { sends = []; replies = []; log = [] }

abbrev one_lock : Locks
one_lock = record { semaphores = 1 ∷ []; semlocks = 1 ∷ []; reader_count = 0 ∷ [] }

one_lock-IsFree : IsFree one_lock 0
one_lock-IsFree = record {
  file_value = 0;
  lock_value = 0;
  file_open = refl;
  lock_open = refl;
  unread = refl;
}

IsShut-blocked_example :
    (read_file no_locks 3 (some (codes "abc")) quiet ≡ blocked quiet)
    × (write_to_file no_locks 3 true quiet ≡ blocked quiet)
IsShut-blocked_example =
    IsShut-blocked no_locks 3 (some (codes "abc")) quiet
      (record { file_shut = refl; lock_shut = refl })

chunks-concat_example :
    (concat (chunks (codes "abc")) ≡ codes "abc") × AllChunks (chunks (codes "abc"))
chunks-concat_example = chunks-concat (codes "abc")

read_file-chunk_events_example :
    read_file one_lock 0
      (some (codes "abc"))
      (record { sends = []; replies = chunk_acks (chunks (codes "abc")) []; log = [] })
    ≡ ok one_lock (record {
      sends = [];
      replies = [];
      log = [] ++ chunk_events (chunks (codes "abc")) ++ sent client (text (codes "STOP")) ∷ [];
    })
read_file-chunk_events_example =
    read_file-chunk_events one_lock 0 (codes "abc") [] [] one_lock-IsFree

write_to_file-concat_example :
    write_to_file one_lock 0 true
      (record { sends = []; replies = incoming (codes "abc" ∷ codes "d" ∷ []) []; log = [] })
    ≡ ok
        (one_lock, codes "abcd")
        (record { sends = []; replies = []; log = [] ++ answers (codes "abc" ∷ codes "d" ∷ []) })
write_to_file-concat_example =
    write_to_file-concat one_lock 0 (codes "abc" ∷ codes "d" ∷ []) [] [] one_lock-IsFree
      (unfold c_text in unfold case_eq in (refl, refl, (refl, refl, tt)))

abc_chunks : chunks (codes "abc") ≡ codes "abc" ∷ []
unfolding chunks chunks_loop
abc_chunks = refl

write_to_file-chunks_example :
    write_to_file one_lock 0 true
      (record { sends = []; replies = incoming (chunks (codes "abc")) []; log = [] })
    ≡ ok
        (one_lock, codes "abc")
        (record { sends = []; replies = []; log = [] ++ answers (chunks (codes "abc")) })
write_to_file-chunks_example =
    write_to_file-chunks one_lock 0 (codes "abc") [] [] one_lock-IsFree
      (rw abc_chunks (unfold c_text in unfold case_eq in (refl, refl, tt)))

file_IsPath : IsPath (codes "/d/f")
file_IsPath = record {
  nonempty = λ e. cc;
  unspaced = (refl, (refl, (refl, (refl, tt))));
  bytes = omega arith;
}

dir_IsPath : IsPath (codes "/d")
dir_IsPath = record { nonempty = λ e. cc; unspaced = (refl, (refl, tt)); bytes = omega arith }

initial_store-last_index_example :
    (f : Files) × (l : Locks) × (initial_store (codes "/d" ∷ codes "/d/f" ∷ []) ≡ some (f, l))
    × IsSetUp f l
    × (f.associated_files ≡ 2)
    × ((q : CString)
        → IsPath q.text
        → get_value f.path_to_sem q
          ≡ some (last_index q.text (codes "/d" ∷ codes "/d/f" ∷ []) 0 minus_one))
initial_store-last_index_example =
    initial_store-last_index (codes "/d" ∷ codes "/d/f" ∷ []) (dir_IsPath, (file_IsPath, tt))
      (omega arith)

none_chosen :
    (f : Files) × (l : Locks) × (initial_store [] ≡ some (f, l))
    × IsSetUp f l
    × (f.associated_files ≡ 0)
none_chosen = initial_store-IsSetUp [] tt (omega arith)

-- Files that hold nothing, and programs that succeed.
abbrev empty_files : System (Unit {0})
empty_files = record {
  content = λ fs path. some [];
  can_write = λ fs path. true;
  written = λ fs path content. fs;
  is_directory = λ fs path. some false;
  details = λ fs path. none;
  execute = λ fs command. (exited 0, fs);
}

abbrev new_store : Store (Unit {0})
new_store = record { files = none_chosen.0; locks = none_chosen.1; fs = tt }

created-blocked_example :
    (s' : Store (Unit {0})) × (create_server_side empty_files new_store
        (codes "CREATE" ∷ codes "/d" ∷ codes "f" ∷ [])
        3
        quiet
      ≡ ok (s', 1) quiet)
    × ((read : Bytes) (more : List Bytes) (w' : World)
        → read_server_side empty_files s' (read ∷ codes "/d/f" ∷ more) 2 w' ≡ blocked w')
created-blocked_example =
    created-blocked empty_files new_store (codes "CREATE") (codes "/d") (codes "f") [] quiet
      none_chosen.3 (omega (arith, none_chosen.4)) file_IsPath (omega arith)
      (unfold succeeded in refl)

naming_connection-run_create_example :
    (s' : Store (Unit {0})) × (naming_connection empty_files new_store
        (network (command_replies (create_words (codes "/d") (codes "f")) []) [])
      ≡ ok s' (
          network [] (
            ([] ++ word_acks naming (create_words (codes "/d") (codes "f")))
            ++ sent naming (
                text (
                  if makes empty_files new_store (codes "/d") (codes "f")
                  then codes "ACK"
                  else codes "FAIL"))
              ∷ [])))
    × PathMap s'.files.path_to_sem
    × ((q : CString)
        → IsPath q.text
        → get_value s'.files.path_to_sem q ≡ (
            if makes empty_files new_store (codes "/d") (codes "f")
              && bytes_eq (joined (codes "/d") (codes "f")) q.text
            then some new_store.files.associated_files
            else get_value new_store.files.path_to_sem q))
naming_connection-run_create_example =
    naming_connection-run_create empty_files new_store (codes "/d") (codes "f") [] []
      (unfold c_text in ((refl, omega arith, (refl, omega arith, (refl, omega arith, tt)))))
      none_chosen.3.path_map file_IsPath (omega arith) (omega (arith, none_chosen.4))

abbrev tree : Directory
tree = readable (
    directory (codes ".") unreadable
      (file (codes "f") (directory (codes "d") (readable (file (codes "g") end)) end)))

get_files-listing_example : get_files (codes "/srv") (codes "/srv") tree [] ≡ (
    if all_short (codes "/srv") (listing [] tree) && leb (length (listing [] tree)) max_files
    then some (listing [] tree)
    else none)
get_files-listing_example = get_files-listing (codes "/srv") tree

listing-tree : listing [] tree ≡ codes "/f" ∷ codes "/d" ∷ codes "/d/g" ∷ []
unfolding listing case_eq bytes_eq
listing-tree = refl
