-- ===== src/Exchange/Tests/Transfer.antt =====
-- The theorems about READ and WRITE at one storage server with one file.
use nfs_network_file_system.Exchange.Write.{user_round-write_server_side, with_written}
use nfs_network_file_system.Exchange.Read.{user_round-read_server_side}
use nfs_network_file_system.StorageServer.Locking.{IsFree}
use nfs_network_file_system.StorageServer.Transfer.{AllPlain, concat}
use nfs_network_file_system.Prelude.{
  replicate, ◌≡◌, refl, arith, true, false, List, [], ◌∷◌, ◌++◌, none, some, if◌then◌else◌,
}
use nfs_network_file_system.Prelude.Bytes.{Bytes, codes, bytes_eq}
use nfs_network_file_system.Text.{case_eq}
use nfs_network_file_system.Hashmap.{Hashmap, hashmap_create}
use nfs_network_file_system.MapOperations.{CString, c_string, set_value, get_value}
use nfs_network_file_system.MapOperations.Values.{
  IsPath, PathMap, create-PathMap, get_value-set_value,
}
use nfs_network_file_system.Io.{Event, ok, c_text, received}
use nfs_network_file_system.Io.Delivery.{delivered, for_storage, for_client, for_naming}
use nfs_network_file_system.Operations.{exited}
use nfs_network_file_system.NamingServer.{NamingServer, ack}
use nfs_network_file_system.NamingServer.Client.{next, client_round}
use nfs_network_file_system.Command.{process_command, tokens, tokens_loop, copy_args, copy_arg}
use nfs_network_file_system.ClientInit.{user_round, outcome}
use nfs_network_file_system.NamingServer.Talk.{willing}
use nfs_network_file_system.StorageServer.{chunks, chunks_loop}
use nfs_network_file_system.StorageServer.Ports.{Store, System, client_connection}
use nfs_network_file_system.StorageServer.Connections.{network}
use nfs_network_file_system.Exchange.Tests.{file_IsPath, one_server, empty_files}

abbrev file_path : Bytes
file_path = codes "/d/f"

abbrev with_file :
    (m : Hashmap) × (set_value hashmap_create (c_string file_path) 0 ≡ some m)
    × PathMap m
    × ((q : CString)
        → IsPath q.text
        → get_value m q
          ≡ (if bytes_eq file_path q.text then some 0 else get_value hashmap_create q))
with_file = get_value-set_value create-PathMap (c_string file_path) 0 file_IsPath (omega arith)

file_known : get_value with_file.0 (c_string file_path) ≡ some 0
unfolding bytes_eq
file_known = with_file.3 (c_string file_path) file_IsPath

abbrev file_server : NamingServer
file_server = record one_server { accessible_paths = with_file.0 }

-- One file, with an index whose semaphores are free.
abbrev file_store : Store (Unit {0})
file_store = record {
  files = record { path_to_sem = with_file.0; associated_files = 1 };
  locks = record { semaphores = 1 ∷ []; semlocks = 1 ∷ []; reader_count = 0 ∷ [] };
  fs = tt;
}

file_store-IsFree : IsFree file_store.locks 0
file_store-IsFree = record {
  file_value = 0;
  lock_value = 0;
  file_open = refl;
  lock_open = refl;
  unread = refl;
}

abbrev abc : Bytes
abc = codes "abc"

abbrev abc_files : System (Unit {0})
abc_files = record empty_files { content = λ fs path. some abc }

abc-chunks : chunks abc ≡ abc ∷ []
unfolding chunks chunks_loop
abc-chunks = refl

abc_plain : AllPlain (chunks abc)
abc_plain = rw abc-chunks (unfold c_text in unfold case_eq in (refl, refl, tt))

abbrev read_line : Bytes
read_line = codes "READ /d/f" ++ 10 ∷ []

abbrev read_args : List Bytes
read_args = codes "READ" ∷ file_path ∷ replicate 13 []

read_split : process_command read_line (replicate 15 []) ≡ some (read_args, 2)
unfolding process_command tokens tokens_loop copy_args copy_arg
read_split = refl

user_round-read_server_side_example :
    (user : List Event) × (server : List Event) × (peer : List Event) × (printed : List Bytes)
    × (user_round read_line none (network (delivered (for_client server) ++ delivered peer) [])
        ≡ ok (outcome 1 printed) (network [] user))
    × (client_round file_server (replicate 15 []) (willing (delivered (for_naming user)) [])
        ≡ ok (next file_server read_args) (willing [] server))
    × (client_connection abc_files file_store
          (network (delivered (for_storage (codes "127.0.0.1") 6000 user)) [])
        ≡ ok file_store (network (received ack ∷ []) peer))
    × (concat printed ≡ abc)
user_round-read_server_side_example =
    user_round-read_server_side abc_files file_server file_store read_line file_path abc
      (replicate 15 []) (replicate 13 []) (replicate 13 []) 0 0 (unfold case_eq in refl)
      (unfold c_text in refl) read_split read_split
      (unfold c_text in ((refl, omega arith, (refl, omega arith, tt)))) file_known
      (λ e. absurd (omega arith)) (unfold c_text in refl) (omega arith) file_known
      (λ e. absurd (omega arith)) file_store-IsFree refl abc_plain

abbrev write_line : Bytes
write_line = codes "WRITE /d/f" ++ 10 ∷ []

abbrev write_args : List Bytes
write_args = codes "WRITE" ∷ file_path ∷ replicate 13 []

write_split : process_command write_line (replicate 15 []) ≡ some (write_args, 2)
unfolding process_command tokens tokens_loop copy_args copy_arg
write_split = refl

-- The file of the storage server is the state.
abbrev one_file : System Bytes
one_file = record {
  content = λ fs path. some fs;
  can_write = λ fs path. true;
  written = λ fs path content. content;
  is_directory = λ fs path. some false;
  details = λ fs path. some [];
  execute = λ fs command. (exited 0, fs);
}

abbrev bytes_store : Store Bytes
bytes_store = record { files = file_store.files; locks = file_store.locks; fs = codes "old" }

bytes_store-IsFree : IsFree bytes_store.locks 0
bytes_store-IsFree = record {
  file_value = 0;
  lock_value = 0;
  file_open = refl;
  lock_open = refl;
  unread = refl;
}

user_round-write_server_side_example :
    (user : List Event) × (server : List Event) × (peer : List Event) × (user_round write_line
        (some abc)
        (network (delivered (for_client server) ++ delivered peer) [])
      ≡ ok (outcome 1 []) (network (received ack ∷ []) user))
    × (client_round file_server (replicate 15 []) (willing (delivered (for_naming user)) [])
        ≡ ok (next file_server write_args) (willing [] server))
    × (client_connection one_file bytes_store
          (network (delivered (for_storage (codes "127.0.0.1") 6000 user)) [])
        ≡ ok (with_written one_file bytes_store file_path abc) (network [] peer))
user_round-write_server_side_example =
    user_round-write_server_side one_file file_server bytes_store write_line file_path abc
      (replicate 15 []) (replicate 13 []) (replicate 13 []) 0 0 (unfold case_eq in refl)
      (unfold c_text in refl) write_split write_split
      (unfold c_text in ((refl, omega arith, (refl, omega arith, tt)))) file_known
      (λ e. absurd (omega arith)) (unfold c_text in refl) (omega arith) file_known
      (λ e. absurd (omega arith)) bytes_store-IsFree refl abc_plain
