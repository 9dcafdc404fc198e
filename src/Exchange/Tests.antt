-- ===== src/Exchange/Tests.antt =====
-- The theorems about the programs together at one storage server with one directory.
mod Transfer
mod Register
use nfs_network_file_system.Exchange.Write.{user_round-write_server_side, with_written}
use nfs_network_file_system.Exchange.Read.{user_round-read_server_side}
use nfs_network_file_system.StorageServer.Locking.{IsFree}
use nfs_network_file_system.StorageServer.Transfer.{AllPlain, concat}
use nfs_network_file_system.Prelude.{
  ℕ, ◌+◌, ◌*◌, ◌==◌, get_or, drop, replicate, ◌≡◌, refl, arith, true, false, List, [], ◌∷◌, ◌++◌,
  none, some, if◌then◌else◌,
}
use nfs_network_file_system.Prelude.Bytes.{Bytes, codes, bytes_eq}
use nfs_network_file_system.Text.{case_eq}
use nfs_network_file_system.Hashmap.{Hashmap, hashmap_create}
use nfs_network_file_system.MapOperations.{CString, c_string, max_acc_paths, set_value, get_value}
use nfs_network_file_system.MapOperations.Values.{
  IsPath, PathMap, create-PathMap, get_value-set_value,
}
use nfs_network_file_system.Io.{Event, ok, exited as exits, c_text, received}
use nfs_network_file_system.Io.Delivery.{int_bytes, delivered, for_client, for_naming}
use nfs_network_file_system.Lru.{create_lru}
use nfs_network_file_system.Operations.{Files, exited}
use nfs_network_file_system.NamingServer.{NamingServer, StorageServer, zero_server, literal, ack}
use nfs_network_file_system.NamingServer.Client.{next, client_round, command_type}
use nfs_network_file_system.Command.{process_command, tokens, tokens_loop, copy_args, copy_arg}
use nfs_network_file_system.ClientInit.{answer, user_round, outcome}
use nfs_network_file_system.NamingServer.Talk.{willing}
use nfs_network_file_system.StorageServer.{Locks, chunks, chunks_loop}
use nfs_network_file_system.StorageServer.Ports.{Store, System, initial_store, client_connection}
use nfs_network_file_system.StorageServer.Created.{IsSetUp, initial_store-IsSetUp, nothing_stored}
use nfs_network_file_system.StorageServer.Connections.{network}
use nfs_network_file_system.Exchange.Unknown.{user_round-unknown_events}
use nfs_network_file_system.StorageServer.Startup.{
  Directory, readable, end, file, directory, get_files, pick_files, accessible_rows, start_up,
}
use nfs_network_file_system.NamingServer.Register.{initial, path_at, connection, served}
use nfs_network_file_system.NamingServer.First.{AllRows, Registers}
use nfs_network_file_system.Exchange.Register.{
  IsReady, connection-start_up, connection-start_up_refused,
}

abbrev dir : Bytes
dir = codes "/d"

dir_IsPath : IsPath dir
dir_IsPath = record { nonempty = λ e. cc; unspaced = (refl, (refl, tt)); bytes = omega arith }

file_IsPath : IsPath (codes "/d/f")
file_IsPath = record {
  nonempty = λ e. cc;
  unspaced = (refl, (refl, (refl, (refl, tt))));
  bytes = omega arith;
}

abbrev with_dir :
    (m : Hashmap) × (set_value hashmap_create (c_string dir) 0 ≡ some m)
    × PathMap m
    × ((q : CString)
        → IsPath q.text
        → get_value m q ≡ (if bytes_eq dir q.text then some 0 else get_value hashmap_create q))
with_dir = get_value-set_value create-PathMap (c_string dir) 0 dir_IsPath (omega arith)

abbrev one_server : NamingServer
one_server = record {
  storage_server_count = 1;
  storage_servers_info =
      record {
        ip = codes "127.0.0.1";
        naming_port = 5000;
        client_port = 6000;
        accessible_paths = dir ∷ [];
      }
      ∷ [];
  used_ports = 8989 ∷ 5000 ∷ 6000 ∷ [];
  accessible_paths = with_dir.0;
  lru = create_lru (literal (codes "#")) hashmap_create 3;
}

none_chosen :
    (f : Files) × (l : Locks) × (initial_store [] ≡ some (f, l))
    × IsSetUp f l
    × (f.associated_files ≡ 0)
none_chosen = initial_store-IsSetUp [] tt (omega arith)

abbrev empty_files : System (Unit {0})
empty_files = record {
  content = λ fs path. some [];
  can_write = λ fs path. true;
  written = λ fs path content. fs;
  is_directory = λ fs path. some false;
  details = λ fs path. some [];
  execute = λ fs command. (exited 0, fs);
}

abbrev new_store : Store (Unit {0})
new_store = record { files = none_chosen.0; locks = none_chosen.1; fs = tt }

abbrev line : Bytes
line = codes "CREATE /d f" ++ 10 ∷ []

abbrev args : List Bytes
args = codes "CREATE" ∷ dir ∷ codes "f" ∷ replicate 12 []

abbrev unknown_line : Bytes
unknown_line = codes "DETAILS /d/f" ++ 10 ∷ []

abbrev unknown_args : List Bytes
unknown_args = codes "DETAILS" ∷ codes "/d/f" ∷ replicate 13 []

unknown_split : process_command unknown_line (replicate 15 []) ≡ some (unknown_args, 2)
unfolding process_command tokens tokens_loop copy_args copy_arg
unknown_split = refl

user_round-unknown_events_example :
    (user : List Event) × (server : List Event) × (user_round unknown_line none
        (network (delivered server) [])
      ≡ ok
          (answer (
            codes "Path isn't present in any of our storage servers. COMMAND: "
            ++ (codes "DETAILS" ++ codes " <PATH> <FILENAME>")))
          (network [] user))
    × (client_round initial (replicate 15 []) (willing (delivered user) [])
        ≡ ok (next initial unknown_args) (willing [] server))
    × (for_client server ≡ server)
unfolding initial hashmap_create
user_round-unknown_events_example =
    user_round-unknown_events initial unknown_line (codes "DETAILS") (codes "/d/f")
      (replicate 15 []) (replicate 13 []) 2 4 (unfold case_eq in refl) (unfold c_text in refl)
      (unfold c_text in refl) unknown_split (unfold command_type in unfold case_eq in refl)
      (nothing_stored (c_string (codes "/d/f")))
