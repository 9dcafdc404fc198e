-- ===== src/NamingServer/Tests.antt =====
-- The theorems about namingserver.c at a server with one storage server.
use nfs_network_file_system.Prelude.{
  ◌≤◌, ◌||◌, has, ◌≡◌, ◌≢◌, refl, arith, true, false, ◌&&◌, List, [], ◌∷◌, ◌++◌, some,
  if◌then◌else◌,
}
use nfs_network_file_system.Prelude.Bytes.{Bytes, codes, bytes_eq}
use nfs_network_file_system.Text.{basename, strip_slashes, slash, case_eq}
use nfs_network_file_system.Hashmap.{Hashmap, hashmap_create}
use nfs_network_file_system.MapOperations.{CString, c_string, minus_one, set_value, get_value}
use nfs_network_file_system.MapOperations.Below.{below}
use nfs_network_file_system.MapOperations.Values.{
  IsPath, PathMap, create-PathMap, get_value-set_value, get_value-lookup,
}
use nfs_network_file_system.Hashmap.Set.{hashmap_create-Holds}
use nfs_network_file_system.Hashmap.Dict.{lookup}
use nfs_network_file_system.Io.{registrant, text, sent, received, ok, crashed, c_text}
use nfs_network_file_system.Lru.{create_lru}
use nfs_network_file_system.NamingServer.{NamingServer, StorageServer, literal, ack}
use nfs_network_file_system.NamingServer.Client.{
  fail, handle_copy, handle_create_delete, client_round, quit,
}
use nfs_network_file_system.NamingServer.Talk.{willing}
use nfs_network_file_system.NamingServer.CreateDelete.{
  pass_on_events, answered, is_ack, handle_create_delete-update_paths_create,
  handle_create_delete-update_paths_delete,
}
use nfs_network_file_system.NamingServer.Copy.{
  copy_target, both_acked, whole_copy, all_copy_events, handle_copy-facilitate_copy,
}
use nfs_network_file_system.NamingServer.Register.{max_ss, register_server}
use nfs_network_file_system.NamingServer.Ports.{ports_in_use, register_server-ports_in_use}
use nfs_network_file_system.NamingServer.Rounds.{client_round-AllBlank, client_round-quit}

abbrev dir : Bytes
dir = codes "/d"

dir_IsPath : IsPath dir
dir_IsPath = record { nonempty = λ e. cc; unspaced = (refl, (refl, tt)); bytes = omega arith }

file_IsPath : IsPath (codes "/d/f")
file_IsPath = record {
  nonempty = λ e. cc;
  unspaced = (refl, (refl, (refl, (refl, tt))));
  bytes = omega arith;
}

abbrev with_dir :
    (m : Hashmap) × (set_value hashmap_create (c_string dir) 0 ≡ some m)
    × PathMap m
    × ((q : CString)
        → IsPath q.text
        → get_value m q ≡ (if bytes_eq dir q.text then some 0 else get_value hashmap_create q))
with_dir = get_value-set_value create-PathMap (c_string dir) 0 dir_IsPath (omega arith)

abbrev one_server : NamingServer
one_server = record {
  storage_server_count = 1;
  storage_servers_info =
      record {
        ip = codes "127.0.0.1";
        naming_port = 5000;
        client_port = 6000;
        accessible_paths = dir ∷ [];
      }
      ∷ [];
  used_ports = 8989 ∷ 5000 ∷ 6000 ∷ [];
  accessible_paths = with_dir.0;
  lru = create_lru (literal (codes "#")) hashmap_create 3;
}

dir_known : get_value one_server.accessible_paths (c_string dir) ≡ some 0
unfolding bytes_eq
dir_known = with_dir.3 (c_string dir) dir_IsPath

abbrev create_args : List Bytes
create_args = codes "create" ∷ dir ∷ codes "f" ∷ []

abbrev delete_args : List Bytes
delete_args = codes "DELETE" ∷ dir ∷ []

abbrev unknown_args : List Bytes
unknown_args = codes "DELETE" ∷ codes "/x" ∷ []

handle_create_delete-update_paths_create_example :
    (n' : NamingServer) × (handle_create_delete one_server create_args 3
        (answered create_args ack [] [])
      ≡ ok n' (willing [] ([] ++ pass_on_events one_server create_args 0 (is_ack ack))))
    × (n'.storage_servers_info ≡ one_server.storage_servers_info)
    × PathMap n'.accessible_paths
    × ((q : CString)
        → IsPath q.text
        → get_value n'.accessible_paths q ≡ (
            if is_ack ack && bytes_eq (dir ++ slash ∷ codes "f") q.text
            then some 0
            else get_value one_server.accessible_paths q))
handle_create_delete-update_paths_create_example =
    handle_create_delete-update_paths_create one_server create_args 3 0 ack [] []
      (unfold case_eq in refl) with_dir.2 dir_known (λ e. absurd (omega arith)) (omega arith)
      file_IsPath

handle_create_delete-update_paths_delete_example :
    (n' : NamingServer) × (handle_create_delete one_server delete_args 2
        (answered delete_args ack [] [])
      ≡ ok n' (willing [] ([] ++ pass_on_events one_server delete_args 0 (is_ack ack))))
    × (n'.storage_servers_info ≡ one_server.storage_servers_info)
    × PathMap n'.accessible_paths
    × ((q : CString)
        → IsPath q.text
        → get_value n'.accessible_paths q ≡ (
            if is_ack ack && below dir q.text
            then some minus_one
            else get_value one_server.accessible_paths q))
handle_create_delete-update_paths_delete_example =
    handle_create_delete-update_paths_delete one_server delete_args 2 0 ack [] []
      (unfold case_eq in refl) (unfold case_eq in refl) with_dir.2 dir_known
      (λ e. absurd (omega arith))

abbrev no_server : NamingServer
no_server = record {
  storage_server_count = 0;
  storage_servers_info = [];
  used_ports = 8989 ∷ [];
  accessible_paths = hashmap_create;
  lru = create_lru (literal (codes "#")) hashmap_create 3;
}

nothing_known : get_value no_server.accessible_paths (c_string (codes "/x")) ≡ some minus_one
unfolding lookup
nothing_known = get_value-lookup hashmap_create-Holds (c_string (codes "/x"))

client_round-AllBlank_example :
    client_round one_server [] (willing (received (32 ∷ 10 ∷ []) ∷ []) []) ≡ crashed (willing [] [])
client_round-AllBlank_example =
    client_round-AllBlank one_server [] (32 ∷ 10 ∷ []) [] [] (unfold c_text in (refl, (refl, tt)))

client_round-quit_example :
    client_round one_server [] (willing (received (codes "exit" ++ 10 ∷ []) ∷ []) [])
    ≢ ok (quit one_server) (willing [] [])
client_round-quit_example =
    client_round-quit one_server one_server [] (codes "exit" ++ 10 ∷ []) [] [] [] (willing [] [])
      (unfold c_text in refl)

abbrev clashing : StorageServer
clashing = record {
  ip = codes "127.0.0.1";
  naming_port = 7000;
  client_port = 5000;
  accessible_paths = [];
}

register_server-ports_in_use_example :
    ((has 7000 (ports_in_use one_server) || has 5000 (ports_in_use one_server)) ≡ true
      → register_server one_server clashing (willing [] [])
        ≡ ok one_server (willing [] ([] ++ sent registrant (text fail) ∷ [])))
    × ((has 7000 (ports_in_use one_server) || has 5000 (ports_in_use one_server)) ≡ false
        → max_ss ≤ 1
        → register_server one_server clashing (willing [] []) ≡ crashed (willing [] []))
register_server-ports_in_use_example = register_server-ports_in_use one_server clashing [] []

abbrev copy_args : List Bytes
copy_args = codes "COPY" ∷ dir ∷ dir ∷ []

copied_name : basename dir ≡ codes "d"
unfolding basename strip_slashes
copied_name = refl

copied_IsPath : IsPath (codes "/d/d")
copied_IsPath = record {
  nonempty = λ e. cc;
  unspaced = (refl, (refl, (refl, (refl, tt))));
  bytes = omega arith;
}

handle_copy-facilitate_copy_example :
    (n' : NamingServer) × (args' : List Bytes) × (handle_copy one_server copy_args
        (willing (whole_copy copy_args (codes "d") (codes "abc" ∷ []) 0 ack ack []) [])
      ≡ ok
          (n', args')
          (willing [] (
            []
            ++ all_copy_events one_server copy_args 0 0
                (codes "d")
                (codes "abc" ∷ [])
                (if both_acked ack ack then ack else fail))))
    × PathMap n'.accessible_paths
    × ((q : CString)
        → IsPath q.text
        → get_value n'.accessible_paths q ≡ (
            if both_acked ack ack && bytes_eq (copy_target copy_args) q.text
            then some 0
            else get_value one_server.accessible_paths q))
handle_copy-facilitate_copy_example =
    handle_copy-facilitate_copy one_server copy_args 0 0 (codes "d") (codes "abc" ∷ []) ack ack []
      [] with_dir.2 dir_known dir_known (λ e. absurd (omega arith)) (λ e. absurd (omega arith))
      (omega arith) (unfold c_text in unfold case_eq in (refl, tt)) (rw copied_name copied_IsPath)
