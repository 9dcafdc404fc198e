-- ===== src/NamingServer/Register.antt =====
-- `main` of namingserver.c: a connection comes in, and a storage server registers.
use nfs_network_file_system.Prelude.{
  ℕ, zero, suc, ◌+◌, ◌-◌, ◌*◌, ◌/◌, ◌^◌, ◌||◌, Bool, false, List, [], ◌∷◌, ◌++◌, Option, none, some,
  ◌==◌, ltb, if◌then◌else◌, get_or, set, replicate,
}
use nfs_network_file_system.Prelude.Bytes.{Bytes, codes}
use nfs_network_file_system.Text.{case_eq}
use nfs_network_file_system.Hashmap.{hashmap_create}
use nfs_network_file_system.MapOperations.{CString, c_string, max_acc_paths, set_value}
use nfs_network_file_system.Io.{
  client, registrant, text, Io, pure, ◌>>=◌, ◌>>◌, send, recv, recv_text, crash,
}
use nfs_network_file_system.Lru.{create_lru, put_lru}
use nfs_network_file_system.NamingServer.{
  NamingServer, Key, path_row, literal, StorageServer, zero_server, ack,
}
use nfs_network_file_system.NamingServer.Client.{white, fail}

abbrev pub max_ss : ℕ
max_ss = 10

abbrev pub naming_server_port : ℕ
naming_server_port = 8989

-- The globals at the start of the loop of `main`.
unfoldable pub initial : NamingServer
initial = record {
  storage_server_count = 0;
  storage_servers_info = replicate max_ss zero_server;
  used_ports = naming_server_port ∷ replicate (max_ss * 2) 0;
  accessible_paths = hashmap_create;
  lru = create_lru (literal (codes "#")) hashmap_create 3;
}

-- The loop over the first `n` of the ports in use, with its `break`.
unfoldable pub ports_taken : List ℕ → ℕ → ℕ → ℕ → Bool
ports_taken ports zero naming_port client_port = false
ports_taken [] (suc n) naming_port client_port = false
ports_taken (p ∷ ports) (suc n) naming_port client_port =
    (naming_port == p) || (client_port == p) || ports_taken ports n naming_port client_port

-- `storageServer.accessible_paths[i]`, and the byte in front of it: the last one of the row above,
-- or of `client_port`.
unfoldable pub path_at : StorageServer → ℕ → CString
path_at ss zero = record {
  before = ss.client_port / 2 ^ 24;
  text = get_or ss.accessible_paths 0 [];
}
path_at ss (suc i) = c_string (get_or ss.accessible_paths (suc i) [])

-- What stands at a key of the LRU while `main` keeps the server in its local `storageServer`.
unfoldable pub text_of : StorageServer → Key → CString
unfolding path_at
text_of ss (path_row i) = path_at ss i
text_of ss (literal s) = c_string s

-- The loop over the rows from number `i` on, `n` of them. The rows are in bounds.
unfoldable pub add_paths : StorageServer → ℕ → ℕ → NamingServer → Option NamingServer
unfolding path_at text_of
add_paths ss zero i n = some n
add_paths ss (suc rounds) i n =
    elim (set_value n.accessible_paths (path_at ss i) n.storage_server_count) [
      | none ↦ none
      | some m ↦ elim (put_lru (text_of ss) n.lru (path_row i) n.storage_server_count) [
        | none ↦ none
        | some l ↦ add_paths ss rounds (i + 1) (record n { accessible_paths = m; lru = l })
      ]
    ]

-- A server whose ports are free. The writes with number `MAX_SS` would be behind the array.
unfoldable pub add_server : NamingServer → StorageServer → Option NamingServer
add_server n ss =
    let count = n.storage_server_count in
    if ltb count max_ss
    then elim (add_paths ss max_acc_paths 0 n) [
      | none ↦ none
      | some n' ↦ some (record n' {
        storage_server_count = count + 1;
        storage_servers_info = set n'.storage_servers_info count ss;
        used_ports =
            set (set n'.used_ports ((count + 1) * 2 - 1) ss.naming_port) ((count + 1) * 2)
              ss.client_port;
      })
    ]
    else none

-- The branch of "s", after the `recv` of the structure.
unfoldable pub register_server : NamingServer → StorageServer → Io NamingServer
unfolding add_server ports_taken
register_server n ss =
    if ports_taken n.used_ports (n.storage_server_count * 2 + 1) ss.naming_port ss.client_port
    then (do send registrant (text fail); pure n)
    else elim (add_server n ss) [ none ↦ crash | some n' ↦ do send registrant (text ack); pure n' ]

-- `recv` into a structure of zeros.
unfoldable pub recv_or_zeros : Io Bytes
recv_or_zeros = do b ← recv; pure (elim b [ none ↦ [] | some b ↦ b ])

-- What the main loop does with a connection. A client gets a thread that runs `client_handler`.
pub data Connection : Type 0 where
  client_thread : NamingServer → Connection
  served : NamingServer → Connection

-- `decode` reads a `struct StorageServer` off the bytes of a message.
module _ (decode : Bytes → StorageServer) where
  unfoldable pub connection : NamingServer → Io Connection
  unfolding recv_or_zeros
  connection n = do
    kind ← recv_text
    if case_eq kind (codes "c")
        then (do
          send client (text (codes "Initializing new thread for client connection" ++ 10 ∷ white))
          pure (client_thread n))
        else if case_eq kind (codes "s")
        then (do
          send registrant
              (text (codes "Initialising storage serevr with server info" ++ 10 ∷ white))
          bytes ← recv_or_zeros
          n' ← register_server n (decode bytes)
          pure (served n'))
        else do
          send registrant (text (codes "Invalid input, please try again" ++ 10 ∷ white))
          pure (served n)
