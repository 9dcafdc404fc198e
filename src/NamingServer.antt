-- ===== src/NamingServer.antt =====
-- namingserver.c: the state of the naming server, and how it talks to storage servers.
pub mod Client
pub mod Register
pub mod Ports
pub mod First
pub mod Race
pub mod Handler
pub mod Talk
pub mod Rounds
pub mod CreateDelete
pub mod Copy
pub mod Names
pub mod Serving
pub mod Invariant
pub mod Lines
mod Tests
use nfs_network_file_system.Prelude.{
  ℕ, zero, suc, ◌+◌, ◌-◌, ◌*◌, ◌<◌, ◌&&◌, ◌||◌, Bool, true, false, not, List, [], ◌∷◌, ◌++◌, Option,
  none, some, ◌==◌, ltb, if◌then◌else◌, get_or, set, length, replicate,
}
use nfs_network_file_system.Prelude.Bytes.{Bytes, codes}
use nfs_network_file_system.Text.{slash, case_eq}
use nfs_network_file_system.Hashmap.{Hashmap, hashmap_create}
use nfs_network_file_system.MapOperations.{
  c_string, minus_one, set_value, get_value, remove_entry, add_paths_to_list,
}
use nfs_network_file_system.Io.{
  Socket, client, storage, Packet, text, number, World, Reply, received, closed, failed, Run, Io,
  pure, ◌>>=◌, ◌>>◌, returning, send, recv_text, recv_int, recv_reply, c_text, exit_failure, crash,
}
use nfs_network_file_system.Lru.{Lru}
use nfs_network_file_system.Command.{process_command}

-- `struct StorageServer`.
pub record StorageServer : Type 0 where
  pub ip : Bytes
  pub naming_port : ℕ
  pub client_port : ℕ
  pub accessible_paths : List Bytes

abbrev pub zero_server : StorageServer
zero_server = record { ip = []; naming_port = 0; client_port = 0; accessible_paths = [] }

-- A pointer that a node of the LRU keeps as its key: a row of `accessible_paths` in the local variable
-- `storageServer` of `main`, which every registration writes anew, or a literal.
pub data Key : Type 0 where
  path_row : ℕ → Key
  literal : Bytes → Key

-- The globals of the naming server that its handlers use.
pub record NamingServer : Type 0 where
  pub storage_server_count : ℕ
  pub storage_servers_info : List StorageServer
  pub used_ports : List ℕ
  pub accessible_paths : Hashmap
  pub lru : Lru Key

-- `StorageServersInfo[i]`; zeros stand for what is read outside of the array.
abbrev pub server_at : NamingServer → ℕ → StorageServer
server_at n i = get_or n.storage_servers_info i zero_server

abbrev pub ack : Bytes
ack = codes "ACK"

-- One argument is sent, and an acknowledgement is awaited.
unfoldable pub send_arguments : Socket → List Bytes → Io (Unit {0})
send_arguments s [] = pure tt
send_arguments s (a ∷ args) = do
  send s (text a)
  answer ← recv_text
  if case_eq answer ack then send_arguments s args else exit_failure

-- `connectToStorageServer`, from the connection on: the number of arguments, the arguments and the
-- packet at the end. The socket is that of the storage server's address and port.
unfoldable pub connect_to_storage_server : Bytes → ℕ → List Bytes → Io Socket
unfolding send_arguments
connect_to_storage_server ip port args = do
  let s = storage ip port
  send s (number (length args))
  send_arguments s args
  send s (text (codes "DONE"))
  pure s

unfoldable pub get_results_from_ss : Bytes → ℕ → List Bytes → Io ℕ
get_results_from_ss ip port args = do
  s ← connect_to_storage_server ip port args
  answer ← recv_text
  pure (if case_eq answer ack then 1 else 0)

-- The loop of `facilitateCopy`: chunks go from the one storage server to the other until a chunk says
-- STOP, the stream ends or `recv` fails. Every round takes a reply.
unfoldable pub copy_chunks : ℕ → Socket → Io (Unit {0})
copy_chunks zero s = λ w. Run.blocked w
copy_chunks (suc fuel) s = do
  r ← recv_reply
  elim r [
    | received b ↦
        if case_eq (c_text b) (codes "STOP")
        then pure tt
        else do send s (text (c_text b)); copy_chunks fuel s
    | closed ↦ pure tt
    | failed ↦ pure tt
  ]

-- The replies that are left bound the rounds.
abbrev pub copy_all_chunks : Socket → Io (Unit {0})
copy_all_chunks s w = copy_chunks (suc (length w.replies)) s w

unfoldable pub facilitate_copy : Socket → Socket → Io ℕ
facilitate_copy s₁ s₂ = do
  file_name ← recv_text
  send s₂ (text file_name)
  copy_all_chunks s₂
  send s₂ (text (codes "STOP"))
  zip ← recv_int 0
  final_ack1 ← recv_text
  final_ack2 ← recv_text
  pure (if case_eq final_ack1 ack && case_eq final_ack2 ack then (if zip == 0 then 1 else 2) else 0)
