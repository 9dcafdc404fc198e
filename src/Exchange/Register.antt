-- ===== src/Exchange/Register.antt =====
-- The registration, on the storage server (storageserverinit.c) and on the naming server
-- (namingserver.c) together.
use nfs_network_file_system.Prelude.{
  ℕ, ◌≤◌, ◌≡◌, ◌≢◌, refl, ◌∙◌, ◌||◌, true, false, List, [], ◌∷◌, ◌++◌, some, ltb, has, arith,
  length,
}
use nfs_network_file_system.Prelude.Bytes.{Bytes, codes}
use nfs_network_file_system.Text.{case_eq}
use nfs_network_file_system.MapOperations.{max_acc_paths}
use nfs_network_file_system.Io.{
  naming, registrant, text, chunk, sent, Event, World, ok, exited, send, recv, recv_text,
  recv_reply, c_text, and_then,
}
use nfs_network_file_system.Io.Delivery.{delivered}
use nfs_network_file_system.Operations.{Files}
use nfs_network_file_system.NamingServer.{NamingServer, StorageServer, ack}
use nfs_network_file_system.NamingServer.Client.{white, fail}
use nfs_network_file_system.NamingServer.Talk.{willing}
use nfs_network_file_system.NamingServer.Ports.{ports_in_use, register_server-ports_in_use}
use nfs_network_file_system.NamingServer.First.{AllRows, Registers, register_server-Registers}
use nfs_network_file_system.NamingServer.Register.{
  naming_server_port, initial, register_server, connection, served,
}
use nfs_network_file_system.StorageServer.{Locks}
use nfs_network_file_system.StorageServer.Ports.{initial_store}
use nfs_network_file_system.StorageServer.Connections.{network}
use nfs_network_file_system.StorageServer.Startup.{
  Directory, get_files, pick_files, accessible_rows, register, start_up,
}

-- The first answer to a storage server, and the log of the naming server.
abbrev pub greeting : Event
greeting =
    sent registrant (text (codes "Initialising storage serevr with server info" ++ 10 ∷ white))

abbrev pub server_log : Bytes → List Event
server_log answer = greeting ∷ sent registrant (text answer) ∷ []

-- What a storage server does before it registers, and what it registers with.
pub record IsReady (root : Bytes) (d : Directory) (numbers : List ℕ) (stack : List Bytes)
    (rows : List Bytes) (f : Files) (l : Locks) : Type 0 where
  pub files : List Bytes
  pub chosen : List Bytes
  pub listed : get_files root root d [] ≡ some files
  pub picked : pick_files files numbers ≡ some chosen
  pub few : length numbers ≤ max_acc_paths
  pub stored : initial_store chosen ≡ some (f, l)
  pub filled : accessible_rows stack chosen ≡ rows

module _ (encode : StorageServer → Bytes) (decode : Bytes → StorageServer) where
  -- The log of the storage server.
  abbrev pub peer_log : StorageServer → List Event
  peer_log ss = sent naming (text (codes "s")) ∷ sent naming (chunk (encode ss)) ∷ []

  connection-register_server :
      (n n' : NamingServer) (ss : StorageServer) (answer : Bytes)
      → decode (encode ss) ≡ ss
      → register_server n ss (willing [] (greeting ∷ [])) ≡ ok n' (willing [] (server_log answer))
      → connection decode n (willing (delivered (peer_log ss)) [])
        ≡ ok (served n') (willing [] (server_log answer))
  unfolding connection recv_text recv recv_reply c_text case_eq send
  connection-register_server n n' ss answer same run = rw (same, run) refl

  register-answer :
      (ss : StorageServer)
      → (register encode ss (network (delivered (server_log ack)) [])
          ≡ ok tt (network [] (peer_log ss)))
        × (register encode ss (network (delivered (server_log fail)) [])
            ≡ exited (network [] (peer_log ss)))
  unfolding register recv_text recv recv_reply c_text case_eq send
  register-answer ss = (refl, refl)

  module _ (root : Bytes) (d : Directory) (numbers : List ℕ) (stack : List Bytes)
      (ss : StorageServer) (f : Files) (l : Locks)
      (ready : IsReady root d numbers stack ss.accessible_paths f l) where
    start_up-register :
        (w : World)
        → start_up encode root d ss.naming_port ss.client_port numbers ss.ip stack w
          ≡ and_then (register encode ss w) (λ _. ok (f, l))
    unfolding start_up
    start_up-register w =
        let few : ltb max_acc_paths (length numbers) ≡ false = ground (arith, ready.few) in
        rw (ready.listed, few, ready.picked, ready.stored, ready.filled) refl

    -- A storage server with its files chosen, all fifteen rows of which are paths, and with ports other
    -- than that of the naming server, is the first to register; `decode` reads the structure off the
    -- bytes that `encode` gives. When every `send` succeeds, there are a log of each program such that
    -- each, given what the other sends, returns with just its own log: the storage server with the
    -- files and semaphores that it has set up, the naming server with that storage server as number
    -- 0 of one, its two ports in use, and number 0 for the server's rows and -1 for other paths.
    pub connection-start_up :
        decode (encode ss) ≡ ss
        → AllRows ss 0 max_acc_paths
        → ss.naming_port ≢ naming_server_port
        → ss.client_port ≢ naming_server_port
        → (n' : NamingServer) × (server : List Event) × (peer : List Event) × (connection decode
              initial
              (willing (delivered peer) [])
            ≡ ok (served n') (willing [] server))
          × (start_up encode root d ss.naming_port ss.client_port numbers ss.ip stack
                (network (delivered server) [])
              ≡ ok (f, l) (network [] peer))
          × Registers ss n'
    connection-start_up same rows differ_n differ_c =
        let (n', run, registers) =
          register_server-Registers ss [] (greeting ∷ []) rows differ_n differ_c in
        (
          n',
          server_log ack,
          peer_log ss,
          connection-register_server initial n' ss ack same run,
          start_up-register (network (delivered (server_log ack)) [])
              ∙ rw ((register-answer ss).0) refl,
          registers,
        )

    -- Where one of the storage server's ports is in use, by the naming server or by a storage server
    -- that has registered: when every `send` succeeds, there are such logs with which the naming
    -- server's state stays as it is, and the storage server exits.
    pub connection-start_up_refused :
        decode (encode ss) ≡ ss
        → (n : NamingServer)
        → (has ss.naming_port (ports_in_use n) || has ss.client_port (ports_in_use n)) ≡ true
        → (server : List Event) × (peer : List Event) × (connection decode n
              (willing (delivered peer) [])
            ≡ ok (served n) (willing [] server))
          × (start_up encode root d ss.naming_port ss.client_port numbers ss.ip stack
                (network (delivered server) [])
              ≡ exited (network [] peer))
    connection-start_up_refused same n taken =
        let refused = (register_server-ports_in_use n ss [] (greeting ∷ [])).0 taken in
        (
          server_log fail,
          peer_log ss,
          connection-register_server n n ss fail same refused,
          start_up-register (network (delivered (server_log fail)) [])
              ∙ rw ((register-answer ss).1) refl,
        )
