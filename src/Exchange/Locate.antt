-- ===== src/Exchange/Locate.antt =====
-- The way of a READ or a WRITE through the naming server: what it sends, how the client takes it up to
-- its connection to the storage server, and the connection on the side of the storage server.
use nfs_network_file_system.Prelude.{
  ℕ, ◌^◌, ◌<◌, ◌≡◌, refl, false, List, [], ◌∷◌, ◌++◌, some, ◌==◌, replicate,
}
use nfs_network_file_system.Prelude.Bytes.{Bytes, codes}
use nfs_network_file_system.MapOperations.{minus_one}
use nfs_network_file_system.Io.{
  client, storage, text, number, sent, Event, Reply, received, ok, c_text, recv_text, recv_new_int,
  recv, recv_reply,
}
use nfs_network_file_system.Io.Delivery.{int_bytes, recv_new_int-int_bytes}
use nfs_network_file_system.Command.{max_args, process_command}
use nfs_network_file_system.NamingServer.{NamingServer, server_at}
use nfs_network_file_system.NamingServer.Talk.{
  acks, command_events, locate_events, connect_to_storage_server-command_events,
}
use nfs_network_file_system.StorageServer.Ports.{
  Store, System, exec_client_command, client_connection,
}
use nfs_network_file_system.StorageServer.Connections.{
  network, AllWords, command_replies, word_acks, recv_arguments-word_acks, done_text,
}
use nfs_network_file_system.ClientInit.{connect_with_command, find_storage_server}

abbrev pub command_words : Bytes → Bytes → List Bytes
command_words word path = word ∷ path ∷ []

-- What the naming server sends.
abbrev pub place_events : ℕ → Bytes → ℕ → List Event
place_events command_type ip port =
    sent client (number command_type)
    ∷ sent client (text (codes "FOUND"))
    ∷ sent client (text ip)
    ∷ sent client (number port)
    ∷ []

pub locate_events-place_events :
    (n : NamingServer) (args : List Bytes) (command_type num : ℕ)
    → (num == minus_one) ≡ false
    → locate_events n args command_type num
      ≡ place_events command_type (server_at n num).ip (server_at n num).client_port
unfolding locate_events
locate_events-place_events n args command_type num found = rw found refl

-- What the client gets, after the type of its command and FOUND.
abbrev pub place_replies : Bytes → ℕ → List Reply → List Reply
place_replies ip port rest = received ip ∷ received (int_bytes port) ∷ rest

connect_with_command-command_events :
    (ip line word path : Bytes) (port : ℕ) (others : List Bytes) (rest : List Reply)
    (log : List Event)
    → process_command line (replicate max_args []) ≡ some (word ∷ path ∷ others, 2)
    → connect_with_command ip port line (network (acks (command_words word path) rest) log)
      ≡ ok
          (storage ip port)
          (network rest (log ++ command_events (storage ip port) (command_words word path)))
unfolding connect_with_command
connect_with_command-command_events ip line word path port others rest log words =
    rw (words, connect_with_command)
      (connect_to_storage_server-command_events ip port (command_words word path) rest log)

-- The client connects to the place that it is told, and sends its command there.
pub find_storage_server-command_events :
    (line ip word path : Bytes) (port : ℕ) (others : List Bytes) (rest : List Reply)
    (log : List Event)
    → process_command line (replicate max_args []) ≡ some (word ∷ path ∷ others, 2)
    → c_text ip ≡ ip
    → port < 2 ^ 32
    → find_storage_server line
        (network (place_replies ip port (acks (command_words word path) rest)) log)
      ≡ ok
          (storage ip port)
          (network rest (log ++ command_events (storage ip port) (command_words word path)))
unfolding find_storage_server recv_text recv recv_reply
find_storage_server-command_events line ip word path port others rest log words whole small =
    let number_read =
      recv_new_int-int_bytes port [] (acks (command_words word path) rest) log small in
    rw (whole, number_read)
      (connect_with_command-command_events ip line word path port others rest log words)

module _ {Fs : Type 0} (os : System Fs) where
  -- The storage server takes a command of two words and carries it out.
  pub client_connection-exec_client_command :
      (s s' : Store Fs) (word path : Bytes) (replies rest : List Reply) (log : List Event)
      → AllWords (command_words word path)
      → exec_client_command os s
          (command_words word path)
          2
          (network replies (word_acks client (command_words word path)))
        ≡ ok (s', 1) (network rest log)
      → client_connection os s (network (command_replies (command_words word path) replies) [])
        ≡ ok s' (network rest log)
  unfolding client_connection recv_new_int recv_text recv recv_reply
  client_connection-exec_client_command s s' word path replies rest log words run =
      let after = received (codes "DONE") ∷ replies in
      let talk = recv_arguments-word_acks client (command_words word path) after [] words in
      rw talk (rw done_text (rw run refl))
