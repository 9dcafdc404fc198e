-- ===== src/NamingServer/Talk.antt =====
-- `connectToStorageServer`, `getResultsFromSS` and the answers to READ, WRITE and DETAILS, when every
-- `send` succeeds.
use nfs_network_file_system.Prelude.{
  ℕ, ◌≡◌, refl, sym, ap, ◌∙◌, List, [], ◌∷◌, ◌++◌, append_assoc, append-nil, some, ◌==◌,
  if◌then◌else◌, Bool-cases, inl, inr, length,
}
use nfs_network_file_system.Prelude.Bytes.{Bytes, codes}
use nfs_network_file_system.Text.{case_eq}
use nfs_network_file_system.MapOperations.{c_string, minus_one, get_value}
use nfs_network_file_system.MapOperations.Values.{PathMap, get_value-lookup}
use nfs_network_file_system.Io.{
  Socket, client, storage, text, number, Event, sent, World, Reply, received, ok, send, recv_reply,
  recv, recv_text, c_text,
}
use nfs_network_file_system.NamingServer.{
  NamingServer, server_at, ack, send_arguments, connect_to_storage_server, get_results_from_ss,
}
use nfs_network_file_system.NamingServer.Client.{arg, not_found, path_filename, handle_locate}

-- A network that takes every message and gives these replies.
abbrev pub willing : List Reply → List Event → World
willing replies log = record { sends = []; replies = replies; log = log }

-- The answer ACK, as often as there are arguments.
abbrev pub acks : List Bytes → List Reply → List Reply
acks [] rest = rest
acks (a ∷ args) rest = received ack ∷ acks args rest

abbrev pub texts : Socket → List Bytes → List Event
texts s [] = []
texts s (a ∷ args) = sent s (text a) ∷ texts s args

pub send_arguments-acks :
    (s : Socket) (args : List Bytes) (rest : List Reply) (log : List Event)
    → send_arguments s args (willing (acks args rest) log)
      ≡ ok tt (willing rest (log ++ texts s args))
unfolding send_arguments send recv_text recv recv_reply c_text case_eq
send_arguments-acks s [] rest log = ap (λ l. ok tt (willing rest l)) (sym (append-nil log))
send_arguments-acks s (a ∷ args) rest log =
    send_arguments-acks s args rest (log ++ sent s (text a) ∷ [])
    ∙ ap (λ l. ok tt (willing rest l)) (append_assoc log (sent s (text a) ∷ []) (texts s args))

-- All that a storage server is sent with a command.
unfoldable pub command_events : Socket → List Bytes → List Event
command_events s args =
    sent s (number (length args)) ∷ (texts s args ++ sent s (text (codes "DONE")) ∷ [])

pub connect_to_storage_server-command_events :
    (ip : Bytes) (port : ℕ) (args : List Bytes) (rest : List Reply) (log : List Event)
    → connect_to_storage_server ip port args (willing (acks args rest) log)
      ≡ ok (storage ip port) (willing rest (log ++ command_events (storage ip port) args))
unfolding connect_to_storage_server send command_events
connect_to_storage_server-command_events ip port args rest log =
    let s = storage ip port in
    let first = sent s (number (length args)) ∷ [] in
    let last = sent s (text (codes "DONE")) ∷ [] in
    let talk = send_arguments-acks s args rest (log ++ first) in rw talk simp append_assoc

pub get_results_from_ss-answer :
    (ip : Bytes) (port : ℕ) (args : List Bytes) (answer : Bytes) (rest : List Reply)
    (log : List Event)
    → get_results_from_ss ip port args (willing (acks args (received answer ∷ rest)) log)
      ≡ ok
          (if case_eq (c_text answer) ack then 1 else 0)
          (willing rest (log ++ command_events (storage ip port) args))
unfolding get_results_from_ss recv_text recv recv_reply
get_results_from_ss-answer ip port args answer rest log =
    rw (connect_to_storage_server-command_events ip port args (received answer ∷ rest) log) refl

-- The answer to READ, WRITE and DETAILS, by what the path's number is.
unfoldable pub locate_events : NamingServer → List Bytes → ℕ → ℕ → List Event
locate_events n args command_type num =
    sent client (number command_type)
    ∷ (if num == minus_one
        then sent client (text (not_found (arg args 0) path_filename)) ∷ []
        else sent client (text (codes "FOUND"))
          ∷ sent client (text (server_at n num).ip)
          ∷ sent client (number (server_at n num).client_port)
          ∷ [])

pub handle_locate-num :
    (n : NamingServer) (args : List Bytes) (command_type num : ℕ) (rest : List Reply)
    (log : List Event)
    → get_value n.accessible_paths (c_string (arg args 1)) ≡ some num
    → handle_locate n args command_type (willing rest log)
      ≡ ok n (willing rest (log ++ locate_events n args command_type num))
unfolding handle_locate send locate_events
handle_locate-num n args command_type num rest log e = elim (Bool-cases (num == minus_one)) [
  | inl missing ↦ rw (e, missing) simp append_assoc
  | inr found ↦ rw (e, found) simp append_assoc
]

-- READ, WRITE and DETAILS on a map of paths, when every `send` succeeds: the client gets the type of
-- its command and then, for a path that a storage server has, the address and the port for clients
-- of just that server, and for any other path a message. Nothing is sent to a storage server,
-- nothing is awaited, and the state stays as it is.
handle_locate-locate_events :
    (n : NamingServer) (args : List Bytes) (command_type : ℕ) (rest : List Reply) (log : List Event)
    → PathMap n.accessible_paths
    → (num : ℕ) × (get_value n.accessible_paths (c_string (arg args 1)) ≡ some num)
      × (handle_locate n args command_type (willing rest log)
          ≡ ok n (willing rest (log ++ locate_events n args command_type num)))
handle_locate-locate_events n args command_type rest log pm =
    let read = get_value-lookup pm.holds (c_string (arg args 1)) in
    (_, read, handle_locate-num n args command_type _ rest log read)
