-- ===== src/Exchange/Read.antt =====
-- A READ that a user types, on the client (clientinit.c), the naming server (namingserver.c) and the
-- storage server (storageserverinit.c) together.
use nfs_network_file_system.Prelude.{
  ℕ, ◌^◌, ◌<◌, ◌≡◌, ◌≢◌, refl, ap, ◌∙◌, false, List, [], ◌∷◌, ◌++◌, some, none, ◌==◌, arith,
  replicate,
}
use nfs_network_file_system.Prelude.Bytes.{Bytes, codes}
use nfs_network_file_system.Text.{case_eq}
use nfs_network_file_system.MapOperations.{c_string, minus_one, get_value}
use nfs_network_file_system.Io.{
  client, naming, storage, text, sent, Event, Reply, received, ok, c_text, send, recv_text, recv,
  recv_reply,
}
use nfs_network_file_system.Io.Delivery.{
  delivered, goes_to_self, for_storage, for_client, for_naming, int_bytes, recv_int-int_bytes,
}
use nfs_network_file_system.Command.{max_args, process_command}
use nfs_network_file_system.NamingServer.{NamingServer, ack, server_at}
use nfs_network_file_system.NamingServer.Client.{
  white, next, client_round, carry_out, dispatch, command_type, read, handle_locate,
}
use nfs_network_file_system.NamingServer.Talk.{willing, acks, command_events, handle_locate-num}
use nfs_network_file_system.StorageServer.{chunks}
use nfs_network_file_system.StorageServer.Locking.{IsFree}
use nfs_network_file_system.StorageServer.Transfer.{
  AllPlain, concat, chunks-concat, chunk_acks, chunk_events, incoming, read_file-chunk_events,
}
use nfs_network_file_system.StorageServer.Ports.{
  Store, System, dotted, read_server_side, exec_client_command, client_connection,
}
use nfs_network_file_system.StorageServer.Connections.{
  network, AllWords, command_replies, word_acks,
}
use nfs_network_file_system.ClientInit.{outcome, transfer, user_round}
use nfs_network_file_system.ClientInit.Transfer.{
  client_acks, read_client_side-client_acks, delivered_chunks, delivered_acks,
}
use nfs_network_file_system.Exchange.Locate.{
  command_words, place_events, locate_events-place_events, place_replies,
  find_storage_server-command_events, client_connection-exec_client_command,
}

abbrev pub read_words : Bytes → List Bytes
read_words path = command_words (codes "READ") path

read_type : (line : Bytes) → command_type line (codes "READ") ≡ read
unfolding command_type case_eq
read_type line = refl

-- The naming server's round.
client_round-read :
    (n n' : NamingServer) (line path : Bytes) (rows others : List Bytes) (log : List Event)
    → c_text line ≡ line
    → process_command line rows ≡ some (codes "READ" ∷ path ∷ others, 2)
    → handle_locate n (codes "READ" ∷ path ∷ others) 2 (willing [] []) ≡ ok n' (willing [] log)
    → client_round n rows (willing (received line ∷ []) [])
      ≡ ok (next n' (codes "READ" ∷ path ∷ others)) (willing [] log)
unfolding client_round carry_out dispatch recv_text recv recv_reply
client_round-read n n' line path rows others log whole words run =
    rw (whole, words) (rw (read_type line, run) refl)

-- All that the client gets.
abbrev user_replies : Bytes → ℕ → Bytes → List Bytes → List Reply
user_replies ip port path cs =
    received (int_bytes 2)
    ∷ received (codes "FOUND")
    ∷ place_replies ip port (acks (read_words path) (incoming cs []))

-- All that the client sends.
abbrev user_log : Bytes → Bytes → ℕ → Bytes → List Bytes → List Event
user_log line ip port path cs =
    ((sent naming (text line) ∷ []) ++ command_events (storage ip port) (read_words path))
    ++ client_acks (storage ip port) cs

transfer-read :
    (line ip path : Bytes) (port : ℕ) (others cs : List Bytes) (log : List Event)
    → process_command line (replicate max_args []) ≡ some (codes "READ" ∷ path ∷ others, 2)
    → c_text ip ≡ ip
    → port < 2 ^ 32
    → AllPlain cs
    → transfer 2 line none (
        network
          (received (codes "FOUND")
            ∷ place_replies ip port (acks (read_words path) (incoming cs [])))
          log)
      ≡ ok (outcome 1 cs) (
          network [] (
            (log ++ command_events (storage ip port) (read_words path))
            ++ client_acks (storage ip port) cs))
unfolding transfer recv_text recv recv_reply case_eq
transfer-read line ip path port others cs log words whole small plain =
    let found =
      find_storage_server-command_events line ip (codes "READ") path port others (incoming cs [])
        log words whole small in
    let taken =
      read_client_side-client_acks (storage ip port) cs []
        (log ++ command_events (storage ip port) (read_words path)) plain in
    rw found (rw taken refl)

user_round-read :
    (line ip path : Bytes) (port : ℕ) (others cs : List Bytes)
    → case_eq line (10 ∷ white) ≡ false
    → process_command line (replicate max_args []) ≡ some (codes "READ" ∷ path ∷ others, 2)
    → c_text ip ≡ ip
    → port < 2 ^ 32
    → AllPlain cs
    → user_round line none (network (user_replies ip port path cs) [])
      ≡ ok (outcome 1 cs) (network [] (user_log line ip port path cs))
unfolding user_round send
user_round-read line ip path port others cs typed words whole small plain =
    let rest =
      received (codes "FOUND") ∷ place_replies ip port (acks (read_words path) (incoming cs [])) in
    let type_read = recv_int-int_bytes 0 2 [] rest (sent naming (text line) ∷ []) (omega arith) in
    rw (typed, type_read)
      (transfer-read line ip path port others cs (sent naming (text line) ∷ []) words whole small
        plain)

for_storage-client_acks :
    (ip : Bytes) (port : ℕ) (cs : List Bytes)
    → for_storage ip port (client_acks (storage ip port) cs) ≡ client_acks (storage ip port) cs
for_storage-client_acks ip port [] = rw (goes_to_self ip port) refl
for_storage-client_acks ip port (c ∷ cs) =
    rw (goes_to_self ip port)
      (ap (λ es. sent (storage ip port) (text ack) ∷ es) (for_storage-client_acks ip port cs))

for_naming-client_acks :
    (ip : Bytes) (port : ℕ) (cs : List Bytes) → for_naming (client_acks (storage ip port) cs) ≡ []
for_naming-client_acks ip port [] = refl
for_naming-client_acks ip port (c ∷ cs) = for_naming-client_acks ip port cs

-- All that the storage server sends.
abbrev peer_log : Bytes → List Bytes → List Event
peer_log path cs =
    word_acks client (read_words path)
    ++ (chunk_events cs ++ sent client (text (codes "STOP")) ∷ [])

to_naming :
    (line ip path : Bytes) (port : ℕ) (cs : List Bytes)
    → delivered (for_naming (user_log line ip port path cs)) ≡ received line ∷ []
unfolding command_events
to_naming line ip path port cs =
    ap (λ es. received line ∷ delivered es) (for_naming-client_acks ip port cs)

to_storage :
    (line ip path : Bytes) (port : ℕ) (cs : List Bytes)
    → delivered (for_storage ip port (user_log line ip port path cs))
      ≡ command_replies (read_words path) (chunk_acks cs (received ack ∷ []))
unfolding command_events
to_storage line ip path port cs = rw (goes_to_self ip port) (
    ap (λ (rest : List Reply). command_replies (read_words path) rest)
      (ap delivered (for_storage-client_acks ip port cs) ∙ delivered_acks (storage ip port) cs))

to_user :
    (ip path : Bytes) (port : ℕ) (cs : List Bytes)
    → delivered (for_client (place_events 2 ip port)) ++ delivered (peer_log path cs)
      ≡ user_replies ip port path cs
to_user ip path port cs =
    ap
      (λ (rest : List Reply).
        received (int_bytes 2)
        ∷ received (codes "FOUND")
        ∷ place_replies ip port (received ack ∷ received ack ∷ rest))
      (delivered_chunks cs)

module _ {Fs : Type 0} (os : System Fs) where
  exec_client_command-chunk_events :
      (s : Store Fs) (path content : Bytes) (i : ℕ) (rest : List Reply) (log : List Event)
      → get_value s.files.path_to_sem (c_string path) ≡ some i
      → i ≢ minus_one
      → IsFree s.locks i
      → os.content s.fs (dotted os path) ≡ some content
      → exec_client_command os s
          (read_words path)
          2
          (network (chunk_acks (chunks content) rest) log)
        ≡ ok
            (s, 1)
            (network rest
              (log ++ chunk_events (chunks content) ++ sent client (text (codes "STOP")) ∷ []))
  unfolding exec_client_command read_server_side case_eq
  exec_client_command-chunk_events s path content i rest log known found free there =
      let found_b : (i == minus_one) ≡ false = ground arith in
      let served = read_file-chunk_events s.locks i content rest log free in
      rw (known, found_b, there) (rw served refl)

  -- A user types a line, neither empty nor with a NUL in it, that both programs split into READ and a path;
  -- the path fits into a row and holds no NUL, the naming server knows a storage server for it, whose
  -- address holds no NUL and whose port is below 2 ^ 32, and that storage server has an index for it
  -- whose semaphores are free, and can open the file; no chunk of the file holds a NUL or reads STOP.
  -- When every `send` succeeds, there are a log of each of the three programs such that each, given
  -- what the others send to it, returns with just its own log; what is sent to the storage
  -- server is what goes to that address and port. The client then has printed the
  -- content of the file, and the state of both servers is as before. Every message is taken but
  -- the client's last acknowledgement.
  pub user_round-read_server_side :
      (n : NamingServer) (s : Store Fs) (line path content : Bytes)
      (rows others others' : List Bytes) (num i : ℕ)
      → case_eq line (10 ∷ white) ≡ false
      → c_text line ≡ line
      → process_command line rows ≡ some (codes "READ" ∷ path ∷ others, 2)
      → process_command line (replicate max_args []) ≡ some (codes "READ" ∷ path ∷ others', 2)
      → AllWords (read_words path)
      → get_value n.accessible_paths (c_string path) ≡ some num
      → num ≢ minus_one
      → c_text (server_at n num).ip ≡ (server_at n num).ip
      → (server_at n num).client_port < 2 ^ 32
      → get_value s.files.path_to_sem (c_string path) ≡ some i
      → i ≢ minus_one
      → IsFree s.locks i
      → os.content s.fs (dotted os path) ≡ some content
      → AllPlain (chunks content)
      → (user : List Event) × (server : List Event) × (peer : List Event) × (printed : List Bytes)
        × (user_round line none (network (delivered (for_client server) ++ delivered peer) [])
            ≡ ok (outcome 1 printed) (network [] user))
        × (client_round n rows (willing (delivered (for_naming user)) [])
            ≡ ok (next n (codes "READ" ∷ path ∷ others)) (willing [] server))
        × (client_connection os s (
              network
                (delivered (for_storage (server_at n num).ip (server_at n num).client_port user))
                [])
            ≡ ok s (network (received ack ∷ []) peer))
        × (concat printed ≡ content)
  user_round-read_server_side n s line path content rows others others' num i typed whole split
        split' words known found plain_ip small known_s found_s free there plain =
      let ip = (server_at n num).ip in
      let port = (server_at n num).client_port in
      let cs = chunks content in
      let found_b : (num == minus_one) ≡ false = ground arith in
      let located = handle_locate-num n (codes "READ" ∷ path ∷ others) 2 num [] [] known in
      let place = place_events 2 ip port in
      (
        user_log line ip port path cs,
        place,
        peer_log path cs,
        cs,
        rw (to_user ip path port cs)
            (user_round-read line ip path port others' cs typed split' plain_ip small plain),
        rw (to_naming line ip path port cs) (
            client_round-read n n line path rows others place whole split (
              located
              ∙ ap (λ es. ok n (willing [] es))
                  (locate_events-place_events n (codes "READ" ∷ path ∷ others) 2 num found_b))),
        rw (to_storage line ip path port cs) (
            client_connection-exec_client_command os s s (codes "READ") path
              (chunk_acks cs (received ack ∷ [])) (received ack ∷ []) (peer_log path cs) words
              (exec_client_command-chunk_events s path content i (received ack ∷ [])
                (word_acks client (read_words path)) known_s found_s free there)),
        (chunks-concat content).0,
      )
