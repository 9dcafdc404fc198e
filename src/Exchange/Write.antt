-- ===== src/Exchange/Write.antt =====
-- A WRITE that a user types, on the client (clientinit.c), the naming server (namingserver.c) and the
-- storage server (storageserverinit.c) together.
use nfs_network_file_system.Prelude.{
  ℕ, ◌^◌, ◌<◌, ◌≡◌, ◌≢◌, refl, ap, ◌∙◌, true, false, List, [], ◌∷◌, ◌++◌, some, ◌==◌, arith,
  replicate,
}
use nfs_network_file_system.Prelude.Bytes.{Bytes, codes}
use nfs_network_file_system.Text.{case_eq}
use nfs_network_file_system.MapOperations.{c_string, minus_one, get_value}
use nfs_network_file_system.Io.{
  Socket, client, naming, storage, text, chunk, sent, Event, Reply, received, ok, c_text, send,
  recv_text, recv, recv_reply,
}
use nfs_network_file_system.Io.Delivery.{
  delivered, goes_to_self, for_storage, for_client, for_naming, int_bytes, recv_int-int_bytes,
}
use nfs_network_file_system.Command.{max_args, process_command}
use nfs_network_file_system.NamingServer.{NamingServer, ack, server_at}
use nfs_network_file_system.NamingServer.Client.{
  white, next, client_round, carry_out, dispatch, command_type, write, handle_locate,
}
use nfs_network_file_system.NamingServer.Talk.{willing, acks, command_events, handle_locate-num}
use nfs_network_file_system.StorageServer.{chunks}
use nfs_network_file_system.StorageServer.Locking.{IsFree}
use nfs_network_file_system.StorageServer.Transfer.{
  AllPlain, chunk_acks, incoming, answers, write_to_file-chunks,
}
use nfs_network_file_system.StorageServer.Ports.{
  Store, System, dotted, write_server_side, exec_client_command, client_connection,
}
use nfs_network_file_system.StorageServer.Connections.{
  network, AllWords, command_replies, word_acks,
}
use nfs_network_file_system.ClientInit.{outcome, transfer, user_round}
use nfs_network_file_system.ClientInit.Transfer.{
  client_chunks, write_client_side-client_chunks, delivered-client_chunks, delivered-answers,
}
use nfs_network_file_system.Exchange.Locate.{
  command_words, place_events, locate_events-place_events, place_replies,
  find_storage_server-command_events, client_connection-exec_client_command,
}

abbrev pub write_words : Bytes → List Bytes
write_words path = command_words (codes "WRITE") path

write_type : (line : Bytes) → command_type line (codes "WRITE") ≡ write
unfolding command_type case_eq
write_type line = refl

-- The naming server's round.
client_round-write :
    (n n' : NamingServer) (line path : Bytes) (rows others : List Bytes) (log : List Event)
    → c_text line ≡ line
    → process_command line rows ≡ some (codes "WRITE" ∷ path ∷ others, 2)
    → handle_locate n (codes "WRITE" ∷ path ∷ others) 3 (willing [] []) ≡ ok n' (willing [] log)
    → client_round n rows (willing (received line ∷ []) [])
      ≡ ok (next n' (codes "WRITE" ∷ path ∷ others)) (willing [] log)
unfolding client_round carry_out dispatch recv_text recv recv_reply
client_round-write n n' line path rows others log whole words run =
    rw (whole, words) (rw (write_type line, run) refl)

-- All that the client gets.
abbrev user_replies : Bytes → ℕ → Bytes → List Bytes → List Reply
user_replies ip port path cs =
    received (int_bytes 3)
    ∷ received (codes "FOUND")
    ∷ place_replies ip port (acks (write_words path) (chunk_acks cs (received ack ∷ [])))

-- What the client sends of the file.
abbrev file_events : Socket → List Bytes → List Event
file_events s cs = client_chunks s cs ++ sent s (text (codes "STOP")) ∷ []

-- All that the client sends.
abbrev user_log : Bytes → Bytes → ℕ → Bytes → List Bytes → List Event
user_log line ip port path cs =
    ((sent naming (text line) ∷ []) ++ command_events (storage ip port) (write_words path))
    ++ file_events (storage ip port) cs

transfer-write :
    (line ip path content : Bytes) (port : ℕ) (others : List Bytes) (log : List Event)
    → process_command line (replicate max_args []) ≡ some (codes "WRITE" ∷ path ∷ others, 2)
    → c_text ip ≡ ip
    → port < 2 ^ 32
    → transfer 3 line (some content) (
        network
          (received (codes "FOUND")
            ∷ place_replies ip port
                (acks (write_words path) (chunk_acks (chunks content) (received ack ∷ []))))
          log)
      ≡ ok (outcome 1 []) (
          network (received ack ∷ []) (
            (log ++ command_events (storage ip port) (write_words path))
            ++ file_events (storage ip port) (chunks content)))
unfolding transfer recv_text recv recv_reply case_eq
transfer-write line ip path content port others log words whole small =
    let rest = received ack ∷ [] in
    let found =
      find_storage_server-command_events line ip (codes "WRITE") path port others
        (chunk_acks (chunks content) rest) log words whole small in
    let given =
      write_client_side-client_chunks (storage ip port) content rest
        (log ++ command_events (storage ip port) (write_words path)) in
    rw found (rw given refl)

user_round-write :
    (line ip path content : Bytes) (port : ℕ) (others : List Bytes)
    → case_eq line (10 ∷ white) ≡ false
    → process_command line (replicate max_args []) ≡ some (codes "WRITE" ∷ path ∷ others, 2)
    → c_text ip ≡ ip
    → port < 2 ^ 32
    → user_round line (some content) (network (user_replies ip port path (chunks content)) [])
      ≡ ok
          (outcome 1 [])
          (network (received ack ∷ []) (user_log line ip port path (chunks content)))
unfolding user_round send
user_round-write line ip path content port others typed words whole small =
    let rest =
      received (codes "FOUND")
      ∷ place_replies ip port
          (acks (write_words path) (chunk_acks (chunks content) (received ack ∷ []))) in
    let type_read = recv_int-int_bytes 0 3 [] rest (sent naming (text line) ∷ []) (omega arith) in
    rw (typed, type_read)
      (transfer-write line ip path content port others (sent naming (text line) ∷ []) words whole
        small)

for_storage-file_events :
    (ip : Bytes) (port : ℕ) (cs : List Bytes)
    → for_storage ip port (file_events (storage ip port) cs) ≡ file_events (storage ip port) cs
for_storage-file_events ip port [] = rw (goes_to_self ip port) refl
for_storage-file_events ip port (c ∷ cs) =
    rw (goes_to_self ip port)
      (ap (λ es. sent (storage ip port) (chunk c) ∷ es) (for_storage-file_events ip port cs))

for_naming-file_events :
    (ip : Bytes) (port : ℕ) (cs : List Bytes) → for_naming (file_events (storage ip port) cs) ≡ []
for_naming-file_events ip port [] = refl
for_naming-file_events ip port (c ∷ cs) = for_naming-file_events ip port cs

-- All that the storage server sends.
abbrev peer_log : Bytes → List Bytes → List Event
peer_log path cs = word_acks client (write_words path) ++ answers cs

to_naming :
    (line ip path : Bytes) (port : ℕ) (cs : List Bytes)
    → delivered (for_naming (user_log line ip port path cs)) ≡ received line ∷ []
unfolding command_events
to_naming line ip path port cs =
    ap (λ es. received line ∷ delivered es) (for_naming-file_events ip port cs)

to_storage :
    (line ip path : Bytes) (port : ℕ) (cs : List Bytes)
    → delivered (for_storage ip port (user_log line ip port path cs))
      ≡ command_replies (write_words path) (incoming cs [])
unfolding command_events
to_storage line ip path port cs = rw (goes_to_self ip port) (
    ap (λ (rest : List Reply). command_replies (write_words path) rest)
      (ap delivered (for_storage-file_events ip port cs)
        ∙ delivered-client_chunks (storage ip port) cs))

to_user :
    (ip path : Bytes) (port : ℕ) (cs : List Bytes)
    → delivered (for_client (place_events 3 ip port)) ++ delivered (peer_log path cs)
      ≡ user_replies ip port path cs
to_user ip path port cs =
    ap
      (λ (rest : List Reply).
        received (int_bytes 3)
        ∷ received (codes "FOUND")
        ∷ place_replies ip port (received ack ∷ received ack ∷ rest))
      (delivered-answers cs)

module _ {Fs : Type 0} (os : System Fs) where
  -- The store after the file has been written.
  abbrev pub with_written : Store Fs → Bytes → Bytes → Store Fs
  with_written s path content = record s { fs = os.written s.fs (dotted os path) content }

  exec_client_command-answers :
      (s : Store Fs) (path content : Bytes) (i : ℕ) (log : List Event)
      → get_value s.files.path_to_sem (c_string path) ≡ some i
      → i ≢ minus_one
      → IsFree s.locks i
      → os.can_write s.fs (dotted os path) ≡ true
      → AllPlain (chunks content)
      → exec_client_command os s (write_words path) 2 (network (incoming (chunks content) []) log)
        ≡ ok (with_written s path content, 1) (network [] (log ++ answers (chunks content)))
  unfolding exec_client_command write_server_side case_eq
  exec_client_command-answers s path content i log known found free writable plain =
      let found_b : (i == minus_one) ≡ false = ground arith in
      let served = write_to_file-chunks s.locks i content [] log free plain in
      rw (known, found_b, writable) (rw served refl)

  -- A user types a line, neither empty nor with a NUL in it, that both programs split into WRITE and a path,
  -- and names a file that can be read, no chunk of which holds a NUL or reads STOP; the path fits into a
  -- row and holds no NUL, the naming server knows a storage server for it, whose address holds no
  -- NUL and whose port is below 2 ^ 32, and that storage server has an index for it whose semaphores
  -- are free, and can open its file for writing. When every `send` succeeds, there are a log of each
  -- of the three programs such that each, given what the others send to it, returns with just its
  -- own log; what is sent to the storage server is what goes to that address and port. The storage server's file then has the content of the user's, nothing else has changed
  -- at the storage server, and the state of the naming server is as before. Every message is taken
  -- but the storage server's last acknowledgement.
  pub user_round-write_server_side :
      (n : NamingServer) (s : Store Fs) (line path content : Bytes)
      (rows others others' : List Bytes) (num i : ℕ)
      → case_eq line (10 ∷ white) ≡ false
      → c_text line ≡ line
      → process_command line rows ≡ some (codes "WRITE" ∷ path ∷ others, 2)
      → process_command line (replicate max_args []) ≡ some (codes "WRITE" ∷ path ∷ others', 2)
      → AllWords (write_words path)
      → get_value n.accessible_paths (c_string path) ≡ some num
      → num ≢ minus_one
      → c_text (server_at n num).ip ≡ (server_at n num).ip
      → (server_at n num).client_port < 2 ^ 32
      → get_value s.files.path_to_sem (c_string path) ≡ some i
      → i ≢ minus_one
      → IsFree s.locks i
      → os.can_write s.fs (dotted os path) ≡ true
      → AllPlain (chunks content)
      → (user : List Event) × (server : List Event) × (peer : List Event) × (user_round line
            (some content)
            (network (delivered (for_client server) ++ delivered peer) [])
          ≡ ok (outcome 1 []) (network (received ack ∷ []) user))
        × (client_round n rows (willing (delivered (for_naming user)) [])
            ≡ ok (next n (codes "WRITE" ∷ path ∷ others)) (willing [] server))
        × (client_connection os s (
              network
                (delivered (for_storage (server_at n num).ip (server_at n num).client_port user))
                [])
            ≡ ok (with_written s path content) (network [] peer))
  user_round-write_server_side n s line path content rows others others' num i typed whole split
        split' words known found plain_ip small known_s found_s free writable plain =
      let ip = (server_at n num).ip in
      let port = (server_at n num).client_port in
      let cs = chunks content in
      let found_b : (num == minus_one) ≡ false = ground arith in
      let located = handle_locate-num n (codes "WRITE" ∷ path ∷ others) 3 num [] [] known in
      let place = place_events 3 ip port in
      (
        user_log line ip port path cs,
        place,
        peer_log path cs,
        rw (to_user ip path port cs)
            (user_round-write line ip path content port others' typed split' plain_ip small),
        rw (to_naming line ip path port cs) (
            client_round-write n n line path rows others place whole split (
              located
              ∙ ap (λ es. ok n (willing [] es))
                  (locate_events-place_events n (codes "WRITE" ∷ path ∷ others) 3 num found_b))),
        rw (to_storage line ip path port cs) (
            client_connection-exec_client_command os s (with_written s path content) (codes "WRITE")
              path (incoming cs []) [] (peer_log path cs) words
              (exec_client_command-answers s path content i (word_acks client (write_words path))
                known_s found_s free writable plain)),
      )
