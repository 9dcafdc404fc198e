-- ===== src/Exchange/Create.antt =====
-- CREATE, on the naming server (namingserver.c) and on the storage server (storageserverinit.c) together.
use nfs_network_file_system.Prelude.{
  ℕ, ◌-◌, ◌^◌, ◌<◌, ◌≡◌, ◌≢◌, refl, ap, ◌∙◌, ◌&&◌, Bool, true, false, List, [], ◌∷◌, ◌++◌, some,
  if◌then◌else◌, length,
}
use nfs_network_file_system.Prelude.Bytes.{Bytes, codes, bytes_eq}
use nfs_network_file_system.Text.{case_eq}
use nfs_network_file_system.MapOperations.{CString, c_string, minus_one, get_value}
use nfs_network_file_system.MapOperations.Values.{IsPath, PathMap}
use nfs_network_file_system.Io.{naming, text, sent, Event, Reply, received, ok, c_text}
use nfs_network_file_system.Io.Delivery.{
  delivered, goes_to_self, for_storage, for_client, int_bytes,
}
use nfs_network_file_system.Command.{path_max}
use nfs_network_file_system.Operations.Lemmas.{joined}
use nfs_network_file_system.NamingServer.{NamingServer, ack, server_at}
use nfs_network_file_system.NamingServer.Client.{fail, handle_create_delete}
use nfs_network_file_system.NamingServer.Talk.{willing, command_events}
use nfs_network_file_system.NamingServer.CreateDelete.{
  pass_on_events, is_ack, handle_create_delete-update_paths_create,
}
use nfs_network_file_system.StorageServer.Ports.{Store, System, naming_connection}
use nfs_network_file_system.StorageServer.Connections.{
  network, AllWords, word_acks, create_words, command_replies, makes, naming_connection-run_create,
}

abbrev pub result_text : Bool → Bytes
result_text done = if done then codes "ACK" else codes "FAIL"

result_text-is_ack : (done : Bool) → is_ack (result_text done) ≡ done
unfolding c_text case_eq
result_text-is_ack true = refl
result_text-is_ack false = refl

-- What the client gets: the type of the command, and the result.
abbrev pub client_replies : Bytes → List Reply
client_replies answer = received (int_bytes 1) ∷ received answer ∷ []

-- What the storage server gets.
to_storage :
    (n : NamingServer) (path filename : Bytes) (num : ℕ) (acked : Bool)
    → delivered (
        for_storage
          (server_at n num).ip
          (server_at n num).naming_port
          (pass_on_events n (create_words path filename) num acked))
      ≡ command_replies (create_words path filename) []
unfolding pass_on_events command_events
to_storage n path filename num acked =
    rw (goes_to_self (server_at n num).ip (server_at n num).naming_port) refl

module _ {Fs : Type 0} (os : System Fs) where
  -- CREATE of a name in a directory that the naming server knows, for words that hold no NUL and fit
  -- into a row, which make a path that fits into the storage server's buffer, when both servers'
  -- maps are maps of paths, the storage server has fewer than 2 ^ 31 indices, and every `send`
  -- succeeds: there are a log of each server such that each, given what the other sends to it,
  -- the storage server at the address and the port that the naming server has for the path, returns
  -- with just its own log and takes every message. The client gets the type 1 of the command and the
  -- result. If the program that the storage server runs
  -- succeeds, then afterwards the naming server sends requests for the new path to that storage server,
  -- and the storage server has the next index for it; if not, neither map answers any path
  -- otherwise than before. No other path changes.
  pub handle_create_delete-naming_connection :
      (n : NamingServer) (s : Store Fs) (path filename : Bytes) (others : List Bytes) (num : ℕ)
      → PathMap n.accessible_paths
      → get_value n.accessible_paths (c_string path) ≡ some num
      → num ≢ minus_one
      → num < 2 ^ 32
      → AllWords (create_words path filename)
      → PathMap s.files.path_to_sem
      → IsPath (joined path filename)
      → length (joined path filename) < path_max - 1
      → s.files.associated_files < 2 ^ 31
      → (n' : NamingServer) × (s' : Store Fs) × (server : List Event) × (peer : List Event)
        × (handle_create_delete n
              (codes "CREATE" ∷ path ∷ filename ∷ others)
              3
              (willing (delivered peer) [])
            ≡ ok n' (willing [] server))
        × (naming_connection os s (
              network
                (delivered (for_storage (server_at n num).ip (server_at n num).naming_port server))
                [])
            ≡ ok s' (network [] peer))
        × (delivered (for_client server) ≡ client_replies (result_text (makes os s path filename)))
        × ((q : CString)
            → IsPath q.text
            → (get_value n'.accessible_paths q ≡ (
                if makes os s path filename && bytes_eq (joined path filename) q.text
                then some num
                else get_value n.accessible_paths q))
              × (get_value s'.files.path_to_sem q ≡ (
                  if makes os s path filename && bytes_eq (joined path filename) q.text
                  then some s.files.associated_files
                  else get_value s.files.path_to_sem q)))
  unfolding pass_on_events command_events
  handle_create_delete-naming_connection n s path filename others num pm known found small words
        pm_s hp short few =
      let done = makes os s path filename in
      let (s', run_s, _, read_s) =
        naming_connection-run_create os s path filename [] [] words pm_s hp short few in
      let (n', run_n, _, _, read_n) =
        handle_create_delete-update_paths_create n (codes "CREATE" ∷ path ∷ filename ∷ others) 3 num
          (result_text done) [] [] (unfold case_eq in refl) pm known found small hp in
      let server = pass_on_events n (create_words path filename) num (is_ack (result_text done)) in
      let peer =
        word_acks naming (create_words path filename)
        ++ sent naming (text (result_text done)) ∷ [] in
      (
        n',
        s',
        server,
        peer,
        run_n,
        rw (to_storage n path filename num (is_ack (result_text done))) run_s,
        ap (λ (b : Bool). client_replies (if b then ack else fail)) (result_text-is_ack done),
        λ q hq. (
          read_n q hq
              ∙ ap
                  (λ (b : Bool).
                    if b && bytes_eq (joined path filename) q.text
                    then some num
                    else get_value n.accessible_paths q)
                  (result_text-is_ack done),
          read_s q hq,
        ),
      )
