-- ===== src/StorageServer/Connections.antt =====
-- A connection at the port for the naming server of storageserverinit.c, from the first message to the
-- last, when every `send` succeeds.
use nfs_network_file_system.Prelude.{
  ℕ, ◌+◌, ◌-◌, ◌^◌, ◌<◌, ◌≡◌, refl, sym, ap, ◌∙◌, ◌&&◌, Bool, true, List, [], ◌∷◌, ◌++◌,
  append_assoc, append-nil, some, ◌==◌, ltb, if◌then◌else◌, arith, Bool-cases, inl, inr, length,
}
use nfs_network_file_system.Prelude.Bytes.{Bytes, codes, bytes_eq}
use nfs_network_file_system.Text.{case_eq}
use nfs_network_file_system.MapOperations.{CString, get_value}
use nfs_network_file_system.MapOperations.Values.{IsPath, PathMap}
use nfs_network_file_system.Io.{
  Socket, naming, text, Event, sent, World, Reply, received, ok, send, recv_text, recv_new_int,
  recv, recv_reply, c_text,
}
use nfs_network_file_system.Command.{path_max}
use nfs_network_file_system.Operations.{succeeded, create_command, run_create}
use nfs_network_file_system.Operations.Lemmas.{joined, creates, run_create-get_value}
use nfs_network_file_system.StorageServer.Ports.{
  Store, System, recv_arguments, create_server_side, exec_command, naming_connection,
}

abbrev pub network : List Reply → List Event → World
network replies log = record { sends = []; replies = replies; log = log }

-- Words as they come: not cut at a NUL, and short enough for a row.
abbrev pub AllWords : List Bytes → Type 0
AllWords [] = Unit {0}
AllWords (a ∷ args) = (c_text a ≡ a) × (length a < path_max) × AllWords args

abbrev pub word_replies : List Bytes → List Reply → List Reply
word_replies [] rest = rest
word_replies (a ∷ args) rest = received a ∷ word_replies args rest

abbrev pub word_acks : Socket → List Bytes → List Event
word_acks s [] = []
word_acks s (a ∷ args) = sent s (text (codes "ACK")) ∷ word_acks s args

pub recv_arguments-word_acks :
    (s : Socket) (args : List Bytes) (rest : List Reply) (log : List Event)
    → AllWords args
    → recv_arguments s (length args) (network (word_replies args rest) log)
      ≡ ok args (network rest (log ++ word_acks s args))
unfolding recv_arguments recv_text recv recv_reply send
recv_arguments-word_acks s [] rest log words =
    ap (λ l. ok [] (network rest l)) (sym (append-nil log))
recv_arguments-word_acks s (a ∷ args) rest log words =
    let fits : ltb (length a) path_max ≡ true = ground (arith, words.1) in
    let more =
      recv_arguments-word_acks s args rest (log ++ sent s (text (codes "ACK")) ∷ []) words.2 in
    rw (words.0, fits)
      (rw more (
        ap (λ l. ok (a ∷ args) (network rest l))
          (append_assoc log (sent s (text (codes "ACK")) ∷ []) (word_acks s args))))

-- The messages of the naming server for a command: the number of words, the words, DONE.
abbrev pub command_replies : List Bytes → List Reply → List Reply
command_replies args rest =
    received (length args ∷ 0 ∷ 0 ∷ 0 ∷ []) ∷ word_replies args (received (codes "DONE") ∷ rest)

abbrev pub create_words : Bytes → Bytes → List Bytes
create_words path filename = codes "CREATE" ∷ path ∷ filename ∷ []

pub done_text : case_eq (c_text (codes "DONE")) (codes "DONE") ≡ true
unfolding c_text case_eq
done_text = refl

module _ {Fs : Type 0} (os : System Fs) where
  naming_connection-exec_command :
      (s s' : Store Fs) (a : Bytes) (args : List Bytes) (result : ℕ) (rest : List Reply)
      (log : List Event)
      → AllWords (a ∷ args)
      → exec_command os s
          (a ∷ args)
          (length (a ∷ args))
          (network rest (log ++ word_acks naming (a ∷ args)))
        ≡ ok (s', result) (network rest (log ++ word_acks naming (a ∷ args)))
      → naming_connection os s (network (command_replies (a ∷ args) rest) log)
        ≡ ok s' (
            network rest (
              (log ++ word_acks naming (a ∷ args))
              ++ sent naming (text (if result == 1 then codes "ACK" else codes "FAIL")) ∷ []))
  unfolding naming_connection recv_new_int recv_text recv recv_reply send
  naming_connection-exec_command s s' a args result rest log words run =
      let count : length (a ∷ args) + 0 ≡ length (a ∷ args) = omega arith in
      let talk =
        recv_arguments-word_acks naming (a ∷ args) (received (codes "DONE") ∷ rest) log words in
      rw count (rw talk (rw done_text (rw run refl)))

  create_text : case_eq (codes "CREATE") (codes "CREATE") ≡ true
  unfolding case_eq
  create_text = refl

  -- Whether the program that a CREATE runs succeeds.
  abbrev pub makes : Store Fs → Bytes → Bytes → Bool
  makes s path filename = succeeded ((os.execute s.fs (create_command path filename)).0)

  -- CREATE over a connection of the naming server, with words that hold no NUL and fit into a row,
  -- on a map of paths with fewer than 2 ^ 31 indices, for a name that makes a path below the
  -- directory which fits into the buffer, when every `send` succeeds: every word is acknowledged,
  -- and the last answer is ACK if the program that is run succeeds and FAIL if not. In the first
  -- case the new path, and no other, gets the next index; in the second no index changes.
  pub naming_connection-run_create :
      (s : Store Fs) (path filename : Bytes) (rest : List Reply) (log : List Event)
      → AllWords (create_words path filename)
      → PathMap s.files.path_to_sem
      → IsPath (joined path filename)
      → length (joined path filename) < path_max - 1
      → s.files.associated_files < 2 ^ 31
      → (s' : Store Fs) × (naming_connection os s
            (network (command_replies (create_words path filename) rest) log)
          ≡ ok s' (
              network rest (
                (log ++ word_acks naming (create_words path filename))
                ++ sent naming (text (if makes s path filename then codes "ACK" else codes "FAIL"))
                  ∷ [])))
        × PathMap s'.files.path_to_sem
        × ((q : CString)
            → IsPath q.text
            → get_value s'.files.path_to_sem q ≡ (
                if makes s path filename && bytes_eq (joined path filename) q.text
                then some s.files.associated_files
                else get_value s.files.path_to_sem q))
  unfolding exec_command create_server_side creates
  naming_connection-run_create s path filename rest log words pm hp short small =
      let args = create_words path filename in
      let (f', run, count, pm', known) =
        run_create-get_value (λ c. (os.execute s.fs c).0) s.files (codes "CREATE") path filename []
          3 pm hp short small in
      let s' : Store Fs = record {
        files = f';
        locks = s.locks;
        fs = (os.execute s.fs (create_command path filename)).1;
      } in
      elim (Bool-cases (makes s path filename)) [
        | inl done ↦
            let run' : run_create (λ c. (os.execute s.fs c).0) s.files args 3 ≡ some (f', 1) =
              ground (arith, run, done) in
            let talk =
              naming_connection-exec_command s s' (codes "CREATE") (path ∷ filename ∷ []) 1 rest log
                words (rw create_text (rw run' refl)) in
            (s', talk ∙ rw done refl, pm', λ q hq. known q hq)
        | inr failed ↦
            let run' : run_create (λ c. (os.execute s.fs c).0) s.files args 3 ≡ some (f', 0) =
              ground (arith, run, failed) in
            let talk =
              naming_connection-exec_command s s' (codes "CREATE") (path ∷ filename ∷ []) 0 rest log
                words (rw create_text (rw run' refl)) in
            (s', talk ∙ rw failed refl, pm', λ q hq. known q hq)
      ]
