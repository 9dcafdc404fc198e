-- ===== src/Exchange/Unknown.antt =====
-- A command on a path that no storage server has, on the client (clientinit.c) and the naming server
-- (namingserver.c) together.
use nfs_network_file_system.Prelude.{
  ℕ, ◌≡◌, refl, ap, ◌∙◌, false, Option, List, [], ◌∷◌, ◌++◌, some, none, arith, ◌⊎◌, inl, inr,
}
use nfs_network_file_system.Prelude.Bytes.{Bytes, codes}
use nfs_network_file_system.Text.{case_eq}
use nfs_network_file_system.MapOperations.{c_string, minus_one, get_value}
use nfs_network_file_system.Io.{
  client, naming, text, number, sent, Event, received, ok, c_text, send, recv_text, recv_int, recv,
  recv_reply,
}
use nfs_network_file_system.Io.Delivery.{delivered, for_client, int_bytes}
use nfs_network_file_system.Command.{process_command}
use nfs_network_file_system.NamingServer.{NamingServer}
use nfs_network_file_system.NamingServer.Client.{
  white, next, client_round, carry_out, dispatch, CommandType, create_delete, read, write, copy,
  details, exit, invalid, command_type, handle_create_delete, handle_locate,
}
use nfs_network_file_system.NamingServer.Talk.{willing}
use nfs_network_file_system.StorageServer.Connections.{network}
use nfs_network_file_system.ClientInit.{answer, transfer, user_round}

-- The number that the client is told for a command on one path.
abbrev pub number_of : CommandType → Option ℕ
number_of create_delete = some 1
number_of read = some 2
number_of write = some 3
number_of copy = none
number_of details = some 4
number_of exit = none
number_of invalid = none

abbrev pub unknown_text : Bytes → Bytes
unknown_text command =
    codes "Path isn't present in any of our storage servers. COMMAND: "
    ++ (command ++ codes " <PATH> <FILENAME>")

abbrev pub unknown_events : Bytes → ℕ → List Event
unknown_events command k = sent client (number k) ∷ sent client (text (unknown_text command)) ∷ []

c_text-append : (s t : Bytes) → c_text s ≡ s → c_text (s ++ t) ≡ s ++ c_text t
unfolding c_text
c_text-append [] t h = refl
c_text-append (c ∷ s) t h = ground (arith, c_text-append s t)

unknown_text-whole :
    (command : Bytes)
    → c_text command ≡ command
    → c_text (unknown_text command) ≡ unknown_text command
unknown_text-whole command whole =
    let shown = codes "Path isn't present in any of our storage servers. COMMAND: " in
    c_text-append shown (command ++ codes " <PATH> <FILENAME>") (unfold c_text in refl)
    ∙ ap (λ (b : Bytes). shown ++ b)
        (c_text-append command (codes " <PATH> <FILENAME>") whole
          ∙ ap (λ (b : Bytes). command ++ b) (unfold c_text in refl))

dispatch-unknown :
    (n : NamingServer) (command path : Bytes) (others : List Bytes) (no_args k : ℕ)
    (kind : CommandType)
    → number_of kind ≡ some k
    → get_value n.accessible_paths (c_string path) ≡ some minus_one
    → dispatch n (command ∷ path ∷ others) no_args kind (willing [] [])
      ≡ ok (next n (command ∷ path ∷ others)) (willing [] (unknown_events command k))
unfolding dispatch handle_create_delete handle_locate send
dispatch-unknown n command path others no_args k create_delete told unknown =
    rw unknown (ground arith)
dispatch-unknown n command path others no_args k read told unknown = rw unknown (ground arith)
dispatch-unknown n command path others no_args k write told unknown = rw unknown (ground arith)
dispatch-unknown n command path others no_args k copy told unknown = absurd (cc told)
dispatch-unknown n command path others no_args k details told unknown = rw unknown (ground arith)
dispatch-unknown n command path others no_args k exit told unknown = absurd (cc told)
dispatch-unknown n command path others no_args k invalid told unknown = absurd (cc told)

client_round-unknown :
    (n : NamingServer) (line command path : Bytes) (rows others : List Bytes) (no_args k : ℕ)
    → c_text line ≡ line
    → process_command line rows ≡ some (command ∷ path ∷ others, no_args)
    → number_of (command_type line command) ≡ some k
    → get_value n.accessible_paths (c_string path) ≡ some minus_one
    → client_round n rows (willing (received line ∷ []) [])
      ≡ ok (next n (command ∷ path ∷ others)) (willing [] (unknown_events command k))
unfolding client_round carry_out recv_text recv recv_reply
client_round-unknown n line command path rows others no_args k whole words told unknown =
    rw (whole, words)
      (dispatch-unknown n command path others no_args k (command_type line command) told unknown)

told_number :
    (kind : CommandType) (k : ℕ)
    → number_of kind ≡ some k
    → (k ≡ 1) ⊎ ((k ≡ 2) ⊎ ((k ≡ 3) ⊎ (k ≡ 4)))
told_number create_delete k e = inl (ground (arith, e))
told_number read k e = inr (inl (ground (arith, e)))
told_number write k e = inr (inr (inl (ground (arith, e))))
told_number copy k e = absurd (cc e)
told_number details k e = inr (inr (inr (ground (arith, e))))
told_number exit k e = absurd (cc e)
told_number invalid k e = absurd (cc e)

user_round-unknown_text :
    (line command : Bytes) (k : ℕ)
    → case_eq line (10 ∷ white) ≡ false
    → c_text command ≡ command
    → (k ≡ 1) ⊎ ((k ≡ 2) ⊎ ((k ≡ 3) ⊎ (k ≡ 4)))
    → user_round line none
        (network (received (int_bytes k) ∷ received (unknown_text command) ∷ []) [])
      ≡ ok (answer (unknown_text command)) (network [] (sent naming (text line) ∷ []))
unfolding user_round transfer send recv_text recv_int recv recv_reply case_eq
user_round-unknown_text line command k typed whole (inl one) =
    rw (one, typed, unknown_text-whole command whole) refl
user_round-unknown_text line command k typed whole (inr (inl two)) =
    rw (two, typed, unknown_text-whole command whole) refl
user_round-unknown_text line command k typed whole (inr (inr (inl three))) =
    rw (three, typed, unknown_text-whole command whole) refl
user_round-unknown_text line command k typed whole (inr (inr (inr four))) =
    rw (four, typed, unknown_text-whole command whole) refl

-- A user types a line, neither empty nor with a NUL in it, that the naming server takes for a CREATE, DELETE,
-- READ, WRITE or DETAILS of a path that it knows no storage server for, with a first word that holds no
-- NUL. When every `send` succeeds, there are a log of the client and one of the naming server such that
-- each, given what the other sends, returns with just its own log and takes every message. The naming
-- server sends to the client only, and its state stays as it is. The user is shown the message "Path
-- isn't present in any of our storage servers. COMMAND: ", with the command and " <PATH> <FILENAME>"
-- behind it.
pub user_round-unknown_events :
    (n : NamingServer) (line command path : Bytes) (rows others : List Bytes) (no_args k : ℕ)
    → case_eq line (10 ∷ white) ≡ false
    → c_text line ≡ line
    → c_text command ≡ command
    → process_command line rows ≡ some (command ∷ path ∷ others, no_args)
    → number_of (command_type line command) ≡ some k
    → get_value n.accessible_paths (c_string path) ≡ some minus_one
    → (user : List Event) × (server : List Event) × (user_round line none
          (network (delivered server) [])
        ≡ ok
            (answer (
              codes "Path isn't present in any of our storage servers. COMMAND: "
              ++ (command ++ codes " <PATH> <FILENAME>")))
            (network [] user))
      × (client_round n rows (willing (delivered user) [])
          ≡ ok (next n (command ∷ path ∷ others)) (willing [] server))
      × (for_client server ≡ server)
user_round-unknown_events n line command path rows others no_args k typed whole whole' words told
      unknown =
    (
      sent naming (text line) ∷ [],
      unknown_events command k,
      user_round-unknown_text line command k typed whole'
          (told_number (command_type line command) k told),
      client_round-unknown n line command path rows others no_args k whole words told unknown,
      refl,
    )
