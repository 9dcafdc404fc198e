-- ===== src/NamingServer/Rounds.antt =====
-- One round of `client_handler` of namingserver.c: the line that the client sends, and how its thread
-- goes on.
use nfs_network_file_system.Prelude.{
  ℕ, ◌≡◌, ◌≢◌, refl, Bool, true, false, List, [], ◌∷◌, Option, none, some, ◌==◌, arith, Bool-cases,
  inl, inr, map, has,
}
use nfs_network_file_system.Prelude.Bytes.{Bytes, bytes_eq, eq_of_bytes_eq}
use nfs_network_file_system.Text.{lower, case_eq}
use nfs_network_file_system.Io.{
  client, number, World, Reply, received, Event, Run, ok, exited, crashed, blocked, and_then,
  recv_text, recv, recv_reply, c_text, send,
}
use nfs_network_file_system.Command.{process_command}
use nfs_network_file_system.Command.Tokens.{AllBlank, process_command-AllBlank}
use nfs_network_file_system.NamingServer.{NamingServer}
use nfs_network_file_system.NamingServer.Client.{
  arg, Round, next, quit, CommandType, create_delete, read, write, copy, details, exit, invalid,
  exit_command, command_type, dispatch, carry_out, client_round, handle_create_delete,
  handle_locate, handle_copy,
}
use nfs_network_file_system.NamingServer.Talk.{willing}

-- A line of nothing but blanks, tabs and new lines brings the server down, whatever its state.
pub client_round-AllBlank :
    (n : NamingServer) (args : List Bytes) (line : Bytes) (rest : List Reply) (log : List Event)
    → AllBlank (c_text line)
    → client_round n args (willing (received line ∷ rest) log) ≡ crashed (willing rest log)
unfolding client_round carry_out recv_text recv recv_reply
client_round-AllBlank n args line rest log h =
    rw (process_command-AllBlank (c_text line) args h) refl

escape_lower : (c : ℕ) → (lower c == 27) ≡ (c == 27)
escape_lower c = ground arith

has_escape : (s : Bytes) → has 27 (map lower s) ≡ has 27 s
has_escape [] = refl
has_escape (c ∷ s) = ground (arith, escape_lower c, has_escape s)

no_escape : (line : Bytes) → has 27 line ≡ false → case_eq line exit_command ≡ false
unfolding case_eq
no_escape line h = elim (Bool-cases (bytes_eq (map lower line) (map lower exit_command))) [
  | inr differ ↦ differ
  | inl same ↦
      let e = eq_of_bytes_eq (map lower line) (map lower exit_command) same in
      let found : has 27 (map lower line) ≡ true = rw e refl in
      absurd (ground (arith, has_escape line, found))
]

command_type-no_escape : (line first : Bytes) → has 27 line ≡ false → command_type line first ≢ exit
unfolding command_type
command_type-no_escape line first h = ground (arith, no_escape line h)

module _ {A : Type 0} where
  goes_on :
      (r : Run A) (k : A → Round) (n : NamingServer) (w : World)
      → ((a : A) → k a ≢ quit n)
      → and_then r (λ a. ok (k a)) ≢ ok (quit n) w
  goes_on (ok a w') k n w h e = h a (ground arith)
  goes_on (exited w') k n w h e = cc
  goes_on (crashed w') k n w h e = cc
  goes_on (blocked w') k n w h e = cc

dispatch-goes_on :
    (n n' : NamingServer) (args : List Bytes) (no_args : ℕ) (kind : CommandType) (w w' : World)
    → kind ≢ exit
    → dispatch n args no_args kind w ≢ ok (quit n') w'
unfolding dispatch
dispatch-goes_on n n' args no_args create_delete w w' h =
    goes_on (handle_create_delete n args no_args w) (λ m. next m args) n' w' (λ m e. cc)
dispatch-goes_on n n' args no_args read w w' h =
    goes_on (handle_locate n args 2 w) (λ m. next m args) n' w' (λ m e. cc)
dispatch-goes_on n n' args no_args write w w' h =
    goes_on (handle_locate n args 3 w) (λ m. next m args) n' w' (λ m e. cc)
dispatch-goes_on n n' args no_args copy w w' h =
    goes_on (handle_copy n args w) (λ m. next m.0 m.1) n' w' (λ m e. cc)
dispatch-goes_on n n' args no_args details w w' h =
    goes_on (handle_locate n args 4 w) (λ m. next m args) n' w' (λ m e. cc)
dispatch-goes_on n n' args no_args exit w w' h = absurd (h refl)
dispatch-goes_on n n' args no_args invalid w w' h =
    goes_on (send client (number 6) w) (λ m. next n args) n' w' (λ m e. cc)

carry_out-goes_on :
    (n n' : NamingServer) (line : Bytes) (parsed : Option (List Bytes × ℕ)) (w w' : World)
    → has 27 line ≡ false
    → carry_out n line parsed w ≢ ok (quit n') w'
unfolding carry_out
carry_out-goes_on n n' line none w w' h = λ e. cc
carry_out-goes_on n n' line (some (args, no_args)) w w' h =
    dispatch-goes_on n n' args no_args (command_type line (arg args 0)) w w'
      (command_type-no_escape line (arg args 0) h)

-- A line without an escape character does not end the client's thread in order, `exit` included: no
-- state, no rows and no network make the round quit.
pub client_round-quit :
    (n n' : NamingServer) (args : List Bytes) (line : Bytes) (replies : List Reply)
    (sends : List Bool) (log : List Event) (w' : World)
    → has 27 (c_text line) ≡ false
    → client_round n args (record { sends = sends; replies = received line ∷ replies; log = log })
      ≢ ok (quit n') w'
unfolding client_round recv_text recv recv_reply
client_round-quit n n' args line replies sends log w' h =
    carry_out-goes_on n n' (c_text line) (process_command (c_text line) args)
      (record { sends = sends; replies = replies; log = log }) w' h
