-- ===== src/ClientInit.antt =====
-- clientinit.c: the program of a client.
pub mod Transfer
pub mod Session
mod Tests
use nfs_network_file_system.Prelude.{
  ℕ, zero, suc, ◌+◌, ◌-◌, ◌<◌, ◌||◌, Bool, true, false, not, List, [], ◌∷◌, ◌++◌, Option, none,
  some, ◌==◌, if◌then◌else◌, take, length, replicate,
}
use nfs_network_file_system.Prelude.Bytes.{Bytes, codes}
use nfs_network_file_system.Text.{case_eq}
use nfs_network_file_system.Io.{
  Socket, storage, naming, text, number, chunk, World, Reply, received, closed, failed, Run, Io,
  pure, ◌>>=◌, ◌>>◌, send, try_send, recv_reply, recv_text, recv_int, recv_new_int, c_text, crash,
}
use nfs_network_file_system.Command.{max_args, process_command}
use nfs_network_file_system.NamingServer.{ack, connect_to_storage_server}
use nfs_network_file_system.NamingServer.Client.{white}
use nfs_network_file_system.StorageServer.{chunks}

-- `connectToStorageServer` of the client, which splits the command itself. Of its rows only those are sent
-- that a word is copied to.
unfoldable pub connect_with_command : Bytes → ℕ → Bytes → Io Socket
connect_with_command ip port command = elim (process_command command (replicate max_args [])) [
  | none ↦ crash
  | some (args, no_args) ↦ connect_to_storage_server ip port (take no_args args)
]

-- A buffer of zeros after a `recv` that did not fail.
unfoldable pub buffer_of : Reply → Option Bytes
buffer_of (received b) = some (c_text b)
buffer_of closed = some []
buffer_of failed = none

-- The loop of `readClientSide`: the result, and the packets that are printed.
unfoldable pub read_loop : ℕ → Socket → List Bytes → Io (ℕ × List Bytes)
unfolding buffer_of
read_loop zero s printed = λ w. Run.blocked w
read_loop (suc fuel) s printed = do
  r ← recv_reply
  elim (buffer_of r) [
    | none ↦ pure (0, printed)
    | some packet ↦ do
      done ← try_send s (text ack)
      if done
          then (if case_eq packet (codes "STOP")
              then pure (1, printed)
              else read_loop fuel s (printed ++ packet ∷ []))
          else pure (0, printed)
  ]

-- Every round takes a reply, so the replies that are left bound the rounds.
unfoldable pub read_client_side : Socket → Io (ℕ × List Bytes)
unfolding read_loop
read_client_side s w = read_loop (suc (length w.replies)) s [] w

-- The loop of `writeClientSide`: whether every chunk was sent and acknowledged.
unfoldable pub write_chunks : Socket → List Bytes → Io Bool
unfolding buffer_of
write_chunks s [] = pure true
write_chunks s (c ∷ cs) = do
  done ← try_send s (chunk c)
  if done
      then (do
        r ← recv_reply
        elim (buffer_of r) [
          | none ↦ pure false
          | some answer ↦ if case_eq answer ack then write_chunks s cs else pure false
        ])
      else pure false

-- `fopen` of the file that the user names gives its content, or fails.
unfoldable pub write_client_side : Socket → Option Bytes → Io ℕ
unfolding write_chunks
write_client_side s none = pure 0
write_client_side s (some content) = do
  written ← write_chunks s (chunks content)
  if written
      then (do done ← try_send s (text (codes "STOP")); pure (if done then 1 else 0))
      else pure 0

-- The result, and the line of details, whose fields are printed.
unfoldable pub file_details_client_side : Socket → Io (ℕ × List Bytes)
unfolding buffer_of
file_details_client_side s = do
  r ← recv_reply
  elim (buffer_of r) [
    | none ↦ pure (0, [])
    | some line ↦ do done ← try_send s (text ack); pure (if done then 1 else 0, line ∷ [])
  ]

-- How a round of the loop of `main` ends: with what it shows to the user, and whether it goes on.
pub data Shown : Type 0 where
  empty_command incorrect_command exiting nothing : Shown
  answer : Bytes → Shown
  outcome : ℕ → List Bytes → Shown

-- After FOUND the client gets the address and the port, and connects.
unfoldable pub find_storage_server : Bytes → Io Socket
unfolding connect_with_command
find_storage_server command = do
  ip ← recv_text
  port ← recv_new_int
  connect_with_command ip port command

-- The file that a WRITE is read from is `input`.
unfoldable pub transfer : ℕ → Bytes → Option Bytes → Io Shown
unfolding find_storage_server read_client_side write_client_side file_details_client_side
transfer command_type command input = do
  reply ← recv_text
  if case_eq reply (codes "FOUND")
      then (do
        s ← find_storage_server command
        if command_type == 2
            then (do (result, printed) ← read_client_side s; pure (outcome result printed))
            else if command_type == 3
            then (do result ← write_client_side s input; pure (outcome result []))
            else do (result, printed) ← file_details_client_side s; pure (outcome result printed))
      else pure (answer reply)

-- A line of the user, of at most `MAX_BUFFER_SIZE - 1` characters.
unfoldable pub user_round : Bytes → Option Bytes → Io Shown
unfolding transfer
user_round line input = if case_eq line (10 ∷ white) then pure empty_command else do
  send naming (text line)
  command_type ← recv_int 0
  if command_type == 1
      then (do reply ← recv_text; pure (answer reply))
      else if (command_type == 2) || ((command_type == 3) || (command_type == 4))
      then transfer command_type line input
      else if command_type == 5
      then pure exiting
      else if command_type == 6
      then pure incorrect_command
      else pure nothing
