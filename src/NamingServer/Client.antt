-- ===== src/NamingServer/Client.antt =====
-- `client_handler` of namingserver.c: one round of the loop of a client's thread, a function for each
-- command.
use nfs_network_file_system.Prelude.{
  ℕ, ◌||◌, List, [], ◌∷◌, ◌++◌, Option, none, some, ◌==◌, if◌then◌else◌, get_or, set, take,
}
use nfs_network_file_system.Prelude.Bytes.{Bytes, codes}
use nfs_network_file_system.Text.{slash, case_eq, basename, cut_slashes}
use nfs_network_file_system.MapOperations.{
  c_string, minus_one, set_value, get_value, remove_entry, add_paths_to_list,
}
use nfs_network_file_system.Io.{
  client, text, number, Io, pure, ◌>>=◌, ◌>>◌, returning, or_crash, send, recv_text, crash,
}
use nfs_network_file_system.Command.{process_command}
use nfs_network_file_system.NamingServer.{
  NamingServer, server_at, ack, connect_to_storage_server, get_results_from_ss, facilitate_copy,
}

-- `ARGS[i]`. The rows are arrays, so the tests `ARGS[i] == NULL` of the handlers always fail: a row that
-- the command has no word for holds what an earlier command left there.
abbrev pub arg : List Bytes → ℕ → Bytes
arg args i = get_or args i []

abbrev pub fail : Bytes
fail = codes "FAIL"

-- The answer for a path that no storage server has.
abbrev pub not_found : Bytes → Bytes → Bytes
not_found command usage =
    codes "Path isn't present in any of our storage servers. COMMAND: " ++ command ++ usage

abbrev pub path_filename : Bytes
path_filename = codes " <PATH> <FILENAME>"

abbrev pub path_new_path : Bytes
path_new_path = codes " <PATH> <NEW PATH>"

-- The change to the list of accessible paths after a success.
unfoldable pub update_paths : NamingServer → List Bytes → ℕ → Io NamingServer
update_paths n args num =
    if case_eq (arg args 0) (codes "CREATE")
    then (do
      m ← returning (set_value n.accessible_paths (c_string (arg args 1 ++ slash ∷ arg args 2)) num)
      pure (record n { accessible_paths = m }))
    else if case_eq (arg args 0) (codes "DELETE")
    then (do
      m ← returning (remove_entry n.accessible_paths (arg args 1))
      pure (record n { accessible_paths = m }))
    else pure n

-- What the client is told, and the state, after the storage server's result.
unfoldable pub report_result : NamingServer → List Bytes → ℕ → ℕ → Io NamingServer
unfolding update_paths
report_result n args num result =
    if result == 1
    then (do n' ← update_paths n args num; send client (text ack); pure n')
    else do send client (text fail); pure n

-- CREATE and DELETE. The command is passed on to the storage server that has the path.
unfoldable pub handle_create_delete : NamingServer → List Bytes → ℕ → Io NamingServer
unfolding report_result
handle_create_delete n args no_args = do
  send client (number 1)
  num ← returning (get_value n.accessible_paths (c_string (arg args 1)))
  if num == minus_one
      then (do send client (text (not_found (arg args 0) path_filename)); pure n)
      else do
        let ss = server_at n num
        result ← get_results_from_ss ss.ip ss.naming_port (take no_args args)
        report_result n args num result

-- READ, WRITE and DETAILS, of command type 2, 3 and 4: the client is told where the path is.
unfoldable pub handle_locate : NamingServer → List Bytes → ℕ → Io NamingServer
handle_locate n args command_type = do
  send client (number command_type)
  num ← returning (get_value n.accessible_paths (c_string (arg args 1)))
  if num == minus_one
      then (do send client (text (not_found (arg args 0) path_filename)); pure n)
      else do
        send client (text (codes "FOUND"))
        send client (text (server_at n num).ip)
        send client (number (server_at n num).client_port)
        pure n

-- COPY, after `facilitateCopy`: 1 for a file, 2 for a folder. `basename` cuts the slashes at the end
-- of `ARGS[1]` off.
unfoldable pub report_copy : NamingServer → List Bytes → ℕ → Io (NamingServer × List Bytes)
report_copy n args result =
    if result == 1
    then (do
      let source = arg args 1
      num ← returning (get_value n.accessible_paths (c_string (arg args 2)))
      m ←
          returning
            (set_value n.accessible_paths (c_string (arg args 2 ++ slash ∷ basename source)) num)
      send client (text ack)
      pure (record n { accessible_paths = m }, set args 1 (cut_slashes source)))
    else if result == 2
    then (do
      num ← returning (get_value n.accessible_paths (c_string (arg args 2)))
      m ← or_crash (add_paths_to_list n.accessible_paths num (arg args 2) (arg args 1))
      send client (text ack)
      pure (record n { accessible_paths = m }, args))
    else do send client (text fail); pure (n, args)

unfoldable pub handle_copy : NamingServer → List Bytes → Io (NamingServer × List Bytes)
unfolding report_copy
handle_copy n args = do
  send client (number 1)
  num₁ ← returning (get_value n.accessible_paths (c_string (arg args 1)))
  num₂ ← returning (get_value n.accessible_paths (c_string (arg args 2)))
  if (num₁ == minus_one) || (num₂ == minus_one)
      then (do send client (text (not_found (arg args 0) path_new_path)); pure (n, args))
      else do
        let ss₁ = server_at n num₁
        let ss₂ = server_at n num₂
        s₁ ← connect_to_storage_server ss₁.ip ss₁.naming_port (codes "SEND" ∷ arg args 1 ∷ [])
        s₂ ← connect_to_storage_server ss₂.ip ss₂.naming_port (codes "RECEIVE" ∷ arg args 2 ∷ [])
        result ← facilitate_copy s₁ s₂
        report_copy n args result

-- What a round ends with: the next round, with the rows of `ARGS` as they are, or the end of the loop.
pub data Round : Type 0 where
  next : NamingServer → List Bytes → Round
  quit : NamingServer → Round

-- The escape sequence `white`, which the text that `exit` is compared with ends in.
abbrev pub white : Bytes
white = 27 ∷ codes "[0;37m"

abbrev pub exit_command : Bytes
exit_command = codes "exit" ++ 10 ∷ white

-- The command that a line asks for, by its first word, or by the whole line for the last but one.
pub data CommandType : Type 0 where
  create_delete read write copy details exit invalid : CommandType

unfoldable pub command_type : Bytes → Bytes → CommandType
command_type line first =
    if case_eq first (codes "CREATE") || case_eq first (codes "DELETE")
    then create_delete
    else if case_eq first (codes "READ")
    then read
    else if case_eq first (codes "WRITE")
    then write
    else if case_eq first (codes "COPY")
    then copy
    else if case_eq first (codes "DETAILS")
    then details
    else if case_eq line exit_command
    then exit
    else invalid

unfoldable pub dispatch : NamingServer → List Bytes → ℕ → CommandType → Io Round
unfolding handle_create_delete handle_locate handle_copy
dispatch n args no_args create_delete = do
  n' ← handle_create_delete n args no_args
  pure (next n' args)
dispatch n args no_args read = do n' ← handle_locate n args 2; pure (next n' args)
dispatch n args no_args write = do n' ← handle_locate n args 3; pure (next n' args)
dispatch n args no_args copy = do (n', args') ← handle_copy n args; pure (next n' args')
dispatch n args no_args details = do n' ← handle_locate n args 4; pure (next n' args)
dispatch n args no_args exit = do send client (number 5); pure (quit n)
dispatch n args no_args invalid = do send client (number 6); pure (next n args)

-- What `processCommand` gives is carried out.
unfoldable pub carry_out : NamingServer → Bytes → Option (List Bytes × ℕ) → Io Round
unfolding dispatch
carry_out n line none = crash
carry_out n line (some (args, no_args)) = dispatch n args no_args (command_type line (arg args 0))

-- A line comes from the client, is split into words, and is carried out.
unfoldable pub client_round : NamingServer → List Bytes → Io Round
unfolding carry_out
client_round n args = do line ← recv_text; carry_out n line (process_command line args)
