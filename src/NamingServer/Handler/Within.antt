-- ===== src/NamingServer/Handler/Within.antt =====
-- What a round of `client_handler` of namingserver.c takes from the network.
use nfs_network_file_system.Prelude.{
  ℕ, zero, suc, ◌≡◌, refl, ◌||◌, Bool, true, false, List, [], ◌∷◌, ◌++◌, Option, none, some, ◌==◌,
  if◌then◌else◌, length, take,
}
use nfs_network_file_system.Prelude.Bytes.{Bytes, codes}
use nfs_network_file_system.Text.{slash, case_eq, basename}
use nfs_network_file_system.MapOperations.{
  c_string, minus_one, set_value, get_value, remove_entry, add_paths_to_list,
}
use nfs_network_file_system.Io.{
  Socket, client, storage, text, number, Packet, Event, World, Reply, received, closed, failed, Run,
  ok, exited, crashed, blocked, Io, and_then, pure, ◌>>=◌, ◌>>◌, returning, or_crash, send,
  recv_reply, recv, recv_text, recv_int, c_text, accept_reply, exit_failure, crash,
}
use nfs_network_file_system.Command.{process_command}
use nfs_network_file_system.NamingServer.{
  NamingServer, server_at, ack, send_arguments, connect_to_storage_server, get_results_from_ss,
  copy_chunks, facilitate_copy,
}
use nfs_network_file_system.NamingServer.Client.{
  arg, update_paths, report_result, handle_create_delete, handle_locate, report_copy, handle_copy,
  CommandType, create_delete, read, write, copy, details, exit, invalid, command_type, dispatch,
  carry_out, client_round,
}

-- Where there is a result, the replies that are left are such.
pub Within : {A : Type 0} → (List Reply → Type 0) → Run A → Type 0
Within P (ok a w) = P w.replies
Within P (exited w) = Unit
Within P (crashed w) = Unit
Within P (blocked w) = Unit

-- What holds of replies holds of those behind the first.
abbrev pub IsClosed : (List Reply → Type 0) → Type 0
IsClosed P = (r : Reply) (rs : List Reply) → P (r ∷ rs) → P rs

module _ (P : List Reply → Type 0) (shrinks : IsClosed P) where
  -- A computation takes replies from the front, and gives none back.
  abbrev pub Takes : {A : Type 0} → Io A → Type 0
  Takes m = (w : World) → P w.replies → Within P (m w)

  Takes-exit_failure : (A : Type 0) → Takes (exit_failure {A = A})
  unfolding Within
  Takes-exit_failure A w h = tt

  Takes-crash : (A : Type 0) → Takes (crash {A = A})
  unfolding Within
  Takes-crash A w h = tt

  Takes-blocked : (A : Type 0) → Takes {A = A} blocked
  unfolding Within
  Takes-blocked A w h = tt

  module _ {A : Type 0} where
    Takes-pure : (a : A) → Takes (pure a)
    unfolding Within
    Takes-pure a w h = h

    Takes-returning : (o : Option A) → Takes (returning o)
    unfolding Within
    Takes-returning none w h = tt
    Takes-returning (some a) w h = h

    Takes-or_crash : (o : Option A) → Takes (or_crash o)
    unfolding Within
    Takes-or_crash none w h = tt
    Takes-or_crash (some a) w h = h

    Takes-if : (b : Bool) (x y : Io A) → Takes x → Takes y → Takes (if b then x else y)
    Takes-if true x y p q = p
    Takes-if false x y p q = q

  module _ {A B : Type 0} where
    Takes-bind : (m : Io A) (k : A → Io B) → Takes m → ((a : A) → Takes (k a)) → Takes (m >>= k)
    unfolding Within
    Takes-bind m k p q w h = bound (m w) (p w h)
      where
        bound : (r : Run A) → Within P r → Within P (and_then r k)
        bound (ok a w') h' = q a w' h'
        bound (exited w') h' = tt
        bound (crashed w') h' = tt
        bound (blocked w') h' = tt

  send-Within :
      (s : Socket) (p : Packet) (sends : List Bool) (replies : List Reply) (log : List Event)
      → P replies
      → Within P (send s p (record { sends = sends; replies = replies; log = log }))
  unfolding send Within
  send-Within s p [] replies log h = h
  send-Within s p (true ∷ sends) replies log h = h
  send-Within s p (false ∷ sends) replies log h = tt

  Takes-send : (s : Socket) (p : Packet) → Takes (send s p)
  Takes-send s p w h = send-Within s p w.sends w.replies w.log h

  recv_reply-Within :
      (sends : List Bool) (replies : List Reply) (log : List Event)
      → P replies
      → Within P (recv_reply (record { sends = sends; replies = replies; log = log }))
  unfolding recv_reply Within
  recv_reply-Within sends [] log h = tt
  recv_reply-Within sends (r ∷ rest) log h = shrinks r rest h

  Takes-recv_reply : Takes recv_reply
  Takes-recv_reply w h = recv_reply-Within w.sends w.replies w.log h

  Takes-recv : Takes recv
  unfolding recv
  Takes-recv = Takes-bind recv_reply accept_reply Takes-recv_reply Takes-accept_reply
    where
      Takes-accept_reply : (r : Reply) → Takes (accept_reply r)
      Takes-accept_reply (received b) = Takes-pure (some b)
      Takes-accept_reply closed = Takes-pure none
      Takes-accept_reply failed = Takes-exit_failure _

  Takes-recv_text : Takes recv_text
  unfolding recv_text
  Takes-recv_text = Takes-bind recv _ Takes-recv (λ b. Takes-pure _)

  Takes-recv_int : (old : ℕ) → Takes (recv_int old)
  unfolding recv_int
  Takes-recv_int old = Takes-bind recv _ Takes-recv (λ b. Takes-pure _)

  Takes-send_arguments : (s : Socket) (args : List Bytes) → Takes (send_arguments s args)
  unfolding send_arguments
  Takes-send_arguments s [] = Takes-pure tt
  Takes-send_arguments s (a ∷ args) = Takes-bind (send s (text a)) _ (Takes-send s (text a)) λ _.
      Takes-bind recv_text _ Takes-recv_text λ answer.
        Takes-if (case_eq answer ack) _ _ (Takes-send_arguments s args) (Takes-exit_failure _)

  Takes-connect_to_storage_server :
      (ip : Bytes) (port : ℕ) (args : List Bytes) → Takes (connect_to_storage_server ip port args)
  unfolding connect_to_storage_server
  Takes-connect_to_storage_server ip port args =
      Takes-bind (send (storage ip port) (number (length args))) _
        (Takes-send (storage ip port) (number (length args)))
        λ _.
          Takes-bind (send_arguments (storage ip port) args) _
            (Takes-send_arguments (storage ip port) args)
            λ _.
              Takes-bind (send (storage ip port) (text (codes "DONE"))) _
                (Takes-send (storage ip port) (text (codes "DONE"))) λ _. Takes-pure _

  Takes-get_results_from_ss :
      (ip : Bytes) (port : ℕ) (args : List Bytes) → Takes (get_results_from_ss ip port args)
  unfolding get_results_from_ss
  Takes-get_results_from_ss ip port args =
      Takes-bind (connect_to_storage_server ip port args) _
        (Takes-connect_to_storage_server ip port args)
        λ _. Takes-bind recv_text _ Takes-recv_text λ answer. Takes-pure _

  Takes-copy_chunks : (fuel : ℕ) (s : Socket) → Takes (copy_chunks fuel s)
  unfolding copy_chunks
  Takes-copy_chunks zero s = Takes-blocked _
  Takes-copy_chunks (suc fuel) s =
      Takes-bind recv_reply _ Takes-recv_reply (each (Takes-copy_chunks fuel s))
    where
      each :
          Takes (copy_chunks fuel s)
          → (r : Reply)
          → Takes (elim r [
            | received b ↦
                if case_eq (c_text b) (codes "STOP")
                then pure tt
                else do send s (text (c_text b)); copy_chunks fuel s
            | closed ↦ pure tt
            | failed ↦ pure tt
          ])
      each more (received b) =
          Takes-if (case_eq (c_text b) (codes "STOP")) _ _ (Takes-pure tt)
            (Takes-bind (send s (text (c_text b))) _ (Takes-send s (text (c_text b))) λ _. more)
      each more closed = Takes-pure tt
      each more failed = Takes-pure tt

  Takes-facilitate_copy : (s₁ s₂ : Socket) → Takes (facilitate_copy s₁ s₂)
  unfolding facilitate_copy
  Takes-facilitate_copy s₁ s₂ = Takes-bind recv_text _ Takes-recv_text λ name.
      Takes-bind (send s₂ (text name)) _ (Takes-send s₂ (text name)) λ _.
        Takes-bind (λ w. copy_chunks (suc (length w.replies)) s₂ w) _
          (λ w h. Takes-copy_chunks (suc (length w.replies)) s₂ w h)
          λ _.
            Takes-bind (send s₂ (text (codes "STOP"))) _ (Takes-send s₂ (text (codes "STOP"))) λ _.
              Takes-bind (recv_int 0) _ (Takes-recv_int 0) λ zip.
                Takes-bind recv_text _ Takes-recv_text
                  λ a. Takes-bind recv_text _ Takes-recv_text λ b. Takes-pure _

  Takes-update_paths :
      (n : NamingServer) (args : List Bytes) (num : ℕ) → Takes (update_paths n args num)
  unfolding update_paths
  Takes-update_paths n args num =
      Takes-if (case_eq (arg args 0) (codes "CREATE")) _ _
        (Takes-bind
          (returning
            (set_value n.accessible_paths (c_string (arg args 1 ++ slash ∷ arg args 2)) num))
          _ (Takes-returning _) λ m. Takes-pure _)
        (Takes-if (case_eq (arg args 0) (codes "DELETE")) _ _
          (Takes-bind (returning (remove_entry n.accessible_paths (arg args 1))) _
            (Takes-returning _) λ m. Takes-pure _)
          (Takes-pure n))

  -- A last message to the client, and the result.
  Takes-last : {A : Type 0} (p : Packet) (a : A) → Takes (send client p >> pure a)
  Takes-last p a = Takes-bind (send client p) _ (Takes-send client p) λ _. Takes-pure a

  Takes-report_result :
      (n : NamingServer) (args : List Bytes) (num result : ℕ)
      → Takes (report_result n args num result)
  unfolding report_result
  Takes-report_result n args num result =
      Takes-if (result == 1) _ _
        (Takes-bind (update_paths n args num) _ (Takes-update_paths n args num)
          λ n'. Takes-last _ n')
        (Takes-last _ n)

  Takes-handle_create_delete :
      (n : NamingServer) (args : List Bytes) (no_args : ℕ)
      → Takes (handle_create_delete n args no_args)
  unfolding handle_create_delete
  Takes-handle_create_delete n args no_args =
      Takes-bind (send client (number 1)) _ (Takes-send client (number 1)) λ _.
        Takes-bind (returning (get_value n.accessible_paths (c_string (arg args 1)))) _
          (Takes-returning _)
          λ num. Takes-if (num == minus_one) _ _ (Takes-last _ n) (
            Takes-bind
              (get_results_from_ss (server_at n num).ip (server_at n num).naming_port
                (take no_args args))
              _
              (Takes-get_results_from_ss (server_at n num).ip (server_at n num).naming_port
                (take no_args args))
              λ result. Takes-report_result n args num result)

  Takes-handle_locate :
      (n : NamingServer) (args : List Bytes) (command : ℕ) → Takes (handle_locate n args command)
  unfolding handle_locate
  Takes-handle_locate n args command =
      Takes-bind (send client (number command)) _ (Takes-send client (number command)) λ _.
        Takes-bind (returning (get_value n.accessible_paths (c_string (arg args 1)))) _
          (Takes-returning _)
          λ num. Takes-if (num == minus_one) _ _ (Takes-last _ n) (
            Takes-bind (send client (text (codes "FOUND"))) _ (Takes-send client _) λ _.
              Takes-bind (send client (text (server_at n num).ip)) _ (Takes-send client _)
                λ _. Takes-last _ n)

  Takes-report_copy :
      (n : NamingServer) (args : List Bytes) (result : ℕ) → Takes (report_copy n args result)
  unfolding report_copy
  Takes-report_copy n args result =
      Takes-if (result == 1) _ _
        (Takes-bind (returning (get_value n.accessible_paths (c_string (arg args 2)))) _
          (Takes-returning _)
          λ num.
            Takes-bind
              (returning (
                set_value n.accessible_paths
                  (c_string (arg args 2 ++ slash ∷ basename (arg args 1))) num))
              _ (Takes-returning _) λ m. Takes-last _ _)
        (Takes-if (result == 2) _ _
          (Takes-bind (returning (get_value n.accessible_paths (c_string (arg args 2)))) _
            (Takes-returning _)
            λ num.
              Takes-bind
                (or_crash (add_paths_to_list n.accessible_paths num (arg args 2) (arg args 1))) _
                (Takes-or_crash _) λ m. Takes-last _ _)
          (Takes-last _ (n, args)))

  Takes-handle_copy : (n : NamingServer) (args : List Bytes) → Takes (handle_copy n args)
  unfolding handle_copy
  Takes-handle_copy n args =
      Takes-bind (send client (number 1)) _ (Takes-send client (number 1)) λ _.
        Takes-bind (returning (get_value n.accessible_paths (c_string (arg args 1)))) _
          (Takes-returning _)
          λ num₁.
            Takes-bind (returning (get_value n.accessible_paths (c_string (arg args 2)))) _
              (Takes-returning _)
              λ num₂.
                Takes-if ((num₁ == minus_one) || (num₂ == minus_one)) _ _ (Takes-last _ (n, args)) (
                  Takes-bind
                    (connect_to_storage_server (server_at n num₁).ip (server_at n num₁).naming_port
                      (codes "SEND" ∷ arg args 1 ∷ []))
                    _ (Takes-connect_to_storage_server _ _ _)
                    λ s₁.
                      Takes-bind
                        (connect_to_storage_server (server_at n num₂).ip
                          (server_at n num₂).naming_port (codes "RECEIVE" ∷ arg args 2 ∷ []))
                        _ (Takes-connect_to_storage_server _ _ _)
                        λ s₂.
                          Takes-bind (facilitate_copy s₁ s₂) _ (Takes-facilitate_copy s₁ s₂)
                            λ result. Takes-report_copy n args result)

  Takes-dispatch :
      (n : NamingServer) (args : List Bytes) (no_args : ℕ) (command : CommandType)
      → Takes (dispatch n args no_args command)
  unfolding dispatch
  Takes-dispatch n args no_args create_delete =
      Takes-bind (handle_create_delete n args no_args) _ (Takes-handle_create_delete n args no_args)
        λ n'. Takes-pure _
  Takes-dispatch n args no_args read =
      Takes-bind (handle_locate n args 2) _ (Takes-handle_locate n args 2) λ n'. Takes-pure _
  Takes-dispatch n args no_args write =
      Takes-bind (handle_locate n args 3) _ (Takes-handle_locate n args 3) λ n'. Takes-pure _
  Takes-dispatch n args no_args copy =
      Takes-bind (handle_copy n args) _ (Takes-handle_copy n args) λ r. Takes-pure _
  Takes-dispatch n args no_args details =
      Takes-bind (handle_locate n args 4) _ (Takes-handle_locate n args 4) λ n'. Takes-pure _
  Takes-dispatch n args no_args exit = Takes-last _ _
  Takes-dispatch n args no_args invalid = Takes-last _ _

  Takes-carry_out :
      (n : NamingServer) (line : Bytes) (words : Option (List Bytes × ℕ))
      → Takes (carry_out n line words)
  unfolding carry_out
  Takes-carry_out n line none = Takes-crash _
  Takes-carry_out n line (some (args, no_args)) =
      Takes-dispatch n args no_args (command_type line (arg args 0))

  -- A round that ends has taken the first reply.
  pub client_round-Within :
      (n : NamingServer) (args : List Bytes) (sends : List Bool) (replies : List Reply)
      (log : List Event)
      → ((r : Reply) (rest : List Reply) → replies ≡ r ∷ rest → P rest)
      → Within P (client_round n args (record { sends = sends; replies = replies; log = log }))
  unfolding client_round recv_text recv recv_reply Within
  client_round-Within n args sends [] log h = tt
  client_round-Within n args sends (received b ∷ rest) log h =
      Takes-carry_out n (c_text b) (process_command (c_text b) args)
        (record { sends = sends; replies = rest; log = log }) (h _ rest refl)
  client_round-Within n args sends (closed ∷ rest) log h =
      Takes-carry_out n [] (process_command [] args)
        (record { sends = sends; replies = rest; log = log }) (h _ rest refl)
  client_round-Within n args sends (failed ∷ rest) log h = tt

pub Within-replies :
    {A : Type 0} (P : List Reply → Type 0) (a : A) (w : World) → Within P (ok a w) → P w.replies
unfolding Within
Within-replies P a w h = h
