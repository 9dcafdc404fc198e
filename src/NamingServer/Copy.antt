-- ===== src/NamingServer/Copy.antt =====
-- COPY on the naming server of namingserver.c, when every `send` succeeds and both storage servers answer.
use nfs_network_file_system.Prelude.{
  ℕ, zero, suc, ◌+◌, ◌^◌, ◌<◌, ◌≡◌, ◌≢◌, refl, sym, ap, ◌∙◌, ◌&&◌, ◌||◌, Bool, true, false, List,
  [], ◌∷◌, ◌++◌, append_assoc, append-nil, some, ◌==◌, if◌then◌else◌, arith, Bool-cases, inl, inr,
  length, set,
}
use nfs_network_file_system.Prelude.Bytes.{Bytes, codes, bytes_eq}
use nfs_network_file_system.Text.{slash, case_eq, basename, cut_slashes}
use nfs_network_file_system.MapOperations.{CString, c_string, minus_one, get_value}
use nfs_network_file_system.MapOperations.Values.{IsPath, PathMap, get_value-set_value}
use nfs_network_file_system.Io.{
  Socket, client, storage, text, number, Event, sent, Reply, received, ok, send, c_text, recv_text,
  recv_int, recv, recv_reply,
}
use nfs_network_file_system.NamingServer.{
  NamingServer, server_at, ack, copy_chunks, facilitate_copy,
}
use nfs_network_file_system.NamingServer.Client.{arg, fail, report_copy, handle_copy}
use nfs_network_file_system.NamingServer.Talk.{
  willing, acks, command_events, connect_to_storage_server-command_events,
}

abbrev stop : Bytes
stop = codes "STOP"

-- Chunks that do not read STOP.
abbrev pub AllGoOn : List Bytes → Type 0
AllGoOn [] = Unit {0}
AllGoOn (c ∷ cs) = (case_eq (c_text c) stop ≡ false) × AllGoOn cs

-- What the source sends: the chunks, and STOP.
abbrev pub incoming : List Bytes → List Reply → List Reply
incoming [] rest = received stop ∷ rest
incoming (c ∷ cs) rest = received c ∷ incoming cs rest

abbrev pub forwarded : Socket → List Bytes → List Event
forwarded s [] = []
forwarded s (c ∷ cs) = sent s (text (c_text c)) ∷ forwarded s cs

stop_text : case_eq (c_text stop) stop ≡ true
unfolding c_text case_eq
stop_text = refl

copy_chunks-forwarded :
    (fuel : ℕ) (s : Socket) (cs : List Bytes) (rest : List Reply) (log : List Event)
    → length cs < fuel
    → AllGoOn cs
    → copy_chunks fuel s (willing (incoming cs rest) log)
      ≡ ok tt (willing rest (log ++ forwarded s cs))
unfolding copy_chunks send recv_reply
copy_chunks-forwarded zero s cs rest log h plain = absurd (omega arith)
copy_chunks-forwarded (suc fuel) s [] rest log h plain =
    rw stop_text (ap (λ l. ok tt (willing rest l)) (sym (append-nil log)))
copy_chunks-forwarded (suc fuel) s (c ∷ cs) rest log h plain =
    let more =
      copy_chunks-forwarded fuel s cs rest (log ++ sent s (text (c_text c)) ∷ []) (omega arith)
        plain.1 in
    rw plain.0 (
      more
      ∙ ap (λ l. ok tt (willing rest l))
          (append_assoc log (sent s (text (c_text c)) ∷ []) (forwarded s cs)))

length-incoming : (cs : List Bytes) (rest : List Reply) → length cs < length (incoming cs rest)
length-incoming [] rest = omega arith
length-incoming (c ∷ cs) rest = omega (arith, length-incoming cs rest)

-- The replies of both storage servers in the order in which they are taken: the name and the chunks of
-- the source, then the destination's note of an archive, then both results.
abbrev pub copy_replies : Bytes → List Bytes → Bytes → Bytes → Bytes → List Reply → List Reply
copy_replies name cs zip ack₁ ack₂ rest =
    received name ∷ incoming cs (received zip ∷ received ack₁ ∷ received ack₂ ∷ rest)

-- What the destination is sent.
abbrev pub copy_events : Socket → Bytes → List Bytes → List Event
copy_events s name cs = sent s (text (c_text name)) ∷ (forwarded s cs ++ sent s (text stop) ∷ [])

-- A file's note is the number 0, that of an archive the number 1.
abbrev pub zip_note : ℕ → Bytes
zip_note zip = zip ∷ 0 ∷ 0 ∷ 0 ∷ []

unfoldable pub copy_result : ℕ → Bytes → Bytes → ℕ
copy_result zip ack₁ ack₂ =
    if case_eq (c_text ack₁) ack && case_eq (c_text ack₂) ack
    then (if zip == 0 then 1 else 2)
    else 0

facilitate_copy-copy_events :
    (s₁ s₂ : Socket) (name : Bytes) (cs : List Bytes) (zip : ℕ) (ack₁ ack₂ : Bytes)
    (rest : List Reply) (log : List Event)
    → AllGoOn cs
    → facilitate_copy s₁ s₂ (willing (copy_replies name cs (zip_note zip) ack₁ ack₂ rest) log)
      ≡ ok (copy_result zip ack₁ ack₂) (willing rest (log ++ copy_events s₂ name cs))
unfolding facilitate_copy send recv_text recv_int recv recv_reply copy_result
facilitate_copy-copy_events s₁ s₂ name cs zip ack₁ ack₂ rest log plain =
    let tail = received (zip_note zip) ∷ received ack₁ ∷ received ack₂ ∷ rest in
    let loop =
      copy_chunks-forwarded (suc (length (incoming cs tail))) s₂ cs tail
        (log ++ sent s₂ (text (c_text name)) ∷ []) (omega (arith, length-incoming cs tail)) plain in
    let same : zip + 0 ≡ zip = omega arith in rw (loop, same) (simp append_assoc)

-- Everything that is sent for a COPY from the one storage server to the other.
unfoldable pub all_copy_events :
    NamingServer → List Bytes → ℕ → ℕ → Bytes → List Bytes → Bytes → List Event
all_copy_events n args num₁ num₂ name cs answer =
    let s₁ = storage (server_at n num₁).ip (server_at n num₁).naming_port in
    let s₂ = storage (server_at n num₂).ip (server_at n num₂).naming_port in
    sent client (number 1)
    ∷ (command_events s₁ (codes "SEND" ∷ arg args 1 ∷ [])
        ++ (command_events s₂ (codes "RECEIVE" ∷ arg args 2 ∷ [])
            ++ (copy_events s₂ name cs ++ sent client (text answer) ∷ [])))

-- The log before the answer to the client.
abbrev transfer_log :
    NamingServer → List Bytes → ℕ → ℕ → Bytes → List Bytes → List Event → List Event
transfer_log n args num₁ num₂ name cs log =
    (((log ++ sent client (number 1) ∷ [])
        ++ command_events (storage (server_at n num₁).ip (server_at n num₁).naming_port)
            (codes "SEND" ∷ arg args 1 ∷ []))
      ++ command_events (storage (server_at n num₂).ip (server_at n num₂).naming_port)
          (codes "RECEIVE" ∷ arg args 2 ∷ []))
    ++ copy_events (storage (server_at n num₂).ip (server_at n num₂).naming_port) name cs

-- The replies of a whole COPY, from the acknowledgements of the words on.
abbrev pub whole_copy :
    List Bytes → Bytes → List Bytes → ℕ → Bytes → Bytes → List Reply → List Reply
whole_copy args name cs zip ack₁ ack₂ rest =
    acks (codes "SEND" ∷ arg args 1 ∷ []) (
      acks (codes "RECEIVE" ∷ arg args 2 ∷ []) (copy_replies name cs (zip_note zip) ack₁ ack₂ rest))

handle_copy-report_copy :
    (n : NamingServer) (args : List Bytes) (num₁ num₂ zip : ℕ) (name : Bytes) (cs : List Bytes)
    (ack₁ ack₂ : Bytes) (rest : List Reply) (log : List Event)
    → get_value n.accessible_paths (c_string (arg args 1)) ≡ some num₁
    → get_value n.accessible_paths (c_string (arg args 2)) ≡ some num₂
    → num₁ ≢ minus_one
    → num₂ ≢ minus_one
    → AllGoOn cs
    → handle_copy n args (willing (whole_copy args name cs zip ack₁ ack₂ rest) log)
      ≡ report_copy n args
          (copy_result zip ack₁ ack₂)
          (willing rest (transfer_log n args num₁ num₂ name cs log))
unfolding handle_copy send
handle_copy-report_copy n args num₁ num₂ zip name cs ack₁ ack₂ rest log e₁ e₂ found₁ found₂ plain =
    let known : ((num₁ == minus_one) || (num₂ == minus_one)) ≡ false = ground arith in
    let ss₁ = server_at n num₁ in
    let ss₂ = server_at n num₂ in
    let words₁ = codes "SEND" ∷ arg args 1 ∷ [] in
    let words₂ = codes "RECEIVE" ∷ arg args 2 ∷ [] in
    let replies = copy_replies name cs (zip_note zip) ack₁ ack₂ rest in
    let log₁ = log ++ sent client (number 1) ∷ [] in
    let log₂ = log₁ ++ command_events (storage ss₁.ip ss₁.naming_port) words₁ in
    let log₃ = log₂ ++ command_events (storage ss₂.ip ss₂.naming_port) words₂ in
    let first =
      connect_to_storage_server-command_events ss₁.ip ss₁.naming_port words₁ (acks words₂ replies)
        log₁ in
    let second =
      connect_to_storage_server-command_events ss₂.ip ss₂.naming_port words₂ replies log₂ in
    let transfer =
      facilitate_copy-copy_events (storage ss₁.ip ss₁.naming_port) (storage ss₂.ip ss₂.naming_port)
        name cs zip ack₁ ack₂ rest log₃ plain in
    rw (e₁, e₂, known) (rw first (rw second (rw transfer refl)))

ordered :
    (r : NamingServer × List Bytes) (n : NamingServer) (args : List Bytes) (num₁ num₂ : ℕ)
    (name : Bytes) (cs : List Bytes) (answer : Bytes) (rest : List Reply) (log : List Event)
    → ok r
        (willing rest (transfer_log n args num₁ num₂ name cs log ++ sent client (text answer) ∷ []))
      ≡ ok r (willing rest (log ++ all_copy_events n args num₁ num₂ name cs answer))
unfolding all_copy_events
ordered r n args num₁ num₂ name cs answer rest log = simp append_assoc

-- The path that a copied file is recorded as.
abbrev pub copy_target : List Bytes → Bytes
copy_target args = arg args 2 ++ slash ∷ basename (arg args 1)

report_copy-file :
    (n : NamingServer) (args : List Bytes) (num₂ : ℕ) (rest : List Reply) (log : List Event)
    → PathMap n.accessible_paths
    → get_value n.accessible_paths (c_string (arg args 2)) ≡ some num₂
    → num₂ < 2 ^ 32
    → IsPath (copy_target args)
    → (n' : NamingServer) × (args' : List Bytes) × (report_copy n args 1 (willing rest log)
        ≡ ok (n', args') (willing rest (log ++ sent client (text ack) ∷ [])))
      × PathMap n'.accessible_paths
      × ((q : CString)
          → IsPath q.text
          → get_value n'.accessible_paths q ≡ (
              if bytes_eq (copy_target args) q.text
              then some num₂
              else get_value n.accessible_paths q))
unfolding report_copy send
report_copy-file n args num₂ rest log pm e small hp =
    let (m, run, pm', read) = get_value-set_value pm (c_string (copy_target args)) num₂ hp small in
    (
      record n { accessible_paths = m },
      set args 1 (cut_slashes (arg args 1)),
      rw (e, run) refl,
      pm',
      read,
    )

report_copy-failed :
    (n : NamingServer) (args : List Bytes) (rest : List Reply) (log : List Event)
    → report_copy n args 0 (willing rest log)
      ≡ ok (n, args) (willing rest (log ++ sent client (text fail) ∷ []))
unfolding report_copy send
report_copy-failed n args rest log = refl

abbrev pub both_acked : Bytes → Bytes → Bool
both_acked ack₁ ack₂ = case_eq (c_text ack₁) ack && case_eq (c_text ack₂) ack

copy_result-file :
    (ack₁ ack₂ : Bytes) → copy_result 0 ack₁ ack₂ ≡ (if both_acked ack₁ ack₂ then 1 else 0)
unfolding copy_result
copy_result-file ack₁ ack₂ = refl

-- COPY of a file between two paths that the map of paths has numbers other than -1 for, that of the
-- destination below 2 ^ 32, when the file's name makes a path below the destination, no chunk reads
-- STOP, every `send` succeeds and both storage servers take every word: the source's storage server
-- is told to send and the destination's to receive; the name, every chunk and STOP are passed on in
-- order, and the client is told the result. If both storage servers acknowledge, the file's path
-- below the destination, and no other, is recorded for the destination's storage server; if not, no
-- look-up changes.
pub handle_copy-facilitate_copy :
    (n : NamingServer) (args : List Bytes) (num₁ num₂ : ℕ) (name : Bytes) (cs : List Bytes)
    (ack₁ ack₂ : Bytes) (rest : List Reply) (log : List Event)
    → PathMap n.accessible_paths
    → get_value n.accessible_paths (c_string (arg args 1)) ≡ some num₁
    → get_value n.accessible_paths (c_string (arg args 2)) ≡ some num₂
    → num₁ ≢ minus_one
    → num₂ ≢ minus_one
    → num₂ < 2 ^ 32
    → AllGoOn cs
    → IsPath (copy_target args)
    → (n' : NamingServer) × (args' : List Bytes) × (handle_copy n args
          (willing (whole_copy args name cs 0 ack₁ ack₂ rest) log)
        ≡ ok
            (n', args')
            (willing rest (
              log
              ++ all_copy_events n args num₁ num₂ name cs
                  (if both_acked ack₁ ack₂ then ack else fail))))
      × PathMap n'.accessible_paths
      × ((q : CString)
          → IsPath q.text
          → get_value n'.accessible_paths q ≡ (
              if both_acked ack₁ ack₂ && bytes_eq (copy_target args) q.text
              then some num₂
              else get_value n.accessible_paths q))
handle_copy-facilitate_copy n args num₁ num₂ name cs ack₁ ack₂ rest log pm e₁ e₂ found₁ found₂ small
      plain hp =
    let step =
      handle_copy-report_copy n args num₁ num₂ 0 name cs ack₁ ack₂ rest log e₁ e₂ found₁ found₂
        plain in
    let result = copy_result-file ack₁ ack₂ in
    let log' = transfer_log n args num₁ num₂ name cs log in
    elim (Bool-cases (both_acked ack₁ ack₂)) [
      | inl acked ↦
          let (n', args', run, pm', read) = report_copy-file n args num₂ rest log' pm e₂ small hp in
          let one : copy_result 0 ack₁ ack₂ ≡ 1 = result ∙ rw acked refl in
          (
            n',
            args',
            step
                ∙ rw (acked, one) (run ∙ ordered (n', args') n args num₁ num₂ name cs ack rest log),
            pm',
            rw acked read,
          )
      | inr refused ↦
          let none_done : copy_result 0 ack₁ ack₂ ≡ 0 = result ∙ rw refused refl in
          (
            n,
            args,
            step
                ∙ rw (refused, none_done)
                    (report_copy-failed n args rest log'
                      ∙ ordered (n, args) n args num₁ num₂ name cs fail rest log),
            pm,
            rw refused (λ q hq. refl),
          )
    ]
