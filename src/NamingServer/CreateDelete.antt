-- ===== src/NamingServer/CreateDelete.antt =====
-- CREATE and DELETE on the naming server, when every `send` succeeds and the storage server answers.
use nfs_network_file_system.Prelude.{
  ℕ, ◌^◌, ◌<◌, ◌≡◌, ◌≢◌, refl, ap, ◌∙◌, ◌&&◌, Bool, true, false, List, [], ◌∷◌, ◌++◌, append_assoc,
  some, ◌==◌, if◌then◌else◌, arith, Bool-cases, inl, inr, take,
}
use nfs_network_file_system.Prelude.Bytes.{Bytes, codes, bytes_eq}
use nfs_network_file_system.Text.{slash, case_eq}
use nfs_network_file_system.MapOperations.{CString, c_string, minus_one, get_value}
use nfs_network_file_system.MapOperations.Below.{below}
use nfs_network_file_system.MapOperations.Values.{IsPath, PathMap, get_value-set_value}
use nfs_network_file_system.MapOperations.Paths.{get_value-remove_entry}
use nfs_network_file_system.Io.{
  client, storage, text, number, Event, sent, World, Reply, received, ok, send, c_text,
}
use nfs_network_file_system.NamingServer.{NamingServer, server_at, ack}
use nfs_network_file_system.NamingServer.Client.{
  arg, fail, not_found, path_filename, update_paths, report_result, handle_create_delete,
}
use nfs_network_file_system.NamingServer.Talk.{
  willing, acks, command_events, get_results_from_ss-answer,
}

-- What is sent: the type of the command, the command to the storage server, its result to the client.
unfoldable pub pass_on_events : NamingServer → List Bytes → ℕ → Bool → List Event
pass_on_events n words num acked =
    sent client (number 1)
    ∷ (command_events (storage (server_at n num).ip (server_at n num).naming_port) words
        ++ sent client (text (if acked then ack else fail)) ∷ [])

-- The storage server took every word of the command and gave an answer.
abbrev pub answered : List Bytes → Bytes → List Reply → List Event → World
answered words answer rest log = willing (acks words (received answer ∷ rest)) log

abbrev pub is_ack : Bytes → Bool
is_ack answer = case_eq (c_text answer) ack

handle_create_delete-report_result :
    (n : NamingServer) (args : List Bytes) (no_args num : ℕ) (answer : Bytes) (rest : List Reply)
    (log : List Event)
    → get_value n.accessible_paths (c_string (arg args 1)) ≡ some num
    → num ≢ minus_one
    → handle_create_delete n args no_args (answered (take no_args args) answer rest log)
      ≡ report_result n args num (if is_ack answer then 1 else 0) (
          willing rest (
            log
            ++ sent client (number 1)
              ∷ command_events
                  (storage (server_at n num).ip (server_at n num).naming_port)
                  (take no_args args)))
unfolding handle_create_delete send
handle_create_delete-report_result n args no_args num answer rest log e found =
    let known : (num == minus_one) ≡ false = ground arith in
    let ss = server_at n num in
    let words = take no_args args in
    let talk =
      get_results_from_ss-answer ss.ip ss.naming_port words answer rest
        (log ++ sent client (number 1) ∷ []) in
    rw (e, known, talk) simp append_assoc

report_result-failed :
    (n : NamingServer) (args : List Bytes) (num : ℕ) (rest : List Reply) (log : List Event)
    → report_result n args num 0 (willing rest log)
      ≡ ok n (willing rest (log ++ sent client (text fail) ∷ []))
unfolding report_result send
report_result-failed n args num rest log = refl

report_result-created :
    (n : NamingServer) (args : List Bytes) (num : ℕ) (rest : List Reply) (log : List Event)
    → case_eq (arg args 0) (codes "CREATE") ≡ true
    → PathMap n.accessible_paths
    → num < 2 ^ 32
    → IsPath (arg args 1 ++ slash ∷ arg args 2)
    → (n' : NamingServer) × (report_result n args num 1 (willing rest log)
        ≡ ok n' (willing rest (log ++ sent client (text ack) ∷ [])))
      × (n'.storage_servers_info ≡ n.storage_servers_info)
      × PathMap n'.accessible_paths
      × ((q : CString)
          → IsPath q.text
          → get_value n'.accessible_paths q ≡ (
              if bytes_eq (arg args 1 ++ slash ∷ arg args 2) q.text
              then some num
              else get_value n.accessible_paths q))
unfolding report_result update_paths send
report_result-created n args num rest log create pm small hp =
    let (m, run, pm', read) =
      get_value-set_value pm (c_string (arg args 1 ++ slash ∷ arg args 2)) num hp small in
    (record n { accessible_paths = m }, rw (create, run) refl, refl, pm', read)

report_result-deleted :
    (n : NamingServer) (args : List Bytes) (num : ℕ) (rest : List Reply) (log : List Event)
    → case_eq (arg args 0) (codes "CREATE") ≡ false
    → case_eq (arg args 0) (codes "DELETE") ≡ true
    → PathMap n.accessible_paths
    → (n' : NamingServer) × (report_result n args num 1 (willing rest log)
        ≡ ok n' (willing rest (log ++ sent client (text ack) ∷ [])))
      × (n'.storage_servers_info ≡ n.storage_servers_info)
      × PathMap n'.accessible_paths
      × ((q : CString)
          → IsPath q.text
          → get_value n'.accessible_paths q ≡ (
              if below (arg args 1) q.text then some minus_one else get_value n.accessible_paths q))
unfolding report_result update_paths send
report_result-deleted n args num rest log create delete pm =
    let (m, run, pm', read) = get_value-remove_entry pm (arg args 1) in
    (record n { accessible_paths = m }, rw (create, delete, run) refl, refl, pm', read)

-- The log in the order of the source.
pass_on_log :
    (n : NamingServer) (words : List Bytes) (num : ℕ) (acked : Bool) (log : List Event)
    → (log
          ++ sent client (number 1)
            ∷ command_events (storage (server_at n num).ip (server_at n num).naming_port) words)
        ++ sent client (text (if acked then ack else fail)) ∷ []
      ≡ log ++ pass_on_events n words num acked
unfolding pass_on_events
pass_on_log n words num acked log = simp append_assoc

reordered :
    (n' n : NamingServer) (words : List Bytes) (num : ℕ) (acked : Bool) (rest : List Reply)
    (log : List Event)
    → ok n' (
        willing rest (
          (log
            ++ sent client (number 1)
              ∷ command_events (storage (server_at n num).ip (server_at n num).naming_port) words)
          ++ sent client (text (if acked then ack else fail)) ∷ []))
      ≡ ok n' (willing rest (log ++ pass_on_events n words num acked))
reordered n' n words num acked rest log =
    ap (λ l. ok n' (willing rest l)) (pass_on_log n words num acked log)

-- CREATE for a directory that the server's map of paths has the number of a storage server for,
-- other than -1 and below 2 ^ 32, and for a name that makes a path below it, when every `send`
-- succeeds and the storage server takes every word: the command goes to that storage server, and the
-- client is told the result. If the storage server acknowledges, the new path, and no other, is
-- recorded for that storage server; if not, no look-up changes.
pub handle_create_delete-update_paths_create :
    (n : NamingServer) (args : List Bytes) (no_args num : ℕ) (answer : Bytes) (rest : List Reply)
    (log : List Event)
    → case_eq (arg args 0) (codes "CREATE") ≡ true
    → PathMap n.accessible_paths
    → get_value n.accessible_paths (c_string (arg args 1)) ≡ some num
    → num ≢ minus_one
    → num < 2 ^ 32
    → IsPath (arg args 1 ++ slash ∷ arg args 2)
    → (n' : NamingServer) × (handle_create_delete n args no_args
          (answered (take no_args args) answer rest log)
        ≡ ok n' (willing rest (log ++ pass_on_events n (take no_args args) num (is_ack answer))))
      × (n'.storage_servers_info ≡ n.storage_servers_info)
      × PathMap n'.accessible_paths
      × ((q : CString)
          → IsPath q.text
          → get_value n'.accessible_paths q ≡ (
              if is_ack answer && bytes_eq (arg args 1 ++ slash ∷ arg args 2) q.text
              then some num
              else get_value n.accessible_paths q))
handle_create_delete-update_paths_create n args no_args num answer rest log create pm e found small
      hp =
    let words = take no_args args in
    let step = handle_create_delete-report_result n args no_args num answer rest log e found in
    let ss = server_at n num in
    let log' =
      log ++ sent client (number 1) ∷ command_events (storage ss.ip ss.naming_port) words in
    elim (Bool-cases (is_ack answer)) [
      | inl acked ↦
          let (n', run, info, pm', read) =
            report_result-created n args num rest log' create pm small hp in
          (
            n',
            step ∙ rw acked (run ∙ reordered n' n words num true rest log),
            info,
            pm',
            rw acked read,
          )
      | inr refused ↦ (
        n,
        step
            ∙ rw refused (
                report_result-failed n args num rest log' ∙ reordered n n words num false rest log),
        refl,
        pm,
        rw refused (λ q hq. refl),
      )
    ]

-- DELETE for a path that the server's map of paths has a number other than -1 for, when every `send`
-- succeeds and the storage server takes every word: the command goes to the storage server with that
-- number, and the client is told the result. If the storage server acknowledges, no look-up finds
-- the path or one below it any more, and every other gives what it gave; if not, no look-up changes.
pub handle_create_delete-update_paths_delete :
    (n : NamingServer) (args : List Bytes) (no_args num : ℕ) (answer : Bytes) (rest : List Reply)
    (log : List Event)
    → case_eq (arg args 0) (codes "CREATE") ≡ false
    → case_eq (arg args 0) (codes "DELETE") ≡ true
    → PathMap n.accessible_paths
    → get_value n.accessible_paths (c_string (arg args 1)) ≡ some num
    → num ≢ minus_one
    → (n' : NamingServer) × (handle_create_delete n args no_args
          (answered (take no_args args) answer rest log)
        ≡ ok n' (willing rest (log ++ pass_on_events n (take no_args args) num (is_ack answer))))
      × (n'.storage_servers_info ≡ n.storage_servers_info)
      × PathMap n'.accessible_paths
      × ((q : CString)
          → IsPath q.text
          → get_value n'.accessible_paths q ≡ (
              if is_ack answer && below (arg args 1) q.text
              then some minus_one
              else get_value n.accessible_paths q))
handle_create_delete-update_paths_delete n args no_args num answer rest log create delete pm e
      found =
    let words = take no_args args in
    let step = handle_create_delete-report_result n args no_args num answer rest log e found in
    let ss = server_at n num in
    let log' =
      log ++ sent client (number 1) ∷ command_events (storage ss.ip ss.naming_port) words in
    elim (Bool-cases (is_ack answer)) [
      | inl acked ↦
          let (n', run, info, pm', read) =
            report_result-deleted n args num rest log' create delete pm in
          (
            n',
            step ∙ rw acked (run ∙ reordered n' n words num true rest log),
            info,
            pm',
            rw acked read,
          )
      | inr refused ↦ (
        n,
        step
            ∙ rw refused (
                report_result-failed n args num rest log' ∙ reordered n n words num false rest log),
        refl,
        pm,
        rw refused (λ q hq. refl),
      )
    ]

-- CREATE and DELETE for a path that the map gives -1 for, when every `send` succeeds: the client is
-- told that no storage server has it, nothing is sent to a storage server and the state stays as it
-- is.
pub handle_create_delete-not_found :
    (n : NamingServer) (args : List Bytes) (no_args : ℕ) (rest : List Reply) (log : List Event)
    → get_value n.accessible_paths (c_string (arg args 1)) ≡ some minus_one
    → handle_create_delete n args no_args (willing rest log)
      ≡ ok n (
          willing rest (
            log
            ++ sent client (number 1)
              ∷ sent client (text (not_found (arg args 0) path_filename))
              ∷ []))
unfolding handle_create_delete send
handle_create_delete-not_found n args no_args rest log e = rw e (simp append_assoc)
