-- ===== src/NamingServer/Ports.antt =====
-- The registrations that `main` of namingserver.c does not carry out.
use nfs_network_file_system.Prelude.{
  ℕ, zero, suc, ◌+◌, ◌*◌, ◌≤◌, ◌≡◌, refl, ◌∙◌, ◌||◌, true, false, List, [], ◌∷◌, ◌++◌, arith, ltb,
  take, has,
}
use nfs_network_file_system.Io.{registrant, text, sent, Event, Reply, ok, crashed, send}
use nfs_network_file_system.NamingServer.{NamingServer, StorageServer}
use nfs_network_file_system.NamingServer.Client.{fail}
use nfs_network_file_system.NamingServer.Talk.{willing}
use nfs_network_file_system.NamingServer.Register.{max_ss, ports_taken, add_server, register_server}

ports_taken-has :
    (ports : List ℕ) (n naming_port client_port : ℕ)
    → ports_taken ports n naming_port client_port
      ≡ (has naming_port (take n ports) || has client_port (take n ports))
unfolding ports_taken
ports_taken-has ports zero a b = refl
ports_taken-has [] (suc n) a b = refl
ports_taken-has (p ∷ ports) (suc n) a b = ground (arith, ports_taken-has ports n a b)

-- The ports in use: that of the naming server, and two for each storage server.
abbrev pub ports_in_use : NamingServer → List ℕ
ports_in_use n = take (n.storage_server_count * 2 + 1) n.used_ports

-- When every `send` succeeds: a storage server one of whose ports is in use is answered FAIL and
-- changes nothing, and if neither is in use but there are ten servers or more already, the
-- registration writes behind the arrays.
pub register_server-ports_in_use :
    (n : NamingServer) (ss : StorageServer) (rest : List Reply) (log : List Event)
    → ((has ss.naming_port (ports_in_use n) || has ss.client_port (ports_in_use n)) ≡ true
        → register_server n ss (willing rest log)
          ≡ ok n (willing rest (log ++ sent registrant (text fail) ∷ [])))
      × ((has ss.naming_port (ports_in_use n) || has ss.client_port (ports_in_use n)) ≡ false
          → max_ss ≤ n.storage_server_count
          → register_server n ss (willing rest log) ≡ crashed (willing rest log))
unfolding register_server send add_server
register_server-ports_in_use n ss rest log =
    let same =
      ports_taken-has n.used_ports (n.storage_server_count * 2 + 1) ss.naming_port ss.client_port in
    (
      λ taken. rw (same ∙ taken) refl,
      λ unused full.
          let above : ltb n.storage_server_count max_ss ≡ false = ground arith in
          rw (same ∙ unused, above) refl,
    )
