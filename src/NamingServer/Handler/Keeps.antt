-- ===== src/NamingServer/Handler/Keeps.antt =====
-- What the thread of a client in namingserver.c keeps, over all the commands of the client.
use nfs_network_file_system.Prelude.{
  ℕ, zero, suc, ◌^◌, ◌≤◌, ◌≡◌, sym, subst, List, [], ◌∷◌, Bool, length, Option-cases, inl, inr,
}
use nfs_network_file_system.Prelude.Bytes.{Bytes, codes}
use nfs_network_file_system.MapOperations.{CString}
use nfs_network_file_system.Io.{
  Event, Reply, received, closed, failed, World, Run, ok, exited, crashed, blocked, Io, and_then,
  c_text, recv_text, recv, recv_reply,
}
use nfs_network_file_system.Lru.{get_lru}
use nfs_network_file_system.NamingServer.{NamingServer, Key, literal}
use nfs_network_file_system.NamingServer.Client.{Round, next, quit, client_round}
use nfs_network_file_system.NamingServer.Invariant.{Post, Keeps, KeepsRound, AllClean}
use nfs_network_file_system.NamingServer.Lines.{IsLine, client_round-Keeps}
use nfs_network_file_system.NamingServer.Handler.{client_loop, client_rounds, client_handler}
use nfs_network_file_system.NamingServer.Handler.Within.{
  Within, IsClosed, Within-replies, client_round-Within,
}
use nfs_network_file_system.NamingServer.Handler.Rounds.{follow, loop_step}

-- A message, if it is one, is a line of bytes whose only white space are blanks, tabs and new lines.
abbrev pub IsLineReply : Reply → Type 0
IsLineReply (received b) = IsLine (c_text b)
IsLineReply closed = Unit {0}
IsLineReply failed = Unit {0}

abbrev pub AllLines : List Reply → Type 0
AllLines [] = Unit {0}
AllLines (r ∷ rs) = IsLineReply r × AllLines rs

AllLines-IsClosed : IsClosed AllLines
AllLines-IsClosed r rs all = all.1

behind :
    (replies : List Reply)
    → AllLines replies
    → (r : Reply) (rest : List Reply) → replies ≡ r ∷ rest
    → AllLines rest
behind replies all r rest e = (subst AllLines e all).1

module _ (count : ℕ) (small : count ≤ 2 ^ 31) where
  round-Post :
      (n : NamingServer) (args : List Bytes) (sends : List Bool) (replies : List Reply)
      (log : List Event)
      → Keeps count n
      → AllClean args
      → AllLines replies
      → Post
          (KeepsRound count small)
          (client_round n args (record { sends = sends; replies = replies; log = log }))
  unfolding client_round recv_text recv recv_reply c_text
  round-Post n args sends [] log k all lines = tt
  round-Post n args sends (received b ∷ rest) log k all lines =
      client_round-Keeps count small n args b rest sends log k all lines.0
  round-Post n args sends (closed ∷ rest) log k all lines =
      client_round-Keeps count small n args [] rest sends log k all tt
  round-Post n args sends (failed ∷ rest) log k all lines = tt

  follow-Keeps :
      (r : Run Round) (loop : NamingServer → List Bytes → Io NamingServer)
      → Post (KeepsRound count small) r
      → Within AllLines r
      → ((n : NamingServer) (args : List Bytes) (w : World)
          → Keeps count n
          → AllClean args
          → AllLines w.replies
          → Post (Keeps count) (loop n args w))
      → Post (Keeps count) (and_then r (follow loop))
  follow-Keeps (ok (next n args) w) loop k lines more =
      more n args w k.0 k.1 (Within-replies AllLines (next n args) w lines)
  follow-Keeps (ok (quit n) w) loop k lines more = k
  follow-Keeps (exited w) loop k lines more = tt
  follow-Keeps (crashed w) loop k lines more = tt
  follow-Keeps (blocked w) loop k lines more = tt

  client_loop-Keeps :
      (fuel : ℕ) (n : NamingServer) (args : List Bytes) (w : World)
      → Keeps count n
      → AllClean args
      → AllLines w.replies
      → Post (Keeps count) (client_loop fuel n args w)
  unfolding client_loop
  client_loop-Keeps zero n args w k all lines = tt
  client_loop-Keeps (suc fuel) n args w k all lines =
      subst (Post (Keeps count)) (sym (loop_step fuel n args w)) (
        follow-Keeps (client_round n args w) (client_loop fuel)
          (round-Post n args w.sends w.replies w.log k all lines)
          (client_round-Within AllLines AllLines-IsClosed n args w.sends w.replies w.log
            (behind w.replies lines))
          (client_loop-Keeps fuel))

  client_rounds-Keeps :
      (n : NamingServer) (args : List Bytes) (w : World)
      → Keeps count n
      → AllClean args
      → AllLines w.replies
      → Post (Keeps count) (client_rounds n args w)
  unfolding client_rounds
  client_rounds-Keeps n args w = client_loop-Keeps (suc (length w.replies)) n args w

  -- The thread of a client, from a state with at most 2 ^ 31 storage servers in which every path of the
  -- map belongs to one of them or has the number -1, with rows without white space on the stack, and
  -- whatever is sent to it, if every message is a line of bytes whose only white space are blanks, tabs
  -- and new lines: if the thread ends, whatever and however many the commands were, there are as many
  -- storage servers as before, and every path of the map belongs to one of them or has the number -1.
  pub client_handler-Keeps :
      (mem : Key → CString) (stack : List Bytes) (n : NamingServer) (w : World)
      → Keeps count n
      → AllClean stack
      → AllLines w.replies
      → Post (Keeps count) (client_handler mem stack n w)
  unfolding client_handler
  client_handler-Keeps mem stack n w k all lines =
      elim (Option-cases (get_lru mem n.lru (literal (codes "/operations")))) [
        | inl none_there ↦ rw none_there tt
        | inr ((l, v), e) ↦ rw e (client_rounds-Keeps (record n { lru = l }) stack w k all lines)
      ]
