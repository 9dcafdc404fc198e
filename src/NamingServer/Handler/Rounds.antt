-- ===== src/NamingServer/Handler/Rounds.antt =====
-- The loop of `client_handler` of namingserver.c, and the bound on its rounds.
use nfs_network_file_system.Prelude.{
  ℕ, zero, suc, ◌-◌, ◌≤◌, ◌<◌, ◌≡◌, refl, sym, ◌∙◌, Bool, List, [], ◌∷◌, length, arith,
}
use nfs_network_file_system.Prelude.Bytes.{Bytes}
use nfs_network_file_system.Io.{
  Event, Reply, World, Run, ok, exited, crashed, blocked, Io, and_then, pure, recv_text, recv,
  recv_reply,
}
use nfs_network_file_system.NamingServer.{NamingServer}
use nfs_network_file_system.NamingServer.Client.{Round, next, quit, client_round}
use nfs_network_file_system.NamingServer.Handler.{client_loop, client_rounds}
use nfs_network_file_system.NamingServer.Handler.Within.{
  Within, IsClosed, Within-replies, client_round-Within,
}

-- No more than so many replies are left.
abbrev IsFew : ℕ → List Reply → Type 0
IsFew k replies = length replies ≤ k

IsFew-IsClosed : (k : ℕ) → IsClosed (IsFew k)
IsFew-IsClosed k r rs h = omega (arith, h)

client_round-IsFew :
    (n : NamingServer) (args : List Bytes) (w : World) (k : ℕ)
    → length w.replies ≤ suc k
    → Within (IsFew k) (client_round n args w)
client_round-IsFew n args w k h =
    client_round-Within (IsFew k) (IsFew-IsClosed k) n args w.sends w.replies w.log
      (λ r rest e. let size : length w.replies ≡ suc (length rest) = rw e refl in omega (arith, h))

-- What follows a round.
abbrev pub follow : (NamingServer → List Bytes → Io NamingServer) → Round → Io NamingServer
follow loop (next n args) = loop n args
follow loop (quit n) = pure n

nothing_left :
    (n : NamingServer) (args : List Bytes) (sends : List Bool) (replies : List Reply)
    (log : List Event)
    → length replies ≤ 0
    → client_round n args (record { sends = sends; replies = replies; log = log })
      ≡ blocked (record { sends = sends; replies = replies; log = log })
unfolding client_round recv_text recv recv_reply
nothing_left n args sends [] log h = refl
nothing_left n args sends (r ∷ replies) log h = absurd (omega arith)

same_after :
    (r : Run Round) (k : ℕ) (loop loop' : NamingServer → List Bytes → Io NamingServer)
    → Within (IsFew k) r
    → ((n : NamingServer) (args : List Bytes) (w : World)
        → length w.replies ≤ k
        → loop n args w ≡ loop' n args w)
    → and_then r (follow loop) ≡ and_then r (follow loop')
same_after (ok (next n args) w) k loop loop' h same =
    same n args w (Within-replies (IsFew k) (next n args) w h)
same_after (ok (quit n) w) k loop loop' h same = refl
same_after (exited w) k loop loop' h same = refl
same_after (crashed w) k loop loop' h same = refl
same_after (blocked w) k loop loop' h same = refl

pub loop_step :
    (fuel : ℕ) (n : NamingServer) (args : List Bytes) (w : World)
    → client_loop (suc fuel) n args w ≡ and_then (client_round n args w) (follow (client_loop fuel))
unfolding client_loop
loop_step fuel n args w = refl

blocked_step :
    (fuel : ℕ) (n : NamingServer) (args : List Bytes) (w : World)
    → length w.replies ≤ 0
    → client_loop (suc fuel) n args w ≡ blocked w
blocked_step fuel n args w h =
    loop_step fuel n args w ∙ rw (nothing_left n args w.sends w.replies w.log h) refl

-- Any fuel above the number of replies gives the same run.
pub client_loop-client_loop :
    (f g : ℕ) (n : NamingServer) (args : List Bytes) (w : World)
    → length w.replies < f
    → length w.replies < g
    → client_loop f n args w ≡ client_loop g n args w
client_loop-client_loop zero g n args w h k = absurd (omega arith)
client_loop-client_loop (suc f) zero n args w h k = absurd (omega arith)
client_loop-client_loop (suc zero) (suc g) n args w h k =
    blocked_step zero n args w (omega arith) ∙ sym (blocked_step g n args w (omega arith))
client_loop-client_loop (suc (suc f)) (suc zero) n args w h k =
    blocked_step (suc f) n args w (omega arith) ∙ sym (blocked_step zero n args w (omega arith))
client_loop-client_loop (suc (suc f)) (suc (suc g)) n args w h k =
    loop_step (suc f) n args w
    ∙ same_after (client_round n args w) (length w.replies - 1) (client_loop (suc f))
        (client_loop (suc g)) (client_round-IsFew n args w (length w.replies - 1) (omega arith))
        (λ n' args' w' within.
          client_loop-client_loop (suc f) (suc g) n' args' w' (omega arith) (omega arith))
    ∙ sym (loop_step (suc g) n args w)

rest_of :
    (n : NamingServer) (args : List Bytes) (w : World) (k : ℕ)
    → length w.replies ≡ k
    → and_then (client_round n args w) (follow (client_loop k))
      ≡ and_then (client_round n args w) (follow client_rounds)
unfolding client_rounds
rest_of n args w zero h = rw (nothing_left n args w.sends w.replies w.log (omega arith)) refl
rest_of n args w (suc k) h =
    same_after (client_round n args w) k (client_loop (suc k)) client_rounds
      (client_round-IsFew n args w k (omega arith))
      (λ n' args' w' within.
        client_loop-client_loop (suc k) (suc (length w'.replies)) n' args' w' (omega arith)
          (omega arith))

-- The bound on the number of rounds is never reached: the rounds of a client's thread are a round, and after
-- it either the rounds from the state and the rows that it leaves, or the end.
client_rounds-client_round :
    (n : NamingServer) (args : List Bytes) (w : World)
    → client_rounds n args w ≡ and_then (client_round n args w) (follow client_rounds)
unfolding client_rounds
client_rounds-client_round n args w =
    loop_step (length w.replies) n args w ∙ rest_of n args w (length w.replies) refl
