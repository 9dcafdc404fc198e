-- ===== src/ClientInit/Transfer.antt =====
-- The client's side of READ and WRITE, together with that of the storage server.
use nfs_network_file_system.Prelude.{
  ℕ, zero, suc, ◌<◌, ◌≡◌, refl, sym, ap, ◌∙◌, true, List, [], ◌∷◌, ◌++◌, append_assoc, append-nil,
  some, arith, length,
}
use nfs_network_file_system.Prelude.Bytes.{Bytes, codes}
use nfs_network_file_system.Text.{case_eq}
use nfs_network_file_system.Io.{
  Socket, client, text, chunk, Event, sent, World, Reply, received, Run, ok, try_send, recv_reply,
  c_text,
}
use nfs_network_file_system.Io.Delivery.{delivered}
use nfs_network_file_system.NamingServer.{ack}
use nfs_network_file_system.StorageServer.{Locks, chunks, read_file, write_to_file}
use nfs_network_file_system.StorageServer.Locking.{IsFree}
use nfs_network_file_system.StorageServer.Transfer.{
  concat, chunks-concat, chunk_acks, chunk_events, read_file-chunk_events, AllPlain, incoming,
  answers, write_to_file-chunks,
}
use nfs_network_file_system.ClientInit.{
  buffer_of, read_loop, read_client_side, write_chunks, write_client_side,
}

abbrev pub network : List Reply → List Event → World
network replies log = record { sends = []; replies = replies; log = log }

-- ACK for every packet, and for STOP.
abbrev pub client_acks : Socket → List Bytes → List Event
client_acks s [] = sent s (text ack) ∷ []
client_acks s (c ∷ cs) = sent s (text ack) ∷ client_acks s cs

stop_text : case_eq (c_text (codes "STOP")) (codes "STOP") ≡ true
unfolding c_text case_eq
stop_text = refl

abbrev finished : List Bytes → World → Run (ℕ × List Bytes)
finished printed w = ok (1, printed) w

ok_congr :
    {p q : List Bytes} {k l : List Event}
    → p ≡ q
    → k ≡ l
    → (rest : List Reply) → finished p (network rest k) ≡ finished q (network rest l)
ok_congr e f rest = cc

read_loop-client_acks :
    (fuel : ℕ) (s : Socket) (cs printed : List Bytes) (rest : List Reply) (log : List Event)
    → length cs < fuel
    → AllPlain cs
    → read_loop fuel s printed (network (incoming cs rest) log)
      ≡ ok (1, printed ++ cs) (network rest (log ++ client_acks s cs))
unfolding read_loop recv_reply buffer_of try_send
read_loop-client_acks zero s cs printed rest log h plain = absurd (omega arith)
read_loop-client_acks (suc fuel) s [] printed rest log h plain =
    rw stop_text (ok_congr (sym (append-nil printed)) refl rest)
read_loop-client_acks (suc fuel) s (c ∷ cs) printed rest log h plain =
    let more =
      read_loop-client_acks fuel s cs (printed ++ c ∷ []) rest (log ++ sent s (text ack) ∷ [])
        (omega arith) plain.2 in
    rw (plain.0, plain.1)
      (more
        ∙ ok_congr (append_assoc printed (c ∷ []) cs)
            (append_assoc log (sent s (text ack) ∷ []) (client_acks s cs)) rest)

fits : (cs : List Bytes) (rest : List Reply) → length cs < suc (length (incoming cs rest))
fits [] rest = omega arith
fits (c ∷ cs) rest = omega (arith, fits cs rest)

pub read_client_side-client_acks :
    (s : Socket) (cs : List Bytes) (rest : List Reply) (log : List Event)
    → AllPlain cs
    → read_client_side s (network (incoming cs rest) log)
      ≡ ok (1, cs) (network rest (log ++ client_acks s cs))
unfolding read_client_side
read_client_side-client_acks s cs rest log plain =
    read_loop-client_acks (suc (length (incoming cs rest))) s cs [] rest log (fits cs rest) plain

-- What the storage server sends for a READ is what the client takes for one.
pub delivered_chunks :
    (cs : List Bytes)
    → delivered (chunk_events cs ++ sent client (text (codes "STOP")) ∷ []) ≡ incoming cs []
delivered_chunks [] = refl
delivered_chunks (c ∷ cs) = ap (λ t. received c ∷ t) (delivered_chunks cs)

-- The client acknowledges STOP too: one message more than the storage server waits for.
pub delivered_acks :
    (s : Socket) (cs : List Bytes)
    → delivered (client_acks s cs) ≡ chunk_acks cs (received ack ∷ [])
delivered_acks s [] = refl
delivered_acks s (c ∷ cs) = ap (λ t. received ack ∷ t) (delivered_acks s cs)

-- READ of a file whose lock is free, none of whose chunks holds a NUL or reads STOP: there are a log of the
-- storage server and one of the client such that each, given what the other sends, returns with just its
-- own log. The client then has the content of the file, and the locks are as before. The client's last
-- acknowledgement is left over.
pub read_client_side-read_file :
    (l : Locks) (i : ℕ) (content : Bytes) (s : Socket)
    → IsFree l i
    → AllPlain (chunks content)
    → (server : List Event) × (peer : List Event) × (printed : List Bytes) × (read_file l i
          (some content)
          (network (delivered peer) [])
        ≡ ok l (network (received ack ∷ []) server))
      × (read_client_side s (network (delivered server) []) ≡ ok (1, printed) (network [] peer))
      × (concat printed ≡ content)
read_client_side-read_file l i content s free plain =
    let cs = chunks content in
    let serve = read_file-chunk_events l i content (received ack ∷ []) [] free in
    let take_in = read_client_side-client_acks s cs [] [] plain in
    (
      chunk_events cs ++ sent client (text (codes "STOP")) ∷ [],
      client_acks s cs,
      cs,
      rw (delivered_acks s cs) serve,
      rw (delivered_chunks cs) take_in,
      (chunks-concat content).0,
    )

-- The chunks that the client sends.
abbrev pub client_chunks : Socket → List Bytes → List Event
client_chunks s [] = []
client_chunks s (c ∷ cs) = sent s (chunk c) ∷ client_chunks s cs

ack_text : case_eq (c_text ack) ack ≡ true
unfolding c_text case_eq
ack_text = refl

write_chunks-client_chunks :
    (s : Socket) (cs : List Bytes) (rest : List Reply) (log : List Event)
    → write_chunks s cs (network (chunk_acks cs rest) log)
      ≡ ok true (network rest (log ++ client_chunks s cs))
unfolding write_chunks try_send recv_reply buffer_of
write_chunks-client_chunks s [] rest log = ap (λ l. ok true (network rest l)) (sym (append-nil log))
write_chunks-client_chunks s (c ∷ cs) rest log = rw ack_text (
    write_chunks-client_chunks s cs rest (log ++ sent s (chunk c) ∷ [])
    ∙ ap (λ l. ok true (network rest l))
        (append_assoc log (sent s (chunk c) ∷ []) (client_chunks s cs)))

pub delivered-client_chunks :
    (s : Socket) (cs : List Bytes)
    → delivered (client_chunks s cs ++ sent s (text (codes "STOP")) ∷ []) ≡ incoming cs []
delivered-client_chunks s [] = refl
delivered-client_chunks s (c ∷ cs) = ap (λ t. received c ∷ t) (delivered-client_chunks s cs)

pub delivered-answers :
    (cs : List Bytes) → delivered (answers cs) ≡ chunk_acks cs (received ack ∷ [])
delivered-answers [] = refl
delivered-answers (c ∷ cs) = ap (λ t. received ack ∷ t) (delivered-answers cs)

pub write_client_side-client_chunks :
    (s : Socket) (content : Bytes) (rest : List Reply) (log : List Event)
    → write_client_side s (some content) (network (chunk_acks (chunks content) rest) log)
      ≡ ok 1 (
          network rest
            (log ++ (client_chunks s (chunks content) ++ sent s (text (codes "STOP")) ∷ [])))
unfolding write_client_side try_send
write_client_side-client_chunks s content rest log =
    let cs = chunks content in
    rw (write_chunks-client_chunks s cs rest log) (
      ap (λ l. ok 1 (network rest l))
        (append_assoc log (client_chunks s cs) (sent s (text (codes "STOP")) ∷ [])))

-- WRITE of a file whose lock is free, from one none of whose chunks holds a NUL or reads STOP: there are a
-- log of the storage server and one of the client such that each, given what the other sends, returns with
-- just its own log. The file then has the content of the client's, and the locks are as before. The
-- server's last acknowledgement is left over.
pub write_client_side-write_to_file :
    (l : Locks) (i : ℕ) (content : Bytes) (s : Socket)
    → IsFree l i
    → AllPlain (chunks content)
    → (server : List Event) × (peer : List Event) × (write_to_file l i true
          (network (delivered peer) [])
        ≡ ok (l, content) (network [] server))
      × (write_client_side s (some content) (network (delivered server) [])
          ≡ ok 1 (network (received ack ∷ []) peer))
write_client_side-write_to_file l i content s free plain =
    let cs = chunks content in
    (
      answers cs,
      client_chunks s cs ++ sent s (text (codes "STOP")) ∷ [],
      rw (delivered-client_chunks s cs) (write_to_file-chunks l i content [] [] free plain),
      rw (delivered-answers cs) (write_client_side-client_chunks s content (received ack ∷ []) []),
    )
