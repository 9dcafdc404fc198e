-- ===== src/StorageServer/Transfer.antt =====
-- A file goes over the network in chunks: `read_file` and `write_to_file` of storageserverinit.c.
use nfs_network_file_system.Prelude.{
  ℕ, zero, suc, ◌-◌, ◌<◌, ◌≤◌, ◌≡◌, refl, ap, ◌∙◌, sym, true, false, List, [], ◌∷◌, ◌++◌,
  append_assoc, append-nil, some, ◌==◌, arith, Bool-cases, inl, inr, length, take, drop,
  length-take,
}
use nfs_network_file_system.Prelude.Bytes.{Bytes, codes}
use nfs_network_file_system.Text.{case_eq}
use nfs_network_file_system.Io.{
  client, text, chunk, Event, sent, World, Reply, received, ok, send, recv_text, recv, recv_reply,
  c_text,
}
use nfs_network_file_system.StorageServer.{
  Locks, chunk_size, chunks_loop, chunks, send_chunks, read_file, write_loop, write_to_file,
}
use nfs_network_file_system.StorageServer.Locking.{
  IsFree, start_reading-reading, stop_reading-reading, sem_wait-open, post_back,
}

abbrev pub concat : List Bytes → Bytes
concat [] = []
concat (c ∷ cs) = c ++ concat cs

-- No chunk is empty, and none is longer than the buffer.
abbrev pub AllChunks : List Bytes → Type 0
AllChunks [] = Unit {0}
AllChunks (c ∷ cs) = (0 < length c) × (length c ≤ chunk_size) × AllChunks cs

take-drop : (n : ℕ) (s : Bytes) → take n s ++ drop n s ≡ s
take-drop zero s = refl
take-drop (suc n) [] = refl
take-drop (suc n) (c ∷ s) = ap (λ t. c ∷ t) (take-drop n s)

length-drop : (n : ℕ) (s : Bytes) → length (drop n s) ≡ length s - n
length-drop zero s = omega arith
length-drop (suc n) [] = omega arith
length-drop (suc n) (c ∷ s) = omega (arith, length-drop n s)

empty_of_length : (s : Bytes) → (length s == 0) ≡ true → s ≡ []
empty_of_length [] h = refl
empty_of_length (c ∷ s) h = absurd (ground arith)

chunks_loop-concat :
    (fuel : ℕ) (s : Bytes)
    → length s ≤ fuel
    → (concat (chunks_loop fuel s) ≡ s) × AllChunks (chunks_loop fuel s)
unfolding chunks_loop
chunks_loop-concat zero [] h = (refl, tt)
chunks_loop-concat zero (c ∷ s) h = absurd (omega arith)
chunks_loop-concat (suc fuel) s h = elim (Bool-cases (length s == 0)) [
  | inl empty ↦ rw empty (sym (empty_of_length s empty), tt)
  | inr more ↦
      let shorter = length-drop chunk_size s in
      let (joined, sizes) = chunks_loop-concat fuel (drop chunk_size s) (ground (arith, shorter)) in
      rw more (
        ap (λ t. take chunk_size s ++ t) joined ∙ take-drop chunk_size s,
        (ground (arith, length-take chunk_size s), ground (arith, length-take chunk_size s), sizes),
      )
]

-- The chunks of a file are its content in order, each of one to 512 bytes.
pub chunks-concat :
    (content : Bytes) → (concat (chunks content) ≡ content) × AllChunks (chunks content)
unfolding chunks
chunks-concat content = chunks_loop-concat (length content) content (omega arith)

-- A client that acknowledges every chunk.
abbrev pub chunk_acks : List Bytes → List Reply → List Reply
chunk_acks [] rest = rest
chunk_acks (c ∷ cs) rest = received (codes "ACK") ∷ chunk_acks cs rest

abbrev pub chunk_events : List Bytes → List Event
chunk_events [] = []
chunk_events (c ∷ cs) = sent client (chunk c) ∷ chunk_events cs

send_chunks-chunk_events :
    (cs : List Bytes) (rest : List Reply) (log : List Event)
    → send_chunks cs (record { sends = []; replies = chunk_acks cs rest; log = log })
      ≡ ok tt (record { sends = []; replies = rest; log = log ++ chunk_events cs })
unfolding send_chunks send recv_text recv recv_reply c_text case_eq
send_chunks-chunk_events [] rest log =
    ap (λ l. ok tt (record { sends = []; replies = rest; log = l })) (sym (append-nil log))
send_chunks-chunk_events (c ∷ cs) rest log =
    send_chunks-chunk_events cs rest (log ++ sent client (chunk c) ∷ [])
    ∙ ap (λ l. ok tt (record { sends = []; replies = rest; log = l }))
        (append_assoc log (sent client (chunk c) ∷ []) (chunk_events cs))

-- READ of a file that is free, with a client that acknowledges every chunk: the client is sent the chunks
-- of the content in order and STOP behind them, and the locks are as before.
pub read_file-chunk_events :
    (l : Locks) (i : ℕ) (content : Bytes) (rest : List Reply) (log : List Event)
    → IsFree l i
    → read_file l i
        (some content)
        (record { sends = []; replies = chunk_acks (chunks content) rest; log = log })
      ≡ ok l (record {
        sends = [];
        replies = rest;
        log = log ++ chunk_events (chunks content) ++ sent client (text (codes "STOP")) ∷ [];
      })
unfolding read_file send
read_file-chunk_events l i content rest log free =
    let w : World = record { sends = []; replies = chunk_acks (chunks content) rest; log = log } in
    let start = start_reading-reading l i w free in
    let talk = send_chunks-chunk_events (chunks content) rest log in
    rw (start, talk) (stop_reading-reading l i _ free)

-- The texts that are neither cut at a NUL nor taken for the end of the file.
abbrev pub AllPlain : List Bytes → Type 0
AllPlain [] = Unit {0}
AllPlain (c ∷ cs) = (c_text c ≡ c) × (case_eq c (codes "STOP") ≡ false) × AllPlain cs

abbrev pub incoming : List Bytes → List Reply → List Reply
incoming [] rest = received (codes "STOP") ∷ rest
incoming (c ∷ cs) rest = received c ∷ incoming cs rest

-- ACK for every chunk, and for STOP.
abbrev pub answers : List Bytes → List Event
answers [] = sent client (text (codes "ACK")) ∷ []
answers (c ∷ cs) = sent client (text (codes "ACK")) ∷ answers cs

ap2_ok :
    {a b : Bytes} {k l : List Event}
    → a ≡ b
    → k ≡ l
    → (rest : List Reply)
    → ok a (record { sends = []; replies = rest; log = k })
      ≡ ok b (record { sends = []; replies = rest; log = l })
ap2_ok e f rest = cc

length-incoming : (cs : List Bytes) (rest : List Reply) → length cs < length (incoming cs rest)
length-incoming [] rest = omega arith
length-incoming (c ∷ cs) rest = omega (arith, length-incoming cs rest)

write_loop-concat :
    (fuel : ℕ) (content : Bytes) (cs : List Bytes) (rest : List Reply) (log : List Event)
    → length cs < fuel
    → AllPlain cs
    → write_loop fuel content (record { sends = []; replies = incoming cs rest; log = log })
      ≡ ok (content ++ concat cs) (record { sends = []; replies = rest; log = log ++ answers cs })
unfolding write_loop send recv_text recv recv_reply
write_loop-concat zero content cs rest log h plain = absurd (omega arith)
write_loop-concat (suc fuel) content [] rest log h plain =
    let stop : case_eq (codes "STOP") (codes "STOP") ≡ true = unfold case_eq in refl in
    rw stop (
      ap (λ t. ok t (record { sends = []; replies = rest; log = log ++ answers [] }))
        (sym (append-nil content)))
write_loop-concat (suc fuel) content (c ∷ cs) rest log h plain =
    let more =
      write_loop-concat fuel (content ++ c) cs rest (log ++ sent client (text (codes "ACK")) ∷ [])
        (omega arith) plain.2 in
    rw (plain.0, plain.1)
      (more
        ∙ ap2_ok (append_assoc content c (concat cs))
            (append_assoc log (sent client (text (codes "ACK")) ∷ []) (answers cs)) rest)

-- WRITE to a file that is free: chunks that are neither cut at a NUL nor taken for the end, and STOP behind
-- them, leave the file with the chunks one after the other. Each is acknowledged, and the locks are as
-- before.
pub write_to_file-concat :
    (l : Locks) (i : ℕ) (cs : List Bytes) (rest : List Reply) (log : List Event)
    → IsFree l i
    → AllPlain cs
    → write_to_file l i true (record { sends = []; replies = incoming cs rest; log = log })
      ≡ ok (l, concat cs) (record { sends = []; replies = rest; log = log ++ answers cs })
unfolding write_to_file
write_to_file-concat l i cs rest log free plain =
    let w : World = record { sends = []; replies = incoming cs rest; log = log } in
    let wait = sem_wait-open l.semaphores i free.file_value w free.file_open in
    let loop =
      write_loop-concat (suc (length (incoming cs rest))) [] cs rest log
        (omega (arith, length-incoming cs rest)) plain in
    let post =
      post_back l.semaphores i free.file_value
        (record { sends = []; replies = rest; log = log ++ answers cs }) free.file_open in
    rw (wait, loop) (rw post refl)

-- WRITE to a file whose locks are free and that can be opened, with the chunks of some content and
-- then STOP: if no chunk holds a NUL or reads STOP, the file is left with just that content, every
-- chunk and STOP are acknowledged, and the locks are as before.
pub write_to_file-chunks :
    (l : Locks) (i : ℕ) (content : Bytes) (rest : List Reply) (log : List Event)
    → IsFree l i
    → AllPlain (chunks content)
    → write_to_file l i true
        (record { sends = []; replies = incoming (chunks content) rest; log = log })
      ≡ ok
          (l, content)
          (record { sends = []; replies = rest; log = log ++ answers (chunks content) })
write_to_file-chunks l i content rest log free plain =
    write_to_file-concat l i (chunks content) rest log free plain
    ∙ ap
        (λ t.
          ok (l, t) (record { sends = []; replies = rest; log = log ++ answers (chunks content) }))
        (chunks-concat content).0
