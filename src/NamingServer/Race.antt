-- ===== src/NamingServer/Race.antt =====
-- `getResultsFromSS` of namingserver.c in the threads of several clients, and the loop of `main` beside them:
-- the answer of the storage server goes through the global `naming_server_gets`, which they all share.
mod Tests
use nfs_network_file_system.Prelude.{
  ℕ, zero, suc, ◌<◌, ◌≡◌, ◌≢◌, refl, sym, ap, ◌∙◌, subst, ◌⊎◌, inl, inr, Bool, true, false, List,
  [], ◌∷◌, ◌++◌, ◌==◌, if◌then◌else◌, length, drop, arith, Bool-cases, append-nil, ==_refl,
}
use nfs_network_file_system.Prelude.Bytes.{Bytes, codes}
use nfs_network_file_system.Text.{case_eq}
use nfs_network_file_system.Io.{c_text}
use nfs_network_file_system.NamingServer.{ack}

-- Where a thread is in `getResultsFromSS`, after `connectToStorageServer`, whose buffers are its own:
-- before `bzero`, before `recv`, before `strcasecmp`, or at its end with the result.
pub data Pc : Type 0 where
  connected : Pc
  cleared : Pc
  filled : Pc
  done : ℕ → Pc

abbrev pub result_of : Bytes → ℕ
result_of gets = if case_eq (c_text gets) ack then 1 else 0

-- `recv` into the buffer writes as many bytes as the message has.
abbrev pub written_over : Bytes → Bytes → Bytes
written_over message gets = message ++ drop (length message) gets

-- One step of a thread whose storage server answers `answer`: the buffer and the place before and after.
-- The zeros at the end of the buffer are left out. At the end of the stream `recv` writes nothing.
pub data Move (answer : Bytes) : Bytes → Pc → Bytes → Pc → Type 0 where
  clear : (gets : Bytes) → Move answer gets connected [] cleared
  take_answer : (gets : Bytes) → Move answer gets cleared (written_over answer gets) filled
  take_end : (gets : Bytes) → Move answer gets cleared gets filled
  compare_answer : (gets : Bytes) → Move answer gets filled gets (done (result_of gets))

-- Where `main` is in its loop: before `accept` and `bzero`, before `recv`, or before it compares the buffer
-- with "c" and "s" and serves the connection.
pub data MainPc : Type 0 where
  accepting : MainPc
  emptied : MainPc
  greeted : MainPc

-- One step of `main`, which receives the first message of a connection into the same buffer.
pub data MainMove (greeting : Bytes) : Bytes → MainPc → Bytes → MainPc → Type 0 where
  empty_buffer : (gets : Bytes) → MainMove greeting gets accepting [] emptied
  take_greeting :
      (gets : Bytes) → MainMove greeting gets emptied (written_over greeting gets) greeted
  take_nothing : (gets : Bytes) → MainMove greeting gets emptied gets greeted
  serve : (gets : Bytes) → MainMove greeting gets greeted gets accepting

-- The global buffer, where `main` is, and where each call of `getResultsFromSS` is.
pub record Threads : Type 0 where
  pub gets : Bytes
  pub main : MainPc
  pub pc : ℕ → Pc

abbrev pub update : (ℕ → Pc) → ℕ → Pc → ℕ → Pc
update pc i p j = if i == j then p else pc j

-- Some thread or `main` makes a step; `answers` says what each thread's storage server answers, and
-- `greetings` what each connection to `main` begins with.
pub data Step (answers greetings : ℕ → Bytes) (s : Threads) : Threads → Type 0 where
  pick :
      (i : ℕ) {gets : Bytes} {p : Pc}
      → Move (answers i) s.gets (s.pc i) gets p
      → Step answers greetings s (record { gets = gets; main = s.main; pc = update s.pc i p })
  connect :
      (k : ℕ) {gets : Bytes} {p : MainPc}
      → MainMove (greetings k) s.gets s.main gets p
      → Step answers greetings s (record { gets = gets; main = p; pc = s.pc })

-- What they can come to from the buffer of zeros.
pub data Reach (answers greetings : ℕ → Bytes) : Threads → Type 0 where
  start : Reach answers greetings (record { gets = []; main = accepting; pc = λ i. connected })
  later :
      {s t : Threads}
      → Reach answers greetings s
      → Step answers greetings s t
      → Reach answers greetings t

-- Whose message it is: that of a thread's storage server, or that of a connection to `main`.
pub data Source : Type 0 where
  storage_server : ℕ → Source
  connection : ℕ → Source

abbrev pub message : (ℕ → Bytes) → (ℕ → Bytes) → Source → Bytes
message answers greetings (storage_server j) = answers j
message answers greetings (connection k) = greetings k

drop_all : (n : ℕ) (xs : Bytes) → length xs ≡ n → drop n xs ≡ []
drop_all zero [] h = refl
drop_all zero (x ∷ xs) h = absurd (omega arith)
drop_all (suc n) [] h = refl
drop_all (suc n) (x ∷ xs) h = drop_all n xs (omega arith)

drop_nil : (n : ℕ) (xs : Bytes) → xs ≡ [] → drop n xs ≡ []
drop_nil zero xs h = h
drop_nil (suc n) [] h = refl
drop_nil (suc n) (x ∷ xs) h = absurd (ground arith)

nothing_received : result_of [] ≡ 0
unfolding c_text case_eq
nothing_received = refl

module _ (answers greetings : ℕ → Bytes) where
  -- The buffer is empty or holds one message.
  abbrev IsMessage : Bytes → Type 0
  IsMessage gets = (gets ≡ []) ⊎ ((j : Source) × (gets ≡ message answers greetings j))

  -- A result that the buffer gave.
  abbrev IsFound : Pc → Type 0
  IsFound connected = Unit {0}
  IsFound cleared = Unit {0}
  IsFound filled = Unit {0}
  IsFound (done r) = (r ≡ 0) ⊎ ((j : Source) × (r ≡ result_of (message answers greetings j)))

  done_injective : {k r : ℕ} → done k ≡ done r → k ≡ r
  done_injective e = cc

  found_success :
      (p : Pc) (r : ℕ)
      → p ≡ done r
      → IsFound p
      → r ≢ 0
      → (j : Source) × (r ≡ result_of (message answers greetings j))
  found_success connected r e f ne = absurd (cc e)
  found_success cleared r e f ne = absurd (cc e)
  found_success filled r e f ne = absurd (cc e)
  found_success (done k) r e (inl zero_result) ne =
      absurd (ne (sym (done_injective e) ∙ zero_result))
  found_success (done k) r e (inr (j, same)) ne = (j, sym (done_injective e) ∙ same)

  module _ (size : ℕ) (sized : (j : Source) → length (message answers greetings j) ≡ size) where
    written_over-IsMessage :
        (j : Source) (gets : Bytes)
        → IsMessage gets
        → IsMessage (written_over (message answers greetings j) gets)
    written_over-IsMessage j gets (inl empty) =
        let m = message answers greetings j in
        inr (j, ap (λ (b : Bytes). m ++ b) (drop_nil (length m) gets empty) ∙ append-nil m)
    written_over-IsMessage j gets (inr (k, same)) =
        let m = message answers greetings j in
        let equal : length gets ≡ length m = ap length same ∙ sized k ∙ sym (sized j) in
        inr (j, ap (λ (b : Bytes). m ++ b) (drop_all (length m) gets equal) ∙ append-nil m)

    Move-IsMessage :
        (i : ℕ) {gets gets' : Bytes} {p p' : Pc}
        → Move (answers i) gets p gets' p'
        → IsMessage gets
        → IsMessage gets' × IsFound p'
    Move-IsMessage i (clear gets) h = (inl refl, tt)
    Move-IsMessage i (take_answer gets) h = (written_over-IsMessage (storage_server i) gets h, tt)
    Move-IsMessage i (take_end gets) h = (h, tt)
    Move-IsMessage i (compare_answer gets) (inl empty) =
        (inl empty, inl (ap result_of empty ∙ nothing_received))
    Move-IsMessage i (compare_answer gets) (inr (j, same)) =
        (inr (j, same), inr (j, ap result_of same))

    MainMove-IsMessage :
        (k : ℕ) {gets gets' : Bytes} {p p' : MainPc}
        → MainMove (greetings k) gets p gets' p'
        → IsMessage gets
        → IsMessage gets'
    MainMove-IsMessage k (empty_buffer gets) h = inl refl
    MainMove-IsMessage k (take_greeting gets) h = written_over-IsMessage (connection k) gets h
    MainMove-IsMessage k (take_nothing gets) h = h
    MainMove-IsMessage k (serve gets) h = h

    record IsSound (s : Threads) : Type 0 where
      buffer : IsMessage s.gets
      found : (i : ℕ) → IsFound (s.pc i)

    Step-IsSound : {s t : Threads} → Step answers greetings s t → IsSound s → IsSound t
    Step-IsSound {s} (pick i {p} m) h =
        let (buffer, result) = Move-IsMessage i m h.buffer in
        record {
          buffer = buffer;
          found = λ j. elim (Bool-cases (i == j)) [
            | inl same ↦ rw same result
            | inr other ↦ rw other (h.found j)
          ];
        }
    Step-IsSound (connect k m) h = record {
      buffer = MainMove-IsMessage k m h.buffer;
      found = h.found;
    }

    Reach-IsSound : {s : Threads} → Reach answers greetings s → IsSound s
    Reach-IsSound start = record { buffer = inl refl; found = λ i. tt }
    Reach-IsSound (later r st) = Step-IsSound st (Reach-IsSound r)

    -- When the answers of the storage servers and the first messages of the connections to `main` all
    -- have as many bytes, then in whatever order the threads and `main` make their steps, a thread
    -- that ends with success has read ACK from one of these messages: the answer of a storage
    -- server, which need not be the thread's own, or the first message of a connection.
    pub Reach-result_of :
        (s : Threads)
        → Reach answers greetings s
        → (i : ℕ) → s.pc i ≡ done 1
        → (j : Source) × (result_of (message answers greetings j) ≡ 1)
    Reach-result_of s r i e =
        let (j, same) =
          found_success (s.pc i) 1 e ((Reach-IsSound r).found i) (λ z. omega (arith, z)) in
        (j, sym same)

-- The answers of two storage servers, to the threads 0 and 1.
abbrev pub two_answers : Bytes → Bytes → ℕ → Bytes
two_answers a b i = if i == 0 then a else b

alone_in_buffer : (b : Bytes) → result_of (b ++ drop (length b) []) ≡ result_of b
alone_in_buffer b =
    ap (λ (r : Bytes). result_of (b ++ r)) (drop_nil (length b) [] refl)
    ∙ ap result_of (append-nil b)

-- Whatever the connections to `main` begin with, the threads of two clients can make their steps so that both end with the result of the second storage
-- server, whatever the two servers answer: a FAIL of the first becomes a success if the second one
-- sends ACK.
pub Reach-two_answers :
    (a b : Bytes) (greetings : ℕ → Bytes)
    → (s : Threads) × Reach (two_answers a b) greetings s
      × (s.pc 0 ≡ done (result_of b))
      × (s.pc 1 ≡ done (result_of b))
Reach-two_answers a b greetings =
    let s₁ = later start (pick 0 (clear [])) in
    let s₂ = later s₁ (pick 0 (take_answer [])) in
    let s₃ = later s₂ (pick 1 (clear (a ++ drop (length a) []))) in
    let s₄ = later s₃ (pick 1 (take_answer [])) in
    let s₅ = later s₄ (pick 0 (compare_answer (b ++ drop (length b) []))) in
    let s₆ = later s₅ (pick 1 (compare_answer (b ++ drop (length b) []))) in
    (_, s₆, ap done (alone_in_buffer b), ap done (alone_in_buffer b))

-- What a connection to `main` begins with can be taken for the answer of a storage server: whatever a
-- thread's own storage server answers, the thread can end with the result of that message, so that ACK
-- makes a success of a FAIL.
pub Reach-result_of_greeting :
    (answer greeting : Bytes)
    → (s : Threads) × Reach (λ i. answer) (λ k. greeting) s × (s.pc 0 ≡ done (result_of greeting))
Reach-result_of_greeting a g =
    let s₁ = later start (pick 0 (clear [])) in
    let s₂ = later s₁ (pick 0 (take_answer [])) in
    let s₃ = later s₂ (connect 0 (empty_buffer (written_over a []))) in
    let s₄ = later s₃ (connect 0 (take_greeting [])) in
    let s₅ = later s₄ (pick 0 (compare_answer (written_over g []))) in
    (_, s₅, ap done (alone_in_buffer g))
