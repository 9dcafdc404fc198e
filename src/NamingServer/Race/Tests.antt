-- ===== src/NamingServer/Race/Tests.antt =====
-- The theorems about the shared buffer of namingserver.c at a FAIL and an ACK.
use nfs_network_file_system.Prelude.{
  ℕ, ◌≡◌, refl, ◌==◌, [], ◌∷◌, ◌++◌, length, Bool-cases, inl, inr,
}
use nfs_network_file_system.Prelude.Bytes.{Bytes, codes, bytes_eq}
use nfs_network_file_system.Text.{case_eq}
use nfs_network_file_system.Io.{c_text}
use nfs_network_file_system.NamingServer.Race.{
  Threads, Source, storage_server, connection, message, Reach, done, result_of, two_answers,
  Reach-result_of, Reach-two_answers, Reach-result_of_greeting,
}

-- Buffers of four bytes.
abbrev refusal : Bytes
refusal = codes "FAIL"

abbrev consent : Bytes
consent = codes "ACK" ++ 0 ∷ []

abbrev mixed : ℕ → Bytes
mixed = two_answers refusal consent

-- Every connection is that of a client.
abbrev greetings : ℕ → Bytes
greetings k = codes "c" ++ 0 ∷ 0 ∷ 0 ∷ []

mixed_size : (j : Source) → length (message mixed greetings j) ≡ 4
mixed_size (storage_server i) = elim (Bool-cases (i == 0)) [
  | inl first ↦ rw first refl
  | inr second ↦ rw second refl
]
mixed_size (connection k) = refl

Reach-two_answers_example :
    (s : Threads) × Reach mixed greetings s
    × (s.pc 0 ≡ done (result_of consent))
    × (s.pc 1 ≡ done (result_of consent))
Reach-two_answers_example = Reach-two_answers refusal consent greetings

abbrev swapped :
    (s : Threads) × Reach mixed greetings s
    × (s.pc 0 ≡ done (result_of consent))
    × (s.pc 1 ≡ done (result_of consent))
swapped = Reach-two_answers refusal consent greetings

consented : (result_of refusal ≡ 0) × (result_of consent ≡ 1)
unfolding c_text case_eq bytes_eq
consented = (refl, refl)

first_succeeds : swapped.0.pc 0 ≡ done 1
first_succeeds = rw (← consented.1) swapped.2

Reach-result_of_example : (j : Source) × (result_of (message mixed greetings j) ≡ 1)
Reach-result_of_example =
    Reach-result_of mixed greetings 4 mixed_size swapped.0 swapped.1 0 first_succeeds

Reach-result_of_greeting_example :
    (s : Threads) × Reach (λ i. refusal) (λ k. consent) s × (s.pc 0 ≡ done (result_of consent))
Reach-result_of_greeting_example = Reach-result_of_greeting refusal consent
