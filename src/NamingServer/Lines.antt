-- ===== src/NamingServer/Lines.antt =====
-- The rounds of `client_handler` of namingserver.c from the line of the client on.
use nfs_network_file_system.Prelude.{
  ℕ, ◌+◌, ◌^◌, ◌<◌, ◌≤◌, ◌≡◌, ◌||◌, refl, false, true, Bool, List, [], ◌∷◌, ◌++◌, map, Option, none,
  some, ◌==◌, ltb, arith, Bool-cases, ◌⊎◌, inl, inr, subst, length, set,
}
use nfs_network_file_system.Prelude.Bytes.{Bytes}
use nfs_network_file_system.Text.{space, is_space}
use nfs_network_file_system.Io.{World, Event, Reply, received, recv_text, recv, recv_reply, c_text}
use nfs_network_file_system.Command.{
  to_blank, add_word, tokens_loop, tokens, max_args, path_max, copy_arg, copy_args, process_command,
}
use nfs_network_file_system.MapOperations.AddPaths.{NoSpaces-append, AllBytes-append}
use nfs_network_file_system.NamingServer.{NamingServer}
use nfs_network_file_system.NamingServer.Client.{arg, command_type, carry_out, client_round}
use nfs_network_file_system.NamingServer.Names.{IsClean}
use nfs_network_file_system.NamingServer.Invariant.{
  Post, Keeps, AllClean, AllClean-set, KeepsRound, dispatch-Keeps,
}

-- Bytes whose only white space are blanks, tabs and new lines.
abbrev pub IsLine : Bytes → Type 0
IsLine [] = Unit {0}
IsLine (c ∷ s) =
    (c < 256)
    × ((is_space c ≡ false) ⊎ (((c == space) || ((c == 9) || (c == 10))) ≡ true))
    × IsLine s

IsClean-add : (w : Bytes) (c : ℕ) → IsClean w → c < 256 → is_space c ≡ false → IsClean (w ++ c ∷ [])
IsClean-add w c h small plain =
    (NoSpaces-append w (c ∷ []) h.0 (plain, tt), AllBytes-append w (c ∷ []) h.1 (small, tt))

add_word-AllClean :
    (w : Bytes) (ws : List Bytes) → IsClean w → AllClean ws → AllClean (add_word w ws)
add_word-AllClean [] ws h all = all
add_word-AllClean (c ∷ w) ws h all = (h, all)

not_space :
    (c : ℕ)
    → (to_blank c == space) ≡ false
    → (is_space c ≡ false) ⊎ (((c == space) || ((c == 9) || (c == 10))) ≡ true)
    → is_space c ≡ false
not_space c letter (inl plain) = plain
not_space c letter (inr blank) = absurd (ground arith)

tokens_loop-AllClean :
    (s w : Bytes) → IsLine s → IsClean w → AllClean (tokens_loop (map to_blank s) w)
unfolding tokens_loop
tokens_loop-AllClean [] w line h = add_word-AllClean w [] h tt
tokens_loop-AllClean (c ∷ s) w line h = elim (Bool-cases (to_blank c == space)) [
  | inl blank ↦ rw blank (
      add_word-AllClean w (tokens_loop (map to_blank s) []) h
        (tokens_loop-AllClean s [] line.2 (tt, tt)))
  | inr letter ↦
      let plain : is_space c ≡ false = not_space c letter line.1 in
      let same : to_blank c ≡ c = ground arith in
      rw (letter, same)
        (tokens_loop-AllClean s (w ++ c ∷ []) line.2 (IsClean-add w c h line.0 plain))
]

copy_args-AllClean :
    (args : List Bytes) (from : ℕ) (ws args' : List Bytes) (n : ℕ)
    → AllClean args
    → AllClean ws
    → copy_args args from ws ≡ some (args', n)
    → AllClean args'
unfolding copy_args copy_arg
copy_args-AllClean args from [] args' n all words run =
    let same : args ≡ args' = ground (arith, run) in subst AllClean same all
copy_args-AllClean args from (w ∷ ws) args' n all words run =
    elim (Bool-cases (ltb from max_args)) [
      | inr out ↦ absurd (ground arith)
      | inl inside ↦ elim (Bool-cases (ltb (length w) path_max)) [
        | inr long ↦ absurd (ground arith)
        | inl fits ↦
            copy_args-AllClean (set args from w) (from + 1) ws args' n
              (AllClean-set args from w all words.0) words.1 (ground (arith, run))
      ]
    ]

process_command-AllClean :
    (line : Bytes) (args ws args' : List Bytes) (n : ℕ)
    → tokens line ≡ ws
    → AllClean args
    → AllClean ws
    → process_command line args ≡ some (args', n)
    → AllClean args'
unfolding process_command
process_command-AllClean line args [] args' n split all words run = absurd (ground arith)
process_command-AllClean line args (w ∷ ws) args' n split all words run =
    copy_args-AllClean args 0 (w ∷ ws) args' n all words (ground (arith, run, split))

module _ (count : ℕ) (small : count ≤ 2 ^ 31) where
  carry_out-Keeps :
      (n : NamingServer) (line : Bytes) (parsed : Option (List Bytes × ℕ)) (w : World)
      → Keeps count n
      → ((args : List Bytes) (no_args : ℕ) → parsed ≡ some (args, no_args) → AllClean args)
      → Post (KeepsRound count small) (carry_out n line parsed w)
  unfolding carry_out
  carry_out-Keeps n line none w k clean = tt
  carry_out-Keeps n line (some (args, no_args)) w k clean =
      dispatch-Keeps count small n args no_args (command_type line (arg args 0)) w k
        (clean args no_args refl)

  -- A round with a line of bytes whose only white space are blanks, tabs and new lines, from a state
  -- with at most 2 ^ 31 storage servers in which every path of the map belongs to one of them or has
  -- the number -1, and rows without white space, whatever the network does: if the round ends, there
  -- are as many storage servers as before and the paths are as they were required to be, and if the
  -- thread goes on, so are the rows.
  pub client_round-Keeps :
      (n : NamingServer) (args : List Bytes) (line : Bytes) (replies : List Reply)
      (sends : List Bool) (log : List Event)
      → Keeps count n
      → AllClean args
      → IsLine (c_text line)
      → Post (KeepsRound count small) (
          client_round n args
            (record { sends = sends; replies = received line ∷ replies; log = log }))
  unfolding client_round recv_text recv recv_reply tokens
  client_round-Keeps n args line replies sends log k all h =
      carry_out-Keeps n (c_text line) (process_command (c_text line) args)
        (record { sends = sends; replies = replies; log = log }) k
        (λ args' no_args run.
          process_command-AllClean (c_text line) args (tokens (c_text line)) args' no_args refl all
            (tokens_loop-AllClean (c_text line) [] h (tt, tt)) run)
