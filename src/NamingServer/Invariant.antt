-- ===== src/NamingServer/Invariant.antt =====
-- What every round of `client_handler` of namingserver.c keeps, however the network behaves.
use nfs_network_file_system.Prelude.{
  ℕ, zero, suc, ◌^◌, ◌≤◌, ◌≡◌, refl, subst, ◌||◌, inl, inr, List, [], ◌∷◌, ◌++◌, Option, none, some,
  ◌==◌, arith, Bool-cases, take, set,
}
use nfs_network_file_system.Prelude.Bytes.{Bytes, codes}
use nfs_network_file_system.Text.{slash, case_eq, basename, cut_slashes}
use nfs_network_file_system.MapOperations.{c_string, minus_one, get_value, add_paths_to_list}
use nfs_network_file_system.Io.{
  client, text, number, World, Run, ok, exited, crashed, blocked, and_then, Io, pure, ◌>>=◌, ◌>>◌,
  returning, or_crash, send,
}
use nfs_network_file_system.NamingServer.{
  NamingServer, server_at, ack, get_results_from_ss, connect_to_storage_server, facilitate_copy,
}
use nfs_network_file_system.NamingServer.Client.{
  arg, fail, not_found, path_filename, path_new_path, update_paths, report_result,
  handle_create_delete, handle_locate, report_copy, handle_copy, dispatch, Round, next, quit,
  CommandType, create_delete, read, write, copy, details, exit, invalid,
}
use nfs_network_file_system.NamingServer.Names.{
  IsClean, child-IsClean, IsClean-basename, IsClean-cut_slashes,
}
use nfs_network_file_system.NamingServer.Serving.{
  IsServer, IsServing, get_value-IsServing, set_value-IsServing, remove_entry-IsServing,
  add_paths_to_list-IsServing,
}

-- What holds of the result where there is one.
abbrev pub Post : {A : Type 0} → (A → Type 0) → Run A → Type 0
Post P (ok a w) = P a
Post P (exited w) = Unit {0}
Post P (crashed w) = Unit {0}
Post P (blocked w) = Unit {0}

module _ {A B : Type 0} where
  Post-and_then :
      (P : A → Type 0) (Q : B → Type 0) (r : Run A) (k : A → Io B)
      → Post P r
      → ((a : A) → P a → (w : World) → Post Q (k a w))
      → Post Q (and_then r k)
  Post-and_then P Q (ok a w) k h next_step = next_step a h w
  Post-and_then P Q (exited w) k h next_step = tt
  Post-and_then P Q (crashed w) k h next_step = tt
  Post-and_then P Q (blocked w) k h next_step = tt

  -- After a step whose result does not matter.
  Post-any :
      (Q : B → Type 0) (r : Run A) (k : A → Io B)
      → ((a : A) → (w : World) → Post Q (k a w))
      → Post Q (and_then r k)
  Post-any Q (ok a w) k next_step = next_step a w
  Post-any Q (exited w) k next_step = tt
  Post-any Q (crashed w) k next_step = tt
  Post-any Q (blocked w) k next_step = tt

  Post-returning :
      (Q : B → Type 0) (o : Option A) (w : World) (k : A → Io B)
      → ((a : A) → o ≡ some a → (w : World) → Post Q (k a w))
      → Post Q (and_then (returning o w) k)
  Post-returning Q none w k next_step = tt
  Post-returning Q (some a) w k next_step = next_step a refl w

  Post-or_crash :
      (Q : B → Type 0) (o : Option A) (w : World) (k : A → Io B)
      → ((a : A) → o ≡ some a → (w : World) → Post Q (k a w))
      → Post Q (and_then (or_crash o w) k)
  Post-or_crash Q none w k next_step = tt
  Post-or_crash Q (some a) w k next_step = next_step a refl w

-- The state after a step has as many storage servers, and its paths are theirs.
abbrev pub Keeps : ℕ → NamingServer → Type 0
Keeps count n = (n.storage_server_count ≡ count) × IsServing count n.accessible_paths

abbrev pub AllClean : List Bytes → Type 0
AllClean [] = Unit {0}
AllClean (w ∷ ws) = IsClean w × AllClean ws

arg-IsClean : (args : List Bytes) (i : ℕ) → AllClean args → IsClean (arg args i)
arg-IsClean [] i all = (tt, tt)
arg-IsClean (w ∷ ws) zero all = all.0
arg-IsClean (w ∷ ws) (suc i) all = arg-IsClean ws i all.1

pub AllClean-set :
    (args : List Bytes) (i : ℕ) (w : Bytes) → AllClean args → IsClean w → AllClean (set args i w)
AllClean-set [] i w all one = tt
AllClean-set (v ∷ args) zero w all one = (one, all.1)
AllClean-set (v ∷ args) (suc i) w all one = (all.0, AllClean-set args i w all.1 one)

module _ (count : ℕ) (small : count ≤ 2 ^ 31) where
  get_value-IsServer :
      (n : NamingServer) (q : Bytes) (num : ℕ)
      → Keeps count n
      → get_value n.accessible_paths (c_string q) ≡ some num
      → IsServer count num
  get_value-IsServer n q num k e =
      let (v, known, one) = get_value-IsServing count n.accessible_paths (c_string q) k.1 in
      let same : v ≡ num = ground (arith, known, e) in subst (IsServer count) same one

  update_paths-Keeps :
      (n : NamingServer) (args : List Bytes) (num : ℕ) (w : World)
      → Keeps count n
      → AllClean args
      → IsServer count num
      → Post (Keeps count) (update_paths n args num w)
  unfolding update_paths
  update_paths-Keeps n args num w k all one =
      elim (Bool-cases (case_eq (arg args 0) (codes "CREATE"))) [
        | inl create ↦
            let (m, run, s) =
              set_value-IsServing count n.accessible_paths
                (c_string (arg args 1 ++ slash ∷ arg args 2)) num k.1
                (child-IsClean (arg args 1) (arg args 2) (arg-IsClean args 1 all)
                  (arg-IsClean args 2 all))
                small one in
            rw (create, run) (k.0, s)
        | inr other ↦ elim (Bool-cases (case_eq (arg args 0) (codes "DELETE"))) [
          | inl delete ↦
              let (m, run, s) = remove_entry-IsServing count n.accessible_paths (arg args 1) k.1 in
              rw (other, delete, run) (k.0, s)
          | inr neither ↦ rw (other, neither) k
        ]
      ]

  report_result-Keeps :
      (n : NamingServer) (args : List Bytes) (num result : ℕ) (w : World)
      → Keeps count n
      → AllClean args
      → IsServer count num
      → Post (Keeps count) (report_result n args num result w)
  unfolding report_result
  report_result-Keeps n args num result w k all one = elim (Bool-cases (result == 1)) [
    | inl done ↦ rw done (
        Post-and_then (Keeps count) (Keeps count) (update_paths n args num w)
          (λ n'. send client (text ack) >> pure n') (update_paths-Keeps n args num w k all one)
          (λ n' k' w'.
            Post-any (Keeps count) (send client (text ack) w') (λ u. pure n') (λ u w''. k')))
    | inr failed ↦
        rw failed (Post-any (Keeps count) (send client (text fail) w) (λ u. pure n) (λ u w'. k))
  ]

  handle_create_delete-Keeps :
      (n : NamingServer) (args : List Bytes) (no_args : ℕ) (w : World)
      → Keeps count n
      → AllClean args
      → Post (Keeps count) (handle_create_delete n args no_args w)
  unfolding handle_create_delete
  handle_create_delete-Keeps n args no_args w k all = Post-any (Keeps count) _ _ (λ u w₁.
      Post-returning (Keeps count) (get_value n.accessible_paths (c_string (arg args 1))) w₁ _
        (λ num e w₂. elim (Bool-cases (num == minus_one)) [
          | inl missing ↦ rw missing (
              Post-any (Keeps count) (send client (text (not_found (arg args 0) path_filename)) w₂)
                (λ u'. pure n) (λ u' w₃. k))
          | inr found ↦ rw found (
              Post-any (Keeps count)
                (get_results_from_ss (server_at n num).ip (server_at n num).naming_port
                  (take no_args args) w₂)
                (λ result. report_result n args num result)
                (λ result w₃.
                  report_result-Keeps n args num result w₃ k all
                    (get_value-IsServer n (arg args 1) num k e)))
        ]))

  handle_locate-Keeps :
      (n : NamingServer) (args : List Bytes) (command_type : ℕ) (w : World)
      → Keeps count n
      → Post (Keeps count) (handle_locate n args command_type w)
  unfolding handle_locate
  handle_locate-Keeps n args command_type w k = Post-any (Keeps count) _ _ (λ u w₁.
      Post-returning (Keeps count) (get_value n.accessible_paths (c_string (arg args 1))) w₁ _
        (λ num e w₂. elim (Bool-cases (num == minus_one)) [
          | inl missing ↦ rw missing (
              Post-any (Keeps count) (send client (text (not_found (arg args 0) path_filename)) w₂)
                (λ u'. pure n) (λ u' w₃. k))
          | inr found ↦ rw found (
              Post-any (Keeps count) (send client (text (codes "FOUND")) w₂)
                (λ u'.
                  send client (text (server_at n num).ip)
                  >> (send client (number (server_at n num).client_port) >> pure n))
                (λ u' w₃.
                  Post-any (Keeps count) (send client (text (server_at n num).ip) w₃)
                    (λ u''. send client (number (server_at n num).client_port) >> pure n)
                    (λ u'' w₄.
                      Post-any (Keeps count) (send client (number (server_at n num).client_port) w₄)
                        (λ v. pure n) (λ v w₅. k))))
        ]))

  -- The state and the rows after a COPY.
  abbrev pub KeepsRows : NamingServer × List Bytes → Type 0
  KeepsRows r = Keeps count r.0 × AllClean r.1

  report_copy-Keeps :
      (n : NamingServer) (args : List Bytes) (result : ℕ) (w : World)
      → Keeps count n
      → AllClean args
      → Post KeepsRows (report_copy n args result w)
  unfolding report_copy
  report_copy-Keeps n args result w k all = elim (Bool-cases (result == 1)) [
    | inl file ↦ rw file (
        Post-returning KeepsRows (get_value n.accessible_paths (c_string (arg args 2))) w _
          (λ num e w₁.
            let source = arg args 1 in
            let clean = arg-IsClean args 1 all in
            let (m, run, s) =
              set_value-IsServing count n.accessible_paths
                (c_string (arg args 2 ++ slash ∷ basename source)) num k.1
                (child-IsClean (arg args 2) (basename source) (arg-IsClean args 2 all)
                  (IsClean-basename source clean))
                small (get_value-IsServer n (arg args 2) num k e) in
            rw run (
              Post-any KeepsRows (send client (text ack) w₁)
                (λ u. pure (record n { accessible_paths = m }, set args 1 (cut_slashes source)))
                (λ u w₂. (
                  (k.0, s),
                  AllClean-set args 1 (cut_slashes source) all (IsClean-cut_slashes source clean),
                )))))
    | inr other ↦ elim (Bool-cases (result == 2)) [
      | inl folder ↦
          rw (other, folder)
            (Post-returning KeepsRows (get_value n.accessible_paths (c_string (arg args 2))) w _
              (λ num e w₁.
                Post-or_crash KeepsRows
                  (add_paths_to_list n.accessible_paths num (arg args 2) (arg args 1)) w₁ _
                  (λ m run w₂.
                    let s =
                      add_paths_to_list-IsServing count n.accessible_paths m num (arg args 2)
                        (arg args 1) k.1 (arg-IsClean args 2 all) small run in
                    Post-any KeepsRows (send client (text ack) w₂)
                      (λ u. pure (record n { accessible_paths = m }, args))
                      (λ u w₃. ((k.0, s), all)))))
      | inr failed ↦
          rw (other, failed)
            (Post-any KeepsRows (send client (text fail) w) (λ u. pure (n, args))
              (λ u w₁. (k, all)))
    ]
  ]

  handle_copy-Keeps :
      (n : NamingServer) (args : List Bytes) (w : World)
      → Keeps count n
      → AllClean args
      → Post KeepsRows (handle_copy n args w)
  unfolding handle_copy
  handle_copy-Keeps n args w k all = Post-any KeepsRows _ _ (λ u w₁.
      Post-returning KeepsRows (get_value n.accessible_paths (c_string (arg args 1))) w₁ _
        (λ num₁ e₁ w₂.
          Post-returning KeepsRows (get_value n.accessible_paths (c_string (arg args 2))) w₂ _
            (λ num₂ e₂ w₃.
              let ss₁ = server_at n num₁ in
              let ss₂ = server_at n num₂ in
              elim (Bool-cases ((num₁ == minus_one) || (num₂ == minus_one))) [
                | inl missing ↦ rw missing (
                    Post-any KeepsRows
                      (send client (text (not_found (arg args 0) path_new_path)) w₃)
                      (λ u'. pure (n, args)) (λ u' w₄. (k, all)))
                | inr found ↦ rw found (
                    Post-any KeepsRows
                      (connect_to_storage_server ss₁.ip ss₁.naming_port
                        (codes "SEND" ∷ arg args 1 ∷ []) w₃)
                      (λ s₁.
                        connect_to_storage_server ss₂.ip ss₂.naming_port
                          (codes "RECEIVE" ∷ arg args 2 ∷ [])
                        >>= λ s₂. facilitate_copy s₁ s₂ >>= λ result. report_copy n args result)
                      (λ s₁ w₄.
                        Post-any KeepsRows
                          (connect_to_storage_server ss₂.ip ss₂.naming_port
                            (codes "RECEIVE" ∷ arg args 2 ∷ []) w₄)
                          (λ s₂. facilitate_copy s₁ s₂ >>= λ result. report_copy n args result)
                          (λ s₂ w₅.
                            Post-any KeepsRows (facilitate_copy s₁ s₂ w₅)
                              (λ result. report_copy n args result)
                              (λ result w₆. report_copy-Keeps n args result w₆ k all))))
              ])))

  -- The state and the rows with which the thread goes on.
  abbrev pub KeepsRound : Round → Type 0
  KeepsRound (next n args) = Keeps count n × AllClean args
  KeepsRound (quit n) = Keeps count n

  -- Every command, whatever the network does: if the round ends and the thread goes on, there are as many
  -- storage servers as before, every path belongs to one of them or has the number -1, and the rows of
  -- the arguments have no white space.
  pub dispatch-Keeps :
      (n : NamingServer) (args : List Bytes) (no_args : ℕ) (kind : CommandType) (w : World)
      → Keeps count n
      → AllClean args
      → Post KeepsRound (dispatch n args no_args kind w)
  unfolding dispatch
  dispatch-Keeps n args no_args create_delete w k all =
      Post-and_then (Keeps count) KeepsRound (handle_create_delete n args no_args w)
        (λ m. pure (next m args)) (handle_create_delete-Keeps n args no_args w k all)
        (λ m k' w'. (k', all))
  dispatch-Keeps n args no_args read w k all =
      Post-and_then (Keeps count) KeepsRound (handle_locate n args 2 w) (λ m. pure (next m args))
        (handle_locate-Keeps n args 2 w k) (λ m k' w'. (k', all))
  dispatch-Keeps n args no_args write w k all =
      Post-and_then (Keeps count) KeepsRound (handle_locate n args 3 w) (λ m. pure (next m args))
        (handle_locate-Keeps n args 3 w k) (λ m k' w'. (k', all))
  dispatch-Keeps n args no_args copy w k all =
      Post-and_then KeepsRows KeepsRound (handle_copy n args w) (λ r. pure (next r.0 r.1))
        (handle_copy-Keeps n args w k all) (λ r k' w'. k')
  dispatch-Keeps n args no_args details w k all =
      Post-and_then (Keeps count) KeepsRound (handle_locate n args 4 w) (λ m. pure (next m args))
        (handle_locate-Keeps n args 4 w k) (λ m k' w'. (k', all))
  dispatch-Keeps n args no_args exit w k all =
      Post-any KeepsRound (send client (number 5) w) (λ u. pure (quit n)) (λ u w'. k)
  dispatch-Keeps n args no_args invalid w k all =
      Post-any KeepsRound (send client (number 6) w) (λ u. pure (next n args)) (λ u w'. (k, all))
