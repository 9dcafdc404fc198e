-- ===== src/Lru/Tests.antt =====
-- The theorem about runs of the cache at a short run, and its specification evaluated there.
use nfs_network_file_system.Prelude.{◌≡◌, refl, arith, List, [], ◌∷◌, some}
use nfs_network_file_system.Prelude.Bytes.{Bytes, bytes_eq, codes}
use nfs_network_file_system.Hashmap.{hashmap_create}
use nfs_network_file_system.MapOperations.{c_string, minus_one}
use nfs_network_file_system.Lru.{Lru, create_lru}
use nfs_network_file_system.Lru.Track.{
  Call, get, put, ideal_run, ideal_put, ideal_get, find, forget,
}
use nfs_network_file_system.Lru.Run.{run_calls, run_calls-ideal_run, held, text_calls}

abbrev calls : List (Call Bytes)
calls =
    put (codes "/a") 1
    ∷ put (codes "/b") 2
    ∷ get (codes "/a")
    ∷ put (codes "/c") 3
    ∷ get (codes "/b")
    ∷ get (codes "/a")
    ∷ []

run_calls-ideal_run_example :
    (l' : Lru Bytes) × (run_calls c_string (create_lru (codes "#") hashmap_create 2) calls
      ≡ some (l', (ideal_run 2 [] (text_calls c_string calls)).1))
    × (held c_string l' ≡ (ideal_run 2 [] (text_calls c_string calls)).0)
run_calls-ideal_run_example =
    run_calls-ideal_run c_string (codes "#") 2 calls (omega arith)
      ((λ e. cc), ((λ e. cc), ((λ e. cc), ((λ e. cc), ((λ e. cc), ((λ e. cc), tt))))))

-- The key that was used least recently is lost: "/b".
ideal_run_loses :
    ideal_run 2 [] (text_calls c_string calls)
    ≡ ((codes "/a", 1) ∷ (codes "/c", 3) ∷ [], 1 ∷ minus_one ∷ 1 ∷ [])
unfolding ideal_run ideal_put ideal_get find forget bytes_eq
ideal_run_loses = refl
