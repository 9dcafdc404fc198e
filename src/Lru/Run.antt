-- ===== src/Lru/Run.antt =====
-- Runs of calls on the cache of LRU/lru.c against runs of the specification.
use nfs_network_file_system.Prelude.{
  ℕ, zero, suc, ◌<◌, ◌≡◌, ◌≢◌, refl, sym, ◌∙◌, ap, List, [], ◌∷◌, Option, none, some, ◌>>=◌, length,
  arith,
}
use nfs_network_file_system.Prelude.Bytes.{Bytes}
use nfs_network_file_system.Hashmap.{hashmap_create}
use nfs_network_file_system.MapOperations.{CString}
use nfs_network_file_system.Lru.{Node, Lru, head, tail, node_at, create_lru, get_lru, put_lru}
use nfs_network_file_system.Lru.Index.{create-IsIndex}
use nfs_network_file_system.Lru.Chain.{Linked}
use nfs_network_file_system.Lru.Cells.{node_at-in, next_of, prev_of, next_field}
use nfs_network_file_system.Lru.Items.{Item, addrs, track_of, AllItems}
use nfs_network_file_system.Lru.Track.{Track, Call, get, put, ideal_run, ideal_run-get}
use nfs_network_file_system.Lru.Invariant.{IsStored, IsLru}
use nfs_network_file_system.Lru.Get.{get_lru-ideal_get, node_of_pair}
use nfs_network_file_system.Lru.Put.{put_lru-ideal_put}

module _ {Text : Type 0} (mem : Text → CString) where
  -- The calls one after the other; the results of those of `get_LRU`.
  unfoldable pub run_calls : Lru Text → List (Call Text) → Option (Lru Text × List ℕ)
  run_calls l [] = some (l, [])
  run_calls l (get key ∷ calls) = do
    (l', value) ← get_lru mem l key
    (final, values) ← run_calls l' calls
    some (final, value ∷ values)
  run_calls l (put key value ∷ calls) = do l' ← put_lru mem l key value; run_calls l' calls

  -- The texts and values of as many nodes, along `next` from an address.
  unfoldable pub walk : List (Node Text) → ℕ → ℕ → Track
  walk nodes zero a = []
  walk nodes (suc n) a = elim (node_at nodes a) [
    | none ↦ []
    | some node ↦ ((mem node.key).text, node.val) ∷ walk nodes n node.next
  ]

  -- What the list holds, from the node behind the head.
  unfoldable pub held : Lru Text → Track
  unfolding walk
  held l = elim (node_at l.nodes head) [ none ↦ [] | some h ↦ walk l.nodes l.map_size h.next ]

  -- The calls with the texts of their keys.
  abbrev pub text_calls : List (Call Text) → List (Call Bytes)
  text_calls [] = []
  text_calls (get key ∷ calls) = get (mem key).text ∷ text_calls calls
  text_calls (put key value ∷ calls) = put (mem key).text value ∷ text_calls calls

  -- No key is empty.
  abbrev pub AllKeyed : List (Call Text) → Type 0
  AllKeyed [] = Unit {0}
  AllKeyed (get key ∷ calls) = ((mem key).text ≢ []) × AllKeyed calls
  AllKeyed (put key value ∷ calls) = ((mem key).text ≢ []) × AllKeyed calls

  cons_congr :
      {s t : Bytes} {v w : ℕ} {xs ys : Track}
      → s ≡ t
      → v ≡ w
      → xs ≡ ys
      → ◌≡◌ {A = Track} ((s, v) ∷ xs) ((t, w) ∷ ys)
  cons_congr a b c = cc

  walk_step :
      (nodes : List (Node Text)) (n a : ℕ) (node : Node Text)
      → node_at nodes a ≡ some node
      → walk nodes (suc n) a ≡ ((mem node.key).text, node.val) ∷ walk nodes n node.next
  unfolding walk
  walk_step nodes n a node e = rw (e, walk) refl

  walk-track_of :
      (nodes : List (Node Text)) (a : ℕ) (is : List Item)
      → Linked (next_of nodes) (prev_of nodes) a (addrs is) tail
      → AllItems (IsStored mem nodes) is
      → walk nodes (length is) (next_of nodes a) ≡ track_of is
  unfolding walk
  walk-track_of nodes a [] linked stored = refl
  walk-track_of nodes a (i ∷ is) linked stored =
      let (node, here, own, val) = node_of_pair mem nodes i.addr stored.0.key i.val stored.0.pair in
      let next : node.next ≡ next_of nodes i.addr = sym (ap next_field here) in
      let text : (mem node.key).text ≡ i.text = ap (λ k. (mem k).text) own ∙ stored.0.texted in
      let rest : walk nodes (length is) node.next ≡ track_of is =
        ap (walk nodes (length is)) next ∙ walk-track_of nodes i.addr is linked.2 stored.1 in
      ap (walk nodes (suc (length is))) linked.0
      ∙ walk_step nodes (length is) i.addr node here
      ∙ cons_congr text val rest

  held_step :
      (l : Lru Text) (first : Node Text)
      → node_at l.nodes head ≡ some first
      → held l ≡ walk l.nodes l.map_size first.next
  unfolding held
  held_step l first e = rw (e, held) refl

  -- The list holds the items of the invariant.
  pub held-track_of : {l : Lru Text} {is : List Item} → IsLru mem l is → held l ≡ track_of is
  held-track_of {l} {is} h =
      let (first, here) = node_at-in l.nodes head (omega (arith, h.roomy)) in
      let next : first.next ≡ next_of l.nodes head = sym (ap next_field here) in
      held_step l first here
      ∙ ap (λ (n : ℕ). walk l.nodes n first.next) h.size
      ∙ ap (walk l.nodes (length is)) next
      ∙ walk-track_of l.nodes head is h.linked h.stored

  run_get :
      (l l₁ l' : Lru Text) (key : Text) (v : ℕ) (calls : List (Call Text)) (vs : List ℕ)
      → get_lru mem l key ≡ some (l₁, v)
      → run_calls l₁ calls ≡ some (l', vs)
      → run_calls l (get key ∷ calls) ≡ some (l', v ∷ vs)
  unfolding run_calls
  run_get l l₁ l' key v calls vs e f = rw (e, f) refl

  run_put :
      (l l₁ : Lru Text) (key : Text) (v : ℕ) (calls : List (Call Text))
      → put_lru mem l key v ≡ some l₁
      → run_calls l (put key v ∷ calls) ≡ run_calls l₁ calls
  unfolding run_calls
  run_put l l₁ key v calls e = rw e refl

  run_from :
      (calls : List (Call Text)) {l : Lru Text} {is : List Item}
      → IsLru mem l is
      → AllKeyed calls
      → (l' : Lru Text) × (run_calls l calls
          ≡ some (l', (ideal_run l.capacity (track_of is) (text_calls calls)).1))
        × (held l' ≡ (ideal_run l.capacity (track_of is) (text_calls calls)).0)
  unfolding run_calls ideal_run
  run_from [] {l} h keyed = (l, refl, held-track_of h)
  run_from (get key ∷ calls) {l} {is} h keyed =
      let g = get_lru-ideal_get mem h key keyed.0 in
      let (l', runs, holds) = run_from calls g.keeps keyed.1 in
      let spec =
        ideal_run-get l.capacity (track_of is) (track_of g.items) (mem key).text g.value
          (text_calls calls) g.ideal in
      let rest = ideal_run g.l'.capacity (track_of g.items) (text_calls calls) in
      (
        l',
        run_get l g.l' l' key g.value calls rest.1 g.runs runs
            ∙ ap
                (λ (c : ℕ).
                  some (l', g.value ∷ (ideal_run c (track_of g.items) (text_calls calls)).1))
                g.kept
            ∙ ap (λ (r : Track × List ℕ). some (l', r.1)) (sym spec),
        holds
            ∙ ap (λ (c : ℕ). (ideal_run c (track_of g.items) (text_calls calls)).0) g.kept
            ∙ ap (λ (r : Track × List ℕ). r.0) (sym spec),
      )
  run_from (put key value ∷ calls) {l} {is} h keyed =
      let p = put_lru-ideal_put mem h key value keyed.0 in
      let (l', runs, holds) = run_from calls p.keeps keyed.1 in
      let same : ideal_run p.l'.capacity (track_of p.items) (text_calls calls)
          ≡ ideal_run l.capacity (track_of is) (text_calls (put key value ∷ calls)) =
        ap (λ (c : ℕ). ideal_run c (track_of p.items) (text_calls calls)) p.kept
        ∙ ap (λ (t : Track). ideal_run l.capacity t (text_calls calls)) p.ideal in
      (
        l',
        run_put l p.l' key value calls p.runs
            ∙ runs
            ∙ ap (λ (r : Track × List ℕ). some (l', r.1)) same,
        holds ∙ ap (λ (r : Track × List ℕ). r.0) same,
      )

  pub create_lru-IsLru :
      (hash : Text) (capacity : ℕ)
      → 0 < capacity
      → IsLru mem (create_lru hash hashmap_create capacity) []
  unfolding create_lru node_at
  create_lru-IsLru hash capacity positive = record {
    list = record {
      linked = (refl, refl);
      nodup = (refl, (refl, tt));
      roomy = omega arith;
      stored = tt;
      distinct = tt;
      index = create-IsIndex;
    };
    size = refl;
    fits = omega arith;
    positive = positive;
  }

  -- For a positive capacity and calls with no empty key, a run of `get_LRU` and `put_LRU` on a new
  -- cache returns. Its answers, and the keys and values that the list of nodes holds at the end, from
  -- the head on, are those of the specification: the most recently used keys first, as many as the
  -- capacity allows, and -1 for a key that is not among them. The texts of the keys do not change
  -- during the run.
  pub run_calls-ideal_run :
      (hash : Text) (capacity : ℕ) (calls : List (Call Text))
      → 0 < capacity
      → AllKeyed calls
      → (l' : Lru Text) × (run_calls (create_lru hash hashmap_create capacity) calls
          ≡ some (l', (ideal_run capacity [] (text_calls calls)).1))
        × (held l' ≡ (ideal_run capacity [] (text_calls calls)).0)
  unfolding create_lru
  run_calls-ideal_run hash capacity calls positive keyed =
      run_from calls (create_lru-IsLru hash capacity positive) keyed
