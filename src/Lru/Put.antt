-- ===== src/Lru/Put.antt =====
-- `put_LRU` of LRU/lru.c against the specification.
use nfs_network_file_system.Prelude.{
  ℕ, zero, suc, ◌+◌, ◌-◌, ◌<◌, ◌≤◌, ◌≡◌, ◌≢◌, refl, sym, ◌∙◌, ap, true, false, List, [], ◌∷◌, ◌++◌,
  some, ◌==◌, length, length-append, take, has, ==_refl, arith, Bool-cases, inl, inr,
}
use nfs_network_file_system.Prelude.Bytes.{Bytes}
use nfs_network_file_system.Hashmap.{Hashmap}
use nfs_network_file_system.MapOperations.{CString}
use nfs_network_file_system.Lru.{
  Node, Lru, head, tail, node_at, drop_old, evict, put_lru, remove_entry_lr, delete_node,
}
use nfs_network_file_system.Lru.Index.{get_value_lr-IsIndex}
use nfs_network_file_system.Lru.Cells.{
  next_of, prev_of, prev_field, pair_of, node_at-in, new_node, alloc_links, alloc_pairs,
  node_at-append_one,
}
use nfs_network_file_system.Lru.Items.{
  Item, addrs, addr_at, addr_at-on, addr_at-absent, track_of, track_of-cut, cut, length-cut,
  occupant, last-on, track_of-cut_last, AllItems, AllItems-map, addr_at-cut_absent, on_pos,
}
use nfs_network_file_system.Lru.Chain.{IsNodup-front, Linked-congr, Linked-last, last_before}
use nfs_network_file_system.Lru.Track.{Track, forget, ideal_put}
use nfs_network_file_system.Lru.Invariant.{ring, IsStored, IsLinked, IsLru, unlink, push_front}
use nfs_network_file_system.Lru.Get.{node_of_pair}

module _ {Text : Type 0} (mem : Text → CString) where
  -- What the first `if` leaves: no node of the key.
  record Drops (l : Lru Text) (is : List Item) (key : Text) : Type 0 where
    l' : Lru Text
    items : List Item
    runs : drop_old mem l key ≡ some l'
    keeps : IsLru mem l' items
    kept : l'.capacity ≡ l.capacity
    gone : addr_at (mem key).text items ≡ 0
    ideal : track_of items ≡ forget (mem key).text (track_of is)

  drop_old-forget :
      {l : Lru Text} {is : List Item}
      → IsLru mem l is
      → (key : Text) → (mem key).text ≢ []
      → Drops l is key
  unfolding drop_old
  drop_old-forget {l} {is} h key ne = elim (Bool-cases (addr_at (mem key).text is == 0)) [
    | inl gone ↦ record {
      l' = l;
      items = is;
      runs = rw (get_value_lr-IsIndex h.index (mem key) ne, gone) refl;
      keeps = h;
      kept = refl;
      gone = ground arith;
      ideal = sym (addr_at-absent (mem key).text is h.distinct (ground arith)).1;
    }
    | inr there ↦
        let t = (mem key).text in
        let d = addr_at t is in
        let there_p : d ≢ 0 = λ e. ground arith in
        let u = unlink mem h.list (mem key) ne there_p in
        let shorter = length-cut d is (addr_at-on t is there_p) in
        record {
          l' = record l { nodes = u.nodes'; m = u.m'; map_size = l.map_size - 1 };
          items = cut d is;
          runs = rw (get_value_lr-IsIndex h.index (mem key) ne, there, u.removes, u.deletes) refl;
          keeps = record {
            list = u.keeps;
            size = omega arith;
            fits = omega arith;
            positive = h.positive;
          };
          kept = refl;
          gone = u.gone;
          ideal = track_of-cut t is (IsNodup-front (addrs is) (tail ∷ []) h.nodup.1) there_p;
        }
  ]

  -- What the second leaves: room for one more, and the last item gone if there was none.
  record Evicts (l : Lru Text) (is : List Item) (t : Bytes) : Type 0 where
    l' : Lru Text
    items : List Item
    runs : evict mem l ≡ some l'
    keeps : IsLru mem l' items
    kept : l'.capacity ≡ l.capacity
    room : length items < l.capacity
    gone : addr_at t items ≡ 0
    ideal : track_of items ≡ take (l.capacity - 1) (track_of is)

  take-within : (n : ℕ) (is : List Item) → length is ≤ n → take n (track_of is) ≡ track_of is
  take-within zero [] h = refl
  take-within (suc n) [] h = refl
  take-within zero (i ∷ is) h = absurd (omega arith)
  take-within (suc n) (i ∷ is) h = ap (λ l. (i.text, i.val) ∷ l) (take-within n is (omega arith))

  evict_run :
      (l : Lru Text) (t_node last : Node Text) (nodes' : List (Node Text)) (m' : Hashmap)
      → l.map_size == l.capacity ≡ true
      → node_at l.nodes tail ≡ some t_node
      → node_at l.nodes t_node.prev ≡ some last
      → remove_entry_lr l.m (mem last.key) ≡ some m'
      → delete_node l.nodes t_node.prev ≡ some nodes'
      → evict mem l ≡ some (record l { nodes = nodes'; m = m'; map_size = l.map_size - 1 })
  unfolding evict
  evict_run l t_node last nodes' m' full at there removes deletes =
      rw (full, at, there, removes, deletes) refl

  evict_full :
      {l : Lru Text} {i : Item} {is : List Item}
      → IsLru mem l (i ∷ is)
      → (t : Bytes) → addr_at t (i ∷ is) ≡ 0
      → length (i ∷ is) ≡ l.capacity
      → Evicts l (i ∷ is) t
  evict_full {l} {i} {is} h t gone full =
      let all = i ∷ is in
      let d = last_before head (addrs all) in
      let on : has d (addrs all) ≡ true = last-on head i is in
      let back = Linked-last (next_of l.nodes) (prev_of l.nodes) head tail (addrs all) h.linked in
      let nodup = IsNodup-front (addrs all) (tail ∷ []) h.nodup.1 in
      let (j, stored, at, found) =
        occupant (IsStored mem l.nodes) d all h.stored h.distinct nodup on in
      let pair : pair_of l.nodes d ≡ some (stored.key, j.val) = rw (← at) stored.pair in
      let (n, here, own, _) = node_of_pair mem l.nodes d stored.key j.val pair in
      let (t_node, tail_at) = node_at-in l.nodes tail (omega (arith, h.roomy)) in
      let prev : t_node.prev ≡ d = sym (ap prev_field tail_at) ∙ back in
      let texted : (mem n.key).text ≡ j.text = ap (λ k. (mem k).text) own ∙ stored.texted in
      let e : addr_at (mem n.key).text all ≡ d = ap (λ (s : Bytes). addr_at s all) texted ∙ found in
      let d' = addr_at (mem n.key).text all in
      let positive = on_pos d all h.distinct on in
      let there : d' ≢ 0 = λ z. omega (arith, e, z, positive) in
      let u = unlink mem h.list (mem n.key) (λ z. stored.nonempty (sym texted ∙ z)) there in
      let full_b : l.map_size == l.capacity ≡ true = ground (arith, h.size) in
      let shorter = length-cut d' all (addr_at-on (mem n.key).text all there) in
      record {
        l' = record l { nodes = u.nodes'; m = u.m'; map_size = l.map_size - 1 };
        items = cut d' all;
        runs =
            evict_run l t_node n u.nodes' u.m' full_b tail_at (ap (node_at l.nodes) prev ∙ here)
              u.removes (ap (delete_node l.nodes) (prev ∙ sym e) ∙ u.deletes);
        keeps = record {
          list = u.keeps;
          size = omega (arith, h.size);
          fits = omega (arith, h.fits);
          positive = h.positive;
        };
        kept = refl;
        room = omega arith;
        gone = addr_at-cut_absent t d' all h.distinct gone;
        ideal =
            ap (λ (a : ℕ). track_of (cut a all)) e
            ∙ track_of-cut_last head i is nodup
            ∙ ap (λ (k : ℕ). take k (track_of all)) (omega arith);
      }

  zero_room : (c : ℕ) → 0 < c → 0 == c ≡ false
  zero_room c h = ground arith

  evict-take :
      {l : Lru Text} {is : List Item}
      → IsLru mem l is
      → (t : Bytes) → addr_at t is ≡ 0
      → Evicts l is t
  unfolding evict
  evict-take {l} {is = []} h t gone = record {
    l' = l;
    items = [];
    runs = rw (h.size, zero_room l.capacity h.positive) refl;
    keeps = h;
    kept = refl;
    room = h.positive;
    gone = gone;
    ideal = sym (take-within (l.capacity - 1) [] (omega arith));
  }
  evict-take {l} {is = i ∷ is} h t gone = elim (Bool-cases (l.map_size == l.capacity)) [
    | inl full ↦ evict_full h t gone (ground (arith, h.size))
    | inr part ↦ record {
      l' = l;
      items = i ∷ is;
      runs = rw part refl;
      keeps = h;
      kept = refl;
      room = ground (arith, h.size, h.fits);
      gone = gone;
      ideal = sym (take-within (l.capacity - 1) (i ∷ is) (ground (arith, h.size, h.fits)));
    }
  ]

  -- What `put_LRU` leaves: a cache whose list is the specification's.
  pub record Puts (l : Lru Text) (is : List Item) (key : Text) (v : ℕ) : Type 0 where
    pub l' : Lru Text
    pub items : List Item
    pub runs : put_lru mem l key v ≡ some l'
    pub keeps : IsLru mem l' items
    pub kept : l'.capacity ≡ l.capacity
    pub ideal : track_of items ≡ ideal_put l.capacity (mem key).text v (track_of is)

  -- The heap with the new node is linked as before.
  alloc-IsLinked :
      {nodes : List (Node Text)} {m : Hashmap} {is : List Item}
      → IsLinked mem nodes m is
      → (key : Text) (v : ℕ) → IsLinked mem (nodes ++ new_node key v ∷ []) m is
  alloc-IsLinked {nodes} {is} h key v =
      let nodes' = nodes ++ new_node key v ∷ [] in
      let size = length-append nodes (new_node key v ∷ []) in
      record {
        linked =
            Linked-congr (next_of nodes) (prev_of nodes) (next_of nodes') (prev_of nodes') head tail
              (addrs is) (λ x _. (alloc_links nodes key v x).0)
              (λ x _. (alloc_links nodes key v x).1) h.linked;
        nodup = h.nodup;
        roomy = omega (arith, h.roomy, size);
        stored =
            AllItems-map (IsStored mem nodes) (IsStored mem nodes')
              (λ i s. record {
                key = s.key;
                in_heap = omega (arith, s.in_heap, size);
                pair = alloc_pairs nodes key v i.addr s.in_heap.1 ∙ s.pair;
                texted = s.texted;
                nonempty = s.nonempty;
              })
              is h.stored;
        distinct = h.distinct;
        index = h.index;
      }

  -- An address beyond the heap is not on the list.
  beyond :
      (nodes : List (Node Text)) (is : List Item)
      → AllItems (IsStored mem nodes) is
      → 2 ≤ length nodes
      → has (length nodes + 1) (ring is) ≡ false
  beyond nodes [] all r = ground arith
  beyond nodes (i ∷ is) all r = ground (arith, all.0.in_heap, beyond nodes is all.1 r)

  take-ideal :
      (c : ℕ) (x : Bytes × ℕ) (track : Track) → 0 < c → take c (x ∷ track) ≡ x ∷ take (c - 1) track
  take-ideal zero x track h = absurd (omega arith)
  take-ideal (suc c) x track h = ap (λ (k : ℕ). x ∷ take k track) (omega arith)

  -- For a key whose text is not empty, `put_LRU` returns, keeps the invariant, and leaves the list that
  -- the specification does.
  pub put_lru-ideal_put :
      {l : Lru Text} {is : List Item}
      → IsLru mem l is
      → (key : Text) (v : ℕ) → (mem key).text ≢ []
      → Puts l is key v
  unfolding put_lru ideal_put
  put_lru-ideal_put {l} {is} h key v ne =
      let t = (mem key).text in
      let a = drop_old-forget h key ne in
      let b = evict-take a.keeps t a.gone in
      let c = b.l' in
      let nodes = c.nodes ++ new_node key v ∷ [] in
      let d = length c.nodes + 1 in
      let size = length-append c.nodes (new_node key v ∷ []) in
      let p =
        push_front mem {l = record c { nodes = nodes }} (alloc-IsLinked b.keeps.list key v)
          b.keeps.size (omega (arith, b.room, b.kept)) d key key v
          (beyond c.nodes b.items b.keeps.stored b.keeps.roomy) (omega (arith, size))
          (rw (node_at-append_one c.nodes (new_node key v) d, ==_refl d) refl) refl ne b.gone in
      record {
        l' = p.l';
        items = record { addr = d; text = t; val = v } ∷ b.items;
        runs = rw (a.runs, b.runs, p.adds, p.sets) refl;
        keeps = p.keeps;
        kept = p.kept ∙ b.kept ∙ a.kept;
        ideal =
            ap (λ (track : Track). (t, v) ∷ track)
              (b.ideal ∙ rw a.kept (ap (λ (track : Track). take (l.capacity - 1) track) a.ideal))
            ∙ sym (take-ideal l.capacity (t, v) (forget t (track_of is)) h.positive);
      }
