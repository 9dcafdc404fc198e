-- ===== src/Lru/Invariant.antt =====
-- The invariant of LRU/lru.c's cache, and that unlinking a node and linking one at the front keep it.
use nfs_network_file_system.Prelude.{
  ℕ, ◌+◌, ◌<◌, ◌≤◌, ◌≡◌, ◌≢◌, refl, sym, ◌∙◌, ap, Bool, true, false, ◌||◌, List, [], ◌∷◌, ◌++◌,
  some, ◌==◌, length, has, has-append, IsNodup, ==_refl, arith, Bool-cases, inl, inr, subst,
}
use nfs_network_file_system.Prelude.Bytes.{bytes_eq_refl}
use nfs_network_file_system.Hashmap.{Hashmap}
use nfs_network_file_system.MapOperations.{CString}
use nfs_network_file_system.Lru.{
  Node, Lru, head, tail, remove_entry_lr, add_node, delete_node, set_head,
}
use nfs_network_file_system.Lru.Index.{
  IsIndex, IsIndex-congr, set_value_lr-IsIndex, remove_entry_lr-IsIndex,
}
use nfs_network_file_system.Lru.Chain.{
  Linked, Linked-first, Linked-without, Linked-cons, without, has-without, without-IsNodup,
  has-without_self, without-append, IsNodup-front, has-first, prev_on, next_on, ne_of_has,
}
use nfs_network_file_system.Lru.Cells.{
  node_at-in, next_field, next_of, prev_of, pair_of, InHeap, Relinks, delete_node-Relinks,
  add_node-Relinks,
}
use nfs_network_file_system.Lru.Items.{
  Item, addrs, addr_at, addr_at-on, cut, AllItems, AllDistinct, cut-AllItems, AllItems-map,
  addrs-cut, cut-AllDistinct, addr_at-cut,
}

or_right : (a b : Bool) → (a || b) ≡ false → b ≡ false
or_right true b h = absurd (ground arith)
or_right false b h = h

-- The list, its ends included.
abbrev pub ring : List Item → List ℕ
ring is = head ∷ addrs is ++ tail ∷ []

module _ {Text : Type 0} (mem : Text → CString) where
  -- The node of an item: in the heap, with the item's value and a key whose text is the item's.
  pub record IsStored (nodes : List (Node Text)) (i : Item) : Type 0 where
    pub key : Text
    pub in_heap : InHeap nodes i.addr
    pub pair : pair_of nodes i.addr ≡ some (key, i.val)
    pub texted : (mem key).text ≡ i.text
    pub nonempty : i.text ≢ []

  -- The nodes are linked in the items' order between the two ends, each address once; the map finds
  -- the node of every text.
  pub record IsLinked (nodes : List (Node Text)) (m : Hashmap) (is : List Item) : Type 0 where
    pub linked : Linked (next_of nodes) (prev_of nodes) head (addrs is) tail
    pub nodup : IsNodup (ring is)
    pub roomy : 2 ≤ length nodes
    pub stored : AllItems (IsStored nodes) is
    pub distinct : AllDistinct is
    pub index : IsIndex m (λ t. addr_at t is)

  pub record IsLru (l : Lru Text) (is : List Item) : Type 0 where
    pub list : IsLinked l.nodes l.m is
    pub open list use *
    pub size : l.map_size ≡ length is
    pub fits : length is ≤ l.capacity
    pub positive : 0 < l.capacity

  Relinks-IsStored :
      {nodes nodes' : List (Node Text)} {nx pv : ℕ → ℕ}
      → Relinks nodes nodes' nx pv
      → (i : Item) → IsStored nodes i
      → IsStored nodes' i
  Relinks-IsStored r i s = record {
    key = s.key;
    in_heap = rw r.size s.in_heap;
    pair = r.pairs i.addr ∙ s.pair;
    texted = s.texted;
    nonempty = s.nonempty;
  }

  -- Every address of the list is in the heap.
  stored-in :
      (nodes : List (Node Text)) (is : List Item)
      → AllItems (IsStored nodes) is
      → 2 ≤ length nodes
      → (d : ℕ) → has d (ring is) ≡ true
      → InHeap nodes d
  stored-in nodes [] all r d on = ground arith
  stored-in nodes (i ∷ is) all r d on = elim (Bool-cases (i.addr == d)) [
    | inl same ↦ let e : i.addr ≡ d = ground arith in subst (InHeap nodes) e all.0.in_heap
    | inr other ↦ stored-in nodes is all.1 r d (ground arith)
  ]

  -- A node taken out of the list and out of the map.
  pub record Unlinks (nodes : List (Node Text)) (m : Hashmap) (is : List Item) (q : CString)
      : Type 0 where
    pub nodes' : List (Node Text)
    pub m' : Hashmap
    pub deletes : delete_node nodes (addr_at q.text is) ≡ some nodes'
    pub removes : remove_entry_lr m q ≡ some m'
    pub keeps : IsLinked nodes' m' (cut (addr_at q.text is) is)
    pub size : length nodes' ≡ length nodes
    pub pairs : (x : ℕ) → pair_of nodes' x ≡ pair_of nodes x
    pub free : has (addr_at q.text is) (ring (cut (addr_at q.text is) is)) ≡ false
    pub gone : addr_at q.text (cut (addr_at q.text is) is) ≡ 0

  pub unlink :
      {nodes : List (Node Text)} {m : Hashmap} {is : List Item}
      → IsLinked nodes m is
      → (q : CString) → q.text ≢ []
      → addr_at q.text is ≢ 0
      → Unlinks nodes m is q
  unlink {nodes} {m} {is} h q ne there =
      let d = addr_at q.text is in
      let on = addr_at-on q.text is there in
      let nx = next_of nodes in
      let pv = prev_of nodes in
      let has_d : has d (ring is) ≡ true = ground (arith, has-append d (addrs is) (tail ∷ [])) in
      let before = prev_on nx pv head tail d (addrs is) h.linked on in
      let has_p : has (pv d) (ring is) ≡ true =
        ground (arith, before, has-append (pv d) (addrs is) (tail ∷ [])) in
      let has_n : has (nx d) (ring is) ≡ true =
        ground (arith, next_on nx pv head tail d (addrs is) h.linked on) in
      let inside = stored-in nodes is h.stored h.roomy in
      let (n', run, r) =
        delete_node-Relinks nodes d (inside d has_d) (inside (pv d) has_p) (inside (nx d) has_n) in
      let (m', removed, index) = remove_entry_lr-IsIndex h.index q ne in
      let links =
        Linked-without nx pv (next_of n') (prev_of n') head tail d (addrs is) h.linked h.nodup on
          r.nexts r.prevs in
      let shape : addrs (cut d is) ++ tail ∷ [] ≡ without d (addrs is ++ tail ∷ []) =
        rw (addrs-cut d is) (sym (without-append d (addrs is) (tail ∷ []) on)) in
      let nodup_items = IsNodup-front (addrs is) (tail ∷ []) h.nodup.1 in
      record {
        nodes' = n';
        m' = m';
        deletes = run;
        removes = removed;
        keeps = record {
          linked = rw (addrs-cut d is) links;
          nodup = rw shape (
            has-without head d (addrs is ++ tail ∷ []) h.nodup.0,
            without-IsNodup d (addrs is ++ tail ∷ []) h.nodup.1,
          );
          roomy = rw r.size h.roomy;
          stored =
              cut-AllItems (IsStored n') d is
                (AllItems-map (IsStored nodes) (IsStored n') (Relinks-IsStored r) is h.stored);
          distinct = cut-AllDistinct d is h.distinct;
          index =
              IsIndex-congr (λ t. addr_at t (cut d is)) index
                (λ t _. addr_at-cut q.text t is nodup_items h.distinct there);
        };
        size = r.size;
        pairs = r.pairs;
        free =
            rw
              (
                shape,
                ne_of_has head d (addrs is ++ tail ∷ []) h.nodup.0
                    (ground (arith, has-append d (addrs is) (tail ∷ []))),
              )
              (has-without_self d (addrs is ++ tail ∷ []) h.nodup.1);
        gone =
            addr_at-cut q.text q.text is nodup_items h.distinct there
            ∙ rw (bytes_eq_refl q.text) refl;
      }

  -- A node that is not on the list, in front of it and in the map. The address that the map gets is
  -- read from the head.
  pub record Links (l : Lru Text) (is : List Item) (d : ℕ) (key : Text) (v : ℕ) : Type 0 where
    pub nodes' : List (Node Text)
    pub l' : Lru Text
    pub adds : add_node l.nodes d ≡ some nodes'
    pub sets : set_head mem (record l { nodes = nodes' }) key ≡ some l'
    pub keeps : IsLru l' (record { addr = d; text = (mem key).text; val = v } ∷ is)
    pub kept : l'.capacity ≡ l.capacity

  pub push_front :
      {l : Lru Text} {is : List Item}
      → IsLinked l.nodes l.m is
      → l.map_size ≡ length is
      → length is < l.capacity
      → (d : ℕ) (key own : Text) (v : ℕ) → has d (ring is) ≡ false
      → InHeap l.nodes d
      → pair_of l.nodes d ≡ some (own, v)
      → (mem own).text ≡ (mem key).text
      → (mem key).text ≢ []
      → addr_at (mem key).text is ≡ 0
      → Links l is d key v
  unfolding set_head
  push_front {l} {is} h size room d key own v fresh inside pair same ne absent =
      let nx = next_of l.nodes in
      let pv = prev_of l.nodes in
      let has_head : has head (ring is) ≡ true = ground (arith, ==_refl head) in
      let first = Linked-first nx pv head tail (addrs is) h.linked in
      let has_first : has (nx head) (ring is) ≡ true =
        rw first (ground (arith, has-first tail (addrs is))) in
      let at_home = stored-in l.nodes is h.stored h.roomy in
      let (n', run, r) =
        add_node-Relinks l.nodes d inside (at_home head has_head) (at_home (nx head) has_first) in
      let links =
        Linked-cons nx pv (next_of n') (prev_of n') head tail d (addrs is) h.linked h.nodup fresh
          r.nexts r.prevs in
      let (front, at) = node_at-in n' head (rw r.size (at_home head has_head)) in
      let is_d : front.next ≡ d = sym (ap next_field at) ∙ links.0 in
      let (m', sets, index) = set_value_lr-IsIndex h.index (mem key) ne d in
      record {
        nodes' = n';
        l' = record l { nodes = n'; m = m'; map_size = l.map_size + 1 };
        adds = run;
        sets = ground (arith, at, is_d, sets);
        keeps = record {
          list = record {
            linked = links;
            nodup = (
              ground (arith, h.nodup.0),
              (or_right (head == d) (has d (addrs is ++ tail ∷ [])) fresh, h.nodup.1),
            );
            roomy = rw r.size h.roomy;
            stored = (
              record {
                key = own;
                in_heap = rw r.size inside;
                pair = r.pairs d ∙ pair;
                texted = same;
                nonempty = ne;
              },
              AllItems-map (IsStored l.nodes) (IsStored n') (Relinks-IsStored r) is h.stored,
            );
            distinct = (absent, inside.0, h.distinct);
            index = index;
          };
          size = omega arith;
          fits = omega arith;
          positive = omega arith;
        };
        kept = refl;
      }
