-- ===== src/Schedule/Start.antt =====
-- How the workers of a layer's tool nodes start (partitionToolsByDelegation of
-- internal/installer/engine/engine.go): with a delegation key for each group.
use tomei.Base.{
  ◌≤◌, String, ◌≡◌, refl, sym, ap, ◌∙◌, subst, List, [], ◌∷◌, ◌++◌, Map, get_or, put, keys, count,
  count-keys-put, count_of_missing, get_or-put, RangeOrder, arith, ◌==◌, eq_iff, Bool-cases, ◌⊎◌,
  inl, inr,
}
use tomei.Resource.Tool.{ToolState, is_empty}
use tomei.Resource.All.{Resource}
use tomei.Graph.Dag.{Node}
use tomei.Engine.Node.{Run, done, panicked}
use tomei.Schedule.Defs.{Worker, jobs_of}
use tomei.Schedule.Apart.{All, All-map, All-append, Far, Apart}
use tomei.Schedule.Locals.{KeyClash}
use tomei.Schedule.Delegation.{
  key_of_node, add_to_group, split_nodes, insert_key, sort_keys, groups_of,
  partition_tools_by_delegation, single_workers, group_workers, start_workers,
}

count-insert_key : (x k : String) (ks : List String) → count x (insert_key k ks) ≡ count x (k ∷ ks)
unfolding insert_key
count-insert_key x k [] = refl
count-insert_key x k (j ∷ ks) = ground (arith, count-insert_key x k ks)

pub count-sort_keys : (x : String) (ks : List String) → count x (sort_keys ks) ≡ count x ks
unfolding sort_keys
count-sort_keys x [] = refl
count-sort_keys x (k ∷ ks) =
    ground (arith, count-insert_key x k (sort_keys ks), count-sort_keys x ks)

abbrev key_or : Run String → String
key_or (done k) = k
key_or panicked = ""

pub run_cases : {A : Type 0} (x : Run A) → ((a : A) × (x ≡ done a)) ⊎ (x ≡ panicked)
run_cases (done a) = inl (a, refl)
run_cases panicked = inr refl

done_or : {A : Type 0} → A → Run A → A
done_or d (done a) = a
done_or d panicked = d

pub done-injective : {A : Type 0} {a b : A} → done a ≡ done b → a ≡ b
unfolding done_or
done-injective {A} {a} e = ap (done_or a) e

pub panicked_not_done : {A : Type 0} {a : A} → ¬ (panicked ≡ done a)
panicked_not_done e = cc

module _ (resource_map : Map Resource) where
  -- The delegation key of a node, `""` where it has none.
  unfoldable pub node_key : Node → String
  unfolding key_of_node
  node_key node = key_or (key_of_node resource_map node)

  node_key_of : (n : Node) (k : String) → key_of_node resource_map n ≡ done k → node_key n ≡ k
  unfolding node_key
  node_key_of n k e = ap key_or e

  -- What the loop has collected: downloads have no key, a group's nodes have its key, and no group
  -- is keyed twice.
  pub record IsGrouped (acc : List Node × Map (List Node)) : Type 0 where
    pub downloads : All (λ n. node_key n ≡ "") acc.0
    pub members : (k : String) → All (λ n. node_key n ≡ k) (get_or [] k acc.1)
    pub once : (k : String) → count k (keys acc.1) ≤ 1
    pub named : count "" (keys acc.1) ≡ 0

  members_put :
      (key k : String) (node : Node) (groups : Map (List Node))
      → node_key node ≡ key
      → ((k : String) → All (λ n. node_key n ≡ k) (get_or [] k groups))
      → All (λ n. node_key n ≡ k) (get_or [] k (put key (get_or [] key groups ++ node ∷ []) groups))
  members_put key k node groups e h = elim (Bool-cases (key == k)) [
    | inl b ↦
        rw (get_or-put [] key k (get_or [] key groups ++ node ∷ []) groups, b)
          (subst (λ j. All (λ n. node_key n ≡ j) (get_or [] key groups ++ node ∷ []))
            ((eq_iff key k).0 b)
            (All-append (λ n. node_key n ≡ key) (get_or [] key groups) (node ∷ []) (h key) (e, tt)))
    | inr b ↦ rw (get_or-put [] key k (get_or [] key groups ++ node ∷ []) groups, b) (h k)
  ]

  IsGrouped-add_to_group :
      (key : String) (node : Node) (ds : List Node) (gs : Map (List Node))
      → node_key node ≡ key
      → IsGrouped (ds, gs)
      → IsGrouped (add_to_group key node (ds, gs))
  IsGrouped-add_to_group key node ds gs e h = elim (Bool-cases (is_empty key)) [
    | inl b ↦ subst IsGrouped (sym (rw b refl)) (record {
      downloads =
          All-append (λ n. node_key n ≡ "") ds (node ∷ []) h.downloads
            (e ∙ (eq_iff key "").0 b, tt);
      members = h.members;
      once = h.once;
      named = h.named;
    })
    | inr b ↦ subst IsGrouped (sym (rw b refl)) (record {
      downloads = h.downloads;
      members = λ k. members_put key k node gs e h.members;
      once = λ k. ground (
        arith,
        count-keys-put key k (get_or [] key gs ++ node ∷ []) gs,
        h.once k,
        eq_iff key k,
        count_of_missing key gs,
      );
      named = ground (
        arith,
        count-keys-put key "" (get_or [] key gs ++ node ∷ []) gs,
        h.named,
        eq_iff key "",
        b,
      );
    })
  ]

  pub split_nodes-IsGrouped :
      (nodes : List Node) (acc acc' : List Node × Map (List Node))
      → split_nodes resource_map nodes acc ≡ done acc'
      → IsGrouped acc
      → IsGrouped acc'
  unfolding split_nodes
  split_nodes-IsGrouped [] acc acc' e h = subst IsGrouped (done-injective e) h
  split_nodes-IsGrouped (n ∷ nodes) acc acc' e h = elim (run_cases (key_of_node resource_map n)) [
    | inl (k, b) ↦
        split_nodes-IsGrouped nodes (add_to_group k n acc) acc' (rw (split_nodes, b) at e)
          (IsGrouped-add_to_group k n acc.0 acc.1 (node_key_of n k b) h)
    | inr b ↦ absurd (panicked_not_done (rw (split_nodes, b) at e))
  ]

  pub IsGrouped-nil : IsGrouped ([], [])
  IsGrouped-nil = record {
    downloads = tt;
    members = λ k. tt;
    once = λ k. omega arith;
    named = refl;
  }

  different_keys_clear :
      (j k : String) (xs ys : List Node)
      → ¬ (j ≡ k)
      → All (λ n. node_key n ≡ j) xs
      → All (λ n. node_key n ≡ k) ys
      → Far (KeyClash node_key) xs ys
  different_keys_clear j k [] ys d h h' = tt
  different_keys_clear j k (x ∷ xs) ys d h h' = (
    All-map (λ n. node_key n ≡ k) (λ n. ¬ KeyClash node_key x n) ys (λ n b c. d (sym h.0 ∙ c.0 ∙ b))
        h',
    different_keys_clear j k xs ys d h.1 h',
  )

  groups_clear :
      (j : String) (xs : List Node) (gs : Map (List Node)) (ks : List String)
      → count j ks ≡ 0
      → All (λ n. node_key n ≡ j) xs
      → ((k : String) → All (λ n. node_key n ≡ k) (get_or [] k gs))
      → All
          (λ (v : Worker Node ToolState). Far (KeyClash node_key) xs (jobs_of v))
          (group_workers (groups_of gs ks))
  groups_clear j xs gs [] c h m = tt
  groups_clear j xs gs (k ∷ ks) c h m = (
    different_keys_clear j k xs (get_or [] k gs) (ground (arith, eq_iff k j)) h (m k),
    groups_clear j xs gs ks (ground (arith)) h m,
  )

  groups_apart :
      (gs : Map (List Node)) (ks : List String)
      → ((k : String) → count k ks ≤ 1)
      → ((k : String) → All (λ n. node_key n ≡ k) (get_or [] k gs))
      → Apart (KeyClash node_key) (group_workers (groups_of gs ks))
  groups_apart gs [] c m = tt
  groups_apart gs (k ∷ ks) c m = (
    groups_clear k (get_or [] k gs) gs ks (ground (arith, c k, eq_iff k k)) (m k) m,
    groups_apart gs ks (λ j. ground (arith, c j)) m,
  )

  -- A node without a key clashes with no other.
  free_node_clear :
      (d : Node) (ys : List Node) → node_key d ≡ "" → All (λ j. ¬ KeyClash node_key d j) ys
  free_node_clear d [] e = tt
  free_node_clear d (y ∷ ys) e = (λ c. c.1 e, free_node_clear d ys e)

  free_nodes_clear :
      (d : Node) (ws : List (Worker Node ToolState))
      → node_key d ≡ ""
      → All (λ v. Far (KeyClash node_key) (d ∷ []) (jobs_of v)) ws
  free_nodes_clear d [] e = tt
  free_nodes_clear d (w ∷ ws) e = ((free_node_clear d (jobs_of w) e, tt), free_nodes_clear d ws e)

  singles_apart :
      (ds : List Node) (ws : List (Worker Node ToolState))
      → All (λ n. node_key n ≡ "") ds
      → Apart (KeyClash node_key) ws
      → Apart (KeyClash node_key) (single_workers ds ws)
  singles_apart [] ws h a = a
  singles_apart (d ∷ ds) ws h a =
      (free_nodes_clear d (single_workers ds ws) h.0, singles_apart ds ws h.1 a)

  -- The workers that a partition starts share no delegation key.
  pub start_workers-Apart :
      (r : RangeOrder) (nodes : List Node) (p : List Node × List (List Node))
      → partition_tools_by_delegation r resource_map nodes ≡ done p
      → Apart (KeyClash node_key) (start_workers p)
  unfolding partition_tools_by_delegation start_workers
  start_workers-Apart r nodes p e = elim (run_cases (split_nodes resource_map nodes ([], []))) [
    | inl (acc, b) ↦
        let g = split_nodes-IsGrouped nodes ([], []) acc b IsGrouped-nil in
        let ks = sort_keys (keys (r.range (List Node) acc.1)) in
        subst (λ q. Apart (KeyClash node_key) (start_workers q))
          (done-injective (rw (partition_tools_by_delegation, b) at e))
          (singles_apart acc.0 (group_workers (groups_of acc.1 ks)) g.downloads (
            groups_apart acc.1 ks
              (λ k. ground (
                arith,
                count-sort_keys k (keys (r.range (List Node) acc.1)),
                r.count_range (List Node) acc.1 k,
                g.once k,
              ))
              g.members))
    | inr b ↦ absurd (panicked_not_done (rw (partition_tools_by_delegation, b) at e))
  ]
