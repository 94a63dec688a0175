-- ===== src/Schedule/Names.antt =====
-- The nodes that the workers start with are the nodes of the layer, each once
-- (partitionToolsByDelegation of internal/installer/engine/engine.go).
use tomei.Base.{
  ℕ, ◌+◌, String, ◌≡◌, refl, sym, ap, ◌∙◌, subst, true, false, List, [], ◌∷◌, ◌++◌, Map, get_or,
  put, keys, count, get_or-put, has-put, has-count, has, RangeOrder, arith, ◌==◌, eq_iff,
  Bool-cases, inl, inr,
}
use tomei.Resource.Tool.{ToolState, is_empty}
use tomei.Resource.All.{Resource}
use tomei.Graph.Dag.{Node}
use tomei.Engine.Node.{done}
use tomei.Schedule.Defs.{Worker, jobs_of}
use tomei.Schedule.Start.{
  run_cases, done-injective, panicked_not_done, split_nodes-IsGrouped, IsGrouped-nil,
  count-sort_keys,
}
use tomei.Schedule.Delegation.{
  key_of_node, add_to_group, split_nodes, sort_keys, groups_of, partition_tools_by_delegation,
  single_workers, group_workers, start_workers,
}

-- All nodes of the workers, in the workers' order.
abbrev pub all_jobs : List (Worker Node ToolState) → List Node
all_jobs [] = []
all_jobs (w ∷ ws) = jobs_of w ++ all_jobs ws

module _ (f : Node → String) where
  abbrev pub texts : List Node → List String
  texts [] = []
  texts (n ∷ ns) = f n ∷ texts ns

  pub texts-append :
      (x : String) (xs ys : List Node)
      → count x (texts (xs ++ ys)) ≡ count x (texts xs) + count x (texts ys)
  texts-append x [] ys = omega arith
  texts-append x (n ∷ xs) ys = ground (arith, texts-append x xs ys)

  abbrev in_groups : String → Map (List Node) → List String → ℕ
  in_groups x gs [] = 0
  in_groups x gs (k ∷ ks) = count x (texts (get_or [] k gs)) + in_groups x gs ks

  in_groups_other :
      (x key : String) (v : List Node) (gs : Map (List Node)) (ks : List String)
      → count key ks ≡ 0
      → in_groups x (put key v gs) ks ≡ in_groups x gs ks
  in_groups_other x key v gs [] h = refl
  in_groups_other x key v gs (k ∷ ks) h = elim (Bool-cases (key == k)) [
    | inl b ↦ absurd (ground (arith, eq_iff key k, eq_iff k key))
    | inr b ↦
        rw (get_or-put [] key k v gs, b)
          (ap (λ n. count x (texts (get_or [] k gs)) + n)
            (in_groups_other x key v gs ks (ground arith)))
  ]

  in_groups_more :
      (x key : String) (n : Node) (gs : Map (List Node)) (ks : List String)
      → count key ks ≡ 1
      → in_groups x (put key (get_or [] key gs ++ n ∷ []) gs) ks
        ≡ in_groups x gs ks + count x (f n ∷ [])
  in_groups_more x key n gs [] h = absurd (omega arith)
  in_groups_more x key n gs (k ∷ ks) h = elim (Bool-cases (key == k)) [
    | inl b ↦
        rw
          (
            get_or-put [] key k (get_or [] key gs ++ n ∷ []) gs,
            b,
            in_groups_other x key (get_or [] key gs ++ n ∷ []) gs ks
                (ground (arith, eq_iff key k, eq_iff k key)),
          )
          (omega (
            arith,
            texts-append x (get_or [] key gs) (n ∷ []),
            ap (λ j. count x (texts (get_or [] j gs))) ((eq_iff key k).0 b),
          ))
    | inr b ↦
        rw (get_or-put [] key k (get_or [] key gs ++ n ∷ []) gs, b)
          (omega (arith, in_groups_more x key n gs ks (ground (arith, eq_iff key k, eq_iff k key))))
  ]

  in_no_groups : (x : String) (ks : List String) → in_groups x [] ks ≡ 0
  in_no_groups x [] = refl
  in_no_groups x (k ∷ ks) = omega (arith, in_no_groups x ks)

  module _ (resource_map : Map Resource) where
    added_count :
        (x key : String) (n : Node) (ds : List Node) (gs : Map (List Node)) (ks : List String)
        → (is_empty key ≡ false → count key ks ≡ 1)
        → let acc = add_to_group key n (ds, gs) in
          count x (texts acc.0) + in_groups x acc.1 ks
          ≡ count x (texts ds) + in_groups x gs ks + count x (f n ∷ [])
    added_count x key n ds gs ks h = elim (Bool-cases (is_empty key)) [
      | inl b ↦ rw b (omega (arith, texts-append x ds (n ∷ [])))
      | inr b ↦ rw b (omega (arith, in_groups_more x key n gs ks (h b)))
    ]

    kept_key :
        (k key : String) (n : Node) (ds : List Node) (gs : Map (List Node))
        → has k gs ≡ true
        → has k (add_to_group key n (ds, gs)).1 ≡ true
    kept_key k key n ds gs h = ground (arith, has-put key k (get_or [] key gs ++ n ∷ []) gs)

    new_key :
        (key : String) (n : Node) (ds : List Node) (gs : Map (List Node))
        → is_empty key ≡ false
        → has key (add_to_group key n (ds, gs)).1 ≡ true
    new_key key n ds gs h =
        ground (arith, eq_iff key key, has-put key key (get_or [] key gs ++ n ∷ []) gs)

    split_nodes_keeps :
        (nodes : List Node) (acc acc' : List Node × Map (List Node)) (k : String)
        → split_nodes resource_map nodes acc ≡ done acc'
        → has k acc.1 ≡ true
        → has k acc'.1 ≡ true
    unfolding split_nodes
    split_nodes_keeps [] acc acc' k e h = ap (λ a. has k a.1) (sym (done-injective e)) ∙ h
    split_nodes_keeps (n ∷ nodes) acc acc' k e h = elim (run_cases (key_of_node resource_map n)) [
      | inl (key, b) ↦
          split_nodes_keeps nodes (add_to_group key n acc) acc' k (rw (split_nodes, b) at e)
            (kept_key k key n acc.0 acc.1 h)
      | inr b ↦ absurd (panicked_not_done (rw (split_nodes, b) at e))
    ]

    split_nodes-count :
        (x : String) (nodes : List Node) (acc acc' : List Node × Map (List Node)) (ks : List String)
        → ((k : String) → has k acc'.1 ≡ true → count k ks ≡ 1)
        → split_nodes resource_map nodes acc ≡ done acc'
        → count x (texts acc'.0) + in_groups x acc'.1 ks
          ≡ count x (texts acc.0) + in_groups x acc.1 ks + count x (texts nodes)
    unfolding split_nodes
    split_nodes-count x [] acc acc' ks h e = omega (
      arith,
      ap (λ (a : List Node × Map (List Node)). count x (texts a.0) + in_groups x a.1 ks)
          (done-injective e),
    )
    split_nodes-count x (n ∷ nodes) acc acc' ks h e =
        elim (run_cases (key_of_node resource_map n)) [
          | inl (key, b) ↦
              let rest = rw (split_nodes, b) at e in
              ground (
                arith,
                split_nodes-count x nodes (add_to_group key n acc) acc' ks h rest,
                added_count x key n acc.0 acc.1 ks (λ c. h key (
                    split_nodes_keeps nodes (add_to_group key n acc) acc' key rest
                      (new_key key n acc.0 acc.1 c))),
              )
          | inr b ↦ absurd (panicked_not_done (rw (split_nodes, b) at e))
        ]

  count_of_groups :
      (x : String) (gs : Map (List Node)) (ks : List String)
      → count x (texts (all_jobs (group_workers (groups_of gs ks)))) ≡ in_groups x gs ks
  count_of_groups x gs [] = refl
  count_of_groups x gs (k ∷ ks) = omega (
    arith,
    texts-append x (get_or [] k gs) (all_jobs (group_workers (groups_of gs ks))),
    count_of_groups x gs ks,
  )

  count_of_singles :
      (x : String) (ds : List Node) (ws : List (Worker Node ToolState))
      → count x (texts (all_jobs (single_workers ds ws)))
        ≡ count x (texts ds) + count x (texts (all_jobs ws))
  count_of_singles x [] ws = omega arith
  count_of_singles x (d ∷ ds) ws = ground (arith, count_of_singles x ds ws)

  -- The workers of a partition hold the nodes of the layer, each as often as the layer does.
  pub start_workers-count :
      (r : RangeOrder) (resource_map : Map Resource) (nodes : List Node)
      (p : List Node × List (List Node)) (x : String)
      → partition_tools_by_delegation r resource_map nodes ≡ done p
      → count x (texts (all_jobs (start_workers p))) ≡ count x (texts nodes)
  unfolding partition_tools_by_delegation start_workers
  start_workers-count r m nodes p x e = elim (run_cases (split_nodes m nodes ([], []))) [
    | inl (acc, b) ↦
        let g = split_nodes-IsGrouped m nodes ([], []) acc b (IsGrouped-nil m) in
        let ks = sort_keys (keys (r.range (List Node) acc.1)) in
        subst (λ q. count x (texts (all_jobs (start_workers q))) ≡ count x (texts nodes))
          (done-injective (rw (partition_tools_by_delegation, b) at e))
          (omega (
            arith,
            count_of_singles x acc.0 (group_workers (groups_of acc.1 ks)),
            count_of_groups x acc.1 ks,
            in_no_groups x ks,
            split_nodes-count m x nodes ([], []) acc ks
                (λ k h. ground (
                  arith,
                  count-sort_keys k (keys (r.range (List Node) acc.1)),
                  r.count_range (List Node) acc.1 k,
                  g.once k,
                  has-count k acc.1 h,
                ))
                b,
          ))
    | inr b ↦ absurd (panicked_not_done (rw (partition_tools_by_delegation, b) at e))
  ]
