-- ===== src/Graph/Layers.antt =====
-- Execution layers: every node stands in exactly one layer, behind its dependencies.
use mathlib.Core.List.{append-nil, append_assoc}
use text.Mathlib.Text.{is_lt}
use tomei.Base.{
  ℕ, zero, suc, ◌≤◌, ◌<◌, String, ◌≡◌, refl, sym, ap, ◌∙◌, true, false, List, [], ◌∷◌, ◌++◌, Map,
  get_or, keys, count, count-append, IsIn, elem, elem-count, count-elem, pending, pending_mono,
  pending-snoc, ℤ, pos, arith, pending_zero, elem-append, Bool-cases, inl, inr,
}
use tomei.Graph.Dag.{Node, Dag, deps_of}
use tomei.Graph.WellFormed.{IsWellFormed}
use tomei.Graph.Sort.{compare_nodes, insert_node, sort_nodes_by_kind}
use tomei.Graph.Kahn.{layers, run_layers}
use tomei.Graph.Rounds.{ids, ready, IsRound, fresh-head, run_queue_lem}

count-insert_node :
    (x : String) (n : Node) (ns : List Node)
    → count x (ids (insert_node n ns)) ≡ count x (n.id ∷ ids ns)
unfolding insert_node
count-insert_node x n [] = refl
count-insert_node x n (m ∷ ms) = elim (Bool-cases (is_lt (compare_nodes m n))) [
  | inl e ↦ rw e (ground (arith, count-insert_node x n ms))
  | inr e ↦ rw e
]

pub count-sort_nodes_by_kind :
    (x : String) (ns : List Node) → count x (ids (sort_nodes_by_kind ns)) ≡ count x (ids ns)
unfolding sort_nodes_by_kind
count-sort_nodes_by_kind x [] = refl
count-sort_nodes_by_kind x (n ∷ ns) =
    ground (arith, count-insert_node x n (sort_nodes_by_kind ns), count-sort_nodes_by_kind x ns)

-- All identifiers of the layers, in order.
abbrev pub all_ids : List (List Node) → List String
all_ids [] = []
all_ids (l ∷ ls) = ids l ++ all_ids ls

-- Every dependency of a layer's node stands in `before` or in an earlier layer.
abbrev pub IsLayered : (String → List String) → List String → List (List Node) → Type 0
IsLayered deps before [] = Unit
IsLayered deps before (l ∷ ls) =
    ((u v : String) → IsIn u (ids l) → IsIn v (deps u) → IsIn v before)
    × IsLayered deps (before ++ ids l) ls

module _ (g : Dag) where
  SameNames : List String → List String → Type 0
  SameNames a b = (x : String) → count x a ≡ count x b

  elem-same : (a b : List String) → SameNames a b → (x : String) → elem x a ≡ true → elem x b ≡ true
  unfolding SameNames
  elem-same a b h x e = count-elem x b (omega (arith, h x, elem-count x a e))

  pending-same :
      (a b : List String) → SameNames a b → (ds : List String) → pending a ds ≡ pending b ds
  unfolding SameNames
  pending-same a b h ds =
      let le = pending_mono a b ds (elem-same a b h) in
      let ge = pending_mono b a ds (elem-same b a (λ x. sym (h x))) in omega arith

  IsRound-same :
      (a b queue next : List String) (degrees : Map ℤ)
      → SameNames a b
      → IsRound g a queue next degrees
      → IsRound g b queue next degrees
  unfolding SameNames
  IsRound-same a b queue next degrees h inv = record {
    open_deps = λ v. inv.open_deps v ∙ ap pos (pending-same a b h (deps_of g v));
    queued = λ v. ground (arith, h v, inv.queued v, pending-same a b h (deps_of g v));
  }

  -- The next queue becomes the queue.
  IsRound-next :
      (done next : List String) (degrees : Map ℤ)
      → IsRound g done [] next degrees
      → IsRound g done next [] degrees
  IsRound-next done next degrees inv = record {
    open_deps = inv.open_deps;
    queued = λ v. omega (arith, inv.queued v);
  }

  layer-same :
      (done queue : List String) (ns : List Node)
      → ids ns ≡ queue
      → SameNames (done ++ queue) (done ++ ids (sort_nodes_by_kind ns))
  unfolding SameNames
  layer-same done queue ns names x = omega (
    arith,
    count-append x done queue,
    count-append x done (ids (sort_nodes_by_kind ns)),
    count-sort_nodes_by_kind x ns,
    ap (count x) names,
  )

  -- A round with a queue leaves fewer nodes open.
  pending-queue :
      (done queue : List String) (id : String)
      → elem id done ≡ false
      → IsIn id (keys g.nodes)
      → pending (done ++ (id ∷ queue)) (keys g.nodes) < pending done (keys g.nodes)
  pending-queue done queue id new known =
      let mono =
        pending_mono (done ++ id ∷ []) (done ++ (id ∷ queue)) (keys g.nodes)
          (λ x. ground (arith, elem-append x done (id ∷ []), elem-append x done (id ∷ queue))) in
      omega (arith, pending-snoc done id (keys g.nodes) new)

  layer-behind :
      (done queue : List String) (degrees : Map ℤ)
      → IsRound g done queue [] degrees
      → (u v : String) → IsIn u queue
      → IsIn v (deps_of g u)
      → IsIn v done
  layer-behind done queue degrees inv u v m dep =
      pending_zero done (deps_of g u) v (ground (arith, inv.queued u)) dep

  module _ (wf : IsWellFormed g) (rev : Map (List String))
      (reversed : (v d : String) → count v (get_or [] d rev) ≡ count d (deps_of g v)) where
    pub run_layers_lem :
        (fuel : ℕ) (queue done : List String) (degrees : Map ℤ) (acc : List (List Node))
        → IsRound g done queue [] degrees
        → pending done (keys g.nodes) ≤ fuel
        → (ls : List (List Node)) × (run_layers fuel g.nodes rev queue degrees acc
            ≡ layers (acc ++ ls))
          × IsLayered (deps_of g) done ls
          × ((v : String) → count v (done ++ all_ids ls) ≡ ready g (done ++ all_ids ls) v)
    unfolding run_layers
    run_layers_lem fuel [] done degrees acc inv room =
        ([], rw append-nil refl, tt, λ v. rw (append-nil done) (omega (arith, inv.queued v)))
    run_layers_lem zero (id ∷ queue) done degrees acc inv room =
        let (new, known, free) = fresh-head g wf rev reversed done queue [] degrees id inv in
        let there =
          pending_zero done (keys g.nodes) id (omega arith) (elem-count id (keys g.nodes) known) in
        absurd (ground (arith, count-elem id done))
    run_layers_lem (suc fuel) (id ∷ queue) done degrees acc inv room =
        let (new, known, free) = fresh-head g wf rev reversed done queue [] degrees id inv in
        let (ns, degrees', next, run, names, inv') =
          run_queue_lem g wf rev reversed (id ∷ queue) done [] degrees [] inv in
        let layer = sort_nodes_by_kind ns in
        let (ls, run', layered, full) =
          run_layers_lem fuel next (done ++ ids layer) degrees' (acc ++ layer ∷ [])
            (IsRound-next _ next degrees' (
              IsRound-same (done ++ (id ∷ queue)) (done ++ ids layer) [] next degrees'
                (layer-same done (id ∷ queue) ns names) inv'))
            (omega (
              arith,
              pending-same (done ++ (id ∷ queue)) (done ++ ids layer)
                  (layer-same done (id ∷ queue) ns names) (keys g.nodes),
              pending-queue done queue id new (elem-count id (keys g.nodes) known),
            )) in
        (
          layer ∷ ls,
          rw (run, run_layers) (run' ∙ ap layers (append_assoc acc (layer ∷ []) ls)),
          (
            λ u v m dep.
                layer-behind done (id ∷ queue) degrees inv u v
                  (omega (arith, count-sort_nodes_by_kind u ns, ap (count u) names)) dep,
            layered,
          ),
          rw (append_assoc done (ids layer) (all_ids ls)) at full,
        )
