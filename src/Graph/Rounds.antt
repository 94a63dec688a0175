-- ===== src/Graph/Rounds.antt =====
-- The rounds of Kahn's algorithm keep one invariant: the degrees count the dependencies that are
-- still open, and the queue holds the nodes that have none.
use mathlib.Core.Path.{ap₂}
use mathlib.Core.List.{append-nil, append_assoc}
use tomei.Base.{
  ℕ, ◌+◌, ◌≤◌, ◌<◌, String, ◌≡◌, refl, sym, ap, ◌∙◌, subst, true, false, ◌&&◌, some, List, [], ◌∷◌,
  ◌++◌, Map, get_or, keys, count, count-append, elem, elem-count, count-elem, pending, pending-snoc,
  eqb, ℤ, pos, arith, eq_iff, if◌then◌else◌, has-of_count, has-lookup,
}
use tomei.Graph.Dag.{Node, Dag, deps_of}
use tomei.Graph.WellFormed.{IsWellFormed}
use tomei.Graph.Kahn.{release, run_queue}
use tomei.Graph.Release.{release_lem, hit}

abbrev pub ids : List Node → List String
ids [] = []
ids (n ∷ ns) = n.id ∷ ids ns

module _ (g : Dag) where
  -- 1 for a node whose dependencies are all in `done`.
  abbrev pub ready : List String → String → ℕ
  ready done v = if elem v (keys g.nodes) && eqb (pending done (deps_of g v)) 0 then 1 else 0

  pub record IsRound (done queue next : List String) (degrees : Map ℤ) : Type 0 where
    pub open_deps : (v : String) → get_or (pos 0) v degrees ≡ pos (pending done (deps_of g v))
    pub queued : (v : String) → count v done + count v queue + count v next ≡ ready done v

  module _ (wf : IsWellFormed g) (rev : Map (List String))
      (reversed : (v d : String) → count v (get_or [] d rev) ≡ count d (deps_of g v)) where
    pub fresh-head :
        (done queue next : List String) (degrees : Map ℤ) (id : String)
        → IsRound done (id ∷ queue) next degrees
        → (elem id done ≡ false)
          × (elem id (keys g.nodes) ≡ true)
          × (pending done (deps_of g id) ≡ 0)
    fresh-head done queue next degrees id inv =
        ground (arith, inv.queued id, eq_iff id id, elem-count id done)

    count-dep-le :
        (done : List String) (id v : String)
        → elem id done ≡ false
        → count id (deps_of g v) ≤ pending done (deps_of g v)
    count-dep-le done id v h = omega (arith, pending-snoc done id (deps_of g v) h)

    ready-step :
        (done : List String) (id v : String)
        → elem id done ≡ false
        → ready (done ++ id ∷ []) v
          ≡ ready done v + hit (count v (get_or [] id rev)) (pending done (deps_of g v))
    ready-step done id v h =
        let steps = pending-snoc done id (deps_of g v) h in
        let src = known v id in ground (arith, steps, reversed v id, src)
      where
        known : (u d : String) → 0 < count d (deps_of g u) → elem u (keys g.nodes) ≡ true
        known u d e = count-elem u (keys g.nodes) (wf.sources u d e)

    IsRound-release :
        (done queue next : List String) (degrees : Map ℤ) (id : String)
        → IsRound done (id ∷ queue) next degrees
        → IsRound
            (done ++ id ∷ [])
            queue
            (release (get_or [] id rev) degrees next).1
            (release (get_or [] id rev) degrees next).0
    IsRound-release done queue next degrees id inv =
        let (new, known, free) = fresh-head done queue next degrees id inv in
        let (falls, hits) =
          release_lem (get_or [] id rev) degrees next (λ v. pending done (deps_of g v))
            inv.open_deps (λ v. omega (arith, reversed v id, count-dep-le done id v new)) in
        record {
          open_deps = λ v.
              falls v
              ∙ ap pos (omega (arith, reversed v id, pending-snoc done id (deps_of g v) new));
          queued = λ v. ground (
            arith,
            hits v,
            inv.queued v,
            ready-step done id v new,
            count-append v done (id ∷ []),
          );
        }

    -- One round turns the queue into a layer, in order, and leaves the next queue.
    pub run_queue_lem :
        (queue done next : List String) (degrees : Map ℤ) (layer : List Node)
        → IsRound done queue next degrees
        → (ns : List Node) × (degrees' : Map ℤ) × (next' : List String) × (run_queue g.nodes rev
              queue degrees next layer
            ≡ some (layer ++ ns, degrees', next'))
          × (ids ns ≡ queue)
          × IsRound (done ++ queue) [] next' degrees'
    unfolding run_queue
    run_queue_lem [] done next degrees layer inv = (
      [],
      degrees,
      next,
      rw append-nil refl,
      refl,
      subst (λ l. IsRound l [] next degrees) (sym (append-nil done)) inv,
    )
    run_queue_lem (id ∷ queue) done next degrees layer inv =
        let (new, known, free) = fresh-head done queue next degrees id inv in
        let (node, e) =
          has-lookup id g.nodes (has-of_count id g.nodes (elem-count id (keys g.nodes) known)) in
        let (ns, degrees', next', run, names, inv') =
          run_queue_lem queue (done ++ id ∷ []) (release (get_or [] id rev) degrees next).1
            (release (get_or [] id rev) degrees next).0 (layer ++ node ∷ [])
            (IsRound-release done queue next degrees id inv) in
        (
          node ∷ ns,
          degrees',
          next',
          rw (e, run_queue)
              (run ∙ ap (λ l. some (l, degrees', next')) (append_assoc layer (node ∷ []) ns)),
          ap₂ ◌∷◌ (wf.ids id node e) names,
          subst (λ l. IsRound l [] next' degrees') (append_assoc done (id ∷ []) queue) inv',
        )
