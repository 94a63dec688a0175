-- ===== src/Graph/Cycle.antt =====
-- `detectCycle` decides whether the dependency graph has a cycle.
use tomei.Base.{
  sym, ◌∙◌, ℕ, zero, suc, ◌+◌, ◌≤◌, String, ◌≡◌, refl, true, false, List, [], ◌∷◌, ◌++◌, length,
  get_or, put, Map, get_or-put, IsIn, elem, pending, pending_zero, pending-cons, pending_mono,
  elem-append, count-elem, arith, eq_iff, if◌then◌else◌, inl, inr, ◌⊎◌,
}
use tomei.Graph.Dfs.{
  Color, white, gray, black, Search, Visit, found, clear, out_of_fuel, and_then, visit_deps, dfs,
}
use tomei.Graph.Walk.{IsCycle, Chain, cycle_path-IsCycle}

pub Color-cases : (c : Color) → (c ≡ white) ⊎ (c ≡ gray) ⊎ (c ≡ black)
Color-cases white = inl refl
Color-cases gray = inr (inl refl)
Color-cases black = inr (inr refl)

-- The colour of `x` when `stack` is being visited and `order` is finished.
abbrev pub expected : List String → List String → String → Color
expected stack order x = if elem x stack then gray else if elem x order then black else white

module _ (stack order : List String) (x : String) where
  pub expected-white :
      expected stack order x ≡ white → (elem x stack ≡ false) × (elem x order ≡ false)
  expected-white h = ground arith

  pub expected-gray : expected stack order x ≡ gray → elem x stack ≡ true
  expected-gray h = ground arith

  pub expected-black : expected stack order x ≡ black → elem x order ≡ true
  expected-black h = ground arith

cover_next :
    (c d : String) (rest order done : List String)
    → elem d done ≡ true
    → ((x : String) → elem x order ≡ true → elem x done ≡ true)
    → IsIn c (d ∷ rest) ⊎ (elem c order ≡ true)
    → IsIn c rest ⊎ (elem c done ≡ true)
cover_next c d rest order done h more (inr e) = inr (more c e)
cover_next c d rest order done h more (inl e) = ground (arith, eq_iff d c)

pending_stack :
    (stack order done names : List String)
    → ((x : String) → elem x order ≡ true → elem x done ≡ true)
    → pending (stack ++ done) names ≤ pending (stack ++ order) names
pending_stack stack order done names more =
    pending_mono (stack ++ order) (stack ++ done) names
      λ x h. ground (arith, elem-append x stack order, elem-append x stack done, more x)

module _ (deps : String → List String) where
  -- Each name stands behind its dependencies: a dependency order, the last name first.
  abbrev pub IsOrdered : List String → Type 0
  IsOrdered [] = Unit
  IsOrdered (x ∷ xs) = ((d : String) → IsIn d (deps x) → elem d xs ≡ true) × IsOrdered xs

  pub record Sim (stack order : List String) (s : Search) : Type 0 where
    pub colors : (x : String) → get_or white x s.color ≡ expected stack order x
    pub chain : Chain deps s.parent stack
    pub ordered : IsOrdered order

  abbrev pub Post : List String → List String → String → Visit → Type 0
  Post stack order node (found path) = IsCycle deps path
  Post stack order node (clear s) =
      (done : List String) × Sim stack done s
      × (elem node done ≡ true)
      × ((x : String) → elem x order ≡ true → elem x done ≡ true)
  Post stack order node out_of_fuel = ⊥

  Chain-tail :
      (parent : Map String) (x : String) (xs : List String)
      → Chain deps parent (x ∷ xs)
      → Chain deps parent xs
  Chain-tail parent x [] c = tt
  Chain-tail parent x (y ∷ ys) c = c.2

  -- A new parent of a node outside the stack leaves the chain as it is.
  Chain-put :
      (parent : Map String) (d node : String) (xs : List String)
      → elem d xs ≡ false
      → Chain deps parent xs
      → Chain deps (put d node parent) xs
  Chain-put parent d node [] h c = tt
  Chain-put parent d node (x ∷ []) h c = tt
  Chain-put parent d node (x ∷ y ∷ ys) h c = (
    ground (arith, get_or-put "" d x node parent, eq_iff x d, eq_iff d x),
    c.1,
    Chain-put parent d node (y ∷ ys) (ground arith) c.2,
  )

  Chain-push :
      (parent : Map String) (d node : String) (stack : List String)
      → elem d (node ∷ stack) ≡ false
      → IsIn d (deps node)
      → Chain deps parent (node ∷ stack)
      → Chain deps (put d node parent) (d ∷ node ∷ stack)
  Chain-push parent d node stack out edge c = (
    ground (arith, get_or-put "" d d node parent, eq_iff d d),
    edge,
    Chain-put parent d node (node ∷ stack) out c,
  )

  pub Post-weaken :
      (stack order done : List String) (node : String) (v : Visit)
      → ((x : String) → elem x order ≡ true → elem x done ≡ true)
      → Post stack done node v
      → Post stack order node v
  Post-weaken stack order done node (found c) h p = p
  Post-weaken stack order done node (clear s) h p = (p.0, p.1, p.2, λ x e. p.3 x (h x e))
  Post-weaken stack order done node out_of_fuel h p = p

  Post-and_then :
      (stack order : List String) (d node : String) (v : Visit) (rest : Search → Visit)
      (stk : List String)
      → Post stack order d v
      → ((t : Search) (done : List String)
          → Sim stack done t
          → elem d done ≡ true
          → ((x : String) → elem x order ≡ true → elem x done ≡ true)
          → Post stk done node (rest t))
      → Post stk order node (and_then v rest)
  Post-and_then stack order d node (found c) rest stk p k = p
  Post-and_then stack order d node (clear t) rest stk p k =
      Post-weaken stk order p.0 node (rest t) p.3 (k t p.0 p.1 p.2 p.3)
  Post-and_then stack order d node out_of_fuel rest stk p k = p

  module _ (size : ℕ) (names : List String) where
    -- What a visit of an unvisited node promises, with `fuel` nested visits left.
    abbrev pub Visits : ℕ → (String → Search → Visit) → Type 0
    Visits fuel visit =
        (node : String) (stack order : List String) (s : Search)
        → ((x : String) → get_or white x s.color ≡ expected stack order x)
        → Chain deps s.parent (node ∷ stack)
        → IsOrdered order
        → get_or white node s.color ≡ white
        → IsIn node names
        → pending (stack ++ order) names ≤ fuel
        → length stack + fuel ≤ size
        → Post stack order node (visit node s)

    -- The loop over the dependencies: those left are `rest`, the others are finished.
    visit_deps-Post :
        (fuel : ℕ) (visit : String → Search → Visit)
        → Visits fuel visit
        → ((u v : String) → IsIn v (deps u) → IsIn v names)
        → (node : String) (stack rest order : List String) (s : Search) → elem node stack ≡ false
        → Sim (node ∷ stack) order s
        → ((d : String) → IsIn d rest → IsIn d (deps node))
        → ((d : String) → IsIn d (deps node) → IsIn d rest ⊎ (elem d order ≡ true))
        → pending ((node ∷ stack) ++ order) names ≤ fuel
        → length (node ∷ stack) + fuel ≤ size
        → Post stack order node (visit_deps size deps visit node rest s)
    unfolding visit_deps
    visit_deps-Post fuel visit ih closed node stack [] order s fresh sim sub cover left deep = (
      node ∷ order,
      record {
        colors =
            λ x. ground (arith, get_or-put white node x black s.color, sim.colors x, eq_iff node x);
        chain = Chain-tail s.parent node stack sim.chain;
        ordered = (λ d e. ground (arith, cover d e), sim.ordered);
      },
      ground (arith, eq_iff node node),
      λ x e. ground arith,
    )
    visit_deps-Post fuel visit ih closed node stack (d ∷ rest) order s fresh sim sub cover left
          deep =
        elim (Color-cases (get_or white d s.color)) [
          | inl e ↦
              let (out, new) = expected-white (node ∷ stack) order d (sym (sim.colors d) ∙ e) in
              rw (e, visit_deps)
                (Post-and_then (node ∷ stack) order d node _ _ stack
                  (ih d (node ∷ stack) order (record s { parent = put d node s.parent }) sim.colors
                    (Chain-push s.parent d node stack out edge sim.chain) sim.ordered e
                    (closed node d edge) left deep)
                  (λ t done sim' black_d more.
                    visit_deps-Post fuel visit ih closed node stack rest done t fresh sim'
                      (λ c h. sub c (later c h))
                      (λ c h. cover_next c d rest order done black_d more (cover c h))
                      (omega (arith, pending_stack (node ∷ stack) order done names more)) deep))
          | inr (inl e) ↦
              let (path, run, cycle) =
                cycle_path-IsCycle deps size s.parent node d stack (omega arith) sim.chain
                  (expected-gray (node ∷ stack) order d (sym (sim.colors d) ∙ e)) edge in
              rw (e, run, visit_deps) cycle
          | inr (inr e) ↦
              rw (e, visit_deps)
                (visit_deps-Post fuel visit ih closed node stack rest order s fresh sim
                  (λ c h. sub c (later c h))
                  (λ c h.
                    cover_next c d rest order order
                      (expected-black (node ∷ stack) order d (sym (sim.colors d) ∙ e)) (λ x p. p)
                      (cover c h))
                  left deep)
        ]
      where
        edge : IsIn d (deps node)
        edge = sub d (ground (arith, eq_iff d d))

        later : (c : String) → IsIn c rest → IsIn c (d ∷ rest)
        later c h = ground arith

    pub dfs-Visits :
        ((u v : String) → IsIn v (deps u) → IsIn v names)
        → (fuel : ℕ) → Visits fuel (dfs size deps fuel)
    unfolding dfs
    dfs-Visits closed zero node stack order s colors chain ordered unseen known left deep =
        let (out, new) = expected-white stack order node (sym (colors node) ∙ unseen) in
        let done = pending_zero (stack ++ order) names node (omega arith) known in
        ground (arith, count-elem node (stack ++ order), elem-append node stack order)
    dfs-Visits closed (suc fuel) node stack order s colors chain ordered unseen known left deep =
        let (out, new) = expected-white stack order node (sym (colors node) ∙ unseen) in
        visit_deps-Post fuel (dfs size deps fuel) (dfs-Visits closed fuel) closed node stack
          (deps node) order (record s { color = put node gray s.color }) out
          (record {
            colors =
                λ x. ground (arith, get_or-put white node x gray s.color, colors x, eq_iff node x);
            chain = chain;
            ordered = ordered;
          })
          (λ d h. h) (λ d h. inl h)
          (omega (
            arith,
            pending-cons (stack ++ order) node names (elem-append node stack order ∙ ground arith),
          ))
          (omega arith)
