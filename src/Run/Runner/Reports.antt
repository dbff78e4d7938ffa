-- ===== src/Run/Runner/Reports.antt =====
-- What a driver of crates/core/src/run/mod.rs reports between its calls of `step`, through `progress`
-- and `warn` of crates/events/src/tree.rs, leaves the runner's nodes as they are.
use mix.Base.{
  text_eq, ℕ, List, [], ◌∷◌, none, some, true, false, ◌≡◌, refl, ap, ◌∙◌, arith, ◌==◌, nat_eq, Eq,
  contains, Bool-cases, Option-cases, inl, inr, sym, some_inj, if◌then◌else◌,
}
use mix.Events.Message.{Diagnostic, Progress}
use mix.Events.Tree.State.{Open, Tree, get, put, ok, warn, progress, gauged}
use mix.Events.Tree.Coupling.{get-put}
use mix.Run.Runner.{Phase, Runner}
use mix.Run.Runner.Chain.{Link, Chain, Held}
use mix.Run.Runner.Rounds.{plan_key}
use mix.Run.Runner.Invariant.{Phased}

module _ {P : Type 0} where
  -- A node with the same parent, the same keys and as many open children.
  abbrev pub Alike : Open P → Open P → Type 0
  Alike o o' = (o'.used ≡ o.used) × (o'.children ≡ o.children) × (o'.parent ≡ o.parent)

  -- Every open node is still open, and alike.
  abbrev pub Same : Tree P → Tree P → Type 0
  Same t t' =
      (t'.next ≡ t.next)
      × ((i : ℕ) (o : Open P)
          → get t.open_nodes i ≡ some o
          → (o' : Open P) × (get t'.open_nodes i ≡ some o') × Alike o o')

  Chain-Same :
      (t t' : Tree P) (bound children : ℕ) (links : List Link)
      → Same t t'
      → Chain t.open_nodes bound children links
      → Chain t'.open_nodes bound children links
  Chain-Same t t' bound children [] same c = tt
  Chain-Same t t' bound children ((id, used) ∷ []) same
        (o, at, keys, counted, below, over, above, rest) =
      let (o', at', (used', children', parent')) = same.1 id o at in
      (o', at', used' ∙ keys, children' ∙ counted, below, omega (arith, parent', over), tt, tt)
  Chain-Same t t' bound children ((id, used) ∷ link ∷ links) same
        (o, at, keys, counted, below, over, above, rest) =
      let (o', at', (used', children', parent')) = same.1 id o at in
      (
        o',
        at',
        used' ∙ keys,
        children' ∙ counted,
        below,
        omega (arith, parent', over),
        parent' ∙ above,
        Chain-Same t t' id 1 (link ∷ links) same rest,
      )

  Held-Same : (t t' : Tree P) (links : List Link) → Same t t' → Held t links → Held t' links
  Held-Same t t' links same h = rw same.0 (Chain-Same t t' t.next 0 links same h)

  pub Phased-Same :
      (r : Runner) (t t' : Tree P) (p : Phase) → Same t t' → Phased r t p → Phased r t' p
  Phased-Same r t t' Phase.opening same (o, at, free, known, closing) =
      let (o', at', (used', _, _)) = same.1 r.parent o at in
      (
        o',
        at',
        ap (λ used. contains used plan_key) used' ∙ free,
        omega (arith, same.0, known),
        closing,
      )
  Phased-Same r t t' (Phase.checking step asked) same (closing, reaching, (used, held, fresh)) =
      (closing, reaching, (used, Held-Same t t' ((r.plan, used) ∷ []) same held, fresh))
  Phased-Same r t t' (Phase.executing step node queue false) same
        (closing, noded, (used, keys, fresh, free, held)) =
      (
        closing,
        noded,
        (used, keys, fresh, free, Held-Same t t' ((node, keys) ∷ (r.plan, used) ∷ []) same held),
      )
  Phased-Same r t t' (Phase.executing step node queue true) same
        (closing, noded, (used, keys, fresh, free, (id, acts, held))) =
      (
        closing,
        noded,
        (
          used,
          keys,
          fresh,
          free,
          (id, acts, Held-Same t t' ((id, []) ∷ (node, keys) ∷ (r.plan, used) ∷ []) same held),
        ),
      )
  Phased-Same r t t' (Phase.rolling_back remaining none awaiting) same
        (rolling, (used, held, fresh)) =
      (rolling, (used, Held-Same t t' ((r.plan, used) ∷ []) same held, fresh))
  Phased-Same r t t' (Phase.rolling_back remaining (some u) false) same
        (rolling, low, (used, keys, fresh, free, held)) =
      (
        rolling,
        low,
        (used, keys, fresh, free, Held-Same t t' ((u.node, keys) ∷ (r.plan, used) ∷ []) same held),
      )
  Phased-Same r t t' (Phase.rolling_back remaining (some u) true) same
        (rolling, low, (used, keys, fresh, free, (id, acts, held))) =
      (
        rolling,
        low,
        (
          used,
          keys,
          fresh,
          free,
          (id, acts, Held-Same t t' ((id, []) ∷ (u.node, keys) ∷ (r.plan, used) ∷ []) same held),
        ),
      )
  Phased-Same r t t' (Phase.committing false reclaim) same (used, held, unclaimed, free) =
      (used, Held-Same t t' ((r.plan, used) ∷ []) same held, unclaimed, free)
  Phased-Same r t t' (Phase.committing true none) same (used, (id, acts, held)) =
      (used, (id, acts, Held-Same t t' ((id, []) ∷ (r.plan, used) ∷ []) same held))
  Phased-Same r t t' (Phase.committing true (some node)) same (used, keys, (id, acts, held)) =
      let links = (id, []) ∷ (node, keys) ∷ (r.plan, used) ∷ [] in
      (used, keys, (id, acts, Held-Same t t' links same held))
  Phased-Same r t t' Phase.closing same (used, held) =
      (used, Held-Same t t' ((r.plan, used) ∷ []) same held)
  Phased-Same r t t' Phase.closed same h = tt

  warn-fields :
      (t t' : Tree P) (id : ℕ) (d : Diagnostic P)
      → warn t id d ≡ ok t'
      → (t'.next ≡ t.next) × (t'.open_nodes ≡ t.open_nodes)
  unfolding warn
  warn-fields t t' id d e = ground (arith, e)

  pub warn-Same : (t t' : Tree P) (id : ℕ) (d : Diagnostic P) → warn t id d ≡ ok t' → Same t t'
  warn-Same t t' id d e =
      let (next, nodes) = warn-fields t t' id d e in
      (next, λ i o at. (o, ap (λ table. get table i) nodes ∙ at, (refl, refl, refl)))

module _ {P : Type 0} ⦃eq : Eq P⦄ where
  gauged-Alike : (o : Open P) (p : Progress P) → Alike o (gauged o p).0
  unfolding gauged
  gauged-Alike o (Progress.builds b) = (refl, refl, refl)
  gauged-Alike o (Progress.bytes b) = (refl, refl, refl)
  gauged-Alike o (Progress.line _) = (refl, refl, refl)
  gauged-Alike o (Progress.command _) = (refl, refl, refl)
  gauged-Alike o (Progress.fetch _) = (refl, refl, refl)
  gauged-Alike o (Progress.build _) = (refl, refl, refl)
  gauged-Alike o (Progress.stopping _) = (refl, refl, refl)
  gauged-Alike o (Progress.command_finished _) = (refl, refl, refl)
  gauged-Alike o (Progress.observed _) = (refl, refl, refl)
  gauged-Alike o (Progress.journaled _) = (refl, refl, refl)
  gauged-Alike o (Progress.substitution _) = (refl, refl, refl)
  gauged-Alike o (Progress.waiting _) = (refl, refl, refl)

  progress-fields :
      (t t' : Tree P) (id : ℕ) (p : Progress P)
      → progress t id p ≡ ok t'
      → (o : Open P) × (get t.open_nodes id ≡ some o)
        × (t'.next ≡ t.next)
        × (t'.open_nodes ≡ put t.open_nodes id (some (gauged o p).0))
  unfolding progress
  progress-fields t t' id p e = elim (Option-cases (get t.open_nodes id)) [
    | inl closed ↦ absurd (ground (arith, e, closed))
    | inr (o, at) ↦ (o, at, ground (arith, e, at), ground (arith, e, at))
  ]

  pub progress-Same :
      (t t' : Tree P) (id : ℕ) (p : Progress P) → progress t id p ≡ ok t' → Same t t'
  progress-Same t t' id p e =
      let (o, at, next, nodes) = progress-fields t t' id p e in
      let o' = (gauged o p).0 in
      let read : (i : ℕ) → get t'.open_nodes i ≡ (if id == i then some o' else get t.open_nodes i) =
        λ i. ap (λ table. get table i) nodes ∙ get-put t.open_nodes id i (some o') in
      (
        next,
        λ i x found. elim (Bool-cases (id == i)) [
          | inr other ↦ (x, read i ∙ rw other found, (refl, refl, refl))
          | inl own ↦
              let same : x ≡ o =
                some_inj
                  (sym found ∙ ap (get t.open_nodes) (sym ((nat_eq.same_iff id i).0 own)) ∙ at) in
              let (used, children, parent) = gauged-Alike o p in
              (
                o',
                read i ∙ rw own refl,
                (
                  used ∙ ap (λ n. n.used) (sym same),
                  children ∙ ap (λ n. n.children) (sym same),
                  parent ∙ ap (λ n. n.parent) (sym same),
                ),
              )
        ],
      )
