-- ===== src/Run/Rollback/Reloads.antt =====
-- A reload that an undone unit file asked for runs before any unit is enabled, disabled, started or
-- stopped again.
use mix.Base.{
  List, [], ◌∷◌, ◌++◌, ◌≡◌, refl, sym, ap, ◌∙◌, arith, true, false, reverse, filter, filter-append,
  append-nil, append_assoc, contains, contains-append, ==_refl,
}
use mix.Effect.Action.{Action, daemon_reload, is_sync, needs_loaded_units, action_eq}
use mix.Run.Rollback.{Draft, start, place, place_entry, finish, rollback_order}
use mix.Run.Rollback.Flat.{
  unwound, Placed, merged, deferred, reloaded, ordinary, place-Placed, place_entry-append,
  place_entry-extends, rollback_order-flat,
}
use mix.Run.Rollback.Contents.{is_plain, place_entry-plain}

-- Beyond `base`, the reload waits, or it has been run.
data Reloading (base : List Action) (d : Draft) : Type 0 where
  waits :
      (xs : List Action)
      → contains d.pending daemon_reload ≡ true
      → d.ordered ≡ base ++ xs
      → Reloading base d
  ran : (xs ys : List Action) → d.ordered ≡ base ++ xs ++ daemon_reload ∷ ys → Reloading base d

place-Reloading :
    (base : List Action) (d d' : Draft) (a : Action)
    → Placed d a d'
    → Reloading base d
    → Reloading base d'
place-Reloading base d d' a (merged _ _ e) (waits xs w o) = rw e (waits xs w o)
place-Reloading base d d' a (deferred _ _ e) (waits xs w o) =
    rw e (waits xs (rw (contains-append d.pending (a ∷ []) daemon_reload, w)) o)
place-Reloading base d d' a (reloaded _ _ _ e) (waits xs w o) =
    rw e (ran xs (a ∷ []) (simp (o, append_assoc)))
place-Reloading base d d' a (ordinary _ _ e) (waits xs w o) =
    rw e (waits (xs ++ a ∷ []) w (simp (o, append_assoc)))
place-Reloading base d d' a (merged _ _ e) (ran xs ys o) = rw e (ran xs ys o)
place-Reloading base d d' a (deferred _ _ e) (ran xs ys o) = rw e (ran xs ys o)
place-Reloading base d d' a (reloaded _ _ _ e) (ran xs ys o) =
    rw e (ran xs (ys ++ daemon_reload ∷ a ∷ []) (simp (o, append_assoc)))
place-Reloading base d d' a (ordinary _ _ e) (ran xs ys o) =
    rw e (ran xs (ys ++ a ∷ []) (simp (o, append_assoc)))

place_entry-Reloading :
    (base : List Action) (d : Draft) (undo : List Action)
    → Reloading base d
    → Reloading base (place_entry d undo)
unfolding place_entry
place_entry-Reloading base d [] r = r
place_entry-Reloading base d (a ∷ undo) r =
    place_entry-Reloading base (place d a) undo (place-Reloading base d _ a (place-Placed d a) r)

-- After a reload was asked for, it waits or was run already.
place-daemon_reload : (d : Draft) → Reloading d.ordered (place d daemon_reload)
unfolding is_sync
place-daemon_reload d = go (place d daemon_reload) (place-Placed d daemon_reload)
  where
    go : (d' : Draft) → Placed d daemon_reload d' → Reloading d.ordered d'
    go d' (merged _ m e) = rw e (waits [] m (sym (append-nil d.ordered)))
    go d' (deferred _ m e) = rw e (
        waits []
          (rw (contains-append d.pending (daemon_reload ∷ []) daemon_reload)
            (ground (arith, ==_refl daemon_reload)))
          (sym (append-nil d.ordered)))
    go d' (reloaded s _ _ e) = absurd (cc)
    go d' (ordinary s _ e) = absurd (cc)

-- Placing an action that needs the units loaded leaves the reload ahead of it.
place_unit :
    (base : List Action) (d : Draft) (a : Action)
    → needs_loaded_units a ≡ true
    → is_sync a ≡ false
    → Reloading base d
    → (xs ys : List Action) × ((place d a).ordered ≡ base ++ xs ++ daemon_reload ∷ ys ++ a ∷ [])
place_unit base d a n s r = go (place d a) (place-Placed d a) r
  where
    go :
        (d' : Draft)
        → Placed d a d'
        → Reloading base d
        → (xs ys : List Action) × (d'.ordered ≡ base ++ xs ++ daemon_reload ∷ ys ++ a ∷ [])
    go d' (merged m _ e) q = absurd (cc)
    go d' (deferred m _ e) q = absurd (cc)
    go d' (reloaded _ _ _ e) (waits xs w o) = rw e (xs, [], simp (o, append_assoc))
    go d' (reloaded _ _ _ e) (ran xs ys o) =
        rw e (xs, ys ++ daemon_reload ∷ [], simp (o, append_assoc))
    go d' (ordinary _ both e) (waits xs w o) = absurd (ground arith)
    go d' (ordinary _ _ e) (ran xs ys o) = rw e (xs, ys, simp (o, append_assoc))

needs_loaded_units-plain : (a : Action) → needs_loaded_units a ≡ true → is_sync a ≡ false
unfolding needs_loaded_units is_sync
needs_loaded_units-plain daemon_reload h = cc
needs_loaded_units-plain _ h = ground arith

-- Where the undo actions, latest entry first, ask for a reload and later touch a unit, the rollback
-- runs a reload before it touches the unit, and behind every action that stood before the request.
pub reload_before_units :
    (journal : List (List Action)) (before between after : List Action) (a : Action)
    → unwound journal ≡ before ++ daemon_reload ∷ between ++ a ∷ after
    → needs_loaded_units a ≡ true
    → (xs ys zs more : List Action) × (rollback_order journal ≡ xs ++ daemon_reload ∷ ys ++ a ∷ zs)
      × (filter is_plain xs ≡ filter is_plain before ++ more)
unfolding place_entry
reload_before_units journal before between after a split n =
    let d = place_entry start before in
    let d' = place_entry (place d daemon_reload) between in
    let (xs, ys, placed) =
      place_unit d.ordered d' a n (needs_loaded_units-plain a n)
        (place_entry-Reloading d.ordered _ between (place-daemon_reload d)) in
    let (zs, rest) = place_entry-extends (place d' a) after in
    let (_, plain) = place_entry-plain start before refl in
    (
      d.ordered ++ xs,
      ys,
      zs ++ reverse (place_entry (place d' a) after).pending,
      filter is_plain xs,
      rollback_order-flat journal
          ∙ ap (λ l. finish (place_entry start l)) split
          ∙ ap finish (regroup start)
          ∙ ap (λ l. l ++ reverse (place_entry (place d' a) after).pending) rest
          ∙ ap (λ l. (l ++ zs) ++ reverse (place_entry (place d' a) after).pending) placed
          ∙ simp append_assoc,
      filter-append is_plain d.ordered xs ∙ ap (λ l. l ++ filter is_plain xs) plain,
    )
  where
    regroup :
        (d : Draft)
        → place_entry d (before ++ daemon_reload ∷ between ++ a ∷ after)
          ≡ place_entry
              (place (place_entry (place (place_entry d before) daemon_reload) between) a)
              after
    regroup d =
        place_entry-append d (before ++ daemon_reload ∷ between) (a ∷ after)
        ∙ ap (λ x. place_entry x (a ∷ after))
            (place_entry-append d before (daemon_reload ∷ between))
        ∙ ap (λ x. place_entry x (a ∷ after))
            (place_entry-append (place (place_entry d before) daemon_reload) [] between)
