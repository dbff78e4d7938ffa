-- ===== src/Run/Rollback/Contents.antt =====
-- What a rollback runs: all that was undone, in reverse order of the journal, and each sync once.
use mix.Base.{
  ◌≤◌, List, [], ◌∷◌, ◌++◌, ◌≡◌, ◌≢◌, refl, sym, ap, ◌∙◌, arith, Bool, true, false, not, ◌||◌,
  reverse, reverse-cons, filter, filter-append, append-nil, append_assoc, ◌==◌, contains,
  contains-append, contains-reverse, contains-remove_first, count, count-append, count-reverse,
  remove_first, count-remove_first_ne, contains-count,
}
use mix.Effect.Action.{Action, daemon_reload, is_sync, action_eq}
use mix.Run.Rollback.{Draft, start, place, place_entry, rollback_order}
use mix.Run.Rollback.Flat.{
  unwound, Placed, merged, deferred, reloaded, ordinary, place-Placed, rollback_order-flat,
}

abbrev pub is_plain : Action → Bool
is_plain a = not (is_sync a)

-- Every pending action is a sync.
abbrev pub AllSyncs : List Action → Type 0
AllSyncs xs = filter is_plain xs ≡ []

remove_first-AllSyncs : (xs : List Action) → AllSyncs xs → AllSyncs (remove_first daemon_reload xs)
unfolding is_sync
remove_first-AllSyncs [] h = refl
remove_first-AllSyncs (x ∷ xs) h = ground (arith, remove_first-AllSyncs xs)

place-AllSyncs :
    (d d' : Draft) (a : Action) → AllSyncs d.pending → Placed d a d' → AllSyncs d'.pending
place-AllSyncs d d' a h (merged s _ e) = rw e h
place-AllSyncs d d' a h (deferred s _ e) = rw (e, filter-append is_plain d.pending (a ∷ []), h, s)
place-AllSyncs d d' a h (reloaded s _ _ e) = rw e (remove_first-AllSyncs d.pending h)
place-AllSyncs d d' a h (ordinary s _ e) = rw e h

place-plain :
    (d d' : Draft) (a : Action)
    → Placed d a d'
    → filter is_plain d'.ordered ≡ filter is_plain d.ordered ++ filter is_plain (a ∷ [])
place-plain d d' a (merged s _ e) = rw (e, s, append-nil)
place-plain d d' a (deferred s _ e) = rw (e, s, append-nil)
place-plain d d' a (reloaded s _ _ e) =
    simp (e, filter-append, append_assoc) (unfold is_sync in refl)
place-plain d d' a (ordinary s _ e) = simp (e, filter-append)

pub place_entry-plain :
    (d : Draft) (undo : List Action)
    → AllSyncs d.pending
    → AllSyncs (place_entry d undo).pending
      × (filter is_plain (place_entry d undo).ordered
          ≡ filter is_plain d.ordered ++ filter is_plain undo)
unfolding place_entry
place_entry-plain d [] h = (h, sym (append-nil _))
place_entry-plain d (a ∷ undo) h =
    let p = place-Placed d a in
    let (syncs, plain) = place_entry-plain (place d a) undo (place-AllSyncs d (place d a) a h p) in
    (
      syncs,
      plain
          ∙ ap (λ l. l ++ filter is_plain undo) (place-plain d (place d a) a p)
          ∙ append_assoc (filter is_plain d.ordered) (filter is_plain (a ∷ []))
              (filter is_plain undo)
          ∙ ap (λ l. filter is_plain d.ordered ++ l) (sym (filter-append is_plain (a ∷ []) undo)),
    )

AllSyncs-reverse : (xs : List Action) → AllSyncs xs → AllSyncs (reverse xs)
AllSyncs-reverse [] h = refl
AllSyncs-reverse (x ∷ xs) h =
    rw (reverse-cons x xs, filter-append is_plain (reverse xs) (x ∷ []))
      (ground (arith, AllSyncs-reverse xs))

-- Apart from the syncs, a rollback runs exactly the undo actions of the journal, as often as they
-- stand there: the latest entry first, each entry in its own order.
pub rollback_order-plain :
    (journal : List (List Action))
    → filter is_plain (rollback_order journal) ≡ filter is_plain (unwound journal)
rollback_order-plain journal =
    let (syncs, plain) = place_entry-plain start (unwound journal) refl in
    let d = place_entry start (unwound journal) in
    ap (filter is_plain) (rollback_order-flat journal)
    ∙ filter-append is_plain d.ordered (reverse d.pending)
    ∙ ap (λ l. filter is_plain d.ordered ++ l) (AllSyncs-reverse d.pending syncs)
    ∙ append-nil _
    ∙ plain

abbrev holds : Draft → Action → Bool
holds d b = contains d.ordered b || contains d.pending b

place-holds : (d d' : Draft) (a b : Action) → Placed d a d' → holds d' b ≡ (holds d b || a == b)
place-holds d d' a b (merged _ m e) = rw e (ground (arith, action_eq.same_iff a b))
place-holds d d' a b (deferred _ _ e) = rw (e, contains-append d.pending (a ∷ []) b) (ground arith)
place-holds d d' a b (reloaded _ _ m e) =
    rw
      (
        e,
        contains-append (d.ordered ++ daemon_reload ∷ []) (a ∷ []) b,
        contains-append d.ordered (daemon_reload ∷ []) b,
      )
      (ground (arith, contains-remove_first daemon_reload b d.pending m))
place-holds d d' a b (ordinary _ _ e) = rw (e, contains-append d.ordered (a ∷ []) b) (ground arith)

place_entry-holds :
    (d : Draft) (undo : List Action) (b : Action)
    → holds (place_entry d undo) b ≡ (holds d b || contains undo b)
unfolding place_entry
place_entry-holds d [] b = ground arith
place_entry-holds d (a ∷ undo) b =
    ground (
      arith,
      place_entry-holds (place d a) undo b,
      place-holds d (place d a) a b (place-Placed d a),
    )

-- A rollback runs an action, sync or not, exactly if some undo list of the journal names it.
pub contains-rollback_order :
    (journal : List (List Action)) (b : Action)
    → contains (rollback_order journal) b ≡ contains (unwound journal) b
contains-rollback_order journal b =
    let d = place_entry start (unwound journal) in
    ap (λ l. contains l b) (rollback_order-flat journal)
    ∙ contains-append d.ordered (reverse d.pending) b
    ∙ ap (λ c. contains d.ordered b || c) (contains-reverse d.pending b)
    ∙ place_entry-holds start (unwound journal) b

-- What keeps a sync other than the reload from running twice.
record Once (b : Action) (d : Draft) : Type 0 where
  waiting : count b d.ordered ≡ 0
  single : count b d.pending ≤ 1

place-Once :
    (d d' : Draft) (a b : Action)
    → is_sync b ≡ true
    → (daemon_reload == b) ≡ false
    → Once b d
    → Placed d a d'
    → Once b d'
place-Once d d' a b s n o (merged _ _ e) = rw e o
place-Once d d' a b s n o (deferred _ fresh e) = rw e (record {
  waiting = o.waiting;
  single = ground (
    arith,
    count-append b d.pending (a ∷ []),
    contains-count d.pending a,
    action_eq.same_iff a b,
  );
})
place-Once d d' a b s n o (reloaded p _ _ e) = rw e (record {
  waiting = ground (
    arith,
    count-append b (d.ordered ++ daemon_reload ∷ []) (a ∷ []),
    count-append b d.ordered (daemon_reload ∷ []),
    action_eq.same_iff a b,
  );
  single = ground (arith, count-remove_first_ne daemon_reload b d.pending n);
})
place-Once d d' a b s n o (ordinary p _ e) = rw e (record {
  waiting = ground (arith, count-append b d.ordered (a ∷ []), action_eq.same_iff a b);
  single = o.single;
})

place_entry-Once :
    (d : Draft) (undo : List Action) (b : Action)
    → is_sync b ≡ true
    → (daemon_reload == b) ≡ false
    → Once b d
    → Once b (place_entry d undo)
unfolding place_entry
place_entry-Once d [] b s n o = o
place_entry-Once d (a ∷ undo) b s n o =
    place_entry-Once (place d a) undo b s n (place-Once d _ a b s n o (place-Placed d a))

-- However often the journal asks for it, a sync other than the reload runs at most once.
pub rollback_order-once :
    (journal : List (List Action)) (b : Action)
    → is_sync b ≡ true
    → b ≢ daemon_reload
    → count b (rollback_order journal) ≤ 1
rollback_order-once journal b s n =
    let d = place_entry start (unwound journal) in
    let o : Once b d =
      place_entry-Once start (unwound journal) b s
        (ground (arith, action_eq.same_iff daemon_reload b)) (omega arith) in
    rw (rollback_order-flat journal, count-append b d.ordered (reverse d.pending))
      (omega (arith, o.waiting, o.single, count-reverse b d.pending))
