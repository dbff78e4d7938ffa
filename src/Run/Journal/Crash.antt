-- ===== src/Run/Journal/Crash.antt =====
-- What `recover` makes of the journals that a request leaves behind when it is cut off.
use mix.Base.{
  ℕ, Bool, ◌&&◌, List, [], ◌∷◌, ◌++◌, ◌≡◌, refl, sym, ap, ◌∙◌, arith, true, false, not, none, some,
  Option, map, filter, filter_map, find, any, all, flat_map, ◌==◌, ==_refl, nat_eq, contains,
  contains-count, count, ltb, append-nil, Text, Bool-cases, inl, inr,
}
use mix.Effect.Action.{Action, action_eq}
use mix.Run.Rollback.{rollback_order}
use mix.Run.Rollback.Flat.{unwound}
use mix.Run.Rollback.Contents.{contains-rollback_order}
use mix.Run.Journal.{
  Record, Recovery, nothing, finish_commit, began, prepared, done, settled, failed, roll_back,
  Entry, prepare, confirms, confirmed_from, confirmed, still_all, failed_seq, reverted_action,
  latest_from, in_doubt, is_ended, is_committing, rolled_back, recover_changes, recover,
}
use mix.Run.Journal.Still.{still_all-count, count-unwound, still-nil, still_all-nil}

-- The reverts that the records name, and the undo actions that they confirm.
abbrev pub reverts : List Record → List Action
reverts = filter_map reverted_action

abbrev pub confirmed_undo : List Record → List Action
confirmed_undo records = flat_map (λ undo. undo) (map (λ e. e.1) (confirmed records))

rolled_back-certain :
    (u c uncertain certain : List Action)
    → rolled_back u c ≡ roll_back uncertain certain
    → c ≡ certain
rolled_back-certain [] [] uncertain certain h = cc
rolled_back-certain [] (x ∷ c) uncertain certain h = cc
rolled_back-certain (x ∷ u) c uncertain certain h = cc

recover-changes :
    (records : List Record)
    → any is_ended records ≡ false
    → any is_committing records ≡ false
    → recover records ≡ recover_changes records
unfolding recover
recover-changes records n m = rw (n, m)

recover_changes-certain :
    (records : List Record) (uncertain certain : List Action)
    → recover_changes records ≡ roll_back uncertain certain
    → rollback_order (still_all (map (λ e. e.1) (confirmed records)) (reverts records)).0 ≡ certain
unfolding recover_changes
recover_changes-certain records uncertain certain h = rolled_back-certain _ _ uncertain certain h

recover-certain :
    (records : List Record) (uncertain certain : List Action)
    → recover records ≡ roll_back uncertain certain
    → rollback_order (still_all (map (λ e. e.1) (confirmed records)) (reverts records)).0 ≡ certain
recover-certain records uncertain certain h = elim (Bool-cases (any is_ended records)) [
  | inl e ↦ absurd (unfold recover in (ground (arith, e)))
  | inr n ↦ elim (Bool-cases (any is_committing records)) [
    | inl e ↦ absurd (unfold recover in (ground (arith, e, n)))
    | inr m ↦
        recover_changes-certain records uncertain certain (sym (recover-changes records n m) ∙ h)
  ]
]

-- The certain part of a recovery runs an action exactly if the journal confirms it more often than
-- it records its revert: what was undone before the crash is not undone again.
pub recover_resumes :
    (records : List Record) (uncertain certain : List Action) (a : Action)
    → recover records ≡ roll_back uncertain certain
    → contains certain a ≡ ltb (count a (reverts records)) (count a (confirmed_undo records))
recover_resumes records uncertain certain a h =
    let journal = (still_all (map (λ e. e.1) (confirmed records)) (reverts records)).0 in
    rw
      (
        ← recover-certain records uncertain certain h,
        contains-rollback_order journal a,
        contains-count (unwound journal) a,
        count-unwound a journal,
      )
      (ground (arith, still_all-count a (map (λ e. e.1) (confirmed records)) (reverts records)))

-- A change that went through: announced and done, or announced and settled on another undo.
pub data Change : Type 0 where
  made : ℕ → List Action → Change
  amended : ℕ → List Action → List Action → Change

-- The records that it leaves.
abbrev pub trace : List Change → List Record
trace [] = []
trace (made seq undo ∷ changes) = prepared seq undo ∷ done seq ∷ trace changes
trace (amended seq announced undo ∷ changes) =
    prepared seq announced ∷ settled seq undo ∷ trace changes

abbrev pub entry : Change → Entry
entry (made seq undo) = (seq, undo)
entry (amended seq announced undo) = (seq, undo)

abbrev pub undos : List Change → List (List Action)
undos = map (λ c. (entry c).1)

abbrev pub seqs : List Change → List ℕ
seqs = map (λ c. (entry c).0)

find-last :
    (seq : ℕ) (undo : List Action) (entries : List Entry)
    → find (λ e. e.0 == seq) (filter (λ e. not (e.0 == seq)) entries ++ (seq, undo) ∷ [])
      ≡ some (seq, undo)
find-last seq undo [] = rw (==_refl seq)
find-last seq undo (e ∷ entries) = ground (arith, find-last seq undo entries)

confirms-done :
    (seq : ℕ) (undo : List Action) (entries : List Entry)
    → confirms (prepare entries (prepared seq undo)) (done seq) ≡ (seq, undo) ∷ []
confirms-done seq undo entries =
    ap (λ (found : Option Entry). elim found [ none ↦ [] | some e ↦ (seq, e.1) ∷ [] ])
      (find-last seq undo entries)

abbrev prepared_by : List Entry → List Change → List Entry
prepared_by entries [] = entries
prepared_by entries (made seq undo ∷ changes) =
    prepared_by (prepare entries (prepared seq undo)) changes
prepared_by entries (amended seq announced undo ∷ changes) =
    prepared_by (prepare entries (prepared seq announced)) changes

confirmed_from-trace :
    (entries : List Entry) (changes : List Change) (tail : List Record)
    → confirmed_from entries (trace changes ++ tail)
      ≡ map entry changes ++ confirmed_from (prepared_by entries changes) tail
unfolding confirmed_from
confirmed_from-trace entries [] tail = refl
confirmed_from-trace entries (made seq undo ∷ changes) tail =
    let now = prepare entries (prepared seq undo) in
    ap (λ l. l ++ confirmed_from now (trace changes ++ tail)) (confirms-done seq undo entries)
    ∙ ap (λ l. (seq, undo) ∷ l) (confirmed_from-trace now changes tail)
confirmed_from-trace entries (amended seq announced undo ∷ changes) tail =
    rw (confirmed_from-trace (prepare entries (prepared seq announced)) changes tail)

-- The records of complete changes name no failure, no revert and no end.
quiet :
    (changes : List Change) (tail : List Record)
    → (filter_map failed_seq (trace changes ++ tail) ≡ filter_map failed_seq tail)
      × (reverts (trace changes ++ tail) ≡ reverts tail)
      × (any is_ended (trace changes ++ tail) ≡ any is_ended tail)
      × (any is_committing (trace changes ++ tail) ≡ any is_committing tail)
quiet [] tail = (refl, refl, refl, refl)
quiet (made seq undo ∷ changes) tail = quiet changes tail
quiet (amended seq announced undo ∷ changes) tail = quiet changes tail

latest_from-trace :
    (ds fs : List ℕ) (entries : List Entry) (changes : List Change) (tail : List Record)
    → all (contains ds) (seqs changes) ≡ true
    → latest_from ds fs entries (trace changes ++ tail) ≡ latest_from ds fs entries tail
unfolding latest_from
latest_from-trace ds fs entries [] tail h = refl
latest_from-trace ds fs entries (made seq undo ∷ changes) tail h =
    ground (arith, latest_from-trace ds fs entries changes tail)
latest_from-trace ds fs entries (amended seq announced undo ∷ changes) tail h =
    ground (arith, latest_from-trace ds fs entries changes tail)

all-contains-weaken :
    (x : ℕ) (xs ys : List ℕ) → all (contains xs) ys ≡ true → all (contains (x ∷ xs)) ys ≡ true
all-contains-weaken x xs [] h = refl
all-contains-weaken x xs (y ∷ ys) h = ground (arith, all-contains-weaken x xs ys)

all-contains_self : (xs : List ℕ) → all (contains xs) xs ≡ true
all-contains_self [] = refl
all-contains_self (x ∷ xs) =
    ground (arith, ==_refl x, all-contains-weaken x xs xs (all-contains_self xs))

map-entry-undos : (changes : List Change) → map (λ e. e.1) (map entry changes) ≡ undos changes
map-entry-undos [] = refl
map-entry-undos (c ∷ changes) = rw (map-entry-undos changes)

map-entry-seqs : (changes : List Change) → map (λ e. e.0) (map entry changes) ≡ seqs changes
map-entry-seqs [] = refl
map-entry-seqs (c ∷ changes) = rw (map-entry-seqs changes)

-- What may stand in the journal behind the complete changes when the request is cut off: nothing,
-- an announced change, or one that failed. No such tail confirms, reverts or ends anything.
abbrev Tail : List Record → Type 0
Tail tail =
    ((entries : List Entry) → confirmed_from entries tail ≡ [])
    × (reverts tail ≡ [])
    × (any is_ended tail ≡ false)
    × (any is_committing tail ≡ false)

recover-trace :
    (request : Text) (changes : List Change) (tail : List Record)
    → Tail tail
    → recover (began request ∷ trace changes ++ tail)
      ≡ rolled_back
          (in_doubt (latest_from (seqs changes) (filter_map failed_seq tail) [] tail) [])
          (rollback_order (undos changes))
unfolding recover_changes latest_from
recover-trace request changes tail (unconfirmed, unreverted, open', running) =
    let records = trace changes ++ tail in
    let (fails, revs, ends, commits) = quiet changes tail in
    let entries : confirmed (began request ∷ records) ≡ map entry changes =
      unfold confirmed confirmed_from in
      confirmed_from-trace [] changes tail
      ∙ ap (λ l. map entry changes ++ l) (unconfirmed _)
      ∙ append-nil _ in
    recover-changes (began request ∷ records) (ends ∙ open') (commits ∙ running)
    ∙ rw (
      entries,
      revs ∙ unreverted,
      fails,
      map-entry-undos changes,
      map-entry-seqs changes,
      still_all-nil (undos changes),
      latest_from-trace (seqs changes) (filter_map failed_seq tail) [] changes tail
          (all-contains_self (seqs changes)),
    )

-- What a recovery undoes: the uncertain part and the certain part, neither if it does nothing.
abbrev pub undoes : Recovery → Option (List Action × List Action)
undoes nothing = some ([], [])
undoes (roll_back uncertain certain) = some (uncertain, certain)
undoes (finish_commit _) = none

abbrev pub does_nothing : Recovery → Bool
does_nothing nothing = true
does_nothing _ = false

abbrev pub none_of : List Action → Bool
none_of [] = true
none_of _ = false

-- The recovery undoes exactly these, and it does nothing exactly if there is neither.
abbrev pub Recovers : Recovery → List Action → List Action → Type 0
Recovers r uncertain certain =
    (undoes r ≡ some (uncertain, certain))
    × (does_nothing r ≡ (none_of uncertain && none_of certain))

rolled_back-Recovers :
    (uncertain certain : List Action) → Recovers (rolled_back uncertain certain) uncertain certain
rolled_back-Recovers [] [] = (refl, refl)
rolled_back-Recovers [] (x ∷ c) = (refl, refl)
rolled_back-Recovers (x ∷ u) c = (refl, refl)

recovered :
    (r : Recovery) (uncertain certain : List Action)
    → r ≡ rolled_back uncertain certain
    → Recovers r uncertain certain
recovered r uncertain certain e = rw e (rolled_back-Recovers uncertain certain)

-- A request that is cut off behind any number of complete changes is rolled back as a whole: the
-- complete changes are undone in rollback order, as the certain part. Cut off between two changes,
-- it leaves nothing in doubt; cut off in the middle of a change, whose number is new, that change's
-- announced undo runs in rollback order as the uncertain part; a change of a new number that failed
-- is not undone. The recovery does nothing exactly if both parts are empty.
pub recover-crash :
    (request : Text) (changes : List Change) (seq : ℕ) (undo : List Action)
    → contains (seqs changes) seq ≡ false
    → Recovers (recover (began request ∷ trace changes ++ [])) [] (rollback_order (undos changes))
      × Recovers
          (recover (began request ∷ trace changes ++ prepared seq undo ∷ []))
          (rollback_order (undo ∷ []))
          (rollback_order (undos changes))
      × Recovers
          (recover (began request ∷ trace changes ++ prepared seq undo ∷ failed seq ∷ []))
          []
          (rollback_order (undos changes))
unfolding latest_from confirmed_from in_doubt
recover-crash request changes seq undo fresh =
    let certain = rollback_order (undos changes) in
    (
      recovered _ [] certain (recover-trace request changes [] (λ _. refl, refl, refl, refl)),
      recovered _ (rollback_order (undo ∷ [])) certain (
          recover-trace request changes (prepared seq undo ∷ []) (λ _. refl, refl, refl, refl)
          ∙ rw (fresh, still-nil undo, append-nil)),
      recovered _ [] certain (
          recover-trace request changes (prepared seq undo ∷ failed seq ∷ [])
            (λ _. refl, refl, refl, refl)
          ∙ rw (fresh, ==_refl seq)),
    )
