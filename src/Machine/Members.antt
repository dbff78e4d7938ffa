-- ===== src/Machine/Members.antt =====
-- The members of a group, an ascending list: what it counts when one joins or leaves, and that
-- ascending lists which count the same are the same.
use mix.Base.{
  ◌+◌, ◌<◌, List, [], ◌∷◌, ◌++◌, filter, true, not, if◌then◌else◌, ◌==◌, nat_eq, text_eq, ==_refl,
  count, count-append, Text, ◌≡◌, refl, arith, ◌∙◌, ap, inl, inr, Bool-cases,
}
use mix.Effect.Observe.{GroupFacts}
use mix.Declared.State.{text_leb, insert_text, sort_texts}
use mix.Declared.Order.{Ascending, sort_texts-Ascending}
use mix.Machine.Map.Laws.{text_leb_trans, text_leb_antisymm, text_leb_refl}
use mix.Machine.World.{with_member, without_member}

count-insert_text : (p t : Text) (ts : List Text) → count p (insert_text t ts) ≡ count p (t ∷ ts)
unfolding insert_text
count-insert_text p t [] = refl
count-insert_text p t (u ∷ us) = ground (arith, count-insert_text p t us)

count-sort_texts : (p : Text) (ts : List Text) → count p (sort_texts ts) ≡ count p ts
unfolding sort_texts
count-sort_texts p [] = refl
count-sort_texts p (t ∷ ts) =
    count-insert_text p t (sort_texts ts) ∙ ground (arith, count-sort_texts p ts)

abbrev Least : Text → List Text → Type 0
Least t [] = Unit
Least t (u ∷ us) = (text_leb t u ≡ true) × Least t us

Least-trans : (t u : Text) (us : List Text) → text_leb t u ≡ true → Least u us → Least t us
Least-trans t u [] h l = tt
Least-trans t u (w ∷ us) h l = (text_leb_trans t u w h l.0, Least-trans t u us h l.1)

Ascending-tail : (t : Text) (us : List Text) → Ascending (t ∷ us) → Ascending us
Ascending-tail t [] h = tt
Ascending-tail t (u ∷ us) h = h.1

Ascending-Least : (t : Text) (us : List Text) → Ascending (t ∷ us) → Least t us
Ascending-Least t [] h = tt
Ascending-Least t (u ∷ us) h = (h.0, Least-trans t u us h.0 (Ascending-Least u us h.1))

Least-Ascending : (t : Text) (us : List Text) → Least t us → Ascending us → Ascending (t ∷ us)
Least-Ascending t [] l h = tt
Least-Ascending t (u ∷ us) l h = (l.0, h)

Least-count : (t p : Text) (us : List Text) → Least t us → 0 < count p us → text_leb t p ≡ true
Least-count t p [] l h = absurd (omega (arith, h))
Least-count t p (u ∷ us) l h = ground (arith, text_eq.same_iff u p, Least-count t p us l.1)

head-count : (t : Text) (us : List Text) → 0 < count t (t ∷ us)
head-count t us = ground (arith, ==_refl t)

head-leb :
    (t p : Text) (us : List Text) → Ascending (t ∷ us) → 0 < count p (t ∷ us) → text_leb t p ≡ true
head-leb t p us h c = Least-count t p (t ∷ us) (text_leb_refl t, Ascending-Least t us h) c

pub count-ext :
    (xs ys : List Text)
    → Ascending xs
    → Ascending ys
    → ((p : Text) → count p xs ≡ count p ys)
    → xs ≡ ys
count-ext [] [] a b h = refl
count-ext [] (u ∷ us) a b h = absurd (omega (arith, h u, head-count u us))
count-ext (t ∷ ts) [] a b h = absurd (omega (arith, h t, head-count t ts))
count-ext (t ∷ ts) (u ∷ us) a b h =
    let below = head-leb u t us b (omega (arith, h t, head-count t ts)) in
    let above = head-leb t u ts a (omega (arith, h u, head-count u us)) in
    let e = text_leb_antisymm t u above below in
    let rest =
      count-ext ts us (Ascending-tail t ts a) (Ascending-tail u us b)
        (λ p. ground (arith, h p, ap (λ (x : Text). x == p) e)) in
    cc (e, rest)

Least-filter_ne :
    (t u : Text) (ts : List Text) → Least t ts → Least t (filter (λ m. not (m == u)) ts)
Least-filter_ne t u [] l = tt
Least-filter_ne t u (w ∷ ts) l = ground (arith, Least-filter_ne t u ts l.1)

filter_ne-Ascending :
    (u : Text) (ts : List Text) → Ascending ts → Ascending (filter (λ m. not (m == u)) ts)
filter_ne-Ascending u [] h = tt
filter_ne-Ascending u (t ∷ ts) h =
    let rest = filter_ne-Ascending u ts (Ascending-tail t ts h) in
    elim (Bool-cases (t == u)) [
      | inl is ↦ rw is rest
      | inr other ↦ rw other (
          Least-Ascending t (filter (λ m. not (m == u)) ts)
            (Least-filter_ne t u ts (Ascending-Least t ts h)) rest)
    ]

count-filter_ne :
    (p u : Text) (ts : List Text)
    → count p (filter (λ m. not (m == u)) ts) ≡ (if u == p then 0 else count p ts)
count-filter_ne p u [] = ground arith
count-filter_ne p u (t ∷ ts) = ground (
  arith,
  text_eq.same_iff t u,
  text_eq.same_iff u p,
  text_eq.same_iff t p,
  count-filter_ne p u ts,
)

-- One joins: the list counts one more of them.
pub count-with_member :
    (p u : Text) (g : GroupFacts)
    → count p (with_member u g).members ≡ count p g.members + (if u == p then 1 else 0)
unfolding with_member
count-with_member p u g =
    count-sort_texts p (g.members ++ u ∷ []) ∙ count-append p g.members (u ∷ []) ∙ ground arith

pub with_member-Ascending : (u : Text) (g : GroupFacts) → Ascending (with_member u g).members
unfolding with_member
with_member-Ascending u g = sort_texts-Ascending (g.members ++ u ∷ [])

-- One leaves: the list counts none of them.
pub count-without_member :
    (p u : Text) (g : GroupFacts)
    → count p (without_member u g).members ≡ (if u == p then 0 else count p g.members)
unfolding without_member
count-without_member p u g = count-filter_ne p u g.members

pub without_member-Ascending :
    (u : Text) (g : GroupFacts) → Ascending g.members → Ascending (without_member u g).members
unfolding without_member
without_member-Ascending u g h = filter_ne-Ascending u g.members h

-- Two groups of the same id that count the same members are the same.
pub group-ext :
    (f g : GroupFacts)
    → f.gid ≡ g.gid
    → Ascending f.members
    → Ascending g.members
    → ((p : Text) → count p f.members ≡ count p g.members)
    → f ≡ g
group-ext f g e a b h = cc (e, count-ext f.members g.members a b h)

pub gid-with_member : (u : Text) (g : GroupFacts) → (with_member u g).gid ≡ g.gid
unfolding with_member
gid-with_member u g = refl

pub gid-without_member : (u : Text) (g : GroupFacts) → (without_member u g).gid ≡ g.gid
unfolding without_member
gid-without_member u g = refl
