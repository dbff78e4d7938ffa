-- ===== src/Machine/Fits.antt =====
-- The parts of a valid machine, and that they stay when only the members of groups change.
use mix.Base.{ℕ, ◌<◌, ◌≤◌, some, nat_eq, text_eq, count, Text, ◌≡◌, refl, sym, ◌∙◌, ap, inl, inr}
use mix.Effect.Observe.{GroupFacts, UserFacts}
use mix.Declared.Order.{Ascending}
use mix.Machine.Map.{Map, lookup, change, change_all, Sorted}
use mix.Machine.Map.Found.{found-change, found-change_all, change_all-keeps, change-keeps}
use mix.Machine.World.{World}
use mix.Machine.Valid.{IsValid}

abbrev pub Found : {V : Type 0} → Map V → Text → Type 0
Found {V} m n = (v : V) × (lookup n m ≡ some v)

-- The members of a group are listed in order, once, and are users.
abbrev pub Fits : Map UserFacts → GroupFacts → Type 0
Fits users g =
    Ascending g.members
    × ((p : Text) → count p g.members ≤ 1)
    × ((p : Text) → 0 < count p g.members → Found users p)

abbrev pub GidsDiffer : Map GroupFacts → Type 0
GidsDiffer groups =
    (n m : Text) (g h : GroupFacts)
    → lookup n groups ≡ some g
    → lookup m groups ≡ some h
    → g.gid ≡ h.gid
    → n ≡ m

abbrev pub UidsDiffer : Map UserFacts → Type 0
UidsDiffer users =
    (n m : Text) (u v : UserFacts)
    → lookup n users ≡ some u
    → lookup m users ≡ some v
    → u.uid ≡ v.uid
    → n ≡ m

abbrev pub HasGid : Map GroupFacts → ℕ → Type 0
HasGid groups gid = (m : Text) × (g : GroupFacts) × (lookup m groups ≡ some g) × (g.gid ≡ gid)

pub IsValid-of :
    (w : World)
    → Sorted w.groups
    → Sorted w.users
    → ((n : Text) (g : GroupFacts) → lookup n w.groups ≡ some g → Fits w.users g)
    → GidsDiffer w.groups
    → UidsDiffer w.users
    → ((n : Text) (u : UserFacts) → lookup n w.users ≡ some u → HasGid w.groups u.gid)
    → IsValid w
IsValid-of w gs us fits gids uids primary = record {
  groups_sorted = gs;
  users_sorted = us;
  members_ascend = λ n g found. (fits n g found).0;
  members_once = λ n p g found. (fits n g found).1 p;
  members_exist = λ n p g found. (fits n g found).2 p;
  gids_differ = gids;
  uids_differ = uids;
  primary_exists = primary;
}

-- Only the members of groups change.
pub record Regroups (m m' : Map GroupFacts) : Type 0 where
  pub back :
      (n : Text) (g' : GroupFacts)
      → lookup n m' ≡ some g'
      → (g : GroupFacts) × (lookup n m ≡ some g) × (g'.gid ≡ g.gid)
  pub forth :
      (n : Text) (g : GroupFacts)
      → lookup n m ≡ some g
      → (g' : GroupFacts) × (lookup n m' ≡ some g') × (g'.gid ≡ g.gid)

pub Regroups-GidsDiffer : (m m' : Map GroupFacts) → Regroups m m' → GidsDiffer m → GidsDiffer m'
Regroups-GidsDiffer m m' r differ n k g h found found' same =
    let (x, at, e) = r.back n g found in
    let (y, at', e') = r.back k h found' in differ n k x y at at' (sym e ∙ same ∙ e')

pub Regroups-HasGid :
    (m m' : Map GroupFacts) → Regroups m m' → (gid : ℕ) → HasGid m gid → HasGid m' gid
Regroups-HasGid m m' r gid (n, g, found, e) =
    let (g', found', e') = r.forth n g found in (n, g', found', e' ∙ e)

pub change-Regroups :
    (k : Text) (f : GroupFacts → GroupFacts) (m : Map GroupFacts)
    → ((g : GroupFacts) → (f g).gid ≡ g.gid)
    → Regroups m (change k f m)
change-Regroups k f m same = record {
  back = λ n g' found. elim (found-change n k f g' m found) [
    | inl (_, (g, at, e)) ↦ (g, at, ap (λ x. x.gid) (sym e) ∙ same g)
    | inr (_, at) ↦ (g', at, refl)
  ];
  forth = λ n g found. change-keeps (λ x. x.gid ≡ g.gid) n k f g m found refl (same g);
}

pub change_all-Regroups :
    (f : GroupFacts → GroupFacts) (m : Map GroupFacts)
    → ((g : GroupFacts) → (f g).gid ≡ g.gid)
    → Regroups m (change_all f m)
change_all-Regroups f m same = record {
  back = λ n g' found.
      let (g, at, e) = found-change_all n f g' m found in (g, at, ap (λ x. x.gid) (sym e) ∙ same g);
  forth = λ n g found. (f g, change_all-keeps n f g m found, same g);
}
