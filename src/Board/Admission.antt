-- ===== src/Board/Admission.antt =====
-- A task that runs owns its paths alone, up to what is declared generated and what it has acknowledged.
use mathlib.Core.Path.{subst}
use dev_platform.Base.{
  ℕ, ◌∙◌, String, ◌≡◌, refl, Bool, true, false, not, ◌&&◌, leb, arith, Bool-cases, inl, inr,
}
use dev_platform.Base.{
  List, [], ◌∷◌, all, keep, contains, contains-keep, all-contains, is_empty, length, All,
  if◌then◌else◌,
}
use dev_platform.Base.Sorting.{sorted_set, contains-sorted_set}
use dev_platform.Board.{
  Item, Asking, Conflict, claims_of, acknowledged_overlap, note_conflict, scan_shared, is_skipped,
  shared_paths, scan_items, admission_conflicts, run, decision, admit_item,
}

both : {b : Bool} → b ≡ false → b ≡ true → ⊥
both h k = cc

empty_contains : (xs : List String) (a : String) → is_empty xs ≡ true → contains xs a ≡ true → ⊥
empty_contains [] a e c = cc
empty_contains (x ∷ xs) a e c = cc

is_empty-note_conflict : (c : Conflict) (cs : List Conflict) → is_empty (note_conflict c cs) ≡ false
unfolding note_conflict
is_empty-note_conflict c [] = refl
is_empty-note_conflict c (d ∷ cs) = ground arith

grown :
    (limit : ℕ) (current : Asking) (item : Item) (paths : List String) (cs : List Conflict)
    → is_empty cs ≡ false
    → is_empty (scan_shared limit current item paths cs).1 ≡ false
unfolding scan_shared
grown limit current item [] cs h = h
grown limit current item (path ∷ paths) cs h =
    go (acknowledged_overlap current item.id path) (leb limit (length noted))
      (grown limit current item paths cs h)
      (grown limit current item paths noted (is_empty-note_conflict _ cs))
  where
    noted : List Conflict
    noted = note_conflict (record { id = item.id; task = item.task; path = path }) cs

    go :
        (a b : Bool)
        → is_empty (scan_shared limit current item paths cs).1 ≡ false
        → is_empty (scan_shared limit current item paths noted).1 ≡ false
        → is_empty
            (if a
              then scan_shared limit current item paths cs
              else if b
              then (true, noted)
              else scan_shared limit current item paths noted).1
          ≡ false
    go true b s l = s
    go false true s l = is_empty-note_conflict _ cs
    go false false s l = l

scan_shared-empty :
    (limit : ℕ) (current : Asking) (item : Item) (paths : List String) (cs : List Conflict)
    → is_empty (scan_shared limit current item paths cs).1 ≡ true
    → ((scan_shared limit current item paths cs).0 ≡ false)
      × (all (acknowledged_overlap current item.id) paths ≡ true)
unfolding scan_shared
scan_shared-empty limit current item [] cs h = (refl, refl)
scan_shared-empty limit current item (path ∷ paths) cs h =
    go (acknowledged_overlap current item.id path) (leb limit (length noted))
      (scan_shared-empty limit current item paths cs)
      (grown limit current item paths noted (is_empty-note_conflict _ cs)) h
  where
    noted : List Conflict
    noted = note_conflict (record { id = item.id; task = item.task; path = path }) cs

    go :
        (a b : Bool)
        → (is_empty (scan_shared limit current item paths cs).1 ≡ true
            → ((scan_shared limit current item paths cs).0 ≡ false)
              × (all (acknowledged_overlap current item.id) paths ≡ true))
        → is_empty (scan_shared limit current item paths noted).1 ≡ false
        → is_empty
            (if a
              then scan_shared limit current item paths cs
              else if b
              then (true, noted)
              else scan_shared limit current item paths noted).1
          ≡ true
        → ((if a
              then scan_shared limit current item paths cs
              else if b
              then (true, noted)
              else scan_shared limit current item paths noted).0
            ≡ false)
          × ((a && all (acknowledged_overlap current item.id) paths) ≡ true)
    go true b s l h = s h
    go false true s l h = absurd (both (is_empty-note_conflict _ cs) h)
    go false false s l h = absurd (both l h)

scan_items-grown :
    (limit : ℕ) (current : Asking) (items : List Item) (b : Bool) (cs : List Conflict)
    → is_empty cs ≡ false
    → is_empty (scan_items limit current items (b, cs)) ≡ false
unfolding scan_items
scan_items-grown limit current [] true cs h = h
scan_items-grown limit current (item ∷ items) true cs h = h
scan_items-grown limit current [] false cs h = h
scan_items-grown limit current (item ∷ items) false cs h =
    elim (is_skipped current item)
      as (λ s.
        is_empty (
          scan_items limit current items (
            if s
            then (false, cs)
            else scan_shared limit current item (shared_paths current item) cs))
        ≡ false) [
          | true ↦ scan_items-grown limit current items false cs h
          | false ↦
              scan_items-grown limit current items _ _
                (grown limit current item (shared_paths current item) cs h)
        ]

-- No shared path of an item that is not passed over lacks an acknowledgment, unless it is declared generated.
abbrev pub IsFree : Asking → Item → Type 0
IsFree current item =
    (path : String)
    → is_skipped current item ≡ false
    → contains current.candidates path ≡ true
    → contains current.generated path ≡ false
    → contains item.owned path ≡ true
    → acknowledged_overlap current item.id path ≡ true

claimed :
    (current : Asking) (path : String)
    → contains current.candidates path ≡ true
    → contains current.generated path ≡ false
    → contains (claims_of current) path ≡ true
unfolding claims_of
claimed current path c g =
    contains-keep (λ q. not (contains current.generated q)) current.candidates path ∙ rw (c, g) refl

all-IsFree :
    (current : Asking) (item : Item)
    → all (acknowledged_overlap current item.id) (shared_paths current item) ≡ true
    → IsFree current item
unfolding shared_paths
all-IsFree current item h path s c g o =
    all-contains (acknowledged_overlap current item.id) (shared_paths current item) path h (
      contains-sorted_set (keep (contains item.owned) (claims_of current)) path
      ∙ (contains-keep (contains item.owned) (claims_of current) path
          ∙ rw (claimed current path c g, o) refl))

scan_items-IsFree :
    (limit : ℕ) (current : Asking) (items : List Item) (cs : List Conflict)
    → is_empty (scan_items limit current items (false, cs)) ≡ true
    → All (IsFree current) items
unfolding scan_items
scan_items-IsFree limit current [] cs h = tt
scan_items-IsFree limit current (item ∷ items) cs h =
    go (is_skipped current item) refl (scan_items-IsFree limit current items) h
  where
    finish :
        (r : Bool × List Conflict)
        → (is_empty r.1 ≡ true → r.0 ≡ false)
        → ((ds : List Conflict)
            → is_empty (scan_items limit current items (false, ds)) ≡ true
            → All (IsFree current) items)
        → is_empty (scan_items limit current items r) ≡ true
        → (is_empty r.1 ≡ true) × All (IsFree current) items
    finish (b, []) f rest h = (
      refl,
      rest [] (subst (λ b. is_empty (scan_items limit current items (b, [])) ≡ true) (f refl) h),
    )
    finish (b, d ∷ ds) f rest h =
        absurd (both (scan_items-grown limit current items b (d ∷ ds) refl) h)

    go :
        (s : Bool)
        → is_skipped current item ≡ s
        → ((ds : List Conflict)
            → is_empty (scan_items limit current items (false, ds)) ≡ true
            → All (IsFree current) items)
        → is_empty (
            scan_items limit current items (
              if s
              then (false, cs)
              else scan_shared limit current item (shared_paths current item) cs))
          ≡ true
        → IsFree current item × All (IsFree current) items
    go true e rest h = ((λ path k c g o. absurd (both k e)), rest cs h)
    go false e rest h =
        let shared = shared_paths current item in
        let (d, free) =
          finish (scan_shared limit current item shared cs)
            (λ k. (scan_shared-empty limit current item shared cs k).0) rest h in
        (all-IsFree current item (scan_shared-empty limit current item shared cs d).1, free)

decision-run :
    (candidates claims : List String) (cs : List Conflict)
    → decision candidates cs ≡ run claims
    → (is_empty cs ≡ true) × (sorted_set candidates ≡ claims)
unfolding decision
decision-run candidates claims [] h = (refl, cc)
decision-run candidates claims (c ∷ cs) h = cc

nothing_claimed :
    (current : Asking) (items : List Item)
    → is_empty current.candidates ≡ true
    → All (IsFree current) items
nothing_claimed current [] e = tt
nothing_claimed current (item ∷ items) e = (
  λ path s c g o. absurd (empty_contains current.candidates path e c),
  nothing_claimed current items e,
)

-- Without conflicts, each shared path that belongs to another active task is declared generated or acknowledged.
pub admission_conflicts-IsFree :
    (limit : ℕ) (current : Asking) (items : List Item)
    → is_empty (admission_conflicts limit current items) ≡ true
    → All (IsFree current) items
unfolding admission_conflicts
admission_conflicts-IsFree limit current items h = elim (Bool-cases (is_empty current.candidates)) [
  | inl e ↦ nothing_claimed current items e
  | inr e ↦ scan_items-IsFree limit current items [] (rw e at h)
]

-- Where the decision is `run`, its claims are the task's candidates in order, and each candidate that is
-- not declared generated and that an item owns, which is active and of another worktree and another branch,
-- has an acknowledgment of that item and that path.
pub admit_item-IsFree :
    (limit : ℕ) (current : Asking) (items : List Item) (claims : List String)
    → admit_item limit current items ≡ run claims
    → (sorted_set current.candidates ≡ claims) × All (IsFree current) items
unfolding admit_item
admit_item-IsFree limit current items claims h =
    let (free, same) = decision-run current.candidates claims _ h in
    (same, admission_conflicts-IsFree limit current items free)
