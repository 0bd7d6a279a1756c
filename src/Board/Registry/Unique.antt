-- ===== src/Board/Registry/Unique.antt =====
-- No worktree and no branch has two entries.
use mathlib.Core.Path.{subst}
use dev_platform.Base.{
  ℕ, zero, suc, ◌≡◌, refl, ◌∙◌, sym, ap, String, Bool, true, false, not, ◌||◌, Option, none, some,
  ◌==◌, eq_iff, List, [], ◌∷◌, ◌++◌, map, keep, contains, Distinct, Distinct-append, if◌then◌else◌,
  arith,
}
use dev_platform.Base.Result.{Result, err, ok, >>=-eq-ok, ok-injective, both_ok}
use dev_platform.Board.{Decision, run, wait, admit_item}
use dev_platform.Board.Status.{BoardExit, Eligibility, Problem}
use dev_platform.Board.Registry.{
  Task, Blocked, unknown_id, Identity, Claims, need_entry, registered_worktrees, first_with,
  change_first, renewed_fields, cmd_update, cmd_finish, acknowledged, removable_ids, cmd_doctor_fix,
  validate_worktree_identity, require_free, cmd_start, find_item, change_at, without, renewed_entry,
  with_decision, decided, admit_at, cmd_admit, acknowledge_other, acknowledge_at, cmd_acknowledge,
}

with_decision_worktree : (d : Decision) (t : Task) → (with_decision d t).worktree ≡ t.worktree
unfolding with_decision
with_decision_worktree (run claims) t = refl
with_decision_worktree (wait conflicts) t = refl

with_decision_branch : (d : Decision) (t : Task) → (with_decision d t).branch ≡ t.branch
unfolding with_decision
with_decision_branch (run claims) t = refl
with_decision_branch (wait conflicts) t = refl

-- The boards that the commands reach from an empty one.
pub data IsReachedBoard (resolve : String → String) : List Task → Type 0 where
  fresh : IsReachedBoard resolve []
  started :
      (items later : List Task) (t : Task) (i : Identity) (fits : Bool)
      (head : Result Blocked String)
      → cmd_start resolve t i fits head items ≡ ok later
      → IsReachedBoard resolve items
      → IsReachedBoard resolve later
  renewed :
      (items later : List Task) (id : String) (task scope : Option String) (fits : Bool)
      (now : String)
      → cmd_update id task scope fits now items ≡ ok later
      → IsReachedBoard resolve items
      → IsReachedBoard resolve later
  asked :
      (items later : List Task) (claims : Claims) (limit : ℕ) (branch : String) (i : Identity)
      (scope : Option String) (fits : Bool) (now : String) (d : Decision)
      → cmd_admit resolve claims limit branch i scope fits now items ≡ ok (d, later)
      → IsReachedBoard resolve items
      → IsReachedBoard resolve later
  agreed :
      (items later : List Task) (claims : Claims)
      (classify : Task → Result BoardExit (Eligibility × List Problem)) (branch : String)
      (i : Identity) (with_id reason : String) (paths : List String)
      → cmd_acknowledge resolve claims classify branch i with_id reason paths items ≡ ok later
      → IsReachedBoard resolve items
      → IsReachedBoard resolve later
  finished :
      (items : List Task) (id : String)
      → IsReachedBoard resolve items
      → IsReachedBoard resolve (cmd_finish id items)
  repaired :
      (items later : List Task) (classify : Task → Result BoardExit (Eligibility × List Problem))
      (is_clean : Task → Bool)
      → cmd_doctor_fix classify is_clean items ≡ ok later
      → IsReachedBoard resolve items
      → IsReachedBoard resolve later

needed_board : (b : Bool) (x : Blocked) {u : Unit} → need_entry b x ≡ ok u → b ≡ true
unfolding need_entry
needed_board true x h = refl
needed_board false x h = cc

contains-map-keep :
    (f : Task → String) (p : Task → Bool) (ts : List Task) (a : String)
    → contains (map f ts) a ≡ false
    → contains (map f (keep p ts)) a ≡ false
contains-map-keep f p [] a h = h
contains-map-keep f p (t ∷ ts) a h =
    go (p t) (left_false h) (contains-map-keep f p ts a (right_false h))
  where
    left_false : (a == f t || contains (map f ts) a) ≡ false → (a == f t) ≡ false
    left_false k = ground arith

    right_false : (a == f t || contains (map f ts) a) ≡ false → contains (map f ts) a ≡ false
    right_false k = ground arith

    go :
        (b : Bool)
        → (a == f t) ≡ false
        → contains (map f (keep p ts)) a ≡ false
        → contains (map f (if b then t ∷ keep p ts else keep p ts)) a ≡ false
    go true e k = rw (e, k) refl
    go false e k = k

-- Without some entries, the others stay apart.
Distinct-keep :
    (f : Task → String) (p : Task → Bool) (ts : List Task)
    → Distinct (map f ts)
    → Distinct (map f (keep p ts))
Distinct-keep f p [] d = tt
Distinct-keep f p (t ∷ ts) (fresh_t, d) =
    go (p t) (Distinct-keep f p ts d) (contains-map-keep f p ts (f t) fresh_t)
  where
    go :
        (b : Bool)
        → Distinct (map f (keep p ts))
        → contains (map f (keep p ts)) (f t) ≡ false
        → Distinct (map f (if b then t ∷ keep p ts else keep p ts))
    go true rest out = (out, rest)
    go false rest out = rest

map-change_first :
    (f : Task → String) (id : String) (g : Task → Task) (ts : List Task)
    → ((t : Task) → f (g t) ≡ f t)
    → map f (change_first id g ts) ≡ map f ts
unfolding change_first
map-change_first f id g [] same = refl
map-change_first f id g (t ∷ ts) same = go (t.id == id) (map-change_first f id g ts same)
  where
    go :
        (b : Bool)
        → map f (change_first id g ts) ≡ map f ts
        → map f (if b then g t ∷ ts else t ∷ change_first id g ts) ≡ (f t ∷ map f ts)
    go true rest = ap (λ a. a ∷ map f ts) (same t)
    go false rest = ap (λ fs. f t ∷ fs) rest

map-change_at :
    (f : Task → String) (n : ℕ) (g : Task → Task) (ts : List Task)
    → ((t : Task) → f (g t) ≡ f t)
    → map f (change_at n g ts) ≡ map f ts
unfolding change_at
map-change_at f n g [] same = refl
map-change_at f zero g (t ∷ ts) same = ap (λ a. a ∷ map f ts) (same t)
map-change_at f (suc n) g (t ∷ ts) same = ap (λ fs. f t ∷ fs) (map-change_at f n g ts same)

map-append-one :
    (f : Task → String) (ts : List Task) (t : Task)
    → map f (ts ++ (t ∷ [])) ≡ (map f ts ++ (f t ∷ []))
map-append-one f [] t = refl
map-append-one f (u ∷ ts) t = ap (λ fs. f u ∷ fs) (map-append-one f ts t)

turned : (a b : String) → not (a == b) ≡ true → (b == a) ≡ false
turned a b h = ground (arith, eq_iff a b, eq_iff b a)

module _ (resolve : String → String) where
  abbrev places : List Task → List String
  places = map (λ t. resolve t.worktree)

  abbrev branches : List Task → List String
  branches = map (λ t. t.branch)

  -- Each worktree and each branch has one entry at most.
  abbrev pub IsUnique : List Task → Type 0
  IsUnique items = Distinct (places items) × Distinct (branches items)

  require_free-fresh :
      (worktree branch : String) (ts : List Task) {u : Unit}
      → require_free resolve worktree branch ts ≡ ok u
      → (contains (places ts) worktree ≡ false) × (contains (branches ts) branch ≡ false)
  unfolding require_free
  require_free-fresh worktree branch [] h = (refl, refl)
  require_free-fresh worktree branch (t ∷ ts) h =
      let (front, later) = both_ok _ _ h in
      let (first, second) = both_ok _ _ front.1 in
      let (out, away) = require_free-fresh worktree branch ts later in
      (
        neither (turned (resolve t.worktree) worktree (needed_board _ _ first.1)) out,
        neither (turned t.branch branch (needed_board _ _ second)) away,
      )
    where
      neither : {a b : Bool} → a ≡ false → b ≡ false → (a || b) ≡ false
      neither e f = rw (e, f) refl

  validated :
      (branch : String) (i : Identity) {worktree : String}
      → validate_worktree_identity resolve branch i ≡ ok worktree
      → worktree ≡ resolve i.raw
  unfolding validate_worktree_identity
  validated branch i h =
      let (front, rest) = both_ok _ _ h in
      let (roots, e, k) = >>=-eq-ok (registered_worktrees i.registered) _ rest in
      let (first, last) = both_ok _ _ k in sym (ok-injective last)

  cmd_start-IsUnique :
      (t : Task) (i : Identity) (fits : Bool) (head : Result Blocked String)
      (items later : List Task)
      → ((raw : String) → resolve (resolve raw) ≡ resolve raw)
      → cmd_start resolve t i fits head items ≡ ok later
      → IsUnique items
      → IsUnique later
  unfolding cmd_start
  cmd_start-IsUnique t i fits head items later again h (d, e) =
      let (worktree, v, k) = >>=-eq-ok (validate_worktree_identity resolve t.branch i) _ h in
      let (front, rest) = both_ok _ _ k in
      let (base, b, made) = >>=-eq-ok head _ rest in
      let (scoped, free) = both_ok _ _ front.1 in
      let (out, away) = require_free-fresh worktree t.branch items free in
      let settled =
        ap resolve (validated t.branch i v) ∙ (again i.raw ∙ sym (validated t.branch i v)) in
      subst IsUnique (ok-injective made) (
        subst Distinct (sym (map-append-one (λ u. resolve u.worktree) items _)) (
            Distinct-append (places items) (resolve worktree) d
              (subst (λ w. contains (places items) w ≡ false) (sym settled) out)),
        subst Distinct (sym (map-append-one (λ u. u.branch) items _))
            (Distinct-append (branches items) t.branch e away),
      )

  keep-IsUnique : (p : Task → Bool) (items : List Task) → IsUnique items → IsUnique (keep p items)
  keep-IsUnique p items (d, e) =
      (Distinct-keep (λ t. resolve t.worktree) p items d, Distinct-keep (λ t. t.branch) p items e)

  change_first-IsUnique :
      (id : String) (task scope : Option String) (now : String) (items : List Task)
      → IsUnique items
      → IsUnique (change_first id (renewed_fields task scope now) items)
  unfolding renewed_fields
  change_first-IsUnique id task scope now items (d, e) = (
    subst Distinct
        (sym (
          map-change_first (λ t. resolve t.worktree) id (renewed_fields task scope now) items
            (λ t. refl)))
        d,
    subst Distinct
        (sym
          (map-change_first (λ t. t.branch) id (renewed_fields task scope now) items (λ t. refl)))
        e,
  )

  change_at-IsUnique :
      (n : ℕ) (g : Task → Task) (items : List Task)
      → ((t : Task) → resolve (g t).worktree ≡ resolve t.worktree)
      → ((t : Task) → (g t).branch ≡ t.branch)
      → IsUnique items
      → IsUnique (change_at n g items)
  change_at-IsUnique n g items same_place same_branch (d, e) = (
    subst Distinct (sym (map-change_at (λ t. resolve t.worktree) n g items same_place)) d,
    subst Distinct (sym (map-change_at (λ t. t.branch) n g items same_branch)) e,
  )

  cmd_update-IsUnique :
      (id : String) (task scope : Option String) (fits : Bool) (now : String)
      (items later : List Task)
      → cmd_update id task scope fits now items ≡ ok later
      → IsUnique items
      → IsUnique later
  unfolding cmd_update
  cmd_update-IsUnique id task scope fits now items later h u =
      let (scoped, k) = both_ok _ _ h in found (first_with id items) k
    where
      found :
          (o : Option Task)
          → (elim o as (λ p. Result Blocked (List Task)) [
            | none ↦ err unknown_id
            | some t ↦ ok (change_first id (renewed_fields task scope now) items)
          ])
            ≡ ok later
          → IsUnique later
      found none k = cc
      found (some t) k =
          subst IsUnique (ok-injective k) (change_first-IsUnique id task scope now items u)

  admit_at-IsUnique :
      (claims : Claims) (limit : ℕ) (scope : Option String) (now : String) (items later : List Task)
      (place : Option (ℕ × Task)) (d : Decision)
      → admit_at claims limit scope now items place ≡ ok (d, later)
      → IsUnique items
      → IsUnique later
  unfolding admit_at decided
  admit_at-IsUnique claims limit scope now items later none d h u = cc
  admit_at-IsUnique claims limit scope now items later (some (n, t)) d h u =
      let made =
        admit_item limit (claims.asking (renewed_entry scope now t))
          (map claims.item (without n items)) in
      subst IsUnique (ap (λ r. r.1) (ok-injective h)) (
        change_at-IsUnique n (λ a. with_decision made (renewed_entry scope now a)) items
          (λ a. ap resolve (with_decision_worktree made (renewed_entry scope now a)))
          (λ a. with_decision_branch made (renewed_entry scope now a)) u)

  cmd_admit-IsUnique :
      (claims : Claims) (limit : ℕ) (branch : String) (i : Identity) (scope : Option String)
      (fits : Bool) (now : String) (items later : List Task) (d : Decision)
      → cmd_admit resolve claims limit branch i scope fits now items ≡ ok (d, later)
      → IsUnique items
      → IsUnique later
  unfolding cmd_admit
  cmd_admit-IsUnique claims limit branch i scope fits now items later d h u =
      let (worktree, v, k) = >>=-eq-ok (validate_worktree_identity resolve branch i) _ h in
      let (scoped, m) = both_ok _ _ k in
      admit_at-IsUnique claims limit scope now items later (find_item resolve worktree branch items)
        d m u

  acknowledge_at-IsUnique :
      (claims : Claims) (classify : Task → Result BoardExit (Eligibility × List Problem))
      (with_id : String) (requested : List String) (items later : List Task)
      (place : Option (ℕ × Task))
      → acknowledge_at claims classify with_id requested items place ≡ ok later
      → IsUnique items
      → IsUnique later
  unfolding acknowledge_at
  acknowledge_at-IsUnique claims classify with_id requested items later none h u = cc
  acknowledge_at-IsUnique claims classify with_id requested items later (some (n, current)) h u =
      other (first_with with_id (without n items)) h
    where
      other :
          (o : Option Task)
          → acknowledge_other claims classify n current requested items o ≡ ok later
          → IsUnique later
      other none k = cc
      other (some t) k =
          let (front, made) = both_ok _ _ k in
          subst IsUnique (ok-injective made)
            (change_at-IsUnique n (acknowledged t.id requested) items (λ a. refl) (λ a. refl) u)

  cmd_acknowledge-IsUnique :
      (claims : Claims) (classify : Task → Result BoardExit (Eligibility × List Problem))
      (branch : String) (i : Identity) (with_id reason : String) (paths : List String)
      (items later : List Task)
      → cmd_acknowledge resolve claims classify branch i with_id reason paths items ≡ ok later
      → IsUnique items
      → IsUnique later
  unfolding cmd_acknowledge
  cmd_acknowledge-IsUnique claims classify branch i with_id reason paths items later h u =
      let (worktree, v, k) = >>=-eq-ok (validate_worktree_identity resolve branch i) _ h in
      let (front, m) = both_ok _ _ k in
      acknowledge_at-IsUnique claims classify with_id _ items later
        (find_item resolve worktree branch items) m u

  cmd_doctor_fix-IsUnique :
      (classify : Task → Result BoardExit (Eligibility × List Problem)) (is_clean : Task → Bool)
      (items later : List Task)
      → cmd_doctor_fix classify is_clean items ≡ ok later
      → IsUnique items
      → IsUnique later
  unfolding cmd_doctor_fix
  cmd_doctor_fix-IsUnique classify is_clean items later h u =
      let (ids, e, k) = >>=-eq-ok (removable_ids classify is_clean items) _ h in
      subst IsUnique (ok-injective k) (keep-IsUnique (λ t. not (contains ids t.id)) items u)

  -- On each board that the commands reach from an empty one, where resolving a path twice is resolving it
  -- once, no two entries have the same resolved worktree or the same branch.
  pub IsReachedBoard-IsUnique :
      (items : List Task)
      → ((raw : String) → resolve (resolve raw) ≡ resolve raw)
      → IsReachedBoard resolve items
      → IsUnique items
  unfolding cmd_finish
  IsReachedBoard-IsUnique items again fresh = (tt, tt)
  IsReachedBoard-IsUnique items again (started before later t i fits head h r) =
      cmd_start-IsUnique t i fits head before items again h (IsReachedBoard-IsUnique before again r)
  IsReachedBoard-IsUnique items again (renewed before later id task scope fits now h r) =
      cmd_update-IsUnique id task scope fits now before items h
        (IsReachedBoard-IsUnique before again r)
  IsReachedBoard-IsUnique items again
        (asked before later claims limit branch i scope fits now d h r) =
      cmd_admit-IsUnique claims limit branch i scope fits now before items d h
        (IsReachedBoard-IsUnique before again r)
  IsReachedBoard-IsUnique items again
        (agreed before later claims classify branch i with_id reason paths h r) =
      cmd_acknowledge-IsUnique claims classify branch i with_id reason paths before items h
        (IsReachedBoard-IsUnique before again r)
  IsReachedBoard-IsUnique items again (finished before id r) =
      keep-IsUnique (λ t. not (t.id == id)) before (IsReachedBoard-IsUnique before again r)
  IsReachedBoard-IsUnique items again (repaired before later classify is_clean h r) =
      cmd_doctor_fix-IsUnique classify is_clean before items h
        (IsReachedBoard-IsUnique before again r)
