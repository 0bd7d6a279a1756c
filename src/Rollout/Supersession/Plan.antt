-- ===== src/Rollout/Supersession/Plan.antt =====
-- What a supersession closes and what it keeps.
use mathlib.Core.Path.{subst}
use mathlib.Core.Option
use dev_platform.Base.{
  ℕ, String, ◌≡◌, refl, ap, ◌∙◌, Bool, true, false, ◌&&◌, ◌||◌, Option, none, some, ◌==◌,
}
use dev_platform.Base.{
  List, [], ◌∷◌, map, keep, All, if◌then◌else◌, arith, eq_iff, inl, inr, ◌⊎◌, Bool-cases, some_inj,
}
use dev_platform.Base.Json.{ℤ, pos, negsuc, Fields}
use dev_platform.Rollout.Version.{Version, version_ltb, version_leb, parse_codes, parse_version}
use dev_platform.Rollout.Version.Order.{version_ltb_irrefl}
use dev_platform.Rollout.Identity.{
  RolloutPr, last_pr, int_ltb, key_ltb, pr_ltb, eligible_rollout_prs, authoritative_pending_rollout,
}
use dev_platform.Rollout.Identity.Boundary.{All-Exact, eligible_rollout_prs_trusted}
use dev_platform.Rollout.Identity.Order.{Exact, NotAfter, Ascending}
use dev_platform.Rollout.Supersession.{
  Reason, int_eqb, is_authoritative, truthy, parse_given, verdict, verdict_of, plan_one, plan_loop,
  confirm, plan_checked, plan_supersession, newest_target, reconcile_plan,
}

some-none : {A : Type 0} {a : A} → none ≡ some a → ⊥
some-none h = cc

int_ltb_irrefl : (z : ℤ) → int_ltb z z ≡ false
unfolding int_ltb
int_ltb_irrefl (pos a) = ground arith
int_ltb_irrefl (negsuc a) = ground arith

int_eqb_refl : (z : ℤ) → int_eqb z z ≡ true
unfolding int_eqb
int_eqb_refl (pos a) = ground arith
int_eqb_refl (negsuc a) = ground arith

abbrev pub at_most : Version → Option (String × Version) → Bool
at_most v none = false
at_most v (some (b, u)) = version_leb v u

abbrev pub below : Version → Option (String × Version) → Bool
below v none = false
below v (some (a, w)) = version_ltb v w

-- The version is at most the committed one, or below the authoritative one.
abbrev pub outdated : Option Version → Option (String × Version) → Option (String × Version) → Bool
outdated none base authoritative = false
outdated (some v) base authoritative = at_most v base || below v authoritative

is_some : Option Reason → Bool
is_some none = false
is_some (some r) = true

module _ (digit : ℕ → Option ℕ) where
  abbrev pub stale : Option (String × Version) → Option (String × Version) → RolloutPr → Bool
  stale base authoritative p = outdated (parse_version digit p.version) base authoritative

  verdict-outdated :
      (v : Version) (base authoritative : Option (String × Version)) (n : Option ℤ)
      → is_some (verdict digit v base n authoritative) ≡ outdated (some v) base authoritative
  unfolding verdict is_some
  verdict-outdated v none none n = refl
  verdict-outdated v none (some (a, w)) n = ground arith
  verdict-outdated v (some (b, u)) none n = ground arith
  verdict-outdated v (some (b, u)) (some (a, w)) n = ground arith

  abbrev closed : List (RolloutPr × Reason) → List RolloutPr
  closed planned = map (λ c. c.0) planned

  closed-plan_one :
      (p : RolloutPr) (r : Option Reason) (planned : List (RolloutPr × Reason))
      → closed (plan_one digit p r planned)
        ≡ (if is_some r then p ∷ closed planned else closed planned)
  unfolding plan_one is_some
  closed-plan_one p none planned = refl
  closed-plan_one p (some r) planned = refl

  -- With versions that parse, the loop ends and closes the stale ones.
  pub plan_loop_lem :
      (base authoritative : Option (String × Version)) (n : Option ℤ) (ps : List RolloutPr)
      → All (Exact digit) ps
      → (planned : List (RolloutPr × Reason)) × (plan_loop digit base n authoritative ps
          ≡ some planned)
        × (closed planned ≡ keep (stale base authoritative) ps)
  unfolding plan_loop verdict_of Option.bind
  plan_loop_lem base authoritative n [] es = ([], refl, refl)
  plan_loop_lem base authoritative n (p ∷ ps) ((v, e), es) =
      let (planned, eq, c) = plan_loop_lem base authoritative n ps es in
      let r = verdict digit v base n authoritative in
      (
        plan_one digit p r planned,
        rw (e, eq) refl,
        rw e (
            closed-plan_one p r planned
            ∙ ap (λ t. if t then p ∷ closed planned else closed planned)
                (verdict-outdated v base authoritative n)
            ∙ ap (λ xs. if outdated (some v) base authoritative then p ∷ xs else xs) c),
      )

  All-last_pr :
      (P : RolloutPr → Type 0) (ps : List RolloutPr) (n : RolloutPr)
      → All P ps
      → last_pr ps ≡ some n
      → P n
  unfolding last_pr
  All-last_pr P [] n a h = elim (some-none h) [ ]
  All-last_pr P (p ∷ []) n (a, _) h = subst P (some_inj h) a
  All-last_pr P (p ∷ q ∷ qs) n (_, a) h = All-last_pr P (q ∷ qs) n a h

  pr_ltb_irrefl :
      (p : RolloutPr) (v : Version)
      → parse_version digit p.version ≡ some v
      → pr_ltb digit p p ≡ false
  unfolding pr_ltb key_ltb
  pr_ltb_irrefl p v e = rw e (ground (arith, version_ltb_irrefl v, int_ltb_irrefl p.number))

  -- The last pull request of a list in order comes after no other.
  last-NotAfter :
      (ps : List RolloutPr) (n : RolloutPr)
      → All (Exact digit) ps
      → Ascending digit ps
      → last_pr ps ≡ some n
      → All (λ p. pr_ltb digit n p ≡ false) ps
  unfolding last_pr
  last-NotAfter [] n es s h = tt
  last-NotAfter (p ∷ []) n ((v, e), es) s h =
      (subst (λ q. pr_ltb digit q p ≡ false) (some_inj h) (pr_ltb_irrefl p v e), tt)
  last-NotAfter (p ∷ q ∷ qs) n (ep, es) (a, s) h =
      (All-last_pr (NotAfter digit p) (q ∷ qs) n a h, last-NotAfter (q ∷ qs) n es s h)

  last-is_authoritative :
      (ps : List RolloutPr) (n : RolloutPr)
      → last_pr ps ≡ some n
      → is_authoritative n.version (some n.number) ps ≡ true
  unfolding last_pr is_authoritative
  last-is_authoritative [] n h = elim (some-none h) [ ]
  last-is_authoritative (p ∷ []) n h =
      subst (λ q. (int_eqb p.number q.number && p.version == q.version || false) ≡ true)
        (some_inj h) (ground (arith, int_eqb_refl p.number, eq_iff p.version p.version))
  last-is_authoritative (p ∷ q ∷ qs) n h = ground (arith, last-is_authoritative (q ∷ qs) n h)

  parse_version_empty : (v : Version) → parse_version digit "" ≡ some v → ⊥
  unfolding parse_version parse_codes
  parse_version_empty v e = some-none e

  parse_given-Exact :
      (s : String) (v : Version)
      → parse_version digit s ≡ some v
      → parse_given digit (truthy (some s)) ≡ some (some (s, v))
  unfolding parse_given truthy
  parse_given-Exact s v e = elim (Bool-cases (s == "")) [
    | inl t ↦
        elim (parse_version_empty v
          (subst (λ x. parse_version digit x ≡ some v) ((eq_iff s "").0 t) e)) [ ]
    | inr t ↦ rw (t, e) refl
  ]

  -- `reconcile` with no version asked for: its plan never fails on eligible pull requests in order, and closes the stale ones.
  pub reconcile_plan_lem :
      (eligible : List RolloutPr) (n : RolloutPr) (w : Version)
      → All (Exact digit) eligible
      → Ascending digit eligible
      → last_pr eligible ≡ some n
      → parse_version digit n.version ≡ some w
      → (base_version : Option String) (base : Option (String × Version)) (number : Option ℤ)
      → parse_given digit (truthy base_version) ≡ some base
      → (planned : List (RolloutPr × Reason)) × (reconcile_plan digit eligible base_version none
            number
          ≡ some planned)
        × (closed planned ≡ keep (stale base (some (n.version, w))) eligible)
  unfolding reconcile_plan newest_target plan_supersession plan_checked confirm Option.bind
  reconcile_plan_lem eligible n w es s l e base_version base number b =
      let (planned, p, c) = plan_loop_lem base (some (n.version, w)) (some n.number) eligible es in
      (planned, rw (l, b, parse_given-Exact n.version w e, last-is_authoritative eligible n l) p, c)

  same_version : (v w : Version) → version_ltb v w ≡ false → version_ltb w v ≡ false → v ≡ w
  unfolding version_ltb
  same_version (a, b, c) (x, y, z) h k =
      let e : a ≡ x = ground arith in
      let f : b ≡ y = ground arith in
      let g : c ≡ z = ground arith in
      ap (λ t. (t, b, c)) e ∙ ap (λ t. (x, t, c)) f ∙ ap (λ t. (x, y, t)) g

  pr_ltb-version :
      (n p : RolloutPr) (w v : Version)
      → parse_version digit n.version ≡ some w
      → parse_version digit p.version ≡ some v
      → pr_ltb digit n p ≡ false
      → version_ltb w v ≡ false
  unfolding pr_ltb key_ltb
  pr_ltb-version n p w v en ep h =
      let k : key_ltb (some w) n.number (some v) p.number ≡ false = rw (en, ep) at h in ground arith

  -- A pull request that a plan against the newest one keeps is of the newest version.
  kept-version :
      (n p : RolloutPr) (w : Version)
      → parse_version digit n.version ≡ some w
      → Exact digit p
      → pr_ltb digit n p ≡ false
      → (stale none (some (n.version, w)) p ≡ true) ⊎ (parse_version digit p.version ≡ some w)
  kept-version n p w e (v, ep) h = elim (Bool-cases (version_ltb v w)) [
    | inl t ↦ inl (rw (ep, t) refl)
    | inr t ↦ inr (ep ∙ ap some (same_version v w t (pr_ltb-version n p w v e ep h)))
  ]

  All-kept :
      (n : RolloutPr) (w : Version) (ps : List RolloutPr)
      → parse_version digit n.version ≡ some w
      → All (Exact digit) ps
      → All (λ p. pr_ltb digit n p ≡ false) ps
      → All
          (λ p.
            (stale none (some (n.version, w)) p ≡ true) ⊎ (parse_version digit p.version ≡ some w))
          ps
  All-kept n w [] e es a = tt
  All-kept n w (p ∷ ps) e (ep, es) (h, a) = (kept-version n p w e ep h, All-kept n w ps e es a)

  -- Where a newest eligible pull request exists, no version is asked for and no committed version is known,
  -- the version of the newest parses and the plan does not fail. It closes exactly the pull requests of
  -- lower versions, among which the newest is not, and each other eligible pull request has the newest's
  -- version.
  pub reconcile_plan_newest :
      (repository base_branch expected_bot : String) (prs : List Fields) (n : RolloutPr)
      (number : Option ℤ)
      → authoritative_pending_rollout digit repository base_branch expected_bot prs ≡ some n
      → (w : Version) × (planned : List (RolloutPr × Reason)) × (parse_version digit n.version
          ≡ some w)
        × (reconcile_plan digit
              (eligible_rollout_prs digit repository base_branch expected_bot prs)
              none
              none
              number
            ≡ some planned)
        × (map (λ c. c.0) planned
            ≡ keep
                (stale none (some (n.version, w)))
                (eligible_rollout_prs digit repository base_branch expected_bot prs))
        × (stale none (some (n.version, w)) n ≡ false)
        × All
            (λ p.
              (stale none (some (n.version, w)) p ≡ true)
              ⊎ (parse_version digit p.version ≡ some w))
            (eligible_rollout_prs digit repository base_branch expected_bot prs)
  unfolding authoritative_pending_rollout truthy parse_given
  reconcile_plan_newest repository base_branch expected_bot prs n number l =
      let eligible = eligible_rollout_prs digit repository base_branch expected_bot prs in
      let (f, s) = eligible_rollout_prs_trusted digit repository base_branch expected_bot prs in
      let es = All-Exact digit repository base_branch expected_bot prs eligible f in
      let (w, e) = All-last_pr (Exact digit) eligible n es l in
      let (planned, p, c) = reconcile_plan_lem eligible n w es s l e none none number refl in
      (
        w,
        planned,
        e,
        p,
        c,
        rw e (version_ltb_irrefl w),
        All-kept n w eligible e es (last-NotAfter eligible n es s l),
      )

  -- On eligible pull requests, where the two versions that are given parse and the authoritative one is
  -- confirmed, the plan does not fail, and it closes exactly those whose version is at most the committed
  -- one or below the authoritative one.
  pub plan_supersession_closes :
      (repository base_branch expected_bot : String) (prs : List Fields)
      (base_version version : Option String) (number : Option ℤ)
      (base authoritative : Option (String × Version))
      → parse_given digit (truthy base_version) ≡ some base
      → parse_given digit (truthy version) ≡ some authoritative
      → confirm digit authoritative number
          (eligible_rollout_prs digit repository base_branch expected_bot prs)
        ≡ true
      → (planned : List (RolloutPr × Reason)) × (plan_supersession digit
            (eligible_rollout_prs digit repository base_branch expected_bot prs)
            base_version
            version
            number
          ≡ some planned)
        × (map (λ c. c.0) planned
            ≡ keep
                (stale base authoritative)
                (eligible_rollout_prs digit repository base_branch expected_bot prs))
  unfolding plan_supersession plan_checked Option.bind
  plan_supersession_closes repository base_branch expected_bot prs base_version version number base
        authoritative b a k =
      let eligible = eligible_rollout_prs digit repository base_branch expected_bot prs in
      let (f, s) = eligible_rollout_prs_trusted digit repository base_branch expected_bot prs in
      let es = All-Exact digit repository base_branch expected_bot prs eligible f in
      let (planned, p, c) = plan_loop_lem base authoritative number eligible es in
      (planned, rw (b, a, k) p, c)
