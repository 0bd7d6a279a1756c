-- ===== src/Rollout/Supersession.antt =====
-- `find_exact_pending_rollout_pr`, `plan_supersession` and the plan that `reconcile` makes, of
-- `scripts/rollout_supersession.py`. A result `none` is the `ValueError`.
pub mod Plan
use dev_platform.Base.{
  ℕ, String, Bool, true, false, not, ◌&&◌, ◌||◌, ◌=?◌, Option, none, some, ◌==◌,
}
use dev_platform.Base.{List, [], ◌∷◌, any, if◌then◌else◌}
use dev_platform.Base.Json.{ℤ, pos, negsuc, Fields}
use mathlib.Core.Option
use dev_platform.Rollout.Version.{Version, version_ltb, version_leb, parse_version}
use dev_platform.Rollout.Identity.{RolloutPr, last_pr, eligible_rollout_prs}

-- Why a pull request is closed, with what the message names.
pub data Reason : Type 0 where
  committed : String → Reason
  superseded : String → Option ℤ → Reason

unfoldable pub int_eqb : ℤ → ℤ → Bool
int_eqb (pos a) (pos b) = a =? b
int_eqb (negsuc a) (negsuc b) = a =? b
int_eqb _ _ = false

-- `next((pr for pr in prs if pr.version == version), None)`
unfoldable pub find_version : String → List RolloutPr → Option RolloutPr
find_version version [] = none
find_version version (p ∷ ps) = if p.version == version then some p else find_version version ps

-- `if base_version`: an empty text counts as none.
unfoldable pub truthy : Option String → Option String
truthy none = none
truthy (some s) = if s == "" then none else some s

unfoldable pub is_authoritative : String → Option ℤ → List RolloutPr → Bool
unfolding int_eqb
is_authoritative version none ps = false
is_authoritative version (some n) ps = any (λ p. int_eqb p.number n && p.version == version) ps

module _ (digit : ℕ → Option ℕ) where
  find_exact : Option Version → String → List RolloutPr → Option (Option RolloutPr)
  unfolding find_version
  find_exact none version ps = none
  find_exact (some v) version ps = some (find_version version ps)

  unfoldable pub find_exact_pending_rollout_pr :
      String → String → String → String → List Fields → Option (Option RolloutPr)
  unfolding find_exact parse_version eligible_rollout_prs
  find_exact_pending_rollout_pr repository base_branch expected_bot version prs =
      find_exact (parse_version digit version) version
        (eligible_rollout_prs digit repository base_branch expected_bot prs)

  -- A version that is given is parsed; `some none` is one that is not.
  unfoldable pub parse_given : Option String → Option (Option (String × Version))
  unfolding parse_version
  parse_given none = some none
  parse_given (some s) = Option.map (λ v. some (s, v)) (parse_version digit s)

  abbrev pub Bound : Type 0
  Bound = Option (String × Version)

  verdict : Version → Bound → Option ℤ → Bound → Option Reason
  unfolding version_ltb
  verdict v none number none = none
  verdict v none number (some (a, w)) = if version_ltb v w then some (superseded a number) else none
  verdict v (some (b, u)) number none = if version_leb v u then some (committed b) else none
  verdict v (some (b, u)) number (some (a, w)) =
      if version_leb v u
      then some (committed b)
      else if version_ltb v w
      then some (superseded a number)
      else none

  -- `pr.version` is parsed only where it is compared.
  verdict_of : Option Version → Bound → Option ℤ → Bound → Option (Option Reason)
  unfolding verdict
  verdict_of none none number none = some none
  verdict_of none _ number _ = none
  verdict_of (some v) base number authoritative = some (verdict v base number authoritative)

  plan_one : RolloutPr → Option Reason → List (RolloutPr × Reason) → List (RolloutPr × Reason)
  plan_one p none planned = planned
  plan_one p (some r) planned = (p, r) ∷ planned

  unfoldable pub plan_loop :
      Bound → Option ℤ → Bound → List RolloutPr → Option (List (RolloutPr × Reason))
  unfolding verdict_of plan_one parse_version
  plan_loop base number authoritative [] = some []
  plan_loop base number authoritative (p ∷ ps) =
      let rest = plan_loop base number authoritative ps in
      Option.bind (verdict_of (parse_version digit p.version) base number authoritative)
        (λ r. Option.map (plan_one p r) rest)

  unfoldable pub confirm : Bound → Option ℤ → List RolloutPr → Bool
  unfolding is_authoritative
  confirm none number eligible = true
  confirm (some (a, w)) number eligible = is_authoritative a number eligible

  plan_checked : Bound → Option ℤ → Bound → List RolloutPr → Option (List (RolloutPr × Reason))
  unfolding confirm plan_loop
  plan_checked base number authoritative eligible =
      if confirm authoritative number eligible
      then plan_loop base number authoritative eligible
      else none

  unfoldable pub plan_supersession :
      List RolloutPr → Option String → Option String → Option ℤ → Option (List (RolloutPr × Reason))
  unfolding parse_given truthy plan_checked
  plan_supersession eligible base_version authoritative_version authoritative_pr =
      Option.bind (parse_given (truthy base_version)) (λ base.
        Option.bind (parse_given (truthy authoritative_version))
          (λ authoritative. plan_checked base authoritative_pr authoritative eligible))

  -- `reconcile`, with the newest eligible pull request where no version is asked for
  newest_target : Option String → Option ℤ → Option RolloutPr → Option String × Option ℤ
  newest_target (some version) number newest = (some version, number)
  newest_target none number none = (none, number)
  newest_target none number (some p) = (some p.version, some p.number)

  unfoldable pub reconcile_plan :
      List RolloutPr → Option String → Option String → Option ℤ → Option (List (RolloutPr × Reason))
  unfolding newest_target last_pr plan_supersession
  reconcile_plan eligible base_version authoritative_version authoritative_pr =
      plan_supersession eligible base_version
        ((newest_target authoritative_version authoritative_pr (last_pr eligible)).0)
        ((newest_target authoritative_version authoritative_pr (last_pr eligible)).1)
