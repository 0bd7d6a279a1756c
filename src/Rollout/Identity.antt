-- ===== src/Rollout/Identity.antt =====
-- `RolloutPr` and `eligible_rollout_prs` of `template/scripts/rollout_identity.py`. GitHub's answer is the list
-- `prs`; `digit` is the decimal value that Unicode gives a code point.
pub mod Boundary
pub mod Order
use Prim.Native.Char.{code}
use Prim.Native.String
use dev_platform.Base.{
  ℕ, String, Bool, true, false, not, ◌&&◌, ◌||◌, ◌=?◌, ltb, Option, none, some, ◌==◌,
}
use dev_platform.Base.{List, [], ◌∷◌, is_empty, if◌then◌else◌}
use dev_platform.Base.Json.{
  ℤ, pos, negsuc, Json, bool, int, Fields, close, lookup, as_text, as_fields,
}
use dev_platform.Rollout.Version.{Version, version_ltb, parse_version}

pub record RolloutPr : Type 0 where
  pub number : ℤ
  pub url : String
  pub branch : String
  pub version : String
  pub head_sha : String

unfoldable pub rollout_prefix : String
rollout_prefix = "dev-platform/rollout-"

-- the text after the prefix
unfoldable pub after_prefix : String → String → Option String
after_prefix String.[] s = some s
after_prefix (String.◌∷◌ c p) String.[] = none
after_prefix (String.◌∷◌ c p) (String.◌∷◌ d s) =
    let rest = after_prefix p s in if code c =? code d then rest else none

-- `pr.get(name) if isinstance(pr.get(name), dict) else {}`
unfoldable pub sub_fields : String → Fields → Fields
unfolding as_fields lookup
sub_fields name pr = elim (as_fields (lookup name pr)) [ none ↦ close | some fs ↦ fs ]

-- `d.get(key) == value`, for a text
unfoldable pub has_text : String → String → Fields → Bool
unfolding as_text lookup
has_text key value d = elim (as_text (lookup key d)) [ none ↦ false | some s ↦ s == value ]

-- `isinstance(value, int)`, which a `bool` is too, with the number
unfoldable pub as_int : Option Json → Option ℤ
as_int (some (int z)) = some z
as_int (some (bool true)) = some (pos 1)
as_int (some (bool false)) = some (pos 0)
as_int _ = none

unfoldable pub int_ltb : ℤ → ℤ → Bool
int_ltb (pos a) (pos b) = ltb a b
int_ltb (pos a) (negsuc b) = false
int_ltb (negsuc a) (pos b) = true
int_ltb (negsuc a) (negsuc b) = ltb b a

unfoldable pub or_empty_text : Option String → String
or_empty_text none = ""
or_empty_text (some s) = s

unfoldable pub described : String → String → String → Option ℤ → Option String → Option RolloutPr
described branch version sha (some number) (some url) =
    some (record { number = number; url = url; branch = branch; version = version; head_sha = sha })
described branch version sha _ _ = none

unfoldable pub crosses : String → String → String → Fields → Bool
unfolding has_text sub_fields
crosses repository base_branch expected_bot pr =
    has_text "ref" base_branch (sub_fields "base" pr)
    && (has_text "login" expected_bot (sub_fields "user" pr)
        && has_text "full_name" repository (sub_fields "repo" (sub_fields "head" pr)))

-- The order of `sorted`'s key. A version that does not parse would raise in Python; the versions of eligible pull
-- requests parse.
unfoldable pub key_ltb : Option Version → ℤ → Option Version → ℤ → Bool
unfolding version_ltb int_ltb
key_ltb (some v) m (some w) n = version_ltb v w || (not (version_ltb w v) && int_ltb m n)
key_ltb _ m _ n = false

module _ (digit : ℕ → Option ℕ) where
  exact : String → Option Version → Option String
  exact s none = none
  exact s (some v) = some s

  exact_version : String → Option String
  unfolding parse_version exact
  exact_version s = exact s (parse_version digit s)

  -- `ROLLOUT_BRANCH_RE.fullmatch(branch).group(1)`
  unfoldable pub match_branch : String → Option String
  unfolding after_prefix exact_version rollout_prefix
  match_branch branch = elim (after_prefix rollout_prefix branch) [
    | none ↦ none
    | some s ↦ exact_version s
  ]

  unfoldable pub match_ref : Option String → Option (String × String)
  unfolding match_branch
  match_ref none = none
  match_ref (some branch) = elim (match_branch branch) [ none ↦ none | some v ↦ some (branch, v) ]

  module _ (repository base_branch expected_bot : String) where
    matched : Fields → Option (String × String) → Option RolloutPr
    unfolding crosses described as_int as_text lookup sub_fields or_empty_text
    matched pr none = none
    matched pr (some (branch, version)) =
        if crosses repository base_branch expected_bot pr
        then described branch version
            (or_empty_text (as_text (lookup "sha" (sub_fields "head" pr))))
            (as_int (lookup "number" pr)) (as_text (lookup "html_url" pr))
        else none

    unfoldable pub eligible_pr : Fields → Option RolloutPr
    unfolding matched match_ref as_text lookup sub_fields
    eligible_pr pr = matched pr (match_ref (as_text (lookup "ref" (sub_fields "head" pr))))

    -- the loop, before the sort
    unfoldable pub collect_eligible : List Fields → List RolloutPr
    unfolding eligible_pr
    collect_eligible [] = []
    collect_eligible (pr ∷ prs) = elim (eligible_pr pr) [
      | none ↦ collect_eligible prs
      | some p ↦ p ∷ collect_eligible prs
    ]

  unfoldable pub pr_ltb : RolloutPr → RolloutPr → Bool
  unfolding key_ltb parse_version
  pr_ltb p q =
      key_ltb (parse_version digit p.version) p.number (parse_version digit q.version) q.number

  unfoldable pub insert_pr : RolloutPr → List RolloutPr → List RolloutPr
  unfolding pr_ltb
  insert_pr p [] = p ∷ []
  insert_pr p (q ∷ qs) = let rest = insert_pr p qs in if pr_ltb q p then q ∷ rest else p ∷ q ∷ qs

  unfoldable pub sort_prs : List RolloutPr → List RolloutPr
  unfolding insert_pr
  sort_prs [] = []
  sort_prs (p ∷ ps) = insert_pr p (sort_prs ps)

  unfoldable pub eligible_rollout_prs : String → String → String → List Fields → List RolloutPr
  unfolding collect_eligible sort_prs
  eligible_rollout_prs repository base_branch expected_bot prs =
      sort_prs (collect_eligible repository base_branch expected_bot prs)

-- `eligible[-1] if eligible else None`
unfoldable pub last_pr : List RolloutPr → Option RolloutPr
last_pr [] = none
last_pr (p ∷ []) = some p
last_pr (p ∷ q ∷ qs) = last_pr (q ∷ qs)

unfoldable pub authoritative_pending_rollout :
    (ℕ → Option ℕ) → String → String → String → List Fields → Option RolloutPr
unfolding last_pr eligible_rollout_prs
authoritative_pending_rollout digit repository base_branch expected_bot prs =
    last_pr (eligible_rollout_prs digit repository base_branch expected_bot prs)
