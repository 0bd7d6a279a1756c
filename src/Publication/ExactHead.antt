-- ===== src/Publication/ExactHead.antt =====
-- The pull request of a task's branch, base and exact head: `stable_pr_ref` and `find_exact_head_pr`, on GitHub's
-- list of candidates. `upper` is Python's `str.upper` and `text_of` is `str`.
pub mod Identity
use dev_platform.Base.{String, Bool, true, false, not, ◌&&◌, ◌||◌, ◌==◌, Option, none, some}
use dev_platform.Base.{List, [], ◌∷◌, if◌then◌else◌}
use dev_platform.Base.Text.{strip}
use dev_platform.Base.Json.{ℤ, pos, Json, str, Fields, lookup, set_field}
use dev_platform.Rollout.Identity.{after_prefix, as_int, int_ltb}
use dev_platform.Publication.Required.{text_at}

-- The four pull requests that the loop looks for.
pub record Found : Type 0 where
  pub exact_open : Option Fields
  pub exact_merged : Option Fields
  pub stale_open : Option Fields
  pub exact_closed : Option Fields

pub data LookupError : Type 0 where
  no_candidates no_stable_ref several_open several_merged several_closed open_and_merged :
      LookupError

-- `ExactHeadPrLookup`, available or not
pub data HeadLookup : Type 0 where
  not_available : LookupError → HeadLookup
  available : Found → HeadLookup

starts_with : String → String → Bool
unfolding after_prefix
starts_with prefix s = elim (after_prefix prefix s) [ none ↦ false | some rest ↦ true ]

is_positive : Option ℤ → Bool
unfolding int_ltb
is_positive none = false
is_positive (some z) = int_ltb (pos 0) z

-- What the loop does with a candidate of the branch and base, by its head and state.
unfoldable pub place_open : Fields → Found → HeadLookup
place_open pr found = elim found.exact_open [
  | none ↦ available (record found { exact_open = some pr })
  | some other ↦ not_available several_open
]

unfoldable pub place_merged : Fields → Found → HeadLookup
place_merged pr found = elim found.exact_merged [
  | none ↦ available (record found { exact_merged = some pr })
  | some other ↦ not_available several_merged
]

unfoldable pub place_closed : Fields → Found → HeadLookup
place_closed pr found = elim found.exact_closed [
  | none ↦ available (record found { exact_closed = some pr })
  | some other ↦ not_available several_closed
]

unfoldable pub place_stale : Fields → Found → HeadLookup
place_stale pr found = elim found.stale_open [
  | none ↦ available (record found { stale_open = some pr })
  | some other ↦ available found
]

unfoldable pub place : Bool → String → Fields → Found → HeadLookup
unfolding place_open place_merged place_closed place_stale
place at_head state pr found =
    if at_head && state == "OPEN"
    then place_open pr found
    else if at_head && state == "MERGED"
    then place_merged pr found
    else if at_head && state == "CLOSED"
    then place_closed pr found
    else if state == "OPEN"
    then place_stale pr found
    else available found

abbrev pub nothing_found : Found
nothing_found = record {
  exact_open = none;
  exact_merged = none;
  stale_open = none;
  exact_closed = none;
}

-- The test after the loop.
concluded : HeadLookup → HeadLookup
concluded (not_available e) = not_available e
concluded (available found) = elim found.exact_open [
  | none ↦ available found
  | some pr ↦ elim found.exact_merged [
    | none ↦ available found
    | some other ↦ not_available open_and_merged
  ]
]

module _ (upper : String → String) (text_of : Json → String) where
  url_ref : String → Option String
  unfolding starts_with
  url_ref url = if starts_with "https://" url || starts_with "http://" url then some url else none

  ref_of : Option Json → String → Option String
  unfolding is_positive as_int url_ref
  ref_of none url = url_ref url
  ref_of (some j) url = if is_positive (as_int (some j)) then some (text_of j) else url_ref url

  -- `none` is the `ValueError`.
  unfoldable pub stable_pr_ref : Fields → Option String
  unfolding ref_of lookup text_at strip
  stable_pr_ref pr = ref_of (lookup "number" pr) (strip (text_at upper text_of "url" pr))

  unfoldable pub state_of_pr : Fields → String
  unfolding text_at strip
  state_of_pr c = upper (strip (text_at upper text_of "state" c))

  unfoldable pub head_of_pr : Fields → String
  unfolding text_at strip
  head_of_pr c = strip (text_at upper text_of "headRefOid" c)

  -- the copy with its state and head normalised
  unfoldable pub normalised : Fields → Fields
  unfolding set_field state_of_pr head_of_pr
  normalised c =
      set_field "headRefOid" (str (head_of_pr c)) (set_field "state" (str (state_of_pr c)) c)

  module _ (branch base_branch local_head : String) where
    unfoldable pub is_candidate : Fields → Bool
    unfolding text_at strip
    is_candidate c =
        strip (text_at upper text_of "baseRefName" c) == base_branch
        && strip (text_at upper text_of "headRefName" c) == branch

    placed : Fields → Option String → Found → HeadLookup
    unfolding place normalised head_of_pr state_of_pr
    placed c none found = not_available no_stable_ref
    placed c (some ref) found =
        place (head_of_pr c == local_head) (state_of_pr c) (normalised c) found

    unfoldable pub step : Fields → Found → HeadLookup
    unfolding is_candidate placed stable_pr_ref normalised
    step c found =
        if is_candidate c then placed c (stable_pr_ref (normalised c)) found else available found

    unfoldable pub scan : List Fields → HeadLookup → HeadLookup
    unfolding step
    scan cs (not_available e) = not_available e
    scan [] (available found) = available found
    scan (c ∷ cs) (available found) = scan cs (step c found)

    -- `none` stands for a list of candidates that cannot be read.
    unfoldable pub find_exact_head_pr : Option (List Fields) → HeadLookup
    unfolding concluded scan
    find_exact_head_pr none = not_available no_candidates
    find_exact_head_pr (some candidates) = concluded (scan candidates (available nothing_found))
