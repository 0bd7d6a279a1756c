-- ===== src/Rollout/Block.antt =====
-- `STATE_RE.search(body)` of `scripts/rollout_failure_streak.py`: the first place where the expression matches, and
-- the shortest text of its group. What is white space for `\s` is what `str.isspace` accepts.
pub mod Found
use Prim.Native.Char.{code}
use Prim.Native.String.{String, [], ◌∷◌}
use mathlib.Core.Option
use dev_platform.Base.{Option, none, some}
use dev_platform.Base.Text.{lstrip}
use dev_platform.Rollout.Identity.{after_prefix}

-- The text before the first place of a mark.
unfoldable pub until : String → String → Option String
unfolding after_prefix
until mark [] = none
until mark (c ∷ s) =
    let rest = until mark s in
    elim (after_prefix mark (c ∷ s)) [
      | none ↦ elim rest [ none ↦ none | some t ↦ some (c ∷ t) ]
      | some after ↦ some []
    ]

unfoldable pub after_name : Option String → Option String
unfolding until
after_name none = none
after_name (some s) = until "\n-->" s

unfoldable pub after_opening : Option String → Option String
unfolding after_prefix lstrip after_name
after_opening none = none
after_opening (some s) = after_name (after_prefix "rollout-failure-streak-state\n" (lstrip s))

-- The group of a match at the start of a text.
unfoldable pub block_at : String → Option String
unfolding after_prefix after_opening
block_at s = after_opening (after_prefix "<!--" s)

unfoldable pub find_block : String → Option String
unfolding block_at
find_block [] = none
find_block (c ∷ s) =
    let later = find_block s in elim (block_at (c ∷ s)) [ none ↦ later | some block ↦ some block ]
