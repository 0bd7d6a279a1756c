-- ===== src/Rollout/Streak/Rendered.antt =====
-- The state's block is found in a body that was rendered.
use dev_platform.Base.{
  ◌≡◌, refl, ◌∙◌, String, ◌<>◌, true, some, List, [], ◌∷◌, ◌++◌, all, and_left, and_right,
}
use dev_platform.Base.Json.{Json, Fields}
use dev_platform.Rollout.Block.{find_block}
use dev_platform.Rollout.Block.Found.{
  opening, is_plain, is_one_line, find_block-after, find_block-opening,
}
use dev_platform.Rollout.Streak.{join_lines, summary_lines, sorted_fields, render_body}

find_block-join_lines :
    (ls ms : List String)
    → all is_plain ls ≡ true
    → find_block (join_lines (ls ++ ms)) ≡ find_block (join_lines ms)
unfolding join_lines
find_block-join_lines [] ms h = refl
find_block-join_lines (l ∷ ls) ms h =
    find_block-after l ("\n" <> join_lines (ls ++ ms)) (and_left _ _ h)
    ∙ find_block-after "\n" (join_lines (ls ++ ms)) refl
    ∙ find_block-join_lines ls ms (and_right _ _ h)

-- Where no line before the block has a `<`, and the state is written on one line.
pub find_block-render_body :
    (text_of : Json → String) (dumps : Fields → String) (state : Fields)
    → all is_plain (summary_lines text_of state) ≡ true
    → is_one_line (dumps (sorted_fields state)) ≡ true
    → find_block (render_body text_of dumps state) ≡ some (dumps (sorted_fields state))
unfolding render_body
find_block-render_body text_of dumps state h k =
    find_block-join_lines (summary_lines text_of state)
      (opening ∷ dumps (sorted_fields state) ∷ "-->" ∷ []) h
    ∙ find_block-opening (dumps (sorted_fields state)) k
