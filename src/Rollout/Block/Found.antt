-- ===== src/Rollout/Block/Found.antt =====
-- The block of a body is found, where the lines before it open no comment and the state stands on one line.
use Prim.Native.Char.{Char, code}
use text.Mathlib.TextLemmas.{nil-append, cons-append, append_assoc}
use Prim.Native.String.{String, ◌++◌ as ◌<>◌}
use dev_platform.Base.{
  ℕ, sym, ◌≡◌, refl, ap, ◌∙◌, Bool, true, false, not, ◌&&◌, ◌=?◌, Option, none, some, and_left,
  and_right, if◌then◌else◌, arith,
}
use dev_platform.Base.Text.{is_space, is_nil, lstrip}
use dev_platform.Rollout.Identity.{after_prefix}
use dev_platform.Rollout.Block.{until, after_name, after_opening, block_at, find_block}

-- No character of the text opens a comment.
abbrev pub is_plain : String → Bool
is_plain String.[] = true
is_plain (String.◌∷◌ c s) = not (60 =? code c) && is_plain s

abbrev pub is_one_line : String → Bool
is_one_line String.[] = true
is_one_line (String.◌∷◌ c s) = not (10 =? code c) && is_one_line s

not-false : {b : Bool} → not b ≡ true → b ≡ false
not-false h = ground arith

block_at-plain : (c : Char) (s : String) → (60 =? code c) ≡ false → block_at (String.◌∷◌ c s) ≡ none
unfolding block_at
block_at-plain c s h = rw h refl

find_block-plain :
    (c : Char) (s : String) → (60 =? code c) ≡ false → find_block (String.◌∷◌ c s) ≡ find_block s
unfolding find_block
find_block-plain c s h =
    ap (λ o. elim o as (λ p. Option String) [ none ↦ find_block s | some block ↦ some block ])
      (block_at-plain c s h)

pub find_block-after : (p q : String) → is_plain p ≡ true → find_block (p <> q) ≡ find_block q
find_block-after String.[] q h = ap find_block (nil-append q)
find_block-after (String.◌∷◌ c p) q h =
    ap find_block (cons-append c p q)
    ∙ find_block-plain c (p <> q) (not-false (and_left _ _ h))
    ∙ find_block-after p q (and_right _ _ h)

no_mark :
    (c : Char) (s : String) → (10 =? code c) ≡ false → after_prefix "\n-->" (String.◌∷◌ c s) ≡ none
unfolding after_prefix
no_mark c s h = rw h refl

before : Char → Option String → Option String
before c o = elim o [ none ↦ none | some t ↦ some (String.◌∷◌ c t) ]

until-before :
    (c : Char) (s : String)
    → (10 =? code c) ≡ false
    → until "\n-->" (String.◌∷◌ c s) ≡ before c (until "\n-->" s)
unfolding until before
until-before c s h =
    ap
      (λ o. elim o as (λ p. Option String) [
        | none ↦ elim (until "\n-->" s) [ none ↦ none | some t ↦ some (String.◌∷◌ c t) ]
        | some after ↦ some String.[]
      ])
      (no_mark c s h)

until_mark : (d : String) → is_one_line d ≡ true → until "\n-->" (d <> "\n-->\n") ≡ some d
unfolding until before
until_mark String.[] h = refl
until_mark (String.◌∷◌ c d) h =
    ap (until "\n-->") (cons-append c d "\n-->\n")
    ∙ until-before c (d <> "\n-->\n") (not-false (and_left _ _ h))
    ∙ ap (before c) (until_mark d (and_right _ _ h))

same_code : (n : ℕ) → (n =? n) ≡ true
same_code n = ground arith

after_prefix-append : (p s : String) → after_prefix p (p <> s) ≡ some s
unfolding after_prefix
after_prefix-append String.[] s = ap some (nil-append s)
after_prefix-append (String.◌∷◌ c p) s =
    ap (after_prefix (String.◌∷◌ c p)) (cons-append c p s)
    ∙ ap (λ b. if b then after_prefix p (p <> s) else none) (same_code (code c))
    ∙ after_prefix-append p s

-- The block that `render_body` ends with.
abbrev pub opening : String
opening = "<!-- rollout-failure-streak-state"

abbrev name_line : String
name_line = "rollout-failure-streak-state\n"

starts_blank : String → Bool
starts_blank String.[] = false
starts_blank (String.◌∷◌ c s) = is_space (code c)

lstrip-blank :
    (c : Char) (s : String) → is_space (code c) ≡ true → lstrip (String.◌∷◌ c s) ≡ lstrip s
unfolding lstrip
lstrip-blank c s h = ap (λ b. if b then lstrip s else String.◌∷◌ c s) h

lstrip-solid :
    (c : Char) (s : String) → is_space (code c) ≡ false → lstrip (String.◌∷◌ c s) ≡ String.◌∷◌ c s
unfolding lstrip
lstrip-solid c s h = ap (λ b. if b then lstrip s else String.◌∷◌ c s) h

lstrip-after_space :
    (p s : String) → starts_blank p ≡ false → is_nil p ≡ false → lstrip (" " <> (p <> s)) ≡ p <> s
unfolding starts_blank is_nil is_space
lstrip-after_space String.[] s h k = cc
lstrip-after_space (String.◌∷◌ c p) s h k =
    ap lstrip (cons-append _ String.[] _)
    ∙ lstrip-blank _ _ refl
    ∙ ap lstrip (nil-append _ ∙ cons-append c p s)
    ∙ lstrip-solid c (p <> s) h
    ∙ sym (cons-append c p s)

lstrip-name : (s : String) → lstrip (" " <> (name_line <> s)) ≡ name_line <> s
unfolding starts_blank is_nil is_space
lstrip-name s = lstrip-after_space name_line s refl refl

block_at-opening :
    (d : String) → is_one_line d ≡ true → block_at (opening <> ("\n" <> (d <> "\n-->\n"))) ≡ some d
unfolding block_at
block_at-opening d h =
    let state = d <> "\n-->\n" in
    let split =
      sym (append_assoc opening "\n" state)
      ∙ append_assoc "<!--" (" " <> name_line) state
      ∙ ap (λ t. "<!--" <> t) (append_assoc " " name_line state) in
    ap block_at split
    ∙ ap after_opening (after_prefix-append "<!--" (" " <> (name_line <> state)))
    ∙ ap (λ t. after_name (after_prefix name_line t)) (lstrip-name (d <> "\n-->\n"))
    ∙ ap after_name (after_prefix-append name_line (d <> "\n-->\n"))
    ∙ until_mark d h

find_block-here : (s d : String) → block_at s ≡ some d → find_block s ≡ some d
unfolding find_block
find_block-here String.[] d h = cc
find_block-here (String.◌∷◌ c s) d h =
    ap (λ o. elim o as (λ p. Option String) [ none ↦ find_block s | some block ↦ some block ]) h

pub find_block-opening :
    (d : String)
    → is_one_line d ≡ true
    → find_block (opening <> ("\n" <> (d <> "\n-->\n"))) ≡ some d
find_block-opening d h = find_block-here _ d (block_at-opening d h)
