-- ===== src/Base/Sorting.antt =====
-- `sorted(set(xs))` for texts, which Python orders by code points.
use Prim.Native.Char.{code}
use Prim.Native.String.{String, [], ◌∷◌}
use mathlib.Core.Path.{◌≡◌, refl}
use mathlib.Core.Bool.{Bool, true, false, ◌||◌}
use mathlib.Core.List.{List}
use native.Mathlib.Omega.{arith}
use text.Mathlib.Text.{◌==◌}
use text.Mathlib.TextEquality.{eq_iff}
use dev_platform.Base.Tests.{ltb, ◌=?◌, if◌then◌else◌}
use dev_platform.Base.Lists.{contains, is_empty}

unfoldable pub string_ltb : String → String → Bool
string_ltb [] [] = false
string_ltb [] (d ∷ t) = true
string_ltb (c ∷ s) [] = false
string_ltb (c ∷ s) (d ∷ t) =
    if ltb (code c) (code d) then true else if code c =? code d then string_ltb s t else false

unfoldable pub insert_text : String → List String → List String
unfolding string_ltb
insert_text a List.[] = List.◌∷◌ a List.[]
insert_text a (List.◌∷◌ x xs) =
    let rest = insert_text a xs in
    if a == x
    then List.◌∷◌ x xs
    else if string_ltb a x
    then List.◌∷◌ a (List.◌∷◌ x xs)
    else List.◌∷◌ x rest

unfoldable pub sorted_set : List String → List String
unfolding insert_text
sorted_set List.[] = List.[]
sorted_set (List.◌∷◌ x xs) = insert_text x (sorted_set xs)

contains-insert_text :
    (a : String) (xs : List String) (b : String)
    → contains (insert_text a xs) b ≡ (b == a || contains xs b)
unfolding insert_text
contains-insert_text a List.[] b = refl
contains-insert_text a (List.◌∷◌ x xs) b =
    ground (arith, contains-insert_text a xs b, eq_iff a x, eq_iff b x, eq_iff b a)

pub contains-sorted_set :
    (xs : List String) (b : String) → contains (sorted_set xs) b ≡ contains xs b
unfolding sorted_set
contains-sorted_set List.[] b = refl
contains-sorted_set (List.◌∷◌ x xs) b =
    ground (arith, contains-insert_text x (sorted_set xs) b, contains-sorted_set xs b)

is_empty-insert_text : (a : String) (xs : List String) → is_empty (insert_text a xs) ≡ false
unfolding insert_text
is_empty-insert_text a List.[] = refl
is_empty-insert_text a (List.◌∷◌ x xs) = ground arith

pub is_empty-sorted_set : (xs : List String) → is_empty (sorted_set xs) ≡ is_empty xs
unfolding sorted_set
is_empty-sorted_set List.[] = refl
is_empty-sorted_set (List.◌∷◌ x xs) = is_empty-insert_text x (sorted_set xs)
