-- ===== src/Routing/Plan/Values.antt =====
-- What the tests of a plan's fields show of their values.
use dev_platform.Base.{
  ◌≡◌, refl, String, Bool, true, false, Option, none, some, List, contains, arith, and_left,
  and_right,
}
use dev_platform.Base.Json.{Json, null, bool, int, float, str, arr, obj, Fields, Items, end, item}
use dev_platform.Base.Result.{ok}
use dev_platform.Base.Text.{is_nil, is_blank}
use dev_platform.Routing.{require, one_of, is_nonempty, is_nonblank, is_dict, is_exactly}
use dev_platform.Routing.Plan.{need, all_nonempty, is_text_list}

-- A text of the list.
abbrev pub IsOneOf : List String → Option Json → Type 0
IsOneOf texts value = (s : String) × (value ≡ some (str s)) × (contains texts s ≡ true)

abbrev pub IsNonempty : Option Json → Type 0
IsNonempty value = (s : String) × (value ≡ some (str s)) × (is_nil s ≡ false)

abbrev pub IsObject : Option Json → Type 0
IsObject value = (fs : Fields) × (value ≡ some (obj fs))

-- A text that is not only white space.
abbrev pub IsNonblank : Option Json → Type 0
IsNonblank value = (s : String) × (value ≡ some (str s)) × (is_blank s ≡ false)

abbrev pub AllNonempty : Items → Type 0
AllNonempty end = Unit
AllNonempty (item j js) = IsNonempty (some j) × AllNonempty js

-- A list that is not empty, of texts that are not.
abbrev pub IsTextList : Option Json → Type 0
IsTextList value =
    (j : Json) × (js : Items) × (value ≡ some (arr (item j js))) × AllNonempty (item j js)

pub needed : (name : String) (b : Bool) {u : Unit} → need name b ≡ ok u → b ≡ true
unfolding need require
needed name true h = refl
needed name false h = cc

pub one_of-IsOneOf :
    (texts : List String) (value : Option Json) → one_of texts value ≡ true → IsOneOf texts value
unfolding one_of
one_of-IsOneOf texts none h = cc
one_of-IsOneOf texts (some (str s)) h = (s, refl, h)
one_of-IsOneOf texts (some null) h = cc
one_of-IsOneOf texts (some (bool b)) h = cc
one_of-IsOneOf texts (some (int z)) h = cc
one_of-IsOneOf texts (some (float f)) h = cc
one_of-IsOneOf texts (some (arr js)) h = cc
one_of-IsOneOf texts (some (obj fs)) h = cc

pub is_nonempty-IsNonempty : (value : Option Json) → is_nonempty value ≡ true → IsNonempty value
unfolding is_nonempty
is_nonempty-IsNonempty none h = cc
is_nonempty-IsNonempty (some (str s)) h = (s, refl, ground arith)
is_nonempty-IsNonempty (some null) h = cc
is_nonempty-IsNonempty (some (bool b)) h = cc
is_nonempty-IsNonempty (some (int z)) h = cc
is_nonempty-IsNonempty (some (float f)) h = cc
is_nonempty-IsNonempty (some (arr js)) h = cc
is_nonempty-IsNonempty (some (obj fs)) h = cc

pub is_dict-IsObject : (value : Option Json) → is_dict value ≡ true → IsObject value
unfolding is_dict
is_dict-IsObject none h = cc
is_dict-IsObject (some (obj fs)) h = (fs, refl)
is_dict-IsObject (some null) h = cc
is_dict-IsObject (some (bool b)) h = cc
is_dict-IsObject (some (int z)) h = cc
is_dict-IsObject (some (float f)) h = cc
is_dict-IsObject (some (arr js)) h = cc
is_dict-IsObject (some (str s)) h = cc

pub is_nonblank-IsNonblank : (value : Option Json) → is_nonblank value ≡ true → IsNonblank value
unfolding is_nonblank
is_nonblank-IsNonblank none h = cc
is_nonblank-IsNonblank (some null) h = cc
is_nonblank-IsNonblank (some (bool b)) h = cc
is_nonblank-IsNonblank (some (int z)) h = cc
is_nonblank-IsNonblank (some (float f)) h = cc
is_nonblank-IsNonblank (some (str s)) h = (s, refl, ground arith)
is_nonblank-IsNonblank (some (arr js)) h = cc
is_nonblank-IsNonblank (some (obj fs)) h = cc

all_nonempty-AllNonempty : (js : Items) → all_nonempty js ≡ true → AllNonempty js
unfolding all_nonempty
all_nonempty-AllNonempty end h = tt
all_nonempty-AllNonempty (item j js) h = (
  is_nonempty-IsNonempty (some j) (and_left _ _ h),
  all_nonempty-AllNonempty js (and_right _ _ h),
)

pub is_text_list-IsTextList : (value : Option Json) → is_text_list value ≡ true → IsTextList value
unfolding is_text_list
is_text_list-IsTextList none h = cc
is_text_list-IsTextList (some null) h = cc
is_text_list-IsTextList (some (bool b)) h = cc
is_text_list-IsTextList (some (int z)) h = cc
is_text_list-IsTextList (some (float f)) h = cc
is_text_list-IsTextList (some (str s)) h = cc
is_text_list-IsTextList (some (arr end)) h = cc
is_text_list-IsTextList (some (arr (item j js))) h =
    (j, js, refl, all_nonempty-AllNonempty (item j js) h)
is_text_list-IsTextList (some (obj fs)) h = cc

pub is_exactly-false :
    (value : Option Json) → is_exactly false value ≡ true → value ≡ some (bool false)
unfolding is_exactly
is_exactly-false none h = cc
is_exactly-false (some null) h = cc
is_exactly-false (some (bool false)) h = refl
is_exactly-false (some (bool true)) h = cc
is_exactly-false (some (int z)) h = cc
is_exactly-false (some (float f)) h = cc
is_exactly-false (some (str s)) h = cc
is_exactly-false (some (arr js)) h = cc
is_exactly-false (some (obj fs)) h = cc
