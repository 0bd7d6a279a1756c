-- ===== src/Base/Text.antt =====
-- `str.strip()`: Python's white space, taken off both ends of a text.
use Prim.Native.Char.{code}
use Prim.Native.String.{String, [], ◌∷◌}
use mathlib.Core.Path.{◌≡◌, refl, sym, ◌∙◌}
use mathlib.Core.Bool.{Bool, true, false, ◌&&◌, ◌||◌}
use native.Mathlib.Omega.{arith}
use Prim.Native.Nat.{ℕ}
use dev_platform.Base.Tests.{leb, ◌=?◌, if◌then◌else◌}

-- The code points that `str.isspace` accepts.
unfoldable pub is_space : ℕ → Bool
is_space c =
    (leb 9 c && leb c 13)
    || (leb 28 c && leb c 32)
    || c =? 133
    || c =? 160
    || c =? 5760
    || (leb 8192 c && leb c 8202)
    || c =? 8232
    || c =? 8233
    || c =? 8239
    || c =? 8287
    || c =? 12288

unfoldable pub lstrip : String → String
unfolding is_space
lstrip [] = []
lstrip (c ∷ s) = if is_space (code c) then lstrip s else c ∷ s

-- `not s`
unfoldable pub is_nil : String → Bool
is_nil [] = true
is_nil (c ∷ s) = false

unfoldable pub rstrip : String → String
unfolding is_space is_nil
rstrip [] = []
rstrip (c ∷ s) = let rest = rstrip s in if is_space (code c) && is_nil rest then [] else c ∷ rest

unfoldable pub strip : String → String
unfolding lstrip rstrip
strip s = rstrip (lstrip s)

-- `not s.strip()`
unfoldable pub is_blank : String → Bool
unfolding strip
is_blank s = is_nil (strip s)

all_space : String → Bool
all_space [] = true
all_space (c ∷ s) = is_space (code c) && all_space s

all_space-lstrip : (s : String) → all_space (lstrip s) ≡ all_space s
unfolding all_space lstrip
all_space-lstrip [] = refl
all_space-lstrip (c ∷ s) = ground (arith, all_space-lstrip s)

all_space-rstrip : (s : String) → all_space (rstrip s) ≡ all_space s
unfolding all_space rstrip
all_space-rstrip [] = refl
all_space-rstrip (c ∷ s) = ground (arith, all_space-rstrip s)

is_nil-rstrip : (s : String) → is_nil (rstrip s) ≡ all_space s
unfolding all_space rstrip
is_nil-rstrip [] = refl
is_nil-rstrip (c ∷ s) = ground (arith, is_nil-rstrip s)

is_blank_lem : (s : String) → is_blank s ≡ all_space s
unfolding is_blank strip
is_blank_lem s = is_nil-rstrip (lstrip s) ∙ all_space-lstrip s

-- A text that is not blank is not blank after it is stripped.
pub is_blank-strip : (s : String) → is_blank (strip s) ≡ is_blank s
unfolding strip
is_blank-strip s =
    is_blank_lem (rstrip (lstrip s))
    ∙ all_space-rstrip (lstrip s)
    ∙ all_space-lstrip s
    ∙ sym (is_blank_lem s)
