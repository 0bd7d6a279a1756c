-- ===== src/Rollout/Version.antt =====
-- `parse_version` of `template/scripts/rollout_identity.py`, and Python's order on the tuples it returns.
-- `digit` is the decimal value that Unicode gives a code point, which both `\d` and `int` go by.
pub mod Order
use Prim.Native.Char.{code}
use Prim.Native.String.{String}
use Prim.Native.String
use dev_platform.Base.{
  ℕ, ◌+◌, ◌*◌, Bool, true, false, not, ◌&&◌, ◌||◌, ◌=?◌, ltb, Option, none, some,
}
use dev_platform.Base.{List, [], ◌∷◌, length, is_empty, if◌then◌else◌}
use mathlib.Core.Option

abbrev pub Version : Type 0
Version = ℕ × ℕ × ℕ

abbrev pub codes : String → List ℕ
codes String.[] = []
codes (String.◌∷◌ c s) = code c ∷ codes s

unfoldable pub version_ltb : Version → Version → Bool
version_ltb (a, b, c) (x, y, z) = ltb a x || (a =? x && (ltb b y || (b =? y && ltb c z)))

unfoldable pub version_leb : Version → Version → Bool
unfolding version_ltb
version_leb v w = not (version_ltb w v)

module _ (digit : ℕ → Option ℕ) where
  -- The longest prefix of `\d`s, as its digits' values, and what follows it.
  unfoldable pub digits : List ℕ → List ℕ × List ℕ
  digits [] = ([], [])
  digits (c ∷ cs) = elim (digit c) [
    | none ↦ ([], c ∷ cs)
    | some d ↦ (d ∷ (digits cs).0, (digits cs).1)
  ]

  unfoldable pub number : ℕ → List ℕ → ℕ
  number n [] = n
  number n (d ∷ ds) = number (n * 10 + d) ds

  -- `0|[1-9]\d*`: the first digit is ASCII, and a leading zero stands alone.
  unfoldable pub component : List ℕ → Option (ℕ × List ℕ)
  unfolding digits number
  component [] = none
  component (c ∷ cs) =
      if c =? b'0'
      then some (0, cs)
      else if ltb b'0' c && ltb c 58
      then some (number 0 ((digits (c ∷ cs)).0), (digits (c ∷ cs)).1)
      else none

  dot : List ℕ → Option (List ℕ)
  dot [] = none
  dot (c ∷ cs) = if c =? b'.' then some cs else none

  at_end : ℕ × List ℕ → Option ℕ
  at_end (n, []) = some n
  at_end (n, c ∷ cs) = none

  unfoldable pub components : List ℕ → Option Version
  unfolding component dot at_end
  components cs = Option.bind (component cs) (λ (a, r). Option.bind (dot r) (λ r.
      Option.bind (component r) (λ (b, r).
        Option.bind (dot r)
          (λ r. Option.bind (component r) (λ t. Option.map (λ c. (a, b, c)) (at_end t))))))

  -- `none` is the `ValueError`.
  unfoldable pub parse_codes : List ℕ → Option Version
  unfolding components
  parse_codes [] = none
  parse_codes (c ∷ cs) = if c =? b'v' then components cs else none

  unfoldable pub parse_version : String → Option Version
  unfolding parse_codes
  parse_version version = parse_codes (codes version)
