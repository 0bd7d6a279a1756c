-- ===== src/Base/Lookup.antt =====
-- What reading a key gives after another key was written.
use dev_platform.Base.Tests.{if◌then◌else◌}
use mathlib.Core.Path.{◌≡◌, refl, subst}
use mathlib.Core.Bool.{Bool, true, false}
use mathlib.Core.Option.{some}
use Prim.Native.String.{String}
use native.Mathlib.Omega.{arith}
use text.Mathlib.Text.{◌==◌}
use text.Mathlib.TextEquality.{eq_iff}
use dev_platform.Base.Json.{Json, Fields, close, field, lookup, set_field, set_default}

pub lookup-set_field : (k : String) (v : Json) (fs : Fields) → lookup k (set_field k v fs) ≡ some v
unfolding lookup set_field
lookup-set_field k v close = ground (arith, eq_iff k k)
lookup-set_field k v (field j w fs) = at_head (k == j) refl (lookup-set_field k v fs)
  where
    at_head :
        (b : Bool)
        → (k == j) ≡ b
        → lookup k (set_field k v fs) ≡ some v
        → lookup k (if b then field k v fs else field j w (set_field k v fs)) ≡ some v
    at_head true e h = ground (arith, eq_iff k k)
    at_head false e h = rw e h

other : (k i j : String) → (k == j) ≡ false → (j == i) ≡ true → (k == i) ≡ false
other k i j e f = subst (λ t. (k == t) ≡ false) ((eq_iff j i).0 f) e

pub lookup-set_field-other :
    (k j : String) (v : Json) (fs : Fields)
    → (k == j) ≡ false
    → lookup k (set_field j v fs) ≡ lookup k fs
unfolding lookup set_field
lookup-set_field-other k j v close e = rw e refl
lookup-set_field-other k j v (field i w fs) e =
    at_head (j == i) refl (lookup-set_field-other k j v fs e)
  where
    at_head :
        (b : Bool)
        → (j == i) ≡ b
        → lookup k (set_field j v fs) ≡ lookup k fs
        → lookup k (if b then field j v fs else field i w (set_field j v fs))
          ≡ (if k == i then some w else lookup k fs)
    at_head true f h = rw (e, other k i j e f) refl
    at_head false f h = rw h refl

pub lookup-set_default-other :
    (k j : String) (v : Json) (fs : Fields)
    → (k == j) ≡ false
    → lookup k (set_default j v fs) ≡ lookup k fs
unfolding lookup set_default
lookup-set_default-other k j v close e = rw e refl
lookup-set_default-other k j v (field i w fs) e =
    at_head (j == i) (lookup-set_default-other k j v fs e)
  where
    at_head :
        (b : Bool)
        → lookup k (set_default j v fs) ≡ lookup k fs
        → lookup k (if b then field i w fs else field i w (set_default j v fs))
          ≡ (if k == i then some w else lookup k fs)
    at_head true h = refl
    at_head false h = rw h refl
