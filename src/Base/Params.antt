-- ===== src/Base/Params.antt =====
-- `URLSearchParams` of the browser: pairs in order, where a key may stand more than once.
use quagenticus.Base.Tests.{◌==◌, string_eq, if◌then◌else◌}
use quagenticus.Base.Lists.{keep}
use quagenticus.Base.Dicts.{Dict, lookup}
use Prim.Native.String.{String}
use mathlib.Core.Path.{◌≡◌, refl}
use mathlib.Core.Bool.{not}
use mathlib.Core.Option.{none, some}
use mathlib.Core.List.{[], ◌∷◌}
use native.Mathlib.Omega.{arith}
use text.Mathlib.TextEquality.{eq_iff}

-- `p.delete(k)`
abbrev pub delete_param : String → Dict String → Dict String
delete_param k = keep (λ e. not (e.0 == k))

-- `p.set(k, v)`: the first occurrence is replaced, and the others are deleted
abbrev pub set_param : String → String → Dict String → Dict String
set_param k v [] = (k, v) ∷ []
set_param k v ((j, w) ∷ d) = if j == k then (k, v) ∷ delete_param k d else (j, w) ∷ set_param k v d

-- `p.get` is `lookup`.
pub lookup-delete_param :
    (k j : String) (d : Dict String)
    → lookup j (delete_param k d) ≡ (if k == j then none else lookup j d)
lookup-delete_param k j [] = ground arith
lookup-delete_param k j ((i, w) ∷ d) =
    ground (arith, eq_iff k j, eq_iff i k, eq_iff i j, lookup-delete_param k j d)

pub lookup-set_param :
    (k j : String) (v : String) (d : Dict String)
    → lookup j (set_param k v d) ≡ (if k == j then some v else lookup j d)
lookup-set_param k j v [] = refl
lookup-set_param k j v ((i, w) ∷ d) =
    ground (
      arith,
      eq_iff k j,
      eq_iff i k,
      eq_iff i j,
      lookup-set_param k j v d,
      lookup-delete_param k j d,
    )
