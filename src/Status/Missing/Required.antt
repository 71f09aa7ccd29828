-- ===== src/Status/Missing/Required.antt =====
-- The map of the required components, where their names are set and distinct.
use grpc_test_infra.Base.{
  String, false, Option, some, List, [], ◌∷◌, ◌++◌, map, returns, ◌≡◌, refl, ap, ◌∙◌, deref, ◌>>=◌,
  All-of, ◌==◌, All, All-zip, get_or,
}
use mathlib.Core.List.{append-nil, append_assoc}
use grpc_test_infra.Base.Dict.{Dict, lookup, has, insert, insert-fresh, has-insert}
use grpc_test_infra.Api.{Component}
use grpc_test_infra.Status.Missing.{require_all}

abbrev pub name_of : Component → String
name_of c = get_or "" c.name

-- Every name is set, and no two are equal.
abbrev pub AreDistinct : List Component → Type 0
AreDistinct [] = Unit
AreDistinct (c ∷ cs) =
    (c.name ≡ some (name_of c)) × All (λ d. (name_of c == name_of d) ≡ false) cs × AreDistinct cs

abbrev pub entries : List Component → Dict Component
entries cs = map (λ c. (name_of c, c)) cs

require_all-append :
    (cs : List Component) (m : Dict Component)
    → AreDistinct cs
    → All (λ c. has (name_of c) m ≡ false) cs
    → require_all cs m ≡ returns (m ++ entries cs)
unfolding require_all
require_all-append [] m h fresh = rw append-nil
require_all-append (c ∷ cs) m (named, apart, rest) (new, fresh) =
    ap (λ (o : Option String). deref o >>= λ name. require_all cs (insert name c m)) named
    ∙ require_all-append cs (insert (name_of c) c m) rest
        (All-zip (λ d p q. rw (has-insert, p) q) cs apart fresh)
    ∙ rw (insert-fresh _ c m new, append_assoc)

pub require_all-eq :
    (cs : List Component) → AreDistinct cs → require_all cs [] ≡ returns (entries cs)
unfolding has lookup
require_all-eq cs h = require_all-append cs [] h (All-of (λ d. refl) cs)
