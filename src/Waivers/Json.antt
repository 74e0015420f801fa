-- ===== src/Waivers/Json.antt =====
-- The values of a waiver entry, as `json.loads` gives them; numbers are natural numbers.
use arvern_ips.Prelude.{
  ℕ, Bool, true, false, not, none, some, List, [], ◌∷◌, ◌==◌, is_nil, nat_eq, list_eq, pair_eq,
  Text, codes,
}
use arvern_ips.Prelude.Dict.{Dict, lookup}
use arvern_ips.Prelude.Decimal.{show}
use Prim.Native.String.{String}

mutual
  pub data Json : Type 0 where
    null : Json
    bool : Bool → Json
    num : ℕ → Json
    str : Text → Json
    arr : Elems → Json
    obj : Props → Json

  pub data Elems : Type 0 where
    nil : Elems
    cons : Json → Elems → Elems

  pub data Props : Type 0 where
    end : Props
    prop : Text → Json → Props → Props

abbrev pub elems : Elems → List Json
elems nil = []
elems (cons v vs) = v ∷ elems vs

abbrev pub props : Props → Dict Text Json
props end = []
props (prop k v ps) = (k, v) ∷ props ps

-- `w.get(k)`: `None` where the key is missing.
unfoldable pub get : String → Dict Text Json → Json
get k d = elim (lookup (codes k) d) [ none ↦ null | some v ↦ v ]

-- Whether the value counts as true.
unfoldable pub truthy : Json → Bool
truthy null = false
truthy (bool b) = b
truthy (num n) = not (n == 0)
truthy (str s) = not (is_nil s)
truthy (arr vs) = not (is_nil (elems vs))
truthy (obj ps) = not (is_nil (props ps))

unfoldable pub is_null : Json → Bool
is_null null = true
is_null v = false

-- `str(v)`; the text of a list or an object is a parameter.
unfoldable pub text_of : (Json → Text) → Json → Text
text_of repr null = codes "None"
text_of repr (bool true) = codes "True"
text_of repr (bool false) = codes "False"
text_of repr (num n) = show n
text_of repr (str s) = s
text_of repr (arr vs) = repr (arr vs)
text_of repr (obj ps) = repr (obj ps)
