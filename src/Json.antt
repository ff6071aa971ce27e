-- ===== src/Json.antt =====
-- JSON values as the program sees them after `JSON.parse`, and JavaScript's reading of them:
-- property access, `Array.isArray`, `typeof`, truthiness.
use whiz_gateway.Base.{
  String, Bool, true, false, not, Option, none, some, List, [], ◌∷◌, ◌==◌, if◌then◌else◌,
}

-- A parsed number: a finite double by the text that `String(n)` gives, or an infinity, which
-- `JSON.parse` returns for a literal such as `1e999`.
pub data Number : Type 0 where
  finite : String → Number
  infinite : Bool → Number

mutual
  -- The members of an object, of which no two have one key.
  pub data Props : Type 0 where
    no_member : Props
    member : String → Json → Props → Props

  pub data Json : Type 0 where
    str : String → Json
    num : Number → Json
    bool : Bool → Json
    null : Json
    obj : Props → Json
    arr : Elems → Json

  pub data Elems : Type 0 where
    nil : Elems
    cons : Json → Elems → Elems

-- The elements of an array.
abbrev pub elems : Elems → List Json
elems nil = []
elems (cons v vs) = v ∷ elems vs

-- `o[k]`, with `none` for `undefined`.
unfoldable pub lookup : String → Props → Option Json
lookup k no_member = none
lookup k (member j v o) = if j == k then some v else lookup k o

-- `v[k]` for a value that is not null and of which only the program's own keys are read: what is
-- no object has none of them.
abbrev pub get : String → Json → Option Json
get k (obj o) = lookup k o
get k _ = none

-- `typeof v === 'object' && v !== null && !Array.isArray(v)`
abbrev pub as_object : Json → Option Props
as_object (obj o) = some o
as_object _ = none

-- `Array.isArray(v)`
abbrev pub as_array : Option Json → Option (List Json)
as_array (some (arr vs)) = some (elems vs)
as_array _ = none

-- `typeof v === 'string' && v.length > 0`
abbrev pub non_empty : String → Option String
non_empty s = if s == "" then none else some s

abbrev pub text : Option Json → Option String
text (some (str s)) = non_empty s
text _ = none

-- `!!v`
abbrev pub truthy : Json → Bool
truthy null = false
truthy (bool b) = b
truthy (num (finite t)) = not (t == "0")
truthy (num (infinite _)) = true
truthy (str s) = not (s == "")
truthy (arr _) = true
truthy (obj _) = true

-- `v` itself where it is truthy, for `if (!v) return null`.
abbrev pub when_truthy : Option Json → Option Json
when_truthy none = none
when_truthy (some v) = if truthy v then some v else none
