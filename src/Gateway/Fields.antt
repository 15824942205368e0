-- ===== src/Gateway/Fields.antt =====
-- How the handlers of internal/httpapi read and write maps (map[string]any): type assertions whose
-- failure gives the zero value, and firstPresent, intValue and fallbackString of anthropic.go and
-- openai.go.
use Prim.Native.String.{String}
use phlox_gw.Common.{suc, Bool, true, false, Option, none, some, List, [], ◌∷◌, ◌++◌, if◌then◌else◌}
use phlox_gw.Common.Int.{ℤ, pos, negsuc}
use phlox_gw.Common.Text.{Text, codes, text_eq, is_empty}
use phlox_gw.Common.Text.Trim.{trim_space}
use phlox_gw.Common.Text.Numbers.{decimal}
use phlox_gw.Gateway.Json.{
  Json, null, boolean, number, string, array, object, Items, nil, cons, Members, end, member,
}

-- value, ok := m[key]
unfoldable pub lookup : Text → Members → Option Json
lookup k end = none
lookup k (member k' v ms) = if text_eq k k' then some v else lookup k ms

-- m[key], which is nil for a key that is not there.
unfoldable pub field : String → Members → Json
unfolding lookup
field k m = elim (lookup (codes k) m) [ none ↦ null | some v ↦ v ]

abbrev pub has : Text → Members → Bool
has k m = elim (lookup k m) [ none ↦ false | some _ ↦ true ]

-- delete(m, key)
unfoldable pub without : Text → Members → Members
without k end = end
without k (member k' v ms) =
    let rest = without k ms in if text_eq k k' then rest else member k' v rest

-- m[key] = value
unfoldable pub put : Text → Json → Members → Members
unfolding without
put k v m = member k v (without k m)

-- The values that an assertion v.(string), v.(map[string]any), v.([]any) or v.(bool) leaves.
abbrev pub text_of : Json → Text
text_of (string s) = s
text_of _ = []

abbrev pub as_object : Json → Option Members
as_object (object m) = some m
as_object _ = none

abbrev pub object_of : Json → Members
object_of (object m) = m
object_of _ = end

abbrev pub items_of : Json → Items
items_of (array xs) = xs
items_of _ = nil

abbrev pub bool_of : Json → Bool
bool_of (boolean b) = b
bool_of _ = false

abbrev pub is_null : Json → Bool
is_null null = true
is_null _ = false

-- v == "text", for a v of any type
abbrev pub is_text : String → Json → Bool
is_text t (string s) = text_eq s (codes t)
is_text t _ = false

-- The literals of maps.
abbrev pub entry : String → Json → Members → Members
entry k v m = member (codes k) v m

abbrev pub words_of : String → Json
words_of s = string (codes s)

abbrev pub array_of : List Members → Items
array_of [] = nil
array_of (m ∷ ms) = cons (object m) (array_of ms)

abbrev pub strings_of : List Text → Items
strings_of [] = nil
strings_of (s ∷ ss) = cons (string s) (strings_of ss)

-- strings.TrimSpace(s) == ""
abbrev pub is_blank : Text → Bool
is_blank s = is_empty (trim_space s)

unfoldable pub fallback_string : Text → Text → Text
unfolding trim_space
fallback_string v fallback = if is_blank v then fallback else v

unfoldable pub first_present : List Text → Members → Json
unfolding lookup
first_present [] m = null
first_present (k ∷ ks) m = elim (lookup k m) [ none ↦ first_present ks m | some v ↦ v ]

-- intValue; the argument gives the integer part of the number that a literal denotes.
unfoldable pub int_value : (Text → ℤ) → Json → ℤ
int_value whole (number t) = whole t
int_value whole _ = pos 0

-- strings.Join
unfoldable pub join_by : Text → List Text → Text
join_by sep [] = []
join_by sep (x ∷ []) = x
join_by sep (x ∷ y ∷ xs) = x ++ (sep ++ join_by sep (y ∷ xs))

-- The literal of an integer.
abbrev pub number_of : ℤ → Json
number_of (pos n) = number (decimal n)
number_of (negsuc n) = number (0x2d ∷ decimal (suc n))

-- An entry that is there if a value is.
abbrev pub optional : String → Option Json → Members → Members
optional k none m = m
optional k (some v) m = entry k v m
