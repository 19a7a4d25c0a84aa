-- ===== src/Policy/Text.antt =====
-- The text that the policy engine takes apart: `asset.split(':', 1)[0]`, joined texts, and
-- weekday names.
use astroid_api.Common.{ℕ, String, List, [], ◌∷◌, str_eq, ◌==◌, if◌then◌else◌}
use Prim.Native.Char.{code}
use Prim.Native.String

-- The text before the first colon.
unfoldable pub before_colon : String → String
before_colon String.[] = ""
before_colon (String.◌∷◌ c s) =
    let rest = before_colon s in if code c == b':' then "" else String.◌∷◌ c rest

-- `String(array)`: the items separated by commas.
unfoldable pub join : List String → String
join [] = ""
join (s ∷ []) = s
join (s ∷ t ∷ rest) = String.◌++◌ s (String.◌++◌ "," (join (t ∷ rest)))

-- `WEEKDAY_INDEX[weekday] ?? 0`
unfoldable pub weekday_index : String → ℕ
weekday_index s =
    if str_eq s "Mon"
    then 1
    else if str_eq s "Tue"
    then 2
    else if str_eq s "Wed"
    then 3
    else if str_eq s "Thu"
    then 4
    else if str_eq s "Fri"
    then 5
    else if str_eq s "Sat"
    then 6
    else 0
