-- ===== src/Transactions/Validator.antt =====
-- modules/transactions/transactions.validator.ts. A string is the list of its code points; the checks of the
-- Stellar SDK's StrKey are arguments.
use astroid_api.Common.{
  ℕ, ◌+◌, ◌-◌, ◌*◌, String, Bool, true, false, not, ◌&&◌, ◌||◌, Option, none, some, List, [], ◌∷◌,
  ltb, leb, ◌==◌, if◌then◌else◌, length,
}
use Prim.Native.Char.{code}
use astroid_api.Common.Results.{Result, ok, err, ◌>>=◌}

abbrev pub Text : Type 0
Text = List ℕ

unfoldable pub text_of : String → Text
text_of String.[] = []
text_of (String.◌∷◌ c s) = code c ∷ text_of s

pub data Invalid : Type 0 where
  address_required invalid_ed25519 invalid_med25519 invalid_format : Invalid
  memo_too_long memo_blank memo_not_printable : Invalid
  hash_length hash_not_hex : Invalid
  id_not_a_number id_out_of_range : Invalid

abbrev pub Checked : Type 0
Checked = Result Invalid Bool

abbrev pub require : Bool → Invalid → Checked → Checked
require true problem next = next
require false problem next = err problem

abbrev pub starts_with : ℕ → Text → Bool
starts_with c [] = false
starts_with c (x ∷ xs) = x == c

abbrev pub all_of : (ℕ → Bool) → Text → Bool
all_of p [] = true
all_of p (x ∷ xs) = p x && all_of p xs

abbrev pub within : ℕ → ℕ → ℕ → Bool
within low high c = leb low c && leb c high

-- The number of bytes of a code point in UTF-8, and of a Blob of a string.
abbrev pub utf8_width : ℕ → ℕ
utf8_width c = if ltb c 0x80 then 1 else if ltb c 0x800 then 2 else if ltb c 0x10000 then 3 else 4

abbrev pub byte_length : Text → ℕ
byte_length [] = 0
byte_length (c ∷ cs) = utf8_width c + byte_length cs

-- What `trim` removes: white space and line terminators.
abbrev pub is_space : ℕ → Bool
is_space c =
    within 9 13 c
    || (c == 0x20
        || (c == 0xA0
            || (c == 0x1680
                || (within 0x2000 0x200A c
                    || (within 0x2028 0x2029 c
                        || (c == 0x202F || (c == 0x205F || (c == 0x3000 || c == 0xFEFF))))))))

abbrev pub is_printable : ℕ → Bool
is_printable c = within 0x20 0x7E c

abbrev pub is_digit : ℕ → Bool
is_digit c = within 0x30 0x39 c

abbrev pub is_hex : ℕ → Bool
is_hex c = is_digit c || (within 0x61 0x66 c || within 0x41 0x46 c)

unfoldable pub validate_memo : Option Text → Checked
validate_memo none = ok true
validate_memo (some []) = ok true
validate_memo (some (c ∷ cs)) = require (leb (byte_length (c ∷ cs)) 28) memo_too_long (
    require (not (all_of is_space (c ∷ cs))) memo_blank
      (require (all_of is_printable (c ∷ cs)) memo_not_printable (ok true)))

unfoldable pub validate_memo_hash : Option Text → Checked
validate_memo_hash none = ok true
validate_memo_hash (some []) = ok true
validate_memo_hash (some (c ∷ cs)) =
    require (length (c ∷ cs) == 64) hash_length
      (require (all_of is_hex (c ∷ cs)) hash_not_hex (ok true))

-- `parseInt(text, 10)`: spaces, a sign, and the digits up to the first other character. The result is
-- the sign and the magnitude.
abbrev pub digits : ℕ → Text → ℕ
digits n [] = n
digits n (c ∷ cs) = let rest = digits (10 * n + (c - 0x30)) cs in if is_digit c then rest else n

abbrev pub magnitude : Bool → Text → Option (Bool × ℕ)
magnitude negative [] = none
magnitude negative (c ∷ cs) = if is_digit c then some (negative, digits 0 (c ∷ cs)) else none

abbrev pub signed : Text → Option (Bool × ℕ)
signed [] = none
signed (c ∷ cs) =
    if c == 0x2D
    then magnitude true cs
    else if c == 0x2B
    then magnitude false cs
    else magnitude false (c ∷ cs)

abbrev pub trim_start : Text → Text
trim_start [] = []
trim_start (c ∷ cs) = let rest = trim_start cs in if is_space c then rest else c ∷ cs

unfoldable pub parse_int : Text → Option (Bool × ℕ)
parse_int text = signed (trim_start text)

abbrev pub max_safe_integer : ℕ
max_safe_integer = 9007199254740991

abbrev pub check_id : Option (Bool × ℕ) → Checked
check_id none = err id_not_a_number
check_id (some (negative, n)) =
    require (not (negative && ltb 0 n) && leb n max_safe_integer) id_out_of_range (ok true)

-- A memo identifier that comes as a string.
unfoldable pub validate_memo_id : Option Text → Checked
validate_memo_id none = ok true
validate_memo_id (some text) = check_id (parse_int text)

module _ (is_valid_ed25519 is_valid_med25519 : Text → Bool) where
  unfoldable pub validate_stellar_address : Text → Checked
  validate_stellar_address [] = err address_required
  validate_stellar_address (c ∷ cs) =
      if c == 0x47
      then require (is_valid_ed25519 (c ∷ cs)) invalid_ed25519 (ok true)
      else if c == 0x4D
      then require (is_valid_med25519 (c ∷ cs)) invalid_med25519 (ok true)
      else err invalid_format

  unfoldable pub validate_transaction_input : Text → Option Text → Checked
  validate_transaction_input address memo =
      validate_stellar_address address >>= λ valid. validate_memo memo
