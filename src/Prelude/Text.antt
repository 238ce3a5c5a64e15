-- ===== src/Prelude/Text.antt =====
-- Go strings as native texts, and the functions of `strings`, `regexp` and `strconv` that the
-- program calls. `len` counts the bytes of the UTF-8 form, and texts are compared by code points,
-- which orders them as Go orders their bytes.
use Prim.Native.Nat.{ℕ, ◌+◌, ◌-◌, ◌*◌, Ordering}
use Prim.Native.Char.{Char, code}
use Prim.Native.String.{String, compare, count, ◌++◌ as ◌<>◌}
use mathlib.Core.Bool.{Bool, true, false, ◌&&◌, ◌||◌}
use mathlib.Core.List.{List, [], ◌∷◌}
use mathlib.Core.Option.{Option, none, some}
use quantum_runtime.Prelude.Tests.{leb, nat_eqb, if◌then◌else◌, ◌==◌, string_eq}

-- `a < b` and `a <= b` on strings.
abbrev pub str_ltb : String → String → Bool
str_ltb a b = elim (compare a b) [ Ordering.lt ↦ true | _ ↦ false ]

abbrev pub str_leb : String → String → Bool
str_leb a b = elim (compare a b) [ Ordering.gt ↦ false | _ ↦ true ]

-- `unicode.IsSpace`.
unfoldable pub is_space : ℕ → Bool
is_space c =
    (leb 9 c && leb c 13)
    || nat_eqb c 32
    || nat_eqb c 0x85
    || nat_eqb c 0xA0
    || nat_eqb c 0x1680
    || (leb 0x2000 c && leb c 0x200a)
    || nat_eqb c 0x2028
    || nat_eqb c 0x2029
    || nat_eqb c 0x202f
    || nat_eqb c 0x205f
    || nat_eqb c 0x3000

trim_left : String → String
trim_left String.[] = ""
trim_left (String.◌∷◌ c s) = if is_space (code c) then trim_left s else String.◌∷◌ c s

trim_right : String → String
trim_right String.[] = ""
trim_right (String.◌∷◌ c s) =
    let rest = trim_right s in if is_space (code c) && rest == "" then "" else String.◌∷◌ c rest

-- `strings.TrimSpace`.
unfoldable pub trim_space : String → String
unfolding is_space trim_left trim_right
trim_space s = trim_right (trim_left s)

-- The letter of `lower` at the place where `c` stands in `upper`.
change_case : String → String → Char → Char
change_case (String.◌∷◌ u upper) (String.◌∷◌ l lower) c =
    if nat_eqb (code u) (code c) then l else change_case upper lower c
change_case _ _ c = c

-- `strings.ToLower` on ASCII letters and on the two other code points whose lower case is an ASCII
-- letter, U+0130 and U+212A. Every other code point is left as it is.
unfoldable pub to_lower : String → String
unfolding change_case
to_lower String.[] = ""
to_lower (String.◌∷◌ c s) =
    String.◌∷◌ (change_case "ABCDEFGHIJKLMNOPQRSTUVWXYZİK" "abcdefghijklmnopqrstuvwxyzik" c)
      (to_lower s)

-- The case folding of ASCII letters and of the two other code points that fold to one, U+212A and
-- U+017F.
unfoldable pub fold_case : String → String
unfolding change_case
fold_case String.[] = ""
fold_case (String.◌∷◌ c s) =
    String.◌∷◌ (change_case "ABCDEFGHIJKLMNOPQRSTUVWXYZKſ" "abcdefghijklmnopqrstuvwxyzks" c)
      (fold_case s)

-- `strings.EqualFold`, for a second text in lower case ASCII.
unfoldable pub equal_fold : String → String → Bool
unfolding fold_case
equal_fold s lower = fold_case s == lower

abbrev pub is_digit : ℕ → Bool
is_digit c = leb b'0' c && leb c b'9'

abbrev pub is_lower : ℕ → Bool
is_lower c = leb b'a' c && leb c b'z'

abbrev pub is_upper : ℕ → Bool
is_upper c = leb b'A' c && leb c b'Z'

abbrev pub is_alnum : ℕ → Bool
is_alnum c = is_lower c || is_upper c || is_digit c

unfoldable pub all_chars : (ℕ → Bool) → String → Bool
all_chars p String.[] = true
all_chars p (String.◌∷◌ c s) = p (code c) && all_chars p s

-- A pattern `^[first][rest]{0,max}$`.
unfoldable pub matches : (ℕ → Bool) → (ℕ → Bool) → ℕ → String → Bool
unfolding all_chars
matches first rest max String.[] = false
matches first rest max (String.◌∷◌ c s) = first (code c) && all_chars rest s && leb (count s) max

-- `strings.Split` at a one-character separator, and `strings.SplitN(s, sep, 2)`.
unfoldable pub split_on : ℕ → String → List String
split_on sep String.[] = "" ∷ []
split_on sep (String.◌∷◌ c s) =
    let rest = split_on sep s in
    if nat_eqb (code c) sep
    then "" ∷ rest
    else elim rest [ [] ↦ String.◌∷◌ c "" ∷ [] | part ∷ parts ↦ String.◌∷◌ c part ∷ parts ]

unfoldable pub cut_at : ℕ → String → String × Option String
cut_at sep String.[] = ("", none)
cut_at sep (String.◌∷◌ c s) =
    let (before, after) = cut_at sep s in
    if nat_eqb (code c) sep then ("", some s) else (String.◌∷◌ c before, after)

-- The value of a run of decimal digits, after `acc`.
unfoldable pub digits_value : ℕ → String → ℕ
digits_value acc String.[] = acc
digits_value acc (String.◌∷◌ c s) = digits_value (acc * 10 + (code c - b'0')) s

-- Whether a text begins with the digit 0.
abbrev pub starts_with_zero : String → Bool
starts_with_zero String.[] = false
starts_with_zero (String.◌∷◌ c s) = nat_eqb (code c) b'0'

-- `strings.TrimRight(s, "/")`.
unfoldable pub trim_slashes : String → String
trim_slashes String.[] = ""
trim_slashes (String.◌∷◌ c s) =
    let rest = trim_slashes s in
    if nat_eqb (code c) b'/' && rest == "" then "" else String.◌∷◌ c rest

-- `strings.HasPrefix` with what is behind the prefix.
unfoldable pub after_prefix : String → String → Option String
after_prefix String.[] s = some s
after_prefix (String.◌∷◌ p prefix) String.[] = none
after_prefix (String.◌∷◌ p prefix) (String.◌∷◌ c s) =
    let rest = after_prefix prefix s in if nat_eqb (code p) (code c) then rest else none

-- `strings.Trim(s, "[]")`.
abbrev is_bracket : Char → Bool
is_bracket c = nat_eqb (code c) b'[' || nat_eqb (code c) b']'

trim_left_brackets : String → String
trim_left_brackets String.[] = ""
trim_left_brackets (String.◌∷◌ c s) =
    let rest = trim_left_brackets s in if is_bracket c then rest else String.◌∷◌ c s

trim_right_brackets : String → String
trim_right_brackets String.[] = ""
trim_right_brackets (String.◌∷◌ c s) =
    let rest = trim_right_brackets s in if is_bracket c && rest == "" then "" else String.◌∷◌ c rest

unfoldable pub trim_brackets : String → String
unfolding trim_left_brackets trim_right_brackets
trim_brackets s = trim_right_brackets (trim_left_brackets s)

-- The lines of a raw text, each of which ends in a line feed.
unfoldable pub unlines : List String → String
unlines [] = ""
unlines (line ∷ lines) = line <> ("\n" <> unlines lines)

-- `strings.TrimSuffix(s, "/")`.
unfoldable pub trim_suffix_slash : String → String
trim_suffix_slash String.[] = ""
trim_suffix_slash (String.◌∷◌ c s) =
    let rest = trim_suffix_slash s in
    if nat_eqb (code c) b'/' && s == "" then "" else String.◌∷◌ c rest
