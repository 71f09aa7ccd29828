-- ===== src/Base/Strings.antt =====
-- Go's package strings, on the native strings, as far as the program calls it with a separator of one
-- character; and the numbers that `strconv.Atoi` reads.
use Prim.Native.Nat.{ℕ, zero, suc, ◌+◌, ◌*◌, ◌-◌, ◌^◌}
use Prim.Native.Char.{Char, code}
use Prim.Native.String.{String, ◌++◌}
use mathlib.Core.Bool.{Bool, ◌&&◌, ◌||◌, not}
use mathlib.Core.List.{List, [], ◌∷◌}
use mathlib.Core.Path.{◌≡◌, refl}
use mathlib.Core.Option.{Option, none, some}
use text.Mathlib.Text.{◌==◌}
use grpc_test_infra.Base.Tests.{leb, nat_eq, if◌then◌else◌}
use grpc_test_infra.Base.Lists.{keep}
use grpc_test_infra.Base.Int.{ℤ, pos, negsuc}

abbrev pub is_char : Char → Char → Bool
is_char c d = nat_eq (code c) (code d)

-- A character before the first word of a list.
abbrev pub onto_first : Char → List String → List String
onto_first c [] = String.◌∷◌ c "" ∷ []
onto_first c (w ∷ ws) = String.◌∷◌ c w ∷ ws

-- The pieces of a text around the characters that pass a test.
unfoldable pub split_by : (Char → Bool) → String → List String
split_by p String.[] = "" ∷ []
split_by p (String.◌∷◌ c s) =
    let rest = split_by p s in if p c then "" ∷ rest else onto_first c rest

-- `strings.Split(s, sep)`
unfoldable pub split : Char → String → List String
unfolding split_by
split sep s = split_by (λ c. is_char c sep) s

-- `strings.SplitN(s, sep, 2)`
unfoldable pub split_two : Char → String → List String
split_two sep String.[] = "" ∷ []
split_two sep (String.◌∷◌ c s) =
    let rest = split_two sep s in if is_char c sep then "" ∷ s ∷ [] else onto_first c rest

-- `strings.Join(words, sep)`
unfoldable pub join : String → List String → String
join sep [] = ""
join sep (w ∷ []) = w
join sep (w ∷ v ∷ ws) = w ++ sep ++ join sep (v ∷ ws)

abbrev between : ℕ → ℕ → ℕ → Bool
between low high n = leb low n && leb n high

-- `unicode.IsSpace`
unfoldable pub is_space : Char → Bool
is_space c =
    let n = code c in
    between 9 13 n
    || nat_eq n 32
    || nat_eq n 133
    || nat_eq n 160
    || nat_eq n 5760
    || between 8192 8202 n
    || between 8232 8233 n
    || nat_eq n 8239
    || nat_eq n 8287
    || nat_eq n 12288

trim_left : String → String
unfolding is_space
trim_left String.[] = ""
trim_left (String.◌∷◌ c s) = let rest = trim_left s in if is_space c then rest else String.◌∷◌ c s

trim_right : String → String
unfolding is_space
trim_right String.[] = ""
trim_right (String.◌∷◌ c s) =
    let rest = trim_right s in if is_space c && (rest == "") then "" else String.◌∷◌ c rest

-- `strings.TrimSpace(s)`
unfoldable pub trim_space : String → String
unfolding trim_left trim_right
trim_space s = trim_left (trim_right s)

-- `strings.Fields(s)`
unfoldable pub fields : String → List String
unfolding split_by is_space
fields s = keep (λ w. not (w == "")) (split_by is_space s)

abbrev pub is_digit : Char → Bool
is_digit c = between 48 57 (code c)

-- The number that digits spell behind a number.
unfoldable pub digits : String → ℕ → Option ℕ
digits String.[] n = some n
digits (String.◌∷◌ c s) n =
    let rest = digits s (n * 10 + (code c - 48)) in if is_digit c then rest else none

abbrev pub at_most : ℕ → (ℕ → ℤ) → Option ℕ → Option ℤ
at_most limit f none = none
at_most limit f (some n) = if leb n limit then some (f n) else none

abbrev pub minus : ℕ → ℤ
minus zero = pos 0
minus (suc n) = negsuc n

-- A number without a sign; it has at least one digit.
unfoldable pub unsigned : String → Option ℕ
unfolding digits
unsigned String.[] = none
unsigned (String.◌∷◌ c s) = digits (String.◌∷◌ c s) 0

abbrev pub max_int : ℕ
max_int = 2 ^ 63 - 1

-- `strconv.Atoi(s)` for an `int` of 64 bits: none where it returns an error.
unfoldable pub atoi : String → Option ℤ
unfolding unsigned
atoi String.[] = none
atoi (String.◌∷◌ c s) =
    if nat_eq (code c) 43
    then at_most max_int pos (unsigned s)
    else if nat_eq (code c) 45
    then at_most (2 ^ 63) minus (unsigned s)
    else at_most max_int pos (unsigned (String.◌∷◌ c s))

split_example : split ":" "a:bc::" ≡ "a" ∷ "bc" ∷ "" ∷ "" ∷ []
unfolding split
split_example = refl

split_two_example : split_two ":" "a:bc::" ≡ "a" ∷ "bc::" ∷ []
unfolding split_two
split_two_example = refl

fields_example : fields "  sha256  a,b 2020 " ≡ "sha256" ∷ "a,b" ∷ "2020" ∷ []
unfolding fields
fields_example = refl

trim_space_example : trim_space "  a b  " ≡ "a b"
unfolding trim_space
trim_space_example = refl

atoi_example : (atoi "-7" ≡ some (negsuc 6)) × (atoi "+12" ≡ some (pos 12)) × (atoi "-" ≡ none)
unfolding atoi
atoi_example = (refl, refl, refl)

atoi_range : (atoi "9223372036854775808" ≡ none) × (atoi "9223372036854775807" ≡ some (pos max_int))
unfolding atoi
atoi_range = (refl, refl)

abbrev utf8_length : ℕ → ℕ
utf8_length n = if leb n 127 then 1 else if leb n 2047 then 2 else if leb n 65535 then 3 else 4

-- `len(s)`, the number of bytes in UTF-8.
unfoldable pub byte_length : String → ℕ
byte_length String.[] = 0
byte_length (String.◌∷◌ c s) = utf8_length (code c) + byte_length s
