-- ===== src/Text.antt =====
-- The words that the broker accepts as identifiers, commit SHAs and drain IDs (store.rs), and what
-- it uses of `str`: `trim`, `contains`, `split`.
use Prim.Native.Char.{Char, code}
use agcoord.Base.{
  ℕ, zero, suc, ◌-◌, String, Bool, true, false, not, ◌&&◌, ◌||◌, List, [], ◌∷◌, leb, ◌==◌, str_eq,
  any, all, length, codes, if◌then◌else◌,
}

-- `byte.is_ascii_alphanumeric() || b"-_.:".contains(&byte)`
identifier_byte : ℕ → Bool
identifier_byte c =
    leb b'0' c && leb c b'9'
    || leb b'A' c && leb c b'Z'
    || leb b'a' c && leb c b'z'
    || c == b'-'
    || c == b'_'
    || c == b'.'
    || c == b':'

-- A code point outside ASCII fails `all`, so the count of bytes is that of code points.
unfoldable pub identifier_valid : String → Bool
unfolding identifier_byte
identifier_valid value =
    not (length (codes value) == 0)
    && leb (length (codes value)) 256
    && all identifier_byte (codes value)

unfoldable pub hex_digit : ℕ → Bool
hex_digit c = leb b'0' c && leb c b'9' || leb b'a' c && leb c b'f'

unfoldable pub commit_sha_valid : String → Bool
unfolding hex_digit
commit_sha_valid value = length (codes value) == 40 && all hex_digit (codes value)

unfoldable pub same_codes : List ℕ → List ℕ → Bool
same_codes [] [] = true
same_codes (x ∷ xs) (y ∷ ys) = x == y && same_codes xs ys
same_codes _ _ = false

unfoldable pub drop : ℕ → List ℕ → List ℕ
drop zero xs = xs
drop (suc n) [] = []
drop (suc n) (x ∷ xs) = drop n xs

unfoldable pub take : ℕ → List ℕ → List ℕ
take zero xs = []
take (suc n) [] = []
take (suc n) (x ∷ xs) = x ∷ take n xs

pub starts_with : List ℕ → String → Bool
unfolding same_codes take
starts_with xs prefix = same_codes (take (length (codes prefix)) xs) (codes prefix)

unfoldable pub ends_with : List ℕ → String → Bool
unfolding same_codes drop
ends_with xs suffix =
    leb (length (codes suffix)) (length xs)
    && same_codes (drop (length xs - length (codes suffix)) xs) (codes suffix)

-- `char::is_whitespace`
unfoldable pub is_whitespace : ℕ → Bool
is_whitespace c =
    leb 9 c && leb c 13
    || c == 32
    || c == 133
    || c == 160
    || c == 5760
    || leb 8192 c && leb c 8202
    || c == 8232
    || c == 8233
    || c == 8239
    || c == 8287
    || c == 12288

trim_start : String → String
unfolding is_whitespace
trim_start String.[] = String.[]
trim_start (String.◌∷◌ c text) =
    let rest = trim_start text in if is_whitespace (code c) then rest else String.◌∷◌ c text

-- A character before the trimmed end: white space is dropped if nothing follows it.
keep_char : ℕ → Bool → Bool
unfolding is_whitespace
keep_char c ends = not (ends && is_whitespace c)

is_empty : String → Bool
is_empty String.[] = true
is_empty _ = false

trim_end : String → String
unfolding keep_char is_empty
trim_end String.[] = String.[]
trim_end (String.◌∷◌ c text) =
    let rest = trim_end text in
    if keep_char (code c) (is_empty rest) then String.◌∷◌ c rest else String.[]

unfoldable pub trim : String → String
unfolding trim_start trim_end
trim text = trim_end (trim_start text)

-- `value.is_empty()`, `value.contains(c)`
abbrev pub empty_text : String → Bool
empty_text text = str_eq text ""

abbrev pub contains : String → ℕ → Bool
contains text c = any (λ x. x == c) (codes text)

push_first : Char → List String → List String
push_first c [] = String.◌∷◌ c "" ∷ []
push_first c (part ∷ parts) = String.◌∷◌ c part ∷ parts

-- `value.split(',')`
unfoldable pub split_comma : String → List String
unfolding push_first
split_comma String.[] = "" ∷ []
split_comma (String.◌∷◌ c text) =
    let parts = split_comma text in if code c == b',' then "" ∷ parts else push_first c parts

hex_id : ℕ → String → String → Bool
unfolding hex_digit starts_with drop
hex_id size prefix value =
    length (codes value) == size
    && starts_with (codes value) prefix
    && all hex_digit (drop (length (codes prefix)) (codes value))

unfoldable pub drain_id_valid : String → Bool
unfolding hex_id
drain_id_valid value = hex_id 18 "drain-" value

-- recovery.rs `valid_id`
unfoldable pub recovery_id_valid : String → Bool
unfolding hex_id
recovery_id_valid value = hex_id 21 "recovery-" value
