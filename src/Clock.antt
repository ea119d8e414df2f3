-- ===== src/Clock.antt =====
-- store.rs `maintenance_time_valid`. Where it answers yes every byte is ASCII, so code points stand
-- for bytes.
use agcoord.Base.{
  ℕ, zero, suc, ◌+◌, ◌-◌, ◌*◌, ◌%◌, String, Bool, true, false, not, ◌&&◌, ◌||◌, Option, none, some,
  List, [], ◌∷◌, ltb, leb, ◌==◌, all, length, codes, if◌then◌else◌,
}
use agcoord.Text.{drop, take, ends_with}

-- `bytes[a..b]`
unfoldable pub slice : ℕ → ℕ → List ℕ → List ℕ
unfolding take drop
slice a b bytes = take (b - a) (drop a bytes)

abbrev is_digit : ℕ → Bool
is_digit c = leb b'0' c && leb c b'9'

-- `bytes.get(i) == Some(&c)`
byte_is : ℕ → ℕ → List ℕ → Bool
byte_is zero c [] = false
byte_is zero c (x ∷ xs) = x == c
byte_is (suc i) c [] = false
byte_is (suc i) c (x ∷ xs) = byte_is i c xs

zone : List ℕ → Option ℕ
unfolding ends_with
zone bytes =
    if ends_with bytes "Z"
    then some (length bytes - 1)
    else if ends_with bytes "+00:00"
    then some (length bytes - 6)
    else none

-- A run of decimal digits as a number.
number_of : ℕ → List ℕ → ℕ
number_of n [] = n
number_of n (c ∷ cs) = number_of (n * 10 + (c - b'0')) cs

unfoldable pub leap_year : ℕ → Bool
leap_year year = year % 4 == 0 && (not (year % 100 == 0) || year % 400 == 0)

-- A month that is none has no days.
unfoldable pub days_of : ℕ → ℕ → ℕ
unfolding leap_year
days_of year month =
    if month == 4 || month == 6 || month == 9 || month == 11
    then 30
    else if month == 2
    then (if leap_year year then 29 else 28)
    else if leb 1 month && leb month 12
    then 31
    else 0

fraction_valid : List ℕ → Bool
fraction_valid [] = true
fraction_valid (c ∷ cs) =
    leb 2 (length (c ∷ cs)) && leb (length (c ∷ cs)) 7 && c == b'.' && all is_digit cs

date_valid : List ℕ → Bool
unfolding number_of days_of slice
date_valid bytes =
    let year = number_of 0 (slice 0 4 bytes) in
    let month = number_of 0 (slice 5 7 bytes) in
    let day = number_of 0 (slice 8 10 bytes) in
    ltb 0 year
    && ltb 0 day
    && leb day (days_of year month)
    && ltb (number_of 0 (slice 11 13 bytes)) 24
    && ltb (number_of 0 (slice 14 16 bytes)) 60
    && ltb (number_of 0 (slice 17 19 bytes)) 60

shape_valid : ℕ → List ℕ → Bool
unfolding byte_is fraction_valid slice
shape_valid zone_start bytes =
    leb 19 zone_start
    && byte_is 4 b'-' bytes
    && byte_is 7 b'-' bytes
    && byte_is 10 b'T' bytes
    && byte_is 13 b':' bytes
    && byte_is 16 b':' bytes
    && all is_digit (slice 0 4 bytes)
    && all is_digit (slice 5 7 bytes)
    && all is_digit (slice 8 10 bytes)
    && all is_digit (slice 11 13 bytes)
    && all is_digit (slice 14 16 bytes)
    && all is_digit (slice 17 19 bytes)
    && fraction_valid (slice 19 zone_start bytes)

zoned : Option ℕ → List ℕ → Bool
unfolding shape_valid date_valid
zoned none bytes = false
zoned (some zone_start) bytes = shape_valid zone_start bytes && date_valid bytes

unfoldable pub maintenance_time_valid : String → Bool
unfolding zoned zone
maintenance_time_valid value = zoned (zone (codes value)) (codes value)
