-- ===== src/Config/Size.antt =====
-- internal/config/config.go: `ParseSize`, with the strconv.ParseInt that it calls. A text is the list
-- of its codes.
pub mod Units
use Prim.Native.String
use Prim.Native.Char.{code}
use updater_service.Base.{
  ◌&&◌, not, ℕ, ◌+◌, ◌-◌, ◌*◌, ◌%◌, ◌^◌, String, ℤ, pos, negsuc, Bool, true, false, ◌||◌, Option,
  none, some, List, [], ◌∷◌, Error, text, leb, ltb, Eq, ◌==◌, nat_eq, ℕ_discrete, if◌then◌else◌,
  on_option, refl, arith, ◌≡◌,
}

abbrev pub Codes : Type 0
Codes = List ℕ

abbrev pub codes : String → Codes
codes String.[] = []
codes (String.◌∷◌ c s) = code c ∷ codes s

unfoldable pub codes_dec : Discrete Codes
codes_dec [] [] = yes refl
codes_dec [] (d ∷ t) = no (ground arith)
codes_dec (c ∷ s) [] = no (ground arith)
codes_dec (c ∷ s) (d ∷ t) = elim (ℕ_discrete c d) [
  | no differ ↦ no (ground (arith, differ))
  | yes same ↦ elim (codes_dec s t) [
    | no differ ↦ no (ground (arith, differ))
    | yes rest ↦ yes (ground (arith, same, rest))
  ]
]

instance abbrev pub codes_eq : Eq Codes
codes_eq = record { dec = codes_dec }

-- strings.HasSuffix and strings.TrimSuffix: the text before the suffix, if it ends with it.
unfoldable pub strip_suffix : Codes → Codes → Option Codes
strip_suffix suffix [] = if [] == suffix then some [] else none
strip_suffix suffix (c ∷ s) =
    let rest = strip_suffix suffix s in
    if c ∷ s == suffix then some [] else on_option rest none (λ before. some (c ∷ before))

abbrev pub is_digit : ℕ → Bool
is_digit c = leb 48 c && leb c 57

-- The loop of strconv.ParseUint, base 10 and 64 bits: none for a syntax error, and the largest number
-- for one that does not fit, whatever follows it.
unfoldable pub scan_uint : Codes → ℕ → Option ℕ
scan_uint [] n = some n
scan_uint (c ∷ s) n =
    let m = n * 10 + (c - 48) in
    let rest = scan_uint s m in
    if not (is_digit c) then none else if leb (2 ^ 64) m then some (2 ^ 64 - 1) else rest

unfoldable pub parse_uint : Codes → Option ℕ
parse_uint [] = none
parse_uint (c ∷ s) = scan_uint (c ∷ s) 0

abbrev pub syntax_error : Error
syntax_error = text "invalid syntax"

abbrev pub range_error : Error
range_error = text "value out of range"

-- The sign that strconv.ParseInt found, and the number behind it.
unfoldable pub signed : Bool → Option ℕ → ℤ × Option Error
signed minus none = (pos 0, some syntax_error)
signed false (some n) =
    if leb (2 ^ 63) n then (pos (2 ^ 63 - 1), some range_error) else (pos n, none)
signed true (some n) =
    if ltb (2 ^ 63) n
    then (negsuc (2 ^ 63 - 1), some range_error)
    else (if n == 0 then pos 0 else negsuc (n - 1), none)

-- strconv.ParseInt(s, 10, 64), which returns a number beside an error too.
unfoldable pub parse_int : Codes → ℤ × Option Error
parse_int [] = (pos 0, some syntax_error)
parse_int (c ∷ s) =
    if c == 45
    then signed true (parse_uint s)
    else if c == 43
    then signed false (parse_uint s)
    else signed false (parse_uint (c ∷ s))

-- The int64 of 64 bits.
unfoldable pub of_bits : ℕ → ℤ
of_bits n = if ltb n (2 ^ 63) then pos n else negsuc (2 ^ 64 - 1 - n)

-- A product of an int64 and a natural number, in int64.
unfoldable pub times : ℤ → ℕ → ℤ
times (pos n) factor = of_bits (n * factor % 2 ^ 64)
times (negsuc n) factor =
    let m = (n + 1) * factor % 2 ^ 64 in if m == 0 then pos 0 else of_bits (2 ^ 64 - m)

abbrev pub kib : Codes
kib = codes "KiB"

abbrev pub mib : Codes
mib = codes "MiB"

abbrev pub gib : Codes
gib = codes "GiB"

unfoldable pub parse_size : Codes → ℤ
parse_size s =
    if s == []
    then pos (2 ^ 20)
    else on_option (strip_suffix kib s)
        (on_option (strip_suffix mib s)
          (on_option (strip_suffix gib s) (parse_int s).0 (λ n. times (parse_int n).0 (2 ^ 30)))
          (λ n. times (parse_int n).0 (2 ^ 20)))
        (λ n. times (parse_int n).0 (2 ^ 10))
