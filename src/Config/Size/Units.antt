-- ===== src/Config/Size/Units.antt =====
-- What `ParseSize` makes of a number and its unit.
use updater_service.Base.{
  ℕ, ◌+◌, ◌-◌, ◌*◌, ◌^◌, ◌≤◌, ◌<◌, pos, true, none, some, [], ◌∷◌, ◌++◌, All, length, ◌≡◌, ◌≢◌,
  arith, refl, ap, length-append, ℕ_discrete,
}
use mathlib.Core.List.{append-nil}
use updater_service.Config.Size.{
  Codes, codes_dec, codes, codes_eq, strip_suffix, is_digit, scan_uint, parse_uint, signed,
  parse_int, of_bits, times, kib, mib, gib, parse_size,
}

abbrev pub IsDigit : ℕ → Type 0
IsDigit c = is_digit c ≡ true

-- The number that digits spell behind `n`.
abbrev pub value : ℕ → Codes → ℕ
value n [] = n
value n (c ∷ s) = value (n * 10 + (c - 48)) s

le-value : (n : ℕ) (s : Codes) → n ≤ value n s
le-value n [] = omega arith
le-value n (c ∷ s) = omega (arith, le-value (n * 10 + (c - 48)) s)

scan_uint-value :
    (s : Codes) (n : ℕ) → All IsDigit s → value n s < 2 ^ 64 → scan_uint s n ≡ some (value n s)
unfolding scan_uint
scan_uint-value [] n digits fits = refl
scan_uint-value (c ∷ s) n (d, digits) fits =
    let m = n * 10 + (c - 48) in
    let rest = scan_uint-value s m digits fits in
    let le = le-value m s in ground (arith, rest, le, d)

parse_int-value :
    (s : Codes)
    → s ≢ []
    → All IsDigit s
    → value 0 s < 2 ^ 63
    → parse_int s ≡ (pos (value 0 s), none)
unfolding parse_int parse_uint signed
parse_int-value [] some_digit digits fits = absurd (some_digit refl)
parse_int-value (c ∷ s) some_digit digits fits =
    let scanned = scan_uint-value (c ∷ s) 0 digits (omega (arith, fits)) in
    let d = digits.0 in ground (arith, scanned, d, fits)

longer_ne : (c : ℕ) (s unit : Codes) → c ∷ (s ++ unit) ≢ unit
longer_ne c s unit e = absurd (omega (arith, ap length e, length-append s unit))

strip_suffix_self : (unit : Codes) → strip_suffix unit unit ≡ some []
unfolding strip_suffix
strip_suffix_self [] = ground arith
strip_suffix_self (c ∷ unit) = ground arith

strip_suffix-append : (s unit : Codes) → strip_suffix unit (s ++ unit) ≡ some s
unfolding strip_suffix
strip_suffix-append [] unit = strip_suffix_self unit
strip_suffix-append (c ∷ s) unit = ground (arith, longer_ne c s unit, strip_suffix-append s unit)

-- A text that ends with one unit does not end with another of the same length.
strip_suffix_other :
    (s unit other : Codes)
    → length other ≡ length unit
    → strip_suffix other unit ≡ none
    → strip_suffix other (s ++ unit) ≡ none
unfolding strip_suffix
strip_suffix_other [] unit other same differ = differ
strip_suffix_other (c ∷ s) unit other same differ =
    let rest = strip_suffix_other s unit other same differ in
    let longer : c ∷ (s ++ unit) ≢ other =
      λ e. absurd (omega (arith, ap length e, length-append s unit, same)) in
    ground (arith, longer, rest)

-- Digits do not end with a unit.
strip_suffix_digits :
    (s : Codes) (k : ℕ) (unit : Codes) → 57 < k → All IsDigit s → strip_suffix (k ∷ unit) s ≡ none
unfolding strip_suffix
strip_suffix_digits [] k unit letter digits = ground arith
strip_suffix_digits (c ∷ s) k unit letter (d, digits) =
    let rest = strip_suffix_digits s k unit letter digits in ground (arith, d, letter, rest)

pub data SizeUnit : Type 0 where
  bytes kibibytes mebibytes gibibytes : SizeUnit

abbrev pub suffix : SizeUnit → Codes
suffix bytes = []
suffix kibibytes = kib
suffix mebibytes = mib
suffix gibibytes = gib

abbrev pub factor : SizeUnit → ℕ
factor bytes = 1
factor kibibytes = 2 ^ 10
factor mebibytes = 2 ^ 20
factor gibibytes = 2 ^ 30

times-pos : (n k : ℕ) → n * k < 2 ^ 63 → times (pos n) k ≡ pos (n * k)
unfolding times of_bits
times-pos n k fits = ground (arith, fits)

some-ne-nil : (s unit : Codes) → s ≢ [] → s ++ unit ≢ []
some-ne-nil [] unit h = λ e. h refl
some-ne-nil (c ∷ s) unit h = ground arith

distinct_units :
    (strip_suffix kib mib ≡ none) × (strip_suffix kib gib ≡ none) × (strip_suffix mib gib ≡ none)
unfolding strip_suffix ℕ_discrete codes_dec
distinct_units = (refl, refl, refl)

-- A text of one digit or more and then a unit is read as that number of units in bytes, if that is an
-- int64.
pub parse_size_lem :
    (s : Codes) (unit : SizeUnit)
    → s ≢ []
    → All IsDigit s
    → value 0 s * factor unit < 2 ^ 63
    → parse_size (s ++ suffix unit) ≡ pos (value 0 s * factor unit)
unfolding parse_size
parse_size_lem s unit some_digit digits fits = by_unit unit fits
  where
    by_unit :
        (unit : SizeUnit)
        → value 0 s * factor unit < 2 ^ 63
        → parse_size (s ++ suffix unit) ≡ pos (value 0 s * factor unit)
    by_unit bytes fits =
        let number = parse_int-value s some_digit digits (omega (arith, fits)) in
        rw (append-nil s) (
          ground (
            arith,
            some_digit,
            number,
            strip_suffix_digits s 75 (codes "iB") (omega arith) digits,
            strip_suffix_digits s 77 (codes "iB") (omega arith) digits,
            strip_suffix_digits s 71 (codes "iB") (omega arith) digits,
          ))
    by_unit kibibytes fits =
        let number = parse_int-value s some_digit digits (omega (arith, fits)) in
        ground (
          arith,
          some-ne-nil s kib some_digit,
          strip_suffix-append s kib,
          number,
          times-pos (value 0 s) (2 ^ 10) fits,
        )
    by_unit mebibytes fits =
        let number = parse_int-value s some_digit digits (omega (arith, fits)) in
        let other = strip_suffix_other s mib kib refl distinct_units.0 in
        ground (
          arith,
          some-ne-nil s mib some_digit,
          strip_suffix-append s mib,
          other,
          number,
          times-pos (value 0 s) (2 ^ 20) fits,
        )
    by_unit gibibytes fits =
        let number = parse_int-value s some_digit digits (omega (arith, fits)) in
        let other = strip_suffix_other s gib kib refl distinct_units.1 in
        let another = strip_suffix_other s gib mib refl distinct_units.2 in
        ground (
          arith,
          some-ne-nil s gib some_digit,
          strip_suffix-append s gib,
          other,
          another,
          number,
          times-pos (value 0 s) (2 ^ 30) fits,
        )
