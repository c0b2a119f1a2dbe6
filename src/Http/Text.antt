-- ===== src/Http/Text.antt =====
-- What internal/httpapi/handler.go uses of Go's `strings`, `strconv` and `fmt`.
use Prim.Native.Char.{Char, code}
use Prim.Native.String.{◌∷◌ as cons_text}
use reliable_agent_runtime.Prelude.{
  Bool, Option, String, eqb, if◌then◌else◌, leb, ltb, none, some, suc, zero, ℕ, ◌%◌, ◌&&◌, ◌*◌, ◌+◌,
  ◌-◌, ◌/◌, ◌==◌, ◌^◌, ◌||◌,
}

-- unicode.IsSpace
unfoldable pub is_space : Char → Bool
is_space c =
    let n = code c in
    (leb 9 n && leb n 13)
    || eqb n 32
    || eqb n 0x85
    || eqb n 0xa0
    || eqb n 0x1680
    || (leb 0x2000 n && leb n 0x200a)
    || eqb n 0x2028
    || eqb n 0x2029
    || eqb n 0x202f
    || eqb n 0x205f
    || eqb n 0x3000

unfoldable pub trim_left : String → String
trim_left String.[] = ""
trim_left (String.◌∷◌ c s) = let rest = trim_left s in if is_space c then rest else cons_text c s

-- A space is kept if something is kept after it.
unfoldable pub trim_right : String → String
trim_right String.[] = ""
trim_right (String.◌∷◌ c s) =
    let rest = trim_right s in if rest == "" && is_space c then "" else cons_text c rest

-- strings.TrimSpace
unfoldable pub trim_space : String → String
unfolding trim_left trim_right
trim_space s = trim_left (trim_right s)

unfoldable pub digit_value : Char → Option ℕ
digit_value c = let n = code c in if leb 48 n && leb n 57 then some (n - 48) else none

-- The number that digits spell behind n.
unfoldable pub scan_digits : String → ℕ → Option ℕ
scan_digits String.[] n = some n
scan_digits (String.◌∷◌ c s) n = elim (digit_value c) [
  | none ↦ none
  | some d ↦ scan_digits s (n * 10 + d)
]

-- strconv.ParseUint in base 10 with 64 bits.
unfoldable pub parse_uint : String → Option ℕ
unfolding scan_digits
parse_uint s =
    if s == ""
    then none
    else elim (scan_digits s 0) [ none ↦ none | some n ↦ if ltb n (2 ^ 64) then some n else none ]

unfoldable pub digit_char : ℕ → Char
digit_char zero = "0"
digit_char (suc zero) = "1"
digit_char (suc (suc zero)) = "2"
digit_char (suc (suc (suc zero))) = "3"
digit_char (suc (suc (suc (suc zero)))) = "4"
digit_char (suc (suc (suc (suc (suc zero))))) = "5"
digit_char (suc (suc (suc (suc (suc (suc zero)))))) = "6"
digit_char (suc (suc (suc (suc (suc (suc (suc zero))))))) = "7"
digit_char (suc (suc (suc (suc (suc (suc (suc (suc zero)))))))) = "8"
digit_char _ = "9"

-- The digits of n before a text, on fuel for as many digits.
unfoldable pub digits_before : ℕ → ℕ → String → String
digits_before zero n out = out
digits_before (suc fuel) n out =
    let rest = digits_before fuel (n / 10) (cons_text (digit_char (n % 10)) out) in
    if ltb n 10 then cons_text (digit_char n) out else rest

-- The verb %d for a uint64, which has at most 20 digits.
unfoldable pub decimal : ℕ → String
decimal n = digits_before 20 n ""
