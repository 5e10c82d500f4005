-- ===== src/Common/Uuid/Defs.antt =====
-- Reading and printing a UUID.
use pybotx.Common.{
  ℕ, zero, suc, ◌+◌, ◌-◌, ◌*◌, ◌/◌, ◌%◌, ◌^◌, Bool, true, false, ◌&&◌, ◌||◌, Option, none, some, [],
  ◌∷◌, ◌++◌, length, leb, ◌==◌, if◌then◌else◌, Result, err, value_error, or_raise,
}
use pybotx.Common.Text.{Str, codes, strip, strip_by, strip_prefix}

abbrev pub Uuid : Type 0
Uuid = ℕ

abbrev pub uuid_bound : ℕ
uuid_bound = 2 ^ 128

unfoldable pub hex_value : ℕ → Option ℕ
hex_value c =
    if leb b'0' c && leb c b'9'
    then some (c - b'0')
    else if leb b'a' c && leb c b'f'
    then some (c - b'a' + 10)
    else if leb b'A' c && leb c b'F'
    then some (c - b'A' + 10)
    else none

-- Digits of base 16, with single underscores between them; `digit` says if the last one was a digit.
unfoldable pub hex_from : ℕ → Bool → Str → Option ℕ
hex_from acc digit [] = if digit then some acc else none
hex_from acc digit (c ∷ s) = elim (hex_value c) [
  | some d ↦ hex_from (acc * 16 + d) true s
  | none ↦ if c == b'_' && digit then hex_from acc false s else none
]

-- After the prefix one underscore may stand.
unfoldable pub skip_underscore : Str → Str
skip_underscore [] = []
skip_underscore (c ∷ s) = if c == b'_' then s else c ∷ s

unfoldable pub skip_prefix : Str → Str
skip_prefix [] = []
skip_prefix (c ∷ []) = c ∷ []
skip_prefix (c ∷ d ∷ s) =
    if c == b'0' && (d == b'x' || d == b'X') then skip_underscore s else c ∷ d ∷ s

unfoldable pub skip_plus : Str → Str
skip_plus [] = []
skip_plus (c ∷ s) = if c == b'+' then s else c ∷ s

-- `int(text, 16)` of a text with no minus sign
unfoldable pub int_16 : Str → Option ℕ
unfolding hex_from hex_value skip_prefix skip_plus skip_underscore strip
int_16 s = hex_from 0 false (skip_prefix (skip_plus (strip s)))

-- `s.replace(c ∷ p, "")`; `skip` counts the characters of the occurrence that are still to go
unfoldable pub remove_from : ℕ → ℕ → Str → Str → Str
remove_from skip c p [] = []
remove_from (suc skip) c p (d ∷ s) = remove_from skip c p s
remove_from zero c p (d ∷ s) =
    let gone = remove_from (length p) c p s in
    let kept = d ∷ remove_from zero c p s in
    elim (strip_prefix (c ∷ p) (d ∷ s)) [ some _ ↦ gone | none ↦ kept ]

-- `s.replace("-", "")`
unfoldable pub remove_dashes : Str → Str
remove_dashes [] = []
remove_dashes (c ∷ s) = let rest = remove_dashes s in if c == b'-' then rest else c ∷ rest

unfoldable pub is_brace : ℕ → Bool
is_brace c = c == b'{' || c == b'}'

unfoldable pub hex_of_text : Str → Str
unfolding remove_from remove_dashes is_brace strip_by strip_prefix
hex_of_text s =
    remove_dashes
      (strip_by is_brace (remove_from 0 b'u' (codes "uid:") (remove_from 0 b'u' (codes "rn:") s)))

-- `UUID(s)` of a text
unfoldable pub parse_uuid : Str → Result Uuid
unfolding hex_of_text int_16
parse_uuid s =
    let hex = hex_of_text s in
    if length hex == 32 then or_raise value_error (int_16 hex) else err value_error

unfoldable pub hex_char : ℕ → ℕ
hex_char d = if leb d 9 then d + b'0' else d - 10 + b'a'

-- `"%0kx" % n` for n below 16 ^ k
unfoldable pub hex_digits : ℕ → ℕ → Str
hex_digits zero n = []
hex_digits (suc k) n = hex_digits k (n / 16) ++ hex_char (n % 16) ∷ []

-- `"%s-%s-%s-%s-%s"`
abbrev pub dashed : (a b c d e : Str) → Str
dashed a b c d e = a ++ b'-' ∷ (b ++ b'-' ∷ (c ++ b'-' ∷ (d ++ b'-' ∷ e)))

-- `str(uuid)`
unfoldable pub print_uuid : Uuid → Str
print_uuid u =
    dashed (hex_digits 8 (u / 16 ^ 24)) (hex_digits 4 (u / 16 ^ 20 % 16 ^ 4))
      (hex_digits 4 (u / 16 ^ 16 % 16 ^ 4)) (hex_digits 4 (u / 16 ^ 12 % 16 ^ 4))
      (hex_digits 12 (u % 16 ^ 12))
