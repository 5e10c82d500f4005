-- ===== src/Common/Uuid/Print.antt =====
-- A printed UUID is read back.
use native.Mathlib.Nat.{pow-suc}
use pybotx.Common.{
  ℕ, zero, suc, ◌+◌, ◌*◌, ◌/◌, ◌%◌, ◌^◌, ◌≤◌, ◌<◌, ◌≡◌, ◌≢◌, refl, sym, ◌∙◌, ap, ◌⊎◌, inl, inr,
  Bool, true, false, Option, some, [], ◌∷◌, ◌++◌, append_assoc, append-nil, arith, ok, All,
  All-append, length, length-append,
}
use pybotx.Common.Text.{strip_by-none, Str, strip, strip_prefix, is_space}
use pybotx.Common.Uuid.Defs.{
  Uuid, uuid_bound, hex_value, hex_from, skip_prefix, skip_plus, int_16, remove_from, remove_dashes,
  is_brace, hex_of_text, parse_uuid, hex_char, hex_digits, dashed, print_uuid,
}

abbrev pub IsHex : ℕ → Type 0
IsHex c = ((48 ≤ c) × (c ≤ 57)) ⊎ ((97 ≤ c) × (c ≤ 102))

-- A character of a printed UUID.
abbrev pub IsUuidChar : ℕ → Type 0
IsUuidChar c = IsHex c ⊎ (c ≡ 45)

hex_value-hex_char : (d : ℕ) → d < 16 → hex_value (hex_char d) ≡ some d
unfolding hex_value hex_char
hex_value-hex_char d h = ground arith

hex_char-IsHex : (d : ℕ) → d < 16 → IsHex (hex_char d)
unfolding hex_char
hex_char-IsHex d h = ground arith

hex_digits-IsHex : (k n : ℕ) → All IsHex (hex_digits k n)
unfolding hex_digits
hex_digits-IsHex zero n = tt
hex_digits-IsHex (suc k) n =
    All-append IsHex (hex_digits k (n / 16)) _ (hex_digits-IsHex k (n / 16))
      (hex_char-IsHex (n % 16) (omega arith), tt)

hex_from-digit :
    (acc d : ℕ) (digit : Bool) (s : Str)
    → d < 16
    → hex_from acc digit (hex_char d ∷ s) ≡ hex_from (acc * 16 + d) true s
unfolding hex_from
hex_from-digit acc d digit s h = rw (hex_value-hex_char d h, hex_from)

hex_from-hex_digits :
    (k n acc : ℕ) (digit : Bool) (s : Str)
    → n < 16 ^ suc k
    → hex_from acc digit (hex_digits (suc k) n ++ s) ≡ hex_from (acc * 16 ^ suc k + n) true s
unfolding hex_digits
hex_from-hex_digits zero n acc digit s h =
    hex_from-digit acc (n % 16) digit s (omega arith) ∙ ap (λ m. hex_from m true s) (omega arith)
hex_from-hex_digits (suc k) n acc digit s h =
    ap (hex_from acc digit) (append_assoc (hex_digits (suc k) (n / 16)) _ s)
    ∙ hex_from-hex_digits k (n / 16) acc digit _ (omega (arith, pow-suc 16 (suc k)))
    ∙ hex_from-digit _ (n % 16) true s (omega arith)
    ∙ ap (λ m. hex_from m true s)
        (omega (arith, pow-suc 16 (suc k), ap (λ (t : ℕ). acc * t) (pow-suc 16 (suc k))))

length-hex_digits : (k n : ℕ) → length (hex_digits k n) ≡ k
unfolding hex_digits
length-hex_digits zero n = refl
length-hex_digits (suc k) n = omega (
  arith,
  length-append {0} (hex_digits k (n / 16)) (hex_char (n % 16) ∷ []),
  length-hex_digits k (n / 16),
)

-- Characters that a function looks for and that do not occur.
remove_from-none : (c : ℕ) (p s : Str) → All (λ d. c ≢ d) s → remove_from 0 c p s ≡ s
unfolding remove_from strip_prefix
remove_from-none c p [] h = refl
remove_from-none c p (d ∷ s) (n, h) = ground (arith, remove_from-none c p s h)

remove_dashes-append : (s t : Str) → remove_dashes (s ++ t) ≡ remove_dashes s ++ remove_dashes t
unfolding remove_dashes
remove_dashes-append [] t = refl
remove_dashes-append (c ∷ s) t = ground (arith, remove_dashes-append s t)

remove_dashes-IsHex : (s : Str) → All IsHex s → remove_dashes s ≡ s
unfolding remove_dashes
remove_dashes-IsHex [] h = refl
remove_dashes-IsHex (c ∷ s) (p, h) = ground (arith, remove_dashes-IsHex s h)

-- Facts about each character of a printed UUID, which the steps of `UUID` ask for.
module _ {P Q : ℕ → Type 0} (f : (c : ℕ) → P c → Q c) where
  pub All-mono : (s : Str) → All P s → All Q s
  All-mono [] h = tt
  All-mono (c ∷ s) (p, h) = (f c p, All-mono s h)

not_brace : (c : ℕ) → IsUuidChar c → is_brace c ≡ false
unfolding is_brace
not_brace c h = ground arith

not_space : (c : ℕ) → IsHex c → is_space c ≡ false
unfolding is_space
not_space c h = ground arith

not_u : (c : ℕ) → IsUuidChar c → 117 ≢ c
not_u c h = ground arith

skip_plus-IsHex : (s : Str) → All IsHex s → skip_plus s ≡ s
unfolding skip_plus
skip_plus-IsHex [] h = refl
skip_plus-IsHex (c ∷ s) (p, h) = ground arith

skip_prefix-IsHex : (s : Str) → All IsHex s → skip_prefix s ≡ s
unfolding skip_prefix
skip_prefix-IsHex [] h = refl
skip_prefix-IsHex (c ∷ []) h = refl
skip_prefix-IsHex (c ∷ d ∷ s) (p, (q, h)) = ground arith

int_16-IsHex : (s : Str) → All IsHex s → int_16 s ≡ hex_from 0 false s
unfolding int_16 strip
int_16-IsHex s h =
    ap (λ t. hex_from 0 false (skip_prefix (skip_plus t)))
      (strip_by-none is_space s (All-mono not_space s h))
    ∙ ap (λ t. hex_from 0 false (skip_prefix t)) (skip_plus-IsHex s h)
    ∙ ap (hex_from 0 false) (skip_prefix-IsHex s h)

hex_of_text-IsUuidChar : (s : Str) → All IsUuidChar s → hex_of_text s ≡ remove_dashes s
unfolding hex_of_text
hex_of_text-IsUuidChar s h = rw (
  remove_from-none 117 _ s (All-mono not_u s h),
  remove_from-none 117 _ s (All-mono not_u s h),
  strip_by-none is_brace s (All-mono not_brace s h),
)

remove_dashes-join :
    (s t : Str) → All IsHex s → remove_dashes (s ++ b'-' ∷ t) ≡ s ++ remove_dashes t
unfolding remove_dashes
remove_dashes-join s t h =
    remove_dashes-append s (b'-' ∷ t) ∙ ap (λ r. r ++ remove_dashes t) (remove_dashes-IsHex s h)

IsUuidChar-hex : (s : Str) → All IsHex s → All IsUuidChar s
IsUuidChar-hex s h = All-mono (λ c p. inl p) s h

IsUuidChar-join : (s t : Str) → All IsHex s → All IsUuidChar t → All IsUuidChar (s ++ b'-' ∷ t)
IsUuidChar-join s t h k = All-append IsUuidChar s (b'-' ∷ t) (IsUuidChar-hex s h) (inr refl, k)

dashed-IsUuidChar :
    (a b c d e : Str)
    → All IsHex a
    → All IsHex b
    → All IsHex c
    → All IsHex d
    → All IsHex e
    → All IsUuidChar (dashed a b c d e)
dashed-IsUuidChar a b c d e ha hb hc hd he =
    IsUuidChar-join a _ ha (
      IsUuidChar-join b _ hb
        (IsUuidChar-join c _ hc (IsUuidChar-join d _ hd (IsUuidChar-hex e he))))

pub print_uuid-IsUuidChar : (u : Uuid) → All IsUuidChar (print_uuid u)
unfolding print_uuid
print_uuid-IsUuidChar u =
    dashed-IsUuidChar _ _ _ _ _ (hex_digits-IsHex 8 _) (hex_digits-IsHex 4 _) (hex_digits-IsHex 4 _)
      (hex_digits-IsHex 4 _) (hex_digits-IsHex 12 _)

remove_dashes-dashed :
    (a b c d e : Str)
    → All IsHex a
    → All IsHex b
    → All IsHex c
    → All IsHex d
    → All IsHex e
    → remove_dashes (dashed a b c d e) ≡ a ++ (b ++ (c ++ (d ++ e)))
remove_dashes-dashed a b c d e ha hb hc hd he = rw (
  remove_dashes-join a _ ha,
  remove_dashes-join b _ hb,
  remove_dashes-join c _ hc,
  remove_dashes-join d _ hd,
  remove_dashes-IsHex e he,
)

-- The digits of a UUID without the dashes.
abbrev digits : Uuid → Str
digits u =
    hex_digits 8 (u / 16 ^ 24)
    ++ (hex_digits 4 (u / 16 ^ 20 % 16 ^ 4)
        ++ (hex_digits 4 (u / 16 ^ 16 % 16 ^ 4)
            ++ (hex_digits 4 (u / 16 ^ 12 % 16 ^ 4) ++ hex_digits 12 (u % 16 ^ 12))))

hex_of_text-print_uuid : (u : Uuid) → hex_of_text (print_uuid u) ≡ digits u
unfolding print_uuid
hex_of_text-print_uuid u =
    hex_of_text-IsUuidChar (print_uuid u) (print_uuid-IsUuidChar u)
    ∙ remove_dashes-dashed _ _ _ _ _ (hex_digits-IsHex 8 _) (hex_digits-IsHex 4 _)
        (hex_digits-IsHex 4 _) (hex_digits-IsHex 4 _) (hex_digits-IsHex 12 _)

digits-IsHex : (u : Uuid) → All IsHex (digits u)
digits-IsHex u = All-append IsHex (hex_digits 8 _) _ (hex_digits-IsHex 8 _) (
    All-append IsHex (hex_digits 4 _) _ (hex_digits-IsHex 4 _) (
      All-append IsHex (hex_digits 4 _) _ (hex_digits-IsHex 4 _)
        (All-append IsHex (hex_digits 4 _) _ (hex_digits-IsHex 4 _) (hex_digits-IsHex 12 _))))

length-digits : (u : Uuid) → length (digits u) ≡ 32
unfolding hex_digits
length-digits u = refl

hex_from-last :
    (k n acc : ℕ)
    → n < 16 ^ suc k
    → hex_from acc true (hex_digits (suc k) n) ≡ some (acc * 16 ^ suc k + n)
unfolding hex_from
hex_from-last k n acc h =
    ap (hex_from acc true) (sym (append-nil (hex_digits (suc k) n)))
    ∙ hex_from-hex_digits k n acc true [] h

hex_from-digits : (u : Uuid) → u < uuid_bound → hex_from 0 false (digits u) ≡ some u
hex_from-digits u h =
    hex_from-hex_digits 7 _ 0 false _ (omega arith)
    ∙ hex_from-hex_digits 3 _ _ true _ (omega arith)
    ∙ hex_from-hex_digits 3 _ _ true _ (omega arith)
    ∙ hex_from-hex_digits 3 _ _ true _ (omega arith)
    ∙ hex_from-last 11 _ _ (omega arith)
    ∙ ap {B = Option ℕ} some (omega arith)

-- `UUID(str(u)) == u`
pub parse_uuid-print_uuid : (u : Uuid) → u < uuid_bound → parse_uuid (print_uuid u) ≡ ok u
unfolding parse_uuid
parse_uuid-print_uuid u h = rw (
  hex_of_text-print_uuid u,
  length-digits u,
  int_16-IsHex (digits u) (digits-IsHex u),
  hex_from-digits u h,
)
