-- ===== src/Common/Base64.antt =====
-- `base64.b64encode` and `base64.b64decode` (not validating): bytes are numbers below 256. The
-- decoder takes characters, since those outside ASCII, whatever their bytes, are passed over; lone
-- surrogates, which have no bytes, do not occur in the texts modelled here.
use pybotx.Common.{
  ℕ, zero, suc, ◌+◌, ◌-◌, ◌*◌, ◌/◌, ◌%◌, ◌<◌, ◌≡◌, ◌++◌, refl, ◌∙◌, ap, ◌&&◌, Option, none, some,
  List, [], ◌∷◌, leb, ltb, ◌==◌, if◌then◌else◌, Result, ok, err, value_error, arith, All,
}
use pybotx.Common.Text.{Str}

abbrev pub Bytes : Type 0
Bytes = List ℕ

b64_char : ℕ → ℕ
b64_char v =
    if ltb v 26
    then v + b'A'
    else if ltb v 52
    then v - 26 + b'a'
    else if ltb v 62
    then v - 52 + b'0'
    else if v == 62
    then b'+'
    else b'/'

b64_value : ℕ → Option ℕ
b64_value c =
    if leb b'A' c && leb c b'Z'
    then some (c - b'A')
    else if leb b'a' c && leb c b'z'
    then some (c - b'a' + 26)
    else if leb b'0' c && leb c b'9'
    then some (c - b'0' + 52)
    else if c == b'+'
    then some 62
    else if c == b'/'
    then some 63
    else none

unfoldable pub b64encode : Bytes → Str
unfolding b64_char
b64encode [] = []
b64encode (a ∷ []) = b64_char (a / 4) ∷ b64_char (a % 4 * 16) ∷ b'=' ∷ b'=' ∷ []
b64encode (a ∷ b ∷ []) =
    b64_char (a / 4) ∷ b64_char (a % 4 * 16 + b / 16) ∷ b64_char (b % 16 * 4) ∷ b'=' ∷ []
b64encode (a ∷ b ∷ c ∷ s) =
    b64_char (a / 4)
    ∷ b64_char (a % 4 * 16 + b / 16)
    ∷ b64_char (b % 16 * 4 + c / 64)
    ∷ b64_char (c % 64)
    ∷ b64encode s

-- The byte that a character completes, and the bits that are left of it; `quad` is the place of the
-- character in its group of four.
abbrev emits : (quad left v : ℕ) → Bytes
emits zero left v = []
emits (suc zero) left v = (left * 4 + v / 16) ∷ []
emits (suc (suc zero)) left v = (left * 16 + v / 4) ∷ []
emits (suc (suc (suc q))) left v = (left * 64 + v) ∷ []

abbrev left_of : (quad v : ℕ) → ℕ
left_of zero v = v
left_of (suc zero) v = v % 16
left_of (suc (suc zero)) v = v % 4
left_of (suc (suc (suc q))) v = 0

abbrev next_quad : ℕ → ℕ
next_quad zero = 1
next_quad (suc zero) = 2
next_quad (suc (suc zero)) = 3
next_quad (suc (suc (suc q))) = 0

abbrev prepend : Bytes → Result Bytes → Result Bytes
prepend bs (ok cs) = ok (bs ++ cs)
prepend bs (err e) = err e

-- The loop of `a2b_base64`. A padding that completes a group ends the input.
decode_from : (quad left pads : ℕ) → Str → Result Bytes
decode_from quad left pads [] = if quad == 0 then ok [] else err value_error
decode_from quad left pads (c ∷ s) =
    let skipped = decode_from quad left pads s in
    let padded = decode_from quad left (pads + 1) s in
    elim (b64_value c) [
      | some v ↦ prepend (emits quad left v) (decode_from (next_quad quad) (left_of quad v) 0 s)
      | none ↦
          if c == b'=' && leb 2 quad
          then (if leb 4 (quad + (pads + 1)) then ok [] else padded)
          else skipped
    ]

unfoldable pub b64decode : Str → Result Bytes
unfolding decode_from b64_value
b64decode s = decode_from 0 0 0 s

abbrev pub IsBytes : Bytes → Type 0
IsBytes = All (λ b. b < 256)

b64_value-b64_char : (v : ℕ) → v < 64 → b64_value (b64_char v) ≡ some v
unfolding b64_value b64_char
b64_value-b64_char v h = ground arith

decode_from-char :
    (quad left pads v : ℕ) (s : Str)
    → v < 64
    → decode_from quad left pads (b64_char v ∷ s)
      ≡ prepend (emits quad left v) (decode_from (next_quad quad) (left_of quad v) 0 s)
unfolding decode_from
decode_from-char quad left pads v s h = rw (b64_value-b64_char v h, decode_from)

-- A group of four characters that holds three bytes.
decode_from-group :
    (v w x y : ℕ) (s : Str)
    → v < 64
    → w < 64
    → x < 64
    → y < 64
    → decode_from 0 0 0 (b64_char v ∷ b64_char w ∷ b64_char x ∷ b64_char y ∷ s)
      ≡ prepend
          ((v * 4 + w / 16) ∷ (w % 16 * 16 + x / 4) ∷ (x % 4 * 64 + y) ∷ [])
          (decode_from 0 0 0 s)
decode_from-group v w x y s hv hw hx hy =
    rw
      (
        decode_from-char 0 0 0 v _ hv,
        decode_from-char 1 v 0 w _ hw,
        decode_from-char 2 (w % 16) 0 x _ hx,
        decode_from-char 3 (x % 4) 0 y s hy,
      )
      (prepend-prepend (decode_from 0 0 0 s))
  where
    prepend-prepend :
        (r : Result Bytes)
        → prepend [] (
            prepend
              ((v * 4 + w / 16) ∷ [])
              (prepend ((w % 16 * 16 + x / 4) ∷ []) (prepend ((x % 4 * 64 + y) ∷ []) r)))
          ≡ prepend ((v * 4 + w / 16) ∷ (w % 16 * 16 + x / 4) ∷ (x % 4 * 64 + y) ∷ []) r
    prepend-prepend (ok bs) = refl
    prepend-prepend (err e) = refl

-- The four values of a group give its three bytes back.
group_bytes :
    (a b c : ℕ)
    → a < 256
    → b < 256
    → c < 256
    → (a / 4 * 4 + (a % 4 * 16 + b / 16) / 16 ≡ a)
      × ((a % 4 * 16 + b / 16) % 16 * 16 + (b % 16 * 4 + c / 64) / 4 ≡ b)
      × ((b % 16 * 4 + c / 64) % 4 * 64 + c % 64 ≡ c)
group_bytes a b c ha hb hc = (omega arith, omega arith, omega arith)

two_bytes : (a b : ℕ) → a < 256 → b < 256 → (a % 4 * 16 + b / 16) % 16 * 16 + b % 16 * 4 / 4 ≡ b
two_bytes a b ha hb = omega arith

-- Decoding what was encoded gives the bytes back.
pub b64decode-b64encode : (bs : Bytes) → IsBytes bs → b64decode (b64encode bs) ≡ ok bs
unfolding b64decode b64encode
b64decode-b64encode [] h = refl
b64decode-b64encode (a ∷ []) (ha, h) =
    rw
      (
        decode_from-char 0 0 0 (a / 4) _ (omega arith),
        decode_from-char 1 (a / 4) 0 (a % 4 * 16) _ (omega arith),
      )
      (ap (λ t. ok (t ∷ [])) (omega arith))
b64decode-b64encode (a ∷ b ∷ []) (ha, (hb, h)) =
    let (e, f, _) = group_bytes a b 0 ha hb (omega arith) in
    rw
      (
        decode_from-char 0 0 0 (a / 4) _ (omega arith),
        decode_from-char 1 (a / 4) 0 (a % 4 * 16 + b / 16) _ (omega arith),
        decode_from-char 2 ((a % 4 * 16 + b / 16) % 16) 0 (b % 16 * 4) _ (omega arith),
      )
      (cc (e, two_bytes a b ha hb))
b64decode-b64encode (a ∷ b ∷ c ∷ s) (ha, (hb, (hc, h))) =
    decode_from-group (a / 4) (a % 4 * 16 + b / 16) (b % 16 * 4 + c / 64) (c % 64) (b64encode s)
      (omega arith) (omega arith) (omega arith) (omega arith)
    ∙ rw (b64decode-b64encode s h) (let (e, f, g) = group_bytes a b c ha hb hc in cc (e, f, g))
