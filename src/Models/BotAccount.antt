-- ===== src/Models/BotAccount.antt =====
-- pybotx/models/bot_account.py. `cts_url` is `str` of a URL that pydantic has validated, so its
-- brackets are balanced and it holds no control characters, and `urlparse` does not raise.
use pybotx.Common.{
  ℕ, Bool, false, ◌&&◌, ◌||◌, Option, none, some, [], ◌∷◌, ◌++◌, Result, or_raise, value_error, leb,
  ◌==◌, if◌then◌else◌, all,
}
use pybotx.Common.Text.{Str, codes, strip_prefix, is_empty, lower, partition, after_last}
use pybotx.Common.Uuid.{Uuid}

pub record BotAccount : Type 0 where
  pub id : Uuid
  pub host : Option Str

pub record BotAccountWithSecret : Type 0 where
  pub id : Uuid
  pub cts_url : Str
  pub secret_key : Str

is_letter : ℕ → Bool
is_letter c = (leb b'a' c && leb c b'z') || (leb b'A' c && leb c b'Z')

is_scheme_char : ℕ → Bool
is_scheme_char c = is_letter c || (leb b'0' c && leb c b'9') || c == b'+' || c == b'-' || c == b'.'

is_scheme : Str → Bool
is_scheme [] = false
is_scheme (c ∷ s) = is_letter c && all is_scheme_char s

-- The URL behind its scheme.
after_scheme : Str → Str
after_scheme url =
    let (scheme, after) = partition b':' url in
    elim after [ none ↦ url | some rest ↦ if is_scheme scheme then rest else url ]

-- The part of a text before the first of `/`, `?` and `#`.
until_path : Str → Str
until_path [] = []
until_path (c ∷ s) =
    let rest = c ∷ until_path s in if c == b'/' || c == b'?' || c == b'#' then [] else rest

netloc : Str → Str
netloc url = elim (strip_prefix (codes "//") (after_scheme url)) [
  | none ↦ []
  | some rest ↦ until_path rest
]

-- `_hostinfo`: the host without user information, brackets and port
host_part : Str → Str
host_part loc =
    let hostinfo = after_last b'@' loc in
    elim (partition b'[' hostinfo).1 [
      | some bracketed ↦ (partition b']' bracketed).0
      | none ↦ (partition b':' hostinfo).0
    ]

-- A zone, after `%`, keeps its case.
lower_host : Str → Str
lower_host h =
    let (name, after) = partition b'%' h in
    elim after [ none ↦ lower name | some zone ↦ lower name ++ b'%' ∷ zone ]

-- `urlparse(url).hostname`
unfoldable pub hostname : Str → Option Str
unfolding netloc after_scheme partition after_last is_scheme is_letter is_scheme_char until_path
    host_part lower_host lower strip_prefix
hostname url = let h = host_part (netloc url) in if is_empty h then none else some (lower_host h)

-- The property `host`.
unfoldable pub host : BotAccountWithSecret → Result Str
host account = or_raise value_error (hostname account.cts_url)
