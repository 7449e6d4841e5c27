-- ===== src/Transport/Url.antt =====
-- transport/url.go and url_redact.go: remote URLs. A slice at an index is written as what stands before
-- and behind the index.
pub mod Redacted
pub mod Printed
pub mod RoundTrip
use go_ls_remote.Base.{
  ℕ, zero, suc, ◌+◌, ◌-◌, Bool, true, false, ◌&&◌, ◌||◌, not, Option, none, some, [], ◌∷◌, ◌++◌,
  ltb, leb, ◌==◌, if◌then◌else◌, Bytes, length, take, drop, equal, map, Result, ok, err, ◌>>=◌,
}
use go_ls_remote.Base.Text.{bytes, cut, cut_last, cut_text, has_prefix}

-- `URL`.
pub record Url : Type 0 where
  pub scheme : Bytes
  pub user : Bytes
  pub host : Bytes
  pub port : Bytes
  pub path : Bytes
  pub raw : Bytes

-- The errors of `ParseURL`, with the text that they quote.
pub data UrlError : Type 0 where
  empty_url : UrlError
  unsupported_scheme invalid_ipv6 missing_host unrecognized_url : Bytes → UrlError

abbrev pub separator : Bytes
separator = bytes "://"

abbrev pub first_part : Bytes → Option (Bytes × Bytes) → Bytes
first_part s none = s
first_part s (some (a, _)) = a

-- What stands before the first `c`, or all: the first result of `strings.Cut`.
abbrev pub before : ℕ → Bytes → Bytes
before c s = first_part s (cut c s)

-- `RedactURL` with the userinfo cut at its colon.
abbrev pub redact_user : Bytes → Bytes → Bytes → Bytes → Option (Bytes × Bytes) → Bytes
redact_user s scheme rest userinfo none = s
redact_user s scheme rest userinfo (some (user, _)) =
    scheme ++ (separator ++ (user ++ (b':' ∷ (bytes "***" ++ drop (length userinfo) rest))))

-- `RedactURL` with the authority cut at its last `@`.
abbrev pub redact_authority : Bytes → Bytes → Bytes → Option (Bytes × Bytes) → Bytes
redact_authority s scheme rest none = s
redact_authority s scheme rest (some (userinfo, _)) =
    redact_user s scheme rest userinfo (cut b':' userinfo)

-- `RedactURL` with the text cut behind the scheme.
abbrev pub redact_rest : Bytes → Option (Bytes × Bytes) → Bytes
redact_rest s none = s
redact_rest s (some (scheme, rest)) =
    redact_authority s scheme rest (cut_last b'@' (before b'/' rest))

-- `RedactURL`.
unfoldable pub redact_url : Bytes → Bytes
redact_url s = redact_rest s (cut_text separator s)

-- `scpSeparator`, as what stands before and behind the colon; `depth` is that of the brackets so far.
unfoldable pub scp_separator : Bytes → ℕ → Option (Bytes × Bytes)
scp_separator [] depth = none
scp_separator (c ∷ s) depth =
    let deeper = scp_separator s (depth + 1) in
    let closed = scp_separator s (depth - 1) in
    let same = scp_separator s depth in
    let next = if c == b'[' then deeper else if c == b']' then closed else same in
    if c == b'/' && depth == 0
    then none
    else if c == b':' && depth == 0
    then some ([], s)
    else elim next [ none ↦ none | some (a, b) ↦ some (c ∷ a, b) ]

-- `strings.ToLower` on ASCII text.
abbrev pub to_lower : Bytes → Bytes
to_lower s = map (λ c. if leb b'A' c && leb c b'Z' then c + 32 else c) s

-- The user and what follows it, with the authority cut at its last `@`.
abbrev pub user_part : Bytes → Option (Bytes × Bytes) → Bytes × Bytes
user_part s none = ([], s)
user_part s (some (user, _)) = (user, drop (suc (length user)) s)

abbrev pub split_user : Bytes → Bytes × Bytes
split_user s = user_part s (cut_last b'@' (before b'/' s))

-- The host with its port, and the path, which starts at the first slash.
abbrev pub path_part : Bytes → Option (Bytes × Bytes) → Bytes × Bytes
path_part s none = (s, [])
path_part s (some (host, path)) = (host, b'/' ∷ path)

abbrev pub split_path : Bytes → Bytes × Bytes
split_path s = path_part s (cut b'/' s)

-- A bracketed literal, cut at its second bracket.
abbrev pub bracketed_host : Url → Option (Bytes × Bytes) → Result UrlError Url
bracketed_host u none = err (invalid_ipv6 (redact_url u.raw))
bracketed_host u (some (host, [])) = ok (record u { host = host })
bracketed_host u (some (host, c ∷ port)) =
    if c == b':'
    then ok (record u { host = host; port = port })
    else err (invalid_ipv6 (redact_url u.raw))

abbrev pub literal_host : Url → Bytes → Result UrlError Url
literal_host u inner = bracketed_host u (cut b']' inner)

abbrev pub require_host : Url → Result UrlError Url
require_host u = elim u.host [ [] ↦ err (missing_host (redact_url u.raw)) | _ ∷ _ ↦ ok u ]

-- `host[:port]`, cut at its last colon.
abbrev pub port_part : Url → Bytes → Option (Bytes × Bytes) → Result UrlError Url
port_part u text none = require_host (record u { host = text })
port_part u text (some (host, port)) = require_host (record u { host = host; port = port })

abbrev pub named_host : Url → Bytes → Result UrlError Url
named_host u text = port_part u text (cut_last b':' text)

abbrev pub parse_host : Url → Bytes → Result UrlError Url
parse_host u [] = named_host u []
parse_host u (c ∷ text) = if c == b'[' then literal_host u text else named_host u (c ∷ text)

-- `parseAuthorityPath` behind the cut at the first slash, and behind the userinfo.
abbrev pub behind_path : Url → Bytes → Bytes × Bytes → Result UrlError Url
behind_path u user parts = parse_host (record u { user = user; path = parts.1 }) parts.0

abbrev pub behind_user : Url → Bytes × Bytes → Result UrlError Url
behind_user u parts = behind_path u parts.0 (split_path parts.1)

-- `parseAuthorityPath`.
unfoldable pub parse_authority_path : Url → Bytes → Result UrlError Url
parse_authority_path u s = behind_user u (split_user s)

abbrev pub is_scheme : Bytes → Bool
is_scheme s =
    equal s (bytes "https")
    || (equal s (bytes "http")
        || (equal s (bytes "ssh") || (equal s (bytes "git") || equal s (bytes "file"))))

abbrev pub blank : Bytes → Url
blank s = record { scheme = []; user = []; host = []; port = []; path = []; raw = s }

-- A URL with a scheme.
abbrev pub parse_with_scheme : Bytes → Bytes → Bytes → Result UrlError Url
parse_with_scheme s scheme rest =
    if not (is_scheme scheme)
    then err (unsupported_scheme scheme)
    else if equal scheme (bytes "file")
    then ok (record (blank s) {
      scheme = scheme;
      path = b'/' ∷ (if has_prefix rest (bytes "/") then drop 1 rest else rest);
    })
    else parse_authority_path (record (blank s) { scheme = scheme }) rest

-- The host of an scp-style URL, without its brackets.
abbrev pub without_brackets : Bytes → Bytes
without_brackets text =
    if has_prefix text (bytes "[")
      && (ltb 1 (length text) && equal (drop (length text - 1) text) (bytes "]"))
    then take (length text - 2) (drop 1 text)
    else text

abbrev pub scp_user : Bytes → Bytes × Bytes
scp_user text = elim (cut_last b'@' text) [ none ↦ ([], text) | some (user, host) ↦ (user, host) ]

-- An scp-style URL, or what is none.
abbrev pub parse_scp : Bytes → Result UrlError Url
parse_scp s = elim (scp_separator s 0) [
  | none ↦ err (unrecognized_url (redact_url s))
  | some (text, path) ↦
      let (user, host) = scp_user text in
      elim (without_brackets host) [
        | [] ↦ err (missing_host (redact_url s))
        | c ∷ name ↦ ok (record (blank s) {
          scheme = bytes "ssh";
          user = user;
          host = c ∷ name;
          path = b'/' ∷ path;
        })
      ]
]

abbrev pub parse_without_scheme : Bytes → Result UrlError Url
parse_without_scheme s =
    if has_prefix s (bytes "/")
    then ok (record (blank s) { scheme = bytes "file"; path = s })
    else parse_scp s

abbrev pub parse_cut : Bytes → Option (Bytes × Bytes) → Result UrlError Url
parse_cut s none = parse_without_scheme s
parse_cut s (some ([], rest)) = parse_without_scheme s
parse_cut s (some (c ∷ scheme, rest)) = parse_with_scheme s (to_lower (c ∷ scheme)) rest

-- `ParseURL`.
unfoldable pub parse_url : Bytes → Result UrlError Url
parse_url [] = err empty_url
parse_url (c ∷ s) = parse_cut (c ∷ s) (cut_text separator (c ∷ s))
