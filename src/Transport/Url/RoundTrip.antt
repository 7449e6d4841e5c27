-- ===== src/Transport/Url/RoundTrip.antt =====
-- `ParseURL` reads what a URL is printed as.
use go_ls_remote.Base.{
  ℕ, suc, ◌≡◌, ◌≢◌, refl, ap, ◌∙◌, sym, Option, none, some, [], ◌∷◌, ◌++◌, arith, Bytes, length,
  drop, append_assoc, append-nil, equal, ok,
}
use go_ls_remote.Base.Text.{bytes, cut_last, Lacks, cut-append, cut-none}
use go_ls_remote.Transport.Url.{
  Url, separator, user_part, split_user, path_part, split_path, bracketed_host, port_part,
  named_host, parse_host, behind_path, behind_user, parse_authority_path, blank, parse_cut,
  parse_url,
}
use go_ls_remote.Transport.Url.Redacted.{
  cut_last-none, cut_last-append, cut_text-separator, IsPath, before-path,
}
use go_ls_remote.Transport.Url.Printed.{
  Scheme, scheme_name, Host, host_name, IsHost, IsPort, host_text, authority_text, IsUser, or_empty,
  url_text, slash_free, at_free, authority-Lacks, https, http, ssh, git, named, literal,
}

drop_past :
    (user : Bytes) (c : ℕ) (rest : Bytes) → drop (suc (length user)) (user ++ (c ∷ rest)) ≡ rest
drop_past [] c rest = refl
drop_past (d ∷ user) c rest = drop_past user c rest

split_user-authority_text :
    (user : Option Bytes) (host path : Bytes)
    → Lacks b'/' (authority_text user host)
    → Lacks b'@' host
    → IsPath path
    → split_user (authority_text user host ++ path) ≡ (or_empty user, host ++ path)
split_user-authority_text none host path ha hh hp =
    ap (λ t. user_part (host ++ path) (cut_last b'@' t)) (before-path host path ha hp)
    ∙ ap (user_part (host ++ path)) (cut_last-none b'@' host hh)
split_user-authority_text (some user) host path ha hh hp =
    let text = (user ++ (b'@' ∷ host)) ++ path in
    ap (λ t. user_part text (cut_last b'@' t)) (before-path (user ++ (b'@' ∷ host)) path ha hp)
    ∙ ap (user_part text) (cut_last-append b'@' user host hh)
    ∙ ap (λ t. (user, t))
        (ap (drop (suc (length user))) (append_assoc user (b'@' ∷ host) path)
          ∙ drop_past user b'@' (host ++ path))

split_path-append :
    (host path : Bytes) → Lacks b'/' host → IsPath path → split_path (host ++ path) ≡ (host, path)
split_path-append host [] hh hp =
    ap split_path (append-nil host) ∙ ap (path_part host) (cut-none b'/' host hh)
split_path-append host (c ∷ path) hh hp =
    ap (λ d. split_path (host ++ (d ∷ path))) hp
    ∙ ap (path_part (host ++ (b'/' ∷ path))) (cut-append b'/' host path hh)
    ∙ ap (λ d. (host, d ∷ path)) (sym hp)

-- A URL with its parts.
abbrev pub url_of : Scheme → Option Bytes → Bytes → Bytes → Bytes → Bytes → Url
url_of scheme user host port path raw = record {
  scheme = scheme_name scheme;
  user = or_empty user;
  host = host;
  port = port;
  path = path;
  raw = raw;
}

module _ (scheme : Scheme) (user : Option Bytes) (path raw : Bytes) where
  -- The URL whose host is not read yet.
  abbrev begun : Url
  begun = url_of scheme user [] [] path raw

  not_bracket :
      (c : ℕ) (text : Bytes) → c ≢ b'[' → parse_host begun (c ∷ text) ≡ named_host begun (c ∷ text)
  not_bracket c text n = ground (arith)

  parse_host-named :
      (c : ℕ) (h : Bytes) (port : Option Bytes)
      → c ≢ b'['
      → Lacks b':' (c ∷ h)
      → IsPort port
      → parse_host begun (host_text (named (c ∷ h)) port)
        ≡ ok (url_of scheme user (c ∷ h) (or_empty port) path raw)
  parse_host-named c h none bracket hh hp =
      ap (λ t. parse_host begun t) (append-nil (c ∷ h))
      ∙ not_bracket c h bracket
      ∙ ap (port_part begun (c ∷ h)) (cut_last-none b':' (c ∷ h) hh)
  parse_host-named c h (some p) bracket hh hp =
      not_bracket c (h ++ (b':' ∷ p)) bracket
      ∙ ap (port_part begun ((c ∷ h) ++ (b':' ∷ p))) (cut_last-append b':' (c ∷ h) p hp.0)

  parse_host-host_text :
      (host : Host) (port : Option Bytes)
      → IsHost host
      → IsPort port
      → parse_host begun (host_text host port)
        ≡ ok (url_of scheme user (host_name host) (or_empty port) path raw)
  parse_host-host_text (named []) port hh hp = absurd (hh.0 refl)
  parse_host-host_text (named (c ∷ h)) port hh hp = parse_host-named c h port hh.2.0 hh.1 hp
  parse_host-host_text (literal h) none hh hp =
      ap (bracketed_host begun) (cut-append b']' h [] hh.1)
  parse_host-host_text (literal h) (some p) hh hp =
      ap (bracketed_host begun) (cut-append b']' h (b':' ∷ p) hh.1)

  parse_authority_path-authority_text :
      (host : Host) (port : Option Bytes)
      → IsUser user
      → IsHost host
      → IsPort port
      → IsPath path
      → parse_authority_path
          (record (blank raw) { scheme = scheme_name scheme })
          (authority_text user (host_text host port) ++ path)
        ≡ ok (url_of scheme user (host_name host) (or_empty port) path raw)
  unfolding parse_authority_path
  parse_authority_path-authority_text host port hu hh hp path_is =
      let u = record (blank raw) { scheme = scheme_name scheme } in
      let text = host_text host port in
      ap (behind_user u) (
        split_user-authority_text user text path
          (authority-Lacks user text hu (slash_free host port hh hp)) (at_free host port hh hp)
          path_is)
      ∙ ap (behind_path u (or_empty user))
          (split_path-append text path (slash_free host port hh hp) path_is)
      ∙ parse_host-host_text host port hh hp

parse_url-scheme :
    (scheme : Scheme) (rest : Bytes)
    → parse_url (scheme_name scheme ++ (separator ++ rest))
      ≡ parse_authority_path
          (record (blank (scheme_name scheme ++ (separator ++ rest))) {
            scheme = scheme_name scheme;
          })
          rest
unfolding parse_url equal
parse_url-scheme https rest =
    ap (parse_cut (bytes "https" ++ (separator ++ rest)))
      (cut_text-separator (bytes "https") rest (omega arith))
parse_url-scheme http rest =
    ap (parse_cut (bytes "http" ++ (separator ++ rest)))
      (cut_text-separator (bytes "http") rest (omega arith))
parse_url-scheme ssh rest =
    ap (parse_cut (bytes "ssh" ++ (separator ++ rest)))
      (cut_text-separator (bytes "ssh") rest (omega arith))
parse_url-scheme git rest =
    ap (parse_cut (bytes "git" ++ (separator ++ rest)))
      (cut_text-separator (bytes "git") rest (omega arith))

-- A URL of scheme https, http, ssh or git, printed with its user, its host, in brackets where it needs them,
-- its port and its path, is parsed as its parts. The user has no slash, the port no colon, slash or `@`, and the
-- path is empty or starts with a slash. The host is not empty and has no slash or `@`; it has no `]` where it
-- stands in brackets, and no colon or `[` where it does not.
pub parse_url-url_text :
    (scheme : Scheme) (user : Option Bytes) (host : Host) (port : Option Bytes) (path : Bytes)
    → IsUser user
    → IsHost host
    → IsPort port
    → IsPath path
    → parse_url (url_text scheme user host port path)
      ≡ ok (
          url_of scheme user
            (host_name host)
            (or_empty port)
            path
            (url_text scheme user host port path))
parse_url-url_text scheme user host port path hu hh hp path_is =
    parse_url-scheme scheme (authority_text user (host_text host port) ++ path)
    ∙ parse_authority_path-authority_text scheme user path (url_text scheme user host port path)
        host port hu hh hp path_is
