-- ===== src/Transport/Url/Redacted.antt =====
-- `RedactURL` hides a password.
use go_ls_remote.Base.{
  ℕ, ◌≡◌, ◌≢◌, refl, ap, ◌∙◌, sym, none, some, [], ◌∷◌, ◌++◌, arith, Bytes, length, drop,
  All-append, append_assoc, append-nil, drop-append_self,
}
use go_ls_remote.Base.Text.{bytes, cut_last, cut_text, cut_prefix, Lacks, cut-append, cut-none}
use go_ls_remote.Transport.Url.{
  separator, first_part, before, redact_user, redact_authority, redact_rest, redact_url,
}

pub cut_last-none : (e : ℕ) (s : Bytes) → Lacks e s → cut_last e s ≡ none
unfolding cut_last
cut_last-none e [] h = refl
cut_last-none e (c ∷ s) h = rw (cut_last-none e s h.1) (ground (arith, h.0))

pub cut_last-append : (e : ℕ) (a b : Bytes) → Lacks e b → cut_last e (a ++ (e ∷ b)) ≡ some (a, b)
unfolding cut_last
cut_last-append e [] b h = rw (cut_last-none e b h) (ground arith)
cut_last-append e (c ∷ a) b h = rw (cut_last-append e a b h) refl

-- A scheme has no colon, so the separator is found behind it.
pub cut_text-separator :
    (scheme rest : Bytes)
    → Lacks b':' scheme
    → cut_text separator (scheme ++ (separator ++ rest)) ≡ some (scheme, rest)
unfolding cut_text cut_prefix
cut_text-separator [] rest h = ground arith
cut_text-separator (c ∷ scheme) rest h = ground (arith, cut_text-separator scheme rest h.1, h.0)

-- What follows an authority: nothing, or a slash and more.
abbrev pub IsPath : Bytes → Type 0
IsPath [] = Unit {0}
IsPath (c ∷ path) = c ≡ b'/'

pub before-path :
    (text path : Bytes) → Lacks b'/' text → IsPath path → before b'/' (text ++ path) ≡ text
before-path text [] h p =
    ap (before b'/') (append-nil text) ∙ ap (first_part text) (cut-none b'/' text h)
before-path text (c ∷ path) h p =
    ap (λ d. before b'/' (text ++ (d ∷ path))) p
    ∙ ap (first_part (text ++ (b'/' ∷ path))) (cut-append b'/' text path h)

-- A URL with a user and a password; the password may hold any byte but a slash, an `@` and a colon too.
abbrev pub with_password : Bytes → Bytes → Bytes → Bytes → Bytes → Bytes
with_password scheme user password host path =
    scheme ++ (separator ++ (((user ++ (b':' ∷ password)) ++ (b'@' ∷ host)) ++ path))

redact_authority-with_password :
    (s scheme user password host path : Bytes)
    → Lacks b':' user
    → Lacks b'/' ((user ++ (b':' ∷ password)) ++ (b'@' ∷ host))
    → Lacks b'@' host
    → IsPath path
    → (let rest = ((user ++ (b':' ∷ password)) ++ (b'@' ∷ host)) ++ path in
        redact_authority s scheme rest (cut_last b'@' (before b'/' rest)))
      ≡ with_password scheme user (bytes "***") host path
redact_authority-with_password s scheme user password host path hu ha hh hp =
    let userinfo = user ++ (b':' ∷ password) in
    let rest = (userinfo ++ (b'@' ∷ host)) ++ path in
    ap (λ t. redact_authority s scheme rest (cut_last b'@' t))
      (before-path (userinfo ++ (b'@' ∷ host)) path ha hp)
    ∙ ap (redact_authority s scheme rest) (cut_last-append b'@' userinfo host hh)
    ∙ ap (redact_user s scheme rest userinfo) (cut-append b':' user password hu)
    ∙ ap (λ t. scheme ++ (separator ++ (user ++ (b':' ∷ (bytes "***" ++ t)))))
        (ap (drop (length userinfo)) (append_assoc userinfo (b'@' ∷ host) path)
          ∙ drop-append_self userinfo (b'@' ∷ (host ++ path)))
    ∙ ap (λ t. scheme ++ (separator ++ t))
        (sym (append_assoc user (b':' ∷ bytes "***") (b'@' ∷ (host ++ path)))
          ∙ sym (append_assoc (user ++ (b':' ∷ bytes "***")) (b'@' ∷ host) path))

-- Of a URL with a scheme, a user and a password, `RedactURL` keeps everything but the password, in whose
-- place it puts three stars, so that URLs that differ in their passwords only look the same. The scheme and
-- the user have no colon, user, password and host no slash, and the host no `@`; the user and the password
-- may have one.
pub redact_url-with_password :
    (scheme user password host path : Bytes)
    → Lacks b':' scheme
    → Lacks b':' user
    → Lacks b'/' user
    → Lacks b'/' password
    → Lacks b'/' host
    → Lacks b'@' host
    → IsPath path
    → redact_url (with_password scheme user password host path)
      ≡ with_password scheme user (bytes "***") host path
unfolding redact_url
redact_url-with_password scheme user password host path hs hu su sp sh hh hp =
    let rest = ((user ++ (b':' ∷ password)) ++ (b'@' ∷ host)) ++ path in
    ap (redact_rest (with_password scheme user password host path))
      (cut_text-separator scheme rest hs)
    ∙ redact_authority-with_password (with_password scheme user password host path) scheme user
        password host path hu
        (All-append (λ c. c ≢ b'/') (user ++ (b':' ∷ password)) (b'@' ∷ host)
          (All-append (λ c. c ≢ b'/') user (b':' ∷ password) su (omega arith, sp))
          (omega arith, sh))
        hh hp
