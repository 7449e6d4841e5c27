-- ===== src/Tests/Url.antt =====
-- URLs at concrete texts.
use go_ls_remote.Base.{◌≡◌, refl, some, ok, arith}
use go_ls_remote.Base.Text.{bytes}
use go_ls_remote.Transport.Url.{redact_url, parse_url}
use go_ls_remote.Transport.Url.Redacted.{with_password, redact_url-with_password}
use go_ls_remote.Transport.Url.Printed.{https, literal, url_text}
use go_ls_remote.Transport.Url.RoundTrip.{url_of, parse_url-url_text}

redact_url_example :
    redact_url (
      with_password
        (bytes "https")
        (bytes "alice")
        (bytes "p@ss:word")
        (bytes "host:80")
        (bytes "/path"))
    ≡ with_password (bytes "https") (bytes "alice") (bytes "***") (bytes "host:80") (bytes "/path")
redact_url_example =
    redact_url-with_password (bytes "https") (bytes "alice") (bytes "p@ss:word") (bytes "host:80")
      (bytes "/path") (omega arith) (omega arith) (omega arith) (omega arith) (omega arith)
      (omega arith) refl

parse_url_example :
    parse_url (
      url_text https
        (some (bytes "alice:secret"))
        (literal (bytes "fe80::1"))
        (some (bytes "8443"))
        (bytes "/a/b"))
    ≡ ok (
        url_of https (some (bytes "alice:secret")) (bytes "fe80::1") (bytes "8443") (bytes "/a/b") (
          url_text https
            (some (bytes "alice:secret"))
            (literal (bytes "fe80::1"))
            (some (bytes "8443"))
            (bytes "/a/b")))
parse_url_example =
    parse_url-url_text https (some (bytes "alice:secret")) (literal (bytes "fe80::1"))
      (some (bytes "8443")) (bytes "/a/b") (omega arith)
      ((λ e. cc), omega arith, omega arith, omega arith) (omega arith) refl
