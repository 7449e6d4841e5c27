-- ===== src/Transport/Url/Printed.antt =====
-- URLs as texts, by their parts.
use go_ls_remote.Base.{
  ℕ, ◌≡◌, ◌≢◌, refl, sym, Option, none, some, [], ◌∷◌, ◌++◌, arith, Bytes, All-append,
}
use go_ls_remote.Base.{none-some, some_injective}
use go_ls_remote.Base.Text.{bytes, Lacks}
use go_ls_remote.Transport.Url.{separator}
use go_ls_remote.Transport.Url.Redacted.{}

-- The schemes with an authority.
pub data Scheme : Type 0 where
  https http ssh git : Scheme

abbrev pub scheme_name : Scheme → Bytes
scheme_name https = bytes "https"
scheme_name http = bytes "http"
scheme_name ssh = bytes "ssh"
scheme_name git = bytes "git"

pub data Host : Type 0 where
  named literal : Bytes → Host

abbrev pub host_name : Host → Bytes
host_name (named h) = h
host_name (literal h) = h

-- A host that needs no brackets, or one that the brackets protect.
abbrev pub IsHost : Host → Type 0
IsHost (named h) = (h ≢ []) × Lacks b':' h × Lacks b'[' h × Lacks b'/' h × Lacks b'@' h
IsHost (literal h) = (h ≢ []) × Lacks b']' h × Lacks b'/' h × Lacks b'@' h

abbrev pub port_text : Option Bytes → Bytes
port_text none = []
port_text (some p) = b':' ∷ p

abbrev pub IsPort : Option Bytes → Type 0
IsPort none = Unit {0}
IsPort (some p) = Lacks b':' p × Lacks b'/' p × Lacks b'@' p

abbrev pub host_text : Host → Option Bytes → Bytes
host_text (named h) port = h ++ port_text port
host_text (literal h) port = b'[' ∷ (h ++ (b']' ∷ port_text port))

abbrev pub authority_text : Option Bytes → Bytes → Bytes
authority_text none host = host
authority_text (some user) host = user ++ (b'@' ∷ host)

-- A user, which may have colons and an `@`.
abbrev pub IsUser : Option Bytes → Type 0
IsUser none = Unit {0}
IsUser (some user) = Lacks b'/' user

abbrev pub or_empty : Option Bytes → Bytes
or_empty none = []
or_empty (some s) = s

abbrev pub url_text : Scheme → Option Bytes → Host → Option Bytes → Bytes → Bytes
url_text scheme user host port path =
    scheme_name scheme ++ (separator ++ (authority_text user (host_text host port) ++ path))

port-Lacks :
    (c : ℕ) (port : Option Bytes)
    → b':' ≢ c
    → ((p : Bytes) → port ≡ some p → Lacks c p)
    → Lacks c (port_text port)
port-Lacks c none colon h = tt
port-Lacks c (some p) colon h = (colon, h p refl)

host_text-Lacks :
    (c : ℕ) (host : Host) (port : Option Bytes)
    → b':' ≢ c
    → b'[' ≢ c
    → b']' ≢ c
    → Lacks c (host_name host)
    → ((p : Bytes) → port ≡ some p → Lacks c p)
    → Lacks c (host_text host port)
host_text-Lacks c (named h) port n1 n2 n3 hh hp =
    All-append (λ b. b ≢ c) h (port_text port) hh (port-Lacks c port n1 hp)
host_text-Lacks c (literal h) port n1 n2 n3 hh hp =
    (n2, All-append (λ b. b ≢ c) h (b']' ∷ port_text port) hh (n3, port-Lacks c port n1 hp))

-- Neither the host nor the port has a slash or an `@`.
pub slash_free :
    (host : Host) (port : Option Bytes)
    → IsHost host
    → IsPort port
    → Lacks b'/' (host_text host port)
slash_free host port hh hp =
    host_text-Lacks b'/' host port (omega arith) (omega arith) (omega arith) (of_host host hh)
      (of_port port hp)
  where
    of_host : (host : Host) → IsHost host → Lacks b'/' (host_name host)
    of_host (named h) hh = hh.3
    of_host (literal h) hh = hh.2

    of_port : (port : Option Bytes) → IsPort port → (p : Bytes) → port ≡ some p → Lacks b'/' p
    of_port none hp p e = absurd (none-some p e)
    of_port (some q) hp p e = rw (sym (some_injective e)) (hp.1)

pub at_free :
    (host : Host) (port : Option Bytes)
    → IsHost host
    → IsPort port
    → Lacks b'@' (host_text host port)
at_free host port hh hp =
    host_text-Lacks b'@' host port (omega arith) (omega arith) (omega arith) (of_host host hh)
      (of_port port hp)
  where
    of_host : (host : Host) → IsHost host → Lacks b'@' (host_name host)
    of_host (named h) hh = hh.4
    of_host (literal h) hh = hh.3

    of_port : (port : Option Bytes) → IsPort port → (p : Bytes) → port ≡ some p → Lacks b'@' p
    of_port none hp p e = absurd (none-some p e)
    of_port (some q) hp p e = rw (sym (some_injective e)) (hp.2)

pub authority-Lacks :
    (user : Option Bytes) (host : Bytes)
    → IsUser user
    → Lacks b'/' host
    → Lacks b'/' (authority_text user host)
authority-Lacks none host hu hh = hh
authority-Lacks (some user) host hu hh =
    All-append (λ b. b ≢ b'/') user (b'@' ∷ host) hu (omega arith, hh)
