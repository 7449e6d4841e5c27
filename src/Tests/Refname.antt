-- ===== src/Tests/Refname.antt =====
-- A ref's name at concrete bytes.
use go_ls_remote.Base.{◌≡◌, ◌↔◌, true}
use go_ls_remote.Base.Text.{bytes}
use go_ls_remote.Objstore.Refname.{check_refname_format}
use go_ls_remote.Objstore.Refname.Exact.{IsRefname, check_refname_format_exact}

IsRefname-example :
    (check_refname_format (bytes "refs/heads/a.b") ≡ true) ↔ IsRefname (bytes "refs/heads/a.b")
IsRefname-example = check_refname_format_exact (bytes "refs/heads/a.b")
