-- ===== src/Objstore/Refname.antt =====
-- internal/objstore/refname.go: the format of a ref's name.
pub mod Component
pub mod Exact
use go_ls_remote.Base.{
  ℕ, ◌-◌, Bool, true, false, ◌&&◌, ◌||◌, not, [], ◌∷◌, ◌++◌, ltb, ◌==◌, if◌then◌else◌, Bytes,
  length, drop, equal,
}
use go_ls_remote.Base.Text.{bytes}

-- `hasDotLockSuffix`.
unfoldable pub has_dot_lock_suffix : Bytes → Bool
has_dot_lock_suffix c =
    if ltb (length c) 5 then false else equal (drop (length c - 5) c) (bytes ".lock")

-- The bytes that the switch of `checkRefnameComponent` refuses, whatever comes before them.
unfoldable pub is_forbidden : ℕ → Bool
is_forbidden ch =
    ltb ch 32
    || (ch == 127
        || (ch == b' '
            || (ch == 9
                || (ch == b'~'
                    || (ch == b'^'
                        || (ch == b':'
                            || (ch == b'?'
                                || (ch == b'[' || (ch == 92 || (ch == b'*' || ch == b'/'))))))))))

-- The loop of `checkRefnameComponent`; `last` is the byte before.
unfoldable pub scan_component : ℕ → Bytes → Bool
scan_component last [] = true
scan_component last (ch ∷ c) =
    let rest = scan_component ch c in
    if is_forbidden ch
    then false
    else if ch == b'.' && last == b'.'
    then false
    else if ch == b'{' && last == b'@'
    then false
    else rest

-- `checkRefnameComponent`.
unfoldable pub check_refname_component : Bytes → Bool
check_refname_component [] = false
check_refname_component (ch ∷ c) =
    if ch == b'.'
    then false
    else if has_dot_lock_suffix (ch ∷ c)
    then false
    else scan_component 0 (ch ∷ c)

-- The loop of `checkRefnameFormat`; `part` is `name[start:i]`.
unfoldable pub check_parts : Bytes → Bytes → Bool
check_parts part [] = check_refname_component part
check_parts part (c ∷ name) =
    let behind = check_parts [] name in
    let longer = check_parts (part ++ (c ∷ [])) name in
    if not (c == b'/') then longer else if not (check_refname_component part) then false else behind

-- `name[len(name)-1]`.
abbrev pub last_byte : Bytes → ℕ
last_byte [] = 0
last_byte (c ∷ []) = c
last_byte (c ∷ d ∷ name) = last_byte (d ∷ name)

-- `checkRefnameFormat`.
unfoldable pub check_refname_format : Bytes → Bool
check_refname_format name =
    if equal name [] || equal name (bytes "@")
    then false
    else if last_byte name == b'.'
    then false
    else check_parts [] name
