-- ===== src/Reftable/Stack/TablesList.antt =====
-- `tables.list` as a writer lays it out: a line for each table.
use go_ls_remote.Base.{
  ℕ, ◌≡◌, ◌≢◌, refl, ap, ◌∙◌, Bool, true, false, [], ◌∷◌, List, ◌++◌, Bytes, All, Result, ok, err,
  if◌then◌else◌, ◌>>=◌,
}
use go_ls_remote.Base.Fields.{join}
use go_ls_remote.Base.Split.{split, split-join}
use go_ls_remote.Base.Text.{Lacks, trim_suffix, trim_suffix-append}
use go_ls_remote.Reftable.{Error, invalid_tables_list}
use go_ls_remote.Reftable.Stack.{table_names, parse_tables_list}

-- The lines, each with its end.
abbrev pub lines_text : List Bytes → Bytes
lines_text lines = join b'\n' lines ++ (b'\n' ∷ [])

-- Some line is empty.
abbrev pub has_empty : List Bytes → Bool
has_empty [] = false
has_empty ([] ∷ lines) = true
has_empty ((c ∷ line) ∷ lines) = has_empty lines

table_names_lem :
    (lines : List Bytes)
    → table_names lines ≡ (if has_empty lines then err invalid_tables_list else ok lines)
unfolding table_names
table_names_lem [] = refl
table_names_lem ([] ∷ lines) = refl
table_names_lem ((c ∷ line) ∷ lines) =
    ap (λ r. r >>= λ names. ok ((c ∷ line) ∷ names)) (table_names_lem lines)
    ∙ behind (has_empty lines)
  where
    behind :
        (test : Bool)
        → Path
            (Result Error (List Bytes))
            ((if test then err invalid_tables_list else ok lines) >>= λ names.
              ok ((c ∷ line) ∷ names))
            (if test then err invalid_tables_list else ok ((c ∷ line) ∷ lines))
    behind true = refl
    behind false = refl

parse_tables_list_lem :
    (front : Bytes) (e : ℕ)
    → parse_tables_list (front ++ (e ∷ []))
      ≡ table_names (split b'\n' (trim_suffix b'\n' (front ++ (e ∷ []))))
unfolding parse_tables_list
parse_tables_list_lem [] e = refl
parse_tables_list_lem (c ∷ front) e = refl

-- Of one or more lines, each with its end and no other, `parseTablesList` returns the lines, in order,
-- if none is empty, and fails if one is.
pub parse_tables_list-lines_text :
    (lines : List Bytes)
    → lines ≢ []
    → All (Lacks b'\n') lines
    → parse_tables_list (lines_text lines)
      ≡ (if has_empty lines then err invalid_tables_list else ok lines)
parse_tables_list-lines_text lines some h =
    parse_tables_list_lem (join b'\n' lines) b'\n'
    ∙ ap (λ t. table_names (split b'\n' t)) (trim_suffix-append b'\n' (join b'\n' lines))
    ∙ ap table_names (split-join b'\n' lines some h)
    ∙ table_names_lem lines
