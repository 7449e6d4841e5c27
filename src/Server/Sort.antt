-- ===== src/Server/Sort.antt =====
-- `slices.SortFunc` by name, as the sources call it; the names of a store's refs differ, so any sort
-- gives this list.
use go_ls_remote.Base.{[], ◌∷◌, List, if◌then◌else◌}
unfoldable pub use go_ls_remote.Base.Sort.{bytes_le}
use go_ls_remote.Server.Store.{RefEntry}

unfoldable pub insert_ref : RefEntry → List RefEntry → List RefEntry
insert_ref r [] = r ∷ []
insert_ref r (s ∷ refs) =
    let rest = insert_ref r refs in if bytes_le r.name s.name then r ∷ s ∷ refs else s ∷ rest

unfoldable pub sort_refs : List RefEntry → List RefEntry
sort_refs [] = []
sort_refs (r ∷ refs) = insert_ref r (sort_refs refs)
