-- ===== src/Server/Store.antt =====
-- What the server asks of the object store (internal/objstore), as an interface: `Store.Head`,
-- `Store.IterRefs`, `Store.Peel` and `Store.Algo`, with their errors.
use go_ls_remote.Base.{Bool, Bytes, if◌then◌else◌}
use go_ls_remote.Objfmt.Hash.{Algo, is_zero}

-- `objstore.Head`.
pub record Head : Type 0 where
  pub symref : Bytes
  pub oid : Bytes
  pub unborn : Bool

-- `objstore.RefEntry`.
pub record RefEntry : Type 0 where
  pub name : Bytes
  pub oid : Bytes
  pub peeled : Bytes
  pub peel_known : Bool

-- The answer of `Peel`: an error, `ok == false`, or an id.
pub data Peel : Type 0 where
  peel_failed absent : Peel
  peels_to : Bytes → Peel

-- The answer of `Head`, and what `IterRefs` yields.
pub data HeadAnswer : Type 0 where
  head_failed : HeadAnswer
  head_is : Head → HeadAnswer

pub data Refs : Type 0 where
  refs_end refs_failed : Refs
  refs_next : RefEntry → Refs → Refs

pub record Store : Type 0 where
  pub algo : Algo
  pub head : HeadAnswer
  pub refs : Refs
  pub peel : Bytes → Peel

-- `refPeel`: the recorded peel if there is one, and the store's otherwise.
unfoldable pub ref_peel : Store → RefEntry → Peel
ref_peel store ref =
    if ref.peel_known
    then (if is_zero ref.peeled then absent else peels_to ref.peeled)
    else store.peel ref.oid
