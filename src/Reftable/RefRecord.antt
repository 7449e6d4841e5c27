-- ===== src/Reftable/RefRecord.antt =====
-- internal/reftable/record_ref.go: the records of a ref block.
pub mod Exact
use go_ls_remote.Base.{
  ℕ, zero, suc, ◌+◌, ◌-◌, ◌*◌, ◌^◌, Bool, true, false, [], ◌∷◌, List, ltb, if◌then◌else◌, Bytes,
  length, take, drop, Result, ok, err, ◌>>=◌,
}
use go_ls_remote.Objfmt.Hash.{Algo, size, zero_id}
use go_ls_remote.Reftable.{Error, truncated_record, unsupported_value_type, update_index_overflow}
use go_ls_remote.Reftable.Key.{Key, decode_key}
use go_ls_remote.Reftable.Varint.{decode_varint}

-- `refRecord`; an id that is absent is the zero id.
pub record RefRecord : Type 0 where
  pub name : Bytes
  pub target : Bytes
  pub value : Bytes
  pub peeled : Bytes
  pub value_type : ℕ

-- A record, and the number of bytes consumed.
abbrev pub Decoded : Type 0
Decoded = RefRecord × ℕ

abbrev pub ref_value_deletion : ℕ
ref_value_deletion = 0

module _ (algo : Algo) where
  -- `rec` before the switch.
  abbrev pub bare : Key → RefRecord
  bare k = record {
    name = k.key;
    target = [];
    value = zero_id algo;
    peeled = zero_id algo;
    value_type = k.extra;
  }

  abbrev pub symref_target : Key → ℕ → Bytes → ℕ → ℕ → Result Error Decoded
  symref_target k used rest target_len n3 =
      if ltb (length (drop n3 rest)) target_len
      then err truncated_record
      else ok
          (record (bare k) { target = take target_len (drop n3 rest) }, used + (n3 + target_len))

  -- The switch over the value type, on the bytes behind the update index.
  unfoldable pub decode_value : ℕ → Key → ℕ → Bytes → Result Error Decoded
  decode_value zero k used rest = ok (bare k, used + 0)
  decode_value (suc zero) k used rest =
      if ltb (length rest) (size algo)
      then err truncated_record
      else ok (record (bare k) { value = take (size algo) rest }, used + size algo)
  decode_value (suc (suc zero)) k used rest =
      if ltb (length rest) (2 * size algo)
      then err truncated_record
      else ok (
        record (bare k) {
          value = take (size algo) rest;
          peeled = take (size algo) (drop (size algo) rest);
        },
        used + 2 * size algo,
      )
  decode_value (suc (suc (suc zero))) k used rest = do
    (target_len, n3) ← decode_varint rest
    symref_target k used rest target_len n3
  decode_value _ k used rest = err unsupported_value_type

  -- `decodeRefRecord`. `min` is the file's smallest update index, a uint64.
  unfoldable pub decode_ref_record : Bytes → Bytes → ℕ → Result Error Decoded
  decode_ref_record buf prev min = do
    k ← decode_key buf prev
    (delta, n2) ← decode_varint (drop k.consumed buf)
    if ltb (2 ^ 64 - 1 - min) delta
        then err update_index_overflow
        else decode_value k.extra k (k.consumed + n2) (drop n2 (drop k.consumed buf))
