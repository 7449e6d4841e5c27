-- ===== src/Reftable/Key.antt =====
-- internal/reftable/record_key.go: prefix-compressed keys. The buffer that the code reuses for the key
-- is left out: it holds the key's bytes and nothing else.
pub mod Exact
use go_ls_remote.Base.{
  ℕ, ◌+◌, ◌-◌, ◌/◌, ◌%◌, Bool, true, false, [], ◌∷◌, ◌++◌, List, ltb, if◌then◌else◌, Bytes, length,
  take, drop, Result, ok, err, ◌>>=◌,
}
use go_ls_remote.Reftable.{Error, truncated_record}
use go_ls_remote.Reftable.Varint.{decode_varint}

-- The results of `decodeKey`: the key, the three extra bits, and the number of bytes consumed.
pub record Key : Type 0 where
  pub key : Bytes
  pub extra : ℕ
  pub consumed : ℕ

-- `decodeKey` behind its two numbers; `rest` starts with the suffix.
unfoldable pub key_parts : ℕ → ℕ → ℕ → Bytes → Bytes → Result Error Key
key_parts prefix_len packed used rest prev =
    let suffix_len = packed / 8 in
    if ltb (length rest) suffix_len
    then err truncated_record
    else if ltb (length prev) prefix_len
    then err truncated_record
    else ok (record {
      key = take prefix_len prev ++ take suffix_len rest;
      extra = packed % 8;
      consumed = used + suffix_len;
    })

-- `decodeKey`.
unfoldable pub decode_key : Bytes → Bytes → Result Error Key
decode_key buf prev = do
  (prefix_len, n1) ← decode_varint buf
  (packed, n2) ← decode_varint (drop n1 buf)
  key_parts prefix_len packed (n1 + n2) (drop n2 (drop n1 buf)) prev
