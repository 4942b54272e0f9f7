-- ===== src/Model/Fingerprint.antt =====
-- internal/app/domain/model/hash.go: the fingerprints of texts, of which each is recorded once.
pub mod Laws
use easymail.Base.{ℕ, Bool, not, Option, none, some, List, [], Bytes, same, if◌then◌else◌}
use easymail.Base.Int.{ℤ, pos}
use easymail.Model.Gorm.{Gorm, Fetch, DbError}

-- `SsdeepHash`.
pub record SsdeepHash : Type 0 where
  pub id : ℕ
  pub session_id : Bytes
  pub chunk_size : ℤ
  pub hash : Bytes
  pub is_attach : Bool
  pub create_time : ℕ

-- The zero value.
abbrev pub zero_hash : SsdeepHash
zero_hash = record {
  id = 0;
  session_id = [];
  chunk_size = pos 0;
  hash = [];
  is_attach = Bool.false;
  create_time = 0;
}

-- What `CreateSsdeepHash` returns: no pointer, the row that was there, or the new row, which is
-- returned with the error of its insertion too. The key that the database draws is not modelled.
pub data Recording : Type 0 where
  not_initialized : Recording
  found : Option SsdeepHash → Recording
  inserted : SsdeepHash → List SsdeepHash → Recording
  insertion_failed : SsdeepHash → Recording

-- The end of the operation, from the insertion.
abbrev pub inserting : SsdeepHash → Option (List SsdeepHash) → Recording
inserting h none = insertion_failed h
inserting h (some t) = inserted h t

-- What follows the query; every error of it leads to an insertion.
record_hash : Gorm SsdeepHash → SsdeepHash → List SsdeepHash → Fetch SsdeepHash → Recording
record_hash g h t (row, none) = found row
record_hash g h t (row, some e) = inserting h (g.create h t)

-- `CreateSsdeepHash(hash, sessionID, chunkSize, isAttach)`.
unfoldable pub create_ssdeep_hash :
    Bool → Gorm SsdeepHash → ℕ → Bytes → Bytes → ℤ → Bool → List SsdeepHash → Recording
unfolding record_hash
create_ssdeep_hash connected g now hash session_id chunk_size is_attach t =
    if not connected
    then not_initialized
    else record_hash g
        (record {
          id = 0;
          session_id = session_id;
          chunk_size = chunk_size;
          hash = hash;
          is_attach = is_attach;
          create_time = now;
        })
        t (g.first (some zero_hash) (λ h. same h.hash hash) t)
