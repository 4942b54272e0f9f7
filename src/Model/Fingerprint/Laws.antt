-- ===== src/Model/Fingerprint/Laws.antt =====
-- What a fingerprint that is found is.
use easymail.Base.{ℕ, ◌≡◌, ◌≢◌, refl, Bool, Option, none, some, List, Bytes, same, same_iff}
use easymail.Base.Int.{ℤ}
use easymail.Model.Gorm.{Gorm, Fetch, Has, IsQuery}
use easymail.Model.Fingerprint.{
  SsdeepHash, zero_hash, found, inserting, record_hash, create_ssdeep_hash,
}

module _ (g : Gorm SsdeepHash) (queries : IsQuery g) where
  inserting_new :
      (h : SsdeepHash) (o : Option (List SsdeepHash)) (row : Option SsdeepHash)
      → inserting h o ≢ found row
  inserting_new h none row e = cc e
  inserting_new h (some t) row e = cc e

  found_lem :
      (h : SsdeepHash) (hash : Bytes) (t : List SsdeepHash) (f : Fetch SsdeepHash)
      (row : Option SsdeepHash)
      → g.first (some zero_hash) (λ r. same r.hash hash) t ≡ f
      → record_hash g h t f ≡ found row
      → (r : SsdeepHash) × (row ≡ some r) × (r.hash ≡ hash) × Has r t
  unfolding record_hash
  found_lem h hash t (o, some e) row q k = absurd (inserting_new h (g.create h t) row k)
  found_lem h hash t (o, none) row q k =
      let (r, at, test, there) = queries.first_found (some zero_hash) (λ r. same r.hash hash) t q in
      let back : o ≡ row = cc k in (r, cc (at, back), (same_iff r.hash hash).0 test, there)

  -- If a query without an error has found a row that passes its test: when `CreateSsdeepHash` returns
  -- a row that was there, it is a row of the table with the text's fingerprint.
  pub create_ssdeep_hash-found :
      (now : ℕ) (hash session_id : Bytes) (chunk_size : ℤ) (is_attach : Bool) (t : List SsdeepHash)
      (row : Option SsdeepHash)
      → create_ssdeep_hash Bool.true g now hash session_id chunk_size is_attach t ≡ found row
      → (r : SsdeepHash) × (row ≡ some r) × (r.hash ≡ hash) × Has r t
  unfolding create_ssdeep_hash
  create_ssdeep_hash-found now hash session_id chunk_size is_attach t row e =
      found_lem _ hash t _ row refl e
