-- ===== src/Spool/Bolt.antt =====
-- What internal/eventspool relies on of go.etcd.io/bbolt and encoding/json: a parameter.
use xui_agent.Prelude.{◌≡◌, true, List, [], ◌∷◌, ◌++◌, All}
use xui_agent.Spool.Bytes.{Bytes, bytes_lt}

abbrev pub Pair : Type 0
Pair = Bytes × Bytes

-- A bucket of the database. A cursor walks its pairs in the order of their keys.
pub record Bolt : Type 1 where
  pub Bucket : Type 0
  pub empty : Bucket
  pub put : Bucket → Bytes → Bytes → Bucket
  pub delete : Bucket → Bytes → Bucket
  pub pairs : Bucket → List Pair
  pub pairs-empty : pairs empty ≡ []
  -- A key behind all others is walked last.
  pub pairs-put_last :
      (b : Bucket) (k v : Bytes)
      → All (λ (p : Pair). bytes_lt p.0 k ≡ true) (pairs b)
      → pairs (put b k v) ≡ pairs b ++ (k, v) ∷ []
  -- Without its first key a bucket is walked from the second.
  pub pairs-delete_first :
      (b : Bucket) (k v : Bytes) (rest : List Pair)
      → pairs b ≡ (k, v) ∷ rest
      → pairs (delete b k) ≡ rest
