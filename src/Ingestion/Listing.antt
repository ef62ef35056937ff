-- ===== src/Ingestion/Listing.antt =====
-- ListBatches of services/ingestion/internal/server/server.go, over listBatches of store.go.
use momotaro.Prelude.{ℕ, zero, suc, List, [], ◌∷◌, ◌++◌}
use momotaro.Prelude.Int.{ℤ, pos, negsuc}
use momotaro.Ingestion.{BatchRow, Ingest}

-- `defaultListBatchesLimit`.
abbrev pub default_list_batches_limit : ℕ
default_list_batches_limit = 20

abbrev pub limit_or_default : ℤ → ℕ
limit_or_default (pos zero) = default_list_batches_limit
limit_or_default (pos (suc n)) = suc n
limit_or_default (negsuc n) = default_list_batches_limit

-- Rows in the order of their creation, newest first: a batch is created behind the others.
newest_first : List BatchRow → List BatchRow
newest_first [] = []
newest_first (b ∷ rows) = newest_first rows ++ (b ∷ [])

first_rows : ℕ → List BatchRow → List BatchRow
first_rows zero rows = []
first_rows (suc n) [] = []
first_rows (suc n) (b ∷ rows) = b ∷ first_rows n rows

unfoldable pub list_batches : ℤ → Ingest → List BatchRow
unfolding newest_first first_rows
list_batches limit s = first_rows (limit_or_default limit) (newest_first s.batches)
