-- ===== src/Storage.antt =====
-- app/storage/sqlite_store.py: the durable corpus and its generation. SQLite runs each `with
-- connection:` block as one transaction, which commits as a whole or changes nothing; whether the
-- next call fails is told by the list `faults`, which stands for the outside world.
pub mod Atomic
use pysearch.Base.{
  ℕ, Str, Dict, Bool, true, false, not, Option, none, some, List, [], ◌∷◌, lookup, member, put,
  remove, keys, contains, length, map, sorted, str_lt, if◌then◌else◌, Result, ok, err, Exec, pure,
  raise, gets, modify, ◌>>=◌, ◌>>◌, storage_error,
}
use pysearch.Document.{Document}

-- The tables `documents` and `shard_metadata`. The rows hold valid documents, since every writer
-- passes a `Document`.
pub record Store : Type 0 where
  pub rows : Dict Str
  pub generation : ℕ
  pub faults : List Bool

-- Whether `sqlite3.Error` is raised by this call; it is wrapped as `StorageError`.
unfoldable pub attempt_with : List Bool → Exec Store (Unit {0})
attempt_with [] s = (ok tt, s)
attempt_with (fault ∷ later) s =
    (if fault then err storage_error else ok tt, record s { faults = later })

unfoldable pub attempt : Exec Store (Unit {0})
unfolding attempt_with
attempt s = attempt_with s.faults s

-- put: True if the document is new
unfoldable pub store_put : Document → ℕ → Exec Store Bool
store_put document generation = do
  attempt
  existing ← gets (λ s. member document.document_id s.rows)
  modify (λ s. record s {
    rows = put document.document_id document.text s.rows;
    generation = generation;
  })
  pure (not existing)

unfoldable pub store_get : Str → Exec Store (Option Document)
store_get document_id = do
  attempt
  gets (λ s. elim (lookup document_id s.rows) [
    | none ↦ none
    | some text ↦ some (record { document_id = document_id; text = text })
  ])

-- delete: True if a row was removed; the generation advances in either case.
unfoldable pub store_delete : Str → ℕ → Exec Store Bool
store_delete document_id generation = do
  attempt
  existing ← gets (λ s. member document_id s.rows)
  modify (λ s. record s { rows = remove document_id s.rows; generation = generation })
  pure existing

pub rows_of : List Document → Dict Str
rows_of [] = []
rows_of (document ∷ documents) = (document.document_id, document.text) ∷ rows_of documents

-- The primary key refuses a second row with the same identifier.
has_duplicate : List Str → Bool
has_duplicate [] = false
has_duplicate (k ∷ ks) = if contains k ks then true else has_duplicate ks

-- replace_all: DELETE and INSERT in one transaction
unfoldable pub store_replace_all : List Document → ℕ → Exec Store (Unit {0})
unfolding rows_of has_duplicate
store_replace_all documents generation = do
  attempt
  if has_duplicate (keys (rows_of documents))
      then raise storage_error
      else modify (λ s. record s { rows = rows_of documents; generation = generation })

unfoldable pub store_generation : Exec Store ℕ
store_generation = attempt >> gets (λ s. s.generation)

-- key(a) <= key(b), for ORDER BY document_id
unfoldable pub row_le : Str × Str → Str × Str → Bool
row_le a b = not (str_lt b.0 a.0)

abbrev pub document_of : Str × Str → Document
document_of row = record { document_id = row.0; text = row.1 }

-- iter_documents, read to its end
unfoldable pub store_documents : Exec Store (List Document)
unfolding row_le
store_documents = attempt >> gets (λ s. map document_of (sorted row_le s.rows))

unfoldable pub store_count : Exec Store ℕ
store_count = attempt >> gets (λ s. length s.rows)

-- close: what it returns or raises. SQLite serves no call on a closed connection, so that no store
-- is left that a later call could be made on.
unfoldable pub store_close : Store → Result (Unit {0})
unfolding attempt
store_close s = (attempt s).0
