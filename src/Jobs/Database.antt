-- ===== src/Jobs/Database.antt =====
-- repositories/job.py: the table `indexing_jobs`, and what the repository relies on of the database
-- behind SQLAlchemy's sessions.
use doccontext.Base.{ℕ, ◌≡◌, Bool, true, false, ◌&&◌, Option, none, some, leb, if◌then◌else◌}
use doccontext.Base.{Text, same, length}
use doccontext.Base.Exn.{Exn, Result, ok, raise}

-- `_JobORM`
pub record Row : Type 0 where
  pub job_id : Text
  pub job_type : Text
  pub status : Text
  pub client_id : Text
  pub corpus_id : Text
  pub document_id : Text
  pub file_type : Text
  pub file_path : Option Text
  pub error_message : Option Text
  pub created_at : ℕ
  pub updated_at : ℕ

abbrev pub fits_optional : ℕ → Option Text → Bool
fits_optional n none = true
fits_optional n (some t) = leb (length t) n

-- The widths of the columns, `String(n)`.
unfoldable pub fits : Row → Bool
fits row =
    leb (length row.job_id) 64
    && leb (length row.job_type) 32
    && leb (length row.status) 16
    && leb (length row.client_id) 128
    && leb (length row.corpus_id) 128
    && leb (length row.document_id) 128
    && leb (length row.file_type) 16
    && fits_optional 1024 row.file_path
    && fits_optional 2048 row.error_message

-- `session.get`, `session.add` with `commit`, and `commit` of a changed row. A commit that raises
-- leaves the state as it was.
pub record Database : Type 1 where
  pub State : Type 0
  pub get : State → Text → Option Row
  pub insert : State → Row → Result State
  pub update : State → Row → Result State

-- A relational database with a primary key `job_id` and columns of bounded width.
pub record IsDatabase (D : Database) : Type 0 where
  pub get_key : (s : D.State) (j : Text) (row : Row) → D.get s j ≡ some row → row.job_id ≡ j
  pub get-insert :
      (s t : D.State) (row : Row) (j : Text)
      → D.insert s row ≡ ok t
      → D.get t j ≡ (if same row.job_id j then some row else D.get s j)
  pub insert_fresh :
      (s : D.State) (row : Row)
      → D.get s row.job_id ≡ none
      → fits row ≡ true
      → (t : D.State) × (D.insert s row ≡ ok t)
  pub insert_taken :
      (s : D.State) (row old : Row)
      → D.get s row.job_id ≡ some old
      → (e : Exn) × (D.insert s row ≡ raise e)
  pub insert_wide :
      (s : D.State) (row : Row) → fits row ≡ false → (e : Exn) × (D.insert s row ≡ raise e)
  pub get-update :
      (s t : D.State) (row : Row) (j : Text)
      → D.update s row ≡ ok t
      → D.get t j ≡ (if same row.job_id j then some row else D.get s j)
  pub update_fits :
      (s : D.State) (row old : Row)
      → D.get s row.job_id ≡ some old
      → fits row ≡ true
      → (t : D.State) × (D.update s row ≡ ok t)
