-- ===== src/Jobs/Memory.antt =====
-- A database in memory.
use doccontext.Base.{◌≡◌, false, Option, none, some, List, [], ◌∷◌, arith}
use doccontext.Base.{Text, codes, same, same_iff, if◌then◌else◌, inl, inr, Option-cases}
use doccontext.Base.Exn.{Exn, Result, ok, raise, integrity_error, data_error, lookup_error, throw}
use doccontext.Jobs.Database.{Row, Database, IsDatabase, fits}

unfoldable pub find_row : List Row → Text → Option Row
find_row [] j = none
find_row (r ∷ rows) j = if same r.job_id j then some r else find_row rows j

unfoldable pub replace_row : List Row → Row → List Row
replace_row [] new = []
replace_row (r ∷ rows) new =
    if same r.job_id new.job_id then new ∷ rows else r ∷ replace_row rows new

unfoldable pub insert_row : List Row → Row → Result (List Row)
insert_row rows new = elim (find_row rows new.job_id) [
  | some old ↦ throw integrity_error (codes "duplicate key")
  | none ↦ if fits new then ok (new ∷ rows) else throw data_error (codes "value too long")
]

unfoldable pub update_row : List Row → Row → Result (List Row)
update_row rows new = elim (find_row rows new.job_id) [
  | none ↦ throw lookup_error (codes "no such row")
  | some old ↦
      if fits new then ok (replace_row rows new) else throw data_error (codes "value too long")
]

abbrev pub memory_database : Database
memory_database = record {
  State = List Row;
  get = find_row;
  insert = insert_row;
  update = update_row;
}

find_row_key :
    (rows : List Row) (j : Text) (row : Row) → find_row rows j ≡ some row → row.job_id ≡ j
unfolding find_row
find_row_key [] j row h = cc
find_row_key (r ∷ rows) j row h = ground (arith, same_iff r.job_id j, find_row_key rows j row)

find_row-replace_row :
    (rows : List Row) (new old : Row) (j : Text)
    → find_row rows new.job_id ≡ some old
    → find_row (replace_row rows new) j ≡ (if same new.job_id j then some new else find_row rows j)
unfolding find_row replace_row
find_row-replace_row [] new old j h = cc
find_row-replace_row (r ∷ rows) new old j h = ground (
  arith,
  same_iff r.job_id new.job_id,
  same_iff r.job_id j,
  same_iff new.job_id j,
  find_row-replace_row rows new old j,
)

insert_row_wide :
    (rows : List Row) (row : Row) → fits row ≡ false → (e : Exn) × (insert_row rows row ≡ raise e)
unfolding insert_row
insert_row_wide rows row wide = elim (Option-cases (find_row rows row.job_id)) [
  | inl free ↦ (record { kind = data_error; message = codes "value too long" }, ground arith)
  | inr (old, taken) ↦
      (record { kind = integrity_error; message = codes "duplicate key" }, ground arith)
]

find_row-update_row :
    (rows t : List Row) (row : Row) (j : Text)
    → update_row rows row ≡ ok t
    → find_row t j ≡ (if same row.job_id j then some row else find_row rows j)
unfolding update_row
find_row-update_row rows t row j e = elim (Option-cases (find_row rows row.job_id)) [
  | inl missing ↦ ground arith
  | inr (old, found) ↦ ground (arith, find_row-replace_row rows row old j)
]

find_row-insert_row :
    (rows t : List Row) (row : Row) (j : Text)
    → insert_row rows row ≡ ok t
    → find_row t j ≡ (if same row.job_id j then some row else find_row rows j)
unfolding insert_row find_row
find_row-insert_row rows t row j e = ground arith

pub memory_database-IsDatabase : IsDatabase memory_database
unfolding insert_row update_row
memory_database-IsDatabase = record {
  get_key = find_row_key;
  get-insert = find_row-insert_row;
  insert_fresh = λ s row free ok_row. (row ∷ s, ground arith);
  insert_taken = λ s row old e.
      (record { kind = integrity_error; message = codes "duplicate key" }, ground arith);
  insert_wide = insert_row_wide;
  get-update = find_row-update_row;
  update_fits = λ s row old e ok_row. (replace_row s row, ground arith);
}
