-- ===== src/Tests/Rows.antt =====
-- The job table in memory.
use doccontext.Base.{◌≡◌, refl, none, some, List, [], ◌∷◌, codes, same}
use doccontext.Base.Exn.{ok}
use doccontext.Models.{index_document, queued, failed, job_type_of_str, job_status_of_str}
use doccontext.Jobs.Database.{Row, fits}
use doccontext.Jobs.Repository.{create, transition}
use doccontext.Jobs.Rows.{IsSound, job_of}
use doccontext.Jobs.Lifecycle.{Writes}
use doccontext.Jobs.Contract.{moved_row, first_row, transition_lem, create_lem}
use doccontext.Jobs.Memory.{memory_database, memory_database-IsDatabase, find_row}
use doccontext.Tests.Samples.{sample_runtime, sample_row}

unfoldable pub sample_row-IsSound : IsSound sample_runtime sample_row
unfolding job_type_of_str job_status_of_str same fits
sample_row-IsSound = record {
  job_type = index_document;
  status = queued;
  type_valid = refl;
  status_valid = refl;
  row_fits = refl;
}

-- The sample's row is found by its id.
pub find_row_sample : find_row (sample_row ∷ []) (codes "j1") ≡ some sample_row
unfolding find_row same
find_row_sample = refl

pub find_row_other : find_row (sample_row ∷ []) (codes "j2") ≡ none
unfolding find_row same
find_row_other = refl

transition_example :
    (t : List Row) × (transition sample_runtime memory_database 5
        (codes "j1")
        failed
        (some (some (codes "boom")))
        (sample_row ∷ [])
      ≡ (
        ok (
            job_of sample_runtime
              (moved_row 5 failed (some (some (codes "boom"))) sample_row)
              index_document
              failed),
        t,
      ))
    × Writes memory_database (sample_row ∷ []) t (codes "j1") (record sample_row {
      status = codes "FAILED";
      error_message = some (codes "boom");
      updated_at = 5;
    })
unfolding sample_row-IsSound
transition_example =
    transition_lem sample_runtime memory_database memory_database-IsDatabase 5 (codes "j1") failed
      (some (some (codes "boom"))) (sample_row ∷ []) sample_row sample_row-IsSound refl
      find_row_sample

create_example :
    let row =
      first_row 3
        (codes "j2")
        index_document
        (codes "c")
        (codes "k")
        (codes "d")
        (codes "md")
        none in
    (t : List Row) × (create sample_runtime memory_database 3
        (codes "j2")
        index_document
        (codes "c")
        (codes "k")
        (codes "d")
        (codes "md")
        none
        (sample_row ∷ [])
      ≡ (ok (job_of sample_runtime row index_document queued), t))
    × Writes memory_database (sample_row ∷ []) t (codes "j2") row
unfolding fits
create_example =
    create_lem sample_runtime memory_database memory_database-IsDatabase 3 (codes "j2")
      index_document (codes "c") (codes "k") (codes "d") (codes "md") none (sample_row ∷ [])
      find_row_other refl
