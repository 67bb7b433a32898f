-- ===== src/Tests/Work.antt =====
-- The worker over the job table in memory and a store that counts what it is given.
use doccontext.Base.{ℕ, ◌≡◌, refl, some, List, [], ◌∷◌, inl, map, codes, length, Text, same}
use doccontext.Base.Exn.{Exn, raise, ok, throw, external}
use doccontext.Base.Json.{str, obj, end, field, get_field}
use doccontext.Models.{queued, job_type_of_str, job_status_of_str, StoredChunk, index_document}
use doccontext.Jobs.Database.{Row, fits}
use doccontext.Jobs.Lifecycle.{Writes}
use doccontext.Jobs.Memory.{memory_database, memory_database-IsDatabase}
use doccontext.Stores.Interface.{VectorStore}
use doccontext.Workers.Envelope.{JobEnvelope, from_payload, to_payload}
use doccontext.Workers.RoundTrip.{
  path_or_none, IsMalformed, from_payload-to_payload, from_payload_refuses,
}
use doccontext.Workers.DocumentWorker.{Parts, Moments, World, in_store, handle, run_job, handle_job}
use doccontext.Workers.Outcome.{final_row, final_result, handle_job_outcome}
use doccontext.Workers.Refusal.{handle_refused}
use doccontext.Workers.Indexing.{AllStored, run_job-AllStored}
use doccontext.Workers.Consumer.{consume}
use doccontext.Workers.Drain.{IsKnown, AllDone, drained, consume-AllDone}
use doccontext.Tests.Samples.{sample_runtime, sample_row, sample_envelope, sample_chunks}
use doccontext.Tests.Rows.{sample_row-IsSound, find_row_sample}

-- A store that counts the chunks.
abbrev pub counting_store : VectorStore ℕ
counting_store = record {
  State = ℕ;
  ensure_collection = λ dim s. (ok tt, s);
  upsert = λ chunks s. (ok (length chunks), length chunks);
  search = λ v client_id corpus_ids top_k s. (ok [], s);
  delete_by_document = λ client_id document_id s. (throw external (codes "refused"), s);
  list_chunks_for_corpora = λ client_id corpus_ids limit s. (ok [], s);
}

abbrev pub sample_parts : Parts
sample_parts = record {
  R = sample_runtime;
  D = memory_database;
  V = counting_store;
  embedder = record { dim = 1; embed = λ texts. ok (map (λ t. length t ∷ []) texts) };
  chunk = λ text. ok sample_chunks;
  extract_text = λ path file_type. ok path;
  uuid5 = λ t. t;
}

abbrev pub moments : Moments
moments = record { started = 5; finished = 6; aborted = 7 }

abbrev pub world : World sample_parts
world = record { db = sample_row ∷ []; store = 0 }

handle_job_outcome_example :
    let (r, w') = run_job sample_parts sample_envelope index_document world in
    (t : List Row) × (handle_job sample_parts moments sample_envelope world
      ≡ (final_result sample_parts r, record { db = t; store = w'.store }))
    × Writes memory_database
        (sample_row ∷ [])
        t
        (codes "j1")
        (final_row sample_parts moments sample_row r)
handle_job_outcome_example =
    handle_job_outcome sample_parts memory_database-IsDatabase moments sample_envelope world
      sample_row sample_row-IsSound find_row_sample

from_payload-to_payload_example :
    from_payload sample_runtime (to_payload sample_runtime sample_envelope)
    ≡ ok (record sample_envelope { file_path = path_or_none (some (codes "a.txt")) })
from_payload-to_payload_example = from_payload-to_payload sample_runtime sample_envelope

from_payload_refuses_example :
    IsMalformed (from_payload sample_runtime (obj (field (codes "job_id") (str (codes "j1")) end)))
unfolding get_field
from_payload_refuses_example =
    from_payload_refuses sample_runtime (field (codes "job_id") (str (codes "j1")) end) (inl refl)

no_dict : (e : Exn) × (from_payload sample_runtime (str (codes "hello")) ≡ raise e)
unfolding from_payload
no_dict = (_, refl)

handle_refused_example :
    (e : Exn) × (handle sample_parts moments (str (codes "hello")) world ≡ (raise e, world))
handle_refused_example =
    handle_refused sample_parts memory_database-IsDatabase moments (str (codes "hello")) world
      (inl no_dict)

abbrev vectors : List (List ℕ)
vectors = (6 ∷ []) ∷ (5 ∷ []) ∷ []

run_job-AllStored_example :
    (stored : List (StoredChunk ℕ)) × (run_job sample_parts sample_envelope index_document world
      ≡ in_store sample_parts (counting_store.upsert stored) (record world { store = 0 }))
    × AllStored sample_parts sample_envelope sample_chunks vectors stored
run_job-AllStored_example =
    run_job-AllStored sample_parts sample_envelope (codes "a.txt") (codes "a.txt")
      (record { text = codes "ab cd "; chunk_index = 0; char_start = 0; char_end = 6 })
      (record { text = codes "d efg"; chunk_index = 1; char_start = 4; char_end = 9 } ∷ []) vectors
      world 0 refl refl refl refl refl refl refl

-- A runtime that reads every text as the payload of the sample.
abbrev echo_parts : Parts
echo_parts = record sample_parts {
  R = record sample_runtime { loads = λ t. some (to_payload sample_runtime sample_envelope) };
}

abbrev echo_world : World echo_parts
echo_world = record { db = sample_row ∷ []; store = 0 }

abbrev bodies : List Text
bodies = codes "a" ∷ codes "b" ∷ []

abbrev envelopes : List JobEnvelope
envelopes = sample_envelope ∷ sample_envelope ∷ []

echo_world-IsKnown : IsKnown echo_parts memory_database-IsDatabase moments echo_world (codes "j1")
unfolding job_type_of_str job_status_of_str same fits
echo_world-IsKnown = (
  sample_row,
  find_row_sample,
  record {
    job_type = index_document;
    status = queued;
    type_valid = refl;
    status_valid = refl;
    row_fits = refl;
  },
)

consume-AllDone_example :
    AllDone echo_parts memory_database-IsDatabase moments
      (drained echo_parts memory_database-IsDatabase moments bodies echo_world)
      envelopes
    × (length (consume echo_parts.R (handle echo_parts moments) bodies echo_world).0 ≡ 2)
unfolding to_payload
consume-AllDone_example =
    consume-AllDone echo_parts memory_database-IsDatabase moments envelopes bodies echo_world
      (refl, (refl, tt)) (echo_world-IsKnown, (echo_world-IsKnown, tt))
