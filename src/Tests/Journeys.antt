-- ===== src/Tests/Journeys.antt =====
-- Jobs over the table in memory and a broker in memory.
use mathlib.Core.Path.{sym}
use doccontext.Base.{
  Bool, ◌≡◌, refl, ap, true, false, none, some, List, [], ◌∷◌, ◌++◌, inl, inr, Text, codes, same,
  same_iff,
}
use doccontext.Base.{if◌then◌else◌}
use doccontext.Base.Exn.{ok}
use doccontext.Base.Json.{str}
use doccontext.Models.{job_type_of_str, job_status_of_str, job_status_to_str, job_type_to_str}
use doccontext.Jobs.Database.{Row, fits}
use doccontext.Jobs.Repository.{create, mark_running, mark_succeeded, transition, to_domain}
use doccontext.Jobs.Memory.{
  memory_database, memory_database-IsDatabase, find_row, insert_row, update_row, replace_row,
}
use doccontext.Jobs.History.{
  Call, start, failure, waits, AllFine, AllKept, after_calls, after_calls-AllFine, IsFine,
}
use doccontext.Queue.RabbitMq.{
  Amqp, Client, new_client, publish, channel_open, connection_of, channel_of,
}
use doccontext.Queue.Connection.{IsBroker}
use doccontext.Queue.Publishing.{publish_lem}
use doccontext.Delivery.System.{
  System, create_job, created, published, taken, finished, settled, Moves, stay, go, idle,
}
use doccontext.Delivery.Placed.{IsPlaced, AllPlaced, in_queue}
use doccontext.Delivery.Invariant.{IsEnded, Moves-AllPlaced, Moves-IsEnded}
use doccontext.Tests.Samples.{sample_runtime, sample_row, sample_envelope}
use doccontext.Tests.Rows.{sample_row-IsSound}

-- A broker that keeps the messages of each queue.
abbrev pub memory_amqp : Amqp
memory_amqp = record {
  State = Text → List Text;
  Connection = Unit {0};
  Channel = Unit {0};
  connect_robust = λ url s. (ok tt, s);
  connection_is_closed = λ c s. false;
  close_connection = λ c s. (ok tt, s);
  channel = λ c s. (ok tt, s);
  channel_is_closed = λ ch s. false;
  close_channel = λ ch s. (ok tt, s);
  declare_queue = λ ch queue s. (ok tt, s);
  set_qos = λ ch n s. (ok tt, s);
  publish = λ ch queue body s. (ok tt, λ q. if same queue q then s q ++ body ∷ [] else s q);
}

abbrev pub memory_amqp-IsBroker : IsBroker memory_amqp
memory_amqp-IsBroker = record {
  messages = λ s q. s q;
  connected = λ url s t c e. refl;
  channelled = λ c s t ch e. (refl, refl);
  connect-messages = λ url s q. refl;
  channel-messages = λ c s q. refl;
  declare-messages = λ ch name s q. refl;
  publish-messages = λ ch name body s t q e. ap (λ x. x.1 q) (sym e);
}

abbrev pub rabbit : Client memory_amqp
rabbit = new_client memory_amqp (λ q. [])

abbrev rabbit_after : Client memory_amqp
rabbit_after =
    (publish memory_amqp sample_runtime (codes "amqp://h") (codes "jobs") (str (codes "x"))
      rabbit).1

published_once :
    publish memory_amqp sample_runtime (codes "amqp://h") (codes "jobs") (str (codes "x")) rabbit
    ≡ (ok tt, rabbit_after)
unfolding publish channel_open connection_of channel_of
published_once = refl

publish_example :
    rabbit_after.world (codes "jobs") ≡ (if same (codes "jobs") (codes "jobs") then [] ∷ [] else [])
publish_example =
    publish_lem memory_amqp memory_amqp-IsBroker sample_runtime (codes "amqp://h") (codes "jobs")
      (str (codes "x")) rabbit rabbit_after published_once (codes "jobs")

-- The table with the sample's row.
sample-IsFine : (b : Bool) → IsFine sample_runtime (if b then some sample_row else none)
unfolding job_status_to_str
sample-IsFine true = (sample_row-IsSound, waits refl refl)
sample-IsFine false = tt

table-AllFine : AllFine sample_runtime memory_database (sample_row ∷ [])
unfolding find_row
table-AllFine j = sample-IsFine (same (codes "j1") j)

abbrev calls : List Call
calls = start 4 (codes "j1") ∷ failure 5 (codes "j1") (codes "boom") ∷ start 6 (codes "j2") ∷ []

after_calls-AllFine_example :
    AllFine sample_runtime memory_database
      (after_calls sample_runtime memory_database calls (sample_row ∷ []))
    × AllKept sample_runtime memory_database
        (sample_row ∷ [])
        (after_calls sample_runtime memory_database calls (sample_row ∷ []))
after_calls-AllFine_example =
    after_calls-AllFine sample_runtime memory_database memory_database-IsDatabase calls
      (sample_row ∷ []) table-AllFine

-- The message of the sample's job is on the queue.
abbrev pub waiting : System sample_runtime memory_database
waiting = record {
  db = sample_row ∷ [];
  unsent = [];
  queue = sample_envelope ∷ [];
  busy = [];
  ended = [];
  lost = [];
}

waiting-IsPlaced :
    (j : Text) (b : Bool)
    → same (codes "j1") j ≡ b
    → IsPlaced sample_runtime memory_database waiting j (if b then some sample_row else none)
waiting-IsPlaced j true e = inr (in_queue (inl ((same_iff (codes "j1") j).0 e)))
waiting-IsPlaced j false e = tt

waiting-AllPlaced : AllPlaced sample_runtime memory_database waiting
unfolding find_row
waiting-AllPlaced j = waiting-IsPlaced j (same (codes "j1") j) refl

-- A worker takes the message.
abbrev with_worker : System sample_runtime memory_database
with_worker = record waiting {
  db = (mark_running sample_runtime memory_database 5 (codes "j1") (sample_row ∷ [])).1;
  queue = [];
  busy = sample_envelope ∷ [];
}

taken_by_worker : Moves sample_runtime memory_database waiting with_worker
unfolding mark_running transition to_domain find_row update_row replace_row same fits
    job_status_to_str job_type_of_str job_status_of_str
taken_by_worker =
    go waiting with_worker with_worker (taken 5 [] [] sample_envelope _ _ refl refl refl)
      (stay with_worker)

Moves-AllPlaced_example :
    AllFine sample_runtime memory_database with_worker.db
    × AllPlaced sample_runtime memory_database with_worker
Moves-AllPlaced_example =
    Moves-AllPlaced sample_runtime memory_database memory_database-IsDatabase waiting with_worker
      taken_by_worker table-AllFine waiting-AllPlaced

-- A job from `create` to the acknowledgement of its message, in a table that was empty.
abbrev new_system : System sample_runtime memory_database
new_system = idle sample_runtime memory_database []

abbrev table_created : List Row
table_created = (create_job sample_runtime memory_database 1 sample_envelope []).1

abbrev table_running : List Row
table_running = (mark_running sample_runtime memory_database 2 (codes "j1") table_created).1

abbrev table_ended : List Row
table_ended = (mark_succeeded sample_runtime memory_database 3 (codes "j1") table_running).1

abbrev all_ended : System sample_runtime memory_database
all_ended = idle sample_runtime memory_database table_ended

whole_path : Moves sample_runtime memory_database new_system all_ended
unfolding create mark_running mark_succeeded transition to_domain find_row insert_row update_row
    replace_row same fits job_status_to_str job_type_to_str job_type_of_str job_status_of_str
whole_path = go new_system _ all_ended (created 1 sample_envelope _ table_created refl refl) (
    go _ _ all_ended (published [] [] sample_envelope refl refl) (
      go _ _ all_ended (taken 2 [] [] sample_envelope _ table_running refl refl refl) (
        go _ _ all_ended (finished 3 [] [] sample_envelope _ table_ended refl refl refl)
          (go _ all_ended all_ended (settled [] [] sample_envelope refl refl) (stay all_ended)))))

empty_table : (j : Text) → find_row [] j ≡ none
unfolding find_row
empty_table j = refl

Moves-IsEnded_example :
    IsEnded sample_runtime memory_database memory_database-IsDatabase
      (find_row table_ended (codes "j1"))
Moves-IsEnded_example =
    Moves-IsEnded sample_runtime memory_database memory_database-IsDatabase [] all_ended empty_table
      whole_path refl refl refl refl (codes "j1")
