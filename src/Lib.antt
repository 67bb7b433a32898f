-- ===== src/Lib.antt =====
-- doccontext answers questions about documents: a client submits a document for indexing, a worker
-- extracts its text, cuts it into chunks, embeds them and stores them in a vector store, and the
-- query handler retrieves chunks or whole documents for a language model. The library models the
-- Python sources under src/doccontext/.
--
-- The parts, and the files that model them:
--   Models.antt           models/job.py, models/chunk.py: the records that are passed around
--   Chunking/             chunking/recursive.py: RecursiveCharacterChunker (Defs), and what its
--                         chunks are (Cover, Passages, Short; Split, Windows, Overlap and Separators
--                         are about one method each)
--   Extractors.antt       extractors/: the registry and the extractors over Files
--   Jobs/                 repositories/job.py: JobRepository (Repository) over a Database, whose laws
--                         are IsDatabase; Memory is a database with these laws; Lifecycle and Contract
--                         are about one call, and History is about any sequence of calls
--   Stores/               vector_stores/, embeddings/base.py: the interfaces (Interface),
--                         QdrantVectorStore over a client (Qdrant), its paged scan (Scan) and what a
--                         tenant sees (Tenants, Promise) and deletes (Deletion) and what a scan finds
--                         behind an upsert (Upserts); Memory is a server with the laws assumed
--   Workers/              workers/envelope.py (Envelope), workers/document_worker.py (DocumentWorker),
--                         the loop of queue/rabbitmq.py (Consumer); RoundTrip, Outcome, Indexing,
--                         Refusal, Drain and, with the store and the reader of documents, Recall hold
--                         what is proved of them
--   Services/             services/converters.py (Converters), and the handlers of index_service.py,
--                         delete_service.py and status_service.py (Handlers); Submission and
--                         FileTypes hold what is proved of them
--   Llm/                  llm/base.py (Client), llm/prompts.py (Prompts) and llm/openrouter.py
--                         (OpenRouter); Bodies, Counts, Completions and Failures hold what is proved of
--                         its replies
--   Queue/                queue/rabbitmq.py: the connection, publish and close (RabbitMq); Connection
--                         and Publishing hold what is proved of them
--   Delivery/             the handlers and workers together: their moves on one table and one queue
--                         (System); Table, Placed and Invariant are about any sequence of moves, Paths
--                         about the moves of submit and handle, Journey about a job from its request
--                         to its end, Reports about the status that is reported of it
--   Setup/                config.py (Config), embeddings/minilm.py (Embeddings), the factories and
--                         chunking/__init__.py (Factories), and the entry points worker.py (Worker)
--                         and server.py (Server) with what they share (Process); Defaults, Supported
--                         and Refusal hold what is proved of them
--   Logging/              logging_config.py (Setup); Channels, Files and Events hold what is proved
--                         of it
--   Query/                services/query_service.py: _assemble_documents and the citations
--                         (Documents), the parsers (Replies) and handle (Handler); Grouping, Rebuild,
--                         Citations, Routing and Access hold what is proved of them
--   Base/                 texts, lists, dictionaries, sorting, exceptions (Exn), actions with state
--                         (Exec), JSON values (Json) and what is taken from Python (Runtime)
--   Tests/                concrete inputs
--
-- How the code is read. A text is a list of code points and Python's integers are ℕ or ℤ. A method
-- that may raise returns a Result; one that changes a database, a store or a queue is an action of
-- Exec, a function from the state to a result and a new state. Code outside the repository is a
-- parameter: SQLAlchemy's sessions are a Database, the Qdrant client a QdrantClient, aio_pika an Amqp,
-- httpx an HttpClient, the file system of the logs a LogSystem, floating-point numbers, repr, strip
-- and json a Runtime; what is assumed of them is written in the records IsDatabase, IsScrollable,
-- IsFiltering, IsDeleting, IsUpserting, IsBroker and IsFloat. Clock values, new ids, uuid5 and the reading of the
-- environment are arguments.
--
-- Fuel. The while loop of _split_with_positions has one unit for each character and one more; the
-- recursion of _expand_oversized has one level for each separator and one for single characters; the
-- scan of list_chunks_for_corpora has limit + 1 rounds. A loop that ran out of fuel gives none.
--
-- How the parts interact. The handlers write a row and publish a message of to_payload; the worker
-- reads it by from_payload, marks the row, runs the job and marks the row again; the query handler
-- reads what the worker's chunks became in the store.
--
-- The handlers and the worker run concurrently: in Delivery/System.antt each call of the repository,
-- each publish and each settlement is a move of its own, made in any order by any number of handlers
-- and workers. Between two moves a worker may be cancelled or fail to write the table, so that its
-- message is rejected, or its process may die, so that the broker delivers the message again. In all other files each action runs
-- alone.
--
-- Not modelled: services/servicer.py, which passes the requests on to the handlers, and the generated
-- protocol code; the signal handlers and the loop of asyncio, which are parameters of serve; the log
-- lines and the processors of structlog; and the semaphore of the query handler, so that one query
-- runs at a time.
pub mod Base
pub mod Logging
pub mod Models
pub mod Chunking
pub mod Jobs
pub mod Delivery
pub mod Extractors
pub mod Stores
pub mod Llm
pub mod Workers
pub mod Services
pub mod Query
pub mod Queue
pub mod Setup
pub mod Tests
