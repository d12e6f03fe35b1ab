-- ===== src/Lib.antt =====
-- Verification library of ShowcaseHost's backend, apps/api/app.
--
-- The program answers questions about a repository. Three runners work off durable job tables
-- (services/ingestion.py, chunking.py, embeddings.py): ingestion stores a repository snapshot and
-- queues a chunking job, chunking stores chunks and queues an embedding job, embedding writes the
-- vectors. A chat (services/chat.py) retrieves chunks, reranks them and builds the prompt.
--
-- Jobs models the job rows of apps/api/app/db/models.py and the operations that the three runners
-- share: claim_next, _refresh_lease, _heartbeat, _fail_or_retry, the assignments of success and
-- requeue_failed_chunking_job. The three tables differ in their own columns only, which are the type
-- parameter of Job. A table is the list of its rows, and one transaction is one function; the rows
-- that other transactions hold are an argument of claim_next. Jobs.Events has interleavings: any
-- sequence of these operations, each with its time. Jobs.Ending says by columns what a failure and a success
-- write. Times are natural numbers of microseconds, and
-- the dates beyond which Python's datetime overflows are not modelled.
--
-- Prompt models bounded_history and build_messages of apps/api/app/services/chat.py. A text is the
-- native String, whose characters are counted as Python counts them; line numbers and limits are
-- natural numbers. The two loops are structural recursions, so no fuel is needed.
--
-- Snapshots models _extract_and_manifest, validate_and_publish, read_manifest, materialize, _resolve_key
-- and delete of apps/api/app/integrations/snapshots/local.py. An archive is the list of members that
-- tarfile yields and whether it then raises; a member's content is the list of its reads. A workspace is the list of
-- the files written below it, by the parts of their paths, and the storage root is two maps, from the
-- paths below it to archives and to manifests, without symbolic links. SHA-256 is a parameter. The texts of
-- errors, the JSON form of a manifest, the temporary files and errors of the file system other than a file
-- standing where a directory is wanted are not modelled.
--
-- Evaluation.RateLimit models the EvaluationRateLimiter of apps/api/app/evaluation/rate_limit.py. Times
-- are exact numbers of the unit 1 / requests_per_minute seconds in place of floats. Each reading of the
-- clock comes later than the sleeps by any number that a parameter gives. The loop runs on fuel, two
-- more than the length of the window, which is shown to be enough.
--
-- Evaluation.Scoring models the confusion counts of codequery_relevance_scores and repoqa_target_rank of
-- apps/api/app/evaluation/scoring.py, without the quotients of the counts.
-- Evaluation.Corpus models the loops of repository_chunks of apps/api/app/evaluation/retrieval.py over
-- the lines of one file, which Python's splitlines yields. The rounded overlap is a parameter. The outer
-- loop has as many rounds as there are lines, which is enough since start grows in each.
-- Evaluation.Vectors models the batches and the caches of _embed_documents and _cached_document_vectors of
-- the same file for one key. Attempts follow one another under the lock. How each request ends is a
-- parameter. The batches take as many rounds as there are inputs, which is shown to be enough.
--
-- Auth models the OAuth flows, the users and the sessions of apps/api/app/services/auth.py as lists of rows,
-- and Auth.Routes the callback and the setup of apps/api/app/api/routes/auth.py. The random values and
-- SHA-256 are parameters. Transactions follow one another, and one that ends with an error changes nothing;
-- the unique constraints are conditions of theorems.
--
-- Chunking.Worker models the method chunk of apps/api/app/chunking/client.py. The worker is the list of
-- the lines that it writes, up to the end of its output, and a chunk is any type. The request that is
-- written, start, stop and the draining of stderr are not modelled, nor a stop during a request.
--
-- Embeddings models _retry and _embed_and_store of apps/api/app/services/embeddings.py and the loop of
-- process over the candidate models. The vector store is the interface VectorStore with laws, the
-- providers give any answer to each attempt of each batch, and gather raises any one of its failures.
-- Concurrent batches write only after all have returned, so their order does not matter. The delays
-- between attempts and the progress that is written to the job are not modelled. The batches are cut
-- with as many rounds as there are inputs, which is enough for a positive batch size.
--
-- Embeddings.Catalog models apps/api/app/integrations/embeddings/catalog.py. str.lower is a parameter,
-- and the comparison of a quotient with 0.60 is that of the exact fractions.
--
-- Retrieval models rank_retrieved_chunks and reciprocal_rank_fusion of apps/api/app/services/chat.py.
-- Scores are any type with the operations of Score in place of floats; the three dictionaries of the
-- fusion, which have the same keys, are one. A sort by a key that ends with the position is a stable
-- sort by the rest of the key. Retrieval.Rerank models apply_reranker_scores and
-- rerank_retrieved_chunks: the calls of a model's provider end in any way, attempt by attempt, and the
-- passages and the delays between attempts are not modelled. Retrieval.Hybrid composes them by
-- configured_retrieval_candidates, as EvaluationHybridRetriever._retrieve of
-- apps/api/app/evaluation/retrieval.py and the preparation of a chat do.
--
-- Jobs.Ensure models what ensure_chunking_job and ensure_embedding_job share, and Chunking.Columns the two.
-- Chunking.Files, Publish and Process model ChunkingProcessor of apps/api/app/services/chunking.py:
-- skip_reason, chunk_identity, _find_reusable, _publish over the tables of chunked files, chunks and rows
-- of snapshots, _garbage_collect, and process with its two sessions. What other transactions do between the
-- sessions is any function; the answer of the worker is that of Chunking.Worker. Chunks are any type.
--
-- Repositories models apps/api/app/services/repositories.py over the tables of installations and
-- repositories and the two associations with users. Identifiers are numbers.
--
-- SourceControl models the GitHub client of apps/api/app/integrations/source_control/github.py: the errors of
-- _request, _paginate, resolve_default_branch_sha, download_archive and get_user_installation, and the branch
-- of apps/api/app/api/routes/auth.py for install_verify. The replies of GitHub are parameters. The loop over
-- the pages has fuel, of which more than the length of the list is shown to be enough.
--
-- Ingestion models enqueue_ingestion and IngestionProcessor of apps/api/app/services/ingestion.py: process
-- with its commits and rollbacks, and _enforce_retention with the deletion of the files, its errors and the
-- cascades of the database. The ways in which process may end are those of Ingestion.Endings. The answers of
-- GitHub are parameters; the snapshot store is that of Snapshots. The temporary archive, the revocation of
-- the token, and a snapshot that another transaction adds before the insertion are not modelled.
--
-- Evaluation.Runs models EvaluationRunner.run of apps/api/app/evaluation/service.py, with the texts of
-- errors and the recovery of a previous result. What an attempt gives is a parameter, and so is the order in
-- which the two groups of tasks end their rounds, which replaces the delays. Evaluation.Manager models
-- EvaluationManager as a state machine of the steps of the event loop, its runs in memory and its files; a
-- _persist that a cancellation interrupts is taken to have written. Evaluation.Sampling and
-- Evaluation.Datasets model balanced_random_sample, _codequery_rows and _hf_rows of
-- apps/api/app/evaluation/datasets.py; shuffles are any permutations. The loop of a sample has as many rounds
-- as rows are wanted, which is shown to be enough.
--
-- Not modelled: SQL and its isolation, HTTP clients and servers, the preparation and the streaming of a
-- chat, BM25 and cosine similarity, what an evaluation does in one attempt and the aggregation of its scores,
-- the web application and the TypeScript worker.
pub mod Prelude
pub mod Auth
pub mod Chunking
pub mod Embeddings
pub mod Evaluation
pub mod Ingestion
pub mod Jobs
pub mod Prompt
pub mod Retrieval
pub mod Repositories
pub mod SourceControl
pub mod Snapshots
