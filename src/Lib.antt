-- ===== src/Lib.antt =====
-- A model of the knowledge service, from its ingestion and its sign-in to its answers, with the
-- theorems about it.
--
-- The program ingests documents into chunks, searches them with several arms, ranks what the arms
-- found, warns of what is wrong with it, and answers over HTTP, to agents with a context pack that
-- fits a token budget. A request passes the rate limiter, then the replay cache of idempotency
-- keys; what the engine found is fused, boosted, warned about and reviewed; the serializer makes
-- the pack of it.
--
-- The code stands below src/cf_knowledge_kiln, where the short paths below start: api/x.py is
-- src/cf_knowledge_kiln/api/x.py.
--
-- Base holds the shared names: Boolean tests and lists over the native numbers (Base.Bools,
-- Base.Lists), the ordered dictionary that the bounded caches are built on (Base.OrderedDict) and
-- the platform (Base.Host: floats with their tests, JSON values). No law of float arithmetic is
-- assumed; theorems that need the order of floats take IsOrdered, which says that < is a strict
-- weak order, as it is where no NaN occurs.
--
-- Base.Texts has texts as lists of code points, with the string operations that the code calls.
--
-- Api.RateLimit is src/cf_knowledge_kiln/api/rate_limit.py: TokenBucketLimiter with __init__ (init)
-- and hit. Times are whole ticks and tokens are counted in units of 1 / window of a token, so that
-- refills are exact where the program rounds floats: what is shown of it holds up to that rounding.
-- retry_after, which takes the ceiling of such a float, is not modelled. The lock makes a call one
-- step. Api.HeaderSanitize is api/_header_sanitize.py on code points. Api.Idempotency is
-- api/idempotency.py, the table of db/repositories/idempotency.py as an association list, and the
-- part of the handlers of api/retrieval.py and api/answer.py from the dispatch to the reply
-- (serve); the hash of a body and the result of the retriever are parameters, and a failed
-- statement is a Fault that leaves the table as it was. A run is a list of requests and sweeps.
--
-- Api.Auth is api/auth.py: configure_auth and the settings (Auth, Startup), the public paths
-- (Paths, Places), bearer tokens (Tokens, Bearer), the sign-in with its login, callback and logout
-- (Handshake, Callback) and the middleware (Gate, Passage). A handler is a step over the
-- caches of the discovery document and of the keys that may raise (Run). The platform is a
-- parameter: the JWT library, the cookie serializer, urlencode and what the provider answers; a
-- moment gives the clock and the random values of a request.
--
-- Ingestion.Frontmatter, Tables and Files are the frontmatter aliases, the statements on the tables
-- and the processing of a file of ingestion/_file_processing.py; Walk is the walk over a directory
-- of ingestion/connectors.py, and Run is run_source of ingestion/pipeline.py, where an exception
-- that escapes leaves the tables and the row of the run as they were committed before the fetch; a
-- failing statement of the database is not modelled. The content of a file is its decoded text, a
-- new row gets the next number for its UUID, and the tables are lists of rows. The parser, the
-- regular expressions, the readers of dates and addresses, the fetch and the embedding pass are
-- parameters. Ingestion.JsonSafe is ingestion/_jsonsafe.py over a heap of containers, in which a
-- container may hold itself. Its fuel is the number of containers, since a chain of calls enters
-- none twice.
--
-- Ingestion.Remote is ingestion/ssrf.py and, in Http, ingestion/_http_connector.py. A world counts
-- the calls of the resolver and the client, each of which may answer differently, and keeps the
-- connections; the parser of URLs, the client and the flags of addresses are parameters.
--
-- Ingestion.Embedding is ingestion/embedding/batched.py, and Pass is
-- ingestion/embedding/pipeline.py with the table of embeddings. The batches complete in the order
-- of a schedule, which is any reordering of them; the provider is a parameter that may raise or
-- give the wrong number.
--
-- Ingestion.Chunking is ingestion/chunking.py: the scanner (Scan), the sections (Sections), the
-- packer (Packing) and the loop of parse_document over the body (Document). The index of the
-- scanner is the list of the lines that are left, its fuel is their number, which is enough since
-- every turn takes a line. Fences are read from the code points; what the heading, list item and
-- table separator patterns match is a parameter, as are the tokenizer and the hash.
--
-- Ingestion.Jobs is the table of jobs of db/repositories/operations.py (IngestionJobsRepository)
-- and what ingestion/worker.py does to it; the statements of one session are one step.
--
-- Retrieval.Types, WarningPolicy and Config are retrieval/types.py, warning_variants.py,
-- warning_policy.py and config.py. Retrieval.Ranking is retrieval/ranking.py: Fusion (rrf_fuse),
-- Boosts, Emitters, Isolated and Review (requires_human_review, and collect_warnings of
-- retrieval/_engine_helpers.py). A UUID is a number, a date its ordinal, a message its template
-- with its values. An exception is none of an Option. Retrieval.Hyde.Cache is the cache of
-- retrieval/hyde/cache.py with get, put and clear, over whole ticks; Retrieval.Hyde.Classifier and
-- Engine are retrieval/hyde/classifier.py and engine.py. A call of the engine takes place at a
-- moment, which gives the clock and the answer of the generator.
--
-- Agent.ContextPack is agent/serializers.py: Shapes, Trim (trim_evidence_to_budget,
-- derive_confidence), Evidence, Assembly (assemble_context_pack); Budget, Safety and Reasons prove
-- what they do. The tokenizer, the JSON dump, the fresh identifier and the order of the markers'
-- texts are parameters.
--
-- Retrieval.Conflicts is detect_conflicts of retrieval/ranking.py. Retrieval.Engine is search of
-- retrieval/engine.py with retrieval/query_normalization.py and the row mappers of
-- retrieval/_engine_helpers.py; Retrieval.Engine.Pack is retrieval/context_pack.py, and
-- Retrieval.Engine.Answering the answer route over it. The database search (with the filters) and
-- the substitution of a phrase's pattern are parameters. Agent.Answer is agent/answer.py from the
-- pack on; the generator of generation/__init__.py is a parameter that may raise.
--
-- Tests evaluates the definitions on concrete inputs and applies the theorems to them.
--
-- Not modelled: the SQL, the network, the git and file access, the web framework and its
-- templates, the model provider and the command lines, which are calls of other systems. Of the
-- program's own code the filters, the git credentials, the views and forms of the pages and the
-- evaluation are not modelled.
pub mod Base
pub mod Api
pub mod Ingestion
pub mod Retrieval
pub mod Agent
pub mod Tests
