-- ===== src/Lib.antt =====
-- A model of the document chat platform: how an uploaded file becomes retrievable chunks.
--
-- The program is a web service. An upload is accepted in the request (intake), which writes a row
-- of `documents`, stores the bytes and queues a row of `ingest_jobs`. Workers claim jobs from that
-- queue and run them: parse, profile, chunk, put a header on each chunk, embed in batches, ready.
-- Each step commits by itself, so that a run that dies is resumed from its checkpoint and from the
-- chunks that have no vector yet. A question in a workspace is answered from the chunks that a
-- search of that workspace finds, with citations, and the exchange is kept for the user who asked.
-- Calls of a provider are tried again by with_backoff. Users sign in with a password and are known
-- by a session, or a script by the admin token.
--
-- The parts, with the code that each models (paths from the root of the repository):
--   Base          Boolean tests, lists, results and the state with errors that the rest uses.
--   Text          Python's str methods on lists of code points: strip, split, splitlines, join,
--                 lower, the decimal digits.
--   Sql           The statements sent to Postgres over a table as the list of its rows.
--   Models        Rows and values: app/models/*.py and app/interfaces/types.py.
--   Database      The tables of ingestion together, the clock, and the errors.
--   Tokens        app/pipeline/tokens.py: estimate_tokens, and the installed counter.
--   Procedures    app/pipeline/procedures.py: step_number, split_steps,
--                 group_numbered_procedures (Procedures.Merging proves what merging keeps).
--   Splitting     app/pipeline/splitting.py: pack, word_parts, sentence_parts, table_parts,
--                 procedure_parts, tail_overlap (Packing, Sentences, Parts, Content, Kept and Marks hold the
--                 proofs).
--   Chunking      app/pipeline/chunking.py: the class _Assembler is the record Assembler and a
--                 function per method; _chunk_slides and chunk_blocks (Chunking.Sizes).
--   Contextualise app/pipeline/contextualise.py: build_header and its use.
--   Profiling     app/pipeline/profiling.py: the counted vocabulary of a workspace.
--   VectorStore   app/implementations/pgvector_store.py: upsert and delete_by_document.
--   Embedding     app/pipeline/embedding.py: the loop of embed_document, with one transaction per
--                 batch (Batches, Growth and Progress hold the proofs).
--   Persist       app/pipeline/persist.py: the writes that stages share, each one transaction.
--   Queue         app/workers/queue.py: one function per operation, on the rows of ingest_jobs.
--                 Queue.Racing lets claims of several workers overlap as steps: pick and lock a
--                 row, commit, roll back.
--   Ingest        app/pipeline/ingest.py: run_job as a chain of stages, and requeue_workspace.
--   Worker        app/workers/worker.py: process, and a turn of worker_loop.
--   Mime          app/implementations/parsers/mime.py, and Mime.Registry for the registry of
--                 parsers in app/implementations/parsers/__init__.py.
--   FileStore     app/implementations/postgres_file_store.py: put, get and delete.
--   Intake        app/pipeline/intake.py: validation, the three outcomes, versions.
--   Documents     app/api/documents.py: delete_document, with the rows that go with a document.
--   Retry         app/implementations/retry.py: which failures are tried again, the wait that a
--                 provider names, with_backoff (Ending and Waiting hold the proofs).
--   Security      app/security.py: base64, hashes of passwords and of session tokens (Encoding,
--                 Verifying).
--   Accounts      app/models/account.py, app/api/deps.py and app/api/auth.py: users, sessions, and
--                 who a request comes from (Sessions, Logout, Creating, Guards).
--   Retrieval     app/implementations/pgvector_store.py: hybrid_search (Boundary).
--   Answering     app/pipeline/answering.py: sources, prompt, citations, refusals (Citations).
--   Conversation  app/pipeline/conversation.py: small talk and the replies to it.
--   Chat          app/api/chat.py and app/models/chat.py: conversations and the answer to a
--                 question (Private, Cited).
--   Workspaces    app/api/workspaces.py: creation, the list and its counts, deletion, reindexing,
--                 and the guards of a workspace (Dashboard, Deletion, Access).
--   Parsing       app/implementations/parsers: markdown_to_blocks of text_parser.py (Content, Titles,
--                 Headings: the proofs; Sections: what a path must be), TextParser.parse (Plain,
--                 Parsed), tabular_parser.py (Sheets), docling_blocks.py (Docling, Placing),
--                 lite_html.py and the table rows of lite_office.py (Html, Tags, Collecting), and
--                 the documents and slides of lite_office.py (Docx, Pptx).
--   Examples      Concrete inputs: each theorem that has a hypothesis is applied to one.
--
-- How state and errors are written. A function that reads and writes the database is a function
-- of it, `Exec Error Database A`: it gives a value or an error, and the tables as they are
-- committed then. A session that raises is rolled back, so an error leaves what the transactions
-- before it have committed. now() and datetime.now() are the field `clock` or an argument, and so
-- are the ids that uuid4() returns; ids and times are numbers. A JSON column with known keys is a
-- record. Text is a list of code points.
--
-- Bounds and fuel. The loop of embed_document has one round more than there are chunks without a
-- vector; `no_fuel` is what it would end in otherwise, and the theorems exclude it for a batch size
-- that is positive. Token estimates are exact rationals in place of floats, which agree for texts
-- shorter than 2^50 characters; a percentage of progress is exact for counts below 2^40. Lower
-- case is that of ASCII, with the two other code points whose lower case has an ASCII letter;
-- `\w` of the regular expressions is a parameter (Tools.is_word), as are the answers of zipfile
-- and mimetypes. `overlap_tokens` is the value of int(target_tokens * overlap_ratio).
--
-- The loop of with_backoff has one round more than there are attempts, and the rules of its runs
-- have no case for a run that is cut off. Seconds and scores are exact fractions in place of floats
-- and of numeric columns. Upper case is that of ASCII, with the characters whose upper case has an
-- ASCII letter in it. Rows that an ORDER BY does not tell apart keep the order of the table.
--
-- Parameters: the parser of a document in a run, the items of Docling, the objects of python-docx
-- and python-pptx, the events of HTMLParser, the answers of the LLM (profile, descriptions,
-- answers), the embedding provider (at each call a vector for each text, or an error), SHA-256,
-- scrypt and the random bytes, the jitter of the backoff, and what the extensions of Postgres
-- compute in a search: the distance of vectors, the rank of a text, the containment of tags.
--
-- Not modelled: the parsers of PDF and legacy files and the reading of files by the other parsers,
-- the clients of the providers, the prompts of profiling and of headers, the jobs route and the
-- listing of documents, which only read, configuration, migrations, the browser client, and the
-- asyncio tasks that run the workers. The log lines of the program and the attributes of its
-- cookies are left out. The unique constraint on the ordinals of a document's chunks is not
-- checked by the model, a JSON object keeps the order in which its keys were added, and scores are
-- not rounded in a response.
pub mod Base
pub mod Text
pub mod Sql
pub mod Models
pub mod Queue
pub mod Tokens
pub mod Procedures
pub mod Splitting
pub mod Chunking
pub mod Database
pub mod Profiling
pub mod VectorStore
pub mod Embedding
pub mod Mime
pub mod FileStore
pub mod Intake
pub mod Contextualise
pub mod Persist
pub mod Ingest
pub mod Worker
pub mod Documents
pub mod Examples
pub mod Retry
pub mod Security
pub mod Accounts
pub mod Retrieval
pub mod Answering
pub mod Conversation
pub mod Chat
pub mod Workspaces
pub mod Parsing
