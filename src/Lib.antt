-- ===== src/Lib.antt =====
-- The claim triage agent: a claim and its documents are screened at the entry point, carried by
-- the triager through a graph to the simulated surrounding systems, and recorded with
-- hash-chained evidence. This library models the parts of src/claim_triage (paths below are from
-- the repository's root) that decide and that keep state, and proves what they promise each
-- other.
--
-- Parts, and the file that models each:
--
--   src/claim_triage/guards/verdict.py: Guards/Verdict. What every guard answers with.
--   src/claim_triage/guards/ingress.py: Guards/Ingress. `screen` asks each document the steps of
--     its declared type in order and stops at a refusal; `first_refusal` finds what the entry
--     point refuses a submission for.
--   src/claim_triage/guards/rate_limit.py: Guards/RateLimit. `take` spends a token of one bucket,
--     `take_for` finds the caller's bucket in the bounded table, or makes it.
--   src/claim_triage/api/surface.py: Api. `serve` takes a request through the middleware to the
--     route of submissions; `middleware` is `screen_submissions`, `submit_claim` the route,
--     `refusals` the table of statuses.
--   src/claim_triage/boundary.py: Boundary. The error codes, what a refusal of the systems is
--     relayed as, and what each exception answers.
--   src/claim_triage/contract/models.py: Contract. The shapes that cross the wire.
--   src/claim_triage/contract/client.py: Contract/Client. A message for each operation, and what
--     its response is raised as. Wire has what crosses HTTP.
--   src/claim_triage/triage/audit.py: Triage/Audit. `digest`, `append`, `continues` and `verify`
--     of the audit chain.
--   src/claim_triage/triage/store.py: Triage/Store. The two tables, the reads and the transaction
--     that writes both.
--   src/claim_triage/triage/graph.py, run.py: Triage/Graph, Triage/Run. The state, the node and
--     the shapes of a run.
--   src/claim_triage/triage/pipeline.py: Triage/Pipeline. `run`: the claim is taken in, a status
--     is decided, the run and its entry are recorded, and only then is the status emitted.
--   src/claim_triage/core_sim/store.py, seed.py: CoreSim/Tables, CoreSim/Store. Every operation
--     of the surrounding systems; each write is run once for its idempotency key.
--   src/claim_triage/core_sim/app.py: CoreSim/App. `serve` binds a message to the call of a route
--     and answers with what the store answers; CoreSim/App/Crossing runs the client over it.
--   src/claim_triage/triage/client.py, surface.py: Triage/Client, Triage/Surface. The triager's
--     boundary from both sides; Api/Relay runs one over the other, and Triage/Systems the
--     pipeline over the client of the systems.
--   src/claim_triage/evaluation/gate.py, baselines.py: Evaluation/Gate, Evaluation/Baselines.
--     `judge` compares the measurements of a run to the baseline of a tag; Dict is Python's
--     dictionary and Evaluation/Measurements what scoring.py hands over.
--   src/claim_triage/evaluation/metrics.py: Evaluation/Ranks has the hit, the rank and the
--     citations of a ranked list; Evaluation/Metrics the counts of fields and labels and the area
--     under a score's curve.
--   src/claim_triage/evaluation/material.py, sets.py, answers.py, build.py: Evaluation/Material
--     is the disk and how a file is refused; Evaluation/Cases the cases and the answers,
--     Evaluation/Sets and Evaluation/Answers their reading.
--   src/claim_triage/evaluation/runner.py: Evaluation/Runner. `run_main` reads, measures, judges,
--     and records what passed, with the exit status; Evaluation/Recording is what a tag's
--     baseline is made of and read back as.
--   src/claim_triage/model/port.py, replay.py, provider.py, select.py, and the model's settings
--     in config.py: Model, Model/Replay, Model/Provider, Model/Select. A call is answered from a
--     fixture set or by an endpoint.
--   src/claim_triage/smoke.py: Smoke. `waited` polls until a call answers or the deadline is
--     over; `main` carries one claim and exits.
--   src/claim_triage/codegen.py: Codegen. Codegen/Schemas annotates a schema or refuses it,
--     Codegen/Models writes the classes, Codegen/Signatures and Codegen/Operations read the
--     operations, Codegen/Methods writes their methods and the errors, Codegen/Prose wraps what
--     the document says into docstrings.
--   src/claim_triage/evaluation/scoring.py: Evaluation/Scoring. `measure` scores the answers of a
--     run against the sets, a module for each capability: Evaluation/Extraction,
--     Evaluation/Retrieval and Evaluation/Classification.
--
-- Database is the frame that both stores use (Database/Keeping carries an invariant of the tables
-- through a block): a store operation is one connection, whose block sees the tables, writes them
-- and either commits or rolls back. It models the driver's documented behaviour; a `Session` says
-- what the database and the network choose in one call (whether the connection is made, whether
-- the n-th statement gets through, what other connections commit meanwhile, how the commit ends),
-- and theorems range over all of them unless they say that a session is calm. The tables exist
-- only once the schema was applied, and the store's own flag for that is apart from the database,
-- as in the source. A table is the list of its rows in the order of insertion, and a query with
-- ORDER BY sorts it.
--
-- Code of other repositories is a parameter: the JSON of the models (`Codec`), what HTTP carries
-- (`send`), reading an identifier (`read_uuid`), JSON serialisation for hashes (`dumps`), SHA-256
-- (`sha256`), the PDF and zip decoders (`Decoders`), running the compiled graph (`invoke`),
-- writing an identifier (`show`), the systems behind the client (`Systems`), the triager behind
-- the entry point (`Runs`), parsing a claim's JSON (`parse`), what the framework reads a
-- multipart body as (`Form`), how `isdigit` and `int` read a header (`digits`), the offset of the
-- session's time zone that a stored time is read back with (`offset_at`), how a write to the disk
-- ends (`writes`), the files of a directory (`directories`), the wording of a verdict (`worded`),
-- decimals and folded text (`Texts`), the lines and the JSON of a file (`Parsing`, `SetShapes`,
-- `AnswerShapes`, `Documents`) floating point arithmetic (`Floats`), hashing and validation
-- behind the model's port (`Hashing`, `Shapes`, `Endpoint`), and the methods of text, the regular
-- expressions and the JSON that the code generator uses (`Python`). Some theorems assume
-- something of these. The one on a bucket's burst: that floats count exactly up to the burst, as
-- doubles do up to 2^53, and that a refill over no time, at the limit's rate and the clock's
-- reading, is none. The one on the log that is read back: that the session's time zone is UTC.
-- Those on calls over the wire: that a model which was dumped validates as the value that it was,
-- at the values that are sent, and an identifier's text as the identifier. Those on a recorded
-- baseline: that its text reads as that baseline, and that no number regresses from its own
-- rounding. The one on wrapped text: what `str.split` and `str.strip` document. The one on an
-- operation's parameters: that `str` leaves a text as it is. Their statements name each.
--
-- Identifiers, dates and instants are natural numbers, an amount is a number of cents. The text
-- of a verdict or a chain problem is a constructor with the values that the text shows; the texts
-- of exceptions are kept only where they are relayed. `uuid4()` and the clock are arguments.
-- Loops are over lists. The recursion of the code generator through references takes fuel, the
-- depth of recursion that Python has left, and runs out as a RecursionError; `enough` bounds it
-- by the rank of the schemas and their nesting. The polling loops of the smoke test take fuel for
-- their attempts, bounded by the deadline over the poll interval.
--
-- Not modelled: the command line and the layout of the report of the evaluation harness; the
-- other settings, telemetry and process start, which are input and output; the constant text of
-- the generated package, writing its files and formatting them; validation by pydantic of what
-- crosses the wire; and spans and log lines of a run; and a line of JSON on which `json.loads`
-- raises anything but JSONDecodeError.
pub mod Api
pub mod Boundary
pub mod Codegen
pub mod Common
pub mod Contract
pub mod CoreSim
pub mod Database
pub mod Dict
pub mod Evaluation
pub mod Floats
pub mod Guards
pub mod Model
pub mod Smoke
pub mod Triage
pub mod Wire
