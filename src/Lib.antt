-- ===== src/Lib.antt =====
-- Guru is a tutoring platform. Its backend keeps a graph of knowledge components with
-- prerequisites between them, decides who may see, change and publish it, and gives each learner a
-- lesson plan over the graph: an ordered list of steps that is revised on every graded answer.
-- This library models the parts that decide what a learner is taught and in which order, what
-- leaves a learner's own library, what a model call may cost, which turns and jobs run at once,
-- who is signed in and what an erasure leaves, and proves them correct.
--
-- The files, and the code that each is about:
--   Common     lists, sets as lists, Python's stable sort, and Boolean tests over native numbers.
--   Graph      app/learning/prerequisites.py: `_reaches` is `reaches`, and `acyclic` is `acyclic`.
--              Proofs: Graph/Reach (the search), Graph/Rank (numberings of graphs), Graph/Sift.
--              Graph/Names is `index_by_name` and `resolve`, with `normalise` as an argument.
--   Plan       app/learning/lesson_plan.py. Plan/Closure is `prerequisite_closure`, Plan/Order is
--              `topo_sort` (proofs in Plan/Order/Degree, Kahn and Safe), Plan/Step is `StepDict` and
--              its companions, Plan/Step/Horizon is `horizon_extension`, and Plan/Revise is
--              `revise_steps` and `decide_detour`, one function for each phase of the loop bodies
--              (proofs in Plan/Revise/Focus, Steady, Evidence, Reviews and Decide). Plan/Objective
--              composes the three graph functions as `generate_lesson_plan` of
--              app/services/lesson_plan.py does.
--   Knowledge  app/services/knowledge.py. Knowledge/Edges is `would_create_cycle`, `add_prerequisite`
--              and `remove_prerequisite`, as steps on a table of edges, which other writers may have
--              left with a cycle. Knowledge/Visibility is
--              the catalog and the gates in front of every id (proofs in Visibility/Listed and
--              Visibility/Private).
--   Publication  app/services/publication.py. Publication holds the rows, Publication/Snapshot is
--              `snapshot_of`, Publication/Copy is the body of `approve` that builds the copy, and
--              Publication/Review is the operations on a request. Review/Steps puts them in a step
--              relation with free edits of the other tables between them, and with the ids that
--              the database sets to null when an account or a subject is deleted. Proofs:
--              Snapshot/Sealed and Own, Copy/Ids and Faithful, Review/Outcome, Queue, Decided,
--              Shipped and Versions.
--   Spend      app/services/spend_guard.py and app/llm/meter.py: the caps, the reserved row of every
--              call, and its settlement. Proofs: Spend/Caps (one call), Spend/Sessions (all
--              sessions interleaved) and Spend/Background.
--   Turns      app/services/turn_lock.py and app/services/ingest_slots.py. Turns/Keys is the keys,
--              Turns/Server the advisory locks of PostgreSQL as an interface, Turns/Claims is
--              `claim`, `TurnClaim.release` and `is_active`, and Turns/Slots is `take`. Proofs:
--              Turns/Exclusive and OneTurn (all processes interleaved) and Turns/Jobs.
--   Ingest     app/services/ingestion.py, app/rag/pipeline.py and app/models/source.py. Ingest holds the
--              rows; Ingest/Claim is `claim_source`, `reset_for_reingest` and `_record_failure`,
--              Ingest/Duplicates is `same_text_source` and `release_duplicates`, Ingest/Stages is
--              `_extract`, `_embed`, `_publish` and `_tag_stage`, and Ingest/Sweep is
--              `reconcile_stranded`. Ingest/Jobs puts them in a step relation. Proofs: Ingest/Rows,
--              Leases, Acts and OneJob (all jobs interleaved), Offers (the sweep), and Released.
--   Accounts   app/services/auth.py, and the parts of app/services/accounts.py, impersonation.py and
--              retention.py that end sessions. Accounts/Sessions is the operations, Accounts/Life
--              their interleaving. Proofs: Accounts/Ended, SignedOut and Purge.
--   Erasure    app/services/retention.py: Erasure/Account is `delete_learner` and `erase_learner` for
--              the stores outside the database and the rows that name what is in them, and
--              Erasure/Retry is `retry_erasures`, also for a row that the database does not take.
--              Proofs: Erasure/Objects, Rows, Identity, Queue and Settled, Retry/Carried and
--              Passes.
--   Chunks     app/rag/chunking.py: `_cut`, `_next_start` and `_windows`. Proofs: Chunks/Cover.
--   Examples   runs on small inputs, and each theorem at a concrete input.
--
-- How state is modelled: an id is a number, also where the source keeps it as text; a dict is a
-- function or a search through a list, with the source's default for a missing key; a set is a list
-- without repetition; a step list that the source mutates is passed on from phase to phase. A key of
-- a step that may be absent is an option. A difficulty is a number that the planner only copies.
--
-- Fuel: `_reaches` gets one round for each edge and one more, `prerequisite_closure` one for each
-- target and each edge, the recursive query of `would_create_cycle` one for each first dependent
-- and each edge, `topo_sort` one for each component, and `_windows` one for each character. The
-- theorems show that none of them runs out: every result is stated as a value that is returned.
--
-- A concept (`resolve_concept`), a free slug, the price table, the clock and Python's test for white
-- space are arguments of the operations that use them. The columns that no modelled code reads are
-- left out of the rows; a text that is only copied or compared is a number. Money is a whole number
-- of a small unit.
--
-- The advisory locks of PostgreSQL are an interface with the laws that its manual documents. A store
-- outside the database is what it holds and which requests it refuses. A job does not run past its
-- lease, since `lease_seconds` adds a grace to the job's deadline, and the fingerprint of a new token
-- is new. A turn that runs keeps its connection: that the lock is free once it does not is a test in
-- Examples/Turns. The two transactions of `request_deletion` are one step, and the query of a model
-- call's admission succeeds.
--
-- Not modelled: queries and persistence, model calls and their prompts, floating-point estimation,
-- and the order of a Python set, which the sort by key makes irrelevant for distinct keys.
pub mod Common
pub mod Graph
pub mod Plan
pub mod Knowledge
pub mod Publication
pub mod Spend
pub mod Turns
pub mod Ingest
pub mod Accounts
pub mod Erasure
pub mod Chunks
mod Examples
