-- ===== src/Lib.antt =====
-- Drift Triage Co-Pilot: a model of the program and what is proved of it.
--
-- The program watches a deployed model for drift. A drift service (backend/src/service) compares a rolling
-- window of predictions with reference statistics (backend/src/drift) and, when the severity changes, sends a
-- webhook to an agent (backend/src/agent). The agent opens an investigation and runs a graph of nodes that
-- triages the report, proposes an action, waits for a human decision, and enqueues a job for a worker
-- (backend/src/worker), which may ask the service to promote a model version.
--
-- The files, by part:
-- Prelude and its children: shared names, tests, lists, texts, stable sorting, and exceptions as values.
-- Floating: floats and numpy as interfaces (Defs), the laws that proofs assume (Laws), and numbers of fixed
-- point that satisfy them (Fixed), at which the tests run.
-- Settings: backend/src/core/settings.py.
-- Drift: psi.py, chi2.py, output_drift.py and severity.py of backend/src/drift, in Psi, Chi2, Output, and
-- Severity with Report; a raised exception is the constructor raised of a Result.
-- Worker.Dedup: enqueue_with_dedup of backend/src/worker/dedup.py over an interface of Redis, with a table as
-- an instance.
-- Worker.Jobs: the failures of the jobs of backend/src/worker, and rollback.py with the tries that arq gives it.
-- Agent.Database: the tables of backend/src/core/models.py that the agent uses, as lists of rows in the order of
-- their creation.
-- Agent.Security, Agent.Staleness, Agent.Tools: security.py, staleness.py and reconcile.py, and the
-- tools of backend/src/agent.
-- Agent.State, Agent.Routing, Agent.Nodes, Agent.Dispatch, Agent.Graph: backend/src/agent/graph.py. A node
-- takes the answers of its calls, the state and the world (the tables and the broker), and gives the new
-- state and the new world. Agent.Graph advances a thread from node to node and stops it at the interrupt.
-- Agent.Webhook, Agent.Hil: the routers of the agent that change the tables.
-- Agent.Llm: backend/src/agent/llm.py, with Tenacity for its retries and for those of drift.py.
-- Agent.System: the routers with the threads of all investigations, as steps that interleave node by node. A
-- resumption may come at any time after the decision.
-- Service.Promotion, Service.Listing: promotion.py and registry.py of backend/src/service/routers over an
-- interface of the model registry.
-- Service.Predictions: prediction.py of the routers, with ml/inference.py and deps/classifier.py; the table of
-- predictions is a list, the newest row first.
-- Service.Start: what backend/src/service/main.py loads at its start.
-- Service.Reports, Service.Alerts: drift.py of the routers. A request or a background task that others may
-- overtake takes the cache or the table at each moment at which it looks.
-- Ml.Data with its child Split, Ml.Reference with its child Compute, Ml.Threshold, Ml.Train, Ml.Register: data.py,
-- reference_stats.py, threshold.py, train.py and register.py of backend/src/ml, over interfaces of scikit-learn
-- (Ml.Train) and MLflow (Ml.Register); Ml.Choice is the choice by a greatest key that they share.
-- Worker.Retrain, Worker.Replay: retrain.py and replay_test.py of backend/src/worker.
-- Frontend.Badge, Frontend.Batch, Frontend.Field, Frontend.Top: the eligibility badge of frontend/app.py, the injected
-- batches of frontend/app.py and scripts/inject_demo_batch.py, the fields that the dashboard reads from a summary,
-- and the features that it shows first.
-- Scripts.Batches, Scripts.Payload: scripts/generate_demo_batches.py, and the payload of
-- scripts/inject_demo_batch.py; a row of a data frame is a function of the column.
-- Agent.Queue: backend/src/agent/routers/queue.py.
-- Migrations: the revisions of backend/migrations/versions over an interface of Alembic's operations (IsPostgres
-- states what PostgreSQL documents of them), and the run of env.py for the three revisions of the folder.
--
-- The engine runs on a list of answers, one for each node run; thirteen suffice for a run that does not fail,
-- since the supervisor runs before each other node and each of those lowers a rank of at most six.
--
-- arq gives a job three tries (max_tries in backend/src/worker/main.py), and a webhook is posted at most three
-- times (stop_after_attempt(3) in drift.py).
--
-- Identifiers drawn by uuid4, times, LLM texts, NFKC, HTTP and MLflow answers, and the faults of the database and
-- of the queue are arguments. Log lines and prompts are left out.
--
-- Not modelled: the reading of the CSV, which is a pandas call; what is written to the files of the training and
-- the statistics (that it may fail is modelled); faults of MLflow in the middle of a registration; the fidelity
-- check of a registered model; the construction of clients at start; the rest of the dashboard; and
-- backend/scripts/inject_drift.py.
pub mod Prelude
pub mod Migrations
pub mod Floating
pub mod Settings
pub mod Tenacity
pub mod Drift
pub mod Ml
pub mod Worker
pub mod Agent
pub mod Service
pub mod Frontend
pub mod Scripts
