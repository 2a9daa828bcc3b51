-- ===== src/Lib.antt =====
-- A verification library for HoursX, the autonomous agent platform: a Python backend in which
-- agents run a loop of model turns and tool calls, pause for human approval, change the host under
-- guard, and answer people over messaging channels.
--
-- Each module below is named for a part of hoursx/ (paths are from src/hoursx):
--   Resilience     resilience.py: RetryPolicy, CircuitBreaker, call_with_resilience. The breaker is a
--                  record, each method a function to the new record; the awaited operation is a script
--                  of what its k-th call yields and `clock` gives the time of each.
--   Routing        providers/router.py: ModelRouter, with the breakers of Resilience in its state.
--   Privileges     system/privileges.py: the classes of sysctl, signal and service operations.
--   Ops            system/ops.py with the sysctl access of system/probe.py. The kernel's files, `kill`,
--                  `systemctl` and the helper daemon are the record `Host`; what a theorem relies on of
--                  them is among its hypotheses.
--   Remediation    remediation/: Conditions (post-conditions), Ledger (rows, reverts, the dead-man
--                  sweep), Guard (apply_guarded, confirm_change), History (any sequence of these).
--   Tools          tools/registry.py and tools/executor.py: grants, validation, the approval gate and
--                  the outcome of a call. Pydantic's models, fnmatch and the tools are parameters.
--   Runs           the life of a run. Loop: the model and tools loop of agents.py, with pausing at the
--                  gate and resuming (Keeps, Limits, Pause, Tokens, Resume, Ends hold its proofs);
--                  Executor: the same loop with Tools behind it; Store: the rows of runs and the
--                  transactions of agents.py, orchestration.py and recovery.py on them; Intake:
--                  submit_message with quotas.py (Within: a sequence of submissions).
--   Pagination     pagination.py: the keyset query and its pages.
--   Channels       channels/ and api/routers/channels.py: Webhook (receive_webhook), Inbound (router.py:
--                  a message becomes a run with a reply owed, through Runs.Intake), Dispatch
--                  (dispatch.py: claims, deliveries and sweeps; a history of transactions in
--                  Dispatch.Claims stands for many dispatchers and their crashes).
--                  Adapters: channels/telegram.py, whatsapp.py and gmail.py, from the decoded payload of
--                  a webhook to the requests that deliver a reply; the service is a parameter.
--   Providers      providers/: the adapters Anthropic, OpenAi and Gemini (anthropic.py,
--                  openai_compat.py, gemini.py), each with its requests (Request), the parsing of an
--                  answer and the stream over the lines that the service sends. Sse is the loop that
--                  the streams share; the coder of JSON is a parameter.
--   Json           the values of decoded JSON, and how Python reads a key, an item or a truth of them.
--   Access         auth/rbac.py and api/routers/members.py: roles, permissions and the requests that
--                  change a workspace's members, with what they leave in the audit log.
--   Knowledge      knowledge.py: split_text and the batches of embeddings.
--   Events         events.py: the bus of one process; Spec says what a subscriber is promised.
--   Scheduler      scheduler.py: cron expressions and the schedules that a tick marks and
--                  submits, up to a submission that raises.
--   Prompts        prompts.py: the context of a model call within its budget; the notes of memory.py.
--
-- Prelude holds what they share: Booleans, lists, association lists, text and integers.
--
-- How the parts interact: Guard reads and applies a change through Ops, which asks Privileges; it
-- records it in Ledger, evaluates Conditions after the settling time, and reverts through Ledger,
-- which calls Ops again. Routing calls every provider through Resilience.
-- The loop of Runs runs its calls through Tools; its outcomes are what workers write to Store. A
-- webhook of Channels submits through Intake, and Dispatch reads the rows of Store. An adapter parses
-- what the webhook is given and sends what Dispatch delivers; a stream of Providers is what Routing
-- hands to the loop of Runs.
--
-- Conventions. Python integers that are counts, ticks of a clock or characters are ℕ, signal numbers
-- and pids are ℤ. Times and delays are in ticks of one clock, so float rounding is left out; the
-- numbers that conditions compare are a parameter `Floats`. A coroutine that may return, raise
-- UnsafeOperationError or fail otherwise gives an `Outcome`; what becomes of the host and of the
-- ledger while a guarded change waits is the parameter `meanwhile`. A dictionary is an association list. The retry loop runs on the number
-- of attempts that are left, the agent loop on the rounds that are left of max_steps, the windows of
-- split_text and the chunks of a message on the length of the text and the batches of embeddings on
-- the number of pieces, since each turn moves on; no other loop needs fuel. A theorem on the agent loop takes the model and the
-- tools as functions of the transcript, which grows with every message, and the cancellation flag as
-- a function of the steps taken.
--
-- Not modelled: the events that each part publishes, metrics, log lines and the prose of summaries;
-- delegation, the HTTP clients, embeddings, attachments of messages, the built-in tools, vector
-- stores and long-term memory, the Redis bus, the rest of the HTTP interface, the command line and
-- the console; the database engine and its failures; the C++ helper daemon, whose replies are part
-- of `Host`.
mod Prelude
pub mod Resilience
pub mod Routing
pub mod Privileges
pub mod Ops
pub mod Remediation
pub mod Pagination
pub mod Tools
pub mod Runs
pub mod Channels
pub mod Access
pub mod Knowledge
pub mod Events
pub mod Prompts
pub mod Scheduler
pub mod Json
pub mod Providers
