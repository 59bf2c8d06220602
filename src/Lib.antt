-- ===== src/Lib.antt =====
-- The platform server of Mistake Agent (server/src/) and of its desktop kernel (src/kernel/) the
-- storage, the registry of plugins, the dispatch of calls and the loop of the agent.
--
-- The server relays the model requests of its users and bills them by uses. A login or a request
-- first passes the guards of server/src/security/. A relayed request takes a slot of the gate
-- (`relay::concurrency`), is reserved (`billing::store::reserve`: the quota is decided and a row of
-- the ledger written), relayed, and settled (`settle`: the tokens are recorded and the charge of
-- its turn computed anew).
--
-- Billing models server/src/billing/: Ladder the tiers (ladder.rs), Model the types (model.rs),
-- Quota the decision (quota.rs), and the rest the store (store.rs): Tables the rows, Reads the
-- queries, Reserve, Settle and View its operations; Rows, Turn, Ledger and Order what the proofs
-- need. Each operation is a function of the tables, a transaction that begins when the one before
-- has committed. Only `reserve` takes the user's advisory lock; settlements of one turn, or a
-- settlement and the quota card, can overlap in the database, and that is not modelled.
-- Relay models server/src/relay/: Gate the slots (concurrency.rs); Probe and Observe the parser that
-- reads the usage from the stream while it passes (sse.rs), with Text for the text operations of the
-- Rust library and Json for the JSON library, a parameter; Settlement what a stream is settled as
-- (handlers.rs).
-- Security models server/src/security/: Lockout the failure guard (lockout.rs), ClientIp the address
-- of a client (client_ip.rs).
-- Kernel models src/kernel/: Messages the data (message.rs, agent/session/mod.rs), Chain the active
-- path of a message tree (plugin/storage/core/chain.rs), Store and Branches the session store in
-- memory (plugin/storage/mem.rs), Files the session store in files (plugin/storage/file/mod.rs),
-- Migration the split of old session files (plugin/storage/file/migrate.rs), Scheduler the calls of
-- a user (agent/session/scheduler.rs), and Mistakes the book of mistakes in memory (src/mistake.rs,
-- plugin/storage/mem.rs). Contract has what a plugin declares (contract.rs), Registry the table of
-- the plugins and of their entry points (registry/, context.rs), and Dispatch the calls of them by
-- the model and the user (agent/dispatch.rs), with Watch for the watch over a handler's time, of which
-- the rest of Dispatch takes the end as given. Loop has the rounds of a turn of the agent
-- (agent/loop_mod/), whose tool calls go through Registry and Dispatch; what the model answers, round
-- by round, is a list.
-- The store in files keeps a store in memory, changes it by the code of the store in memory, and
-- writes; Files.Calls has the calls of both as data, Files.Opening the start, which migrates the
-- files and reads them. The model finds its tools through the registry, and calls them through the
-- dispatch, which loads their plugin where that was not done.
-- A method is a function of the state behind its mutex. The store in files gives its mutex back
-- between the change and the write; the model has calls that do not overlap there.
-- Prelude passes on the libraries' names and has what the parts share.
--
-- Numbers are natural numbers; u32 and u64 saturate, wrap or are clamped where the source does.
-- Time is the argument `now`.
--
-- The loop of `push` runs on fuel, the length of the buffer: each round takes one line feed off it,
-- so that there are as many rounds as the buffer can have lines. The walk of `active_chain` has one
-- round for each message and one more, for a path that meets no message twice; a cycle of parents,
-- on which the source does not end, runs out of fuel, an error of its own. The walk of `climb` in
-- the migration stops at a message that it has come to before; its fuel is the number of the messages
-- and two, and is enough for all messages.
--
-- serde_json is a parameter (SessionJson) with what the store relies on (IsFaithful): an object on
-- one line, which reads back as it was. `HeaderValue::to_str` of the http crate is a parameter too.
-- An argument says whether the write of a call succeeds, fails, or breaks off in the line; the
-- migration's own writes succeed.
-- The code of a plugin is a program of bindings (Register), a handler a number, and the end of its
-- task, the schema library and the texts of errors are parameters (Environment).
--
-- Not modelled: network and database I/O, hashing and randomness, the tasks themselves,
-- configuration, the web front end, and of the desktop program the model providers, RPC, the assembly
-- of streamed messages, memory, settings, and the plugins themselves, most of which are prompts and
-- I/O.

mod Prelude
pub mod Billing
pub mod Relay
pub mod Security
pub mod Kernel
