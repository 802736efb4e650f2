-- ===== src/Lib.antt =====
-- Agent Passport: the authority, egress, memory and termination code of the server (apps/server/src).
--
-- The parts and how they work together. Humans grant authority to agents, and agents pass it on to other
-- agents (authority.ts decides, identity.ts stores and revokes). Every use of authority is checked against
-- the whole chain of delegations (run-policies.ts). The proxy asks the egress authorizer about each outbound
-- connection; refusals are strikes, and an ungranted request may wait for an operator (egress-authorizer.ts).
-- What agents remember carries its source (memory.ts). A termination freezes an agent, revokes its grants,
-- closes its memories, stops it, verifies that, and signs a receipt (terminator.ts, termination.ts). All of
-- it reads and changes one database through queued mutations (store.ts). Around them, the agent service keeps
-- agents, sessions, messages, runs and approvals, admits messages, executes runs and holds risky steps for an
-- operator (agent-service.ts), and the proxy parses, authorizes, tracks and drains connections
-- (egress-proxy.ts).
--
-- The files.
--   Base: the library's names and helpers on lists, options, numbers and texts.
--   Types: types.ts. Instants are milliseconds; the ISO texts that the code compares have one length, so their
--     order is that of the instants.
--   Authority (Order, Requests): authority.ts: isNarrowerThan, authorizeGrantRequest.
--   Errors: the error classes of errors.ts and run-policies.ts as one type, and the result of fallible code;
--     Guards holds the lemmas on chains of guards.
--   Store (Laws, Queue): store.ts: the seeds, latestRunFor and mutate as one step. `Persist` says what writing the
--     file throws. Queue is mutate step by step, with its queue, its copy and its wait for the disk.
--   Policies: run-policies.ts: Chain is isGrantChainLive, Access is activeGrant, evaluateResourceAccess and
--     evaluateEgress, Budget is rejectOutputIfCanaryPresent and rejectRunIfBudgetExceeded (Limits holds what of
--     the configuration it reads), Risk is evaluateActionRisk and actionResource, Cost is estimateRunCostUsd; Visited
--     measures the walk.
--   Identity: identity.ts: Cascade is cascadeGrantRevocation, Grants is createGrant, revokeGrant and
--     readResourceAsAgent with the events they record, Lineage the invariant of the stored grants.
--   Egress.Authorizer: egress-authorizer.ts: in Authorize, `begin` and `resume` are the two parts of authorize
--     around the wait for an operator; Answers, Held and Verdicts hold the proofs.
--   Memory: memory.ts: Remember, Recall and Quarantine are its operations.
--   Termination: termination.ts: Canonical is canonicalize, Structure is validateReceiptStructure, Receipts is
--     signReceipt and verifyReceipt.
--   Terminator: terminator.ts with what it calls of agent-service.ts: Steps, Verify and Run.
--   Egress.Proxy: egress-proxy.ts: Addresses is parseIPv4, parseIPv6 and isPrivateAddress, Headers is
--     parseAuthority, principalFromProxyAuth, resolveTarget, decide and the forwarded headers, Connections is
--     track and closePrincipalConnections, Requests the handlers; Octets, Ranges, Public,
--     Drained and Passed hold proofs.
--   Service: agent-service.ts: the state, redact and promptViolation; Agents is createAgent and updateAgent,
--     Lifecycle is startAgent, stopAgent, deleteAgent and quarantineAgent, Sessions and Queries are what their
--     names say, Cancel is cancelExecution and denyPendingApprovals, Approvals is resolveApproval and its timers,
--     Requests is requestEgressApproval, Messages is sendMessage, Steps, Gate and Resume are onStep, what
--     it is given and its parts before and after the wait for an operator, Runs the three writes of executeRun,
--     Recollection its memories, Execution the whole of it, Startup is initialize, Records the methods that only
--     record an event. History puts the pieces between two awaits together as steps. The other children hold
--     proofs.
--   Examples: runs of the theorems on concrete data.
--
-- Bounds and fuel. A walk up a chain has two more steps of fuel than there are stored grants: a grant is
-- visited at most once, and the first one need not be stored. A round of a cascade adds a grant's id or is the
-- last, so one more round than there are grants is enough. Numbers are natural numbers.
--
-- Not modelled. Ids that the code draws and the time are arguments. Hashes, signatures, UTF-8 lengths, the
-- runner, the container engine, the resolver and the disk are parameters, and so is what the regular
-- expressions of the risk rules find. A handler of the service or the proxy runs in one piece between two
-- awaits, and what others do while it waits is an argument. A mutation of the store is one step: the database cannot
-- change between its callback and the end of its write, since mutations are queued, but what others do to the sets
-- of the service during that write is taken to come before the callback or after the handler. The queue of calls to the runner, the sockets, their
-- timeouts and the timer that asks again about an open tunnel, systemInfo and summarizeRunPolicies, the
-- migrations of store.ts, the key files, the HTTP routes, the model adapters and the web application are left out.
pub mod Base
pub mod Types
pub mod Authority
pub mod Errors
pub mod Store
pub mod Policies
pub mod Identity
pub mod Egress
pub mod Memory
pub mod Termination
pub mod Terminator
pub mod Service
pub mod Examples
