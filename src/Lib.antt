-- ===== src/Lib.antt =====
-- The program plans and runs reviews and agent turns over GitHub items. A turn is leased to a runner
-- for a generation, kept alive by heartbeats, and ends with one receipt; prompts and steers that
-- arrive on the way become its next revision. This library models that lease engine with the rows it
-- keeps, the policy that bounds it, the queue of refreshes that admits reviews, the gate before
-- publication and the fence of an agent's commands, and states what makes them correct.
--
-- Store.antt and Store/ model internal/store: a table is the list of its rows, a statement a function
-- over an open transaction (`Tx`), and `run_tx` is `Store.Tx`, which commits or rolls back.
-- Store/Turns.antt has turns, snapshots, receipts and review counts (store.go), Store/FollowUps.antt
-- and Store/Steers.antt the files of those names. Store/Logic.antt has triples over transactions,
-- Store/Frame.antt what each statement leaves alone, Store/Run.antt how one runs, Store/Order.antt the
-- order of prompts.
--
-- Engine.antt and Engine/ model internal/engine: Engine/FollowUp.antt and Engine/Prompt.antt
-- followup.go, Engine/Lease.antt the heartbeats, failures and expiry of engine.go
-- (`HeartbeatSteerReceived`, `Fail`, `failClosedTx`, `finalizeFailureTx`, `expireLeaseTx`),
-- Engine/Complete.antt `CompleteWithSteers` and `ValidateResult`, Engine/Claim.antt the end of
-- `ClaimToken`, `replayClaimTx` and `requeueBusyEnvironmentClaim`, Engine/Stop.antt cancel.go, halt.go
-- and `OperatorRetry`. Engine/Protocol.antt is the abstract protocol of leases, Engine/Refine/ shows
-- that each operation but `OperatorRetry` follows it, and Engine/Trace.antt runs any requests in any
-- order. Engine/Replay.antt is about late requests, Engine/Answers.antt and Engine/Repeat.antt about
-- repeated ones.
--
-- Engine/Scope.antt, Engine/Choose.antt and Engine/ClaimToken.antt model the whole transaction of
-- `ClaimToken`: the scope of a claim key (`claimScope`, guest.go `chooseGuest`), the queued turns and
-- the first that may run (with store/leases.go), and the lease. Engine/Sorted.antt is the order of the
-- queued turns, and Engine/Eligible.antt, Engine/Grants.antt, Engine/Cap.antt and Engine/Paused.antt
-- (with Engine/Pause.antt, `store.Paused`) are about which turn is leased, how many are, and a paused
-- repository.
--
-- Refresh.antt and Refresh/ model the refresh queue of internal/engine/engine.go and store.go:
-- Refresh/Queue.antt webhooks, events, catch-up and expired owners, Refresh/Admit.antt `admitTx`,
-- Refresh/Step.antt the two transactions of `stepRefresh`. Refresh/Keys.antt and Refresh/Moves.antt
-- treat the queue as a state machine, Refresh/Operations.antt and Refresh/Trace.antt run all
-- operations in any order, Refresh/Deliveries.antt, Refresh/Owners.antt, Refresh/Asked.antt,
-- Refresh/Admitted.antt, Refresh/Again.antt and Refresh/Leases.antt are about deliveries, expired
-- owners, requests that arrive meanwhile, and admission. Refresh/Session.antt is the session
-- statements of an admission, Refresh/Settles.antt and Refresh/Ways.antt its branches.
--
-- Policy.antt and Policy/ model internal/policy (policy.go from the decoded file, decision.go,
-- project_key.go, and the guest choices of guests.go); Policy/Integrity.antt is about the policies
-- that it accepts, Policy/Permits.antt about the reviews that they permit. Publish.antt models
-- internal/publish/publish.go; Publish/Refs.antt is about its branches and writes. Acp/Lex.antt and
-- Acp/Fence.antt model internal/acp/fence.go, from the command line on: `fenced_line` counts the
-- levels of nesting left, five at first. Acp/Laws.antt is about what it refuses, Acp/Ends.antt and
-- Acp/Plain.antt about its lexer, Acp/Push.antt about the arguments and options of a push.
-- Acp/Gate.antt models internal/acp/rules.go and permission.go and the gate of fence.go;
-- Acp/Allowed.antt is about what they allow. Common.antt has the shared helpers. The Tests files run
-- the code and apply the theorems.
--
-- Interfaces: `Calls` (Engine.antt) is what a lease transaction calls in other components, which keep
-- their rows in `rest`; each call may fail, and then the transaction rolls back. `Outside`
-- (Policy.antt) is what the policy uses of other packages. The snapshot hash and the decimal printing
-- of a session id are arguments. `Desk` (Engine/Scope.antt) is what a claim reads of sessions, halts
-- and the guest registry, `Rooms` (Refresh.antt) what admission calls to open a session.
--
-- Choices: counters and times (nanoseconds) are unbounded natural numbers, where the code has int and
-- time.Time; the limits and budgets of a policy are integers. A column that holds JSON is kept as its
-- value; the payload of a completed turn keeps the number of its review revision and leaves out the
-- ids of proposals. The artifact of `CompleteWithSteers` is the one that its publishing calls, which
-- write to GitHub for a live lease only, leave before the transaction; `publishPendingComments` after
-- it is one call that changes rows of other components only, and whose error is only logged. Times are
-- compared as numbers, where SQL compares texts of them, which differ in order within one second. A
-- prompt handler's checks and its transaction see one store, though another transaction may run
-- between them. Error values are told apart only as far as code tests them. The loop of `lexCommands`
-- has fuel, of which the length of the line is enough; all other loops are over lists. The lower case
-- of a rune is an argument of the fence. The owner of a request is 0 or 1, so a Bool; the key of a
-- project is parsed by an argument of the claim. The item that GitHub returns is an argument of the
-- second transaction of a step.
--
-- Not modelled: what follows the transaction of `ClaimToken` (the environment of the session), the
-- repair that follows a step, `CatchUpOpenAndLocal`; apply; child sessions; halts over a scope; the
-- log and notification lines; the guest registry; the HTTP server, the runner, the command line, and
-- all that talks to processes, networks or files.
pub mod Acp
pub mod Common
pub mod Store
pub mod Engine
pub mod Policy
pub mod Publish
pub mod Refresh
