-- ===== src/Lib.antt =====
-- A model of the core of the orbit command line and of its onboarding daemon.
--
-- The daemon hands a workspace over to a new owner or engineer: an administrator creates a grant
-- for an email, the recipient proves the code of the grant or of a challenge, and a rate limiter
-- stands before both. Grants and challenges live in maps in memory or behind the interfaces
-- GrantStore and ChallengeStore, which the SQLite adapter implements. The command line applies
-- workspace migrations, suggests ports from the block of a project, keeps invitations in a file,
-- writes environment files, and merges a pull request only through a gate on its checks. The owner
-- of the platform seals a root secret in a vault, an engineer is onboarded in steps with a checkpoint
-- after each, and a release is merged through a gate of its own.
--
-- Files and the code that they model (paths from the root of the repository):
--   Prelude       tests on numbers, lists, Go strings, maps, ints and (value, error) pairs
--   Owner/Code    pkg/owner/domain/grant.go and challenge.go: normalising an email, the formats of the
--                 codes, their salted hashes
--   Owner/GrantRecord, Owner/ChallengeRecord  the records of pkg/owner/domain/grant.go and challenge.go,
--                 the stores behind the managers, and what these do to one record
--   Owner/Grant   pkg/owner/domain/grant.go: the GrantManager with CreateGrant, RegisterGrantWithCode,
--                 VerifyGrant, GetGrant, ListActiveGrants, RevokeGrant and Clear;
--                 Memory and Lockout (without a store), Persistent (with one), Frame (both)
--   Owner/Challenge  pkg/owner/domain/challenge.go: ChallengeManager, in the same way
--   Clierr        pkg/clierr/clierr.go: the kinds of an error, with machine codes and exit codes
--   Owner/Vault   pkg/owner/domain/types.go and crypto.go: OwnerRecord, and the interface Vault of
--                 pkg/owner/application/ports.go with its laws
--   Owner/VaultFile  pkg/owner/infrastructure/filestore/store.go and vault.go: the vault in a file;
--                 Saving: what a save leaves, and that the file keeps the laws
--   Owner/Service pkg/owner/application/service.go and ports.go: Sealing has Init and Verify, Secret has
--                 RotateSecret, ResetTOTP and Status, Granting has Grant; Failures, Repeating and
--                 OwnCode: what an error leaves, a second Init, the check of a code in the process
--   Onboard/Stage, Onboard/Options, Onboard/Session, Onboard/Sanitize  pkg/onboard/domain: the stages,
--                 the options and modes, the session and the claim, what a bundle masks
--   Onboard/SessionFile  pkg/onboard/infrastructure/sessionstore/manager.go: the session in a file
--   Onboard/Machine  pkg/onboard/application/ports.go: what the flow asks of the machine
--   Onboard/Steps, Onboard/Run  pkg/onboard/application/service.go: the steps, and Run with inception,
--                 reset, rollback and the bundle; Landing, Progress and Resuming: where a step leaves
--                 the session, what a list of steps reaches, a flow that is taken up again
--   Release       pkg/release/domain/release.go; Ports, Select, Wait, Promote, Tiers and Status:
--                 pkg/release/application/ports.go and service.go; Mirror, Cleared and Gated: the wait against
--                 that of `pr merge`, and what lets Prod merge
--   Sqlite/Grants, Sqlite/Challenges  pkg/onboard/infrastructure/sqlite/grants.go and challenges.go:
--                 the stores, over a record with one function for each SQL statement; they fill the
--                 interfaces that the managers take
--   Sqlite/Events pkg/onboard/infrastructure/sqlite/ratelimit.go: the store that the limiter takes;
--                 Limits: how many requests pass on it
--   RateLimit     pkg/onboard/infrastructure/server/ratelimit/limiter.go: NewLimiter, AllowKey and
--                 Prune; Client: ExtractClientIP; Middleware: AllowIP, Allow and the handler;
--                 Window, Requests and Pruning: the sliding window, sequences of calls, the sweep
--   Migrate       pkg/migrate/application/engine.go and pkg/migrate/domain/domain.go: Apply and
--                 Pending; Status: RunPending and Status; Records, Reference and Pending: what Apply
--                 leaves, against the functions Run of its migrations
--   Ports         pkg/ports/domain/domain.go, and Allocate of pkg/ports/application/application.go;
--                 Blocks and Search: the blocks and the search for a dynamic port
--   Gate          pkg/pr/domain/checks.go and pkg/pr/application/gate.go: EvaluateChecks and
--                 enforceGate; Checks, Waiting and Merging: the verdict, the loop, what passes
--   Invites       pkg/invite/infrastructure/filestore/store.go: SaveInvite, GetInvite, RevokeInvite and
--                 RevokeAllInvites on the records of a file; Lookup, Revoking and RevokingAll: what is
--                 found after them; Token and Secret: pkg/invite/domain, with GenerateToken,
--                 ValidateToken, ResolveSecret and ParseTTL; Ports, Service and Listing:
--                 pkg/invite/application/service.go; Issuing and Creating: what was signed and stored
--   Edge          pkg/onboard/infrastructure/server/server.go: the state of the daemon, its limits, its
--                 cache of claims and handleHealth; Claim: handleClaim; Admin and Ledger: the handlers
--                 of challenges, verifications and grants; Guards, Caching, Keeping, Frames,
--                 LedgerFrames, History and Replaying: what a limit leaves, what the cache keeps under
--                 which calls, a claim that is repeated; Spent, Answers and
--                 Redeeming: a code that is sent a second time
--   Env           pkg/env/domain/generate.go and parse.go: FormatValue and unquoteEnvValue; Quoting:
--                 that one undoes the other
--
-- State and effects. A manager, a limiter and an engine are records; an operation takes the state
-- and answers the result with the state after it. The mutexes make each call one step, so that
-- concurrent clients are sequences of calls in any order. The limiter with a store and the engine
-- take no lock: there a sequence stands for calls that do not overlap. A pointer that a manager
-- hands out is taken as a copy of the record. The order of iteration of a map is that of its list.
--
-- Time. Times and durations are nanoseconds, times since Go's zero time, as natural numbers; `clock
-- i` is the i-th reading of the clock in a call. A time from which a duration is subtracted lies
-- after the zero time by more than it, so that natural subtraction never stops at 0 there; and no
-- time or duration reaches 2^63 nanoseconds after the start of the Unix epoch.
--
-- Machine integers. Ports keeps a Go int as its residue modulo 2^64, and its theorems bound the
-- number of the project; the products of ParseTTL and of the time to live in handleAdminGrantCreate
-- wrap at 64 bits. The other counters are lengths of lists in memory or numbers of attempts,
-- far below 2^63, and are natural numbers; an argument that may be negative is an integer with a
-- sign.
--
-- Texts are lists of bytes. Those on which the code calls strings.ToLower, TrimSpace or Split are
-- taken as ASCII, where these functions act byte by byte.
--
-- Loops. All are structural recursions on a list or on the slots left, but the waiting of the gate
-- and of a release, which have fuel for their polls; as many as there are up to the first poll at or
-- after the timeout are enough, which is proved of the gate, and the wait of a release is proved to
-- take the same polls.
--
-- Parameters. SHA-256, the draws of crypto/rand, the SQL engine (one function for each statement),
-- the packages net, strconv, encoding/json, encoding/base64 and crypto/hmac, the file of the
-- invites, the forge, the machine that is onboarded, the provisioner and the mailer of the daemon, and
-- the store of migrations. What a theorem needs of one is among its hypotheses: that a store reads back
-- what it saved, that an UPDATE of a row is seen by a later SELECT.
--
-- Not modelled: the printed durations and emails of invites, the reading and the schema of
-- environment files, the manifest, and the rules of the updater, the doctor, the audit and the
-- configuration, which no modelled part calls; the routes, the middleware and the install page of
-- the daemon; printed lines and progress events; HTTP routes and clients, the terminal interface,
-- flag parsing, files and processes, whose work is input and output.
pub mod Prelude
pub mod Clierr
pub mod Owner
pub mod Sqlite
pub mod RateLimit
pub mod Migrate
pub mod Ports
pub mod Gate
pub mod Invites
pub mod Env
pub mod Onboard
pub mod Release
pub mod Edge
