-- ===== src/Lib.antt =====
-- Verification library of the Stasharr portal, the self-hosted console of apps/sp-api and
-- apps/sp-web. It models parts of the API's own logic as functions and proves what makes them
-- correct.
--
-- The files that model code, and the code:
--
--   Auth.LoginAttempts   apps/sp-api/src/auth/login-attempt.service.ts. A method is a function of
--                        the attempts map and the time; proofs in Lockout and Streak.
--   SceneStatus          apps/sp-api/src/scene-status/scene-status.resolver.ts. The loop over the
--                        queue is a recursion on the list with its flags; proofs in Priority and
--                        Verdict.
--   RuntimeHealth        apps/sp-api/src/runtime-health/runtime-health.service.ts. Records holds the
--                        records and what is written; Service the calls over a table and the cache;
--                        proofs in Service.Cache, Service.Coherence and Service.Threshold.
--   Indexing.SyncState   apps/sp-api/src/indexing/sync-state.service.ts. Proofs of single calls in
--                        Lease, of whole runs in Runs, of interleaved runs in Exclusion.
--   Auth.Records,        apps/sp-api/src/auth/auth.service.ts, auth.types.ts, admin-session.guard.ts.
--   Auth.Sessions        The state of a request is a World: the admin, the session table, the throttle,
--                        the cached context and the changes to the cookie. Proofs in Sessions.Verdict,
--                        Sessions.Resolve and Sessions.Guard.
--   Auth.Accounts        The account's handlers of the same service. Proofs in Accounts.Bootstrap,
--                        Accounts.Login, Accounts.Refused, Accounts.Logout, Accounts.Password
--                        and Accounts.Revocation.
--   Catalog.Refs         apps/sp-api/src/providers/catalog/catalog-provider.util.ts, the references
--                        PROVIDER|id. Proofs in Refs.Roundtrip and Refs.Collect.
--   Catalog.Selection    The same file, the choice of a provider; proofs in Selection.Pick.
--   Catalog.Service      apps/sp-api/src/providers/catalog/catalog-provider.service.ts; proofs in
--                        Service.Agree and Service.Ties.
--   HybridScenes         apps/sp-api/src/hybrid-scenes/hybrid-scenes.service.ts. Proofs of the loop in
--                        Cover and Pages, of the feed in Feed. The loop runs on fuel: as many turns as scenes
--                        may be inspected, since each turn but the last inspects one.
--   Setup                apps/sp-api/src/setup/setup.service.ts; proof in Setup.Complete.
--   Indexing.SceneIndex  apps/sp-api/src/indexing/indexing.service.ts, the index of scenes: the row that a
--                        patch makes; Merge one patch for each scene; Summary the counters and their
--                        deltas; Store the two tables; Apply the chunks, their transactions and the
--                        retries. Proofs in Overlay (merged patches), Deltas, Batch, Sound and Committed
--                        (one transaction), Attempts (the retries), Chunks (order and slices), Runs and
--                        Invariant (the whole call). The slices run on fuel, one for each patch, and
--                        Chunks shows that they hold every patch.
--   SceneIndex.Snapshot  The summary as the other services read it, and the diagnostics.
--   SceneIndex.Seed      The row of a scene that was just requested.
--   Indexing.Queue       The same file, Whisparr's queue by movie and the item kept of it; proofs in
--                        Queue.Groups and Queue.Summaries.
--   Indexing.Scheduler   apps/sp-api/src/indexing/indexing.scheduler.ts. The set of running jobs stands
--                        beside the tasks in flight; the diagnostics are a state with the environment as
--                        a function. Proofs in Scheduler.Overlap, over any order of ticks and ends, and
--                        Scheduler.Snapshots.
--   Auth.SessionCookie   apps/sp-api/src/auth/session-cookie.service.ts, with decodeURIComponent on code
--                        units. Proofs in SessionCookie.Signed and SessionCookie.Header.
--   Acquisition          apps/sp-api/src/acquisition/acquisition.service.ts over the index; proof in
--                        Acquisition.Totals.
--   Requests             apps/sp-api/src/requests/requests.service.ts. The adapters are parameters; the
--                        state is the index, the request table, the movies sent to Whisparr and the
--                        refreshes asked for. Proofs in Requests.Noted and Requests.Submitted.
--   Integrations         apps/sp-api/src/integrations/integrations.service.ts. The values and checks;
--                        Writes the calls over the table of the integrations and the runtime health.
--                        Proofs in Provider and Changes (one provider at a time) and Chosen (what the
--                        instance uses).
--
-- Shared modules: Prelude (numbers, tests, lists), Prelude.Text (strings as UTF-16 code units),
-- Prelude.Dict (the JavaScript Map), Prelude.Results (handlers that return or throw), Database (the
-- Prisma calls on one table as an interface with laws) and Database.Memory (a table that meets it).
--
-- How things are modelled. Dates and clock readings are milliseconds as numbers, passed in. Strings
-- are lists of code units; toLowerCase and toUpperCase act on the ASCII letters. Prisma is a
-- parameter: a state of type Rows with the documented effect of each call on findUnique. A call
-- runs to its end before the next one starts, except in Indexing.SyncState.Exclusion, where runs of
-- a job interleave at their database calls, and in Indexing.Scheduler.Overlap, where the ticks of
-- the timers and the ends of the tasks come in any order. Loops are recursions on lists, or run on
-- fuel: the loop of HybridScenes, and in SceneIndex.Apply the slices and the three attempts.
--
-- Not modelled: the web client, controllers, DTO validation, the HTTP adapters of Stash, StashDB and
-- Whisparr (their results are inputs), logging, and the services that PROJECT.json lists as such.
pub mod Acquisition
pub mod Auth
pub mod Catalog
pub mod Database
pub mod HybridScenes
pub mod Indexing
pub mod Integrations
pub mod Prelude
pub mod Requests
pub mod RuntimeHealth
pub mod SceneStatus
pub mod Setup
