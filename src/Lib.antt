-- ===== src/Lib.antt =====
-- The NestJS back end of a student start-up programme: teams apply to calls, reviewers verify,
-- evaluate and decide, and approved applications become projects. This library models the core of
-- it: the life of an application, the calls, and the teams with their invitations.
--
-- Parts and files.
-- - Prelude: Boolean tests, equality as an instance, the array methods, exceptions as values, trim.
-- - Domain, Domain/Roles: the enums of prisma/schema.prisma; src/common/auth/role-groups.ts.
-- - Store: a row type for each table and the database `Db` that holds them. Store/Tables has
--   findUnique, update and updateMany with their laws; Store/Transactions has `$transaction`.
-- - Applications/Repository, Rules, Access: the queries of
--   src/applications/applications.repository.ts, and the checks of src/applications/rules and of
--   src/applications/application-access.service.ts.
-- - Applications/Transitions and Lifecycle (transitionLifecycle, transitionReviewState and the nine
--   methods from startOnboarding to archive), Decision (createEvaluation, listEvaluations,
--   createDecision), NeedsInfo (createNeedsInfoItem, replyToNeedsInfoItem, resubmit), Documents
--   (attachDocument, the document slots and completeness), Draft (createDraft, submit), Budget
--   (updateGrantBudget), Mail (the e-mail jobs): src/applications/applications.service.ts with the
--   repositories of needs-info, documents and evaluations.
-- - Applications/Calls: src/applications/calls; Calls/Admin has the methods of
--   admin-calls.service.ts, Calls/Steps what they keep.
-- - Applications/Signals: src/applications/eligibility-signals.
-- - Applications/History: the lifecycle graph, the replay of the status events, and the invariant
--   `IsValid`; its children show that every operation keeps it.
-- - Applications/Runs: interleaved runs of requests. Applications/Outcomes: what each request gives.
--   Applications/Tests: the theorems at concrete databases.
-- - Teams/Repository and Invitations: src/team/team.repository.ts and
--   src/team/invitations/invitation.repository.ts. Teams/Membership and Lifecycle:
--   src/team/team.service.ts. Teams/Tokens, Issue, Accept and Resend:
--   src/team/invitations/invitation.service.ts. Teams/Roster: the invariant of these tables, and that
--   every request keeps it. Teams/Runs, Outcomes and Tests as for the applications.
--
-- A method is a function from the database to its result or exception and the database that it
-- leaves. A transaction is a function `Tx`; an exception undoes its writes. Under READ COMMITTED, the
-- default, other transactions may commit after its reads and before its first write: they are the
-- function `between`. Under SERIALIZABLE there are none. Later statements of one transaction see what
-- the transaction has written and no further commits: each conditional update locks its row. E-mail
-- jobs are queued after the commit; whether the queue takes a job is the parameter `accepts`. The
-- clock is an argument. The arithmetic of JavaScript numbers, which the signals use, is the parameter
-- `Numbers`, and `toLowerCase` the parameter `lower`. The loop that draws invitation tokens has no
-- bound in the source: the draws are the parameter `draws`, and `rounds` is fuel for each loop, of
-- which one more than there are reserved tokens is enough where that many draws are distinct; where
-- it runs out, the exception `out_of_fuel` stands for the loop. Every other loop is over a list or
-- counts its attempts down.
--
-- The lifecycle graph is the code's: docs/PROGRAM_A_STATUS_MAP.md lacks its edge from
-- FORMALLY_VERIFIED to APPROVED. `submit` checks DRAFT and then updates by id alone, so a request
-- that commits in between can be overwritten. Runs contain such submissions; what is said of runs of
-- the applications is said of those without them, by the hypothesis `IsTimely` of Applications/Runs.
--
-- The dates of messages are left out of their texts. The partial unique indexes on open applications
-- and on active documents are checks of the two `create` queries. Foreign keys are not checked: a
-- view whose call or team is missing is not found.
--
-- Not modelled: removing a team, which takes with it all that belongs to it; controllers, DTO
-- mappers and listings, which write nothing; object storage, queues and mail; the sections, Program A
-- tracking, Program B, organizations and accounts, whose steps stand in a run as `Elsewhere`, which
-- leaves the lifecycle of each application, and the members and invitations of each team, alone.
pub mod Prelude
pub mod Domain
pub mod Store
pub mod Applications
pub mod Teams
