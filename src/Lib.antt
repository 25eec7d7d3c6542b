-- ===== src/Lib.antt =====
-- The trusted core of Throughline, modelled from its TypeScript sources: captured texts and their
-- chunks, the evidence and the confidence of facts and their acceptance, the decisions of the
-- authorization service, the rules of the work graph, scoped keys, and the outbox of domain
-- notifications with its relay.
--
-- A source text is captured (packages/content), cut into chunks and stored. A claim quotes a span of a
-- chunk; the truth ledger checks the quotation against the stored source before it admits the claim,
-- and makes an accepted fact of claims that agree, with a confidence and an access class computed from
-- them. Who may read or change any of this is decided by packages/authorization, inside a transaction,
-- from the member's role, the grants on a space and the spaces above it, and access classes. Changes are told to other systems by
-- rows of ops.product_outbox_events: the relay (apps/outbox-relay) claims a row, publishes its event
-- and marks it, each in a transaction of packages/db, under the constraints and the transition trigger
-- that packages/db/migrations puts on the table.
--
-- The files, by source:
--   Core: packages/core-types/src/trust-primitives.ts. AccessClass, ScalarText (isUnicodeScalarString,
--     unicodeScalarLength, sliceUnicodeScalarSpan), StoredText (normalizeStoredSourceText), and
--     Whitespace, the white space and control characters of the string methods.
--   Content: packages/content/src/source-text.ts. Chunking (chunkNormalizedSource, chooseBoundary,
--     assertChunkReconstruction) and Capture (normalizeSourceText).
--   WorkGraph: packages/work-graph/src/work-graph.ts.
--   Truth: packages/truth-ledger/src. Validation (validation.ts), Confidence (confidence.ts), SourceSpan
--     (source-span.ts, with verifySnapshot in SourceSpan/Verify), PredicateRegistry
--     (predicate-registry.ts) and AcceptedFact (types.ts, with constructAcceptedFactAtTrustedBoundary in
--     AcceptedFact/Construct); Timestamp is isDomainNotificationTimestamp of
--     packages/core-types/src/domain-notification.ts.
--   Authorization: packages/authorization/src/authorization-service.ts. Terms holds the types of
--     types.ts and the sets of actions, Tables the rows that the queries read. Spaces is
--     canReadSpaceResource, with the recursive queries in Spaces/Walk and the re-reading under locks in
--     Spaces/Locking; Actors, Resources, Mutations, TruthDecision and ResourceDecision are the decisions
--     on claims, facts, persons and resources, and Service is decideInTransaction.
--   Db: packages/db/src. ProductOutbox is product-outbox-repository.ts, and holds the rows, the handles and the
--     formats; Claim, Publish and Failure are claimNext, publishClaimed and recordFailure; Contract is
--     the table's CHECK constraints and trigger, in
--     packages/db/migrations/0003_b1_0_canonical_product_outbox.sql; History is any sequence of them.
--     Migrations is applyMigrations of packages/db/src/migrations.ts, with the check of the journal in
--     packages/db/src/b1-catalog-contract.ts.
--   Relay: apps/outbox-relay/src/product-relay.ts.
--   Tenancy: packages/tenancy/src/scoped-resource-keys.ts.
--   Prelude: what the others share: strings, lists, sorting, and Result, the outcome of code that throws.
--
-- How the code is written here. A string is the list of its UTF-16 code units. Code that throws returns
-- a Result. A table is a list of rows, and a statement of SQL is a function on it; an operation takes
-- what it meets from outside (clocks, the random token, held row locks, the database role, the decision
-- of the authorization service, the publisher's answer, the fate of the commit) as the fields of a
-- record, and gives the new table and its outcome. Times are natural numbers, microseconds in Db.
-- SHA-256, the normal form NFC, the UTF-8 codec, Date.parse, domainToASCII and the parser and the
-- serializer of notifications (Codec) are parameters; what is relied on of NFC is NormalForm.
--
-- Other transactions may commit between two queries of a decision of the authorization service: the
-- model gives every query a database of its own. Each runs at most once in a decision but the one that
-- locks a grant, which runs for a direct and then for an inherited grant, on the same database here.
--
-- The loop of chunkNormalizedSource runs on fuel, one unit for each scalar of the text and one more:
-- each round ends a chunk after at least one scalar. The recursive query over the parents of a space
-- climbs as many steps as the table has rows, which is all of it where no space is its own ancestor.
-- The other loops are structural.
--
-- Not modelled: the parsers of unknown values, the SQL repositories of content, the work graph and the
-- truth ledger, the command buses, in the authorization service the decisions on the foundation proof,
-- the relays and the worker and the batched authority of relationships, the foundation relay and the
-- worker, the catalog contracts (parameters of Migrations), the reset before the migrations, and the
-- applications, which are input and output or are still to come; and row-level security and the settings of a tenant transaction.
pub mod Prelude
pub mod Core
pub mod Content
pub mod WorkGraph
pub mod Truth
pub mod Db
pub mod Relay
pub mod Tenancy
pub mod Authorization
