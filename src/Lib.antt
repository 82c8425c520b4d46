-- ===== src/Lib.antt =====
-- Gramophile: the core of the record collection manager, modelled and proved.
--
-- The program is a set of background tasks over a stored queue: the server and the tasks put
-- elements into the queue, and one loop takes them out by priority and date and runs the handler
-- that is registered for their type. Beside it the organiser compares two placements of the
-- collection on its shelves and orders the moves between them, after it has laid the collection out
-- by sort, group and width; the checks of the configuration ensure what the layout relies on. The
-- sales tasks copy the shop's sales page by page, prune those that a complete pass has not seen, and
-- lower the prices by their age.
--
-- Queue, the task queue (queuelogic/logic.go):
--   Queue/Element    the elements, their handlers and deduplication keys (proto/gramophile.proto,
--                    background/registry.go, GetDeduplicationKey of the handlers in background/)
--   Queue/Store      the interfaces to pstore, to the protobuf encoding and their laws
--   Queue/State      `type Queue struct` as a record; a Go map is a function
--   Queue/Ops        Enqueue, getNextEntry, delete, ExecuteInternal
--   Queue/Run        one round of the loop in Run: `fate_of` reads its tests on the error, `settle`
--                    does what follows
--   Queue/Drain      Drain
--   Queue/Refines    the abstract view, a list of elements in the order of arrival
--   Queue/Removal, Admission, Contract, Refusal, Choice, Next, Settle, Rounds   the proofs
--   Queue/Memory     a store that meets the laws; Queue/Tests runs and instances
--
-- Org, the placement of records on shelves:
--   Org/Types        placements, snapshots and moves (proto/organisation.proto)
--   Org/Diff         ComputeSlotMoves and OrderSlotMoves (org/diff.go); Kahn's loop runs on fuel, one
--                    round more than there are moves, which Org/Loop shows to be enough
--   Org/Changes      the moves against a description by record
--   Org/Counting, Relax, Visit, Loop, Indices, Pick, Order, Cycles   the proofs of the order
--   Org/Tests        runs and instances
--
-- Layout, the placement of a collection on shelves (org/org.go, proto/organisation.proto):
--   Layout/Types     records, organisations and spaces; float32 is a type with the operations that
--                    the code uses
--   Layout/Sorting   the folder sets by index, each sorted by its key; Layout/Complete what they give
--   Layout/Keys      getLabel, getArtistYear, cleanCatNo, getLabelCatno
--   Layout/Groups    getWidth, grouping by label and breaking up what fits nowhere; Layout/Grouping
--                    the records that they keep
--   Layout/Place     the layout loop on fuel: one round for each element, and for each space one for
--                    each unit and two more, which Layout/Total shows to be enough
--   Layout/Moves     a round case by case; Layout/Total a rule for what the loop keeps
--   Layout/Build     getRecords and BuildSnapshot
--   Layout/Placed, Sequence, Load, Capacity, Snapshot   what is laid out, where and in which order
--   Layout/Tests     runs and instances
--
-- Config, the checks of a user's configuration (config/, moving/config.go):
--   Config/Types     the configuration as far as the checks read it (proto/config.proto)
--   Config/Mandates  the validators that ask for fields, and those of the user level and the moves
--   Config/Shelves   the validator of the organisations; Config/Sound what it ensures
--   Config/Validate  ValidateConfig; Config/Room that it ensures what the layout relies on
--   Config/Apply     setIssue, Filter and Apply
--   Config/Tests     runs and instances
--
-- Classify, the classification of a record (classification/classification.go):
--   Classify/Types   classifiers and selectors (proto/classification.proto)
--   Classify/Rules   the selectors with the cache of locations, and Classify
--   Classify/Cached  Classify without a cache; Classify/Checks ValidateRule and what it ensures
--   Classify/Tests   runs and instances
--
-- Moves, the moves that rules ask for (background/moves.go):
--   Moves/Rules      applyMove, GetFormat and RunMoves, with EnqueueWithIgnore (background/background.go)
--   Moves/Requested  the tasks that RunMoves is to put into the queue; Moves/Tests runs and instances
--   Moves/Stored     the records in pstore (GetRecord and SaveRecordWithUpdate of db/db.go)
--   Moves/Record     MoveRecord; Moves/RecordTests a store in memory, runs and an instance
--
-- Sales, the sales of a user (background/sales.go):
--   Sales/Types      sales, prices and updates (proto/gramophile.proto); Sales/Store the interface to
--                    the stored sales (db/db.go), Sales/Memory a store that meets it
--   Sales/Updates    tidyUpdates
--   Sales/Sync       SyncSales; Sales/Synced and Page what it leaves in the store
--   Sales/Clean      CleanSales (background/cleancollection.go)
--   Sales/Adjust     timeReduce and adjustPrice, over float64 as an interface; Sales/Floor the bounds
--                    of their prices
--   Sales/Adjusting  AdjustSales; Sales/Adjusted what it keeps
--   Sales/Reprice    UpdateSalePrice and ProcessUpdateSale; Sales/Outcome what they leave
--   Sales/Passes     RefreshSales and ReconcileSales, a page at a time; Sales/Chain and Refresh what
--                    a page does
--   Sales/Tests, PriceTests   runs and instances
--
-- Prelude holds the shared types and lemmas, Status the status codes and the result type of the
-- gRPC errors.
--
-- Dates, identifiers and page numbers are natural numbers. The locks are not modelled: each
-- critical section runs alone in its call. Metrics, logs, sleeps and the GitHub issues that the
-- queue files are left out. The clock is an argument.
--
-- Not modelled: the want lists, the intents of background/notes.go, the refreshing of the collection
-- and the other calls of db/db.go, whose state the modelled parts do not read; the server, the
-- clients, the terminal and the tools around them, which are mostly input and output; discogs,
-- pstore and the protobuf encoding, which are other repositories.
pub mod Prelude
pub mod Status
pub mod Queue
pub mod Org
pub mod Sales
pub mod Layout
pub mod Config
pub mod Classify
pub mod Moves
