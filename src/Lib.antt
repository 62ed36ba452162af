-- ===== src/Lib.antt =====
-- The commission engine of mlmforge, engine/network-engine: what its pure parts compute.
--
-- The program. A compensation plan (config/) says how distributors earn from a period's volume. The
-- engine holds distributors in trees (tree/), in boards that fill up, split and cycle (board_plan/), and
-- in streams (streamline/). The calculators (commission/) read a tree, the period's snapshots of the
-- distributors and the volume, and return the earnings with a record of each walk that led to them. All
-- amounts are exact decimals (decimal.rs). A worker process (engine/network-engine-worker) serves these
-- operations to the Go services. Paths below are from engine/network-engine/src.
--
-- How it is modelled. A struct is a record, an enum a data type with the source's variants, a method a
-- function that returns the new state with its result. UUIDs are numbers, and so are texts (rank names,
-- statuses, currency codes), which the code only compares. A `HashMap`, a `BTreeMap` or a set is a list of
-- entries; no theorem depends on its order. Unsigned integers are natural numbers, with the wrap or the
-- saturation written out where the code narrows or adds. Signed integers are `ℤ` of Prelude/Int.antt. A
-- loop is a recursion over its collection, on its counter, or on its budget. Log lines are left out.
--
-- - Prelude.antt and its children: tests, lists, maps, integers and results, with their lemmas.
-- - Decimal.antt: decimal.rs. `Decimal` (`Dec` there) is a mantissa and a scale, as `rust_decimal::Decimal` holds it; an
--   `I512` is an integer, since no value that the operations form reaches 2 ^ 511. `fit` recurs on the
--   scale, which its `while` lowers by one a round, so the recursion is the loop, run to its end. `fast_add`
--   and `fast_mul` are the `i128` path, with each checked operation; `try_add`, `try_sub` and `try_mul` take
--   it or `fit`. Decimal/Exact.antt is about `fit`, Decimal/Sums.antt about the two paths.
--   Decimal/Allocate.antt is `allocate_largest_remainder`, with its sum in Allocate/Whole.antt and its length in Allocate/Length.antt; Decimal/Divide.antt
--   is `sum`, `floor_div` and `mul_div_trunc`, with Divide/Floor.antt and Divide/Truncated.antt. Decimal/Ratio.antt is `sum_exceeds`,
--   `div_ratio`, `mul_div_ratio` and the rounding of a quotient, which recurs on the places left to drop; Ratio/Nearest.antt is about it. A `U1024` is a number. Not in it yet: parsing.
-- - BoardPlan.antt: BoardPlan/Board.antt is board_plan/board.rs, BoardPlan/Config.antt is
--   config/board_plan.rs with the data of board_plan/types.rs and board_plan/error.rs, BoardPlan/Engine.antt
--   and BoardPlan/Engine/Ops.antt are board_plan/engine.rs: the state, placement and cycling, and then the
--   public operations. `Uuid::new_v4` is a parameter, a sequence of identifiers without repetition, of which
--   the state counts those drawn. The cascade of cycles recurs on `max_cascade_depth`, the budget that the
--   source itself counts down. Engine/Conserve.antt and its children follow each member through an
--   operation; Board/Subtree.antt, Board/Index.antt and Board/Count.antt are about the positions of a board.
-- - Tree.antt: Tree/Node.antt is tree/node.rs and tree/error.rs, Tree/Navigator.antt is the trait of
--   tree/navigator.rs, as a record of its methods, which the calculators take as a parameter.
--   Tree/Arena.antt and Tree/Arena/Walk.antt are tree/arena.rs, what changes the slots and what walks over them, with `get_position` in
--   Arena/Position.antt; Arena/WellFormed.antt says what holds of an arena between operations, Arena/Upline.antt,
--   Arena/Downline.antt, Arena/Subtree.antt and Arena/Descent.antt are about the walks, Arena/Slots.antt,
--   Arena/Moved.antt and Arena/Distinct.antt carry lemmas. Tree/Unilevel.antt is tree/unilevel.rs, and Unilevel/Navigate.antt
--   its queries by user, with the trait's implementation: the macros `impl_arena_delegations!` of
--   tree/arena.rs and `impl_tree_navigator!` of tree/navigator.rs. Unilevel/Placed.antt, Unilevel/Added.antt and
--   Unilevel/Rooted.antt are about placement; Unilevel/Detached.antt, Unilevel/Removed.antt, Unilevel/Removal.antt and its children
--   about removal. Tree/Binary.antt is tree/binary.rs, on the same arena, with its queries in Binary/Navigate.antt; Binary/Slotted.antt says
--   how the slot map agrees with the arena, Binary/Reordered.antt, Binary/Placed.antt and Binary/Added.antt are about placement,
--   Binary/Removal.antt about removal. A missing entry of the slot map, at which the code panics, reads as open slots. A walk runs for a number of rounds, the slots and for an upline one more, and returns what it has left to do;
--   in a well-formed arena nothing is left. The nil UUID is 0, an index out of range reads as a cleared slot
--   where the source panics, the end of the free list is the head of the model's, the depth of a new
--   node is reduced modulo 2 ^ 32, and an `expect` that fails is an error.
-- - Commission.antt: Commission/Types.antt is commission/types.rs with the plan's data that the calculators
--   read (config/commission.rs, config/eligibility.rs). Commission/Eligibility.antt is `is_eligible`
--   of commission/mod.rs and the preparation in commission/walk.rs; Commission/Checks.antt the checks there
--   (Eligibility/Cache.antt, Eligibility/Enrolled.antt, Eligibility/PassUp.antt, Eligibility/Tiers.antt and Checks/Lowest.antt are about them);
--   Commission/Walk.antt its `walk_level_commissions`: `visit` is the body of the loop over the upline below
--   its two breaks, `walk_upline` that loop, `walk_sources` the loop over the volume. Walk/Rounds.antt takes
--   one round apart, Walk/Levels.antt counts levels, Walk/Compression.antt is about which nodes count, and
--   Walk/Audit.antt and Walk/Earned.antt about whole calls. Commission/Finalize.antt is commission/walk_order.rs,
--   commission/finalize.rs and `sort_earnings`; Finalize/Order.antt is about the numbers of the walks and
--   Finalize/References.antt about the earnings' references to them.
--   Commission/Unilevel.antt is commission/unilevel.rs, and
--   Unilevel/Resolution.antt is about its result. Commission/BoardCycles.antt is
--   commission/board_plan.rs, and BoardCycles/Cap.antt is about its cap. Commission/Binary.antt is commission/binary.rs:
--   Binary/Config.antt is its data and config/binary.rs, Binary/Prep.antt the preparation, Binary/Settle.antt the caps and the carrying, Binary/Pairing.antt and
--   Binary/CycleStep.antt the two calculations; Binary/Carried.antt, Binary/Keys.antt and Binary/NextPeriod.antt are about
--   what is carried forward, Binary/Settled.antt, Binary/Earned.antt, Binary/Priced.antt and Binary/Paid.antt about who earns and how much. A chunk of earnings is a list; `net_off`, which `validate` refuses of cycles, leaves the legs.
--
-- Parameters. `rust_decimal`'s rounding to a number of places, its division and its `normalize`, and the currency table (a data file) are
-- functions that the calculators take. `validate_broad_pct` only logs in a release build, and is left out.
-- `assemble` panics on an earning whose walk is missing: `none` in the model.
--
-- Not modelled: the matrix tree, the arena's check of a restored snapshot, the streamline engine, rank evaluation, the matrix,
-- stairstep, generation and streamline calculators and the validation of plans, which are still to be
-- added; serde glue, the worker's line protocol and signals, and the Go services, which are input and
-- output or another language.
pub mod Prelude
pub mod Decimal
pub mod BoardPlan
pub mod Tree
pub mod Commission
