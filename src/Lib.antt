-- ===== src/Lib.antt =====
-- The core of a graphene chain: the parts of libraries/chain that hold and move value.
--
-- An amount of an asset is a checked 64-bit integer with the id of its asset. Prices compare and
-- convert amounts, price feeds derive call prices from them, vesting balances release an amount
-- over time, and the account balances are adjusted by signed amounts in every operation.
--
-- Prelude holds the natural numbers, lists and options, Prelude/Int the integers, Prelude/Words the
-- wrap-around of machine words, and Prelude/Results the exceptions, as values of a result type. The
-- checked integer `fc::safe<int64_t>` of the fc library, which is not in the repository, is the
-- record SafeInt: it raises when a value does not fit 64 bits and is exact when it does. int64_safe
-- is an instance of it. An operation that raises leaves no state, as the undo session of the caller
-- discards what it has changed.
--
-- Asset is `asset` (libraries/chain/include/graphene/chain/protocol/asset.hpp). Price is `price` in
-- the same file and libraries/chain/protocol/asset.cpp; the products are taken in 128 bits as in
-- the code. Feed is `price_feed`; boost::rational, which is not in the repository, is the record
-- Rational, and the loops that halve a fraction have 22 steps, which a proof shows to be enough for
-- amounts in supply. Vesting is libraries/chain/include/graphene/chain/vesting_balance_object.hpp
-- and libraries/chain/vesting_balance_object.cpp: both policies, the static variant of them and the
-- operations of the balance object. Ledger is `account_balance_object` and database::get_balance
-- and database::adjust_balance of libraries/chain/db_balance.cpp; a list stands for the index,
-- keyed by the owner and the asset.
--
-- Authorization is libraries/chain/include/graphene/chain/is_authorized_asset.hpp and
-- libraries/chain/is_authorized_asset.cpp, and Transfer is libraries/chain/transfer_evaluator.cpp
-- and libraries/chain/protocol/transfer.cpp: an operation is validated, evaluated and applied. The
-- fee of an operation is paid by code that is not modelled.
--
-- Interest is the part of libraries/chain/asset_object.cpp that prices a locked balance: the daily
-- rate is raised to a number of days by squaring, in at most 32 steps as an exponent has 32 bits,
-- and scaled by how full the interest pool is. The 32-bit arithmetic on days wraps, and a division
-- by zero raises. Narrowing to 64 bits is done by the boost library, which is not in the
-- repository: the record Narrowing stands for it.
--
-- Locking is libraries/chain/lock_balance_evaluator.cpp, libraries/chain/protocol/lock_balance.cpp
-- and libraries/chain/include/graphene/chain/locked_balance_object.hpp: an account locks an amount,
-- the interest pool adds the profit, and the account unlocks the two after the period, or the
-- amount alone before; a donation adds to the pool. Locking/Operations holds the operations, and
-- Locking/Reach any sequence of them with changes elsewhere in between. The lock data of an asset
-- are a field of the asset, as each is created for one.
--
-- Forks is libraries/chain/fork_database.cpp and
-- libraries/chain/include/graphene/chain/fork_database.hpp: the tree of recent blocks. A list
-- stands for the multi-index of items, and a weak pointer is the id of an item that the index
-- holds. Ids and numbers of blocks come with the block, as they are made by hash functions of
-- another repository. Branch is the way back from two blocks to where they fork; its loops are on
-- fuel, and more than the highest number of a block is enough, as each link goes down by one.
--
-- Permits is libraries/chain/withdraw_permission_evaluator.cpp,
-- libraries/chain/include/graphene/chain/withdraw_permission_object.hpp and
-- libraries/chain/protocol/withdraw_permission.cpp: an account lets another withdraw up to a limit
-- in each period. Several claims in a period are accepted up to the limit, though the doc of the
-- operation allows one.
--
-- Undo is libraries/db/undo_database.cpp with libraries/db/include/graphene/db/undo_database.hpp,
-- and the part of libraries/db/object_database.cpp,
-- libraries/db/include/graphene/db/generic_index.hpp and
-- libraries/db/include/graphene/db/object_id.hpp that it works with. The objects are a function
-- from ids to values of any type, the unordered maps of an undo state are lists of entries, and the
-- loops over them are loops over the lists. Restore holds the undoing of a state, Merge and
-- Sessions the merge and the sessions; Tracking, Invariant and Changes are what a state says of the
-- objects, and Roundtrip, Nested and Committed what is undone. A session drops its states when the
-- stack is larger than its maximal size; how the stack is cut is part of the theorems.
--
-- Market is libraries/chain/db_market.cpp and limit_order_object of
-- libraries/chain/include/graphene/chain/market_object.hpp, with pay_fee of
-- libraries/chain/account_object.cpp and the placing of an order of
-- libraries/chain/market_evaluator.cpp: two limit orders are matched, each is filled, pays the fee
-- of the market, and is culled if what is left of it is too small. Value says what the market holds
-- of an asset; Fill, Conserve and Match are about what each step does to it. The walk through the
-- order book, call orders, settlements and black swans are not modelled.
--
-- Cashback is libraries/chain/account_object.cpp, from cut_fee to process_fees, and
-- deposit_lazy_vesting, deposit_cashback and deposit_witness_pay of libraries/chain/db_balance.cpp:
-- what is pending of the fees of an account is split and paid into vesting balances, which Vesting
-- models. Process has the split, Value and Conserve what has been paid in all, Split how large each
-- part is.
--
-- Schedule is libraries/chain/db_witness_schedule.cpp: the times of slots, the slot of a time, and
-- the witnesses of the slots, which are shuffled by a random generator of 64-bit words. Slots has
-- the times and Shuffle the order of the witnesses. Where an index of the shuffle would be out of
-- range, the code has no defined behaviour, and the model no result. Counting the bits of a number
-- belongs to a library and is a parameter.
--
-- Grants is libraries/chain/vesting_balance_evaluator.cpp: an account makes a vesting balance of
-- Vesting from its balance in Ledger, and the owner draws on it. Value says that neither makes
-- value.
--
-- Files below a module of the same name hold its theorems, and those named Tests its runs at
-- concrete inputs.
--
-- Not modelled: the network, the wallet, the applications and their APIs, the plugins, the files of
-- the object database and its observers, block production and maintenance, and the parts of the
-- chain that are listed above by no file.
pub mod Asset
pub mod Authorization
pub mod Cashback
pub mod Feed
pub mod Forks
pub mod Grants
pub mod Interest
pub mod Ledger
pub mod Locking
pub mod Market
pub mod Permits
pub mod Prelude
pub mod Price
pub mod Schedule
pub mod Transfer
pub mod Undo
pub mod Vesting
