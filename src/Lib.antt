-- ===== src/Lib.antt =====
-- fusotao: a model of the pallets that keep the books of the Fusotao chain.
--
-- The program is a Substrate runtime. pallets/token keeps the balances of all tokens but the chain's
-- own, which pallet_balances keeps. pallets/verifier hosts a user's funds for a dominator, an offchain
-- matcher of orders, and takes stakes on dominators; a dominator proves each change of its state by
-- leaves of a sparse Merkle tree, and the pallet settles the change in the books. pallets/fuso-support
-- holds the traits by which the pallets call each other. pallets/reward pays makers for the liquidity that
-- is taken, pallets/market keeps the brokers and the trading pairs, pallets/indicator the prices, and
-- pallets/foundation releases locked funds by a schedule. pallets/chainbridge lets relayers vote on calls
-- that come from other chains, and numbers the transfers that leave; pallets/chainbridge-handler moves the
-- assets of both.
--
-- Prelude holds the names that all files share: Boolean tests on the native numbers, the integers of Rust
-- (Prelude/Words), and lists (Prelude/Lists).
--
-- Support models what lies under the pallets. Support/Storage is a `StorageMap` as an association list,
-- Support/Dispatch the errors and results of pallets (a call that fails leaves the state as it was),
-- Support/XToken pallets/fuso-support/src/external_chain.rs, Support/Constants the constants of
-- pallets/fuso-support/src/lib.rs, and Support/Asset the traits `Token` and `ReservableToken` of
-- pallets/fuso-support/src/traits.rs as a record of operations, with the laws on reserved balances that
-- the pallets above rely on.
--
-- Token models pallets/token/src/lib.rs. Token/Types has its storage as the record `State` and its `Config`,
-- whose fields are what pallet_balances and the runtime supply. Token/Accounts has `transfer_token`,
-- `try_mutate_account`, `reserve`, `unreserve` and `repatriate_reserved`, Token/Supply `issue`, `create`,
-- `mark_stable`, `do_mint`, `do_burn` and `associate_token`, Token/Decimals the conversions between decimals,
-- and Token/Views what the pallet answers without a change. Token/Invariant says when the books are in
-- order, and Token/Conservation, Token/Minting, Token/Listing and Token/History carry that through the
-- operations. Token/Effects and Token/Rounding are about single operations. Token/Trait makes the pallet an
-- implementation of Support/Asset, given the documented behaviour of pallet_balances.
--
-- Verifier models pallets/verifier/src/lib.rs over any implementation of Support/Asset. Verifier/Types has
-- its storage and `Config`, Verifier/Reserves `reserve`, `unreserve` and `clear`, Verifier/Custody
-- `authorize_to` and `revoke_from`, Verifier/Staking the stakings and the sharing of profits,
-- Verifier/Dominators the life of a dominator and `on_initialize`. Verifier/Leaf reads the leaves,
-- Verifier/Clearing, Verifier/Ask and Verifier/Bid verify the two kinds of orders, Verifier/Transfers the
-- other commands, Verifier/Update carries commands out, and Verifier/Batch runs `verify_and_update` and
-- `verify_batch`. Verifier/Follows, with its children, and Verifier/History compare `Reserves` with the
-- reserved balances over histories of calls. Verifier/Conserved, with the children of Verifier/Ask and Verifier/Bid, is
-- about the amounts of orders, Verifier/Batch/Root about the roots of proofs, Verifier/Hosting about funds on their way to a
-- dominator, and Verifier/Untouched and Verifier/Eviction about evicted dominators.
--
-- Bridge models pallets/chainbridge/src/lib.rs. Bridge/Types has its storage and `Config`, Bridge/Admin the
-- admin's dispatchables, Bridge/Proposals the votes and their execution, Bridge/Transfers the transfers
-- out, and Bridge/History the histories of calls. The proposed call is a number, and its dispatch a
-- parameter that may change the whole state. In the runtime a proposal may be any of its calls, also one
-- that comes back into this pallet: `eval_vote_state` is open to any signer. So the theorems over
-- histories take only the hypothesis `Reenters` of Bridge/Writes, that votes are written by the two
-- functions of Bridge/Proposals that write them, and those on single calls take `LeavesVotes` of
-- Bridge/Relayers for the one call that they may dispatch, that it does not come back to change the votes
-- or the relayers. Bridge/Effects says what a call does to the votes, Bridge/Votes what the writes do to one
-- proposal, and Bridge/Fair, Bridge/Approval, Bridge/Ready, Bridge/Quorum and Bridge/Counted are about who votes, what
-- approves and how many relayers there are.
-- Support/Resource models `derive_resource_id` and `decode_resource_id` of
-- pallets/fuso-support/src/external_chain.rs.
--
-- Handler models pallets/chainbridge-handler/src/lib.rs beside the bridge's state: Handler/Types has the
-- storage, the fee and the settings, Handler/Outgoing `transfer_out`, `do_lock` and `do_burn_assets`, and
-- Handler/Incoming `transfer_in`. Handler/Locked and Handler/Burned are about what leaves the chain.
--
-- Reward models pallets/reward/src/lib.rs over Support/Asset: Reward/Claims has the claims and the
-- rotation of a reward into an era, Reward/Liquidity `impl Rewarding`. Reward/Backed, Reward/Trading and
-- Reward/Eras compare the volumes of the eras with the rewards, and Reward/Repeat is about repeated claims and withdrawals.
-- Market models pallets/market/src/lib.rs over Support/Asset: Market/Brokers and Market/Pairs have the
-- operations, Market/Status is about the pairs and Market/Stakes about the stakes of brokers. Indicator
-- models pallets/indicator/src/lib.rs. Foundation models pallets/foundation/src/lib.rs: Foundation/Vault has
-- the operations, Foundation/Schedule the schedule of one fund on its own, Foundation/Released what a
-- release leaves, Foundation/Unlock and Foundation/Release compare the two, given how pallet_balances moves reserved balances, and Foundation/Epochs follows the hook from epoch to epoch.
--
-- Support/Purse is a store of one token for the tests, which stand in the Tests of each part. Bridge/Sample
-- is a bridge, and Token/Sample and Verifier/Sample are a runtime for the tests, in Token/Tests, Verifier/Tests and
-- Verifier/OrderTests.
--
-- Numbers: balances are `u128` and block numbers `u32`. The checked operations of the source are
-- `checked_add` and `checked_sub`; where the source writes a plain operator the result is taken modulo the
-- width, as in a release build without overflow checks. An index outside a vector is the error `panicked`.
-- Accounts, tokens and callbacks are known by numbers. The loops recur on a list or on the number of rounds
-- that the source computes, so no fuel is needed; `unlock_from` of Foundation/Epochs runs a number of
-- epochs that its theorem gives.
--
-- Parameters, since their code lies elsewhere: pallet_balances, the lookup of accounts, the codec of
-- account ids, the arithmetic of `Permill` and `Perquintill`, the sparse Merkle tree and its hash, the
-- dispatch of callbacks and of proposed calls, and, for the verifier, the pallets behind `Rewarding`,
-- `Indicator` and `BrokerBeneficiary`, which are modelled on their own.
--
-- Not modelled: of pallets/verifier, `dominator_set_beneficiary` (it checks a signature), `open_market` (it
-- calls pallets/market), the dispatchables that first unpack or convert proofs, and the views of pending
-- shares; the genesis build of pallets/foundation; weights; the other pallets, the node, the RPC services and the runtime's wiring. The calls of the
-- histories in Verifier/History are the dispatchables without those that take proofs, and those in
-- Token/History leave out `try_mutate_account` and `try_mutate_issuance`.
pub mod Prelude
pub mod Support
pub mod Token
pub mod Verifier
pub mod Bridge
pub mod Reward
pub mod Market
pub mod Indicator
pub mod Foundation
pub mod Handler
