-- ===== src/Lib.antt =====
-- The twig system contracts: the smart contracts of a chain, which keep its tokens, names,
-- proposals, vesting and blocks in the tables of the contract library.
--
-- How the parts interact. twig.token holds all balances. eosio.names, eosio.bank and eosio.system
-- send it inline actions (a bid, a refund, a vested reward). eosio.bank is told of every transfer
-- by the token contract and reads the lucky number of eosio.system, which starts an epoch of the
-- bank. eosio.msig keeps proposals and sends the actions that are packed in them.
--
-- How a contract is modelled. A contract's state is a record of its tables, and an action is a
-- function from the call and the state to a result: a failure of Chain.Outcome, which aborts the
-- transaction and with it every change, or the new state, with the inline actions that are sent, in
-- their order, where there are any. A table is an instance of the interface Chain.MultiIndex: rows
-- under unique keys, in ascending order, with find, store and erase. Names and symbols are their
-- 64-bit values. An amount is an integer (Prelude.Int) and the machine's `+` and `-` are add64 and
-- sub64, which wrap around at 64 bits. The RAM payer of a row is left out, as no table reads it.
--
-- Prelude     Boolean tests, integers and int64_t, association lists, byte arrays, std::sort as a
--             stable sort by a number (Sorting), and the order that loops descend in (Order).
-- Chain       The interfaces of the contract library: outcomes, tables (MultiIndex), assets
--             (AssetLib), names (NameLib), inline actions (Send), sums over the rows of a table,
--             and instances that run (Listed).
-- Token       contracts/twig.token. State is include/twig.token.hpp. Config is
--             src/actions/contract.config.cpp (cfginit, cfgdestruct, cfgsetparams, setfungibles,
--             setsupplies, rmvsupply, setdrops, rmvdrops), Admin is src/actions/contract.admin.cpp
--             (issue, retire, rolldrops, execdrops), User and Accounts are src/actions/user.cpp
--             (open, close, claimdrops, transfer). Pairs holds the bodies of the loops over pairs.
--             Held and Ledger state what a sound ledger is; Supplying, Transferring, Limits and
--             Opening are about the actions, History about sequences of them, and Wrapping about
--             the overflow. The others hold lemmas on the loops.
-- Names       contracts/eosio.names. Actions is src/eosio.names.cpp: init, exec, cleanup, bidname,
--             bidrefund. Escrow is about the money that is owed for a name, Auction about the bids;
--             History is about sequences of actions, and Books about the money in them.
-- Msig        contracts/eosio.msig. Approvals, Actions and Executing are src/eosio.msig.cpp:
--             propose, approve, unapprove, cancel, exec, invalidate. The two halves of approve and
--             unapprove, the list of approvals and the clock, are functions of their own. Safety,
--             Levels and Invalidating hold theorems on single actions. Registry is an abstract view
--             of the proposals, which Following and History compare with the actions and their
--             sequences; Places counts how proposals end.
-- System      contracts/eosio.system. State is the row of the lucky number and the accounts. Blocks
--             is the window of recent blocks in src/functions/functions.producers.cpp; Window and
--             Recording are about moving it on, Batches about what is read from it. Accounts and
--             Contracts are src/actions/0.native.cpp (check_auth_change, limitauthchg, newaccount,
--             setabi, setcode, setcodeinfo) and setwhitelist of src/actions/2.admin.cpp;
--             Authorities is about them. Calls is setrngcall, rmvrngcall and modrngcall of
--             src/actions/2.admin.cpp. Config is init and setparams of src/actions/1.config.cpp,
--             Limits the packing of its parameters, and Startup is about init and the blocks that
--             follow it. Natives holds the actions that check who calls them and leave the rest to
--             the host (updateauth and the like, wasmcfg, activate, setpriv, logsystemfee).
--   Random    include/headers/RandomnessProvider.hpp: Rolls is the class; Bounds, Uses and Halving
--             are about it.
--   Lucky     Blocks is on_a_lucky_block and process_rng_calls of
--             src/functions/functions.tokenomics.cpp, and feedthebeast; Chunks is onchunk of
--             src/actions/4.tokenomics.cpp. Progress counts the hits, Calling is about the random
--             calls, Heard about what eosio.bank makes of a chunk.
--   Producers Packing is the two stream operators of a producer's row. Registration is regproducer,
--             unregprod (src/actions/3.producers.cpp) and rmvproducer; Keys is regfinkey,
--             actfinkey, delfinkey; Policy is set_proposed_finalizers and what it reads; Elections
--             is update_elected_producers and switchtosvnn. Ring, Adding, Removing and Room state
--             when the registers of keys agree and hold the steps, KeyCalls, KeyRing and KeyRuns
--             are about the actions and their runs, KeyReturn about a key that is deleted again,
--             Quorum about the policy, Taking about who is taken in an election, Elected and
--             Unelected about who is elected.
--   Onblock   Action is onblock of src/actions/4.tokenomics.cpp, which composes the parts above;
--             Sound is about it. A header of a block is given as what the action reads of it.
-- Wrap        contracts/eosio.wrap: exec, which forwards the actions of a transaction.
-- Boot        contracts/eosio.boot: activate, reqactivated, onerror.
-- Bank        contracts/eosio.bank. Actions is src/eosio.bank.cpp: cleanup, token_deposit, onepoch.
--             Vested, Settling and Solvency are about what is owed, Recipients about whom it pays,
--             Payout and Releasing about how much a deposit releases. Integers stand in for
--             floating-point numbers in runs.
-- Flow        contracts/eosio.bank, contracts/twig.token and onchunk of contracts/eosio.system
--             together. Delivery runs a transaction: a transfer, the bank's handler and the inline
--             actions that follow, as nodeos documents their order. Solvent, Deposits, Others,
--             Chunk, Events and History are about what the bank has against what it owes, over any
--             sequence of transactions; Paying, Delivering, Epoch and Rewards about what goes
--             through; Owed, Balances and Payouts hold lemmas on the two contracts.
--
-- What is a parameter. How a transaction is packed, checked and hashed is the record Msig.Packing,
-- without hypotheses, and sha256 is an argument of setabi and setcode. The hash functions of the
-- random numbers are Random.Hashes, of which only the sizes of the hashes are a law. The stream
-- operators of single values are Producers.Codec, with the law that a value is read as it was
-- written, and the host's way to read packed parameters is Limits.get_limits. Floating-point
-- numbers are parameters: Bank.Double, with the laws of IEEE 754 for integers up to 2^53 and for
-- the sign of a product (Bank.Ieee); Random.Scale, with the law that a number times a fraction is
-- cut right below 2^51 (Random.Scales); and Chunks.Shares, of which Flow takes it that a chunk is a
-- part of the supply (Chunk.IsSmall). A total of votes is the 64 bits of a double. What the host
-- does for producers and finalizers (decoding keys, proofs of possession, set_finalizers,
-- set_proposed_producers) is Producers.Host, without laws, as are the hosts of Config, Natives,
-- Wrap and Boot; it also says what is read through an optional without a value, as
-- get_last_proposed_finalizers does where the table is empty. The time of a slot is an argument of
-- onblock. The test for the supply of a token, which eosio.names calls and no file of the
-- repository defines, is an argument of its init. The loop of get_uint64 that halves a number runs
-- along the order of the numbers; all other loops run over lists or a fixed number of rounds, so no
-- fuel is needed. Flow delivers inline actions up to a depth, as the host does, and fails below it;
-- the bank's payouts send nothing on, so a depth of one is enough for onepoch and for a reward, as
-- Epoch and Rewards show.
--
-- Not modelled: the actions of eosio.boot and eosio.system with empty bodies; the templates
-- has_field and set_field, which nothing calls; the compiled abi and wasm files; the table
-- `rolldrops` of twig.token and its parameters, which no action touches.

pub mod Prelude
pub mod Chain
pub mod Token
pub mod Names
pub mod Msig
pub mod System
pub mod Wrap
pub mod Boot
pub mod Bank
pub mod Flow
