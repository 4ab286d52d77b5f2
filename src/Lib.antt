-- ===== src/Lib.antt =====
-- TensorPoW: a model of the consensus core of the repository, with the theorems that make it
-- correct.
--
-- The program is a proof-of-work chain with a block DAG: miners find fruits, which carry
-- transactions, and anchors, which order the fruits and pay for them. Transactions spend outputs
-- whose templates say what a witness has to prove. They wait in a mempool, which a tree of shards
-- divides among the miners. The parts that decide what is valid are functions of bytes and
-- numbers, or objects whose methods change a few dictionaries, and these are what is modelled here:
--
-- Base: lists measured by native numbers, bytes (`bytes`, `int.to_bytes` and `int.from_bytes`,
-- little-endian), and exceptions as values. An `Error` is a class of Python exceptions; static
-- types stand for the `isinstance` tests, so TypeError has no value. Base/Dict is a Python `dict`
-- as an association list in the order of insertion, Base/Sorted the sort that `sorted` does, and
-- Base/Sums the lemmas on sums over a list. Checks: the `_require_…` guards that the modules repeat.
-- Crypto: tensorpow/crypto/hash.py and tensorpow/crypto/signatures.py. The libraries blake3 and
-- cryptography are the record `Primitives`: a hash with digests of 32 bytes, and a signature
-- scheme of which nothing is assumed. Crypto/Toy.antt gives one for the tests.
-- State: `Outpoint`, `UTXO` and `UTXOSet` of tensorpow/state/utxo.py, with the
-- verification of its sparse Merkle proofs. UtxoSet is the set with its indices by key and by owner, and
-- its operations return the changed set; UtxoSet/Reachable is the relation between the empty set
-- and the sets that its operations lead to.
-- Tx: tensorpow/tx/transaction.py. Reader is `_Reader`, Payload the payload checks, Input,
-- Output and Transaction the three classes, Decode their `from_bytes`.
-- Script: tensorpow/tx/script.py. Stack and Machine are the stack machine, Multisig the payload and
-- the signature loop of multisig, Template `verify_template` and what it calls. The machine runs
-- on 257 rounds of fuel, one more than the number of opcodes that a script may execute.
-- Consensus: Finality, Targets and Daa, Issuance and Rewards are tensorpow/consensus/finality.py,
-- anchor_daa.py and rewards.py there.
-- Chain: Headers and Merkle are tensorpow/chain/headers.py and merkle.py. The loop over the
-- levels of a Merkle tree has the number of leaves as fuel, and each level is about half as long
-- as the one before it; its `int.to_bytes` of indices raise OverflowError, as do the counts of an anchor's
-- lists in Blocks, where the other modules check the range before. Blocks is tensorpow/chain/blocks.py, the bodies of fruits and of anchors.
-- Mempool: ShardTree is tensorpow/mempool/shard_tree.py and Pool tensorpow/mempool/mempool.py. A
-- shard's address is a depth and a number below 2 ^ depth, and the shifts and masks of the code
-- are divisions and remainders by powers of two. A mutating method is a function from the object
-- to the changed one, or to the exception. Pool/Reachable is the relation between an empty pool
-- and the pools that its operations lead to.
-- Pow: Challenge is tensorpow/pow/challenge.py without the matrices, and the `to_pow_header` methods
-- of tensorpow/chain/headers.py.
--
-- All paths are below src/ of the repository. A module of the model that is named for what it proves
-- (RoundTrip, Canonical, Bounds, Schedule, Conservation, Consistent, Partition, Injective,
-- Reachable, Total, Greedy, Division, ByShard) holds theorems about its parent, and the modules Tests hold runs at concrete inputs.
--
-- Not modelled: how the sparse Merkle proofs of unspent outputs are made, GHOSTDAG, addresses,
-- state sync and the network codecs, which build on the parts above; the matrices of a
-- proof-of-work challenge, their kernel and its callers, which are PyTorch; and the node, the RPC
-- server, storage, transport, wallet and command line, which are I/O around the rest.
pub mod Base
pub mod Checks
pub mod Crypto
pub mod State
pub mod Tx
pub mod Script
pub mod Consensus
pub mod Chain
pub mod Mempool
pub mod Pow
