-- ===== src/Lib.antt =====
-- Verification of the chain's own logic: proof of work, chain selection, the external miner,
-- reversible transfers, airdrops, rewards, mints on zero-knowledge proofs, the faucet,
-- signatures, and the governance.
--
-- The parts, and how they interact. A block is mined by a nonce that the QPoW check accepts for
-- its header and the current distance threshold (qpow-math/src/lib.rs). The QPoW pallet keeps
-- the threshold, and retargets it at the end of a period from the times of the last blocks; it
-- also sums the work of the chain (pallets/qpow/src/lib.rs). The client selects the heaviest
-- chain by that work, within a limit on reorganisations, and finalizes blocks at that depth
-- (client/consensus/qpow/src/chain_management.rs). The external miner takes jobs by requests and
-- looks for their nonces in a loop (external-miner/src/lib.rs, resonance-miner-api/src/lib.rs).
-- Apart from these, a pallet pays airdrops out to accounts with a Merkle proof, one pays the
-- miners, one mints on a zero-knowledge proof, one is a faucet, and one delays transfers, which
-- can be cancelled until the scheduler executes them; an extension of the runtime checks each
-- transaction of an account that has chosen such delays, and refuses or schedules its transfers.
-- The node checks the seals of blocks by the QPoW pallet, and mines them itself or by the
-- external miner. The governance of the runtime sends proposals to tracks by their origin.
-- Transactions are signed by a scheme that adds Dilithium to the ones of Substrate.
--
-- Files.
--   Prelude: shared names. Tests has Boolean tests on numbers, Lists the measures of lists, Maps
--     storage maps as functions, Totals the sums over them, Bytes the bytes of a number, Uint machine
--     integers, Order the well-founded order, Panic the chaining of code that can panic.
--   Dispatch: origins, results and early returns of the calls of a pallet. A call that fails leaves no
--     change, as the frame rolls it back; a panic is a result of its own.
--   Qpow: the pallet. Types has Config, the storage as one record State, and Event; Threshold the
--     distances and calculate_distance_threshold; History the ring buffer of block times; Hooks the
--     genesis and on_idle, on_finalize and adjust_distance_threshold, in two halves account_block
--     and end_period; Nonces verify_for_import, verify_historical_block and submit_nonce. Bounds,
--     Motion, Block, Finalize, Times, Window and Period hold the proofs.
--   QpowMath: Power has mod_pow and hash_to_group_bigint, Coprime is_coprime, Prime is_prime, Nonce
--     get_random_rsa, get_nonce_distance and is_valid_nonce. Their children hold the proofs.
--   HeaviestChain: Client has the calls of the Substrate client, Ancestor
--     find_common_ancestor_and_depth with its three loops, Select best_chain and find_best_chain,
--     Finality finalize_canonical_at_depth. Children of Ancestor and Select hold the proofs.
--   Miner: Job has a job and the body of the mining loop, Service the jobs and the handlers of
--     requests. Search, Rounds, Requests, Reach and Kept hold the proofs.
--   Airdrop (pallets/merkle-airdrop/src/lib.rs): Merkle has verify_merkle_proof, Calls the storage
--     as one record and create_airdrop, fund_airdrop, claim, delete_airdrop and validate_unsigned.
--     Tree, below Merkle, and Claims, Once, Solvent and Pool hold the proofs. The bound on the length
--     of a proof is that of its type, and not modelled.
--   Rewards (pallets/mining-rewards/src/lib.rs): Payout has extract_miner_from_digest,
--     finalize_rewards, which is on_finalize there, and the collection of fees; Supply the proofs.
--   Wormhole (pallets/wormhole/src/lib.rs): Inputs has WormholePublicInputs and from_fields, Calls the
--     storage as one record and verify_wormhole_proof. Panics, Fields, Mints and Once hold the proofs.
--   Reversible (pallets/reversible-transfers/src/lib.rs): Types has the data, the storage as one
--     record and the calls of the scheduler, the preimages and the balances; Calls
--     set_reversibility, cancel, execute_transfer and schedule_transfer with their internal
--     functions, the genesis and the integrity test; Writes do_schedule_transfer once more, with
--     the storage that it leaves on every path, as the extension runs it. Layered relates the two.
--     Effects and Scheduling say what a successful call has done; Ledger has the well-formed
--     states and the runs; Weights, Removal, Growth, Balanced, Owner and Stuck hold the proofs;
--     Example is a scheduler and a bank for the tests.
--   Extension (runtime/src/transaction_extensions.rs): Validate has the check of a transaction, Policy
--     the proofs.
--   Node: Seal has QPowAlgorithm of client/consensus/qpow/src/lib.rs and QPoWMiner of miner.rs beside
--     it, External the requests of node/src/external_miner_client.rs, Loop and Polling the rounds of the
--     mining task in node/src/service.rs, without and with the external miner. Agree, Mined, Found and
--     Submitted hold the proofs.
--   Governance (runtime/src/governance.rs): Tracks has the tracks and the custom origins, Deposit the
--     deposits of preimages. Known and Returned hold the proofs.
--   Signature (dilithium-crypto/src): Bytes has ResonanceSignatureWithPublic of types.rs and its
--     conversions, Scheme ResonanceSignatureScheme and the accounts of ResonanceSigner, Pair the key
--     pairs of pair.rs and their generation in hdwallet/src/lib.rs. Parsing, Authorised and Signing
--     hold the proofs.
--   Faucet: Mint has the call and the check of pallets/faucet/src/lib.rs, Rpc the requests of
--     node/src/faucet.rs. Bounded and Requested hold the proofs.
--   The modules called Tests below a part apply its theorems at concrete values.
--
-- Choices. A machine integer is a natural number, and its operations are written out with their
-- limit: saturating_add, saturating_mul, and shifts that lose what leaves the 512 bits. Byte
-- arrays are the numbers that they spell in big-endian order, except in Signature, where they
-- are lists of bytes. A panic is none. Log lines are left out, but the computations that are
-- made for them are kept where they can panic.
--
-- Parameters. SHA-256, SHA3-512 and BLAKE2-256, the currency and vesting of Substrate,
-- FixedU128::from_rational of Substrate, its client, backend and auxiliary store, and the
-- parsers of hex and decimal texts are parameters; what the code relies on is named by the
-- records IsFixed, IsNode, IsParsers, IsFormats, IsCurrency, IsTreasury, IsSubstrate,
-- IsScheduler, IsReserves, IsFunds, IsArrays and IsKeypairs, and the modules Tests and Example
-- give instances. So are the scheduler, the preimages and the holds of Substrate, and the
-- circuit of the zero-knowledge proofs with its verifier.
--
-- Bounds and fuel. The loops of mod_pow and of the split of n - 1 halve a 512-bit number in each
-- round, so that 513 rounds reach 0. The search for the modulus has no bound in the code; its
-- fuel is an argument of every definition that runs it. The greatest common divisor is computed
-- by recursion on the accessibility of the order, and the loops over headers by recursion on
-- heights.
--
-- Not modelled: the spawning of tasks, timers, the network, the command line and the RPC of the
-- node but for the faucet's, the composition of the runtime, the copies of Substrate's balances
-- pallet and of its proof-of-work client. The weights of calls are not modelled either, and what
-- the frame does with the storage after a transaction is found invalid.
pub mod Prelude
pub mod Qpow
pub mod QpowMath
pub mod HeaviestChain
pub mod Miner
pub mod Dispatch
pub mod Airdrop
pub mod Rewards
pub mod Signature
pub mod Wormhole
pub mod Reversible
pub mod Extension
pub mod Node
pub mod Faucet
pub mod Governance
