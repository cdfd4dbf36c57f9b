-- ===== src/Lib.antt =====
-- Agent-of-Record: signed prompts, a hash-chained context ledger with Merkle proofs, registered keys,
-- and signed proofs of intent.
--
-- A browser signs a prompt; the verifier service checks the envelope against a key of the key
-- registry and refuses replays. Context goes to the ledger, whose entries form a hash chain and are
-- the leaves of a Merkle tree. Before an agent acts, a proof of intent binds the hashes of the prompts
-- and the action to the tree's root, and the agent signs it. The ledger's root is anchored with a
-- timestamp authority, and the verification portal checks the whole record of an action again.
--
-- Common: tests, lists, dicts and results that all modules share.
-- Json: the values that are hashed.
-- Calendar: datetimes.
-- CryptoCore: crypto_core/canonical.py, hashing.py and signing.py. `Crypto` is the parameter for the
--   third-party packages; CryptoCore/Laws has what the proofs assume of it. CryptoCore/Hex and
--   CryptoCore/Base64 have Python's bytes.hex, bytes.fromhex and base64.
-- LedgerCore: ledger_core/ledger.py. The list `_entries` is the state. Chain and Tamper are its proofs.
-- Merkle: ledger_core/merkle.py. The `while` loop of build_merkle_tree has the number of leaves as
--   fuel, and each round at least takes one hash off a level of more than one. Levels, Tower, Collect
--   and Inclusion are its proofs.
-- VerifierService: verifier_service/models.py, nonce_store.py, pubkey_store.py, verifier.py, database.py
--   and main.py. The state of SignatureVerifier is passed through, and each reading of a clock is an
--   argument, in microseconds. The stores of keys implement `PublicKeyLookup`. Database has the four
--   tables and each call on them, and its children the histories of calls. Server has the endpoints of
--   main.py over one state, in a monad of handlers whose answers are values, HTTP errors and other
--   exceptions; clocks and random texts are arguments. Server/Artifact has the email demo, and
--   Server/Route the endpoint that routes a signed prompt, over the interface `Agents` of the router,
--   the agents and their world; the evidence has a copy of the ledger at the action, where the source
--   has the shared ledger and its length then. Gate, Route/Evidence and Route/Loop are the proofs.
-- KeyRegistry: key_registry/models.py, storage.py and registry.py. The SQLite table is the list of its
--   rows, and the lock makes each call one step.
-- PoiGenerator: poi_generator/models.py, agent_keys.py and poi.py. Time and nonce are arguments.
--   Callback has callback_handler.py: the sessions point into a heap of ledgers. Signature, Commitment
--   and Callback/Start are its proofs.
-- Agents: aor/agents/. Base has the registry of agents, with its proofs in Base/Registered and
--   Base/Distinct, and Plan the plans, results and shared guards of base.py. FileAgent has the execution
--   of file.py: Disk is the file system, a dict from paths to nodes in a state monad, Diff the unified
--   diff, and Diff/Applies and Sandbox are the proofs.
-- ActionExecutor: action_executor/. PoiEncoding has the headers that carry a proof, SmtpAction the
--   message and its sending with the encryption of cot_encryption.py, Executor the guards and the
--   dispatch of executor.py and jwt_action.py. The outbox is the list of messages written or sent.
--   Executor/Mail and Executor/Guards are its proofs.
-- TsaAnchor: tsa_anchor/models.py and anchor_scheduler.py, the store of anchors and one run of the
--   scheduler.
-- VerificationPortal: verification_portal/backend/. Models has the evidence, the store in memory and
--   the parts of an email; Links and Signatures have the steps of VerificationPipeline, Pipeline runs
--   them, and an exception that leaves run_verification is an error of the result. `Environment` is
--   the parameter for the email parser, pydantic's JSON reader, the RFC 3161 verifier and the printing
--   of texts and exceptions. Pipeline/Hashes and Pipeline/Sound are its proofs. EvidenceStore has the
--   durable form of the evidence, with its reading, the store over memory and database, and the
--   round trip; json's texts are the parameter `JsonText`.
-- Toy: a stand-in for the third-party packages, on which the theorems are run.
--
-- Not modelled: the checks of isinstance where a type says it; key generation and key files; the JWK
-- forms; decryption and the steps of an SMTP session; the view of the tree; the loop of the scheduler;
-- the planning of the agents, and the execution of those that are not named above; of the web servers
-- the endpoints that are not named above, and their wiring; the command line and the demos; the
-- browser client.
pub mod Common
pub mod Json
pub mod Calendar
pub mod CryptoCore
pub mod LedgerCore
pub mod Merkle
pub mod VerifierService
pub mod KeyRegistry
pub mod PoiGenerator
pub mod Toy
pub mod Agents
pub mod ActionExecutor
pub mod TsaAnchor
pub mod VerificationPortal
