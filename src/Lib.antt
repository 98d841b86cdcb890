-- ===== src/Lib.antt =====
-- UEG takes a command through an explicit gate: it classifies the effect, decides, writes a signed
-- receipt of the decision, runs the command if it was admitted, and writes a receipt of the outcome.
-- The receipts form a chain that can be checked offline, and the keys that may sign it are governed
-- by a chain of identity lifecycle records. This library models that core.
--
-- Common: tests on numbers and texts, lists, integers, results and maps that all parts share.
-- Crypto: what the program calls of Go's sha256, ed25519, base64, x509 and pem packages. It is a
--   record of functions, with what those packages document as a record of laws.
-- Canon: internal/canon/canon.go, the RFC 8785 encoder (encode, encodeString) and HashJCS;
--   Merkle has MerkleRootHex.
-- Keys: internal/keys/keys.go, fingerprints, public PEM text, SignB64 and VerifyB64.
-- Policy: internal/policy/policy.go. Argv has unwrap, executableBase and splitArgs, Classify has
--   Classify and rule.matches, Decide has Decide, Snapshot and Hash. The rule table, Go's Unicode
--   tables, the regexp package and rootLike are parameters.
-- Identity: internal/identity. Identity has the types of types.go, Records the canonical forms,
--   signatures and checks of crypto.go and lifecycle.go, Lifecycle has DeriveState and
--   applyLifecycleRecord as steps on the state, the active epoch and the last record digest.
--   Mutation has NewLifecycleRecord and signRecord, with NewGenesis in
--   Mutation/Creation. Artifacts has the cards, evidence anchors and
--   checkpoints of artifacts.go, Artifacts/Checkpoints ImportCheckpoint and
--   CompareLifecycleStates. Storage has the files of a home and LoadPublic, LoadSigning and
--   readLifecycle of storage.go; Storage/Transaction has RecoverPendingMutation of transaction.go,
--   whose changes of the files are a list of steps that can stop behind any of them.
-- Strictjson: internal/strictjson/strictjson.go, Validate and Unmarshal over the tokens that
--   encoding/json returns; Trees describes the token sequences of values without a repeated key.
-- Ledger: internal/ledger. Ledger and Petitions have what ledger.go checks: ComputeID, Verify,
--   VerifyBPlus, sequenceAuthorized, VerifyPetitions and normalizeNumbers. Home has the ledger in
--   memory and TrustSelf, Append has Append, Open has load, OpenExisting, RecoverExisting and
--   OpenReadOnly, Parse has ParseReceiptStrict of parse.go. Recovery has transaction.go: the files
--   of a home as a record, what Append writes as a list of steps that can stop at any step and byte,
--   and recoverPendingFiles.
-- Bundle: internal/bundle, the verification of a bundle. Bundle has its documents and safeName,
--   Archive the limits of readTarGz, Manifest verifyManifest, Trust the trust roots and revocations,
--   Seals both seals, Authority parseBPlusAuthority, Checkpoint the selection of the checkpoint and
--   what the receipts owe it, Bplus verifyBPlusBundle and Verify VerifyWithOptions. What lies outside
--   the bundle (a checkpoint, an anchor, the trust store) is the record Outside.
-- Gateway: internal/gateway/gateway.go. Capture has outputCapture, Machine has execute and the
--   records, Run has Run. The ledger is an interface with Append, which Appends fills with the model
--   of ledger.Append; the operating system is the record Machine. A run returns its result, its error, the ledger and the list of what it did. Replay is
--   internal/gateway/replay.go: its helpers in Replay, the function Replay in Replay/Again, on top
--   of Run.
-- Tests: a toy instance of the parameters and concrete runs.
--
-- A text is its list of code points; where the source counts or hashes bytes the model encodes it in
-- UTF-8. Integers are the library's own integers; the one sum that could leave 64 bits, the next
-- epoch number, wraps. Loops are structural recursion, but for three on fuel: the digits of a number,
-- where 20 is enough for 64 bits, the Merkle root, where the number of leaves less one is enough,
-- and the scan of JSON tokens, which takes at most two rounds for each token.
-- A map is an association list. Of two epochs with one key, between which Go's order of a map would
-- decide, the model keeps the first.
-- Errors are constructors named for their messages; what a message prints beside its values is not
-- modelled. A run's mirrors answer each write by its bytes alone.
--
-- Not modelled: the creation and the migration of a home, sealed recovery packages, how a lifecycle
-- mutation is staged, the building of bundles, locks and the protection of key files (system calls),
-- the command line (flags and printing), and the Python verifier (another language).
pub mod Common
pub mod Crypto
pub mod Canon
pub mod Keys
pub mod Policy
pub mod Identity
pub mod Strictjson
pub mod Ledger
pub mod Bundle
pub mod Gateway
pub mod Tests
