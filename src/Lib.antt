-- ===== src/Lib.antt =====
-- Verification library of the Sessions enclave gateway, the program that holds a Telegram session
-- inside an enclave and guards the account: it reads the roster of sessions, evicts those that the
-- owner's signed policy does not keep, and declines password resets, and can do nothing else.
--
-- The program's parts, and where they are modelled:
--
-- * policy-verify.mjs derives the authority from the chain of signed policy envelopes. Policy/Json
--   is `canon`, `canonicalEq` and the text that is hashed; Policy/Core the core and the reading of
--   its fields; Policy/Action the actions, the windows and `validNewSigner`; Policy/Delta
--   `sameExcept` and `verifyDelta`; Policy/Row `verifyEnvelopeSigs`, `signersCommit` and
--   `verifyEnvelopeRow`; Policy/Chain `deriveAuthority`; Policy/Ops `assertOpAllowed`. The proofs
--   are in Unchanged, Keys with its child Removed, Quorum, Accepts, Derive and Permits.
-- * tg-chokepoint.mjs is the allowlist between the gateway and Telegram. Chokepoint/Frame has the
--   constructors and the lists, Chokepoint/Check `checkLeaf` and `assertAllowed`, Chokepoint/Gate
--   `makeChokepoint` with its two grants. The proofs are in Ceiling and Grants.
-- * state-authority.mjs anchors the policy head and the single-writer lease. StateAuthority/Store
--   is the reference store `InMemoryAuthority` behind `inProcessTransport`: one function per
--   method, a store as an association list, and a sequence of calls as a list. The proofs are in
--   Validity, History and Fencing. StateAuthority/Client is `StateAuthorityClient` with
--   `canonicalRecordBytes`, and Deadline its proofs; its other methods send a call and return the
--   checked record.
-- * state-authority-dynamo.mjs is that store on the conditional writes of a table.
--   StateAuthority/Dynamo has one write per method, which may have loaded an older record than it
--   meets; Mirror relates it to the reference store.
-- * replay-detect.mjs detects a copied session by its movement. Replay/Locality is `countryOf` and
--   `platformClass`, Replay/Geo the roster's rows and the geo state, Replay/Observe the helpers
--   and what a row records, Replay/Judge the body of the loop of `classifyReplay`, Replay/Classify
--   the loop and the pruning. The proofs are in Frame, Home, Evidence, Detect, Quiet, Loop, Polls,
--   Row and Roster.
-- * brain.mjs decides what to propose. Brain/Trusted is `resolveActiveAllowlist`; Brain/Plan the
--   plan of `Brain.sweep`, from the candidates and the contested burns to the list under the cap;
--   Brain/Sweep the whole sweep, over a gateway whose two calls change a world of any type and may
--   throw; Brain/Security `Brain.checkSecurity`. The proofs are in Planned, Removals, Sets,
--   Localities and Events.
-- * locality-match.mjs resolves the name of a country to its code for the brain. Countries/First
--   and Countries/Table have its two tables, Countries/Names `normalizeCountryName` and
--   `countryNameToIso2`, and Countries/Resolve the proofs; its `countryOf` and `platformClass` are
--   those of Replay/Locality.
-- * gateway.mjs holds the accounts. Gateway/Dispatch is `_dispatch` of an eviction and of the
--   roster, and `_call` with the checks of `_ctx` and its flood backoff, over a connection whose
--   calls are parameters, and it is the gateway of a sweep. Gateway/Intake is `reconcilePolicy`
--   over the record of the reference store and `derive_authority`, Gateway/Disconnect
--   `reconcileDisconnect` with the case LOGOUT_SELF. Gateway/Accounts with its child Rounds is
--   `adopt` with the guard that `adoptArmedLinks` of gateway-main.mjs puts before it, `_ctx`,
--   `renewAllLeases`, `selfFence`, `accountWatchdog`, `recoverAccount`, `healthyCount` and
--   `releaseAllLeases`, one operation after the other. The proofs are in Guard, Proposals,
--   Lockstep and its children, Signed, InUse and Writers.
-- * brain-protocol.mjs is the vocabulary between the brain and the gateway. Protocol/Utf8 is the
--   encoding of texts, Protocol/Value the JavaScript values with their prototypes, Protocol/Encode
--   `encHead` and `encode`, Protocol/Decode `decode`, Protocol/Frames the closed sets,
--   Protocol/Requests `encodeRequest` and `decodeRequest`, and Protocol/Answers the responses and
--   events. The proofs are in Characters, Heads, RoundTrip, Refusals, Exchange and Closed.
-- * kms-envelope-v3.mjs seals the session. Envelope/Aad is `encodeAad`, Envelope/Seal
--   `sealEnvelopeV3`, `openEnvelopeV3` and `envelopeDigest`. The proofs are in Fields, Injective,
--   Bindings and Opening.
-- * audited-sender.mjs puts the chokepoint before the wire. AuditedSender/Seams is its `append`
--   and `get`, and Wire a run of the sender with its proofs.
-- * brain-admission.mjs admits a brain's channel. Admission/Admit is `admit` and the texts that
--   are signed and hashed, and Conditions its proofs.
-- * arm.mjs makes the owner's first policy the authority of an account. Arming/Genesis is
--   `rowToSigner` and the loading of the genesis and of the signers, Arming/Complete `completeArm`
--   over `derive_authority`, `open_envelope` and `seal_envelope`, and Arming/Sweep
--   `sweepPendingArms`. The proofs are in Loaded, Warranted and Sweep. What the database, the key
--   service and the State Authority answer is an argument.
-- * onboarding.mjs is the machine of the ceremonies that log an account in. Onboarding/Effects has
--   its state, the trace of its injected effects and the actions on both, Onboarding/Ceremony
--   `prepare`, `authorize`, `abort`, the timeouts and the teardown, Onboarding/Login the login,
--   and Runs a sequence of operations. The proofs are in Healthy, Contexts, Steps, Attempts and
--   Runs. Operations run one after the other: the awaits of two calls do not interleave.
--
-- How they interact: the gateway derives the authority from the chain (`derive_authority`) against
-- the head that the State Authority anchors; the brain proposes operations; `assert_op_allowed`
-- checks each proposal against the derived authority and a fresh roster; and the frames that carry
-- an operation out pass through the chokepoint, which binds an eviction to the hash that was
-- checked.
--
-- Conventions. A thrown error or a `{ ok: false }` is a `Result`, with the errors as constructors.
-- Stateful objects are records, and a method takes the state and returns the next one. Base has
-- the JavaScript values that the code is written over: `===` on strings, `Map`, the array methods,
-- the comparisons of numbers. Times, versions and counts are natural numbers, of any size; link,
-- user and session ids are strings, as the code compares them by `String(x)`. A TL object is told
-- by its constructor, so that `instanceof` and `CONSTRUCTOR_ID` agree on it. JSON texts are
-- ordered by code points.
--
-- Parameters, which stand for code outside of the repository: `date` (the parsing of times),
-- `sha256` (the digest), `counts` (the check of a passkey, wallet or Google signature, which rests
-- on cryptographic libraries), `has_container` (whether the Telegram library has a container
-- constructor), `ed_verify` (the check of a response's signature), the gateway's calls, and the
-- clock, as an argument. So is what the injected effects of the onboarding and of the arming
-- answer. `upper` is `toUpperCase`, `lower` is `toLowerCase`, and `fold` the decomposition of a
-- text in lower case without its marks. Of the brain the resolver of countries is the argument
-- `iso2`, for which the code passes `country_name_to_iso2`. Nothing is assumed of any of them, but
-- of `fold`, that it gives the names of the tables as their letters in lower case without their
-- marks, and of the cipher of the envelope: `Deciphers` says that it gives back what it has
-- sealed, and `Authenticates` that it opens nothing under other additional data; the theorems that
-- need one of them take it as a hypothesis. The cipher works on the payload itself, whose JSON
-- text is its plaintext, and the stored fields are those before base64.
--
-- Fuel: `decimal` of Policy/Json alone runs on fuel, the number itself and one, which is more than
-- its digits; `canon` and `stringify` recurse over the JSON value. `decode` recurses on the levels
-- that are left, nine as in the source, and on the number of items that a head announces, for an
-- array on at most 2 ^ 32, where it is full.
--
-- Not modelled: the rest of gateway.mjs and of gateway-main.mjs, connection.mjs and
-- mtproto-client.mjs (network, timers and the database), the grant and the transport of the
-- onboarding, the transport of kms-envelope-v3.mjs to the key service, pg-shim.mjs (a wire
-- protocol over sockets), the log lines of the brain, and the signing of the stores' responses.
-- The two lists that a derived authority maps through `String` and `toUpperCase` are kept as they
-- are before it. Of a decoded object whose prototype is a byte string the accessors of typed
-- arrays are left out. A decoded object keeps its keys in the order of insertion, also those that
-- look like array indexes. A threshold that is no natural number, which `verifyEnvelopeRow`
-- refuses, is refused by `min_threshold` and `threshold_fits` too. `reconcile_disconnect` takes
-- the context that it has looked up for the one that its `_call` looks up. The hooks of the
-- audited sender stay the same in a run.
pub mod Base
pub mod StateAuthority
pub mod Chokepoint
pub mod Policy
pub mod Replay
pub mod Brain
pub mod Countries
pub mod Gateway
pub mod Protocol
pub mod Envelope
pub mod AuditedSender
pub mod Admission
pub mod Onboarding
pub mod Arming
