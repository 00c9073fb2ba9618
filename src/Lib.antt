-- ===== src/Lib.antt =====
-- SSP Solana Multisig: the offline decoder of the SDK, its gates, the helpers for addresses, and the
-- client.
--
-- The program. A device signs vault transactions of the on-chain multisig program. Before it signs, the
-- SDK (sdk/src) decodes the serialized transaction and compares what it does with what the device
-- displays. sdk/src/decoder.ts holds two decoders and three gates, sdk/src/utils.ts the derivation of
-- addresses and the building of messages, sdk/src/client.ts the client that builds the instructions and
-- sends them. Third-party code is a parameter: Web3.antt lists the functions that the source takes from
-- `@solana/web3.js`, `buffer` and `crypto`, and IsWeb3 the documented laws of `PublicKey` that theorems
-- use. In the decoder a connection is a function from a key and a commitment to the answer of
-- `getAccountInfo` or its error.
--
-- The files, by the part of the source that they model:
--   Bytes, Bytes/LittleEndian      `bytesEqual`, `readU64LE` and `Buffer.readUInt32LE` (decoder.ts)
--   Reader, Reader/Reads           `ByteReader`; what it means to read an encoding back
--   Message, Message/Layout        types.ts, `parseTransactionMessage`, `parseCreateTransactionData`; the
--                                  borsh layout as an encoder
--   Numbers, Numbers/Amounts       `toBigIntOrNull` and the number types that it takes
--   Classify, Classify/Flows, Classify/Steps, Classify/Sound, Classify/Owners
--                                  `classifyInnerMessage`, `resolveAtaOwner`,
--                                  `deriveAssociatedTokenAddress`; what an instruction does
--   FundFlows, FundFlows/Match, FundFlows/Sound
--                                  `compareFundFlows`, `recipientMatchesAddress`
--   Bundle, Bundle/Kinds, Bundle/Values, Bundle/Branches, Bundle/Told, Bundle/Steps,
--   Bundle/Sorted, Bundle/Unflagged
--                                  `parseBundle`, `readTransactionIndexArg`; the kinds of instructions,
--                                  and what an instruction is read for
--   Decode, Decode/Flags, Decode/Unflagged
--                                  `decodeVaultSolanaTransaction`
--   Compare, Compare/Accepts       `compareDecodedToExpected`
--   Proposal, Proposal/Reported, Proposal/Accepts, Proposal/Stored
--                                  `decodeVaultTransactionAccount`, `fetchAndDecodeProposal`,
--                                  `compareProposalToExpected`
--   ApproveOnly, ApproveOnly/Accepts
--                                  `verifyApproveOnlyTransaction`
--   Consumer, Consumer/Gate, Consumer/Outer, Consumer/Checks, Consumer/Funds,
--   Consumer/Allowed, Consumer/Proposed, Consumer/Budgets, Consumer/AtaCreates,
--   Consumer/Accepts
--                                  `verifyConsumerSolanaBundle`
--   Members, Members/Order, Members/Valid
--                                  `sortMembers`, `hashMembers`, `validateConfig` and the derivations of
--                                  utils.ts
--   Build, Build/Resolves, Build/Total, Build/VaultFirst, Build/Fitting,
--   Build/Encodable
--                                  `buildMessageFromInstructions` of utils.ts
--   Client/World                   what the client takes from a connection, `@coral-xyz/anchor` and
--                                  `bn.js`, as a parameter
--   Client/Index, Client/Canonical `predictNextTransactionPda`, and the sum of an index and a bigint
--   Client/Builders                `SolanaMultisigClient`, its options and `build*Instruction`
--   Client/Methods                 the methods that send or fetch
--   Client/Tables, Client/Waits, Client/Tabled
--                                  `createMembersAddressLookupTable`
--   Client/Encoder, Client/Scratch `patchIxEncoderBufferSize`
--   Client/Idl                     sdk/src/idl/solana_multisig.json, and the laws of Anchor
--   Client/Created                 `createTransactionFromMessage`
--   Client/Built, Client/Decoded, Client/Bundled, Client/Sent, Client/Proposed
--                                  what the client builds, read back by the decoder
--   Client/Started, Client/Setup, Client/Nonce
--                                  `initialize`, `setupMultisigAndNonce`, `checkNonceRace`
--   Prelude and the files below it shared types, lists, results and strings
--   Tests, Tests/World, Tests/Basics
--                                  a small world of keys, and runs in it
--   Tests/Chain, Tests/Client, Tests/Setups, Tests/Sends, Tests/Bundles,
--   Tests/Flags, Tests/Requests, Tests/Owners
--                                  a small cluster, and runs of the client in it; more of the decoder
--
-- How the parts interact. Both decoders read a message with Reader and Message and classify its inner
-- instructions with Classify; Bundle sorts the outer instructions; Decode and Proposal report the two
-- kinds of facts, Compare and Proposal compare them with the expectation through FundFlows, and
-- ApproveOnly and Consumer compose all of it. A theorem about a gate is a record of what the accepted
-- input was found to be, filled by the theorems of the parts. The client derives addresses and builds
-- messages with Members and Build, and its instructions meet the decoder in Client/Sent.
--
-- How the model corresponds. A record stands for an interface, an Option for an optional field. A text
-- is a list of code units; the messages of errors and mismatches are built from the same templates as in
-- the source. Code that throws returns a Result; code that pushes mismatches returns their list in the
-- order of the pushes; the consumer gate does both, and Consumer/Gate keeps the messages pushed before an
-- error. An object of optional settings that a caller leaves out is one with every field unset; a
-- `feePayer` that is present but undefined in the proposal options is taken as unset. Indexes, decimals
-- and counts are natural numbers, as the types of the callers say; a seed of one byte is taken modulo
-- 256, and a byte read is below 256. A number given as a JavaScript `number` is an integer or else a text
-- of the number that is none; integers of 10^21 and more, which print in another form, are not told apart.
-- A key is compared by `equals` or by its base58 text as in the source.
--
-- The client. An asynchronous call is a function from a world to its result, or the error it rejects
-- with, and the world after it; a method is the sequence of its calls. A world, a key and a compiled
-- transaction are types of the caller. The record World holds every call of a connection, of the Anchor
-- program and of the constructors of instructions; IsAnchor says that Anchor makes of a call what the
-- interface description says, and IsClocked how clock and slots behave. A key pair stands for its public
-- key. An index is a bigint, a number or a `BN`, or the string that `+` makes of a `BN`; the casts of
-- `fetch` to bigint are none at run time. The priority fee is an integer.
--
-- Recursion is structural everywhere but for the printing of numbers, which runs on fuel of the number
-- plus one, since a number has no more digits than that (Prelude/Strings/Decimal), and for the two loops
-- of `createMembersAddressLookupTable`, which run on fuel with `none` for a loop that still waits when it
-- is gone. Client/Waits shows that 51 rounds of each are enough where a slot follows within five seconds.
--
-- Not modelled: the wallet that the client's constructor hands to Anchor's provider, and the program
-- object that it makes; the program itself (programs/solana-multisig/src/lib.rs), of which only the
-- layout of a proposal and the interface description enter here; scripts, examples, tests and migrations.
pub mod Prelude
pub mod Web3
pub mod Bytes
pub mod Reader
pub mod Message
pub mod Numbers
pub mod Classify
pub mod FundFlows
pub mod Bundle
pub mod Decode
pub mod Compare
pub mod Proposal
pub mod ApproveOnly
pub mod Consumer
pub mod Members
pub mod Build
pub mod Client
pub mod Tests
