-- ===== src/Lib.antt =====
-- A verification library for connect-lib, a TypeScript library that connects applications to
-- wallets and payments.
--
-- The parts of the program, the files that model them, and how they correspond to the code:
--
--  * Channel voucher keys (packages/core/src/session-keys/channel-voucher-keys.ts, with parts of
--    solana-channel.ts, solana-wire.ts and address-validation.ts beside it). A key signs vouchers
--    that let a payee take ever larger amounts from a payment channel. Voucher/Types has the
--    records, Voucher/Message the 50 bytes that are signed, Voucher/Address the shape of an
--    address, Voucher/Manager the methods of `ChannelVoucherKeyManager` (create, bindChannel,
--    signVoucher, revoke). Its store is a list of keys; the adapter's locks make every method one
--    step, so a run is a list of calls (Voucher/Manager/Run). Cryptography, base58 and the
--    derivation of the channel's address are the fields of a record `Crypto` that the definitions
--    take; the derivation is total there, though `deriveChannelPda` may throw.
--  * Transaction monitoring (packages/wallet-engine/src/tx-monitor). Tx/Types has the data of
--    types.ts; Tx/Poller and Tx/Poll the class `TxPoller` of poller.ts, its registry of polls and
--    one poll of one transaction; Tx/History the class of TxHistoryStore.ts; Tx/Monitor the class
--    of TxMonitor.ts, with its controls in Tx/Monitor/Controls, which takes the poller's reports
--    and makes events and stored entries of them. A provider is modelled by its answers to one
--    poll, each of them possibly an error. A callback of the poller is a value that the monitor
--    then handles, and an emitted event is a value in a list. Keys `${chainId}:${hash}` are pairs
--    of a number and a text. A poll that awaits the provider is one step: what happens to the same
--    entry while it waits is not modelled.
--  * Settlement of x402 payments (packages/payments-x402/src/server/settle.ts and the store of
--    verify.ts beside it). Settle/Store is the in-process store of claims, with a call of it as a
--    value, so that other attempts are a list of calls; Settle/Attempt is an attempt and its EVM
--    branch, Settle/Attempt/Payment the Solana branch and `settlePayment`. What `submit`, the RPC,
--    the fee payer and the confirmation answer is an argument, absent where they throw. Times of
--    the store are milliseconds, those of an authorization seconds, as in the code.
--  * Nonces of sign-in requests (packages/siwx/src/nonce-consumption.ts): Nonce, with the calls on
--    the storage in Nonce/Replay.
--  * Payment timelines (packages/core/src/payment-timeline.ts): Timeline, with sequences of
--    recordings in Timeline/Recording.
--  * Authorizations (packages/core/src/authorization/index.ts, with address-validation.ts and
--    caip.ts beside it): what a principal lets an agent spend. Authorization/Names has the
--    canonical forms of assets, addresses and principals, Authorization/Types the data,
--    Authorization/Validate `validateAuthorization`, Authorization/Spend `evaluateSpend` and
--    Authorization/Compile the scopes of Solana keys and of payment sessions, whose voucher policy
--    is that of Voucher/Types.
--    Keccak and base58 are the fields of a record `Codec`. The shapes of values that come from
--    JSON are those of the types.
--  * Session keys of EVM chains (packages/core/src/session-keys: SessionKeyManager.ts, storage.ts,
--    typed-data.ts and types.ts). A key signs transactions and token transfers within a scope.
--    Session/Types has the data, Session/Number the texts that `BigInt` reads, Session/Token
--    `decodeScopedTokenSpend`, Session/Check `periodUsageFor` and `checkScopeAgainstTx`,
--    Session/Store the stored list with its usage counters, Session/Sign `signStoredSessionKey`
--    and the checks before it, Session/TypedData the requests, Session/Create the creation of a
--    key and Session/Manager the other methods, but those that build and attach EIP-7702
--    delegations. Session/Delegation is `signDelegationRedemption`, with the encoding of its call in
--    delegation-framework.ts. The adapter's locks make a method one step, so a run is
--    a list of calls (Session/Manager/Run); `refreshCache`, which loads and saves key by key outside
--    the lock of a key, is one step here all the same. Decryption and signatures are the fields of a
--    record `Vault`; a tagged hash, the address of a public key and the owner's verifier are
--    arguments. The scope of a new key is an argument with optional fields. Session/Passed has the
--    lemmas on tests that throw.
--  * The client of metered payment sessions (packages/payments-mpp/src/session.ts, with `readMint` of
--    packages/core/src/solana-payment.ts). It opens a payment channel when a server demands one,
--    pays every request by a voucher of the channel voucher keys above, and closes the channel.
--    Mpp/Types has the data, Mpp/Request `readSessionRequest`, Mpp/Mint `readMint`, Mpp/Client the
--    state with the meter and the requests over an open channel, Mpp/Client/Demand the checks of a
--    challenge, Mpp/Client/Open the open with what its failures leave, Mpp/Client/Ending `close`,
--    `forceClose` and `withdrawPayer`. The stored keys are those of Voucher/Manager, whose methods
--    the client calls, and the proofs about it use what Voucher/Manager/Updates says of each method.
--    The clients that calls can reach are a relation (Mpp/Client/Run). Mpp/Client/Authorized joins
--    the client to the policy that Authorization/Compile makes of an authorization. Calls come one after another;
--    what the transport, the RPC and the signer answer is an argument, and so is what the parsers of
--    headers and the checks of signed transactions and of the deployed program answer.
--  * Automatic reconnection (packages/core/src/auto-reconnect.ts): Reconnect, where a call is
--    followed through the calls that its timers make, on as much fuel as it has attempts left.
--  * RLP (packages/wallet-engine/src/signers/rlp.ts): Rlp, with the decoder of Rlp/Decoded for
--    comparison.
--  * Token amounts (packages/core/src/token/units.ts): Units, from the trimmed text on, with the
--    digits of a number in Base/Decimal.
--
-- Numbers are naturals. Where the code subtracts and compares, the model has the same test with
-- the difference moved over, or a subtraction that stops at 0 where the test answers the same. A
-- `bigint` of the voucher code is a natural, with the code's u64 and i64 bounds written out. Text
-- is a list of UTF-16 code units. Loops are structural recursion; the fuel in Voucher/Address, is
-- the number of digits of the number whose bytes are counted, which has at most as many bytes as
-- digits; that of Base/Decimal and Base/Hex is the number itself, which has fewer digits; that of
-- Reconnect is the number of retries that are allowed, and one; the decoder of Rlp/Decoded has as
-- much as there are bytes, and each string takes at least one; that of Mpp/Mint is the length of the
-- account, in which every extension takes at least four bytes.
--
-- Not modelled: connectors and other clients of wallets and remote services, JSON texts of stores,
-- timers and the registry of event listeners, and the cryptography of third-party packages.
pub mod Base
pub mod Authorization
pub mod Session
pub mod Reconnect
pub mod Rlp
pub mod Nonce
pub mod Settle
pub mod Timeline
pub mod Tx
pub mod Units
pub mod Voucher
pub mod Mpp
