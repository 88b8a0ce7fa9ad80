-- ===== src/Lib.antt =====
-- The Signal protocol core of libsignal-client (rust/protocol), as executable definitions with proofs.
--
-- The program keeps sessions between two parties. A session (rust/protocol/src/state/session.rs)
-- holds a root key, a sending chain and up to five receiving chains, each a chain of keys
-- (rust/protocol/src/ratchet/keys.rs). It starts by a key agreement (rust/protocol/src/ratchet.rs),
-- from a bundle that a server hands out or from the first message (rust/protocol/src/session.rs).
-- Messages (rust/protocol/src/protocol.rs) are encrypted and decrypted with it by
-- rust/protocol/src/session_cipher.rs, which loads it from a store and writes it back
-- (rust/protocol/src/storage/inmem.rs). Groups use one chain of keys per sender
-- (rust/protocol/src/sender_keys.rs, rust/protocol/src/group_cipher.rs).
--
-- Files and what they model:
--   Common: numbers, lists, byte strings and association lists (for HashMap) that the rest shares.
--   Error, Exec: `Result` of rust/protocol/src/error.rs; functions over `&mut` state that may fail,
--     which give the state back beside an error too.
--   Address, Consts, IdentityKey: the source files of these names.
--   Primitives: what other crates implement, as a record of functions, and the laws that they are
--     documented to have. A theorem that needs a law takes `Lawful` as a hypothesis.
--   Curve: PublicKey, PrivateKey, KeyPair, Functions and the Order of keys of
--     rust/protocol/src/curve.rs;
--     Curve25519 for rust/protocol/src/curve/curve25519.rs, over the group of curve25519-dalek and the
--     keys of x25519-dalek as a record, `Edwards`: Agreement for its key pairs, Signature for XEdDSA.
--     Its Contract fills the fields of `Primitives` that sessions and groups use.
--   Utils: rust/protocol/src/utils.rs.
--   AesGcmSiv: rust/aes-gcm-siv, a crate that the protocol does not call: Aes for aes.rs, Polyval for
--     polyval.rs, Stream for `ctr32`, Cipher for the rest of aes_gcm_siv.rs.
--   Kdf, Crypto: rust/protocol/src/kdf.rs and rust/protocol/src/crypto.rs.
--   Ratchet: MessageKeys, ChainKey and RootKey of ratchet/keys.rs; Setup for ratchet.rs and its
--     parameters.
--   Proto.Storage, Protocol.Wire: the protobuf records of storage.proto and wire.proto. The codecs of
--     the messages are parameters, `StorageCodec` and `Codec`, with the laws `StorageRoundTrips` and
--     `RoundTrips`.
--   State: Session and Record for `SessionState` and `SessionRecord`, PreKey, SignedPreKey, Bundle;
--     Encode for the stored form of sessions.
--   Protocol: one file per message of rust/protocol/src/protocol.rs.
--   Storage: the stores in memory; Protocol for the one that holds them all, Stores for those that a
--     function is called with, ReadBack for what comes back from the stored forms.
--   Session: Parts reads the stores, Process writes them, for rust/protocol/src/session.rs.
--   Window: what a chain of keys promises its receiver without the keys, for sessions and groups.
--   SessionCipher: Keys derives and keeps the keys of messages, Decrypt opens a message with a state
--     and a record, Encrypt makes one, Messages works on the stores. Window shows that a
--     receiving chain moves a window; Network sends the messages of one sending chain to
--     one receiver in any order.
--   Group: SenderKeys and Record for sender_keys.rs, Cipher and Store for group_cipher.rs,
--     Encode for the stored form of sender keys, Window for the window that a sender key moves.
--   Fingerprint: rust/protocol/src/fingerprint.rs, with SHA-512 and the codec as parameters.
--   Bridge: rust/bridge/ffi/src/util.rs, how C sees errors, null pointers and optional numbers.
--   Examples: functions that satisfy the laws, and every property at a concrete input.
--
-- Conventions. A method that returns `Ok` on every path is modelled by its value. A `u32` is a number
-- and its sums wrap; the byte operations on version bytes are written as arithmetic. The loops
-- `while index < counter` run on fuel `counter - index`, and the lemmas on `fill_message_keys` and
-- `fill_sender_keys` show that this brings the index to the counter. The generator of random numbers
-- is a number that each draw replaces. A function that writes to a clone or to a loaded record
-- returns the new value, and the caller stores it where the source does.
--
-- Not modelled: Debug output and Display output other than that of a fingerprint, the payloads of
-- the two protobuf errors, the entry points for other languages (rust/bridge, but for the
-- functions of ffi/src/util.rs that Bridge has), and the variants of rust/aes-gcm-siv that use
-- processor instructions (aes/aarch64.rs, polyval/polyval_clmul.rs, polyval/polyval_pmul.rs,
-- cpuid.rs), since intrinsics have no source.
mod Common
pub mod Address
pub mod Error
pub mod Exec
pub mod Consts
pub mod Primitives
pub mod Curve
pub mod IdentityKey
pub mod Kdf
pub mod Crypto
pub mod Ratchet
pub mod Proto
pub mod State
pub mod Protocol
pub mod Window
pub mod SessionCipher
pub mod Storage
pub mod Session
pub mod Examples
pub mod Group
pub mod Fingerprint
pub mod AesGcmSiv
pub mod Utils
pub mod Bridge
