-- ===== src/Lib.antt =====
-- Models of the zec-multisig crate: threshold custody for shielded Zcash funds.
--
-- The crate watches a vault's address and turns notes into credits, reads the instruction in each
-- note's memo, keeps the notes with the trees that prove them, and signs payouts among share-holders.
-- The scanner feeds blocks into two note stores and gathers deposits into a snapshot, which is the
-- chain that the watcher polls. The parts modelled here, by file:
--   Shielded.antt (src/shielded.rs): seeing shielded deposits. Shielded/Scan is trial decryption and
--     what a memo makes of a note (`scan_inner`, `take`), Shielded/Classify the attribution of notes
--     (`deposit_index`, `classify`, `classify_addressed`), Shielded/Feed one block into the two note
--     stores (`feed_block`), Shielded/Range the bounded passes of `Scanner` (`observe`, `forced`,
--     `app_payments`, `anchors`, `sync_notes`, and the loop of `reseed`). `ScanTypes` is what the
--     other crates offer of transactions and decryption, `Node` what the node answers. A call that
--     changes the stores returns them with its result, after an error as well.
--   Notes.antt (src/notes.rs): the note store. `NoteTypes` is what the `orchard` and `bridgetree`
--     crates offer; `TreeLaws` in Notes/Calls, and `RewindLaws` in Shielded/Feed/Stores, say what
--     is relied on of the witnessing tree's positions, checkpoints and rewinding. Notes/Steps,
--     Invariant, Keeping, Recognition, Ranking and Selection prove.
--   Zebra.antt (src/zebra.rs): the snapshot `Observed` and the small decoders.
--   Watcher.antt (src/watcher.rs): the deposit watcher. `poll`, `rewind_to`, `resume` and `audit`
--     are functions of the watcher's record and of a `ChainView`, a record of the functions that the
--     trait asks for; a poll returns the watcher after it, with the actions or an error.
--     Watcher/Poll, Batch, Credits, History, Indices, Order and Audit prove.
--   Memo.antt (src/memo.rs): the five memo formats, one file each below Memo/. Memo/Text is the typed
--     deposit, where a `str` is its UTF-8 bytes and a reader's answer is `none` when a slice panics.
--   Account.antt (src/account.rs): an account's identity as a hash of its scheme and key. The hash is
--     an argument.
--   Amount.antt (src/amount.rs): `Fixed`, a signed 128-bit integer scaled by 10^18, as an integer
--     with a range check where the source checks. Amount/Wide has the 256-bit arithmetic on `u128`
--     words with every wrap-around, Amount/Scaled the free functions.
--   Custodian.antt (src/custodian.rs): a share-holder's open requests and the two rounds over them.
--     FROST is a record of functions, `Frost`; the generator is passed along. The map of requests is a
--     list of pairs. Custodian/Ed25519 is the source's inner module of that name, over `Signer`.
--   CustodyNet.antt (src/custody_net.rs): the bodies of the custody protocol and the daemon's dispatch
--     (`handle`) over the participants of Custodian. `Wire` and `SignerWire` are FROST's
--     serialization; the system's generator is an argument of each call.
--   Compact.antt (src/compact.rs): compact blocks, their binary form, and their construction from
--     what `ChainTypes` offers of a block. A reader takes what is left of the input. Compact/Scan is
--     `to_action` and `scan`; decryption is a record of functions, `TrialDecryption`.
-- Base.antt has what they share: Boolean tests, lists and bytes over the native numbers, results,
-- integers, maps and sorting, and `&` and `|` at variables (Base/Bits).
--
-- Bounds: a machine word is a number with its wrap-around written out, and the hypotheses on inputs
-- are the ranges of their types. There is fuel in two places: in the UTF-8 test of Memo/Text, where
-- the length of the text is enough since each character takes at least one byte; and in `walk_to`
-- of Shielded/Range, where the heights still to go are enough. The long division counts its 128
-- rounds down. Every other loop is structural recursion.
--
-- Not modelled: the calls into the orchard and FROST crates, sockets and HTTP (the client of
-- src/zebra.rs, src/lightd.rs, src/dkg_net.rs), the derivation and encoding of addresses, the note
-- store's file format, the seeding of a tree in `reseed`, locks that are poisoned, and the parts of
-- the crate that mostly arrange such calls.
mod Base
pub mod Account
pub mod Amount
pub mod Compact
pub mod Custodian
pub mod CustodyNet
pub mod Memo
pub mod Notes
pub mod Shielded
pub mod Watcher
pub mod Zebra
mod Examples
