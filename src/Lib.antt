-- ===== src/Lib.antt =====
-- secvault: containers of encrypted data that survive damage. A container has one of three schemes:
-- gcm-only (detects damage), rs-strong (one blob of 96 slots, 64 of which may be lost) and rs-dual
-- (chunks of 384 slots in groups of 128, with parity blobs for each group).
--
-- How the parts correspond to the code (paths from the repository's root):
--   Layout    internal/layout/layout.go: constants, sizes, groups, offsets
--   Format    internal/format/format.go: chunk header, manifest and its checks, trailer
--   Errors    internal/errors/errors.go and errors.go: sentinels, Wrap, Is
--   Crypto    internal/crypto/crypto.go: keys, AEAD, shard tags
--   Codec     internal/codec/codec.go: the cache of encoders, views of windows
--   Device    the file that a container stands in, what reads and writes do to it (Reads, Writes),
--             and internal/testutil/testutil.go (MemFile, Faults)
--   Engine    internal/engine: Stats and Strong (strong.go, scrub.go), GcmOnly (gcm_only.go,
--             scrub.go), Window (window.go), Container and Rebuild (container.go), Chunk (encodeJob
--             of pipeline.go), Pipeline (the rest of pipeline.go), Scrub with Sweep, Regroup and
--             FileParity for its three passes (scrub.go)
--   Vault     reader.go: ReadAt and ReadChunkAt over what they use of a container; writer.go: the
--             options, the manifests and offsets of Close, the trailer, and in Writer/Session NewWriter,
--             Write and Close; Scrub: scrub.go; RoundTrip: a writer and a reader on one file
--   Prelude   shared names, lists, slices, words and signed integers
--   Examples  the theorems at concrete inputs
-- A method that changes an object takes its state and returns the new one; an operation that may
-- fail returns a Result, and one that writes to a file returns the file after the call with it.
--
-- Parameters, with their documented behaviour as hypotheses: AES-GCM, SHA-256 and HKDF
-- (Crypto.Primitives, IsCrypto), the Reed-Solomon encoders (Codec.Coding, IsEncoder), the file
-- (Device.Device, IsFile), the CRC. The random bytes of a nonce are an argument. A read of a file
-- returns all the bytes that are there.
--
-- Bounds: offsets and sizes are natural numbers in Layout and in Engine, which is what the program's
-- int64 holds for up to 2^40 chunks and 2^60 bytes (Layout/Bounds). Where a manifest is checked, Format
-- writes the wrap-around of int64 out, but for StrongShardSize. A manifest with larger numbers that
-- passes these checks is outside of the model of Engine: there the program's offsets and sizes
-- wrap, and what it does then is left out. Loops are structural recursion, but for three that have
-- fuel: those of ReadAt and of the pipeline's Write get the number of bytes, and each round takes one
-- at least; the inner loop of writeLoop gets the number of jobs that wait, and each round takes one.
--
-- Concurrency: the channels of the pipeline are lists of what was sent to them. The workers may deliver
-- the chunks in any order, and the write loop gets them in that order; the parity loop runs
-- on its messages and on the file after the write loop is done.
-- That the two loops of the program write to one file at the same time, each call of seekWrite a Seek
-- and a Write with no lock, is not modelled, and Drain in Writer/Session runs the workers, the write
-- loop and the parity loop in turn.
-- Scrub reads the file that it writes to, so the container and the writer are one state in it.
--
-- Not modelled: the start and the end of the goroutines and the pools of buffers (no result depends on
-- them), the helpers of internal/testutil that make vaults, the demo and the benchmarks.
pub mod Prelude
pub mod Errors
pub mod Layout
pub mod Format
pub mod Crypto
pub mod Codec
pub mod Device
pub mod Engine
pub mod Vault
pub mod Examples
