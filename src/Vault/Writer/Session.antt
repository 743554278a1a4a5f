-- ===== src/Vault/Writer/Session.antt =====
-- writer.go: a writer from NewWriter to Close. The pipeline of an rs-dual writer runs here in one of
-- its orders: at Drain the workers encode the chunks in turn, then the write loop and the parity loop
-- run. Random bytes are arguments.
use secvault.Prelude.{
  ℕ, Bytes, [], length, Bool, true, false, ◌==◌, not, if◌then◌else◌, String, Option, none, some,
  List, ◌∷◌,
}
use text.Mathlib.Text.{◌==◌ as str_eq}
use secvault.Errors.{
  Error, Result, ok, err, new, bad_key, closed as err_closed, ◌>>=◌, ◌>>◌, reject_if,
}
use secvault.Layout.{Spec, spec_v2, spec_v3, master_key_size}
use secvault.Format.{Manifest, scheme_rs_dual, scheme_gcm_only, scheme_rs_strong}
use secvault.Crypto.{Primitives, derive_key, new_gcm}
use secvault.Codec.{Coding, Cache, new_cache}
use secvault.Device.{Device}
use secvault.Engine.GcmOnly
use secvault.Engine.Strong
use secvault.Engine.GcmOnly.{GcmOnlySink}
use secvault.Engine.Strong.{StrongSink}
use secvault.Engine.Chunk.{encode_job}
use secvault.Engine.Pipeline.Split.{Job, Producer, fresh_producer, flush, write as write_chunks}
use secvault.Engine.Pipeline.Order.{Encoded, fresh_loop, write_loop, err_store}
use secvault.Engine.Pipeline.Groups.{parity_loop, drained}
use secvault.Vault.Writer.{
  WriterOpts, WriterOption, default_opts, apply_options, rs_dual_manifest, rs_dual_offset,
  small_manifest, write_trailer,
}

module _ (p : Primitives) (c : Coding) (d : Device) where
  open p use {Aead}
  open d use {Disk}

  -- What a Pipeline keeps between the calls; `stored` is what errLoad returns.
  pub record Pipe : Type 0 where
    pub dst : Disk
    pub aead : Aead
    pub codecs : Cache c
    pub spec : Spec
    pub nonce_pfx : Bytes
    pub producer : Producer
    pub stored : Option Error

  -- The pipeline, or the sink of one of the other schemes.
  pub data Backend : Type 0 where
    pipeline_backend : Pipe → Backend
    gcm_backend : GcmOnlySink p d → Backend
    strong_backend : StrongSink p c d → Backend

  pub record Writer : Type 0 where
    pub man_aead : Aead
    pub file_id : Bytes
    pub version : ℕ
    pub scheme : String
    pub m2cap : ℕ
    pub backend : Backend
    pub closed : Bool

  abbrev pub dst_of : Backend → Disk
  dst_of (pipeline_backend pipe) = pipe.dst
  dst_of (gcm_backend sink) = sink.dst
  dst_of (strong_backend sink) = sink.dst

  abbrev pub with_dst : Backend → Disk → Backend
  with_dst (pipeline_backend pipe) disk = pipeline_backend (record pipe { dst = disk })
  with_dst (gcm_backend sink) disk = gcm_backend (record sink { dst = disk })
  with_dst (strong_backend sink) disk = strong_backend (record sink { dst = disk })

  -- A worker on one job; after an error it only marks the job as failed.
  abbrev pub encoded_as : Job → Option Error → Result (List Bytes × Bytes) → Encoded × Option Error
  encoded_as j stored (ok (shards, image)) =
      (record { idx = j.idx; plain_len = length j.plain; body = some (shards, image) }, stored)
  encoded_as j stored (err e) =
      (record { idx = j.idx; plain_len = length j.plain; body = none }, err_store stored e)

  abbrev pub work : Pipe → Option Error → Job → Encoded × Option Error
  work pipe (some e) j = (record { idx = j.idx; plain_len = length j.plain; body = none }, some e)
  work pipe none j =
      encoded_as j none (encode_job p c pipe.aead pipe.codecs.intra pipe.nonce_pfx j.idx j.plain)

  unfoldable pub work_all : Pipe → Option Error → List Job → List Encoded × Option Error
  unfolding encode_job
  work_all pipe stored [] = ([], stored)
  work_all pipe stored (j ∷ jobs) =
      let first = work pipe stored j in
      let rest = work_all pipe first.1 jobs in (first.0 ∷ rest.0, rest.1)

  abbrev pub or_stored : Disk → Option Error → ℕ × ℕ → Disk × Result (ℕ × ℕ)
  or_stored disk (some e) counts = (disk, err e)
  or_stored disk none counts = (disk, ok counts)

  -- (*Pipeline).Drain: the file, and the number of chunks with the plain size.
  unfoldable pub drain_pipe : Pipe → Disk × Result (ℕ × ℕ)
  unfolding work_all flush write_loop parity_loop drained
  drain_pipe pipe =
      let sent = flush pipe.producer in
      let (jobs, stored) = work_all pipe pipe.stored sent.encode_ch in
      let wrote =
        write_loop d pipe.spec (record (fresh_loop d pipe.spec pipe.dst) { stored = stored })
          jobs in
      let parity =
        parity_loop p c d pipe.spec
          (record { disk = wrote.disk; codecs = pipe.codecs; blobs = []; stored = wrote.stored })
          (drained p c d pipe.spec wrote) in
      or_stored parity.disk parity.stored (sent.chunk_idx, wrote.plain_size)

  -- What NewWriter makes for each scheme.
  abbrev pub small_writer : Aead → Bytes → String → Backend → Writer
  small_writer man_aead file_id scheme backend = record {
    man_aead = man_aead;
    file_id = file_id;
    version = 3;
    scheme = scheme;
    m2cap = 0;
    backend = backend;
    closed = false;
  }

  abbrev pub new_gcm_writer : Disk → Bytes → Bytes → Aead → Result Writer
  new_gcm_writer dst master_key file_id man_aead = do
    aead ← new_gcm p (derive_key p master_key file_id "secvault/gcm/v1")
    ok (
        small_writer man_aead file_id scheme_gcm_only
          (gcm_backend (record { dst = dst; aead = aead; buf = [] })))

  abbrev pub new_strong_writer : Disk → Bytes → Bytes → Aead → Result Writer
  new_strong_writer dst master_key file_id man_aead = do
    aead ← new_gcm p (derive_key p master_key file_id "secvault/chunk/v1")
    codecs ← new_cache c
    ok (
        small_writer man_aead file_id scheme_rs_strong
          (strong_backend (record { dst = dst; aead = aead; strong = codecs.strong; buf = [] })))

  abbrev pub new_dual_writer :
      Disk → Bytes → WriterOpts → Bytes → Aead → Result Bytes → Result Writer
  new_dual_writer dst master_key o file_id man_aead random_pfx = do
    pfx ← random_pfx
    aead ← new_gcm p (derive_key p master_key file_id "secvault/chunk/v1")
    codecs ← new_cache c
    ok (record {
      man_aead = man_aead;
      file_id = file_id;
      version = if o.format_v3 then 3 else 2;
      scheme = scheme_rs_dual;
      m2cap = o.m2cap;
      backend = pipeline_backend (record {
        dst = dst;
        aead = aead;
        codecs = codecs;
        spec = if o.format_v3 then spec_v3 o.m2cap else spec_v2;
        nonce_pfx = pfx;
        producer = fresh_producer;
        stored = none;
      });
      closed = false;
    })

  -- NewWriter; `none` is a nil destination, and the last arguments are what RandomBytes returned for
  -- the file id and the nonce prefix.
  unfoldable pub new_writer :
      Option Disk → Bytes → List WriterOption → Result Bytes → Result Bytes → Result Writer
  unfolding apply_options new_gcm derive_key new_cache
  new_writer none master_key opts random_id random_pfx =
      reject_if (not (length master_key == master_key_size)) bad_key
      >> err (new "secvault: nil destination")
  new_writer (some dst) master_key opts random_id random_pfx = do
    reject_if (not (length master_key == master_key_size)) bad_key
    let o = apply_options opts default_opts
    file_id ← random_id
    man_aead ← new_gcm p (derive_key p master_key file_id "secvault/manifest/v1")
    (if str_eq o.scheme scheme_gcm_only
        then new_gcm_writer dst master_key file_id man_aead
        else if str_eq o.scheme scheme_rs_strong
        then new_strong_writer dst master_key file_id man_aead
        else new_dual_writer dst master_key o file_id man_aead random_pfx)

  -- A call on a sink that gives its new state and a count.
  abbrev written {ℓ} : {S : Type ℓ} → (S → Backend) → S × ℕ → Backend × ℕ × Option Error
  written back (sink, n) = (back sink, n, none)

  abbrev pub write_backend : Backend → Bytes → Backend × ℕ × Option Error
  write_backend (pipeline_backend pipe) b =
      let (producer, n, e) = write_chunks pipe.stored pipe.producer b in
      (pipeline_backend (record pipe { producer = producer }), n, e)
  write_backend (gcm_backend sink) b = written gcm_backend (GcmOnly.write p d sink b)
  write_backend (strong_backend sink) b = written strong_backend (Strong.write p c d sink b)

  abbrev with_backend : Writer → Backend × ℕ × Option Error → Writer × ℕ × Option Error
  with_backend w (backend, n, e) = (record w { backend = backend }, n, e)

  -- (*Writer).Write
  unfoldable pub write : Writer → Bytes → Writer × ℕ × Option Error
  unfolding write_chunks GcmOnly.write Strong.write
  write w b =
      if w.closed then (w, 0, some err_closed) else with_backend w (write_backend w.backend b)

  -- The calls of Write that a caller makes.
  unfoldable pub write_all : Writer → List Bytes → Writer
  unfolding write
  write_all w [] = w
  write_all w (b ∷ writes) = write_all (write w b).0 writes

  module _ (checksum : Bytes → ℕ) (print_json : Manifest → Result Bytes) where
    abbrev pub put_manifest :
        Writer → Disk → Result (Manifest × ℕ) → Result Bytes → Disk × Result (Unit {0})
    put_manifest w disk (err e) random = (disk, err e)
    put_manifest w disk (ok (man, off)) random =
        write_trailer p d checksum print_json disk w.man_aead w.version w.file_id man off random

    -- closeRSDual, after Drain.
    abbrev pub close_rs_dual :
        Writer → Spec → Disk × Result (ℕ × ℕ) → Result Bytes → Disk × Result (Unit {0})
    close_rs_dual w spec (disk, err e) random = (disk, err e)
    close_rs_dual w spec (disk, ok (chunk_count, plain_size)) random =
        put_manifest w disk
          (ok (
            rs_dual_manifest w.version w.m2cap chunk_count plain_size,
            rs_dual_offset spec chunk_count,
          ))
          random

    -- closeSmall, after Drain.
    abbrev pub close_small : Writer → Disk × Result ℕ → Result Bytes → Disk × Result (Unit {0})
    close_small w (disk, err e) random = (disk, err e)
    close_small w (disk, ok plain_size) random =
        put_manifest w disk (small_manifest w.version w.scheme plain_size) random

    abbrev pub close_backend :
        Writer → Backend → Result Bytes → Result Bytes → Disk × Result (Unit {0})
    close_backend w (pipeline_backend pipe) random_nonce random =
        close_rs_dual w pipe.spec (drain_pipe pipe) random
    close_backend w (gcm_backend sink) random_nonce random =
        close_small w (GcmOnly.drain p d sink random_nonce) random
    close_backend w (strong_backend sink) random_nonce random =
        close_small w (Strong.drain p c d sink random_nonce) random

    abbrev closed_with : Writer → Disk × Result (Unit {0}) → Writer × (Disk × Result (Unit {0}))
    closed_with w (disk, done_) =
        (record w { closed = true; backend = with_dst w.backend disk }, (disk, done_))

    -- (*Writer).Close: the writer, the file and the error after the call; the last arguments are what
    -- RandomBytes returned for the nonce of a sink and of the trailer.
    unfoldable pub close :
        Writer → Result Bytes → Result Bytes → Writer × (Disk × Result (Unit {0}))
    unfolding drain_pipe GcmOnly.drain Strong.drain rs_dual_manifest rs_dual_offset small_manifest
        write_trailer
    close w random_nonce random =
        if w.closed
        then (w, (dst_of w.backend, err err_closed))
        else closed_with w (close_backend w w.backend random_nonce random)
