-- ===== src/Engine/Pipeline/Groups/Written.antt =====
-- The parity of successive groups in the file: parityLoop on whole groups.
use secvault.Prelude.{
  ℕ, suc, ◌≤◌, ◌<◌, ◌≡◌, refl, ap, ◌∙◌, sym, arith, Bytes, length, All, subst, none, List, [], ◌∷◌,
  ◌++◌,
}
use secvault.Errors.{Result, ok, err}
use secvault.Layout.{file_group_chunks, file_parity_shards, Spec, parity_count_for}
use secvault.Layout.Regions.{IsSpec}
use secvault.Crypto.{Primitives}
use secvault.Codec.{Coding, IsCoding, Cache, file}
use secvault.Codec.Files.{IsCache, file-IsCoding}
use secvault.Device.{Device, IsFile}
use secvault.Device.Writes.{Write, put_all, put_all-append}
use secvault.Engine.Pipeline.Groups.{
  ParityLoop, with_encoder, write_parity_group, write_parity_windows, settle_parity,
}
use secvault.Engine.Pipeline.Groups.Windows.{IsShards}
use secvault.Engine.Pipeline.Groups.Writes.{
  window_writes, Wrote, ok-injective, write_parity_windows-Wrote,
}
use secvault.Engine.Pipeline.Groups.Parity.{write_groups}

-- A group of 1 to 128 chunks.
abbrev pub IsGroup : List (List Bytes) → Type 0
IsGroup group = (0 < length group) × (length group ≤ file_group_chunks) × All IsShards group

pub parity_count_bounds :
    (spec : Spec) (k_data : ℕ)
    → IsSpec spec
    → 0 < k_data
    → (0 < parity_count_for spec k_data) × (parity_count_for spec k_data ≤ file_parity_shards)
unfolding parity_count_for
parity_count_bounds spec k_data v h = (ground arith, ground arith)

pub some_chunk : (first : List Bytes) (group : List (List Bytes)) → 0 < length (first ∷ group)
some_chunk first group = omega arith

module _ (p : Primitives) (c : Coding) (d : Device) (spec : Spec) (lib : IsCoding c) where
  -- The parity of data columns of a group, by the library's encoder for its size.
  unfoldable pub parity_of : List (List Bytes) → List Bytes → List Bytes
  parity_of [] cols = []
  parity_of (first ∷ group) cols =
      let k_data = length (first ∷ group) in
      (lib.encoder_lem k_data (parity_count_for spec k_data) (some_chunk first group)).parity cols

  unfoldable pub group_writes : ℕ → List (List (List Bytes)) → List Write
  group_writes g [] = []
  group_writes g (group ∷ groups) =
      window_writes p c d spec g group (parity_of group) 0 12 ++ group_writes (suc g) groups

  module _ (f : IsFile d) (v : IsSpec spec) where
    with_encoder-ok :
        (disk : d.Disk) (g k_data m : ℕ) (group : List (List Bytes)) (rs : c.Encoder)
        (r : Cache c × Result c.Encoder)
        → r.1 ≡ ok rs
        → with_encoder p c d spec disk g k_data m group r
          ≡ (r.0, write_parity_windows p c d spec rs g k_data m group 0 12 disk)
    with_encoder-ok disk g k_data m group rs (codecs, ok x) e =
        ap (λ y. (codecs, write_parity_windows p c d spec y g k_data m group 0 12 disk))
          (ok-injective e)
    with_encoder-ok disk g k_data m group rs (codecs, err x) e = cc

    abbrev GroupWrote : Bytes → Cache c × (d.Disk × Result (Unit {0})) → Type 0
    GroupWrote b r = Wrote p c d spec f b r.1 × IsCache c r.0

    write_parity_group-Wrote :
        (disk : d.Disk) (codecs : Cache c) (g : ℕ) (group : List (List Bytes))
        → IsCache c codecs
        → IsGroup group
        → GroupWrote
            (put_all (d.contents disk) (window_writes p c d spec g group (parity_of group) 0 12))
            (write_parity_group p c d spec disk codecs g (length group) group)
    unfolding write_parity_group parity_of
    write_parity_group-Wrote disk codecs g [] built sized = absurd (omega (arith, sized.0))
    write_parity_group-Wrote disk codecs g (first ∷ group) built sized =
        let k_data = length (first ∷ group) in
        let m = parity_count_for spec k_data in
        let (some_m, few_m) = parity_count_bounds spec k_data v sized.0 in
        let (got, kept) = file-IsCoding c lib codecs k_data m built sized.0 sized.1 some_m few_m in
        let en = lib.encoder_lem k_data m (some_chunk first group) in
        subst
          (GroupWrote
            (put_all (d.contents disk) (window_writes p c d spec g (first ∷ group) en.parity 0 12)))
          (sym (
            with_encoder-ok disk g k_data m (first ∷ group) (lib.encoder_of k_data m)
              (file c codecs k_data m) got))
          (
            write_parity_windows-Wrote p c d spec f (lib.encoder_of k_data m) (first ∷ group) en g
                sized.2 12 0 disk (omega arith),
            kept,
          )

    -- The parity of a run of groups, without an error.
    abbrev pub Finished : Bytes → ParityLoop p c d spec → Type 0
    Finished b s = (d.contents s.disk ≡ b) × (s.stored ≡ none) × IsCache c s.codecs

    settle_parity-Finished :
        (s : ParityLoop p c d spec) (b : Bytes) (r : Cache c × (d.Disk × Result (Unit {0})))
        → s.stored ≡ none
        → GroupWrote b r
        → Finished b (settle_parity p c d spec s r)
    settle_parity-Finished s b (codecs, (disk, ok done_)) e h = (h.0.1, e, h.1)
    settle_parity-Finished s b (codecs, (disk, err x)) e h = cc

    pub write_groups-Finished :
        (groups : List (List (List Bytes))) (s : ParityLoop p c d spec) (g : ℕ)
        → s.stored ≡ none
        → IsCache c s.codecs
        → All IsGroup groups
        → Finished
            (put_all (d.contents s.disk) (group_writes g groups))
            (write_groups p c d spec s g groups)
    unfolding write_groups group_writes put_all
    write_groups-Finished [] s g e built sized = (refl, e, built)
    write_groups-Finished (group ∷ groups) s g e built sized =
        let r = write_parity_group p c d spec s.disk s.codecs g (length group) group in
        let ws = window_writes p c d spec g group (parity_of group) 0 12 in
        let b = put_all (d.contents s.disk) ws in
        let first =
          settle_parity-Finished s b r e
            (write_parity_group-Wrote s.disk s.codecs g group built sized.0) in
        let rest =
          write_groups-Finished groups (settle_parity p c d spec s r) (suc g) first.1 first.2
            sized.1 in
        (
          rest.0
              ∙ ap (λ x. put_all x (group_writes (suc g) groups)) first.0
              ∙ sym (put_all-append (d.contents s.disk) ws (group_writes (suc g) groups)),
          rest.1,
          rest.2,
        )
