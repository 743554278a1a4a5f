-- ===== src/Engine/Stats.antt =====
-- The counts of a scrub: ScrubStats of internal/engine/scrub.go.
use secvault.Prelude.{ℕ, ◌+◌, List, [], length, ◌≡◌}

pub record ScrubStats : Type 0 where
  pub chunks_total : ℕ
  pub chunks_clean : ℕ
  pub chunks_repaired : ℕ
  pub chunks_rebuilt : ℕ
  pub chunks_lost : List ℕ
  pub shards_bad : ℕ
  pub shards_repaired : ℕ
  pub parity_slots_bad : ℕ
  pub parity_shards_fixed : ℕ

-- &ScrubStats{ChunksTotal: n}
abbrev pub fresh_stats : ℕ → ScrubStats
fresh_stats n = record {
  chunks_total = n;
  chunks_clean = 0;
  chunks_repaired = 0;
  chunks_rebuilt = 0;
  chunks_lost = [];
  shards_bad = 0;
  shards_repaired = 0;
  parity_slots_bad = 0;
  parity_shards_fixed = 0;
}

-- Each chunk is counted once: the sum that Report promises.
abbrev pub IsTallied : ScrubStats → Type 0
IsTallied st =
    st.chunks_clean + st.chunks_repaired + st.chunks_rebuilt + length st.chunks_lost
    ≡ st.chunks_total
