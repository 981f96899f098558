-- ===== src/Checkpoint/Lookup.antt =====
-- `sivfs_checkpoint_lookup` of kern/sivfs_checkpoints.c.
use sivfs_public.Base.{
  ℕ, ◌-◌, ◌^◌, ◌≤◌, ◌<◌, ◌≡◌, false, Option, none, some, List, [], ◌∷◌, arith, leb, ltb,
  if◌then◌else◌, leb→le, All, All-map, if-cases,
}
use sivfs_public.Checkpoint.{Checkpoints, ts_to_reverse_index, first_from, checkpoint_lookup}

-- Later timestamps have lower indices.
pub ts_to_reverse_index_lem : (ts : ℕ) → ts < 2 ^ 64 → ts_to_reverse_index ts ≡ 2 ^ 64 - 1 - ts
unfolding ts_to_reverse_index
ts_to_reverse_index_lem ts small = omega (arith, small)

module _ (cp_ts : ℕ → ℕ) where
  -- The indices of a tree grow, and each is that of its checkpoint.
  abbrev pub IsTree : List (ℕ × ℕ) → Type 0
  IsTree [] = Unit
  IsTree ((i, cp) ∷ rest) =
      (cp_ts cp < 2 ^ 64)
      × (i ≡ ts_to_reverse_index (cp_ts cp))
      × All (λ e. i < e.0) rest
      × IsTree rest

  -- The newest checkpoint up to a timestamp.
  pub record Newest (ts : ℕ) (tree : List (ℕ × ℕ)) (cp : ℕ) : Type 0 where
    pub not_after : cp_ts cp ≤ ts
    pub no_newer : All (λ e. cp_ts e.1 ≤ ts → cp_ts e.1 ≤ cp_ts cp) tree

  later-older :
      (i : ℕ) (cp : ℕ) (rest : List (ℕ × ℕ))
      → cp_ts cp < 2 ^ 64
      → i ≡ ts_to_reverse_index (cp_ts cp)
      → All (λ e. i < e.0) rest
      → IsTree rest
      → All (λ e. cp_ts e.1 ≤ cp_ts cp) rest
  later-older i cp [] small is a t = tt
  later-older i cp ((j, other) ∷ rest) small is a t = (
    omega (
      arith,
      a.0,
      is,
      t.1,
      ts_to_reverse_index_lem (cp_ts cp) small,
      ts_to_reverse_index_lem (cp_ts other) t.0,
    ),
    later-older i cp rest small is a.1 t.3,
  )

  -- What a look-up answers: the newest checkpoint, or none if all are later.
  abbrev pub Answers : (ts : ℕ) → List (ℕ × ℕ) → Option ℕ → Type 0
  Answers ts tree none = All (λ e. ts < cp_ts e.1) tree
  Answers ts tree (some cp) = Newest ts tree cp

  later-Answers :
      (ts i cp : ℕ) (rest : List (ℕ × ℕ)) (o : Option ℕ)
      → ts < cp_ts cp
      → Answers ts rest o
      → Answers ts ((i, cp) ∷ rest) o
  later-Answers ts i cp rest none h a = (h, a)
  later-Answers ts i cp rest (some found) h a = record {
    not_after = a.not_after;
    no_newer = ((λ not_after. absurd (omega (arith, h, not_after))), a.no_newer);
  }

  first_from-Answers :
      (ts : ℕ) (tree : List (ℕ × ℕ))
      → ts < 2 ^ 64
      → IsTree tree
      → Answers ts tree (first_from (ts_to_reverse_index ts) tree)
  unfolding first_from
  first_from-Answers ts [] small t = tt
  first_from-Answers ts ((i, cp) ∷ rest) small t =
      if-cases (Answers ts ((i, cp) ∷ rest)) (leb (ts_to_reverse_index ts) i) _ _
        (λ here. record {
          not_after = omega (
            arith,
            leb→le _ _ here,
            t.1,
            ts_to_reverse_index_lem ts small,
            ts_to_reverse_index_lem (cp_ts cp) t.0,
            small,
          );
          no_newer = (
            (λ _. omega arith),
            All-map (λ e. cp_ts e.1 ≤ cp_ts cp) (λ e. cp_ts e.1 ≤ ts → cp_ts e.1 ≤ cp_ts cp) rest
                (λ e h _. h) (later-older i cp rest t.0 t.1 t.2 t.3),
          );
        })
        (λ past.
          later-Answers ts i cp rest (first_from (ts_to_reverse_index ts) rest)
            (after past (ts_to_reverse_index_lem ts small) (ts_to_reverse_index_lem (cp_ts cp) t.0))
            (first_from-Answers ts rest small t.3))
    where
      after :
          leb (ts_to_reverse_index ts) i ≡ false
          → ts_to_reverse_index ts ≡ 2 ^ 64 - 1 - ts
          → ts_to_reverse_index (cp_ts cp) ≡ 2 ^ 64 - 1 - cp_ts cp
          → ts < cp_ts cp
      after past e f = omega (arith, below past, e, f, t.1, t.0)
        where
          below : leb (ts_to_reverse_index ts) i ≡ false → i < ts_to_reverse_index ts
          below e' = ground arith

  -- The look-up of a checkpoint answers the newest one that is not after the timestamp asked for and not
  -- after the last one that was published, or none if all are later, in a tree whose indices are those
  -- of the timestamps, below 2 ^ 64.
  pub checkpoint_lookup-Answers :
      (c : Checkpoints) (desired_ts : ℕ)
      → IsTree c.checkpoints_reverse
      → c.latest_checkpoint_published < 2 ^ 64
      → desired_ts < 2 ^ 64
      → Answers
          (if ltb c.latest_checkpoint_published desired_ts
            then c.latest_checkpoint_published
            else desired_ts)
          c.checkpoints_reverse
          (checkpoint_lookup c desired_ts)
  unfolding checkpoint_lookup
  checkpoint_lookup-Answers c desired_ts t small_latest small_desired =
      first_from-Answers
        (if ltb c.latest_checkpoint_published desired_ts
          then c.latest_checkpoint_published
          else desired_ts)
        c.checkpoints_reverse
        (if-cases (λ ts. ts < 2 ^ 64) (ltb c.latest_checkpoint_published desired_ts)
          c.latest_checkpoint_published desired_ts (λ _. small_latest) (λ _. small_desired))
        t
