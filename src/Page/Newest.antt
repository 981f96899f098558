-- ===== src/Page/Newest.antt =====
-- `my_sivfs_update_page` of kern/sivfs_commit_update_checkpoints.c word by word.
use sivfs_public.Base.{
  ℕ, suc, ◌+◌, ◌-◌, ◌*◌, ◌/◌, ◌%◌, ◌^◌, ◌≤◌, ◌<◌, ◌≡◌, ◌≢◌, refl, ◌∙◌, ap, inl, inr, false, ◌&&◌,
  some, List, [], ◌∷◌, arith, le→ltb, ◌==◌, ==_iff, ==_ne, Bool-cases, if◌then◌else◌, length,
  length-set, set, get_or, get_or-set_self, get_or-set_other, All, All-take, All-drop, drop, add64,
  ok,
}
use sivfs_public.Writeset.Entry.{Entry}
use sivfs_public.Log.{LogEntry, Shared, ts_to_log_entry}
use sivfs_public.Log.Find.{Consecutive}
use sivfs_public.Commit.Validate.{Txn, logs}
use sivfs_public.Page.{
  page_size, same_page, scan, page_entry, page_done, page_found, page_from, page_checkpoint,
  update_page, Checkpoint,
}
use sivfs_public.Page.Scan.{between, scan_fold, scan-between}
use sivfs_public.Page.Replay.{
  IsAligned, IsReadable, replay_entry, replay_entries, replay, scan_fold-replay,
}

ne_of : (a b : ℕ) → (a == b) ≡ false → a ≢ b
ne_of a b h e = ground arith

-- The value of the last of some entries that start at an offset of a file, or else `old`. Of a stream,
-- only the first value counts.
abbrev pub newest_entry : (file_ino offset : ℕ) → List Entry → (old : ℕ) → ℕ
newest_entry file_ino offset [] old = old
newest_entry file_ino offset (e ∷ es) old =
    newest_entry file_ino offset es
      (if e.ino == file_ino && e.file_offset == offset then e.value else old)

-- The value of the last entry that starts there in transactions that were not aborted, or else `old`.
abbrev pub newest : (file_ino offset : ℕ) → List Txn → (old : ℕ) → ℕ
newest file_ino offset [] old = old
newest file_ino offset (r ∷ rs) old =
    newest file_ino offset rs
      (if r.entry.aborted then old else newest_entry file_ino offset r.writes old)

module _ (file_ino file_offset i : ℕ) (page : file_offset % page_size ≡ 0) (within : i < 512) where
  length-replay_entry :
      (e : Entry) (mem : List ℕ) → length (replay_entry file_ino file_offset e mem) ≡ length mem
  length-replay_entry e mem =
      elim (Bool-cases (e.ino == file_ino && same_page e.file_offset file_offset)) [
        | inl hit ↦ rw hit (length-set mem _ e.value)
        | inr miss ↦ rw miss refl
      ]

  replay_entry-newest :
      (e : Entry) (mem : List ℕ)
      → IsAligned e
      → length mem ≡ 512
      → get_or (replay_entry file_ino file_offset e mem) i 0 ≡ (
          if e.ino == file_ino && e.file_offset == file_offset + 8 * i
          then e.value
          else get_or mem i 0)
  replay_entry-newest e mem a n = elim (Bool-cases (e.ino == file_ino)) [
    | inr other ↦ rw other refl
    | inl file ↦ rw file (elim (Bool-cases (same_page e.file_offset file_offset)) [
      | inl hit ↦ rw hit (elim (Bool-cases (e.file_offset == file_offset + 8 * i)) [
        | inl same ↦ rw same (
            ap (λ k. get_or (set mem k e.value) i 0) (index ((==_iff _ _).0 same))
            ∙ get_or-set_self mem i e.value 0 (omega (arith, n, within)))
        | inr differs ↦ rw differs (
            get_or-set_other mem (e.file_offset % page_size / 8) i e.value 0
              (λ k. ne_of _ _ differs (placed ((==_iff _ _).0 hit) k)))
      ])
      | inr miss ↦
          rw
            (
              miss,
              ==_ne e.file_offset (file_offset + 8 * i)
                  (λ k. ne_of _ _ miss (omega (arith, k, page, within))),
            )
            refl
    ])
  ]
    where
      index : e.file_offset ≡ file_offset + 8 * i → e.file_offset % page_size / 8 ≡ i
      index k = omega (arith, k, page, within)

      placed :
          e.file_offset / page_size ≡ file_offset / page_size
          → e.file_offset % page_size / 8 ≡ i
          → e.file_offset ≡ file_offset + 8 * i
      placed k l = omega (arith, k, l, page, a)

  replay_entries-newest :
      (es : List Entry) (mem : List ℕ)
      → All IsAligned es
      → length mem ≡ 512
      → (length (replay_entries file_ino file_offset es mem) ≡ 512)
        × (get_or (replay_entries file_ino file_offset es mem) i 0
            ≡ newest_entry file_ino (file_offset + 8 * i) es (get_or mem i 0))
  replay_entries-newest [] mem a n = (n, refl)
  replay_entries-newest (e ∷ es) mem a n =
      let rest =
        replay_entries-newest es (replay_entry file_ino file_offset e mem) a.1
          (length-replay_entry e mem ∙ n) in
      (
        rest.0,
        rest.1
            ∙ ap (newest_entry file_ino (file_offset + 8 * i) es) (replay_entry-newest e mem a.0 n),
      )

  replay-newest :
      (rs : List Txn) (mem : List ℕ)
      → All IsReadable rs
      → length mem ≡ 512
      → get_or (replay file_ino file_offset rs mem) i 0
        ≡ newest file_ino (file_offset + 8 * i) rs (get_or mem i 0)
  replay-newest [] mem a n = refl
  replay-newest (r ∷ rs) mem a n = elim (Bool-cases r.entry.aborted) [
    | inl gone ↦ rw gone (replay-newest rs mem a.1 n)
    | inr committed ↦ rw committed (
        replay-newest rs (replay_entries file_ino file_offset r.writes mem) a.1 (here.0)
        ∙ ap (newest file_ino (file_offset + 8 * i) rs) here.1)
  ]
    where
      here :
          (length (replay_entries file_ino file_offset r.writes mem) ≡ 512)
          × (get_or (replay_entries file_ino file_offset r.writes mem) i 0
              ≡ newest_entry file_ino (file_offset + 8 * i) r.writes (get_or mem i 0))
      here = replay_entries-newest r.writes mem a.0.aligned n

pub seen-IsReadable :
    (rs : List Txn) (first start stop : ℕ)
    → All IsReadable rs
    → All IsReadable (between first start stop rs)
seen-IsReadable rs first start stop a =
    All-take IsReadable (suc (stop - start)) (drop (start - first) rs)
      (All-drop IsReadable (start - first) rs a)

-- A fault replays the transactions since the checkpoint.
pub update_page-replay :
    (s : Shared) (rs : List Txn) (first target_ts file_ino file_offset : ℕ) (cp : Checkpoint)
    (mem page : List ℕ)
    → s.log ≡ logs rs
    → Consecutive first (logs rs)
    → All IsReadable rs
    → s.master_log_deleted_ts ≤ suc cp.cp_ts
    → first ≤ suc cp.cp_ts
    → suc cp.cp_ts ≤ target_ts
    → target_ts < first + length rs
    → target_ts < 2 ^ 63
    → file_offset % page_size ≡ 0
    → cp.read file_ino file_offset ≡ (ok, page)
    → update_page s target_ts file_ino file_offset (some cp) mem
      ≡ some (ok, replay file_ino file_offset (between first (suc cp.cp_ts) target_ts rs) page)
unfolding update_page page_checkpoint page_from page_found page_done
update_page-replay s rs first target_ts file_ino file_offset cp mem page e c a d f o l small aligned
      read =
    rw
      (
        ==_ne target_ts (2 ^ 64 - 1) (omega (arith, small)),
        (==_iff (file_offset % page_size) 0).1 aligned,
        read,
      )
      (rw (le→ltb (add64 cp.cp_ts 1) target_ts (omega (arith, o, small))) (
        ap (λ k. page_found file_ino file_offset target_ts page (ts_to_log_entry s k k)) next_ts
        ∙ ap (page_found file_ino file_offset target_ts page) got.2
        ∙ ap (page_done file_ino file_offset)
            (got.3 page ∙ scan_fold-replay file_ino file_offset seen page readable)))
  where
    seen : List Txn
    seen = between first (suc cp.cp_ts) target_ts rs

    readable : All IsReadable seen
    readable = seen-IsReadable rs first (suc cp.cp_ts) target_ts a

    next_ts : add64 cp.cp_ts 1 ≡ suc cp.cp_ts
    next_ts = omega (arith, o, small)

    got :
        (c : LogEntry) × (cs : List LogEntry) × (ts_to_log_entry s (suc cp.cp_ts) (suc cp.cp_ts)
          ≡ some (c ∷ cs))
        × ((x : List ℕ)
            → scan (page_entry file_ino file_offset) target_ts (c ∷ cs) x
              ≡ scan_fold (page_entry file_ino file_offset) seen x)
    got =
        scan-between (page_entry file_ino file_offset) s rs first (suc cp.cp_ts) target_ts e c d f o
          l

-- A fault on a page at the version `target_ts` succeeds, where the log has every transaction since the
-- thread's checkpoint: each word of the page is then the value of the last entry that starts
-- at exactly this word, in the transactions after the checkpoint and up to the version that were not
-- aborted, or else what the checkpoint holds. (Of a stream of several values, only the first counts.)
pub update_page-newest :
    (s : Shared) (rs : List Txn) (first target_ts file_ino file_offset : ℕ) (cp : Checkpoint)
    (mem page : List ℕ)
    → s.log ≡ logs rs
    → Consecutive first (logs rs)
    → All IsReadable rs
    → s.master_log_deleted_ts ≤ suc cp.cp_ts
    → first ≤ suc cp.cp_ts
    → suc cp.cp_ts ≤ target_ts
    → target_ts < first + length rs
    → target_ts < 2 ^ 63
    → file_offset % page_size ≡ 0
    → cp.read file_ino file_offset ≡ (ok, page)
    → length page ≡ 512
    → (mem' : List ℕ) × (update_page s target_ts file_ino file_offset (some cp) mem
        ≡ some (ok, mem'))
      × ((i : ℕ)
          → i < 512
          → get_or mem' i 0
            ≡ newest file_ino
                (file_offset + 8 * i)
                (between first (suc cp.cp_ts) target_ts rs)
                (get_or page i 0))
update_page-newest s rs first target_ts file_ino file_offset cp mem page e c a d f o l small aligned
      read full =
    (
      replay file_ino file_offset (between first (suc cp.cp_ts) target_ts rs) page,
      update_page-replay s rs first target_ts file_ino file_offset cp mem page e c a d f o l small
          aligned read,
      λ i within.
          replay-newest file_ino file_offset i aligned within
            (between first (suc cp.cp_ts) target_ts rs) page
            (seen-IsReadable rs first (suc cp.cp_ts) target_ts a) full,
    )
