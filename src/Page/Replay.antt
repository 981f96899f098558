-- ===== src/Page/Replay.antt =====
-- What `my_sivfs_update_page` of kern/sivfs_commit_update_checkpoints.c leaves in a page: the
-- writes to it that were not aborted, replayed in the order of the log.
use sivfs_public.Base.{
  ℕ, ◌*◌, ◌/◌, ◌≡◌, refl, ◌∙◌, ap, inl, inr, ◌&&◌, List, [], ◌∷◌, ◌==◌, Bool-cases, if◌then◌else◌,
  All,
}
use sivfs_public.Writeset.Entry.{Entry}
use sivfs_public.Walk.{next, done, then_next}
use sivfs_public.Walk.Fold.{header, fold, walk_all-fold}
use sivfs_public.Commit.Conflict.{Logged}
use sivfs_public.Commit.Validate.{Txn}
use sivfs_public.Page.{same_page, apply_ws_ent_pg, as_step, page_body, page_entry}
use sivfs_public.Page.Scan.{scan_fold}

-- An entry is for a whole word of its file.
abbrev pub IsAligned : Entry → Type 0
IsAligned e = e.file_offset ≡ 8 * (e.file_offset / 8)

pub record IsReadable (r : Txn) : Type 0 where
  pub logged : Logged r.entry r.writes
  pub aligned : All IsAligned r.writes

module _ (file_ino file_offset : ℕ) where
  abbrev pub replay_entry : Entry → List ℕ → List ℕ
  replay_entry e mem =
      if e.ino == file_ino && same_page e.file_offset file_offset
      then apply_ws_ent_pg (header e) mem
      else mem

  abbrev pub replay_entries : List Entry → List ℕ → List ℕ
  replay_entries [] mem = mem
  replay_entries (e ∷ es) mem = replay_entries es (replay_entry e mem)

  abbrev pub replay : List Txn → List ℕ → List ℕ
  replay [] mem = mem
  replay (r ∷ rs) mem = replay rs (if r.entry.aborted then mem else replay_entries r.writes mem)

  fold-page :
      (es : List Entry) (mem : List ℕ)
      → fold (page_body file_ino file_offset) es mem ≡ done (replay_entries es mem)
  unfolding page_body
  fold-page [] mem = refl
  fold-page (e ∷ es) mem =
      elim (Bool-cases (e.ino == file_ino && same_page e.file_offset file_offset)) [
        | inl hit ↦ rw hit (fold-page es (apply_ws_ent_pg (header e) mem))
        | inr miss ↦ rw miss (fold-page es mem)
      ]

  page_entry-replay :
      (r : Txn) (mem : List ℕ)
      → IsReadable r
      → page_entry file_ino file_offset r.entry mem
        ≡ next (if r.entry.aborted then mem else replay_entries r.writes mem)
  unfolding page_entry
  page_entry-replay r mem l = elim (Bool-cases r.entry.aborted) [
    | inl gone ↦ rw gone refl
    | inr committed ↦ rw committed (
        ap as_step (
          walk_all-fold (page_body file_ino file_offset) r.writes r.entry.ws mem l.logged.entries
            l.logged.holds
          ∙ fold-page r.writes mem))
  ]

  pub scan_fold-replay :
      (rs : List Txn) (mem : List ℕ)
      → All IsReadable rs
      → scan_fold (page_entry file_ino file_offset) rs mem ≡ done (replay rs mem)
  scan_fold-replay [] mem a = refl
  scan_fold-replay (r ∷ rs) mem a =
      ap (λ z. then_next z (scan_fold (page_entry file_ino file_offset) rs))
        (page_entry-replay r mem a.0)
      ∙ scan_fold-replay rs _ a.1
