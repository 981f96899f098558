-- ===== src/Commit/Conflict.antt =====
-- The search for write-write conflicts in kern/sivfs_commit_update_checkpoints.c.
use sivfs_public.Base.{
  ◌≡◌, refl, ◌∙◌, ap, sym, inl, inr, Bool, false, not, ◌&&◌, ◌||◌, Option, some, List, [], ◌∷◌,
  Bool-cases, if◌then◌else◌, ◌==◌,
}
use sivfs_public.Writeset.Entry.{Entry}
use sivfs_public.Writeset.Append.{Holds}
use sivfs_public.Walk.{done, walk_all}
use sivfs_public.Walk.Fold.{header, layout, AreEntries, fold, walk_all-fold}
use sivfs_public.Log.{LogEntry}
use sivfs_public.Commit.{
  ws_ent_conflicts, conflicts_body, ws_ent_conflicts_log, on_conflict, validate_body,
  after_validate, validate_against,
}

-- A log entry whose writeset holds exactly the given well-formed entries.
pub record Logged (log : LogEntry) (es : List Entry) : Type 0 where
  pub holds : Holds (layout es) log.ws
  pub entries : AreEntries es

-- Two entries start at the same word of the same file. What a stream writes behind its first word is
-- not looked at.
abbrev pub same_start : Entry → Entry → Bool
same_start e f = f.ino == e.ino && f.file_offset == e.file_offset

-- Some entry of the list starts at the same word of the same file as `e`.
abbrev pub writes_to : Entry → List Entry → Bool
writes_to e [] = false
writes_to e (f ∷ fs) = same_start e f || writes_to e fs

-- An entry of the one list and an entry of the other start at the same word of the same file.
abbrev pub clash : List Entry → List Entry → Bool
clash [] fs = false
clash (e ∷ es) fs = writes_to e fs || clash es fs

ws_ent_conflicts-same_start :
    (e f : Entry) → ws_ent_conflicts (header f) (header e) ≡ same_start e f
unfolding ws_ent_conflicts
ws_ent_conflicts-same_start e f = refl

fold-conflicts :
    (e : Entry) (fs : List Entry)
    → fold (conflicts_body (header e)) fs false ≡ done (writes_to e fs)
unfolding conflicts_body
fold-conflicts e [] = refl
fold-conflicts e (f ∷ fs) = elim (Bool-cases (same_start e f)) [
  | inl hit ↦ rw (ws_ent_conflicts-same_start e f, hit)
  | inr miss ↦ rw (ws_ent_conflicts-same_start e f, miss) (fold-conflicts e fs)
]

-- `sivfs_ws_ent_conflicts_log` on a log entry whose writeset holds well-formed entries ends, and says
-- whether one of them starts at the same word of the same file as `e`.
pub ws_ent_conflicts_log-writes_to :
    (e : Entry) (log : LogEntry) (fs : List Entry)
    → Logged log fs
    → ws_ent_conflicts_log (header e) log ≡ done (writes_to e fs)
unfolding ws_ent_conflicts_log
ws_ent_conflicts_log-writes_to e log fs l =
    walk_all-fold (conflicts_body (header e)) fs log.ws false l.entries l.holds
    ∙ fold-conflicts e fs

fold-validate :
    (es : List Entry) (other_log : LogEntry) (fs : List Entry)
    → Logged other_log fs
    → fold (validate_body other_log) es false ≡ done (clash es fs)
unfolding validate_body on_conflict
fold-validate [] other_log fs l = refl
fold-validate (e ∷ es) other_log fs l = elim (Bool-cases (writes_to e fs)) [
  | inl hit ↦ rw (ws_ent_conflicts_log-writes_to e other_log fs l, hit)
  | inr miss ↦
      rw (ws_ent_conflicts_log-writes_to e other_log fs l, miss) (fold-validate es other_log fs l)
]

-- `_sivfs_validate` of a transaction not yet aborted against another, both with well-formed entries: it is aborted exactly if the
-- other is not aborted, be it committed or still undecided, and an entry of the one and an entry of
-- the other start at the same word of the same file; nothing else of it changes.
pub validate_against-clash :
    (mine other_log : LogEntry) (es fs : List Entry)
    → mine.aborted ≡ false
    → Logged mine es
    → Logged other_log fs
    → validate_against mine other_log
      ≡ some (record mine { aborted = not other_log.aborted && clash es fs })
unfolding validate_against after_validate
validate_against-clash mine other_log es fs live l m = elim (Bool-cases other_log.aborted) [
  | inl gone ↦
      ap on_status gone ∙ ap (λ b. some (record mine { aborted = b })) live ∙ ap result (sym gone)
  | inr committed ↦
      ap on_status committed
      ∙ ap (λ b. after_validate mine (walk_all (validate_body other_log) mine.ws b)) live
      ∙ ap (after_validate mine) (
          walk_all-fold (validate_body other_log) es mine.ws false l.entries l.holds
          ∙ fold-validate es other_log fs m)
      ∙ ap result (sym committed)
]
  where
    on_status : Bool → Option LogEntry
    on_status b =
        if b
        then some mine
        else after_validate mine (walk_all (validate_body other_log) mine.ws mine.aborted)

    result : Bool → Option LogEntry
    result b = some (record mine { aborted = not b && clash es fs })
