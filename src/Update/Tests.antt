-- ===== src/Update/Tests.antt =====
-- Tests of bringing a thread to a version at concrete inputs.
use sivfs_public.Base.{
  ℕ, ◌≡◌, refl, true, false, some, none, List, [], ◌∷◌, arith, replicate, All, ok,
}
use mathlib.Core.Option
use sivfs_public.Samples.{logged, logged-Logged, shared_with, left, right, txn}
use sivfs_public.Log.{Shared}
use sivfs_public.Walk.Fold.{header}
use sivfs_public.Commit.Validate.{Txn}
use sivfs_public.Page.Scan.{between}
use sivfs_public.Page.Replay.{replay}
use sivfs_public.Update.{
  AnonInode, ThreadState, find_get_wspg, evict_page, evict_checkpoint, apply_ent, update,
  update_direct_access,
}
use sivfs_public.Update.Write.{IsPlain, page_at, written, apply_ent-written}
use sivfs_public.Update.Apply.{Applied, at_page, unskipped}
use sivfs_public.Update.Version.{update-replay, Guarded, update_direct_access-Guarded}

-- File 9 with its first page mapped in.
abbrev mapped : List AnonInode
mapped =
    record {
      ino = 9;
      checkpoint_checked_out = false;
      checkpoint_pages = [];
      pages = record { pgoff = 0; is_checkpoint = false; mem = replicate 512 0 } ∷ [];
    }
    ∷ []

mapped-IsPlain : All IsPlain mapped
mapped-IsPlain = (record { not_checked_out = refl; no_pages = refl; own = (refl, tt) }, tt)

-- The page of a checkpoint is evicted, and not found any more.
find-evicts :
    find_get_wspg true 8 (record {
      ino = 9;
      checkpoint_checked_out = false;
      checkpoint_pages = 0 ∷ 3 ∷ [];
      pages = record { pgoff = 0; is_checkpoint = true; mem = [] } ∷ [];
    })
    ≡ (
      ok,
      none,
      record { ino = 9; checkpoint_checked_out = false; checkpoint_pages = 3 ∷ []; pages = [] },
    )
unfolding find_get_wspg evict_page evict_checkpoint
find-evicts = refl

abbrev thread : ThreadState
thread = record { ts = 0; checkpoint_ts = 0; direct_access = false; workingset = mapped }

abbrev both : Shared
both = shared_with (logged left 1 false true ∷ logged right 2 false true ∷ []) 192 2 2

abbrev both_txns : List Txn
both_txns = txn left 1 true ∷ txn right 2 true ∷ []

apply_ent-written_example :
    (ws' : List AnonInode) × (apply_ent (header right) mapped ≡ (ok, ws'))
    × All IsPlain ws'
    × ((ino pgoff : ℕ)
        → page_at ino pgoff ws'
          ≡ Option.map (written (header right) ino pgoff) (page_at ino pgoff mapped))
apply_ent-written_example = apply_ent-written (header right) mapped mapped-IsPlain

update-replay_example :
    (state' : ThreadState) × (update both 2 1 thread ≡ some (ok, state'))
    × (state'.ts ≡ 2)
    × Applied
        (at_page (λ ino off. replay ino off (unskipped 1 (between 1 1 2 both_txns))))
        mapped
        state'.workingset
update-replay_example =
    update-replay both both_txns 1 2 1 thread refl (refl, (refl, tt))
      (logged-Logged 0 5 1 false true, (logged-Logged 8 6 2 false true, tt)) (omega arith)
      (omega arith) (omega arith) (omega arith) (omega arith) refl mapped-IsPlain

update_direct_access-Guarded_example :
    Guarded both 2
      (record thread { checkpoint_ts = 2 })
      (update_direct_access both 2 (ok, []) (record thread { checkpoint_ts = 2 }))
update_direct_access-Guarded_example =
    update_direct_access-Guarded both 2 (ok, []) (record thread { checkpoint_ts = 2 })
