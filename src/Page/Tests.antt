-- ===== src/Page/Tests.antt =====
-- Tests of reading the log at concrete inputs.
use sivfs_public.Base.{
  ℕ, ◌+◌, ◌*◌, ◌<◌, ◌≡◌, refl, true, false, some, List, [], ◌∷◌, arith, replicate, get_or, ok,
  einval,
}
use sivfs_public.Samples.{logged-Logged, both, both_txns, both-IsReadable}
use sivfs_public.Log.{ts_to_log_entry, lookup}
use sivfs_public.Walk.{walk, walk_all}
use sivfs_public.Commit.{at_end}
use sivfs_public.Writeset.{to_stream_info, wse_size}
use sivfs_public.Page.{
  Checkpoint, update_page, page_checkpoint, page_from, page_found, page_done, page_entry, page_body,
  scan, find_first_write, first_scanned, first_done, first_entry, first_found, first_body,
}
use sivfs_public.Page.Scan.{between}
use sivfs_public.Page.Newest.{newest, update_page-newest}
use sivfs_public.Page.First.{find_first_write-first_writer}

abbrev zero_page : List ℕ
zero_page = replicate 512 0

abbrev checkpoint : Checkpoint
checkpoint = record { cp_ts = 0; read = λ ino off. (ok, zero_page) }

fault-both : update_page both 2 9 0 (some checkpoint) [] ≡ some (ok, 5 ∷ 6 ∷ replicate 510 0)
unfolding update_page page_checkpoint page_from page_found page_done page_entry page_body scan
    ts_to_log_entry lookup walk walk_all to_stream_info wse_size at_end
fault-both = refl

-- At the first version only the first entry is seen, and none of another file.
fault-first : update_page both 1 9 0 (some checkpoint) [] ≡ some (ok, 5 ∷ replicate 511 0)
unfolding update_page page_checkpoint page_from page_found page_done page_entry page_body scan
    ts_to_log_entry lookup walk walk_all to_stream_info wse_size at_end
fault-first = refl

fault-unaligned : update_page both 1 9 8 (some checkpoint) [] ≡ some (einval, [])
unfolding update_page
fault-unaligned = refl

first-right : find_first_write 9 8 16 both 0 0 2 ≡ some (ok, 2)
unfolding find_first_write first_scanned first_done first_entry first_found first_body scan
    ts_to_log_entry lookup walk walk_all to_stream_info wse_size at_end
first-right = refl

update_page-newest_example :
    (mem' : List ℕ) × (update_page both 2 9 0 (some checkpoint) [] ≡ some (ok, mem'))
    × ((i : ℕ)
        → i < 512
        → get_or mem' i 0 ≡ newest 9 (0 + 8 * i) (between 1 1 2 both_txns) (get_or zero_page i 0))
update_page-newest_example =
    update_page-newest both both_txns 1 2 9 0 checkpoint [] zero_page refl (refl, (refl, tt))
      both-IsReadable (omega arith) (omega arith) (omega arith) (omega arith) (omega arith) refl
      refl refl

find_first_write-first_writer_example : find_first_write 9 8 16 both 0 0 2 ≡ some (ok, 2)
find_first_write-first_writer_example =
    find_first_write-first_writer 9 8 16 both both_txns 1 0 0 2 refl (refl, (refl, tt))
      (logged-Logged 0 5 1 false true, (logged-Logged 8 6 2 false true, tt)) (omega arith)
      (omega arith) (omega arith) (omega arith) (omega arith) (omega arith)
