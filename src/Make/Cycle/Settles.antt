-- ===== src/Make/Cycle/Settles.antt =====
-- How a whole cycle of `sivfs_make_checkpoint` of kern/sivfs_make_checkpoint.c ends.
use sivfs_public.Base.{ℕ, ◌≢◌, Bool, Option, none, some, List, [], Rc, enomem}
use sivfs_public.Log.{Shared}
use sivfs_public.Make.{override}
use sivfs_public.Make.Cycle.{Cycle, Answers}
use sivfs_public.Make.Cycle.Publishes.{Settled}

module _ (zero_pxd_page : List ℕ) (answers : Answers) (s : Shared) (c : Cycle) where
  -- How a cycle may end.
  abbrev pub Settles : Option (Rc × Bool × Cycle) → Type 0
  Settles none = ⊥
  Settles (some r) = Settled s.master_ts answers.new_inode.1 c (λ rc. rc ≢ enomem) r

  module _ (prior : ℕ) where
    abbrev new : ℕ
    new = answers.new_inode.1

    abbrev started : Cycle
    started = record c {
      maker = record (c.maker) { root = (c.cpinfo prior).cp_root; obsoleted_pages = some [] };
      cpinfo =
          override c.cpinfo new
            (record (c.cpinfo new) { cp_root = (c.cpinfo prior).cp_root; cp_ts = s.master_ts });
    }
