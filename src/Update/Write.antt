-- ===== src/Update/Write.antt =====
-- What one writeset entry does to the workingset, in kern/sivfs_commit_update_checkpoints.c and
-- kern/sivfs_workingset.c, page by page.
use sivfs_public.Base.{
  ℕ, ◌/◌, ◌≡◌, ◌≢◌, refl, sym, subst, ◌∙◌, ap, inl, inr, Bool, true, false, ◌&&◌, Option, none,
  some, List, [], ◌∷◌, arith, ◌==◌, ==_iff, ==_ne, Bool-cases, Option-cases, if◌then◌else◌, Rc, ok,
  All,
}
use mathlib.Core.Option
use mathlib.Core.Option.{some-injective}
use sivfs_public.Walk.{Head}
use sivfs_public.Page.{page_size, apply_ws_ent_pg}
use sivfs_public.Update.{
  AnonPage, AnonInode, find_page, write_page, unmap_page, has_page, delete_page, evict_checkpoint,
  evict_page, find_get_wspg, apply_found, apply_ent,
}

-- No page of a checkpoint is mapped in.
pub record IsPlain (a : AnonInode) : Type 0 where
  pub not_checked_out : a.checkpoint_checked_out ≡ false
  pub no_pages : a.checkpoint_pages ≡ []
  pub own : All (λ (p : AnonPage). p.is_checkpoint ≡ false) a.pages

abbrev pub page_in : ℕ → List AnonPage → Option (List ℕ)
page_in pgoff [] = none
page_in pgoff (p ∷ ps) = if p.pgoff == pgoff then some p.mem else page_in pgoff ps

-- The contents of a page of the workingset, if it is mapped in.
abbrev pub page_at : (ino pgoff : ℕ) → List AnonInode → Option (List ℕ)
page_at ino pgoff [] = none
page_at ino pgoff (a ∷ more) =
    if a.ino == ino then page_in pgoff a.pages else page_at ino pgoff more

-- An entry changes its own page only.
abbrev pub written : Head → (ino pgoff : ℕ) → List ℕ → List ℕ
written ent ino pgoff mem =
    if ent.ino == ino && ent.file_offset / page_size == pgoff then apply_ws_ent_pg ent mem else mem

page_in-write_page :
    (ent : Head) (q pgoff : ℕ) (ps : List AnonPage)
    → page_in pgoff (write_page q ent ps)
      ≡ Option.map (λ mem. if q == pgoff then apply_ws_ent_pg ent mem else mem) (page_in pgoff ps)
page_in-write_page ent q pgoff [] = refl
page_in-write_page ent q pgoff (p ∷ ps) = ground (arith, page_in-write_page ent q pgoff ps)

write_page-absent :
    (ent : Head) (q : ℕ) (ps : List AnonPage) → find_page q ps ≡ none → write_page q ent ps ≡ ps
write_page-absent ent q [] h = refl
write_page-absent ent q (p ∷ ps) h = ground (arith, write_page-absent ent q ps)

abbrev IsOwn : AnonPage → Type 0
IsOwn p = p.is_checkpoint ≡ false

write_page-IsOwn :
    (ent : Head) (q : ℕ) (ps : List AnonPage) → All IsOwn ps → All IsOwn (write_page q ent ps)
write_page-IsOwn ent q [] a = tt
write_page-IsOwn ent q (p ∷ ps) a = elim (Bool-cases (p.pgoff == q)) [
  | inl here ↦ rw here (a.0, a.1)
  | inr other ↦ rw other (a.0, write_page-IsOwn ent q ps a.1)
]

find_page-IsOwn :
    (q : ℕ) (ps : List AnonPage) (p : AnonPage) → All IsOwn ps → find_page q ps ≡ some p → IsOwn p
find_page-IsOwn q [] p a h = cc
find_page-IsOwn q (x ∷ ps) p a h = elim (Bool-cases (x.pgoff == q)) [
  | inl here ↦ subst IsOwn (some-injective x p (sym (ap pick here) ∙ h)) a.0
  | inr other ↦ find_page-IsOwn q ps p a.1 (sym (ap pick other) ∙ h)
]
  where
    pick : Bool → Option AnonPage
    pick b = if b then some x else find_page q ps

evict_checkpoint-plain : (q : ℕ) (a : AnonInode) → IsPlain a → evict_checkpoint q a ≡ a
unfolding evict_checkpoint
evict_checkpoint-plain q a h =
    ap
      (λ b.
        if b then record a { checkpoint_checked_out = false; pages = unmap_page q a.pages } else a)
      h.not_checked_out

evict_page-plain : (q : ℕ) (a : AnonInode) → IsPlain a → evict_page q a ≡ a
unfolding evict_page
evict_page-plain q a h =
    ap
      (λ b.
        if b
        then record a {
          checkpoint_pages = delete_page q a.checkpoint_pages;
          pages = unmap_page q a.pages;
        }
        else a)
      (ap (has_page q) h.no_pages)

find_get_wspg-plain :
    (offset : ℕ) (a : AnonInode)
    → IsPlain a
    → find_get_wspg true offset a ≡ (ok, find_page (offset / page_size) a.pages, a)
unfolding find_get_wspg
find_get_wspg-plain offset a h =
    ap (λ (b : AnonInode). (ok, find_page (offset / page_size) b.pages, b))
      (ap (evict_page (offset / page_size)) (evict_checkpoint-plain (offset / page_size) a h)
        ∙ evict_page-plain (offset / page_size) a h)

after_write : Head → AnonInode → AnonInode
after_write ent a = record a { pages = write_page (ent.file_offset / page_size) ent a.pages }

apply_found-plain :
    (ent : Head) (a : AnonInode)
    → IsPlain a
    → apply_found ent (find_get_wspg true ent.file_offset a) ≡ (ok, after_write ent a)
unfolding apply_found after_write
apply_found-plain ent a h =
    ap (apply_found ent) (find_get_wspg-plain ent.file_offset a h)
    ∙ elim (Option-cases (find_page (ent.file_offset / page_size) a.pages)) [
      | inl absent ↦ rw absent (
          ap (λ ps. (ok, record a { pages = ps }))
            (sym (write_page-absent ent (ent.file_offset / page_size) a.pages absent)))
      | inr (p, found) ↦
          rw (found, find_page-IsOwn (ent.file_offset / page_size) a.pages p h.own found) refl
    ]

ne_of : (a b : ℕ) → (a == b) ≡ false → a ≢ b
ne_of a b h e = ground arith

written-same :
    (ent : Head) (ino pgoff : ℕ) (o : Option (List ℕ))
    → (ent.ino == ino) ≡ true
    → Option.map
        (λ mem. if ent.file_offset / page_size == pgoff then apply_ws_ent_pg ent mem else mem)
        o
      ≡ Option.map (written ent ino pgoff) o
written-same ent ino pgoff none e = refl
written-same ent ino pgoff (some mem) e = rw e refl

written-other :
    (ent : Head) (ino pgoff : ℕ) (o : Option (List ℕ))
    → (ent.ino == ino) ≡ false
    → o ≡ Option.map (written ent ino pgoff) o
written-other ent ino pgoff none e = refl
written-other ent ino pgoff (some mem) e = rw e refl

page_at-here :
    (ent : Head) (a : AnonInode) (more : List AnonInode)
    → a.ino ≡ ent.ino
    → (ino pgoff : ℕ)
    → page_at ino pgoff (after_write ent a ∷ more)
      ≡ Option.map (written ent ino pgoff) (page_at ino pgoff (a ∷ more))
unfolding after_write
page_at-here ent a more e ino pgoff = elim (Bool-cases (a.ino == ino)) [
  | inl same ↦ rw same (
      page_in-write_page ent (ent.file_offset / page_size) pgoff a.pages
      ∙ written-same ent ino pgoff (page_in pgoff a.pages) (subst (λ n. (n == ino) ≡ true) e same))
  | inr other ↦ rw other (
      written-other ent ino pgoff (page_at ino pgoff more)
        (subst (λ n. (n == ino) ≡ false) e other))
]

page_at-past :
    (ent : Head) (a : AnonInode) (more more' : List AnonInode)
    → a.ino ≢ ent.ino
    → ((ino pgoff : ℕ)
        → page_at ino pgoff more' ≡ Option.map (written ent ino pgoff) (page_at ino pgoff more))
    → (ino pgoff : ℕ)
    → page_at ino pgoff (a ∷ more')
      ≡ Option.map (written ent ino pgoff) (page_at ino pgoff (a ∷ more))
page_at-past ent a more more' n f ino pgoff = elim (Bool-cases (a.ino == ino)) [
  | inl same ↦ rw same (
      written-other ent ino pgoff (page_in pgoff a.pages)
        (==_ne ent.ino ino (λ e. n ((==_iff _ _).0 same ∙ sym e))))
  | inr other ↦ rw other (f ino pgoff)
]

after_write-IsPlain : (ent : Head) (a : AnonInode) → IsPlain a → IsPlain (after_write ent a)
unfolding after_write
after_write-IsPlain ent a h = record {
  not_checked_out = h.not_checked_out;
  no_pages = h.no_pages;
  own = write_page-IsOwn ent (ent.file_offset / page_size) a.pages h.own;
}

-- One entry of a log entry, applied to a workingset without checkpoint pages: it always succeeds, and
-- changes the page of the entry, if that is mapped in, and no other.
pub apply_ent-written :
    (ent : Head) (ws : List AnonInode)
    → All IsPlain ws
    → (ws' : List AnonInode) × (apply_ent ent ws ≡ (ok, ws'))
      × All IsPlain ws'
      × ((ino pgoff : ℕ)
          → page_at ino pgoff ws' ≡ Option.map (written ent ino pgoff) (page_at ino pgoff ws))
unfolding apply_ent
apply_ent-written ent [] h = ([], refl, tt, λ ino pgoff. refl)
apply_ent-written ent (a ∷ more) h = elim (Bool-cases (a.ino == ent.ino)) [
  | inl here ↦ rw here (
    after_write ent a ∷ more,
    ap (λ (r : Rc × AnonInode). (r.0, r.1 ∷ more)) (apply_found-plain ent a h.0),
    (after_write-IsPlain ent a h.0, h.1),
    λ ino pgoff. page_at-here ent a more ((==_iff _ _).0 here) ino pgoff,
  )
  | inr other ↦
      let rest = apply_ent-written ent more h.1 in
      rw other (
        a ∷ rest.0,
        ap (λ (r : Rc × List AnonInode). (r.0, a ∷ r.1)) rest.1,
        (h.0, rest.2),
        λ ino pgoff. page_at-past ent a more rest.0 (ne_of a.ino ent.ino other) rest.3 ino pgoff,
      )
]
