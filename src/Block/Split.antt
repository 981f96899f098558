-- ===== src/Block/Split.antt =====
-- What a split in `sivfs_alloc_block` of kern/alloc/sivfs_allocation.c writes.
use sivfs_public.Base.{
  ℕ, ◌+◌, ◌-◌, ◌/◌, ◌%◌, ◌^◌, ◌<◌, ◌≡◌, ◌≢◌, refl, sym, subst, ◌∙◌, ap, Bool, true, false, some,
  ◌∷◌, arith, add64, sub64, Rc,
}
use sivfs_public.Page.{page_size}
use sivfs_public.Block.{Chunk, PgInfo, Blocks, update_at, ends_at, cut_bound, cut}
use sivfs_public.Block.Tiling.{
  update-hit, update-miss, ends_at-chunk, ends_at-listed, ends_at-other, ends_at-hit,
}

-- What a split of `cur` does: it keeps `size_requested` bytes, and `remain` starts behind them.
pub record Cut (b : Blocks) (cur size_requested remain size : ℕ) (b' : Blocks) : Type 0 where
  pub chunk_cur : b'.chunk cur ≡ record (b.chunk cur) { size = size_requested }
  pub chunk_remain : b'.chunk remain ≡ record {
    last_freed_ts = (b.chunk cur).last_freed_ts;
    start = (b.chunk cur).start + size_requested;
    size = size;
  }
  pub chunk_other : (i : ℕ) → i ≢ cur → i ≢ remain → b'.chunk i ≡ b.chunk i
  pub page_bound :
      b'.pginfo (((b.chunk cur).start + size_requested) / page_size)
      ≡ some (record {
        boundary_offset = ((b.chunk cur).start + size_requested) % page_size;
        ends_chunk = some cur;
        starts_chunk = some remain;
      })
  pub page_below :
      (pg : ℕ)
      → pg < ((b.chunk cur).start + size_requested) / page_size
      → b'.pginfo pg ≡ b.pginfo pg

-- The chunk behind a split now follows `remain`.
pub record Shifted (b : Blocks) (stop remain : ℕ) (b' : Blocks) : Type 0 where
  pub page_end :
      (p : PgInfo)
      → b.pginfo (stop / page_size) ≡ some p
      → b'.pginfo (stop / page_size) ≡ some (record p { ends_chunk = some remain })
  pub page_after : (pg : ℕ) → stop / page_size < pg → b'.pginfo pg ≡ b.pginfo pg

module _ (inserted : ℕ → Rc) (cur size_requested remain : ℕ) (b : Blocks)
    (fresh : remain ≢ cur) where
  pub cut_bound-Cut :
      (size : ℕ)
      → (b.chunk cur).start + size_requested < 2 ^ 62
      → Cut b cur size_requested remain size (cut_bound inserted cur size_requested remain size b)
  unfolding cut_bound
  cut_bound-Cut size small = record {
    chunk_cur =
        update-miss shorter remain rest cur (λ e. fresh (sym e))
        ∙ update-hit b.chunk cur short cur refl;
    chunk_remain = update-hit shorter remain rest remain refl ∙ ap rest_at boundary;
    chunk_other = λ i h k. update-miss shorter remain rest i k ∙ update-miss b.chunk cur short i h;
    page_bound =
        update-hit b.pginfo page (some (bound (add64 (b.chunk cur).start size_requested)))
          (((b.chunk cur).start + size_requested) / page_size)
          (sym (ap (λ k. k / page_size) boundary))
        ∙ ap (λ k. some (bound k)) boundary;
    page_below = λ pg h.
        update-miss b.pginfo page (some (bound (add64 (b.chunk cur).start size_requested))) pg
          (λ e. omega (arith, h, e, ap (λ k. k / page_size) boundary));
  }
    where
      boundary : add64 (b.chunk cur).start size_requested ≡ (b.chunk cur).start + size_requested
      boundary = omega (arith, small)

      page : ℕ
      page = add64 (b.chunk cur).start size_requested / page_size

      rest_at : ℕ → Chunk
      rest_at k = record { last_freed_ts = (b.chunk cur).last_freed_ts; start = k; size = size }

      rest : Chunk
      rest = rest_at (add64 (b.chunk cur).start size_requested)

      short : Chunk
      short = record (b.chunk cur) { size = size_requested }

      shorter : ℕ → Chunk
      shorter = update_at b.chunk cur short

      bound : ℕ → PgInfo
      bound k = record {
        boundary_offset = k % page_size;
        ends_chunk = some cur;
        starts_chunk = some remain;
      }

  cut_bound-above :
      (size : ℕ)
      → (b.chunk cur).start + size_requested < 2 ^ 62
      → (pg : ℕ) → ((b.chunk cur).start + size_requested) / page_size < pg
      → (cut_bound inserted cur size_requested remain size b).pginfo pg ≡ b.pginfo pg
  unfolding cut_bound
  cut_bound-above size small pg h =
      update-miss b.pginfo (add64 (b.chunk cur).start size_requested / page_size)
        (some (record {
          boundary_offset = add64 (b.chunk cur).start size_requested % page_size;
          ends_chunk = some cur;
          starts_chunk = some remain;
        }))
        pg (λ e. omega (arith, h, e, small))

  pub cut_end-Cut :
      (b.chunk cur).start + (b.chunk cur).size < 2 ^ 62
      → size_requested + page_size < (b.chunk cur).size
      → Cut b cur size_requested remain
          ((b.chunk cur).size - size_requested)
          (cut inserted cur size_requested true remain b)
  unfolding cut
  cut_end-Cut small large =
      subst (λ k. Cut b cur size_requested remain k after) rest_size
        (record {
          chunk_cur = ap (λ f. f cur) same ∙ bound.chunk_cur;
          chunk_remain = ap (λ f. f remain) same ∙ bound.chunk_remain;
          chunk_other = λ i h k. ap (λ f. f i) same ∙ bound.chunk_other i h k;
          page_bound =
              ends_at-other end_page remain mid (((b.chunk cur).start + size_requested) / page_size)
                (λ e. omega (arith, e, small, large))
              ∙ bound.page_bound;
          page_below = λ pg h.
              ends_at-other end_page remain mid pg (λ e. omega (arith, e, h, small, large))
              ∙ bound.page_below pg h;
        })
    where
      rest_size : sub64 (b.chunk cur).size size_requested ≡ (b.chunk cur).size - size_requested
      rest_size = omega (arith, small, large)

      end_page : ℕ
      end_page = add64 (b.chunk cur).start (b.chunk cur).size / page_size

      mid : Blocks
      mid = cut_bound inserted cur size_requested remain (sub64 (b.chunk cur).size size_requested) b

      after : Blocks
      after = ends_at end_page remain mid

      same : after.chunk ≡ mid.chunk
      same = ends_at-chunk end_page remain mid

      bound : Cut b cur size_requested remain (sub64 (b.chunk cur).size size_requested) mid
      bound = cut_bound-Cut (sub64 (b.chunk cur).size size_requested) (omega (arith, small, large))

  pub cut_end-Shifted :
      (b.chunk cur).start + (b.chunk cur).size < 2 ^ 62
      → size_requested + page_size < (b.chunk cur).size
      → Shifted b
          ((b.chunk cur).start + (b.chunk cur).size)
          remain
          (cut inserted cur size_requested true remain b)
  unfolding cut
  cut_end-Shifted small large = record {
    page_end = λ p e.
        subst
          (λ k. (ends_at k remain mid).pginfo stop ≡ some (record p { ends_chunk = some remain }))
          (sym end_page) (ends_at-hit stop remain mid p (above stop (omega (arith, large)) ∙ e));
    page_after = λ pg h.
        subst (λ k. (ends_at k remain mid).pginfo pg ≡ b.pginfo pg) (sym end_page)
          (ends_at-other stop remain mid pg (λ e. omega (arith, h, e))
            ∙ above pg (omega (arith, h, large)));
  }
    where
      stop : ℕ
      stop = ((b.chunk cur).start + (b.chunk cur).size) / page_size

      end_page : add64 (b.chunk cur).start (b.chunk cur).size / page_size ≡ stop
      end_page = omega (arith, small)

      mid : Blocks
      mid = cut_bound inserted cur size_requested remain (sub64 (b.chunk cur).size size_requested) b

      above :
          (pg : ℕ)
          → ((b.chunk cur).start + size_requested) / page_size < pg
          → mid.pginfo pg ≡ b.pginfo pg
      above pg h =
          cut_bound-above (sub64 (b.chunk cur).size size_requested) (omega (arith, small, large)) pg
            h

pub cut-listed :
    (inserted : ℕ → Rc) (cur size_requested remain : ℕ) (b : Blocks) (h : Bool)
    → (cut inserted cur size_requested h remain b).bestfit_list ≡ remain ∷ b.bestfit_list
unfolding cut_bound cut
cut-listed inserted cur size_requested remain b true =
    ends_at-listed _ remain
      (cut_bound inserted cur size_requested remain (sub64 (b.chunk cur).size size_requested) b)
cut-listed inserted cur size_requested remain b false = refl
