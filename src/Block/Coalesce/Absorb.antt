-- ===== src/Block/Coalesce/Absorb.antt =====
-- What `sivfs_coalesce_with_next` of kern/alloc/sivfs_allocation.c writes where a chunk takes in the
-- next one.
use sivfs_public.Base.{
  ℕ, ◌+◌, ◌/◌, ◌^◌, ◌≤◌, ◌<◌, ◌≡◌, ◌≢◌, refl, subst, ◌∙◌, ap, none, some, arith, Rc, add64,
}
use sivfs_public.Page.{page_size}
use sivfs_public.Block.{Chunk, PgInfo, Blocks, minus_one, set_chunk, ends_at, set_pginfo}
use sivfs_public.Block.Tiling.{update-hit, ends_at-chunk, ends_at-other, ends_at-hit, update-miss}
use sivfs_public.Block.Split.{Shifted}
use sivfs_public.Block.Coalesce.{absorb}

module _ (inserted : ℕ → Rc) (b : Blocks) (id next : ℕ)
    (follows : (b.chunk next).start ≡ (b.chunk id).start + (b.chunk id).size)
    (page_id : page_size ≤ (b.chunk id).size) (page_next : page_size ≤ (b.chunk next).size)
    (small : (b.chunk next).start + (b.chunk next).size < 2 ^ 62) where
  grown : Chunk
  grown = record (b.chunk id) { size = add64 (b.chunk id).size (b.chunk next).size }

  boundary : ℕ
  boundary = add64 (b.chunk id).start (b.chunk id).size / page_size

  stop : ℕ
  stop = add64 (b.chunk next).start (b.chunk next).size / page_size

  gone : PgInfo
  gone = record { boundary_offset = minus_one; ends_chunk = none; starts_chunk = none }

  unbound : Blocks
  unbound = set_pginfo boundary gone (set_chunk id grown b)

  boundary-page : boundary ≡ (b.chunk next).start / page_size
  unfolding boundary
  boundary-page = omega (arith, follows, small)

  stop-page : stop ≡ ((b.chunk next).start + (b.chunk next).size) / page_size
  unfolding stop
  stop-page = omega (arith, small)

  pub absorb-others : (i : ℕ) → i ≢ id → (absorb inserted id next b).chunk i ≡ b.chunk i
  unfolding absorb unbound boundary stop gone grown
  absorb-others i n =
      ap (λ f. f i) (ends_at-chunk stop id unbound) ∙ update-miss b.chunk id grown i n

  pub absorb-grown :
      (absorb inserted id next b).chunk id
      ≡ record (b.chunk id) { size = (b.chunk id).size + (b.chunk next).size }
  unfolding absorb unbound boundary stop gone grown
  absorb-grown =
      ap (λ f. f id) (ends_at-chunk stop id unbound)
      ∙ update-hit b.chunk id grown id refl
      ∙ ap (λ k. record (b.chunk id) { size = k }) sum
    where
      sum : add64 (b.chunk id).size (b.chunk next).size ≡ (b.chunk id).size + (b.chunk next).size
      sum = omega (arith, follows, small)

  absorb-page :
      (pg : ℕ) → pg ≢ boundary → pg ≢ stop → (absorb inserted id next b).pginfo pg ≡ b.pginfo pg
  unfolding absorb unbound boundary stop gone grown
  absorb-page pg n k =
      ends_at-other stop id unbound pg k ∙ update-miss b.pginfo boundary (some gone) pg n

  pub absorb-below :
      (pg : ℕ)
      → pg < (b.chunk next).start / page_size
      → (absorb inserted id next b).pginfo pg ≡ b.pginfo pg
  absorb-below pg h =
      absorb-page pg (λ e. omega (arith, e, h, boundary-page)) (λ e. omega (arith, e, h, stop-page))

  pub absorb-Shifted :
      Shifted b ((b.chunk next).start + (b.chunk next).size) id (absorb inserted id next b)
  unfolding absorb unbound boundary stop gone grown
  absorb-Shifted = record {
    page_end = λ p e.
        subst (λ k. (ends_at stop id unbound).pginfo k ≡ some (record p { ends_chunk = some id }))
          stop-page
          (ends_at-hit stop id unbound p (
            update-miss b.pginfo boundary (some gone) stop
              (λ same. omega (arith, same, boundary-page, stop-page, page_next))
            ∙ ap b.pginfo stop-page
            ∙ e));
    page_after = λ pg h.
        absorb-page pg (λ e. omega (arith, e, h, boundary-page))
          (λ e. omega (arith, e, h, stop-page));
  }
