-- ===== src/Storage/Laws.antt =====
-- The cells that storage_malloc hands out are in use by no one else.
use c_algorithm.Base.{
  ℕ, ◌+◌, ◌*◌, ◌^◌, ◌≤◌, ◌<◌, ◌≡◌, ◌≢◌, ltb, ◌==◌, if◌then◌else◌, Bool-cases, inl, inr, List, [],
  ◌∷◌, arith, ◌-◌, ◌/◌, ◌%◌, ok, int_max, to_int-ok, Returns, returns,
}
use c_algorithm.Storage.{Page, Storage, cells_of, new_page, storage_malloc}

-- how many cells of the page at an address are handed out, and how many it has; 0 for no page
abbrev pub used_at : List Page → ℕ → ℕ
used_at [] p = 0
used_at (page ∷ pages) p = if page.address == p then page.use_cell_num else used_at pages p

abbrev pub cells_at : List Page → ℕ → ℕ
cells_at [] p = 0
cells_at (page ∷ pages) p = if page.address == p then page.cell_num else cells_at pages p

-- no page stands at an address from `unused` on, and none has more cells in use than it has
pub record IsStorage (s : Storage) : Type 0 where
  pub fresh : (p : ℕ) → s.unused ≤ p → cells_at s.page_list p ≡ 0
  pub fits : (p : ℕ) → used_at s.page_list p ≤ cells_at s.page_list p

-- the cells of a page list's first page that are handed out
abbrev pub head_used : List Page → ℕ
head_used [] = 0
head_used (page ∷ pages) = page.use_cell_num

-- The cells from the place on are the bytes asked for; they were not in use, and they are the only
-- ones that come into use.
pub record HandedOut (s : Storage) (size : ℕ) (r : (ℕ × ℕ) × Storage) : Type 0 where
  pub cells : ℕ
  pub counted : cells_of size ≡ ok cells
  pub enough : size ≤ 8 * cells
  pub not_used : used_at s.page_list r.0.0 ≤ r.0.1
  pub in_page : r.0.1 + cells ≤ cells_at r.1.page_list r.0.0
  pub in_use : used_at r.1.page_list r.0.0 ≡ r.0.1 + cells
  pub others : (q : ℕ) → q ≢ r.0.0 → used_at r.1.page_list q ≡ used_at s.page_list q
  pub storage : IsStorage r.1

cells_of-ok : (size : ℕ) → 0 < size → size ≤ 8 * int_max → cells_of size ≡ ok ((size + 7) / 8)
unfolding cells_of
cells_of-ok size h w =
    let count : ((size + (2 ^ 64 - 1)) % 2 ^ 64 / 8 + 1) % 2 ^ 32 ≡ (size + 7) / 8 = omega arith in
    rw count (to_int-ok ((size + 7) / 8) (omega arith))

new_page-HandedOut :
    (s : Storage) (size cells : ℕ)
    → IsStorage s
    → cells_of size ≡ ok cells
    → size ≤ 8 * cells
    → HandedOut s size (new_page s cells)
new_page-HandedOut s size cells i counted enough = record {
  cells = cells;
  counted = counted;
  enough = enough;
  not_used = ground (arith, i.fresh s.unused, i.fits s.unused);
  in_page = ground arith;
  in_use = ground arith;
  others = λ q ne. ground arith;
  storage = record {
    fresh = λ p h. ground (arith, i.fresh p);
    fits = λ p. ground (arith, i.fits p);
  };
}

storage_malloc-pages :
    (pages : List Page) (page_size unused size cells : ℕ)
    → IsStorage (record { page_list = pages; current_page_size = page_size; unused = unused })
    → cells_of size ≡ ok cells
    → size ≤ 8 * cells
    → head_used pages + cells ≤ int_max
    → Returns
        (HandedOut
          (record { page_list = pages; current_page_size = page_size; unused = unused })
          size)
        (storage_malloc
          (record { page_list = pages; current_page_size = page_size; unused = unused })
          size)
unfolding storage_malloc
storage_malloc-pages [] page_size unused size cells i counted enough small =
    rw counted (returns (new_page-HandedOut _ size cells i counted enough))
storage_malloc-pages (page ∷ pages) page_size unused size cells i counted enough small =
    rw (counted, to_int-ok (page.use_cell_num + cells) small)
      (elim (Bool-cases (ltb (page.use_cell_num + cells) page.cell_num)) [
        | inr full ↦ rw full (returns (new_page-HandedOut _ size cells i counted enough))
        | inl room ↦ rw room (
            returns (record {
              cells = cells;
              counted = counted;
              enough = enough;
              not_used = ground arith;
              in_page = ground arith;
              in_use = ground arith;
              others = λ q ne. ground arith;
              storage = record {
                fresh = λ p h. ground (arith, i.fresh p);
                fits = λ p. ground (arith, i.fits p);
              };
            }))
      ])

-- storage_malloc of 1 to 8 * INT_MAX bytes, if the cells in use in the first page and the new ones
-- are together at most INT_MAX, hands out cells that no one else uses, in a page that has them, and
-- leaves all others in use as they were.
pub storage_malloc-HandedOut :
    (s : Storage) (size : ℕ)
    → IsStorage s
    → 0 < size
    → size ≤ 8 * int_max
    → head_used s.page_list + (size + 7) / 8 ≤ int_max
    → Returns (HandedOut s size) (storage_malloc s size)
storage_malloc-HandedOut s size i some_bytes bound small =
    storage_malloc-pages s.page_list s.current_page_size s.unused size ((size + 7) / 8) i
      (cells_of-ok size some_bytes bound) (omega arith) small
