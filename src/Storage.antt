-- ===== src/Storage.antt =====
-- tlang/tstorage.c: cells handed out from pages, which are freed together. A page stands under the
-- address that MEM_malloc_func gave out; the sizes of `int` and `size_t` are 32 and 64 bits.
pub mod Laws
mod Tests
use c_algorithm.Base.{
  ℕ, suc, ◌+◌, ◌-◌, ◌*◌, ◌/◌, ◌%◌, ◌^◌, ltb, ◌==◌, if◌then◌else◌, Bool, true, false, List, [], ◌∷◌,
  Run, ok, to_int, ◌>>=◌,
}

-- struct MemoryPage_tag
pub record Page : Type 0 where
  pub address : ℕ
  pub cell_num : ℕ
  pub use_cell_num : ℕ

-- struct MEM_Storage_tag; `unused` is the next address that MEM_malloc_func gives out
pub record Storage : Type 0 where
  pub page_list : List Page
  pub current_page_size : ℕ
  pub unused : ℕ

-- `((size - 1) / CELL_SIZE) + 1`, as an `int`. What the code does with a negative one is left out:
-- it is a fault.
unfoldable pub cells_of : ℕ → Run ℕ
cells_of size = to_int (((size + (2 ^ 64 - 1)) % 2 ^ 64 / 8 + 1) % 2 ^ 32)

unfoldable pub open_storage : (unused page_size : ℕ) → Storage
open_storage unused page_size = record {
  page_list = [];
  current_page_size = if ltb 0 page_size then page_size else 1024;
  unused = unused;
}

-- the branch with a new page: the page, the cell, and the storage
abbrev pub new_page : Storage → ℕ → (ℕ × ℕ) × Storage
new_page storage cell_num = (
  (storage.unused, 0),
  record storage {
    page_list =
        record {
          address = storage.unused;
          cell_num =
              if ltb storage.current_page_size cell_num
              then cell_num
              else storage.current_page_size;
          use_cell_num = cell_num;
        }
        ∷ storage.page_list;
    unused = suc storage.unused;
  },
)

-- the page and the cell in it, and the storage; the sum of the cells is an `int`
unfoldable pub storage_malloc : Storage → (size : ℕ) → Run ((ℕ × ℕ) × Storage)
storage_malloc storage size = do
  cell_num ← cells_of size
  elim (storage.page_list) [
    | [] ↦ ok (new_page storage cell_num)
    | page ∷ pages ↦ do
      used ← to_int (page.use_cell_num + cell_num)
      if ltb used page.cell_num
          then ok (
            (page.address, page.use_cell_num),
            record storage { page_list = record page { use_cell_num = used } ∷ pages },
          )
          else ok (new_page storage cell_num)
  ]

-- the addresses of the pages that MEM_free_func is called on, in their order
unfoldable pub dispose_pages : List Page → List ℕ
dispose_pages [] = []
dispose_pages (page ∷ pages) = page.address ∷ dispose_pages pages

unfoldable pub dispose_storage : Storage → List ℕ
dispose_storage storage = dispose_pages storage.page_list
