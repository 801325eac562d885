-- ===== src/Storage/Tests.antt =====
-- A storage with one page of sixteen cells.
use c_algorithm.Base.{◌≡◌, refl, [], ◌∷◌, arith, ok, to_int, Returns}
use c_algorithm.Storage.{Storage, cells_of, storage_malloc}
use c_algorithm.Storage.Laws.{IsStorage, HandedOut, storage_malloc-HandedOut}

abbrev one_page : Storage
one_page = record {
  page_list = record { address = 1; cell_num = 16; use_cell_num = 5 } ∷ [];
  current_page_size = 16;
  unused = 2;
}

one_page-IsStorage : IsStorage one_page
one_page-IsStorage = record { fresh = λ p h. ground arith; fits = λ p. ground arith }

storage_malloc-HandedOut_example : Returns (HandedOut one_page 20) (storage_malloc one_page 20)
storage_malloc-HandedOut_example =
    storage_malloc-HandedOut one_page 20 one_page-IsStorage (omega arith) (omega arith)
      (omega arith)

-- a request for no bytes computes no cells
cells_of_nothing : cells_of 0 ≡ ok 0
unfolding cells_of to_int
cells_of_nothing = refl
