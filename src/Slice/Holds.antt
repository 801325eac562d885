-- ===== src/Slice/Holds.antt =====
-- What a slice stands for: the list of its entries.
use c_algorithm.Base.{ℕ, ◌+◌, ◌≤◌, ◌<◌, ◌≡◌, some, List, arith, length, Value, ok}
use c_algorithm.Memory.{Block, Store, deref, write}
use c_algorithm.Memory.Laws.{deref-ok}
use c_algorithm.Segments.{Seg, length-Seg}
use c_algorithm.Slice.{Slice}

-- The slice leads to a live array that is as long as it says, and its window holds `xs`.
pub record Holds (s : Store) (sli : Slice) (xs : List Value) : Type 0 where
  pub block : Block
  pub found : s.block sli.array ≡ some block
  pub not_null : 0 < sli.array
  pub live : 0 < block.ref
  pub size : length block.items ≡ block.cap
  pub run : Seg block.items sli.start xs
  pub count : sli.len ≡ length xs

module _ {s : Store} {sli : Slice} {xs : List Value} (h : Holds s sli xs) where
  pub Holds-deref : deref sli.array s ≡ ok (h.block, s)
  Holds-deref = deref-ok sli.array s h.block h.not_null h.found

  -- the window lies inside the array
  pub Holds-within : sli.start + length xs ≤ length h.block.items
  Holds-within = length-Seg h.block.items sli.start xs h.run

  -- the array with other entries in it
  pub Holds-write :
      (items ys : List Value) (k : ℕ)
      → length items ≡ length h.block.items
      → Seg items sli.start ys
      → k ≡ length ys
      → Holds
          (write sli.array (some (record h.block { items = items })) s)
          (record sli { len = k })
          ys
  Holds-write items ys k same run count = record {
    block = record h.block { items = items };
    found = ground arith;
    not_null = h.not_null;
    live = h.live;
    size = omega (arith, h.size);
    run = run;
    count = count;
  }
