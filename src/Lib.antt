-- ===== src/Lib.antt =====
-- A library of C containers and sorts over an eight-byte union VALUE, and the interpreter of a
-- small language.
--
-- The parts, and the files that model them. A definition has the name of its C function, without a
-- leading underscore or the prefix MEM_ and the suffix _func; a helper is a loop or a branch of
-- the function that its comment names.
--   src/algorithm.c, include/algorithm.h   Values: VALUE and the COMPARE functions; Order: what a
--                                          COMPARE has to satisfy, as a hypothesis of the callers
--   src/sort.c                             Sort, Sort/Merge: the five sorts of an array in place
--   src/array.c                            Memory, Array: arrays with a reference count
--   src/array.c                            Slice: windows on arrays, which grow by a new array
--   src/stack.c                            Stack: a stack in a slice
--   src/heap.c                             Heap: a binary heap in a slice
--   src/deque.c                            Deque: a ring with two ends in an array
--   src/link.c                             Link, Link/Double: the singly and doubly linked lists
--   src/rbtree.c                           RbTree: a red-black tree whose nodes point to their parents
--   src/wstring.c                          String, String/Wide: strings that own their characters
--   tlang/tstorage.c                       Storage: cells of memory that are freed together
--   tlang/teval.c, tlang/tmisc.c           Lang, Lang/Number, Stack, Operands, Variables, Eval: values,
--                                          the value stack, and the evaluation of expressions
--   tlang/texecute.c                       Lang/Statement, Lang/Execute: the statements
--   tlang/tcode.c                          Lang/Code: literals that the parser computes with
--   tlang/theap.c                          Gc: mark and sweep
-- Stacks and heaps call slices, slices and deques call arrays, and arrays stand in the memory.
-- Swaps and Segments hold what the proofs share: exchanges of entries, and windows of an array as
-- lists.
--
-- Values and numbers. A VALUE is its 64-bit pattern. A `long` that indexes or counts is a natural
-- number, but for the index of array_get and array_set and the ends of a deque, which are
-- integers. A COMPARE is a function into the integers.
--
-- Memory. An array that is passed as a pointer is the list of its entries; a read or a write
-- outside is the fault `bounds`, and a failed `assert` is the fault `assertion`. Arrays of
-- src/array.c are blocks in a store under the address that `malloc` gave out. No address is given
-- out twice, so that a use after `free` is a fault. `malloc` fails for more than the `avail`
-- entries of the store, a number that is a hypothesis where a call allocates. What `malloc` does
-- not set is `junk`. The `struct slice`, `struct stack`, `struct heap` and `struct deque`
-- themselves are records that a call returns anew; the arrays behind them are shared, and so is
-- what is written to them. Where the source counts in an `int`, a result above INT_MAX is the
-- fault `overflow`; a `memcpy` between parts that overlap is the fault `overlap`. The nodes of a
-- linked list stand in a memory of their own. The two functions of its allocator are parameters;
-- what is asked of `alloc` is a hypothesis, `Gives`, which `malloc_node` satisfies while there is
-- memory.
--
-- The red-black tree. The fields of the nodes are functions of the address, in which NULL is 0 and
-- the leaf of the tree 1; following a pointer to no node is a fault. The colour, which the source
-- keeps in a bit of the pointer to the parent, is a field of its own. Of two mirrored pieces of
-- code there is one, with the side as an argument. The tree is one with the null allocator; `room`
-- is the number of nodes that `malloc` still gives. The stack of a walk is the list of what it
-- holds.
--
-- Strings. A character is its code, and a block a list of characters with a closing 0, of which
-- `malloc` gives at most `avail`; the literal "" is no block. WSTRING and STRING have the same
-- code over two types of characters, and the same definitions. Of two strings that string_cpy and
-- string_cmp are given, the model takes different ones: both functions return at once when they
-- are the same. Left out are the functions that open a string with a format.
--
-- The interpreter. An evaluation is a function of the state, which ends with a value, with a
-- longjmp to the current recovery environment, with undefined behaviour as one of the values of
-- Crash, or without fuel. A long is its 64-bit pattern and wraps around. The arithmetic of
-- doubles, wcscmp and the printing of a value are parameters, the record Library. A string is its
-- text, and another object its address. The exception that crb_runtime_error creates is a new
-- object of the error; a class of exceptions written in the language, whose `create` it would
-- call, is left out. The expressions are those without arrays, associations, members, methods and
-- calls of functions, the statements those without foreach and import. Line numbers are left out.
-- The collector is modelled on its own, over objects with their pointers.
--
-- Loops with a fixed number of rounds recur on the rounds left. The others have fuel: the scratch
-- entries left in a merge, the distance of the two ends in a partition, the index in a sift up,
-- the size in a sift down, the length of a linked list in its loops, twice the black height and
-- two more in a red-black tree, the number of nodes in a walk over it, and the number of objects
-- for the depth of a marking; each theorem shows that the call does not run out of it. The loops
-- of the interpreted language need not end; their fuel is the number of rounds.
--
-- Not modelled: src/skiplist.c, the macro templates of include, the rest of the interpreter in
-- tlang (its parser, its library and its memory with guard bytes), the sample grammar of
-- empty_lang, and the runs of test. Of src/rbtree.c, open_rbtree_with_allocator and the calls of
-- an allocator are left out. Of src/array.c, array_data and slice_data hand out a raw pointer;
-- their callers take the array and the place where the slice starts.
mod Base
pub mod Values
pub mod Order
pub mod Swaps
pub mod Segments
pub mod Sort
pub mod Memory
pub mod Array
pub mod Slice
pub mod Stack
pub mod Heap
pub mod Deque
pub mod Link
pub mod Storage
pub mod RbTree
pub mod String
pub mod Lang
pub mod Gc
