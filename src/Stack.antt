-- ===== src/Stack.antt =====
-- src/stack.c: a stack of values in a slice.
pub mod Laws
mod Tests
use c_algorithm.Base.{ℕ, ◌-◌, ◌==◌, Bool, true, false, if◌then◌else◌, Value, empty_value}
use c_algorithm.Memory.{Cmd, pure, ◌>>=◌}
use c_algorithm.Slice.{
  Slice, open_slice, close_slice, slice_len, slice_get, slice_append, slice_pop,
}

pub record Stack : Type 0 where
  pub items : Slice

pub open_stack : ℕ → Cmd Stack
open_stack cap = do sli ← open_slice 0 cap; pure (record { items = sli })

pub close_stack : Stack → Cmd (Unit {0})
close_stack st = close_slice st.items

pub stack_len : Stack → ℕ
stack_len st = slice_len st.items

pub stack_push : Stack → Value → Cmd Stack
stack_push st value = do sli ← slice_append st.items value; pure (record { items = sli })

-- the value, whether `*empty` is set, and the stack
pub stack_pop : Stack → Cmd (Value × Bool × Stack)
stack_pop st = if slice_len st.items == 0 then pure (empty_value, true, st) else do
  (v, sli) ← slice_pop st.items (slice_len st.items - 1)
  pure (v, false, record { items = sli })

pub stack_top : Stack → Cmd Value
stack_top st =
    if slice_len st.items == 0
    then pure empty_value
    else slice_get st.items (slice_len st.items - 1)

abbrev pub stack_data : Stack → Slice
stack_data st = st.items
