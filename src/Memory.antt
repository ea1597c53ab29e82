-- ===== src/Memory.antt =====
-- The containers of src/helpers/shared.hpp. What `malloc` and `realloc` answer is a parameter: for
-- each size that is asked for, whether the block is given.
pub mod Allocator
pub mod Array
pub mod Buffer
pub mod Pool
