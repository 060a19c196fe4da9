-- ===== src/CodeHelper.antt =====
-- code_helper.h, the instruction helpers. Each takes the values of its C parameters in their
-- order, `p` as the stream at the end; `p[0]` is put together in full and then put. An `int` or
-- `unsigned` argument is its pattern of 32 bits.
pub mod Scalar
pub mod Vector
pub mod Memory
pub mod Isa
pub mod Words
pub mod Encodes
pub mod Resource
pub mod Program
