-- ===== src/Python.antt =====
-- The parts of Python and its standard library that the trainer's modules rely on: text as code
-- points, UTF-8, decimal and hexadecimal digits, binary64 numbers, and objects on a heap.
pub mod Text
pub mod Utf8
pub mod Decode
pub mod Digits
pub mod Float
pub mod Finite
pub mod Values
