-- ===== src/Py.antt =====
-- What the scripts use of Python and its standard library.
pub mod Result
pub mod Text
pub mod Json
pub mod Round
pub mod Slices
pub mod Decimal
pub mod Digits
pub mod Ints
pub mod Argparse
