-- ===== src/Utils.antt =====
-- src/lib/utils.cc and src/include/cppev/utils.h, one module for each family of functions.
pub mod Numbers
pub mod Signals
pub mod Strings
