-- ===== src/Copy.antt =====
-- What src/pht_copy.c copies into a new thread. The tables of the engine that it reads and writes, each
-- a HashTable with string keys, are lists of elements in order, each key once.
pub mod Tables
pub mod Functions
pub mod Statics
pub mod OpArrays
pub mod Prototypes
pub mod FunctionTables
pub mod Constants
pub mod Settings
pub mod Directives
pub mod Classes
pub mod Loading
pub mod Bodies
pub mod Identity
pub mod Outcomes
pub mod Registration
pub mod Context
