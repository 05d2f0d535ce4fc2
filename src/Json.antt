-- ===== src/Json.antt =====
-- json.dumps of texts and of flat objects, as the program calls it: ASCII output, compact
-- separators, and sorted keys where the call asks for them.
pub mod Text
pub mod Unambiguous
pub mod Objects
pub mod Value
