-- ===== src/Fields.antt =====
-- util_lib/fields: messages of variable-length fields.
pub mod Defs
pub mod Invariant
pub mod Contents
pub mod RoundTrip
mod Tests
