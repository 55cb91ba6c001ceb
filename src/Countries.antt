-- ===== src/Countries.antt =====
-- locality-match.mjs: from the name of a country to its code.
pub mod First
pub mod Table
pub mod Names
pub mod Resolve
mod Tests
