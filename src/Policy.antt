-- ===== src/Policy.antt =====
-- pkg/policy: security identities, selectors, and the compilation of policies to rules.
pub mod Labels
pub mod Identity
pub mod Selector
pub mod Rules
pub mod Merge
pub mod Store
pub mod Writer
pub mod Compiler
