-- ===== src/Resource.antt =====
-- The resource model: internal/resource/*.go.
pub mod Kind
pub mod Tool
pub mod Other
pub mod All
pub mod Version
pub mod Expand
pub mod Expanded
pub mod Parse
pub mod Parsed
pub mod Package
pub mod Validate
pub mod Validated
