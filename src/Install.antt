-- ===== src/Install.antt =====
-- The installers: internal/installer/tool, internal/installer/runtime, internal/installer/place.
pub mod Record
pub mod Settled
pub mod World
pub mod Place
pub mod Names
pub mod Fields
pub mod Download
pub mod FromRegistry
pub mod Delegated
pub mod Tool
pub mod Returned
pub mod Refused
pub mod Unverified
pub mod Expand
pub mod RuntimeWorld
pub mod Links
pub mod RuntimeDownload
pub mod Runtime
pub mod RuntimeReturned
pub mod LinksOnly
