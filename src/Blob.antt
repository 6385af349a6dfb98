-- ===== src/Blob.antt =====
-- Blobs (s5_core/src/blob): locations, identifiers, paths and the blob store.
pub mod Location
pub mod Identifier
pub mod Paths
pub mod Import
pub mod Store
pub mod Rpc
pub mod Query
pub mod Download
pub mod Server
pub mod Client
pub mod Remote
pub mod Fetcher
