-- ===== src/Examples.antt =====
-- Concrete runs of the operations: one for each property that has conditions.
mod Streams
mod Registries
mod Blobs
mod Directories
mod Sweeps
mod Pinning
mod Serving
mod Listings
mod Splits
mod Indices
mod Trees
mod Walks
