-- ===== src/Examples/Blobs.antt =====
-- Blob identifiers and locations.
use s5_rs.Base.{◌≤◌, refl, replicate, length, arith}
use s5_rs.Blob.Identifier.{BlobId, to_bytes}
use s5_rs.Blob.Identifier.RoundTrip.{length-to_bytes-le}

abbrev a_blob : BlobId
a_blob = record { hash = replicate 32 5; size = 1000 }

length-to_bytes-le_example : length (to_bytes a_blob) ≤ 37
length-to_bytes-le_example = length-to_bytes-le a_blob 2 refl (omega arith) (omega arith)
