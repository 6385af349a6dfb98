-- ===== src/Fs/Dir.antt =====
-- Directory snapshots (s5_fs/src/dir.rs). Names and texts are their bytes.
use s5_rs.Base.{
  ℕ, ◌+◌, ◌-◌, ◌^◌, min, Bytes, Bool, true, false, Option, none, some, List, [], ◌∷◌, unwrap_or,
}
use s5_rs.BTreeMap.{BTreeMap}
use s5_rs.Blob.Location.{BlobLocation}

pub data DirRefType : Type 0 where
  blake3_hash registry_key : DirRefType

pub record DirRef : Type 0 where
  pub ref_type : Option DirRefType
  pub hash : Bytes
  pub ts_seconds : Option ℕ
  pub ts_nanos : Option ℕ
  pub keys : Option (BTreeMap ℕ Bytes)
  pub encryption_type : Option ℕ
  pub extra : Option (Unit {0})

-- `DirRef::ref_type`.
unfoldable pub dir_ref_type : DirRef → DirRefType
dir_ref_type d = unwrap_or d.ref_type DirRefType.blake3_hash

pub data FileRefType : Type 0 where
  blake3_hash registry_key tombstone : FileRefType

pub record WebArchiveMetadata : Type 0 where
  pub ip_addr : Bytes
  pub req_http_version : ℕ
  pub req_headers : List (Bytes × Bytes)
  pub res_http_version : ℕ
  pub res_status_code : ℕ
  pub res_status_reason : Bytes
  pub res_headers : List (Bytes × Bytes)

-- The fields of `FileRef` that hold no other `FileRef`.
pub record FileFields : Type 0 where
  pub ref_type : Option FileRefType
  pub hash : Bytes
  pub size : ℕ
  pub timestamp : Option ℕ
  pub timestamp_subsec_nanos : Option ℕ
  pub locations : Option (List BlobLocation)
  pub media_type : Option Bytes
  pub warc : Option WebArchiveMetadata
  pub extra : Option (BTreeMap Bytes (Unit {0}))
  pub version_count : Option ℕ

-- `FileRef`: its own fields, `prev` and `first_version`; and `Option<Box<FileRef>>`.
mutual
  pub data FileRef : Type 0 where
    file_ref : FileFields → Version → Version → FileRef

  pub data Version : Type 0 where
    absent : Version
    version : FileRef → Version

abbrev pub fields : FileRef → FileFields
fields (file_ref f prev first) = f

abbrev pub prev : FileRef → Version
prev (file_ref f p first) = p

abbrev pub first_version : FileRef → Version
first_version (file_ref f p first) = first

-- `FileRef::ref_type`.
unfoldable pub file_ref_type : FileRef → FileRefType
file_ref_type f = unwrap_or (fields f).ref_type FileRefType.blake3_hash

abbrev pub is_tombstone_type : FileRefType → Bool
is_tombstone_type FileRefType.blake3_hash = false
is_tombstone_type FileRefType.registry_key = false
is_tombstone_type FileRefType.tombstone = true

-- `FileRef::is_tombstone`.
unfoldable pub is_tombstone : FileRef → Bool
unfolding file_ref_type
is_tombstone f = is_tombstone_type (file_ref_type f)

-- `u32::saturating_add`.
abbrev pub saturating_add32 : ℕ → ℕ → ℕ
saturating_add32 a b = min (a + b) (2 ^ 32 - 1)

abbrev pub or_version : Version → FileRef → Version
or_version absent f = version f
or_version (version v) f = version v

-- `FileRef::from_deleted`.
unfoldable pub from_deleted : FileRef → ℕ → ℕ → FileRef
from_deleted previous deleted_at_s deleted_at_ns =
    let f : FileFields = fields previous in
    file_ref
      (record {
        ref_type = some FileRefType.tombstone;
        hash = f.hash;
        size = f.size;
        timestamp = some deleted_at_s;
        timestamp_subsec_nanos = some deleted_at_ns;
        locations = none;
        media_type = f.media_type;
        warc = f.warc;
        extra = f.extra;
        version_count = some (saturating_add32 (unwrap_or f.version_count 1) 1);
      })
      (version previous) (or_version (first_version previous) previous)

-- `FileRef::new`.
unfoldable pub new_file : Bytes → ℕ → FileRef
new_file hash size =
    file_ref
      (record {
        ref_type = none;
        hash = hash;
        size = size;
        timestamp = none;
        timestamp_subsec_nanos = none;
        locations = none;
        media_type = none;
        warc = none;
        extra = none;
        version_count = none;
      })
      absent absent

pub record DirHeader : Type 0 where
  pub shard_level : Option ℕ
  pub shards : Option (BTreeMap ℕ DirRef)
  pub try_files : Option (List Bytes)
  pub error_pages : Option (BTreeMap ℕ Bytes)
  pub ops_counter : Option ℕ
  pub last_written_by : Option (BTreeMap Bytes ℕ)

-- `DirHeader::new`.
abbrev pub new_header : DirHeader
new_header = record {
  shard_level = none;
  shards = none;
  try_files = none;
  error_pages = none;
  ops_counter = none;
  last_written_by = none;
}

pub record DirV1 : Type 0 where
  pub magic : Bytes
  pub header : DirHeader
  pub dirs : BTreeMap Bytes DirRef
  pub files : BTreeMap Bytes FileRef

-- `DirV1::new`, with the magic string "S5.pro".
abbrev pub new_dir : DirV1
new_dir = record {
  magic = 83 ∷ 53 ∷ 46 ∷ 112 ∷ 114 ∷ 111 ∷ [];
  header = new_header;
  dirs = [];
  files = [];
}
