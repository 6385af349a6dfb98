-- ===== src/Fs/Merge/Convergence.antt =====
-- Replicas that merge each other's directories (s5_fs/src/actor/merge.rs).
use s5_rs.Base.{◌≡◌, ◌≢◌, ◌⊎◌, refl, ap, sym, ◌∙◌, Bytes, Option, none, arith, bytes_ord}
use s5_rs.BTreeMap
use s5_rs.BTreeMap.Sorted.{IsSorted}
use s5_rs.Fs.Dir.{DirRef, FileRef}
use s5_rs.Fs.Merge.{Entries, merge_entries_local}
use s5_rs.Fs.Merge.Entry.{
  Entry, as_entry, missing, dir, file, entry_at, option_dir, option_file, entry_ts, last_write,
  IsExclusive, merge_entries_local_lem,
}

-- The maps of a directory that a replica can have.
pub record IsReplica (s : Entries) : Type 0 where
  pub exclusive : IsExclusive s
  pub sorted_dirs : IsSorted s.dirs
  pub sorted_files : IsSorted s.files

-- Merges the directory of another replica.
abbrev pub merge_replica : Entries → Entries → Entries
merge_replica a b = merge_entries_local a b.dirs b.files

-- Two writes that are there and have one timestamp are the same write.
abbrev pub NoTie : Entry → Entry → Type 0
NoTie a b = a ≢ missing → b ≢ missing → entry_ts a ≡ entry_ts b → a ≡ b

one_write :
    (e : Entry) (d : Option DirRef) (f : Option FileRef)
    → (d ≡ none) ⊎ (f ≡ none)
    → last_write (last_write e (option_dir d)) (option_file f) ≡ last_write e (as_entry d f)
unfolding last_write
one_write e d f x = ground arith

last_write_comm : (a b : Entry) → NoTie a b → last_write a b ≡ last_write b a
unfolding last_write
last_write_comm missing missing h = refl
last_write_comm missing (dir d) h = refl
last_write_comm missing (file f) h = refl
last_write_comm (dir d) missing h = refl
last_write_comm (file f) missing h = refl
last_write_comm (dir d) (dir e) h = ground (arith, h (λ p. cc) (λ p. cc))
last_write_comm (dir d) (file f) h = ground (arith, h (λ p. cc) (λ p. cc))
last_write_comm (file f) (dir d) h = ground (arith, h (λ p. cc) (λ p. cc))
last_write_comm (file f) (file g) h = ground (arith, h (λ p. cc) (λ p. cc))

last_write_idem : (a b : Entry) → last_write (last_write a b) b ≡ last_write a b
unfolding last_write
last_write_idem a b = ground arith

last_write_assoc : (a b c : Entry) → last_write (last_write a b) c ≡ last_write a (last_write b c)
unfolding last_write
last_write_assoc a b c = ground arith

keeps : (a b : Entry) → a ≢ missing → b ≢ missing → entry_ts a ≡ entry_ts b → last_write a b ≡ a
unfolding last_write
keeps a missing ha hb e = absurd (hb refl)
keeps missing (dir d) ha hb e = absurd (ha refl)
keeps missing (file f) ha hb e = absurd (ha refl)
keeps a b ha hb e = ground arith

-- A merge of a replica, whose maps are sorted and hold no name twice, into a directory that holds
-- no name twice leaves at each name the later of the two entries, the local one if they tie.
pub merge_replica-last_write :
    (a b : Entries) (k : Bytes)
    → IsExclusive a
    → IsReplica b
    → entry_at (merge_replica a b) k ≡ last_write (entry_at a k) (entry_at b k)
merge_replica-last_write a b k x r =
    (merge_entries_local_lem a b.dirs b.files x r.sorted_dirs r.sorted_files).1 k
    ∙ one_write (entry_at a k) (BTreeMap.get b.dirs k) (BTreeMap.get b.files k) (r.exclusive k)

-- Two replicas of a directory, whose maps are sorted and hold no name as both a directory and a
-- file, hold the same entry after merging each other at each name at which their writes do not
-- tie.
pub merge_replica_comm :
    (a b : Entries) (k : Bytes)
    → IsReplica a
    → IsReplica b
    → NoTie (entry_at a k) (entry_at b k)
    → entry_at (merge_replica a b) k ≡ entry_at (merge_replica b a) k
merge_replica_comm a b k ra rb h =
    merge_replica-last_write a b k ra.exclusive rb
    ∙ last_write_comm (entry_at a k) (entry_at b k) h
    ∙ sym (merge_replica-last_write b a k rb.exclusive ra)

-- Merging a snapshot, whose maps are sorted and hold no name twice, a second time into a directory
-- that holds no name twice changes no entry.
pub merge_replica_idem :
    (a b : Entries) (k : Bytes)
    → IsExclusive a
    → IsReplica b
    → entry_at (merge_replica (merge_replica a b) b) k ≡ entry_at (merge_replica a b) k
merge_replica_idem a b k x r =
    let once : entry_at (merge_replica a b) k ≡ last_write (entry_at a k) (entry_at b k) =
      merge_replica-last_write a b k x r in
    merge_replica-last_write (merge_replica a b) b k
      (merge_entries_local_lem a b.dirs b.files x r.sorted_dirs r.sorted_files).0 r
    ∙ ap (λ e. last_write e (entry_at b k)) once
    ∙ last_write_idem (entry_at a k) (entry_at b k)
    ∙ sym once

-- Where two replicas, whose maps are sorted and hold no name twice, both have an entry at a name
-- with one timestamp, each keeps its own entry after merging the other.
pub merge_replica_tie :
    (a b : Entries) (k : Bytes)
    → IsReplica a
    → IsReplica b
    → entry_at a k ≢ missing
    → entry_at b k ≢ missing
    → entry_ts (entry_at a k) ≡ entry_ts (entry_at b k)
    → (entry_at (merge_replica a b) k ≡ entry_at a k)
      × (entry_at (merge_replica b a) k ≡ entry_at b k)
merge_replica_tie a b k ra rb ha hb e = (
  merge_replica-last_write a b k ra.exclusive rb ∙ keeps (entry_at a k) (entry_at b k) ha hb e,
  merge_replica-last_write b a k rb.exclusive ra
      ∙ keeps (entry_at b k) (entry_at a k) hb ha (sym e),
)
