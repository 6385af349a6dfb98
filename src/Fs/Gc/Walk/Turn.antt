-- ===== src/Fs/Gc/Walk/Turn.antt =====
-- One turn of the outer loop of collect_fs_reachable_hashes (s5_fs/src/gc.rs).
use s5_rs.Base.{
  ◌≡◌, sym, subst, Bytes, true, Option, some, List, ◌∷◌, ◌++◌, ◌⊎◌, inl, inr, bytes_ord, arith,
}
use s5_rs.BTreeMap.{contains_key, values}
use s5_rs.Store.{Store}
use s5_rs.Blob.Paths.{HashCodec}
use s5_rs.Fs.Dir.{DirV1}
use s5_rs.Fs.Gc.{HashSet, collect_hashes_from_dir}
use s5_rs.Fs.Gc.Reachable.{any_keeps_alive, collect_hashes_from_dir_lem}
use s5_rs.Fs.Gc.Walk.{Link, links, load_dir}
use s5_rs.Fs.Gc.Walk.Visited.{Has, Has-left, Has-right, IsArchive, Seen, Drained}

-- All that a directory keeps alive was collected, and its links were visited.
abbrev pub IsDone : HashSet → HashSet → DirV1 → Type 0
IsDone visited reachable d =
    ((h : Bytes) → any_keeps_alive h (values d.files) ≡ true → contains_key reachable h ≡ true)
    × ((l : Link) → Has l (links d) → contains_key visited l.0 ≡ true)

IsDone-later :
    (visited visited' reachable reachable' : HashSet) (d : DirV1)
    → ((h : Bytes) → contains_key visited h ≡ true → contains_key visited' h ≡ true)
    → ((h : Bytes) → contains_key reachable h ≡ true → contains_key reachable' h ≡ true)
    → IsDone visited reachable d
    → IsDone visited' reachable' d
IsDone-later visited visited' reachable reachable' d more_visited more done =
    ((λ h alive. more h (done.0 h alive)), (λ l has. more_visited l.0 (done.1 l has)))

module _ {S : Type 0} (c : HashCodec) (api : Store S) (meta_store : S)
    (decrypt_dir_bytes : Bytes → Option Bytes → Option Bytes)
    (from_bytes : Bytes → Option DirV1) where
  abbrev load : Bytes → Option Bytes → Option DirV1
  load h key = load_dir c api meta_store decrypt_dir_bytes from_bytes h key

  module _ (key_of : Bytes → Option Bytes) (known : List Bytes)
      (archive : IsArchive c api meta_store decrypt_dir_bytes from_bytes key_of known) where
    -- What the walk leaves, of some queued directories.
    pub record Walked (dirs : List DirV1) (visited reachable visited' reachable' : HashSet)
        : Type 0 where
      pub grows : (h : Bytes) → contains_key visited h ≡ true → contains_key visited' h ≡ true
      pub later : (d : DirV1) → IsDone visited reachable d → IsDone visited' reachable' d
      pub queued : (d : DirV1) → Has d dirs → IsDone visited' reachable' d
      pub complete :
          (h : Bytes) (d : DirV1)
          → contains_key visited' h ≡ true
          → load h (key_of h) ≡ some d
          → IsDone visited' reachable' d

    abbrev pub SeenDone : HashSet → HashSet → List DirV1 → Type 0
    SeenDone visited reachable dirs =
        Seen c api meta_store decrypt_dir_bytes from_bytes key_of known (IsDone visited reachable)
          visited dirs

    -- One turn of the outer loop: what is queued and done after it, and what the walk of the rest
    -- then leaves.
    pub turn :
        (dir : DirV1) (dirs : List DirV1) (q : List Link) (visited reachable : HashSet)
        (r : HashSet × List DirV1)
        → Drained c api meta_store decrypt_dir_bytes from_bytes key_of known
            (λ d. (d ≡ dir) ⊎ IsDone visited reachable d)
            (q ++ links dir)
            visited
            dirs
            r
        → SeenDone visited reachable (dir ∷ dirs)
        → SeenDone r.0 (collect_hashes_from_dir dir reachable) r.1
          × ((visited' reachable' : HashSet)
              → Walked r.1 r.0 (collect_hashes_from_dir dir reachable) visited' reachable'
              → Walked (dir ∷ dirs) visited reachable visited' reachable'
                × ((l : Link) → Has l q → contains_key visited' l.0 ≡ true))
    turn dir dirs q visited reachable r drained seen =
        let now = collect_hashes_from_dir dir reachable in
        let more : (h : Bytes) → contains_key reachable h ≡ true → contains_key now h ≡ true =
          λ h old. ground (arith, collect_hashes_from_dir_lem dir reachable h, old) in
        let of_dir : IsDone r.0 now dir = (
          (λ h alive. ground (arith, collect_hashes_from_dir_lem dir reachable h, alive)),
          (λ l has. drained.visits l (Has-right l q (links dir) has)),
        ) in
        let before = drained.seen (λ h d old loaded. elim (seen h d old loaded) [
          | inl (inl same) ↦ inr (inl same)
          | inl (inr waits) ↦ inl waits
          | inr done ↦ inr (inr done)
        ]) in
        (
          (λ h d old loaded. elim (before h d old loaded) [
            | inl waits ↦ inl waits
            | inr (inl same) ↦ inr (subst (IsDone r.0 now) (sym same) of_dir)
            | inr (inr done) ↦
                inr (IsDone-later visited r.0 reachable now d drained.grows more done)
          ]),
          λ visited' reachable' after. (
            record {
              grows = λ h old. after.grows h (drained.grows h old);
              later = λ d done.
                  after.later d (IsDone-later visited r.0 reachable now d drained.grows more done);
              queued = λ d has. elim has [
                | inl same ↦ subst (IsDone visited' reachable') (sym same) (after.later dir of_dir)
                | inr waits ↦ after.queued d (drained.still d waits)
              ];
              complete = after.complete;
            },
            λ l has. after.grows l.0 (drained.visits l (Has-left l q (links dir) has)),
          ),
        )
