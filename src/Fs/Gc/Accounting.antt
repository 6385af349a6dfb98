-- ===== src/Fs/Gc/Accounting.antt =====
-- The report of `gc_store` (s5_fs/src/gc.rs).
use s5_rs.Base.{
  ◌+◌, ◌≡◌, inl, inr, refl, sym, ap, ◌∙◌, Bytes, Bool, List, [], ◌∷◌, ◌++◌, Result, ok,
  if◌then◌else◌, arith, bytes_ord, length, length-append, append_assoc, append-nil, keep, subst,
  Result-cases,
}
use s5_rs.Store.{Store}
use s5_rs.Store.Contract.{IsStore}
use s5_rs.Registry.{RegistryError}
use s5_rs.Blob.Paths.{HashCodec}
use s5_rs.Blob.Paths.RoundTrip.{IsHashCodec}
use s5_rs.Blob.Store.{list_hashes}
use s5_rs.Blob.Store.Laws.{delete_ok}
use s5_rs.Fs.Gc.{
  HashSet, GcReport, GcError, empty_report, sweep_candidate, sweep_one, sweep, gc_store,
}
use s5_rs.Fs.Gc.Sweep.{is_candidate, failed}

ok_report : {r q : GcReport} → ◌≡◌ {A = Result GcError GcReport} (ok r) (ok q) → r ≡ q
ok_report e = ground (arith, e)

-- The numbers of a report add up, to a sweep that had seen `hs`.
module _ {P : Type 0} (reachable : HashSet) (pins : Bytes → Result RegistryError (List P)) where
  pub record Accounts (dry_run : Bool) (before : GcReport) (hs : List Bytes) (after : GcReport)
      : Type 0 where
    pub counted : after.total ≡ before.total + length hs
    pub listed : after.candidates ≡ before.candidates ++ keep (is_candidate reachable pins) hs
    pub kept :
        after.kept_by_pins + after.kept_by_reachability + length after.candidates + before.total
        ≡ before.kept_by_pins + before.kept_by_reachability + length before.candidates + after.total
    pub swept :
        after.deleted
        ≡ before.deleted + (if dry_run then 0 else length (keep (is_candidate reachable pins) hs))
    pub no_errors : after.delete_errors ≡ before.delete_errors

  keep-cons :
      (h : Bytes) (hs : List Bytes)
      → keep (is_candidate reachable pins) (h ∷ []) ++ keep (is_candidate reachable pins) hs
        ≡ keep (is_candidate reachable pins) (h ∷ hs)
  unfolding keep
  keep-cons h hs = ground arith

  Accounts-nil : (d : Bool) (r q : GcReport) → r ≡ q → Accounts d r [] q
  Accounts-nil d r q e = subst (Accounts d r []) e (record {
    counted = omega arith;
    listed = unfold keep in sym (append-nil r.candidates);
    kept = omega arith;
    swept = unfold keep in ground arith;
    no_errors = refl;
  })

  Accounts-cons :
      (d : Bool) (r q t : GcReport) (h : Bytes) (hs : List Bytes)
      → Accounts d r (h ∷ []) q
      → Accounts d q hs t
      → Accounts d r (h ∷ hs) t
  Accounts-cons d r q t h hs a b = record {
    counted = omega (arith, a.counted, b.counted);
    listed =
        b.listed
        ∙ ap (λ (x : List Bytes). x ++ keep (is_candidate reachable pins) hs) a.listed
        ∙ append_assoc r.candidates _ _
        ∙ ap (◌++◌ r.candidates) (keep-cons h hs);
    kept = omega (arith, a.kept, b.kept);
    swept = ground (
      arith,
      a.swept,
      b.swept,
      ap length (keep-cons h hs),
      length-append (keep (is_candidate reachable pins) (h ∷ []))
          (keep (is_candidate reachable pins) hs),
    );
    no_errors = b.no_errors ∙ a.no_errors;
  }

module _ {S P : Type 0} (c : HashCodec) (api : Store S) (outboard : Bool) (reachable : HashSet)
    (pins : Bytes → Result RegistryError (List P)) (dry_run : Bool) (codec : IsHashCodec c)
    (store : IsStore api) where
  sweep_one-Accounts :
      (r q : GcReport) (s : S) (h : Bytes)
      → (sweep_one c api outboard reachable pins dry_run r s h).0 ≡ ok q
      → Accounts reachable pins dry_run r (h ∷ []) q
  unfolding sweep_one sweep_candidate keep
  sweep_one-Accounts r q s h e =
      let gone = delete_ok c api outboard codec store s h in
      let long = length-append r.candidates (h ∷ []) in
      let nil = append-nil r.candidates in
      record {
        counted = ground (arith, e, gone);
        listed = ground (arith, e, gone, nil);
        kept = ground (arith, e, gone, long, nil);
        swept = ground (arith, e, gone);
        no_errors = ground (arith, e, gone);
      }

  sweep-Accounts :
      (hs : List Bytes) (r q : GcReport) (s : S)
      → (sweep c api outboard reachable pins dry_run hs r s).0 ≡ ok q
      → Accounts reachable pins dry_run r hs q
  unfolding sweep
  sweep-Accounts [] r q s e = Accounts-nil reachable pins dry_run r q (ok_report e)
  sweep-Accounts (h ∷ hs) r q s e =
      let one = sweep_one c api outboard reachable pins dry_run r s h in
      elim (Result-cases one.0) [
        | inl (r', f) ↦
            Accounts-cons reachable pins dry_run r r' q h hs (sweep_one-Accounts r r' s h f)
              (sweep-Accounts hs r' q one.1 (rw (f, sweep) at e))
        | inr (x, f) ↦ absurd (failed (rw (f, sweep) at e))
      ]

  -- A report of a sweep that succeeds counts every listed blob once, as kept by pins, kept by
  -- reachability or a candidate; its candidates are the listed blobs without pins that are not
  -- reachable, in order; and all of them are deleted, or none in a dry run.
  pub gc_store-Accounts :
      (s : S) (hs : List Bytes) (q : GcReport)
      → list_hashes c api s ≡ ok hs
      → (gc_store c api outboard reachable pins dry_run s).0 ≡ ok q
      → Accounts reachable pins dry_run empty_report hs q
  unfolding gc_store
  gc_store-Accounts s hs q e f = sweep-Accounts hs empty_report q s (rw (e, gc_store) at f)
