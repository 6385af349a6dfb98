-- ===== src/Registry/Multi.antt =====
-- `MultiRegistry` (s5_registry/src/lib.rs): writes go to every backend, and a policy decides
-- whether enough of them succeeded. The backends share one type of state: registries of several
-- kinds are one registry over the sum of their states. `join_all` runs them independently, so the
-- results do not depend on how they interleave.
pub mod Policy
pub mod Agreement
use s5_rs.Base.{
  ℕ, zero, suc, Bool, true, false, ◌||◌, Option, none, some, List, [], ◌∷◌, map, Result, ok, err,
  ltb, leb, if◌then◌else◌, is_empty,
}
use s5_rs.Stream.{StreamKey, StreamMessage}
use s5_rs.Registry.{RegistryError, RegistryApi, Outcome, quorum_not_met}

pub data WritePolicy : Type 0 where
  all any : WritePolicy
  quorum : ℕ → WritePolicy

abbrev pub WriteResult : Type 0
WriteResult = Result RegistryError (Unit {0})

-- `results.iter().filter(|r| r.is_ok()).count()`
unfoldable pub success_count : List WriteResult → ℕ
success_count [] = 0
success_count (ok u ∷ rs) = suc (success_count rs)
success_count (err e ∷ rs) = success_count rs

-- `for result in results { result?; } Ok(())`
unfoldable pub first_error : List WriteResult → WriteResult
first_error [] = ok tt
first_error (ok u ∷ rs) = first_error rs
first_error (err e ∷ rs) = err e

-- `results.into_iter().last().unwrap_or(Ok(()))`
unfoldable pub last_result : List WriteResult → WriteResult
last_result [] = ok tt
last_result (r ∷ []) = r
last_result (r ∷ q ∷ rs) = last_result (q ∷ rs)

-- `results.iter().any(|r| r.is_ok())`
unfoldable pub any_ok : List WriteResult → Bool
any_ok [] = false
any_ok (ok u ∷ rs) = true
any_ok (err e ∷ rs) = any_ok rs

-- The end of `set`.
unfoldable pub settle_set : WritePolicy → List WriteResult → WriteResult
unfolding first_error last_result
settle_set all results = first_error results
settle_set any results = if ltb 0 (success_count results) then ok tt else last_result results
settle_set (quorum n) results =
    if leb n (success_count results) then ok tt else err (quorum_not_met (success_count results) n)

-- The end of `delete`.
unfoldable pub settle_delete : WritePolicy → List WriteResult → WriteResult
unfolding first_error last_result
settle_delete all results = first_error results
settle_delete any results = if any_ok results then ok tt else last_result results
settle_delete (quorum n) results =
    if leb n (success_count results) then ok tt else err (quorum_not_met (success_count results) n)

module _ {S : Type 0} (api : RegistryApi S) (policy : WritePolicy) where
  -- The first backend that has an entry; a backend that fails is passed over.
  unfoldable pub multi_get : List S → StreamKey → Result RegistryError (Option StreamMessage)
  multi_get [] key = ok none
  multi_get (s ∷ backends) key =
      let rest = multi_get backends key in
      elim (api.get s key) [ ok (some msg) ↦ ok (some msg) | ok none ↦ rest | err e ↦ rest ]

  unfoldable pub multi_set : List S → StreamMessage → Outcome (List S)
  multi_set backends message =
      if is_empty backends
      then (ok tt, backends)
      else let results = map (λ s. api.set s message) backends in
        (settle_set policy (map (λ r. r.0) results), map (λ r. r.1) results)

  unfoldable pub multi_delete : List S → StreamKey → Outcome (List S)
  multi_delete backends key =
      if is_empty backends
      then (ok tt, backends)
      else let results = map (λ s. api.delete s key) backends in
        (settle_delete policy (map (λ r. r.0) results), map (λ r. r.1) results)

  abbrev pub multi_registry : RegistryApi (List S)
  multi_registry = record { get = multi_get; set = multi_set; delete = multi_delete }
