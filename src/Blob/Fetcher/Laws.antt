-- ===== src/Blob/Fetcher/Laws.antt =====
-- The loop of a fetcher and the answers of its sources (s5_blobs/src/multi_fetcher.rs).
use s5_rs.Base.{
  refl, sym, ap, ◌∙◌, Bytes, Option, some, none, List, [], ◌∷◌, ◌++◌, Result, map, append_assoc,
  append-nil, arith, is_some, ◌≡◌, Result-cases, inl, inr,
}
use s5_rs.Store.{Store}
use s5_rs.Blob.Paths.{HashCodec}
use s5_rs.Blob.Client.{Connection}
use s5_rs.Blob.Fetcher.{
  FetchError, FetchResult, ok, not_found, all_failed, BlobSource, local, remote, fetch_end,
  try_fetch_from, fetch_from, fetch, exists, check_exists,
}

-- The bytes of the first answer that has any, and the errors among the answers.
abbrev pub first_found : List (Result FetchError (Option Bytes)) → Option Bytes
first_found [] = none
first_found (Result.ok (some b) ∷ answers) = some b
first_found (Result.ok none ∷ answers) = first_found answers
first_found (Result.err e ∷ answers) = first_found answers

abbrev pub failures : List (Result FetchError (Option Bytes)) → List FetchError
failures [] = []
failures (Result.ok r ∷ answers) = failures answers
failures (Result.err e ∷ answers) = e ∷ failures answers

abbrev pub verdict : Option Bytes → List FetchError → FetchResult
verdict (some b) errors = ok b
verdict none [] = not_found
verdict none (e ∷ errors) = all_failed (e ∷ errors)

is_empty-verdict : (es : List FetchError) → fetch_end es ≡ verdict none es
is_empty-verdict [] = refl
is_empty-verdict (e ∷ es) = refl

module _ {S T E : Type 0} (c : HashCodec) (api : Store S) (conn : Connection T E) where
  abbrev pub answers : List (BlobSource S T) → Bytes → List (Result FetchError (Option Bytes))
  answers sources hash = map (λ source. try_fetch_from c api conn source hash) sources

  fetch_from-verdict :
      (sources : List (BlobSource S T)) (hash : Bytes) (errors : List FetchError)
      → fetch_from c api conn sources hash errors
        ≡ verdict (first_found (answers sources hash)) (errors ++ failures (answers sources hash))
  unfolding fetch_from
  fetch_from-verdict [] hash errors =
      is_empty-verdict errors ∙ ap (verdict none) (sym (append-nil errors))
  fetch_from-verdict (source ∷ sources) hash errors =
      elim (Result-cases (try_fetch_from c api conn source hash)) [
        | inl (some b, e) ↦ rw (e, fetch_from) refl
        | inl (none, e) ↦ rw (e, fetch_from) (fetch_from-verdict sources hash errors)
        | inr (x, e) ↦
            rw (e, fetch_from)
              (fetch_from-verdict sources hash (errors ++ (x ∷ []))
                ∙ ap (verdict (first_found (answers sources hash)))
                    (append_assoc errors (x ∷ []) (failures (answers sources hash))))
      ]

  pub fetch-verdict :
      (sources : List (BlobSource S T)) (hash : Bytes)
      → fetch c api conn sources hash
        ≡ verdict (first_found (answers sources hash)) (failures (answers sources hash))
  unfolding fetch
  fetch-verdict sources hash = fetch_from-verdict sources hash []

  -- One source: what it answers to a fetch and to a check.
  try_fetch_from-check_exists :
      (source : BlobSource S T) (hash : Bytes) {r : Option Bytes}
      → try_fetch_from c api conn source hash ≡ Result.ok r
      → check_exists c api conn source hash ≡ is_some r
  unfolding try_fetch_from check_exists
  try_fetch_from-check_exists (local name s) hash h = ground (arith, h)
  try_fetch_from-check_exists (remote name t) hash h = ground (arith, h)

  -- Where no source fails, exists tells whether fetch finds the blob.
  fetch-exists :
      (sources : List (BlobSource S T)) (hash : Bytes)
      → failures (answers sources hash) ≡ []
      → exists c api conn sources hash ≡ is_some (first_found (answers sources hash))
  unfolding exists
  fetch-exists [] hash clean = refl
  fetch-exists (source ∷ sources) hash clean =
      elim (Result-cases (try_fetch_from c api conn source hash)) [
        | inl (some b, e) ↦ ground (arith, e, try_fetch_from-check_exists source hash e)
        | inl (none, e) ↦
            ground (
              arith,
              e,
              clean,
              try_fetch_from-check_exists source hash e,
              fetch-exists sources hash,
            )
        | inr (x, e) ↦ absurd (ground (arith, clean, e))
      ]
