-- ===== src/Blob/Fetcher/Outcome.antt =====
-- What a fetcher answers (s5_blobs/src/multi_fetcher.rs), told by its stores and connections.
use s5_rs.Base.{
  refl, sym, ap, ◌∙◌, subst, Bytes, Option, some, none, List, [], ◌∷◌, ◌++◌, Result, arith, ◌≡◌,
  Result-cases, inl, inr, true, false, All, ◌⊎◌, Bool-cases,
}
use s5_rs.Store.{Store, StoreError}
use s5_rs.Blob.Paths.{HashCodec, blob_path_for_hash}
use s5_rs.Blob.Rpc.{QueryResponse}
use s5_rs.Blob.Client.{Connection, query, download_bytes, RpcError}
use s5_rs.Blob.Store as BlobStore
use s5_rs.Blob.Fetcher.{
  FetchError, FetchResult, ok, not_found, all_failed, BlobSource, local, remote,
  contains_check_failed, read_failed, query_failed, download_failed, try_fetch_from, fetch,
}
use s5_rs.Blob.Fetcher.Laws.{first_found, failures, verdict, answers, fetch-verdict}

-- What the stores and connections of sources say of a blob, apart from the fetcher.
module _ {S T E : Type 0} (c : HashCodec) (api : Store S) (conn : Connection T E)
    (hash : Bytes) where
  -- The source has the blob and gives its bytes.
  pub data Gives : BlobSource S T → Bytes → Type 0 where
    of_store :
        (name : Bytes) (s : S) (b : Bytes)
        → api.exists s (blob_path_for_hash c hash api.features) ≡ Result.ok true
        → api.open_read_bytes s (blob_path_for_hash c hash api.features) 0 none ≡ Result.ok b
        → Gives (local name s) b
    of_peer :
        (name : Bytes) (t : T) (response : QueryResponse) (b : Bytes)
        → query conn t hash [] ≡ Result.ok response
        → response.exists ≡ true
        → download_bytes conn t hash 0 none ≡ Result.ok b
        → Gives (remote name t) b

  -- The source answers that it has no such blob.
  pub data Lacks : BlobSource S T → Type 0 where
    of_store :
        (name : Bytes) (s : S)
        → api.exists s (blob_path_for_hash c hash api.features) ≡ Result.ok false
        → Lacks (local name s)
    of_peer :
        (name : Bytes) (t : T) (response : QueryResponse)
        → query conn t hash [] ≡ Result.ok response
        → response.exists ≡ false
        → Lacks (remote name t)

  -- The source cannot say, or cannot read what it has.
  pub data Fails : BlobSource S T → FetchError → Type 0 where
    check :
        (name : Bytes) (s : S) (e : StoreError)
        → api.exists s (blob_path_for_hash c hash api.features) ≡ Result.err e
        → Fails (local name s) (record { source_name = name; reason = contains_check_failed e })
    reading :
        (name : Bytes) (s : S) (e : StoreError)
        → api.exists s (blob_path_for_hash c hash api.features) ≡ Result.ok true
        → api.open_read_bytes s (blob_path_for_hash c hash api.features) 0 none ≡ Result.err e
        → Fails (local name s) (record { source_name = name; reason = read_failed e })
    asking :
        (name : Bytes) (t : T) (e : RpcError)
        → query conn t hash [] ≡ Result.err e
        → Fails (remote name t) (record { source_name = name; reason = query_failed e })
    download :
        (name : Bytes) (t : T) (response : QueryResponse) (e : RpcError)
        → query conn t hash [] ≡ Result.ok response
        → response.exists ≡ true
        → download_bytes conn t hash 0 none ≡ Result.err e
        → Fails (remote name t) (record { source_name = name; reason = download_failed e })

  -- None of the sources gives the blob, and these are the errors, in order.
  pub data Errors : List (BlobSource S T) → List FetchError → Type 0 where
    nil : Errors [] []
    lacks :
        (source : BlobSource S T) (sources : List (BlobSource S T)) (errors : List FetchError)
        → Lacks source
        → Errors sources errors
        → Errors (source ∷ sources) errors
    fails :
        (source : BlobSource S T) (sources : List (BlobSource S T)) (e : FetchError)
        (errors : List FetchError)
        → Fails source e
        → Errors sources errors
        → Errors (source ∷ sources) (e ∷ errors)

  -- What a fetch must answer.
  pub data Outcome (sources : List (BlobSource S T)) : FetchResult → Type 0 where
    found :
        (before after : List (BlobSource S T)) (source : BlobSource S T) (errors : List FetchError)
        (b : Bytes)
        → sources ≡ before ++ (source ∷ after)
        → Errors before errors
        → Gives source b
        → Outcome sources (ok b)
    nowhere : All Lacks sources → Outcome sources not_found
    failed :
        (e : FetchError) (errors : List FetchError)
        → Errors sources (e ∷ errors)
        → Outcome sources (all_failed (e ∷ errors))

  -- What the fetcher takes from one source.
  abbrev Answered : BlobSource S T → Result FetchError (Option Bytes) → Type 0
  Answered source (Result.ok (some b)) = Gives source b
  Answered source (Result.ok none) = Lacks source
  Answered source (Result.err e) = Fails source e

  try_fetch_from-Answered :
      (source : BlobSource S T)
      → (r : Result FetchError (Option Bytes)) × (try_fetch_from c api conn source hash ≡ r)
        × Answered source r
  unfolding try_fetch_from BlobStore.contains BlobStore.read_as_bytes
  try_fetch_from-Answered (local name s) =
      elim (Result-cases (api.exists s (blob_path_for_hash c hash api.features))) [
        | inr (e, x) ↦ (Result.err _, ground (arith, x), check name s e x)
        | inl (false, x) ↦ (Result.ok none, ground (arith, x), Lacks.of_store name s x)
        | inl (true, x) ↦
            elim (Result-cases
              (api.open_read_bytes s (blob_path_for_hash c hash api.features) 0 none)) [
                | inl (b, y) ↦
                    (Result.ok (some b), ground (arith, x, y), Gives.of_store name s b x y)
                | inr (e, y) ↦ (Result.err _, ground (arith, x, y), reading name s e x y)
              ]
      ]
  try_fetch_from-Answered (remote name t) = elim (Result-cases (query conn t hash [])) [
    | inr (e, x) ↦ (Result.err _, ground (arith, x), asking name t e x)
    | inl (response, x) ↦ elim (Bool-cases response.exists) [
      | inr missing ↦
          (Result.ok none, ground (arith, x, missing), Lacks.of_peer name t response x missing)
      | inl has ↦ elim (Result-cases (download_bytes conn t hash 0 none)) [
        | inl (b, y) ↦
            (Result.ok (some b), ground (arith, x, has, y), Gives.of_peer name t response b x has y)
        | inr (e, y) ↦ (Result.err _, ground (arith, x, has, y), download name t response e x has y)
      ]
    ]
  ]

  Errors-Lacks :
      (sources : List (BlobSource S T)) (errors : List FetchError)
      → Errors sources errors
      → errors ≡ []
      → All Lacks sources
  Errors-Lacks _ _ nil e = tt
  Errors-Lacks _ _ (lacks source sources errors l rest) e = (l, Errors-Lacks sources errors rest e)
  Errors-Lacks _ _ (fails source sources x errors f rest) e = absurd (ground (arith, e))

  -- The first answer with bytes, if any, and the errors before it.
  abbrev Split : List (BlobSource S T) → Type 0
  Split sources =
      ((errors : List FetchError) × Errors sources errors
        × (first_found (answers c api conn sources hash) ≡ none)
        × (failures (answers c api conn sources hash) ≡ errors))
      ⊎ ((before : List (BlobSource S T)) × (after : List (BlobSource S T)) × (source : BlobSource S
            T)
          × (errors : List FetchError) × (b : Bytes) × (sources ≡ before ++ (source ∷ after))
          × Errors before errors
          × Gives source b
          × (first_found (answers c api conn sources hash) ≡ some b))

  -- A source that does not give the blob, before the others.
  pass :
      (source : BlobSource S T) (sources : List (BlobSource S T))
      (r : Result FetchError (Option Bytes)) (own : List FetchError)
      → try_fetch_from c api conn source hash ≡ r
      → ((ss : List (BlobSource S T)) (errors : List FetchError)
          → Errors ss errors
          → Errors (source ∷ ss) (own ++ errors))
      → ((rest : List (Result FetchError (Option Bytes)))
          → (first_found (r ∷ rest) ≡ first_found rest)
            × (failures (r ∷ rest) ≡ own ++ failures rest))
      → Split sources
      → Split (source ∷ sources)
  pass source sources r own e adds skips (inl (errors, all, nothing, same)) =
      let rest = answers c api conn sources hash in
      inl (
        own ++ errors,
        adds sources errors all,
        ap (λ x. first_found (x ∷ rest)) e ∙ (skips rest).0 ∙ nothing,
        ap (λ x. failures (x ∷ rest)) e ∙ (skips rest).1 ∙ ap (λ x. own ++ x) same,
      )
  pass source sources r own e adds skips
        (inr (before, after, giver, errors, b, split, all, gives, first)) =
      let rest = answers c api conn sources hash in
      inr (
        source ∷ before,
        after,
        giver,
        own ++ errors,
        b,
        ap (λ x. source ∷ x) split,
        adds before errors all,
        gives,
        ap (λ x. first_found (x ∷ rest)) e ∙ (skips rest).0 ∙ first,
      )

  Split-next :
      (source : BlobSource S T) (sources : List (BlobSource S T))
      (r : Result FetchError (Option Bytes))
      → try_fetch_from c api conn source hash ≡ r
      → Answered source r
      → Split sources
      → Split (source ∷ sources)
  Split-next source sources (Result.ok (some b)) e gives rest = inr (
    [],
    sources,
    source,
    [],
    b,
    refl,
    nil,
    gives,
    ap (λ x. first_found (x ∷ answers c api conn sources hash)) e,
  )
  Split-next source sources (Result.ok none) e l rest =
      pass source sources (Result.ok none) [] e (λ ss es all. lacks source ss es l all)
        (λ a. (refl, refl)) rest
  Split-next source sources (Result.err x) e f rest =
      pass source sources (Result.err x) (x ∷ []) e (λ ss es all. fails source ss x es f all)
        (λ a. (refl, refl)) rest

  Split-all : (sources : List (BlobSource S T)) → Split sources
  Split-all [] = inl ([], nil, refl, refl)
  Split-all (source ∷ sources) =
      let (r, e, answered) = try_fetch_from-Answered source in
      Split-next source sources r e answered (Split-all sources)

  -- fetch returns the bytes of the first source that has the blob and gives them, where no source
  -- before it did; it says not found only if every source answers that it has no such blob;
  -- otherwise, where no source gives the blob, it returns the errors of those that failed to
  -- check, to read, to answer or to send, in order. Having, giving and failing are told by the
  -- calls of the store or the connection of each source.
  pub fetch_lem :
      (sources : List (BlobSource S T)) → Outcome sources (fetch c api conn sources hash)
  fetch_lem sources = elim (Split-all sources) [
    | inr (before, after, source, errors, b, split, all, gives, first) ↦
        subst (Outcome sources)
          (sym (
            fetch-verdict c api conn sources hash
            ∙ ap (λ o. verdict o (failures (answers c api conn sources hash))) first))
          (found before after source errors b split all gives)
    | inl (errors, all, nothing, same) ↦
        subst (Outcome sources)
          (sym (
            fetch-verdict c api conn sources hash
            ∙ ap (λ o. verdict o (failures (answers c api conn sources hash))) nothing
            ∙ ap (verdict none) same))
          (outcome_without errors all)
  ]
    where
      outcome_without :
          (errors : List FetchError) → Errors sources errors → Outcome sources (verdict none errors)
      outcome_without [] all = nowhere (Errors-Lacks sources [] all refl)
      outcome_without (e ∷ errors) all = failed e errors all
