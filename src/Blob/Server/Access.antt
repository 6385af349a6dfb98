-- ===== src/Blob/Server/Access.antt =====
-- What the rules let a peer do (s5_blobs/src/net_protocol.rs, cfg_for and accept).
use s5_rs.Base.{
  ℕ, ◌≡◌, refl, sym, ap, ◌∙◌, ◌⊎◌, inl, inr, Bytes, Bool, true, false, Option, some, none, [], ◌∷◌,
  err, is_some, arith, is_same_refl, bytes_ord, Bool-cases, Option-cases,
}
use s5_rs.BTreeMap
use s5_rs.BTreeMap.{BTreeMap}
use s5_rs.Store.{Store}
use s5_rs.Pins.{PinsApi}
use s5_rs.Blob.Paths.{HashCodec}
use s5_rs.Blob.Import.{Hashing}
use s5_rs.Blob.Query.{handle_query}
use s5_rs.Blob.Rpc.{
  RpcProto, query, upload_blob, download_blob, delete_blob, pin_blob, PeerConfigBlobs, no_response,
}
use s5_rs.Blob.Server.{
  State, Peer, Answer, queried, uploaded, downloaded, deleted, pinned, permission_denied, cfg_for,
  handle_upload, handle_download, handle_delete, handle_pin, accept,
}

-- The answer to a peer that the rules do not name.
abbrev pub denial : {E : Type 0} → RpcProto → Answer E
denial (query q) = queried no_response
denial (upload_blob req chunks) = uploaded (err permission_denied)
denial (download_blob req) = downloaded []
denial (delete_blob req) = deleted (err permission_denied)
denial (pin_blob req) = pinned (err permission_denied)

abbrev pub may_write : Option PeerConfigBlobs → Bool
may_write none = false
may_write (some cfg) = is_some cfg.store_uploads_in

-- The requests that may change stores or pins.
abbrev pub changes : RpcProto → Bool
changes (query q) = false
changes (download_blob req) = false
changes (upload_blob req chunks) = true
changes (delete_blob req) = true
changes (pin_blob req) = true

-- The rule of a peer: its entry, or else that of "*".
pub data RuleFor (peer_cfg : BTreeMap Bytes PeerConfigBlobs) (key : Bytes)
    : Option PeerConfigBlobs → Type 0 where
  own :
      (cfg : PeerConfigBlobs)
      → BTreeMap.get peer_cfg key ≡ some cfg
      → RuleFor peer_cfg key (some cfg)
  of_all :
      (cfg : PeerConfigBlobs)
      → BTreeMap.get peer_cfg key ≡ none
      → BTreeMap.get peer_cfg (42 ∷ []) ≡ some cfg
      → RuleFor peer_cfg key (some cfg)
  no_rule :
      BTreeMap.get peer_cfg key ≡ none
      → BTreeMap.get peer_cfg (42 ∷ []) ≡ none
      → RuleFor peer_cfg key none

-- Rules with at most an entry for one peer.
abbrev pub only_rule : Bytes → Option PeerConfigBlobs → BTreeMap Bytes PeerConfigBlobs
only_rule key none = []
only_rule key (some cfg) = (key, cfg) ∷ []

cfg_for-RuleFor :
    (peer_cfg : BTreeMap Bytes PeerConfigBlobs) (key : Bytes) (rule : Option PeerConfigBlobs)
    → RuleFor peer_cfg key rule
    → cfg_for peer_cfg key ≡ rule
unfolding cfg_for
cfg_for-RuleFor peer_cfg key _ (own cfg e) = ground (arith, e)
cfg_for-RuleFor peer_cfg key _ (of_all cfg e f) = ground (arith, e, f)
cfg_for-RuleFor peer_cfg key _ (no_rule e f) = ground (arith, e, f)

cfg_for-only_rule :
    (key : Bytes) (rule : Option PeerConfigBlobs) → cfg_for (only_rule key rule) key ≡ rule
unfolding cfg_for BTreeMap.get
cfg_for-only_rule key none = refl
cfg_for-only_rule key (some cfg) = ground (arith, is_same_refl key)

module _ {S P E : Type 0} (c : HashCodec) (api : Store S) (outboard : Bool) (crates : Hashing)
    (uuid : Bytes) (pinner : Option (PinsApi P E)) where
  accept_denied :
      (peer_cfg : BTreeMap Bytes PeerConfigBlobs) (peer : Peer) (listens : ℕ → Bool)
      (state : State S P) (req : RpcProto)
      → cfg_for peer_cfg peer.node_key ≡ none
      → accept c api outboard crates uuid pinner peer_cfg peer listens state req
        ≡ (denial req, state)
  unfolding accept handle_query handle_upload handle_download handle_delete handle_pin
  accept_denied peer_cfg peer listens state (query q) h = rw h refl
  accept_denied peer_cfg peer listens state (upload_blob q chunks) h = rw h refl
  accept_denied peer_cfg peer listens state (download_blob q) h = rw h refl
  accept_denied peer_cfg peer listens state (delete_blob q) h = rw h refl
  accept_denied peer_cfg peer listens state (pin_blob q) h = rw h refl

  -- No request of a peer that has no store for uploads changes a store or a pin.
  accept_read_only :
      (peer_cfg : BTreeMap Bytes PeerConfigBlobs) (peer : Peer) (listens : ℕ → Bool)
      (state : State S P) (req : RpcProto)
      → may_write (cfg_for peer_cfg peer.node_key) ≡ false
      → (accept c api outboard crates uuid pinner peer_cfg peer listens state req).1 ≡ state
  unfolding accept handle_upload handle_delete handle_pin
  accept_read_only peer_cfg peer listens state (query q) h = refl
  accept_read_only peer_cfg peer listens state (download_blob q) h = refl
  accept_read_only peer_cfg peer listens state (upload_blob q chunks) h = ground (arith, h)
  accept_read_only peer_cfg peer listens state (delete_blob q) h = ground (arith, h)
  accept_read_only peer_cfg peer listens state (pin_blob q) h = ground (arith, h)

  -- Rules that give a peer the same entry are the same to it.
  accept_same_rule :
      (peer_cfg rules : BTreeMap Bytes PeerConfigBlobs) (peer : Peer) (listens : ℕ → Bool)
      (state : State S P) (req : RpcProto)
      → cfg_for peer_cfg peer.node_key ≡ cfg_for rules peer.node_key
      → accept c api outboard crates uuid pinner peer_cfg peer listens state req
        ≡ accept c api outboard crates uuid pinner rules peer listens state req
  unfolding accept
  accept_same_rule peer_cfg rules peer listens state (query q) h = rw h refl
  accept_same_rule peer_cfg rules peer listens state (upload_blob q chunks) h = rw h refl
  accept_same_rule peer_cfg rules peer listens state (download_blob q) h = rw h refl
  accept_same_rule peer_cfg rules peer listens state (delete_blob q) h = rw h refl
  accept_same_rule peer_cfg rules peer listens state (pin_blob q) h = rw h refl

  accept_reads :
      (peer_cfg : BTreeMap Bytes PeerConfigBlobs) (peer : Peer) (listens : ℕ → Bool)
      (state : State S P) (req : RpcProto)
      → changes req ≡ false
      → (accept c api outboard crates uuid pinner peer_cfg peer listens state req).1 ≡ state
  unfolding accept
  accept_reads peer_cfg peer listens state (query q) h = refl
  accept_reads peer_cfg peer listens state (download_blob q) h = refl
  accept_reads peer_cfg peer listens state (upload_blob q chunks) h = absurd (ground (arith, h))
  accept_reads peer_cfg peer listens state (delete_blob q) h = absurd (ground (arith, h))
  accept_reads peer_cfg peer listens state (pin_blob q) h = absurd (ground (arith, h))

  -- The rule of a peer is its entry, or else that of "*". Every request is handled as under rules
  -- that hold this one for the peer and no other; it changes a store or a pin only if it is an
  -- upload, a deletion or a pinning and the rule names a store for uploads; and without a rule it
  -- is refused and changes nothing.
  pub accept-access :
      (peer_cfg : BTreeMap Bytes PeerConfigBlobs) (peer : Peer) (listens : ℕ → Bool)
      (state : State S P) (req : RpcProto) (rule : Option PeerConfigBlobs)
      → RuleFor peer_cfg peer.node_key rule
      → (accept c api outboard crates uuid pinner peer_cfg peer listens state req
          ≡ accept c api outboard crates uuid pinner
              (only_rule peer.node_key rule)
              peer
              listens
              state
              req)
        × (((accept c api outboard crates uuid pinner peer_cfg peer listens state req).1 ≡ state)
            ⊎ ((changes req ≡ true) × (may_write rule ≡ true)))
        × ((accept c api outboard crates uuid pinner peer_cfg peer listens state req
              ≡ (denial req, state))
            ⊎ (is_some rule ≡ true))
  accept-access peer_cfg peer listens state req rule is_rule =
      let found = cfg_for-RuleFor peer_cfg peer.node_key rule is_rule in
      (
        accept_same_rule peer_cfg (only_rule peer.node_key rule) peer listens state req
            (found ∙ sym (cfg_for-only_rule peer.node_key rule)),
        elim (Bool-cases (changes req)) [
          | inr e ↦ inl (accept_reads peer_cfg peer listens state req e)
          | inl e ↦ elim (Bool-cases (may_write rule)) [
            | inl w ↦ inr (e, w)
            | inr w ↦
                inl (accept_read_only peer_cfg peer listens state req (ap may_write found ∙ w))
          ]
        ],
        elim (Option-cases rule) [
          | inl e ↦ inl (accept_denied peer_cfg peer listens state req (found ∙ e))
          | inr (r, e) ↦ inr (ap is_some e)
        ],
      )
