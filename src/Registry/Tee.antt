-- ===== src/Registry/Tee.antt =====
-- `TeeRegistry` (s5_registry/src/lib.rs): a local registry in front of a remote one.
pub mod Agreement
use s5_rs.Base.{Option, none, some, Result, ok, err}
use s5_rs.Stream.{StreamKey, StreamMessage}
use s5_rs.Registry.{RegistryError, RegistryApi, Outcome}

module _ {S T : Type 0} (local : RegistryApi S) (remote : RegistryApi T) where
  unfoldable pub tee_get : S × T → StreamKey → Result RegistryError (Option StreamMessage)
  tee_get (s, t) key = elim (local.get s key) [
    | err e ↦ err e
    | ok (some msg) ↦ ok (some msg)
    | ok none ↦ remote.get t key
  ]

  -- `self.local.op()?; self.remote.op()?; Ok(())`
  abbrev in_turn : S × T → Outcome S → (T → Outcome T) → Outcome (S × T)
  in_turn st (err e, s') op = (err e, (s', st.1))
  in_turn st (ok u, s') op = let (result, t') = op st.1 in (result, (s', t'))

  unfoldable pub tee_set : S × T → StreamMessage → Outcome (S × T)
  tee_set st message = in_turn st (local.set st.0 message) (λ t. remote.set t message)

  unfoldable pub tee_delete : S × T → StreamKey → Outcome (S × T)
  tee_delete st key = in_turn st (local.delete st.0 key) (λ t. remote.delete t key)

  abbrev pub tee_registry : RegistryApi (S × T)
  tee_registry = record { get = tee_get; set = tee_set; delete = tee_delete }
