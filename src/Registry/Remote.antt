-- ===== src/Registry/Remote.antt =====
-- The registry protocol (s5_registry/src/lib.rs): `RegistryServer` answers requests from a registry,
-- and `RemoteRegistry` sends them. A request that is sent is answered: failures of the connection
-- and the text of error messages are not modelled.
pub mod Refinement
use s5_rs.Base.{
  ℕ, Bytes, Option, none, some, List, [], ◌∷◌, Result, ok, err, map_err, ◌>>=◌, if◌then◌else◌,
}
use s5_rs.Stream.{
  StreamKey, StreamMessage, StreamMessageError, invalid_key, from_bytes, key_id, key_bytes,
}
use s5_rs.Stream.Wire.{serialize, deserialize}
use s5_rs.Registry.{RegistryError, RegistryApi, Outcome, undecodable}

-- `GetRequest` and `DeleteRequest`.
pub record KeyRequest : Type 0 where
  pub key_type : ℕ
  pub key_data : Bytes

-- `RpcProto`.
pub data Request : Type 0 where
  get delete : KeyRequest → Request
  set : Bytes → Request

pub data Response : Type 0 where
  message : Option Bytes → Response
  done : Result RegistryError (Unit {0}) → Response

module _ {S : Type 0} (api : RegistryApi S) where
  -- What `handle_get` answers once the key is read. An error of the registry is answered like a
  -- missing entry.
  abbrev answer : Result RegistryError (Option StreamMessage) → Option Bytes
  answer (ok (some m)) = some (serialize m)
  answer (ok none) = none
  answer (err e) = none

  unfoldable pub handle_get : S → KeyRequest → Option Bytes
  handle_get s req = elim (from_bytes req.key_type req.key_data) [
    | err e ↦ none
    | ok key ↦ answer (api.get s key)
  ]

  unfoldable pub handle_set : S → Bytes → Outcome S
  handle_set s bytes = elim (deserialize bytes) [
    | err e ↦ (err (undecodable e), s)
    | ok m ↦ api.set s m
  ]

  unfoldable pub handle_delete : S → KeyRequest → Outcome S
  handle_delete s req = elim (from_bytes req.key_type req.key_data) [
    | err e ↦ (err (undecodable (invalid_key e)), s)
    | ok key ↦ api.delete s key
  ]

  -- One turn of the loop of `accept`.
  unfoldable pub accept : S → Request → Response × S
  unfolding handle_get handle_set handle_delete
  accept s (get req) = (message (handle_get s req), s)
  accept s (set bytes) = let (result, s') = handle_set s bytes in (done result, s')
  accept s (delete req) = let (result, s') = handle_delete s req in (done result, s')

  abbrev key_request : StreamKey → KeyRequest
  key_request k = record { key_type = key_id k; key_data = key_bytes k }

  -- `Client::get`, from the server's answer.
  unfoldable pub client_get : S → StreamKey → Result RegistryError (Option StreamMessage)
  unfolding accept
  client_get s key = elim (accept s (get (key_request key))).0 [
    | message (some bytes) ↦ do m ← map_err undecodable (deserialize bytes); ok (some m)
    | message none ↦ ok none
    | done r ↦ ok none
  ]

  abbrev settled : Response → Result RegistryError (Unit {0})
  settled (done r) = r
  settled (message m) = ok tt

  unfoldable pub client_set : S → StreamMessage → Outcome S
  unfolding accept
  client_set s m = let (response, s') = accept s (set (serialize m)) in (settled response, s')

  unfoldable pub client_delete : S → StreamKey → Outcome S
  unfolding accept
  client_delete s key =
      let (response, s') = accept s (delete (key_request key)) in (settled response, s')

  -- `RemoteRegistry`.
  abbrev pub remote_registry : RegistryApi S
  remote_registry = record { get = client_get; set = client_set; delete = client_delete }
