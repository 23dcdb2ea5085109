-- ===== src/Store.antt =====
-- internal/store/kv.go: stream configurations in a KV bucket of NATS, whose client is a parameter, as
-- are json.Marshal and json.Unmarshal of a configuration.
pub mod Entries
pub mod Refines
mod Tests
use nephtys.Prelude.{String, Bool, true, false, Option, none, some, List, [], ◌∷◌}
use nephtys.Prelude.Result.{Result, ok, err}
use nephtys.Domain.Event.{Bytes}
use nephtys.Domain.Config.{StreamSourceConfig}

pub data KvError : Type 0 where
  no_keys_found : KvError
  bucket_not_found : KvError
  unavailable : String → KvError

-- `nats.KeyValue`: a call answers an error, or takes the bucket to a new state.
pub record KeyValue : Type 1 where
  pub State : Type 0
  pub put : String → Bytes → State → Result KvError State
  pub delete : String → State → Result KvError State
  pub get : String → State → Result KvError Bytes
  pub keys : State → Result KvError (List String)

pub record Codec : Type 0 where
  pub marshal : StreamSourceConfig → Option Bytes
  pub unmarshal : Bytes → Option StreamSourceConfig

pub data StoreError : Type 0 where
  not_marshalled : StoreError
  kv_put kv_delete kv_get : String → KvError → StoreError
  not_unmarshalled : String → StoreError
  kv_keys : KvError → StoreError
  store_init : KvError → StoreError

-- NewStreamStore: opens the bucket, or creates it where there is none.
unfoldable pub new_stream_store :
    {K : Type 0} → Result KvError K → Result KvError K → Result StoreError K
new_stream_store (ok kv) created = ok kv
new_stream_store (err bucket_not_found) (ok kv) = ok kv
new_stream_store (err bucket_not_found) (err e) = err (store_init e)
new_stream_store (err no_keys_found) created = err (store_init no_keys_found)
new_stream_store (err (unavailable e)) created = err (store_init (unavailable e))

module _ (kv : KeyValue) (codec : Codec) where
  abbrev pub put_result : String → Result KvError kv.State → Result StoreError kv.State
  put_result id (ok s) = ok s
  put_result id (err e) = err (kv_put id e)

  abbrev pub put_data : String → Option Bytes → kv.State → Result StoreError kv.State
  put_data id none s = err not_marshalled
  put_data id (some bs) s = put_result id (kv.put id bs s)

  unfoldable pub put : StreamSourceConfig → kv.State → Result StoreError kv.State
  put cfg s = put_data cfg.id (codec.marshal cfg) s

  abbrev pub delete_result : String → Result KvError kv.State → Result StoreError kv.State
  delete_result id (ok s) = ok s
  delete_result id (err e) = err (kv_delete id e)

  unfoldable pub delete : String → kv.State → Result StoreError kv.State
  delete id s = delete_result id (kv.delete id s)

  abbrev pub decoded : String → Option StreamSourceConfig → Result StoreError StreamSourceConfig
  decoded id none = err (not_unmarshalled id)
  decoded id (some cfg) = ok cfg

  abbrev pub get_entry : String → Result KvError Bytes → Result StoreError StreamSourceConfig
  get_entry id (err e) = err (kv_get id e)
  get_entry id (ok bs) = decoded id (codec.unmarshal bs)

  unfoldable pub get : String → kv.State → Result StoreError StreamSourceConfig
  get id s = get_entry id (kv.get id s)

  -- An entry that cannot be read or decoded is skipped.
  abbrev pub append_decoded :
      Option StreamSourceConfig → List StreamSourceConfig → List StreamSourceConfig
  append_decoded none rest = rest
  append_decoded (some cfg) rest = cfg ∷ rest

  abbrev pub append_entry : Result KvError Bytes → List StreamSourceConfig → List StreamSourceConfig
  append_entry (err e) rest = rest
  append_entry (ok bs) rest = append_decoded (codec.unmarshal bs) rest

  unfoldable pub entries : List String → kv.State → List StreamSourceConfig
  entries [] s = []
  entries (key ∷ keys) s = append_entry (kv.get key s) (entries keys s)

  abbrev pub listed :
      kv.State → Result KvError (List String) → Result StoreError (List StreamSourceConfig)
  listed s (err no_keys_found) = ok []
  listed s (err e) = err (kv_keys e)
  listed s (ok keys) = ok (entries keys s)

  unfoldable pub list : kv.State → Result StoreError (List StreamSourceConfig)
  unfolding entries
  list s = listed s (kv.keys s)
