-- ===== src/Store/Tests.antt =====
-- A bucket with room for one entry, and a marshalling that knows one configuration.
use nephtys.Prelude.{
  ◌≡◌, refl, String, Option, none, some, List, [], ◌∷◌, if◌then◌else◌, any, is_some, arith, eq_iff,
}
use nephtys.Prelude.Text.{str_eq}
use nephtys.Prelude.Map
use nephtys.Prelude.Map.{Map}
use nephtys.Prelude.Result.{Result, ok, err}
use nephtys.Domain.Event.{Bytes}
use nephtys.Domain.Config.{StreamSourceConfig}
use nephtys.Store.{KvError, no_keys_found, KeyValue, Codec, put, delete, get, list}
use nephtys.Store.Entries.{Documented, After, Represents}
use nephtys.Store.Refines.{AfterList, store_refines}
use nephtys.Fixtures.{feed}

-- One entry at most, under one key.
abbrev Slot : Type 0
Slot = Option (String × Bytes)

abbrev slot_view : Slot → String → Option Bytes
slot_view none k = none
slot_view (some (j, bs)) k = if str_eq j k then some bs else none

abbrev slot_keys : Slot → Result KvError (List String)
slot_keys none = err no_keys_found
slot_keys (some (j, bs)) = ok (j ∷ [])

abbrev slot_read : Option Bytes → Result KvError Bytes
slot_read none = err no_keys_found
slot_read (some bs) = ok bs

-- A put under another key is refused.
abbrev slot_put : String → Bytes → Slot → Result KvError Slot
slot_put k bs none = ok (some (k, bs))
slot_put k bs (some (j, b)) = if str_eq j k then ok (some (k, bs)) else err no_keys_found

abbrev slot_delete : String → Slot → Result KvError Slot
slot_delete k none = ok none
slot_delete k (some (j, bs)) = if str_eq j k then ok none else err no_keys_found

abbrev slot : KeyValue
slot = record {
  State = Slot;
  put = slot_put;
  delete = slot_delete;
  get = λ k s. slot_read (slot_view s k);
  keys = slot_keys;
}

slot-put :
    (k j : String) (bs : Bytes) (s t : Slot)
    → slot_put k bs s ≡ ok t
    → slot_view t j ≡ (if str_eq k j then some bs else slot_view s j)
slot-put k j bs none t e = ground (arith, e)
slot-put k j bs (some (i, b)) t e = ground (arith, e, eq_iff i k, eq_iff i j, eq_iff k j)

slot-delete :
    (k j : String) (s t : Slot)
    → slot_delete k s ≡ ok t
    → slot_view t j ≡ (if str_eq k j then none else slot_view s j)
slot-delete k j none t e = ground (arith, e)
slot-delete k j (some (i, bs)) t e = ground (arith, e, eq_iff i k, eq_iff i j, eq_iff k j)

slot-get :
    (k : String) (s : Slot) (bs : Bytes)
    → slot_read (slot_view s k) ≡ ok bs
    → slot_view s k ≡ some bs
slot-get k s bs e = read (slot_view s k) e
  where
    read : (o : Option Bytes) → slot_read o ≡ ok bs → o ≡ some bs
    read none e = cc
    read (some b) e = cc

slot-keys :
    (k : String) (s : Slot) (ks : List String)
    → slot_keys s ≡ ok ks
    → any (λ j. str_eq j k) ks ≡ is_some (slot_view s k)
slot-keys k none ks e = cc
slot-keys k (some (j, bs)) ks e = ground (arith, e)

slot-no_keys : (k : String) (s : Slot) → slot_keys s ≡ err no_keys_found → slot_view s k ≡ none
slot-no_keys k none e = refl
slot-no_keys k (some (j, bs)) e = cc

slot-Documented : Documented slot slot_view
slot-Documented = record {
  put_lem = slot-put;
  delete_lem = slot-delete;
  get_lem = slot-get;
  keys_lem = slot-keys;
  no_keys_lem = slot-no_keys;
}

abbrev codec : Codec
codec = record { marshal = λ cfg. some []; unmarshal = λ bs. some feed }

abbrev held : Map StreamSourceConfig
held = Map.put Map.empty "feed" feed

abbrev full : Slot
full = some ("feed", [])

full-Represents : Represents slot codec slot_view slot-Documented full held
full-Represents k = ground (
  arith,
  Map.get-put {V = StreamSourceConfig} Map.empty "feed" k feed,
  Map.get-empty {V = StreamSourceConfig} k,
)

store_refines_example :
    After
      (put slot codec feed full)
      (λ t. Represents slot codec slot_view slot-Documented t (Map.put held "feed" feed))
    × After
        (delete slot codec "feed" full)
        (λ t. Represents slot codec slot_view slot-Documented t (Map.remove held "feed"))
    × After (get slot codec "feed" full) (λ c. Map.get held "feed" ≡ some c)
    × After (list slot codec full) (AfterList slot codec slot_view slot-Documented full held "feed")
store_refines_example =
    store_refines slot codec slot_view slot-Documented full held feed "feed" full-Represents
      (λ bs e. cc)

-- Every call of the witness succeeds.
listed : list slot codec full ≡ ok (feed ∷ [])
unfolding list
listed = refl
