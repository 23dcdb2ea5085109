-- ===== src/Domain/StringList.antt =====
-- internal/domain/event.go: StringList, a list that also reads a single string. `none` stands for
-- bytes that are not JSON, and for an error.
use nephtys.Prelude.{◌≡◌, refl, ap, String, Option, none, some, List, [], ◌∷◌}
use nephtys.Host.Json.{Json, null, str, arr, Items, nil, cons}

-- json.Unmarshal into a string: null is no error and leaves the empty one.
abbrev pub single : Json → Option String
single null = some ""
single (str s) = some s
single _ = none

abbrev pub before : Option String → Option (List String) → Option (List String)
before (some s) (some ss) = some (s ∷ ss)
before _ _ = none

-- json.Unmarshal into a slice of strings.
unfoldable pub strings : Items → Option (List String)
strings nil = some []
strings (cons v vs) = let rest = strings vs in before (single v) rest

abbrev pub several : Json → Option (List String)
several null = some []
several (arr vs) = strings vs
several _ = none

abbrev pub or_several : Option String → Json → Option (List String)
or_several (some s) v = some (s ∷ [])
or_several none v = several v

unfoldable pub unmarshal_json : Option Json → Option (List String)
unfolding strings
unmarshal_json none = none
unmarshal_json (some v) = or_several (single v) v

-- How encoding/json writes a slice of strings that is not nil.
abbrev pub written : List String → Items
written [] = nil
written (s ∷ ss) = cons (str s) (written ss)

strings-written : (ss : List String) → strings (written ss) ≡ some ss
unfolding strings
strings-written [] = refl
strings-written (s ∷ ss) = ap (before (some s)) (strings-written ss)

-- A list reads back from the array that it is written as, and a string reads as the list of it.
pub read_back :
    (s : String) (ss : List String)
    → (unmarshal_json (some (arr (written ss))) ≡ some ss)
      × (unmarshal_json (some (str s)) ≡ unmarshal_json (some (arr (written (s ∷ [])))))
unfolding unmarshal_json
read_back s ss = (strings-written ss, refl)

-- A null reads as one empty string, where an empty array reads as none.
null_read : unmarshal_json (some null) ≡ some ("" ∷ [])
unfolding unmarshal_json
null_read = refl
