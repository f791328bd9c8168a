-- ===== src/Protocol/Json.antt =====
-- The JSON values that network/protocol.cpp builds and reads through nlohmann::json. The library's
-- printer and parser are a parameter, a `Codec`.
use cloud_storage_system.Base.{◌≡◌, Option, none, some, List, [], ◌∷◌, if◌then◌else◌}
use cloud_storage_system.Base.Int.{ℤ}
use cloud_storage_system.Base.Text.{Text, text_eq}

mutual
  pub data Json : Type 0 where
    null : Json
    integer : ℤ → Json
    string : Text → Json
    array : Items → Json
    object : Fields → Json

  pub data Items : Type 0 where
    nil : Items
    item : Json → Items → Items

  pub data Fields : Type 0 where
    end : Fields
    field : Text → Json → Fields → Fields

-- j[key] = value, on the fields of an object.
unfoldable pub set : Text → Json → Fields → Fields
set k v end = field k v end
set k v (field j w fs) = if text_eq j k then field k v fs else field j w (set k v fs)

unfoldable pub find : Text → Fields → Json
find k end = null
find k (field j w fs) = if text_eq j k then w else find k fs

-- j[key], read: null where the object has no such key, an exception for a value that is neither an
-- object nor null.
unfoldable pub at : Text → Json → Option Json
at k null = some null
at k (integer _) = none
at k (string _) = none
at k (array _) = none
at k (object fs) = some (find k fs)

-- get<int>() and get<std::string>(): no result where they throw.
unfoldable pub get_int : Json → Option ℤ
get_int (integer n) = some n
get_int _ = none

unfoldable pub get_string : Json → Option Text
get_string (string t) = some t
get_string _ = none

unfoldable pub items_of : List Text → Items
items_of [] = nil
items_of (t ∷ ts) = item (string t) (items_of ts)

-- dump() and parse(), which throws where it has no result.
pub record Codec : Type 0 where
  pub dump : Json → Text
  pub parse : Text → Option Json

-- What the library documents: a value that was printed is read back, and no value is read from
-- nothing.
pub record IsLossless (c : Codec) : Type 0 where
  pub reads_back : (j : Json) → c.parse (c.dump j) ≡ some j
  pub empty_fails : c.parse [] ≡ none
