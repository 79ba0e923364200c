-- ===== src/CommandStore/CustomData.antt =====
-- The custom data of a connection as a map of its own.
use sco.Common.{◌≡◌, ite, Option, none, some, arith, List, []}
use sco.Common.Text.{Text}
use sco.Common.Dict.{text_key, same, lookup, insert, delete, lookup-insert, lookup-delete}
use sco.CommandStore.{ConnCtx, Any, get_custom_data, set_custom_data, delete_custom_data}

-- The nil map reads as the empty one.
abbrev contents : Option (List (Text × Any)) → List (Text × Any)
contents none = []
contents (some m) = m

get_custom_data-lookup :
    (c : ConnCtx) (k : Text) → get_custom_data c k ≡ lookup k (contents c.custom_data)
unfolding get_custom_data
get_custom_data-lookup c k = ground arith

contents-set :
    (c : ConnCtx) (k : Text) (v : Any)
    → contents (set_custom_data c k v).custom_data ≡ insert k v (contents c.custom_data)
unfolding set_custom_data
contents-set c k v = ground arith

contents-delete :
    (c : ConnCtx) (k : Text)
    → contents (delete_custom_data c k).custom_data ≡ delete k (contents c.custom_data)
unfolding delete_custom_data
contents-delete c k = ground arith

-- A value that is set is found at its key, and what is found at any other key stays.
pub get_custom_data-set :
    (c : ConnCtx) (k j : Text) (v : Any)
    → get_custom_data (set_custom_data c k v) j ≡ ite (same k j) (some v) (get_custom_data c j)
get_custom_data-set c k j v =
    rw
      (
        get_custom_data-lookup (set_custom_data c k v) j,
        contents-set c k v,
        get_custom_data-lookup c j,
      )
      (lookup-insert k j v (contents c.custom_data))

-- A deleted key is not found, and what is found at any other key stays.
pub get_custom_data-delete :
    (c : ConnCtx) (k j : Text)
    → get_custom_data (delete_custom_data c k) j ≡ ite (same k j) none (get_custom_data c j)
get_custom_data-delete c k j =
    rw
      (
        get_custom_data-lookup (delete_custom_data c k) j,
        contents-delete c k,
        get_custom_data-lookup c j,
      )
      (lookup-delete k j (contents c.custom_data))
