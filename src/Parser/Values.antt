-- ===== src/Parser/Values.antt =====
-- engine/parser.py: the data that a YAML document or a caller's dict holds.
use forge_ci_cd_platform.Base.{
  List, [], ◌∷◌, Option, none, some, Bool, false, ◌||◌, Str, ◌==◌, if◌then◌else◌,
}

mutual
  -- A text, a list, a dict, None, or another scalar, which is kept as its `repr`.
  pub data Data : Type 0 where
    text : Str → Data
    list : Items → Data
    dict : Entries → Data
    null : Data
    scalar : Str → Data

  pub data Items : Type 0 where
    end : Items
    item : Data → Items → Items

  pub data Entries : Type 0 where
    end_dict : Entries
    entry : Data → Data → Entries → Entries

-- `list(xs)`
unfoldable pub items : Items → List Data
items end = []
items (item x xs) = x ∷ items xs

-- `list(d.items())`
unfoldable pub entries : Entries → List (Data × Data)
entries end_dict = []
entries (entry k v d) = (k, v) ∷ entries d

abbrev pub Fields : Type 0
Fields = List (Data × Data)

-- `key == k`, for a text `k`
abbrev pub is_key : Str → Data → Bool
is_key k (text s) = k == s
is_key k _ = false

-- `d.get(k)`
abbrev pub field : Str → Fields → Option Data
field k [] = none
field k ((key, v) ∷ d) = if is_key k key then some v else field k d

-- `key in names`
abbrev pub is_among : List Str → Data → Bool
is_among [] key = false
is_among (k ∷ ks) key = is_key k key || is_among ks key
