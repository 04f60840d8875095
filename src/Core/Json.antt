-- ===== src/Core/Json.antt =====
-- The `canonical` module of crates/federate-core/src/lib.rs: the bytes that signatures cover.
-- A `serde_json::Value` is the data type below; how serde_json writes a scalar is the parameter
-- `to_vec`.
use federate.Base.{Text, Bytes, Bool, List, [], ◌∷◌, ◌++◌, text_ltb, if◌then◌else◌}

mutual
  pub data Value : Type 0 where
    null : Value
    boolean : Bool → Value
    number : Text → Value
    string : Text → Value
    array : Items → Value
    object : Members → Value

  pub data Items : Type 0 where
    nil : Items
    cons : Value → Items → Items

  pub data Members : Type 0 where
    end : Members
    member : Text → Value → Members → Members

-- `keys.sort()`, with the text of each value beside its key.
unfoldable pub insert_key : Text → Bytes → List (Text × Bytes) → List (Text × Bytes)
insert_key k b [] = (k, b) ∷ []
insert_key k b ((j, c) ∷ l) =
    if text_ltb j k then (j, c) ∷ insert_key k b l else (k, b) ∷ (j, c) ∷ l

unfoldable pub sort_keys : List (Text × Bytes) → List (Text × Bytes)
unfolding insert_key
sort_keys [] = []
sort_keys ((k, b) ∷ l) = insert_key k b (sort_keys l)

-- The members behind the first are led by a comma.
unfoldable pub write_rest : (Value → Bytes) → List (Text × Bytes) → Bytes
write_rest to_vec [] = []
write_rest to_vec ((k, b) ∷ l) = b',' ∷ (to_vec (string k) ++ (b':' ∷ (b ++ write_rest to_vec l)))

unfoldable pub write_members : (Value → Bytes) → List (Text × Bytes) → Bytes
unfolding write_rest
write_members to_vec [] = []
write_members to_vec ((k, b) ∷ l) = to_vec (string k) ++ (b':' ∷ (b ++ write_rest to_vec l))

unfoldable mutual
  unfolding sort_keys write_members

  pub write_canonical : (Value → Bytes) → Value → Bytes
  write_canonical to_vec null = to_vec null
  write_canonical to_vec (boolean b) = to_vec (boolean b)
  write_canonical to_vec (number n) = to_vec (number n)
  write_canonical to_vec (string s) = to_vec (string s)
  write_canonical to_vec (array nil) = b'[' ∷ b']' ∷ []
  write_canonical to_vec (array (cons v vs)) =
      b'[' ∷ (write_canonical to_vec v ++ (write_items to_vec vs ++ b']' ∷ []))
  write_canonical to_vec (object ms) =
      b'{' ∷ (write_members to_vec (sort_keys (written to_vec ms)) ++ b'}' ∷ [])

  pub write_items : (Value → Bytes) → Items → Bytes
  write_items to_vec nil = []
  write_items to_vec (cons v vs) = b',' ∷ (write_canonical to_vec v ++ write_items to_vec vs)

  pub written : (Value → Bytes) → Members → List (Text × Bytes)
  written to_vec end = []
  written to_vec (member k v ms) = (k, write_canonical to_vec v) ∷ written to_vec ms
