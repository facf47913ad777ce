-- ===== src/Bencode/Value.antt =====
-- crates/xfer-bencode/src/lib.rs: the values and their encoding.
pub mod Sorted
use xfer_rust.Common.{
  ℕ, suc, ◌+◌, Bool, true, false, ◌&&◌, ◌||◌, Option, none, some, List, [], ◌∷◌, ◌++◌, ltb, ◌==◌,
  if◌then◌else◌, length,
}
use xfer_rust.Common.Bytes.{Bytes}
use xfer_rust.Common.ByteOrder.{below}
use xfer_rust.Common.Int.{ℤ}
use xfer_rust.Bencode.Decimal.{show, show_int}

-- `Fields` is the `BTreeMap`: keys in ascending order.
mutual
  pub data Value : Type 0 where
    int : ℤ → Value
    bytes : Bytes → Value
    list : Items → Value
    dict : Fields → Value

  pub data Items : Type 0 where
    nil : Items
    cons : Value → Items → Items

  pub data Fields : Type 0 where
    end : Fields
    field : Bytes → Value → Fields → Fields

unfoldable pub same_key : Bytes → Bytes → Bool
same_key [] [] = true
same_key (a ∷ as_) (b ∷ bs) = a == b && same_key as_ bs
same_key _ _ = false

-- `BTreeMap::insert`: a value under the same key is replaced.
unfoldable pub insert : Bytes → Value → Fields → Fields
insert k v end = field k v end
insert k v (field j w fs) =
    if same_key k j
    then field j v fs
    else if below k j
    then field k v (field j w fs)
    else field j w (insert k v fs)

unfoldable pub get : Bytes → Fields → Option Value
get k end = none
get k (field j w fs) = if same_key k j then some w else get k fs

unfoldable pub as_int : Value → Option ℤ
as_int (int i) = some i
as_int _ = none

unfoldable pub as_bytes : Value → Option Bytes
as_bytes (bytes b) = some b
as_bytes _ = none

unfoldable pub as_list : Value → Option Items
as_list (list items) = some items
as_list _ = none

unfoldable pub as_dict : Value → Option Fields
as_dict (dict fs) = some fs
as_dict _ = none

unfoldable pub dict_get : Value → Bytes → Option Value
dict_get (dict fs) key = get key fs
dict_get _ key = none

abbrev pub write_bytes : Bytes → Bytes
write_bytes b = show (length b) ++ (58 ∷ b)

-- What `write_value` appends to its output.
unfoldable mutual
  pub write_value : Value → Bytes
  write_value (int i) = 105 ∷ (show_int i ++ (101 ∷ []))
  write_value (bytes b) = write_bytes b
  write_value (list items) = 108 ∷ (write_items items ++ (101 ∷ []))
  write_value (dict fs) = 100 ∷ (write_fields fs ++ (101 ∷ []))

  pub write_items : Items → Bytes
  write_items nil = []
  write_items (cons v items) = write_value v ++ write_items items

  pub write_fields : Fields → Bytes
  write_fields end = []
  write_fields (field k v fs) = write_bytes k ++ (write_value v ++ write_fields fs)

unfoldable pub encode : Value → Bytes
encode v = write_value v
