-- ===== src/Item.antt =====
-- raft/item.go: the key-value items, and the map that holds them under the hexadecimal MD5 of
-- their keys. `md5.Sum` is a parameter.
mod Hex
pub mod Laws
pub mod Convert
pub mod ToApi
pub use Hex.{hex_digit, hex_encode, hex_encode-injective}
use raft_capnp.Prelude.{Option, none, some}
use raft_capnp.Prelude.Eq.{bytes_eq}
use raft_capnp.Prelude.Assoc.{Assoc, lookup, insert}
use raft_capnp.Data.{Bytes, Item}

-- `ItemMap`, whose `sync.Map` goes from strings to items.
abbrev pub ItemMap : Type 0
ItemMap = Assoc Bytes Item

module _ (md5 : Bytes → Bytes) where
  -- `hex.EncodeToString(sum[:])` with `sum = md5.Sum(key)`
  unfoldable pub digest : Bytes → Bytes
  digest key = hex_encode (md5 key)

  unfoldable pub put : Item → ItemMap → ItemMap
  put item m = insert (digest item.key) item m

  -- `none` is `found == false`.
  unfoldable pub get : Bytes → ItemMap → Option Item
  get key m = lookup (digest key) m
