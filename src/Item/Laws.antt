-- ===== src/Item/Laws.antt =====
-- The item map finds what was put under a key, up to collisions of MD5.
use raft_capnp.Prelude.{
  ◌∙◌, refl, ◌≡◌, ap, ◌<◌, Option, some, List, [], ◌∷◌, All, arith, if◌then◌else◌,
}
use raft_capnp.Prelude.Eq.{◌==◌, bytes_eq, list_beq, list_beq_iff}
use raft_capnp.Prelude.Assoc.{lookup-insert}
use raft_capnp.Data.{Bytes, Item}
use raft_capnp.Item.{hex_encode, hex_encode-injective, ItemMap, digest, put, get}

same_test :
    (xs ys : Bytes)
    → All (λ b. b < 256) xs
    → All (λ b. b < 256) ys
    → list_beq (hex_encode xs) (hex_encode ys) ≡ list_beq xs ys
same_test xs ys hx hy = ground (
  arith,
  list_beq_iff (hex_encode xs) (hex_encode ys),
  list_beq_iff xs ys,
  hex_encode-injective xs ys hx hy,
)

module _ (md5 : Bytes → Bytes) where
  get-put-digest :
      (item : Item) (key : Bytes) (m : ItemMap)
      → get md5 key (put md5 item m)
        ≡ (if digest md5 item.key == digest md5 key then some item else get md5 key m)
  unfolding get put
  get-put-digest item key m = lookup-insert (digest md5 item.key) (digest md5 key) item m

  -- Where MD5 yields bytes, a key finds the item that was put last if the MD5 sums of the two keys
  -- agree, and else what it found before.
  pub get-put :
      (item : Item) (key : Bytes) (m : ItemMap)
      → ((k : Bytes) → All (λ b. b < 256) (md5 k))
      → get md5 key (put md5 item m)
        ≡ (if md5 item.key == md5 key then some item else get md5 key m)
  unfolding digest
  get-put item key m bytes =
      get-put-digest item key m
      ∙ ap (λ b. if b then some item else get md5 key m)
          (same_test (md5 item.key) (md5 key) (bytes item.key) (bytes key))

-- The item that a list of puts leaves under a key: the last one whose key has the same MD5 sum.
abbrev pub last_match : (Bytes → Bytes) → Bytes → List Item → Option Item → Option Item
last_match md5 key [] found = found
last_match md5 key (item ∷ items) found =
    last_match md5 key items (if md5 item.key == md5 key then some item else found)

abbrev pub put_all : (Bytes → Bytes) → List Item → ItemMap → ItemMap
put_all md5 [] m = m
put_all md5 (item ∷ items) m = put_all md5 items (put md5 item m)

-- The map keeps what an unbounded history of puts would answer: a key finds the last item that was
-- put under a key with the same MD5 sum, where MD5 yields bytes.
pub get-put_all :
    (md5 : Bytes → Bytes) (items : List Item) (key : Bytes) (m : ItemMap)
    → ((k : Bytes) → All (λ b. b < 256) (md5 k))
    → get md5 key (put_all md5 items m) ≡ last_match md5 key items (get md5 key m)
get-put_all md5 [] key m bytes = refl
get-put_all md5 (item ∷ items) key m bytes =
    rw (get-put_all md5 items key (put md5 item m) bytes)
      (ap (last_match md5 key items) (get-put md5 item key m bytes))
