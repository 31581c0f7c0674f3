-- ===== src/Documents.antt =====
-- The documents of the database: MarshalBSON and UnmarshalBSON of internal/types/{transaction,withdraw,
-- delegation,reward,epoch}.go. The hexadecimal texts of the node's library and the encoder of the
-- database driver are parameters.
pub mod Trx
pub mod Staking
mod Tests
use explorer_api_gql.Base.{ℕ, ◌^◌, ◌<◌, ◌≤◌, ◌≡◌, Option, none, some, List, [], ◌∷◌}
use explorer_api_gql.Types.{Hash, Address}

-- String, HexToHash, HexToAddress and DecodeBig of the node's library; a decoding that fails is
-- `none`
pub record Hex (Text : Type 0) : Type 0 where
  pub of_hash : Hash → Text
  pub to_hash : Text → Hash
  pub of_address : Address → Text
  pub to_address : Text → Address
  pub of_big : ℕ → Text
  pub decode_big : Text → Option ℕ

-- What is relied on: a text is read back as what it was made of. A big number has up to 256 bits, and
-- no leading zero.
pub record Reads {Text : Type 0} (hex : Hex Text) : Type 0 where
  pub hash_back : (h : Hash) → h < 2 ^ 256 → hex.to_hash (hex.of_hash h) ≡ h
  pub address_back : (a : Address) → a < 2 ^ 160 → hex.to_address (hex.of_address a) ≡ a
  pub big_back : (n : ℕ) → n < 2 ^ 256 → hex.decode_big (hex.of_big n) ≡ some n
  pub hash_as_big : (h : Hash) → 2 ^ 252 ≤ h → h < 2 ^ 256 → hex.decode_big (hex.of_hash h) ≡ some h
  pub leading_zero : (h : Hash) → h < 2 ^ 252 → hex.decode_big (hex.of_hash h) ≡ none

-- `bson.Marshal` and `bson.Unmarshal` for the rows of a collection
pub record Driver (Row Doc : Type 0) : Type 0 where
  pub marshal : Row → Option Doc
  pub unmarshal : Doc → Option Row

-- What is relied on: a row whose unsigned numbers fit in 63 bits is read back as it was.
abbrev pub Keeps : {Row Doc : Type 0} → Driver Row Doc → (Row → Type 0) → Type 0
Keeps {Row} {Doc} driver Fits =
    (row : Row)
    → Fits row
    → (doc : Doc) × (driver.marshal row ≡ some doc) × (driver.unmarshal doc ≡ some row)

-- an optional value, through a function
abbrev pub map_option : {A B : Type 0} → (A → B) → Option A → Option B
map_option f none = none
map_option f (some a) = some (f a)

-- a chain of steps that may fail
abbrev pub then_do : {A B : Type 0} → Option A → (A → Option B) → Option B
then_do none f = none
then_do (some a) f = f a
