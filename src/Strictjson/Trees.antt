-- ===== src/Strictjson/Trees.antt =====
-- Texts of JSON as trees, and the tokens of a tree.
use ueg.Common.{◌≢◌, List, [], ◌∷◌, Text, All}
use ueg.Strictjson.{
  Delim, open_object, close_object, open_array, close_array, delim, string, scalar, Lexed, token,
}

-- `stray` is a closing bracket where a value stands, which scanValue lets pass.
mutual
  pub data Tree : Type 0 where
    leaf : Tree
    word : Text → Tree
    stray : Delim → Tree
    array : Trees → Tree
    object : Members → Tree

  pub data Trees : Type 0 where
    nil : Trees
    cons : Tree → Trees → Trees

  pub data Members : Type 0 where
    end : Members
    member : Text → Tree → Members → Members

-- The tokens of a tree, before those of what follows.
unfoldable mutual
  pub flatten : Tree → List Lexed → List Lexed
  flatten leaf rest = token scalar ∷ rest
  flatten (word s) rest = token (string s) ∷ rest
  flatten (stray d) rest = token (delim d) ∷ rest
  flatten (array ts) rest =
      token (delim open_array) ∷ flatten_items ts (token (delim close_array) ∷ rest)
  flatten (object ms) rest =
      token (delim open_object) ∷ flatten_members ms (token (delim close_object) ∷ rest)

  pub flatten_items : Trees → List Lexed → List Lexed
  flatten_items nil rest = rest
  flatten_items (cons t ts) rest = flatten t (flatten_items ts rest)

  pub flatten_members : Members → List Lexed → List Lexed
  flatten_members end rest = rest
  flatten_members (member k t ms) rest = token (string k) ∷ flatten t (flatten_members ms rest)

-- No object of a tree has a key twice; `seen` are the keys before.
unfoldable mutual
  pub IsStrict : Tree → Type 0
  IsStrict leaf = Unit
  IsStrict (word s) = Unit
  IsStrict (stray d) = Unit
  IsStrict (array ts) = AreStrict ts
  IsStrict (object ms) = AreDistinct [] ms

  pub AreStrict : Trees → Type 0
  AreStrict nil = Unit
  AreStrict (cons t ts) = IsStrict t × AreStrict ts

  pub AreDistinct : List Text → Members → Type 0
  AreDistinct seen end = Unit
  AreDistinct seen (member k t ms) =
      All (λ other. other ≢ k) seen × IsStrict t × AreDistinct (k ∷ seen) ms
