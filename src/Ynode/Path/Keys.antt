-- ===== src/Ynode/Path/Keys.antt =====
-- ydb/ynode.c: ynode_path_tokenize and ynode_search.
use libydb.Prelude.{
  ℕ, zero, suc, ◌==◌, ◌<◌, ◌≡◌, refl, ap, ◌∙◌, Bool, Bool-cases, true, false, if◌then◌else◌, Option,
  none, some, List, [], ◌∷◌, ◌++◌, map, length, length-append, append-nil, All, Option-cases, inl,
  inr, arith, ◌>>=◌,
}
use libydb.Ynode.Bytes.{Text}
use libydb.Ynode.{Node, ynode_find_child}
use libydb.Ynode.Control.Frame.{lookup}
use libydb.Ynode.Path.{
  is_delimiter, Cut, next_token, key_of, value_of, add_key, last_part, tokens, ynode_path_tokenize,
  walk, ynode_search_best, ynode_search,
}
use libydb.Ynode.Path.Within.{Within, next_token-Within}
use libydb.Ynode.Path.Scan.{
  Piece, IsPiece, bytes, length-bytes, next_token-delimiter, next_token-end,
}

-- A key in a path: pieces, and not none of them
abbrev pub IsKey : List Piece → Type 0
IsKey ps = All IsPiece ps × (0 < length ps)

-- What stands behind `=`
abbrev pub assigned : Option Text → Text
assigned none = []
assigned (some v) = b'=' ∷ v

-- `/key/key=value`
abbrev pub path_of : List (List Piece) → Option Text → Text
path_of [] v = assigned v
path_of (k ∷ ks) v = b'/' ∷ (bytes k ++ path_of ks v)

slash-is_delimiter : is_delimiter b'/' ≡ true
unfolding is_delimiter
slash-is_delimiter = refl

equals-is_delimiter : is_delimiter b'=' ≡ true
unfolding is_delimiter
equals-is_delimiter = refl

module _ (scalar : Text → Option Text) where
  tokens_total :
      (n : ℕ) (is_val : Bool) (path : Text)
      → length path < n
      → (r : List Text × Option Text) × (tokens scalar n is_val path ≡ some r)
  unfolding tokens
  tokens_total zero is_val path h = (([], none), ground (arith, h))
  tokens_total (suc n) is_val path h =
      let (r, found, less) = next_token-Within (suc n) path (omega (arith, h)) in
      at (λ cut l. tokens_total n (cut.at == b'=') cut.after l) r found less
    where
      at :
          ((cut : Cut)
            → length cut.after < n
            → (q : List Text × Option Text) × (tokens scalar n (cut.at == b'=') cut.after ≡ some q))
          → (r : Option Cut) → next_token (suc n) path ≡ some r
          → Within r (length path)
          → (q : List Text × Option Text) × (tokens scalar (suc n) is_val path ≡ some q)
      at more none e w = rw (tokens, e) (last_part scalar is_val path, refl)
      at more (some cut) e w = elim (Bool-cases is_val) [
        | inl v ↦ rw (tokens, e, v) (last_part scalar true path, refl)
        | inr v ↦
            let (r, done) = more cut (omega (arith, w, h)) in
            rw (tokens, e, v, done) ((add_key scalar cut.before r.0, r.1), refl)
      ]

  -- ynode_path_tokenize returns for every path: the bytes of the path are enough fuel.
  pub ynode_path_tokenize-total :
      (path : Text) → (r : List Text × Option Text) × (ynode_path_tokenize scalar path ≡ some r)
  unfolding ynode_path_tokenize
  ynode_path_tokenize-total path = tokens_total (suc (length path)) false path (omega arith)

  -- What the path's value gives
  abbrev pub value_after : Option Text → Option Text
  value_after none = none
  value_after (some []) = none
  value_after (some (c ∷ v)) = some (value_of scalar (c ∷ v))

  tokens-value :
      (n : ℕ) (v : Text) → length v < n → tokens scalar n true v ≡ some ([], value_after (some v))
  unfolding tokens last_part
  tokens-value zero v h = ground (arith, h)
  tokens-value (suc n) v h =
      let (r, found, less) = next_token-Within (suc n) v (omega (arith, h)) in at r found
    where
      part : (w : Text) → last_part scalar true w ≡ ([], value_after (some w))
      part [] = refl
      part (c ∷ w) = refl

      at :
          (r : Option Cut)
          → next_token (suc n) v ≡ some r
          → tokens scalar (suc n) true v ≡ some ([], value_after (some v))
      at none e = rw (tokens, e) (ap some (part v))
      at (some cut) e = rw (tokens, e) (ap some (part v))

  tokens-delimiter :
      (k : List Piece) (n : ℕ) (d : ℕ) (t : Text)
      → All IsPiece k
      → length (bytes k ++ (d ∷ t)) < suc n
      → is_delimiter d ≡ true
      → tokens scalar (suc n) false (bytes k ++ (d ∷ t))
        ≡ (tokens scalar n (d == b'=') t >>= λ rest. some (add_key scalar (bytes k) rest.0, rest.1))
  unfolding tokens
  tokens-delimiter k n d t h l e =
      let fuel : length k < suc n =
        omega (arith, length-bytes k, length-append (bytes k) (d ∷ t), l) in
      rw (tokens, next_token-delimiter k (suc n) d t h fuel e) refl

  add_key-IsKey :
      (k : List Piece) (keys : List Text)
      → IsKey k
      → add_key scalar (bytes k) keys ≡ key_of scalar (bytes k) ∷ keys
  unfolding add_key
  add_key-IsKey [] keys h = ground (arith, h.1)
  add_key-IsKey (Piece.plain c ∷ k) keys h = refl
  add_key-IsKey (Piece.quoted q body ∷ k) keys h = refl

  last_part-add_key : (w : Text) → last_part scalar false w ≡ (add_key scalar w [], none)
  unfolding last_part add_key
  last_part-add_key [] = refl
  last_part-add_key (c ∷ w) = refl

  tokens-path :
      (ks : List (List Piece)) (k : List Piece) (v : Option Text) (n : ℕ)
      → All IsPiece k
      → All IsKey ks
      → length (bytes k ++ path_of ks v) < n
      → tokens scalar n false (bytes k ++ path_of ks v)
        ≡ some (add_key scalar (bytes k) (map (λ q. key_of scalar (bytes q)) ks), value_after v)
  unfolding tokens
  tokens-path ks k v zero h g l = ground (arith, l)
  tokens-path [] k none (suc n) h g l =
      let fuel : length k < suc n = omega (arith, length-bytes k, length-append (bytes k) [], l) in
      ap (tokens scalar (suc n) false) (append-nil (bytes k))
      ∙ rw (tokens, next_token-end k (suc n) h fuel) (ap some (last_part-add_key (bytes k)))
  tokens-path [] k (some v) (suc n) h g l =
      let less : length v < n = omega (arith, length-append (bytes k) (b'=' ∷ v), l) in
      tokens-delimiter k n b'=' v h l equals-is_delimiter
      ∙ ap (λ o. o >>= λ rest. some (add_key scalar (bytes k) rest.0, rest.1))
          (tokens-value n v less)
  tokens-path (k' ∷ ks) k v (suc n) h g l =
      let rest = bytes k' ++ path_of ks v in
      let less : length rest < n = omega (arith, length-append (bytes k) (b'/' ∷ rest), l) in
      tokens-delimiter k n b'/' rest h l slash-is_delimiter
      ∙ ap (λ o. o >>= λ rest. some (add_key scalar (bytes k) rest.0, rest.1))
          (tokens-path ks k' v n g.0.0 g.1 less)
      ∙ ap (λ keys. some (add_key scalar (bytes k) keys, value_after v))
          (add_key-IsKey k' (map (λ q. key_of scalar (bytes q)) ks) g.0)

  -- A path that is written as keys behind slashes, with a value behind `=` or without, is read back as
  -- these keys and this value, each as its YAML scalar. Delimiters in a key are kept, where they stand in
  -- quotes or brackets; the value may have any bytes, and an empty one is none.
  pub ynode_path_tokenize-path_of :
      (ks : List (List Piece)) (v : Option Text)
      → All IsKey ks
      → ynode_path_tokenize scalar (path_of ks v)
        ≡ some (map (λ k. key_of scalar (bytes k)) ks, value_after v)
  unfolding ynode_path_tokenize add_key
  ynode_path_tokenize-path_of ks v h =
      tokens-path ks [] v (suc (length (path_of ks v))) tt h (omega arith)

  walk-lookup :
      (base : Node) (keys : List Text)
      → (let r = walk scalar base keys in if r.1 then some r.0 else none) ≡ lookup base keys
  unfolding walk lookup
  walk-lookup base [] = refl
  walk-lookup base (key ∷ keys) = elim (Option-cases (ynode_find_child base key)) [
    | inl e ↦ rw (walk, e) refl
    | inr (node, e) ↦ rw (walk, e) (walk-lookup node keys)
  ]

  -- ynode_search of such a path goes from child to child by its keys, and finds no node where one of
  -- them has none.
  pub ynode_search-lookup :
      (base : Node) (ks : List (List Piece)) (v : Option Text)
      → All IsKey ks
      → ynode_search scalar base (path_of ks v)
        ≡ some (lookup base (map (λ k. key_of scalar (bytes k)) ks))
  unfolding ynode_search ynode_search_best
  ynode_search-lookup base ks v h =
      let keys = map (λ k. key_of scalar (bytes k)) ks in
      rw (ynode_search, ynode_path_tokenize-path_of ks v h) (ap some (walk-lookup base keys))
