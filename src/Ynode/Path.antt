-- ===== src/Ynode/Path.antt =====
-- ydb/ynode.c: paths of keys, and the search of a node by path. `scalar` stands for to_string, which
-- reads one YAML scalar with libyaml, and for NULL gives none.
pub mod Within
pub mod Scan
pub mod Keys
pub mod Merge
use libydb.Prelude.{
  ℕ, zero, suc, ◌==◌, Bool, true, false, ◌||◌, if◌then◌else◌, Option, none, some, List, [], ◌∷◌,
  ◌++◌, length, ◌>>=◌,
}
use libydb.Ynode.Bytes.{Text}
use libydb.Ynode.{Node, ynode_find_child}

unfoldable pub get_pair_delimiter : ℕ → ℕ
get_pair_delimiter c =
    if c == b'{'
    then b'}'
    else if c == b'['
    then b']'
    else if c == b'('
    then b')'
    else if c == b'<'
    then b'>'
    else if c == b'}'
    then b'{'
    else if c == b']'
    then b'['
    else if c == b')'
    then b'('
    else if c == b'>'
    then b'<'
    else c

-- PATH_DELIMITER
unfoldable pub is_delimiter : ℕ → Bool
is_delimiter c = (c == b'/') || (c == b'=')

-- PATH_DELIMITER PATH_IGNORE_START
unfoldable pub stops : ℕ → Bool
unfolding is_delimiter
stops c =
    is_delimiter c
    || ((c == b'\'') || ((c == b'{') || ((c == b'[') || ((c == b'(') || (c == b'"')))))

-- A string that is cut at a byte
pub record Cut : Type 0 where
  pub before : Text
  pub at : ℕ
  pub after : Text

-- strpbrk and strchr: the first byte of a set
unfoldable pub find_byte : (ℕ → Bool) → Text → Option Cut
find_byte f [] = none
find_byte f (c ∷ s) =
    if f c
    then some (record { before = []; at = c; after = s })
    else find_byte f s >>= λ cut. some (record cut { before = c ∷ cut.before })

-- The inner loop: from a token on to the first delimiter that is not in quotes or brackets. `token` is
-- the cut of `path` there; NULL is `some none`. It takes fuel: one more than the bytes after the token.
unfoldable pub skip_ignored : ℕ → Cut → Option (Option Cut)
unfolding find_byte
skip_ignored zero token = none
skip_ignored (suc n) token =
    if is_delimiter token.at
    then some (some token)
    else elim (find_byte (λ c. c == get_pair_delimiter token.at) token.after) [
      | none ↦ some none
      | some close ↦ elim (find_byte stops close.after) [
        | none ↦ some none
        | some next ↦ skip_ignored n (record next {
          before = token.before ++ (token.at ∷ (close.before ++ (close.at ∷ next.before)));
        })
      ]
    ]

unfoldable pub next_token : ℕ → Text → Option (Option Cut)
unfolding find_byte skip_ignored
next_token n path = elim (find_byte stops path) [
  | none ↦ some none
  | some token ↦ skip_ignored n token
]

module _ (scalar : Text → Option Text) where
  -- The bytes themselves, where they are no scalar
  unfoldable pub key_of : Text → Text
  key_of path = elim (scalar path) [ none ↦ path | some s ↦ s ]

  -- `strndup(path, 0)` where they are none
  unfoldable pub value_of : Text → Text
  value_of path = elim (scalar path) [ none ↦ [] | some s ↦ s ]

  -- A part between delimiters is a key, unless it is empty.
  unfoldable pub add_key : Text → List Text → List Text
  unfolding key_of
  add_key [] keys = keys
  add_key (c ∷ s) keys = key_of (c ∷ s) ∷ keys

  -- What is behind the last delimiter
  unfoldable pub last_part : Bool → Text → List Text × Option Text
  unfolding key_of value_of
  last_part is_val [] = ([], none)
  last_part true (c ∷ s) = ([], some (value_of (c ∷ s)))
  last_part false (c ∷ s) = (key_of (c ∷ s) ∷ [], none)

  -- The loop of ynode_path_tokenize: the keys, and the value behind `=`. It takes fuel: one more than the
  -- bytes of the path.
  unfoldable pub tokens : ℕ → Bool → Text → Option (List Text × Option Text)
  unfolding next_token add_key last_part
  tokens zero is_val path = none
  tokens (suc n) is_val path = next_token (suc n) path >>= λ token. elim token [
    | none ↦ some (last_part is_val path)
    | some cut ↦ elim is_val [
      | true ↦ some (last_part true path)
      | false ↦
          tokens n (cut.at == b'=') cut.after >>= λ rest. some (add_key cut.before rest.0, rest.1)
    ]
  ]

  unfoldable pub ynode_path_tokenize : Text → Option (List Text × Option Text)
  unfolding tokens
  ynode_path_tokenize path = tokens (suc (length path)) false path

  -- The loop of ynode_search_best: the last node found, and whether every key was.
  unfoldable pub walk : Node → List Text → Node × Bool
  unfolding ynode_find_child
  walk found [] = (found, true)
  walk found (key ∷ keys) = elim (ynode_find_child found key) [
    | none ↦ (found, false)
    | some node ↦ walk node keys
  ]

  unfoldable pub ynode_search_best : Node → Text → Option (Node × Bool)
  unfolding ynode_path_tokenize walk
  ynode_search_best base path = ynode_path_tokenize path >>= λ r. some (walk base r.0)

  unfoldable pub ynode_search : Node → Text → Option (Option Node)
  unfolding ynode_search_best
  ynode_search base path =
      ynode_search_best base path >>= λ r. some (if r.1 then some r.0 else none)
