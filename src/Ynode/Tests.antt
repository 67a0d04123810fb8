-- ===== src/Ynode/Tests.antt =====
-- The theorems on the nodes of ydb/ynode.c at small documents, and runs.
use libydb.Prelude.{
  ◌≡◌, ◌↔◌, ◌==◌, if◌then◌else◌, arith, refl, pos, false, Option, none, some, List, [], ◌∷◌,
}
use libydb.Ynode.Bytes.{Text, codes, strcmp, imap_cmp, text_ord}
use libydb.Ynode.{
  Kind, Info, Node, val, branch, Kids, nil, kid, seek_kid, ynode_new, new_node, ynode_tag_ctrl,
  ynode_attach, ynode_find_child, ynode_op_get, op_of_nodes, op_of_types,
}
use libydb.Ynode.Control.{
  created, root_after, settle, ynode_control, control_kids, ynode_copy, ynode_merge,
  ynode_get_with_origin, update_origin,
}
use libydb.Ynode.Control.Ascending.{IsUniqueKids}
use libydb.Ynode.Control.Keys.{InOrder-IsUniqueKids}
use libydb.Ynode.Control.Merge.{IsNode, MaybeIsNode}
use libydb.Ynode.Control.Frame.{lookup, HasNoList, HasNoDelete, control_kids_pointwise}
use libydb.Ynode.Control.Paths.{control_reads_source, control_keeps_rest, control_deletes, misses}
use libydb.Ynode.Create.{ynode_new_fails}
use libydb.Ynode.Path.{
  ynode_path_tokenize, ynode_search, is_delimiter, stops, get_pair_delimiter, key_of, value_of,
}
use libydb.Ynode.Path.Scan.{Piece, Quote, plain, quoted}
use libydb.Ynode.Path.Keys.{
  IsKey, path_of, ynode_path_tokenize-total, ynode_path_tokenize-path_of, ynode_search-lookup,
}
use libydb.Ynode.Path.Merge.{ynode_search-ynode_merge}
use libydb.Ynode.Control.Copy.{ynode_copy-and_create, ynode_merge-IsNode}

abbrev untagged : Info
untagged = record { tag = none; origin = 0 }

abbrev asking : Info
asking = record { tag = some (codes "!ydb!delete"); origin = 0 }

abbrev number : Text → Node
number v = val untagged v

-- { a: 1, c: { x: 5 } }
abbrev old_kids : Kids
old_kids =
    kid (codes "a") (number (codes "1"))
      (kid (codes "c") (branch untagged Kind.omap (kid (codes "x") (number (codes "5")) nil)) nil)

abbrev old : Node
old = branch untagged Kind.map old_kids

-- !!imap { 9: 3, c: { x: 6, y: 7 } }
abbrev new_kids : Kids
new_kids =
    kid (codes "c")
      (branch untagged Kind.map
        (kid (codes "x") (number (codes "6")) (kid (codes "y") (number (codes "7")) nil)))
      (kid (codes "9") (number (codes "3")) nil)

abbrev new : Node
new = branch untagged Kind.imap new_kids

-- { 9: 3, a: 1, c: { x: 6, y: 7 } }
abbrev both : Node
both = branch untagged Kind.map (
    kid (codes "9") (number (codes "3")) (
      kid (codes "a") (number (codes "1")) (
        kid (codes "c")
          (branch untagged Kind.omap
            (kid (codes "x") (number (codes "6")) (kid (codes "y") (number (codes "7")) nil)))
          nil)))

old-IsNode : IsNode old
unfolding strcmp
old-IsNode = (((refl, tt), (tt, tt)), (tt, (((tt, tt), (tt, tt)), tt)))

new-IsNode : IsNode new
unfolding strcmp imap_cmp
new-IsNode = (((refl, tt), (tt, tt)), ((((refl, tt), (tt, tt)), (tt, (tt, tt))), (tt, tt)))

unique_keys : IsUniqueKids new_kids
unique_keys = InOrder-IsUniqueKids Kind.imap new_kids refl new-IsNode.0

merge_test : ynode_merge (some old) new ≡ some both
unfolding ynode_merge ynode_control ynode_op_get op_of_nodes op_of_types update_origin settle
    seek_kid ynode_attach strcmp
merge_test = refl

ynode_merge-IsNode_example : MaybeIsNode (ynode_merge (some old) new)
ynode_merge-IsNode_example = ynode_merge-IsNode (some old) new old-IsNode new-IsNode

ynode_copy-and_create_example : (ynode_copy old ≡ old) × (ynode_control none old ≡ created old)
ynode_copy-and_create_example = ynode_copy-and_create old old-IsNode

new-HasNoList : HasNoList new
new-HasNoList = (refl, ((refl, (tt, (tt, tt))), (tt, tt)))

new-HasNoDelete : HasNoDelete new
new-HasNoDelete = (refl, ((refl, (refl, (refl, tt))), (refl, tt)))

old-HasNoList : HasNoList old
old-HasNoList = (refl, (tt, ((refl, (tt, tt)), tt)))

control_kids_pointwise_example :
    seek_kid (codes "a") (control_kids false Kind.map old_kids new_kids) ≡ some (number (codes "1"))
unfolding seek_kid strcmp
control_kids_pointwise_example =
    control_kids_pointwise Kind.map (codes "a") old_kids new_kids refl old-IsNode.0 unique_keys

control_reads_source_example :
    (r : Node) × (j : Info) × (root_after (ynode_control (some old) new) ≡ some r)
    × (lookup r (codes "c" ∷ codes "y" ∷ []) ≡ some (val j (codes "7")))
unfolding lookup ynode_find_child seek_kid strcmp
control_reads_source_example =
    control_reads_source (codes "c" ∷ codes "y" ∷ []) new (some old) untagged (codes "7") new-IsNode
      new-HasNoList new-HasNoDelete old-IsNode refl

control_keeps_rest_example :
    (r : Node) × (root_after (ynode_control (some old) new) ≡ some r)
    × (lookup r (codes "a" ∷ []) ≡ some (number (codes "1")))
unfolding lookup misses ynode_find_child seek_kid strcmp
control_keeps_rest_example =
    control_keeps_rest (codes "a" ∷ []) new old (number (codes "1")) new-IsNode new-HasNoList
      new-HasNoDelete old-IsNode old-HasNoList refl refl

control_deletes_example :
    seek_kid
      (codes "a")
      (control_kids false Kind.map old_kids (kid (codes "a") (val asking []) nil))
    ≡ none
unfolding seek_kid strcmp
control_deletes_example =
    control_deletes Kind.map (codes "a") old_kids (kid (codes "a") (val asking []) nil)
      (val asking []) (number (codes "1")) refl old-IsNode.0 (tt, tt) refl refl refl

origin_test : ynode_get_with_origin both (pos 0) ≡ 4
unfolding ynode_get_with_origin
origin_test = refl

tag_test : ynode_new none (some (codes "!!seq")) none 0 ≡ some (branch untagged Kind.list nil)
unfolding ynode_new ynode_tag_ctrl new_node strcmp
tag_test = refl

-- A YAML scalar of the simplest kind: a string without spaces, which stands for itself.
abbrev word : Text → Option Text
word [] = none
word (c ∷ s) = if c == 32 then none else some (c ∷ s)

-- `c` and `'a/b'`
abbrev c_key : List Piece
c_key = plain b'c' ∷ []

abbrev y_key : List Piece
y_key = plain b'y' ∷ []

abbrev quoted_key : List Piece
quoted_key = quoted Quote.single (codes "a/b") ∷ []

c_key-IsKey : IsKey c_key
c_key-IsKey = (((refl, (refl, (refl, (refl, (refl, (refl, (refl, tt))))))), tt), omega arith)

y_key-IsKey : IsKey y_key
y_key-IsKey = (((refl, (refl, (refl, (refl, (refl, (refl, (refl, tt))))))), tt), omega arith)

quoted_key-IsKey : IsKey quoted_key
quoted_key-IsKey = (((refl, (refl, (refl, tt))), tt), omega arith)

path_test : path_of (c_key ∷ quoted_key ∷ []) (some (codes "1/2")) ≡ codes "/c/'a/b'=1/2"
unfolding get_pair_delimiter
path_test = refl

ynode_path_tokenize-path_of_example :
    ynode_path_tokenize word (path_of (c_key ∷ quoted_key ∷ []) (some (codes "1/2")))
    ≡ some (codes "c" ∷ codes "'a/b'" ∷ [], some (codes "1/2"))
unfolding key_of value_of get_pair_delimiter
ynode_path_tokenize-path_of_example =
    ynode_path_tokenize-path_of word (c_key ∷ quoted_key ∷ []) (some (codes "1/2"))
      (c_key-IsKey, (quoted_key-IsKey, tt))

tokenize_test :
    ynode_path_tokenize word (codes "a//b[x=1]/") ≡ some (codes "a" ∷ codes "b[x=1]" ∷ [], none)
unfolding ynode_path_tokenize stops is_delimiter get_pair_delimiter
tokenize_test = refl

unclosed_test :
    ynode_path_tokenize word (codes "/a/b'c/d") ≡ some (codes "a" ∷ codes "b'c/d" ∷ [], none)
unfolding ynode_path_tokenize stops is_delimiter get_pair_delimiter
unclosed_test = refl

ynode_path_tokenize-total_example :
    (r : List Text × Option Text) × (ynode_path_tokenize word (codes "/a/b'c/d") ≡ some r)
ynode_path_tokenize-total_example = ynode_path_tokenize-total word (codes "/a/b'c/d")

ynode_search-lookup_example :
    ynode_search word both (path_of (c_key ∷ y_key ∷ []) none) ≡ some (some (number (codes "7")))
unfolding key_of lookup ynode_find_child seek_kid strcmp
ynode_search-lookup_example =
    ynode_search-lookup word both (c_key ∷ y_key ∷ []) none (c_key-IsKey, (y_key-IsKey, tt))

search_test :
    ynode_search word new (path_of (c_key ∷ y_key ∷ []) none) ≡ some (some (number (codes "7")))
unfolding ynode_search stops is_delimiter get_pair_delimiter ynode_find_child seek_kid strcmp
search_test = refl

ynode_search-ynode_merge_example :
    (r : Node) × (j : Info) × (ynode_merge (some old) new ≡ some r)
    × (ynode_search word r (path_of (c_key ∷ y_key ∷ []) none) ≡ some (some (val j (codes "7"))))
ynode_search-ynode_merge_example =
    ynode_search-ynode_merge word (c_key ∷ y_key ∷ []) (c_key-IsKey, (y_key-IsKey, tt)) new old
      untagged (codes "7") new-IsNode new-HasNoList new-HasNoDelete old-IsNode search_test

str_test : ynode_new none (some (codes "!!str")) (some (codes "5")) 0 ≡ some (number (codes "5"))
unfolding ynode_new ynode_tag_ctrl new_node strcmp
str_test = refl

ynode_new_fails_example : (ynode_new (some Kind.map) (some (codes "!!str")) none 0 ≡ none) ↔ (
    ((ynode_tag_ctrl (some Kind.map) (some (codes "!!str"))).0 ≡ none)
    × (◌≡◌ {A = Option Text} none none))
ynode_new_fails_example = ynode_new_fails (some Kind.map) (some (codes "!!str")) none 0
