-- ===== src/Ynode/Path/Merge.antt =====
-- ydb/ynode.c: ynode_search in what ynode_merge leaves.
use mathlib.Core.Option.{some-injective}
use libydb.Prelude.{◌≡◌, sym, ap, ◌∙◌, Option, none, some, List, map, All}
use libydb.Ynode.Bytes.{Text}
use libydb.Ynode.{Info, Node, val}
use libydb.Ynode.Control.{ynode_merge}
use libydb.Ynode.Control.Merge.{IsNode}
use libydb.Ynode.Control.Frame.{lookup, HasNoList, HasNoDelete}
use libydb.Ynode.Control.Paths.{control_reads_source}
use libydb.Ynode.Path.{key_of, ynode_search}
use libydb.Ynode.Path.Scan.{Piece, bytes}
use libydb.Ynode.Path.Keys.{IsKey, path_of, ynode_search-lookup}

module _ (scalar : Text → Option Text) (ks : List (List Piece)) (h : All IsKey ks) where
  pub ynode_search-ynode_merge :
      (src dest : Node) (i : Info) (v : Text)
      → IsNode src
      → HasNoList src
      → HasNoDelete src
      → IsNode dest
      → ynode_search scalar src (path_of ks none) ≡ some (some (val i v))
      → (r : Node) × (j : Info) × (ynode_merge (some dest) src ≡ some r)
        × (ynode_search scalar r (path_of ks none) ≡ some (some (val j v)))
  unfolding ynode_merge
  ynode_search-ynode_merge src dest i v s a d c found =
      let keys = map (λ k. key_of scalar (bytes k)) ks in
      let there : lookup src keys ≡ some (val i v) =
        some-injective (lookup src keys) (some (val i v))
          (sym (ynode_search-lookup scalar src ks none h) ∙ found) in
      let (r, j, kept, read) = control_reads_source keys src (some dest) i v s a d c there in
      (r, j, kept, ynode_search-lookup scalar r ks none h ∙ ap some read)
