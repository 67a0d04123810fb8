-- ===== src/Lib.antt =====
-- libydb
--
-- The containers and the data tree of libydb, from the C sources in ydb/.
--
-- The program keeps YAML data in a tree of nodes (ydb/ynode.c) that datablocks (ydb/ydb.c) exchange
-- over connections. The nodes' children, the timers (ydb/ytimer.c) and the registries of the library stand in the
-- containers of ydb/: the AVL tree (ydb/ytree.c), the doubly linked list
-- (ydb/ylist.c), the array in fragments (ydb/yarray.c), which keeps its fragments in such a list, and the
-- ordered map (ydb/ymap.c), a tree of keys beside a list.
--
-- Prelude: numbers, integers, lists and results with a failure, which the rest shares.
-- Order: the comparison callback (`ytree_cmp`) as an interface. `cmp` is the sign of its `int`; the laws
-- are those of a total order, which the tree's code relies on.
-- Dict: the abstract dictionary: entries in the order of their keys, each once, with lookup, insertion
-- and erasure. Dict.Split has its laws on lists that are cut at a key.
--
-- Ytree: ydb/ytree.c. A tree is its nodes with key, data (`none` is NULL), balance and children. The
-- `parent` pointers are the ancestors of a place: a pointer to a node is a record of the node's fields
-- and of the frames above it, and assigning through it gives the whole tree anew (`root_of`).
-- Ytree.Rotate, Ytree.Balance: the rotations and the two loops that balance. Reading a child of NULL
-- is `none`. A recursion follows the ancestors, so no fuel is needed. Ytree.Node: Tree_Insert,
-- Tree_SearchNode and Tree_DeleteNode on nodes. Ytree.Api: `struct _ytree` and the functions of
-- ydb/ytree.h. The calls of key_free and data_free are a list in the state, oldest first. The size is
-- a size_t (modulo 2 ^ 64), and ytree_size returns it as an unsigned int (modulo 2 ^ 32).
-- Ytree.Iterate, Ytree.Nearby, Ytree.Remove: the iterators, the searches near a key, and the functions
-- that delete by iterator or delete all. Their loops run on fuel, one more than the number of nodes;
-- an outer `none` is the end of the fuel or a read through NULL. An iterator that is returned from a
-- changed tree is named by its key. Ytree.Push, Ytree.Client: ytree_push and the iterators of a key;
-- any sequence of calls on a new tree. Ytree.Avl: heights and the AVL invariant. Ytree.Entries: the
-- entries of a tree in order. Each has child modules for insertion, deletion and search;
-- Ytree.Leftmost has the lemmas on the successor.
--
-- Ylist: ydb/ylist.c. A pointer is the number of a cell, the head is 0, and each field of the cells is a
-- function in the state. An access to a cell that is not allocated is `none`, so a function that returns
-- has used no freed cell. malloc gives a cell that was never used.
-- Ylist.Chain: runs of cells, linking and unlinking. Ylist.Ring: the well-formed list and what the
-- functions leave in memory. Ylist.Ends, Ylist.Client: the functions at the ends, and any sequence of
-- calls. Ylist.Iterator: iterators, insertion and erasure at them, and the loops along the list, which
-- take fuel as an argument: more than the length of the list is enough.
--
-- Yarray: ydb/yarray.c. A fragment is a circular buffer, its slots a function; the list of the fragments
-- is a list, as Ylist describes it. A read before the first slot is `none`. Yarray.Buffer,
-- Yarray.Take: one fragment as a list. Yarray.Ends, Yarray.Client: the functions at the ends, against
-- the same queue as Ylist.Client. Yarray.Get, Yarray.Traverse, Yarray.Destroy: access by index, the
-- traversal and the end. Yarray.Shift, Yarray.Inside: what yarray_insert and yarray_delete do within one
-- fragment. Yarray.Merge, Yarray.Delete: yarray_delete with the merges of neighbours. Yarray.Insert:
-- yarray_insert with the shifts of entries into a neighbour. yarray_search_around is not modelled.
--
-- Ymap: ydb/ymap.c. Its tree is a Ytree and its list a Ylist, whose data are the addresses of iterators;
-- the memory of the iterators is a function in the state. An access to an iterator that is not allocated,
-- or a failed assertion, is `none`. Ymap.Rows, Ymap.Keys: the list, and the tree, against the rows of the
-- map. Ymap.Refine, Ymap.Ends, Ymap.Client: the functions as operations on a list of entries with one
-- entry for a key (Keyed), and any sequence of calls. Ymap.Iterator, Ymap.Walk: iterators, the walk and
-- the end of a map. Keys are freed as the tree frees them.
--
-- Ynode: ydb/ynode.c. A node is a value, or a kind with its children, which are the entries of the
-- container in its order: a map, a set and an imap as the trees of ydb/ytree.c keep them, an omap as
-- ydb/ymap.c and a list as ydb/ylist.c. The operations of these containers that the nodes use are
-- functions on the entries, as Dict and Keyed have them for the containers themselves. Ynode.Bytes:
-- strings, and the orders of keys. Ynode: creation, attachment, search of a child, and ynode_op_get.
-- Ynode.Control: ynode_control, ynode_copy, ynode_merge and ynode_get_with_origin; ynode_control
-- answers with what became of the node it was given, and `settle` is what that means for its parent.
-- It is the code without hooks and logs; where the code deletes a node it goes on without a source. A
-- replaced entry of a list is not part of the model: ynode_control leaves a freed pointer in the list
-- there. Ynode.Control.Ascending, Keys, Merge: the order of the containers. Ynode.Control.Frame,
-- Paths: what is read after a merge. Ynode.Control.Copy: copies. Ynode.Create: ynode_new and the tags
-- that name a type. Ynode.Path: ynode_path_tokenize and ynode_search. Reading a part of a path as a
-- YAML scalar (to_string, by libyaml) is a parameter; the loops take one more than the bytes of the
-- path as fuel, which is enough for every path. Ynode.Path.Within, Scan, Keys: the next delimiter, and
-- paths written as keys. Ynode.Path.Merge: the search after a merge.
--
-- Ytimer: ydb/ytimer.c. A pointer to a timer is its number; the tree of numbers gives what it points
-- to, the tree of ends its place. Both are the dictionaries (Dict) that ydb/ytree.c implements, with
-- the orders of Ytimer.Order. timerfd_settime, the clock and the arithmetic on doubles that says
-- whether a timer has expired are parameters; a callback is what it calls, by the state it is called
-- in, and its status. The search for a free number takes its rounds as fuel: next_id wraps at 2 ^ 32
-- and is taken modulo 100000, so 67296 numbers in a row differ, and one round more than the timers in
-- use is enough up to there. Ytimer.Serve: callbacks and ytimer_serve, whose result says whether it
-- returns, goes round for ever or uses a freed timer. A callback does not call ytimer_serve or
-- ytimer_destroy. Ytimer.Held, Keeps, Safe, Client: the two trees. Ytimer.Fresh: the search for a free
-- number. Ytimer.Serving: what ytimer_serve does to each timer.
--
-- Not modelled: NULL handles (`if (!tree)`), which the types leave out; keys that are NULL; the failure
-- of malloc; printing; default_cmp, which compares addresses. Of ydb/ynode.c the hooks, the meta data, the
-- parent pointers, printing and the reading of YAML (which goes through libyaml) are left out. The other
-- parts of the repository are datablocks, strings and logs, the copied libraries in ydb/utilities, the
-- application in tools/ydb, and the bindings.
pub mod Prelude
pub mod Order
pub mod Dict
pub mod Keyed
pub mod Ymap
pub mod Ynode
pub mod Ytimer
pub mod Ytree
pub mod Ylist
pub mod Yarray
