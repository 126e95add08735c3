-- ===== src/Lib.antt =====
-- The adaptive radix trees of cpp-art: include/art/ar_tree.h, the tree without path compression
-- that radix_map and radix_set use for keys of at most 6 bytes, include/art/ar_prefix_tree.h, the
-- tree with path compression that they use for longer ones, and include/art/key_transform.h, which
-- makes the keys of both.
--
-- A tree of inner nodes of four classes, by how many children they hold, leads byte by byte down a
-- key; a leaf holds a value as soon as no other key shares its path. The tree object has a root, a
-- count and a dummy node, which is the parent of the root and owns the end marker. In the tree
-- with path compression an inner node also has the bytes that all keys below it share, up to 8 of
-- them stored in the node and the rest read from a leaf.
--
-- Base: Boolean tests on numbers, arrays as functions of the index, sums and counts.
-- Node/Sorted: _Node_4, and Node/Node16: _Node_16, sorted arrays of bytes and children.
-- Node/Indexed: _Node_48, an index per byte. Node/Direct: _Node_256, a child per byte.
-- Node/Growth: the constructors that make a node of one class from a node of another.
-- Node/Body: the virtual methods, dispatched on the class; grow and shrink.
-- Tree: Node_ptr, _Inner_Node and the chain of _parent pointers. Tree/Key: the union Key, read as
-- its bytes. Tree/Wf: the invariant of a subtree. Tree/Leaves: the number of leaves.
-- Tree/Find, Tree/Insert, Tree/Erase: the loops of find, insert_unique and erase_unique, with
-- update_child_ptr, fix_after_erase, shrink_after_erase and shrink.
-- Tree/Walk: minimum, maximum, successor, predecessor and the loops of the bounds. Tree/Copy:
-- copy_children and copy_node.
-- ArTree: the object and its public operations. ArTree/Iterate: iterators, bounds and erase of an
-- iterator. ArTree/Emplace: emplace_unique. ArTree/Copying: copy construction and assignment.
-- ArTree/Edge: a tree that has been emptied, and the bounds on every tree with a value.
-- ArTree/Program: its operations as a SearchTree.
-- PrefixTree: the nodes of ar_prefix_tree.h, whose arrays are those of ar_tree.h. PrefixTree/Wf: the
-- invariant of a subtree. PrefixTree/Prefix: prefix_mismatch_pos and pes_prefix_mismatch_pos.
-- PrefixTree/Find, PrefixTree/Insert, PrefixTree/Erase: the loops of find, insert_unique and
-- erase_unique, with split_prefix_into_parent, fix_after_erase and compress_node_into_child.
-- ArPrefixTree: the object and its public operations.
-- SearchTree: the interface that both trees fill, operations and laws, and programs of calls on it.
-- KeyTransform: byte_swap, is_big_endian and key_transform of integers, pairs and strings; Words,
-- Shifts, Stages and Swap: a word and its bytes; Bytes and Image: the bytes in memory.
-- RadixMap and RadixSet: radix_map of include/art/radix_map.h and radix_set of
-- include/art/radix_set.h over ar_tree. RadixMap/Rep: the choice of the tree by the key's
-- length. RadixMap/Integers and RadixMap/IntegerPrograms: containers with integer keys.
-- Tests: concrete nodes and trees.
--
-- In the trees the key transformation is a parameter: a function from a value to the bytes of its
-- transformed key, of which the first key_size are read. Comparing the union's integers is
-- comparing all of these bytes. Where a lemma needs it, a hypothesis says that each of them is
-- less than 256, as a byte is. The iterators' operators ++ and -- make a _Key_transform of their
-- own where the tree has _M_key_transform; the parameter stands for both, so a transformation with
-- a state is not covered.
--
-- A pointer is read as what it points to: each node has one owner, and a node that changes in
-- place is written into its parent, and so on up to the root, along the explicit list of
-- ancestors. Counts and slots are numbers; the invariants bound them by the sizes of the arrays,
-- so no uint16_t or byte wraps. A throw without an exception, which ends the program, and a use of
-- a null pointer are results of their own.
--
-- In the tree with path compression _prefix_length has 16 bits, which the invariant and keys of at
-- most 65536 bytes keep from wrapping. The int32_t _depth is a number without a bound, which the
-- invariant keeps below the length of the keys. The overlapping moves of prefix bytes in
-- compress_node_into_child are read as moves that do not lose bytes.
--
-- The loops of find and insert_unique run on key_size + 1 rounds of fuel, the loop of erase_unique
-- on key_size, as their bounds in the source say; with path compression a round also passes a
-- prefix, so fewer are needed. The outer loop of shrink_after_erase has two rounds: a node of a
-- larger class shrinks once and is then not underfull, and a _Node_4 shrinks to a leaf, which is
-- never underfull. Walks down and copies have key_size + 1 levels.
--
-- An iterator is the value of its leaf; the leaf's chain of parents is found again by its key. A
-- pointer to a node that has been deleted is told apart only at the dummy node, which keeps one.
--
-- Integers of key_transform.h are numbers below 2 ^ w, signed ones by their bit patterns; the
-- shift of a signed integer to the right fills with the sign, and the byte order of the machine is
-- a parameter.
--
-- Not modelled: the relational operators, the const twins of methods, reverse iterators, and the
-- code that frees memory; of include/art/ar_prefix_tree.h copying, moving, emplace_unique, the
-- bounds and the iterators, which are still to be done; libs/cpp-btree, another project's code,
-- and the benchmarks, examples and tests, which only call the library.
pub mod Base
pub mod Node
pub mod Tree
pub mod ArTree
pub mod PrefixTree
pub mod ArPrefixTree
pub mod SearchTree
pub mod KeyTransform
pub mod RadixMap
pub mod RadixSet
pub mod Tests
