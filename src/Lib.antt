-- ===== src/Lib.antt =====
-- Verification of the sketches of this library, streaming summaries of large data sets.
--
-- Fi: the frequent items sketch of fi/include. Fi.Map is the class reverse_purge_hash_map: a table
-- of 2^lg_cur_size slots with linear probing, in three parallel arrays. A slot's state is 0 if it
-- is free, and otherwise one more than the distance from its key's home; keys are raw storage, so
-- that a slot in which no key is constructed is `none`. An array is a function of the index, which
-- the code masks to the size of the table. Fi.Purge is the rest of that class: growing (resize)
-- and purging (purge, subtract_and_keep_positive_only). Fi.Iterator is its iterator, with the
-- stride that the golden ratio gives. Fi.Sketch is frequent_items_sketch. The functions keep their
-- names; the calls go as in the code: update, adjust_or_insert, internal_adjust_or_insert, then
-- resize_or_purge_if_needed. A function that throws returns an Outcome. The hash and the equality
-- of keys are the template parameters H and E, a record KeyOps; the equality is assumed to decide
-- `≡`.
--
-- Kll: the helper class of the quantile sketch, kll/include/kll_helper_impl.hpp. Kll.Capacity has
-- the capacities of the levels, Kll.Buffer the halving and the merging of runs of items in place,
-- and Kll.Compress general_compress, whose buffers and loop variables are a record Work. A buffer
-- is a function of the index, a move copies the item, and the comparator C is any function into
-- Bool; the random bits are an argument, and so is std::sort. The loop of
-- floor_of_log2_of_fraction takes 64 rounds, as many as its 64-bit divisor can be doubled. The
-- loop of general_compress takes 62 rounds, one more than the number of levels that have a
-- capacity. Offsets and weights are taken as small enough for their 32 and 64 bits. Kll.Sketch is
-- the class kll_sketch of kll/include/kll_sketch_impl.hpp, its construction and its updates, with
-- the compaction of a full sketch; check_update_value, which refuses a NaN, is an argument.
-- Kll.Sketch.Growth is about the level that is compacted and a new top level, Kll.Sketch.Levels
-- about the offsets, Kll.Sketch.Update and Kll.Sketch.Stream about updates.
--
-- Cpc: the compressor of the CPC sketch, cpc/include/cpc_compressor_impl.hpp. Cpc.Stream is the
-- stream of bits with its 64-bit buffer, and Cpc.Bits, Cpc.Writing and Cpc.Reading are about it,
-- where a stream is a number, the lowest bit first. Cpc.Codes has the decoding tables; Cpc.Tables
-- the code tables of cpc/include/compression_data.hpp, and Cpc.Codes.Trie a check of such a table
-- by its binary tree, which Cpc.Codes.Complete and Cpc.Codes.Checked are about. Cpc.Bytes is the
-- compression of bytes and Cpc.Window that of the sliding window; Cpc.Pairs is the compression of
-- pairs of row and column by unary and Golomb codes, and Cpc.Surprising that of the table of
-- surprising values, with the size of its buffer. Cpc.Columns is the permutation of the columns
-- for the sliding flavor. Arrays are functions of the index, so that no pointer is null; a new
-- array that the code does not fill is an argument.
--
-- Theta: the theta sketches of theta/include, sets of hashes below a limit theta. Theta.Table is
-- the struct theta_update_sketch_base, a table of 2^lg_cur_size slots probed with an odd stride
-- that a hash gives; a slot whose key is 0 holds no entry and is `none`. Its entries have any type
-- with a key, the template parameters EN and EK. Theta.Sketch is the builder, update_theta_sketch
-- and compact_theta_sketch, as far as the set operations read them, and Theta.Union
-- theta_union_base, with the policy as an argument; Theta.Intersection is theta_intersection_base
-- and Theta.Difference theta_set_difference_base, with std::set_difference as what it keeps of two
-- ranges. The hash of an item, compute_seed_hash, and the theta that the sampling probability
-- gives are arguments. Theta.Stride, Theta.Probing, Theta.Entries, Theta.Rehash, Theta.Select,
-- Theta.Consolidate, Theta.Rebuild and Theta.Insert are about the loops of the table, from the
-- probing to insert, Theta.Fresh and Theta.Reset about the tables that they start with; what a
-- table holds is counted by measures of entries.
--
-- Bounds on loops. A search of adjust_or_insert stops by the drift limit within 1024 rounds; get
-- and hash_delete take as many rounds as the table has slots, which is enough where one slot is
-- free. adjust_or_insert and resize call one another; a depth of 2 is enough, since the insertions
-- into a table of twice the size do not grow it again. find takes as many rounds as the table has
-- slots, and log2 32 rounds, as many as its argument has bits. floor_log2_of_long takes 65 rounds,
-- one more than its 64-bit power has shifts, and read_unary 2^26, more than a number of rows
-- needs. That these bounds are enough is part of the theorems: the outcome `diverges` is excluded.
--
-- The exceptions are those of the source, but for three: `drift_limit_reached` is the logic_error of
-- the drift limit alone, `undefined` marks what C++ leaves undefined, also the shift of an int that
-- overflows in lg_size_from_count, and `diverges` the bounds on loops.
--
-- Not modelled: moves, assignments and destructors, allocators, printing, serialization; of the
-- quantile sketch its merge and its queries; of the CPC sketch the table, the bit matrix and the
-- estimators, and the choice of the compression by flavor; and the other sketches of the library.
-- Weights are uint64_t, with additions modulo 2^64. nth_element is modelled by what it puts at the
-- position asked for; std::sort by an insertion that keeps one of the orders that it may leave for
-- ties.
pub mod Base
pub mod Cpc
pub mod Fi
pub mod Kll
pub mod Theta
