-- ===== src/Lib.antt =====
-- APSU, an unbalanced private set union protocol: a sender with a small set queries a receiver
-- with a large one, over homomorphically encrypted powers of its items, and an oblivious switching
-- network hides the order of the answers.
--
-- The parts and the files that model them:
--   * The powers of a query, common/apsu/powers.h and powers.cpp: Powers and its children. The
--     state of PowersDag is the record PowersDag, nodes_ an association list. `configure` is the
--     whole member function: the early returns, the search for the parents of each target, the
--     new nodes. `reset` keeps the nodes as the code does.
--   * create_powers_set of common/apsu/util/utils.cpp: PowersSet, with 32-bit wrap-around. Its loop
--     runs on fuel; max_items_per_bin + 2 is enough where 32 bits hold
--     max_items_per_bin + ps_low_degree + 1. Beyond that the loop need not end.
--   * conversion_to_digits of common/apsu/util/utils.cpp: Conversion. Its loop runs on fuel; 64 is
--     enough for a 64-bit number and a base from 2 on.
--   * PSUParams::initialize of common/apsu/psu_params.h and psu_params.cpp: PsuParams.
--   * The validating constructor of Query, receiver/apsu/query.h and query.cpp: Query, with
--     `extract` of SEALObject, common/apsu/seal_object.h, and its exceptions. SEAL is a parameter,
--     the record Seal. Query uses PsuParams, PowersSet and Powers.
--   * BinBundle of receiver/apsu/bin_bundle.h and bin_bundle.cpp: BinBundle has the two insertions,
--     BinBundle.Edit the constructor, overwriting, removal, the lookup of labels and clearing.
--     Iterators into a bin are places in it. The cuckoo filter is used through the interface
--     FilterOps. BinBundle.Cache has the polynomials of the cache and stripping.
--   * The items and labels as field elements, common/apsu/util/db_encoding.cpp and the classes of
--     common/apsu/item.h: DbEncoding, bytes as numbers with the shifts and masks of the code.
--   * ReceiverDB of receiver/apsu/receiver_db.h and receiver_db.cpp: Workers has the insertion and
--     removal workers and their dispatch, over BinBundle; ReceiverDb has the state, a record, and
--     the operations, over Workers, BinBundle.Cache, DbEncoding and PsuParams. Tasks of a thread
--     pool run one after the other. The hash functions of Kuku, the OPRF and the values that
--     `remove_if` leaves behind its range are arguments. Where an exception ends an operation, the
--     model keeps the exception and not the state.
--   * CuckooFilterTable of receiver/apsu/util/cuckoo_filter_table.h and cuckoo_filter_table.cpp:
--     CuckooTable, with next_power_of_2 of common/apsu/util/utils.cpp. The tags are bit fields of
--     64-bit words, written and read as the code does, across two words where they do not fit one.
--     A read out of the vector gives 0; within the bounds of a well-formed table there is none.
--     The comparison of a ratio with 0.96 is in whole numbers, exact below 2^50 items.
--   * CuckooFilter of receiver/apsu/util/cuckoo_filter.h and cuckoo_filter.cpp: CuckooFilter, over
--     CuckooTable. The random array of the hash function of hash.h and the values of `rand()` are
--     arguments. The loop of add_index_tag runs at most 500 rounds, as in the code.
--   * common/apsu/util/interpolate.cpp: Interpolate has polyn_with_roots and Interpolate.Newton
--     newton_interpolate_polyn. The modular arithmetic of SEAL is a parameter, the record Modulus,
--     with documented laws in IsModulus.
--   * PlaintextPowers of sender/apsu/plaintext_powers.cpp: PlaintextPowers, over the source nodes of
--     Powers. The loop of exponentiate_array runs on fuel; 32 is enough for a 32-bit exponent.
--   * Benes::gen_benes_eval and gen_benes_masked_evaluate of common/apsu/permute/apsu_benes.cpp:
--     Benes and Benes.Masked. The recursion runs on the depth n, which is enough for 2^n values.
--     Blocks are a parameter, the record Blocks, with the laws of `^`.
--   * The switching network of common/apsu/permute/apsu_OSNReceiver.cpp and apsu_OSNSender.cpp: Osn,
--     over Benes. `prepare_correction` passes on the arrays that the code writes, as the record
--     Store, indexed by base_idx; its two recursive calls run one after the other, as with one
--     thread. The correction by the sender is `corrected`. The random masks and the results of
--     the oblivious transfers are arguments.
--   * Common has the shared lists, sets, machine words, bits and results. An exception is a value
--     of Result. Tests has runs at small inputs.
--
-- Numbers are natural numbers; where the code computes in 32 bits and may wrap, the wrap-around
-- is written out in Common.Words.
--
-- Not modelled: the network, serialization, elliptic-curve and homomorphic arithmetic, which are
-- I/O or other libraries; parallel_apply of PowersDag; the plaintexts of SEAL in the cache of a
-- bundle; get_label of the database and the way back from field elements to bits; the routing of
-- the network of switches.
mod Tests
pub mod Benes
pub mod BinBundle
pub mod Common
pub mod Conversion
pub mod CuckooFilter
pub mod CuckooTable
pub mod Interpolate
pub mod Osn
pub mod Powers
pub mod PowersSet
pub mod PsuParams
pub mod Query
pub mod Workers
pub mod DbEncoding
pub mod ReceiverDb
pub mod PlaintextPowers
