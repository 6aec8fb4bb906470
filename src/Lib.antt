-- ===== src/Lib.antt =====
-- mldonkey: the C code of the program that obfuscates and encrypts the traffic of two peer-to-
-- peer networks, WinMX and FastTrack, that compresses the file lists of a third, Direct Connect, and
-- that hashes files. The OCaml daemon calls this code on
-- the buffers it sends and receives and on the files it shares.
--
-- The parts, the files that model them and the code they are about:
--
-- Prelude.antt and Prelude/: shared names, Boolean tests, lists as arrays over the native
-- numbers, words of 8, 16 and 32 bits with their wrap-around written out, and bitwise identities.
--
-- WinMx.antt: src/networks/opennap/winmx_xor_c.c. `winmx_encode` and `winmx_decode` are
-- winmx_encode_ml and winmx_decode_ml on the bytes of `what`, one function per loop
-- (`encode_rounds`, `chain_up`, `decode_rounds`, `chain_down`) and `mask_first` for the step on
-- the first byte. The proofs are in WinMx/Passes.antt, one pass, and WinMx/RoundTrip.antt. Length
-- 0, where the code reads before the buffer, is outside the model.
--
-- FastTrack.antt: src/networks/fasttrack.
-- - FastTrack/Seed.antt: seed_step, calculate_num and reverse_bytes of fst_crypt.c, and the loops
--   that fill a key.
-- - FastTrack/Mix.antt, FastTrack/Mix2.antt and FastTrack/Mix2/: enc_type_2.c. Each mix_major
--   function and each mix_minor macro of it is one definition, in the statements of Mix.antt:
--   `pad_op`, `seed_op`, `call`, `when` and sequences. A statement carries the proof that it
--   keeps 20 words of 32 bits.
-- - FastTrack/Flow.antt, FastTrack/Mix20.antt, FastTrack/Mix20/, FastTrack/Mix80.antt and
--   FastTrack/Mix80/: enc_type_20.c and enc_type_80.c in the same way. Flow.antt adds the early
--   return of the macro TRY to the statements. FastTrack/Waves.antt holds my_cos, my_sin and my_sqrt;
--   the loop of my_sqrt has 16 rounds, enough for a byte.
-- - FastTrack/Big.antt and FastTrack/Big/: enc_type_1.c, numbers as lists of 32-bit words, lowest
--   first. The `while` of big_mod has 2^32 rounds of fuel; that it ends within them is not shown,
--   and no result here is about what big_mod leaves.
-- - FastTrack/Cipher.antt: FSTCipher of fst_crypt.h as a record, and fst_cipher_create,
--   fst_cipher_clock and fst_cipher_crypt of fst_crypt.c. The position is a natural number, the
--   fields of 32 bits are natural numbers kept below 2^32.
-- - FastTrack/Checked.antt: fst_cipher_clock once more, where an access outside the arrays gives
--   none.
-- - FastTrack/Init.antt: pad_init, fst_cipher_init and fst_cipher_mangle_enc_type.
-- - FastTrack/Packets.antt: fst_crypt_ml.c, the stubs that set up a pair of ciphers and carry a
--   seed and an encryption type in packets. The two ciphers of a stub are different objects.
-- - FastTrack/Laws/: the proofs. Stream and Packet are about the two sides of a connection, Pads,
--   Valid, InRange, Table and Start about the state of a cipher, Sort about the order of
--   qsort_cmp_func, Number, Product, Reduce and Estimate about multi-word numbers, and Bytes about
--   reverse_bytes.
--
-- FstHash.antt: src/utils/lib/fst_hash.c, the hash of a FastTrack file. A file is its bytes and
-- the number of them that can be read before a read error; `fst_hash_file` takes none where fopen
-- fails. The loops over the samples double a position of 64 bits from 2^20 on and have 44 rounds,
-- enough for sizes below 2^62. FstHash/Tables.antt holds the two tables, FstHash/Crc.antt and
-- FstHash/Ccitt.antt the checks bit by bit that they stand for, FstHash/Samples.antt the bytes
-- that are sampled, FstHash/Digest.antt and FstHash/Layout.antt the digest, and
-- FstHash/Errors.antt files that break off.
--
-- Tiger.antt: the tree hash of src/utils/lib/tiger.c, of strings, and tiger_tree_fd of
-- src/daemon/common/commonHasher_c.c and src/utils/lib/stubs_c.c, of open files. The loop that
-- doubles the block size wraps around at 64 bits, as OFF_T does; it ends for up to 2^62 bytes, and
-- 64 rounds are enough. The recursion on the block size has 52 levels of fuel, enough for as many
-- bytes. Tiger/Levels.antt describes the tree level by level, Tiger/Tree.antt and
-- Tiger/Stream.antt hold the proofs, and Tiger/Short.antt those about files that end too soon. The
-- Tiger digest itself is a parameter.
--
-- HashJob.antt: the hash jobs of src/daemon/common/commonHasher_c.c in the build without threads.
-- COMPLETE_HASH is `hash_fd_direct`, PARTIAL_HASH is `step`, for an algorithm that is a parameter
-- with its streaming law; `ml_job_start` and `ml_job_done` are the branches for it.
-- HashJob/Methods.antt chooses the algorithm: `start_method` and `done_method` are the whole of
-- ml_job_start and ml_job_done over the timers and contexts of all three. os_read is a parameter
-- that gives at least one of the bytes asked for where some are left. The loops over the reads
-- have as many rounds as there are bytes. HashJob/Direct.antt, HashJob/Loop.antt and
-- HashJob/Poll.antt hold the other proofs.
--
-- HashThread.antt: the same jobs in the build with threads, as a step relation of the daemon and
-- the hasher. ml_job_start is `args_set` (or `args_set_beside`, while the hasher computes) and
-- `lock_taken`, hasher_thread is `hash_begins` and `hash_ends`, and ml_job_done is
-- `thread_job_done`. The hasher holds the mutex except while it waits, so `lock_taken` has to
-- find it waiting. The proofs are in HashThread/Runs.antt. The start of the thread is left out; a
-- read error stops the hasher.
--
-- He3.antt: src/networks/direct_connect/che3_c.c, the Huffman compression of file lists.
-- - He3/Bits.antt: get_bit, get_bits, add_bit and add_bits. Memory is a function from positions to
--   bytes.
-- - He3/Tree.antt: insert_node and the loops of encode_he3_data that build the tree, and use_hufnode.
--   `pre_tree` is a list from its end, where remove_node takes nodes. The merge loop has 256 rounds,
--   one for every node that there can be.
-- - He3/Encode.antt: encode_he3_data and ml_che3_compress. What malloc gives is a parameter, a
--   memory without an end.
-- - He3/Decode.antt: decode_he3_data and ml_che3_decompress. The decoder does not use the length of
--   its data, so it reads memory wherever its positions lead; the memory behind a string is a
--   parameter. A negative number of couples is a case of its own. `walk` has a round for every
--   level of decode_array, and gives none where the code reads outside that array.
-- - The proofs: Stream and Written are about bits in memory, Codes, Entries and CodeTable about
--   codes, Queue, Leaves, Heavy, Depth, Cost and Text about the tree, Space about the encoder's
--   memory, Layout, Coded and Header about compressed data, Reading, Walk and Output about the
--   decoder, RoundTrip and Errors about both directions.
--
-- The cipher's initialisation takes as a parameter the MD5 digest of the bundled library. A machine
-- is little-endian, as `reverse_bytes` makes every machine behave. A shift of a word by 32 bits, which
-- a rotation by 0 makes, leaves the word as on x86.
--
-- Not modelled: the OCaml code, bundled libraries (MD4, MD5, SHA-1, Tiger, Crypto++, GLib's
-- character sets), bindings of zlib, gd, libmagic and miniupnp, the operating system layer, the
-- window system glue, and the rest of the C code of the utilities and the daemon.
pub mod Prelude
pub mod WinMx
pub mod FastTrack
pub mod FstHash
pub mod Tiger
pub mod HashJob
pub mod HashThread
pub mod He3
