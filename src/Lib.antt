-- ===== src/Lib.antt =====
-- Models of the C and C++ code of this repository. SAW itself is written in Haskell; the C code is
-- what its examples, exercises and tests verify: ciphers, a hash, and small programs. An LLVM pass
-- in C++ prepares bitcode for SAW. The programs do not call each other. Modelled are:
--
--   ByteAdd  examples/sv-comp/byte_add.c
--   Chacha   examples/chacha20/chacha20.c: Block has l32 to kexp, Stream the two stream functions,
--            Driver the program that tests them and Vectors its tables
--   ExceptionLower  saw-tools/exception-lower/ExceptionLowerPass.cpp: Ir has the parts of LLVM's IR
--            that the pass reads and writes, Emit the code that it makes, Edit the lists of
--            instructions and what LLVM does when one is replaced or erased, Lower the lowering of a
--            function, and the parent `run`
--   FindFirstSet  intTests/test_intro_examples/ffs.c
--   Handlers small request and key handlers of intTests, each in a file test.c of its directory:
--            AuthHeader test_llvm_auth_header_parse, KeyBuffer test_llvm_no_use_after_free, KeyStore
--            test_llvm_vtable_verify, Secrets test_llvm_no_key_leak_to_log and
--            test_llvm_no_key_leak_unwind, Requests test_llvm_verify_header_validation,
--            test_llvm_verify_rust_validators and test_llvm_deny_on_alloc_fail
--   HashTable  intTests/test_hash_table/ht_simplified.c: a table of counts with chains in a pool
--   Popcount exercises/functional-correctness/popcount/popcount.c
--   Salsa    examples/salsa20/salsa20.c: Core has the quarter round to s20_hash, the parent
--            s20_expand32 and s20_crypt32, Expand16 s20_expand16
--   SelectionSort  exercises/functional-correctness/swap/solution/swap.c
--   Session  intTests/test_llvm_key_state_machine/test.c, with the runs of its two functions as a
--            step relation in Reach; the result of external_crypto_op is an argument
--   Sha512   exercises/sha512/sha512.c and sha512.h: Words has the byte order functions and the
--            word functions, Constants the table, Rounds the block function, Context the context
--            and SHA512_Init, SHA512_Update, SHA512_Final and SHA512
--   Simon    examples/simon-speck/simon-64-128.c (Narrow), simon-128-128.c (Wide) and simon.h
--   Small    exercises/memory-safety/u128/u128.c, exercises/functional-correctness/point/point.c,
--            examples/llvm/dotprod_struct.c and examples/loop-fixpoint/simple_loop.c
--   Speck    examples/simon-speck/speck.c: the parent has the cipher, Stats the tests; what `rand`
--            returns is a function of the number of its call
--   SvComp   examples/sv-comp: parity.c (Parity) and modulus.c (Modulus)
--   Zuc      examples/zuc/zuc.c: Lfsr has the linear part, Tables the tables, the parent the rest;
--            zuc14.c is the same code with VERSION_1_4 defined, which is an argument here
--
-- Functions keep their names, in lower case; a loop is a function whose name ends in `_loop`, and
-- the number of rounds that are left is an argument of it. Base has what they share:
-- machine words, arrays, laws of the bit operations, and regions of a memory that a stream cipher
-- has written. The other modules of a program hold theorems, and Tests its runs and examples.
--
-- Numbers and memory. A word of `w` bits is a natural number, and an operation that can leave the
-- range is reduced modulo 2 ^ w where the C type does. An array is a list; reads out of range give
-- 0 and writes out of range change nothing, and the theorems ask for arrays that are long enough
-- where the code does. A function that writes through pointers gives the new contents. In Chacha
-- the destination and the source are two pointers into one memory, since callers may pass the same
-- buffer; in Salsa, Sha512, Simon and Speck the arguments do not overlap. SHA512_Final and the byte
-- order functions are modelled for a little-endian host. The globals of zuc.c are a record.
--
-- LLVM. The accessors and edits of LLVM that ExceptionLowerPass.cpp calls are modelled by what LLVM
-- documents. An instruction has an identity, which is also the name of its value; a new instruction
-- that replaces all uses of an erased one takes over its identity. A pointer on a list names the
-- instruction with its identity and kind, and the use of a pointer to an erased instruction is
-- `none`. A module keeps the name and the linkage of its global variables; getGlobalVariable does not
-- find those of local linkage, and the name that LLVM gives to a variable whose name is taken is a
-- parameter.
--
-- Undefined behaviour. The shift of r3 in byte_add.c and that of 1 in modulus.c leave the range of `int`
-- for some inputs; the result is then `undefined`, and the theorems say when it is not.
--
-- Heaps. The allocators of Handlers are parameters. In KeyBuffer a heap is what the allocator keeps,
-- and a free of what is no block, or a write outside of a block, is `none`.
--
-- Fuel. The loop `for(;;)` of crypto_stream_chacha20_xor runs on mlen / 64 + 1 of fuel: a
-- round that does not return takes 64 from `mlen`. The theorems on it say that it returns a result.
-- The walk along a chain of the hash table has POOLSIZE + 1 of it, since a chain has at most POOLSIZE
-- entries, and the first loop of mp_add on 6, for four columns, one more for a carry, and the test that
-- ends it. The loop of pop_count_sparse and the first loop of parity.c take a set bit in every round, and
-- the inner loop of modulus.c shifts at least one bit out: 32 rounds and the last test. Its outer loop
-- halves `n`, rounded up. The theorems on them say that they return a result. All other loops have a
-- fixed number of rounds, or one given by an argument.
--
-- Not modelled: what test programs print and read from clocks, and the mean and the variance that
-- speck.c computes in floating point; the pass of saw-tools/strip-nuw; the remaining C programs of
-- examples, exercises, intTests and saw-python, most of them a few lines that exercise a single feature of SAW; what code
-- that ExceptionLowerPass.cpp has lowered does when it runs.
pub mod Base
pub mod ByteAdd
pub mod Chacha
pub mod ExceptionLower
pub mod FindFirstSet
pub mod Handlers
pub mod HashTable
pub mod Popcount
pub mod Salsa
pub mod SelectionSort
pub mod Session
pub mod Sha512
pub mod Simon
pub mod Small
pub mod Speck
pub mod SvComp
pub mod Zuc
