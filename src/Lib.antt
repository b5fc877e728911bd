-- ===== src/Lib.antt =====
-- This library models parts of go-fiscobcos, the Go client library for FISCO BCOS, and proves
-- what makes them correct. A Go byte slice is a list of numbers below 256 (IsByte), a Go error
-- is a value, and a run-time panic is the third outcome of a call (Base/Calls: Outcome).
-- Numbers are natural numbers; where the code computes on a machine word whose wrap-around can
-- matter, it is written out. Lengths are below 2 ^ 64, as every Go int is, and the theorems say
-- so where they need it.
--
-- Base holds the shared names: Boolean tests, lists under native indices, outcomes, bytes and
-- big-endian numbers, the law of a bitwise or without common bits, and well-founded recursion.
--
-- Rlp models the package rlp. Rlp/Types has the kinds and errors of rlp/decode.go. Rlp/Head has
-- the headers (headsize, puthead, putint, intsize of rlp/encode.go); Rlp/Raw has rlp/raw.go
-- (readSize, readKind, Split, SplitString, SplitList, CountValues, ListSize); Rlp/Buffer has
-- the encode buffer with list, listEnd and toBytes; Rlp/Writer has the writers of values. The
-- abstract views are Rlp/Raw/Frame, the encoding of a kind and a content, and
-- Rlp/Writer/Encoding, the encoding rules as a function of the value.
--
-- Rlp/Stream has the stream decoder of rlp/decode.go: a Stream is a record, a method a function
-- from a stream to a Reply, which is a value or an error and the stream as it then is. The
-- reader has all its bytes at hand, as a bytes.Reader does. Rlp/Stream/Decode has
-- decodeInterface, decodeListSlice, decodeSliceElems and DecodeBytes, for an empty interface as
-- target: Rlp/Item has the values that this gives, and their encoding. Of an error the model
-- keeps the cause, not the type and path around it. Position says where a stream stands
-- (IsReady, IsTagged) and what is beyond it (Edge: whether there is an input limit, what it
-- spares, and the bytes that it cuts off; IsReady-edge_behind has every stream whose limit
-- allows the bytes in front of it), and Tags, Headers, Values, Whole, Numbers and Again what
-- the methods do there.
--
-- Bitutil/Words models common/bitutil/bitutil.go: Memory has what the loops write, Same the
-- operations on two slices, Zero TestBytes. Reads and writes through unsafe pointers are those
-- of the bytes of a word, which an error stands for where they leave the slice. Bitutil models
-- common/bitutil/compress.go: CompressBytes, DecompressBytes and the functions below them. Bits
-- has the bits of a bitset and Gather and Scatter the two loops; Levels unfolds one level of
-- the recursions, RoundTrip puts them together, Format states the format, and Safe takes any
-- input. The recursions are on the accessibility of the length, which falls at every level. The
-- length up to which make allocates a slice is a parameter, and make panics for a longer
-- target.
--
-- Math models common/math: SafeSub, SafeAdd and SafeMul of integer.go (Checked), and U256 and
-- S256 (Signed), Exp (Exp, with Powers for remainders of powers) and Byte (Bytes) of big.go. A
-- big.Int is an integer or, where no negative one is taken, as for Exp and Byte, a natural
-- number. The words of a big.Int are 64 bits wide, as on a 64-bit target, where Go has 32 bits
-- on others. Exp squares the big.Int of its caller in place, so the model returns it, too.
--
-- Hexutil models common/hexutil/hexutil.go: Decode and Encode of byte slices (Data),
-- DecodeUint64 and EncodeUint64 (Quantity), and the digits (Nibbles), where encoding/hex and
-- strconv are written out for what these functions use of them. A string is the list of its
-- bytes.
--
-- Heap models what the sources use of container/heap of the standard library, over a record of
-- the methods of heap.Interface; an implementation says on which states its methods work as on
-- a list of items with keys (Implements). Heap/Array has lists as arrays, Heap/Order the order
-- of a heap, Heap/Up and Heap/Down the two loops, and Heap/Operations Push, Pop and Remove.
--
-- Prque models common/prque: the stack in blocks of sstack.go, with a log of the calls of its
-- callback, and the queue of prque.go. Blocks has lists in blocks, Stack and Ends the methods
-- on them, Priority the order of int64 priorities that wrap around, Sortable the stack as an
-- implementation of heap.Interface, Queue the methods of the queue, and Drain all calls of Pop
-- in a row. Prque/Lazy has the queue of lazyqueue.go, with its callbacks for priorities as
-- functions and the time of the clock as an argument, Lazy/Refresh its Refresh, and Lazy/Remove
-- its Remove, of the indices that setIndex0 and setIndex1 report. A nil setIndex makes every
-- call that moves an item of the two stacks panic, as in Go.
--
-- Mclock models common/mclock/simclock.go: the store of timers, the heap that knows their
-- places (Timers, Sortable), Run (Clock), Stop, AfterFunc and NewTimer (Schedule), Reset, and
-- all sequences of calls (Reachable). The actions of fired timers are the caller's code and are
-- only named.
--
-- Common models common/bytes.go and of common/types.go the making of hashes and addresses: Hex
-- has FromHex and ToHex, Fixed the lengths of hashes and addresses. A nil slice is the empty
-- one, so that CopyBytes, which tells them apart, is left out.
--
-- The loops of a heap have as much fuel as it has entries and one more, and so has the loop of
-- Run. The loop of intsize recurs on the accessibility of the number; the loop of CountValues
-- has as much fuel as its input has bytes, and each round takes one. decode_bytes has as much
-- fuel as its input has bytes and one more, for the depth of lists and for the elements of
-- each: a list and an element each have a byte of their own. A Reply `stuck` means that fuel
-- ran out.
--
-- Types are not modelled as such: a Value of Rlp/Writer is a Go value for which makeWriter has
-- chosen a writer. Reflection, the type cache, and types with their own EncodeRLP are left out.
pub mod Base
pub mod Heap
pub mod Prque
pub mod Mclock
pub mod Rlp
pub mod Bitutil
pub mod Math
pub mod Hexutil
pub mod Common
