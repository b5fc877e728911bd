-- ===== src/Rlp/Types.antt =====
-- rlp/decode.go: the kinds of a value and the errors of the decoders.

pub data Kind : Type 0 where
  byte string list : Kind

-- `eof`, `unexpected_eof` are io.EOF and io.ErrUnexpectedEOF, `eol` is EOL, and the others are the
-- variables of the same names. `invalid_bool` and `negative_int` stand for the messages that
-- Stream.Bool and writeBigInt format.
pub data Error : Type 0 where
  eof unexpected_eof eol : Error
  expected_string expected_list canon_int canon_size elem_too_large value_too_large : Error
  more_than_one_value not_in_list not_at_eol uint_overflow invalid_bool negative_int : Error
