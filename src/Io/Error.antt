-- ===== src/Io/Error.antt =====
-- The kinds of `std::io::Error` that the crates construct or test.

pub data ErrorKind : Type 0 where
  other broken_pipe would_block timed_out interrupted unexpected_eof not_found connection_refused :
      ErrorKind
