-- ===== src/Io/ReadBuf.antt =====
-- crates/io/src/read_buf.rs over the `BytesMut` of the crate `bytes`, which is a parameter.
use hala_rs.Base.{ℕ, ◌≤◌, ◌≡◌, List, [], ◌++◌, Option, none, some, length, take, drop}

abbrev pub Bytes : Type 0
Bytes = List ℕ

-- The calls of `bytes::BytesMut`. `chunk_mut` returns the buffer after a reservation that it may
-- make, with the length of the slice; `advance_mut` stands for a write of bytes at the front of
-- that slice followed by the move of the cursor over them.
pub record BytesMut : Type 1 where
  pub Buf : Type 0
  pub with_capacity : ℕ → Buf
  pub as_ref : Buf → Bytes
  pub chunk_mut : Buf → Buf × ℕ
  pub advance_mut : Buf → Bytes → Buf
  pub split_to : Buf → ℕ → Buf × Buf
  pub split_off : Buf → ℕ → Buf × Buf
  pub advance : Buf → ℕ → Buf
  pub as_ref-with_capacity : (n : ℕ) → as_ref (with_capacity n) ≡ []
  pub as_ref-chunk_mut : (b : Buf) → as_ref (chunk_mut b).0 ≡ as_ref b
  pub as_ref-advance_mut :
      (b : Buf) (bs : Bytes)
      → length bs ≤ (chunk_mut b).1
      → as_ref (advance_mut (chunk_mut b).0 bs) ≡ as_ref b ++ bs
  pub split_to_front :
      (b : Buf) (n : ℕ) → n ≤ length (as_ref b) → as_ref (split_to b n).0 ≡ take n (as_ref b)
  pub split_to_rest :
      (b : Buf) (n : ℕ) → n ≤ length (as_ref b) → as_ref (split_to b n).1 ≡ drop n (as_ref b)
  pub split_off_kept :
      (b : Buf) (n : ℕ) → n ≤ length (as_ref b) → as_ref (split_off b n).0 ≡ take n (as_ref b)

module _ (M : BytesMut) where
  pub record ReadBuf : Type 0 where
    pub bytes : M.Buf

module _ {M : BytesMut} where
  abbrev pub with_capacity : ℕ → ReadBuf M
  with_capacity n = record { bytes = M.with_capacity n }

  abbrev pub chunk : ReadBuf M → Bytes
  chunk b = M.as_ref b.bytes

  abbrev pub chunk_mut : ReadBuf M → ReadBuf M × ℕ
  chunk_mut b = (record { bytes = (M.chunk_mut b.bytes).0 }, (M.chunk_mut b.bytes).1)

  abbrev pub filled : ReadBuf M → Bytes → ReadBuf M
  filled b bs = record { bytes = M.advance_mut b.bytes bs }

  abbrev pub split_to : ReadBuf M → ℕ → M.Buf × ReadBuf M
  split_to b n = ((M.split_to b.bytes n).0, record { bytes = (M.split_to b.bytes n).1 })

  abbrev pub into_bytes_mut : ReadBuf M → Option Bytes → M.Buf
  into_bytes_mut b none = b.bytes
  into_bytes_mut b (some bs) = (filled b bs).bytes

  -- The conversion to `Bytes` keeps what is in the buffer.
  abbrev pub into_bytes : ReadBuf M → Option Bytes → Bytes
  into_bytes b advance = M.as_ref (into_bytes_mut b advance)

  abbrev pub advance : ReadBuf M → ℕ → ReadBuf M
  advance b n = record { bytes = M.advance b.bytes n }
