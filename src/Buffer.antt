-- ===== src/Buffer.antt =====
-- Envoy's `Buffer::Instance` as an interface: the codecs see its operations, and the proofs its
-- documented laws on the byte sequence that a buffer holds. The laws speak of reads and drains
-- inside the buffer only.
pub mod ByteList
pub mod Moves
use meta_protocol_proxy.Base.{
  ℕ, zero, suc, ◌+◌, ◌*◌, ◌/◌, ◌%◌, ◌^◌, ◌≤◌, ◌≡◌, List, [], ◌∷◌, ◌++◌, length, take, drop,
}

-- The number that a sequence of bytes stands for, first byte highest.
abbrev pub be_value : List ℕ → ℕ
be_value [] = 0
be_value (b ∷ bs) = b * 256 ^ length bs + be_value bs

-- The last `w` bytes of a number, highest first.
abbrev pub be_bytes : ℕ → ℕ → List ℕ
be_bytes zero v = []
be_bytes (suc w) v = (v / 256 ^ w % 256) ∷ be_bytes w v

pub record BufferApi : Type 1 where
  pub Buffer : Type 0
  pub bytes : Buffer → List ℕ
  pub empty : Buffer
  -- length()
  pub size : Buffer → ℕ
  -- peekBEInt<T>(offset), by the size of T and the offset; peekInt<uint8_t> is the case of size 1
  pub peek_be : ℕ → ℕ → Buffer → ℕ
  -- copyOut(start, size)
  pub copy_out : ℕ → ℕ → Buffer → List ℕ
  -- drain(size)
  pub drain : ℕ → Buffer → Buffer
  -- dest.move(src, length): `dest` and `src` after the call
  pub move : Buffer → Buffer → ℕ → Buffer × Buffer
  -- add(data, size)
  pub add : Buffer → List ℕ → Buffer
  -- writeBEInt<T>(value), by the size of T
  pub write_be : ℕ → ℕ → Buffer → Buffer
  pub bytes-empty : bytes empty ≡ []
  pub size-bytes : (b : Buffer) → size b ≡ length (bytes b)
  pub peek_be-bytes :
      (w pos : ℕ) (b : Buffer)
      → pos + w ≤ length (bytes b)
      → peek_be w pos b ≡ be_value (take w (drop pos (bytes b)))
  pub copy_out-bytes :
      (pos n : ℕ) (b : Buffer)
      → pos + n ≤ length (bytes b)
      → copy_out pos n b ≡ take n (drop pos (bytes b))
  pub bytes-drain :
      (n : ℕ) (b : Buffer) → n ≤ length (bytes b) → bytes (drain n b) ≡ drop n (bytes b)
  pub bytes-move_to :
      (d s : Buffer) (n : ℕ)
      → n ≤ length (bytes s)
      → bytes (move d s n).0 ≡ bytes d ++ take n (bytes s)
  pub bytes-move_from :
      (d s : Buffer) (n : ℕ) → n ≤ length (bytes s) → bytes (move d s n).1 ≡ drop n (bytes s)
  pub bytes-add : (b : Buffer) (xs : List ℕ) → bytes (add b xs) ≡ bytes b ++ xs
  pub bytes-write_be : (w v : ℕ) (b : Buffer) → bytes (write_be w v b) ≡ bytes b ++ be_bytes w v
