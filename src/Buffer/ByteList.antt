-- ===== src/Buffer/ByteList.antt =====
-- A list of bytes satisfies the laws of the buffer interface.
use meta_protocol_proxy.Base.{ℕ, refl, List, [], ◌++◌, length, take, drop}
use meta_protocol_proxy.Buffer.{BufferApi, be_value, be_bytes}

abbrev pub byte_list : BufferApi
byte_list = record {
  Buffer = List ℕ;
  bytes = λ b. b;
  empty = [];
  size = λ b. length b;
  peek_be = λ w pos b. be_value (take w (drop pos b));
  copy_out = λ pos n b. take n (drop pos b);
  drain = λ n b. drop n b;
  move = λ d s n. (d ++ take n s, drop n s);
  add = λ b xs. b ++ xs;
  write_be = λ w v b. b ++ be_bytes w v;
  bytes-empty = refl;
  size-bytes = λ b. refl;
  peek_be-bytes = λ w pos b h. refl;
  copy_out-bytes = λ pos n b h. refl;
  bytes-drain = λ n b h. refl;
  bytes-move_to = λ d s n h. refl;
  bytes-move_from = λ d s n h. refl;
  bytes-add = λ b xs. refl;
  bytes-write_be = λ w v b. refl;
}
