-- ===== src/Buffer/Moves.antt =====
-- Moving the whole of a buffer.
use meta_protocol_proxy.Base.{ℕ, ◌≡◌, ap, ◌∙◌, List, ◌++◌, take, take_all, arith}
use meta_protocol_proxy.Buffer.{BufferApi}

-- Moving a whole buffer appends what it holds.
pub bytes-move_all :
    (B : BufferApi) (d s : B.Buffer) → B.bytes (B.move d s (B.size s)).0 ≡ B.bytes d ++ B.bytes s
bytes-move_all B d s =
    B.bytes-move_to d s (B.size s) (omega (arith, B.size-bytes s))
    ∙ ap (λ (l : List ℕ). B.bytes d ++ l)
        (ap (λ (n : ℕ). take n (B.bytes s)) (B.size-bytes s) ∙ take_all (B.bytes s))
