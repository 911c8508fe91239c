-- ===== src/Linear.antt =====
-- driver/LinearAllocator.c: a bump allocator over a caller's buffer.
use rpi_vk_driver.Base.{ℕ, ◌+◌, ◌^◌, ◌≤◌, ◌<◌, ◌≡◌, ◌≢◌, ◌↔◌, arith, add32, leb, if◌then◌else◌}
use rpi_vk_driver.Memory.{null}

pub record Linear : Type 0 where
  pub buf : ℕ
  pub offset : ℕ
  pub size : ℕ

-- `createLinearAllocator`
pub create : ℕ → ℕ → Linear
create b s = record { buf = b; offset = 0; size = s }

-- `destroyLinearAllocator`
pub destroy : Linear → Linear
destroy la = record { buf = null; offset = 0; size = 0 }

-- `linearAllocte`: the address, or the null pointer when no space is left
pub allocate : Linear → ℕ → ℕ × Linear
allocate la s =
    if leb la.size (add32 la.offset s)
    then (null, la)
    else (add32 (add32 la.buf la.offset) s, record la { offset = add32 la.offset s })

-- The offset is inside the buffer, and the buffer inside the address space.
pub record IsValid (la : Linear) : Type 0 where
  pub not_null : la.buf ≢ null
  pub inside : la.offset < la.size
  pub in_memory : la.buf + la.size ≤ 2 ^ 32

-- A fresh allocator over a buffer of at least one byte is valid.
pub create-IsValid : (b s : ℕ) → b ≢ null → 0 < s → b + s ≤ 2 ^ 32 → IsValid (create b s)
unfolding create
create-IsValid b s ne pos room = record { not_null = ne; inside = pos; in_memory = room }

-- `linearAllocte` keeps a valid allocator valid, for every size that does not wrap the sum of
-- offset and size: it fails and changes nothing when the sum reaches the size, and moves the offset
-- by the request otherwise.
pub allocate-IsValid :
    (la : Linear) (s : ℕ)
    → IsValid la
    → la.offset + s < 2 ^ 32
    → IsValid (allocate la s).1
      × (((allocate la s).0 ≡ null) ↔ (la.size ≤ la.offset + s))
      × ((allocate la s).0 ≡ null → (allocate la s).1 ≡ la)
      × ((allocate la s).0 ≢ null → (allocate la s).1.offset ≡ la.offset + s)
unfolding allocate
allocate-IsValid la s v small =
    (ground arith, (ground arith, ground arith), ground arith, ground arith)

-- The address that `linearAllocte` returns is the one past the reserved bytes, not their first:
-- the block of `s` bytes that it hands out lies in the buffer only if twice the request fits.
pub allocate_past_reserved :
    (la : Linear) (s : ℕ)
    → IsValid la
    → la.offset + s < la.size
    → ((allocate la s).0 ≡ la.buf + (allocate la s).1.offset)
      × (((allocate la s).0 + s ≤ la.buf + la.size) ↔ (la.offset + s + s ≤ la.size))
unfolding allocate
allocate_past_reserved la s v fits = (ground arith, (ground arith, ground arith))

-- Of two blocks handed out in a row, of `s` and then of `t` bytes, the first runs into the second
-- exactly when the second is the smaller.
pub allocate_twice_overlap :
    (la : Linear) (s t : ℕ)
    → IsValid la
    → la.offset + s + t < la.size
    → 0 < t
    → (let (p, la') = allocate la s in let (q, _) = allocate la' t in q < p + s) ↔ (t < s)
unfolding allocate
allocate_twice_overlap la s t v fits pos = (ground arith, ground arith)
