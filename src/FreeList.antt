-- ===== src/FreeList.antt =====
-- Lists of memory blocks that are threaded through the blocks themselves: the first word of each
-- free block holds the address of the next, and 0 ends the list.
pub mod Runs
use rpi_vk_driver.Base.{
  ℕ, zero, suc, ◌+◌, ◌*◌, ◌≤◌, ◌≡◌, refl, ◌≢◌, ◌⊎◌, inl, inr, List, [], ◌∷◌, ◌++◌, arith, length,
  All, All-middle, ap,
}
use rpi_vk_driver.Memory.{Mem, null, load32, SameInside, load32_same}

-- From `p` the links lead through the blocks `xs` to the null pointer.
abbrev pub Chain : Mem → ℕ → List ℕ → Type 0
Chain m p [] = p ≡ null
Chain m p (x ∷ xs) = (p ≡ x) × (x ≢ null) × Chain m (load32 m x) xs

-- Two blocks of `bs` bytes do not overlap.
abbrev pub Apart : ℕ → ℕ → ℕ → Type 0
Apart bs x y = (x + bs ≤ y) ⊎ (y + bs ≤ x)

-- No two blocks of the list overlap.
abbrev pub Separate : ℕ → List ℕ → Type 0
Separate bs [] = Unit
Separate bs (x ∷ xs) = All (Apart bs x) xs × Separate bs xs

-- No block of the one list overlaps a block of the other.
abbrev pub Cross : ℕ → List ℕ → List ℕ → Type 0
Cross bs xs ys = All (λ x. All (Apart bs x) ys) xs

-- The block lies in the `size` bytes from `buf` on.
abbrev pub Inside : ℕ → ℕ → ℕ → ℕ → Type 0
Inside buf size bs x = (buf ≤ x) × (x + bs ≤ buf + size)

-- `n` blocks side by side from `b` on
unfoldable pub blocks : ℕ → ℕ → ℕ → List ℕ
blocks b bs zero = []
blocks b bs (suc n) = b ∷ blocks (b + bs) bs n

pub length-blocks : (b bs n : ℕ) → length (blocks b bs n) ≡ n
unfolding blocks
length-blocks b bs zero = refl
length-blocks b bs (suc n) = ap suc (length-blocks (b + bs) bs n)

pub Apart-sym : (bs x y : ℕ) → Apart bs x y → Apart bs y x
Apart-sym bs x y (inl h) = inr h
Apart-sym bs x y (inr h) = inl h

-- A chain survives any change that spares the links of its blocks.
pub Chain-frame :
    (m m' : Mem) (p : ℕ) (xs : List ℕ)
    → Chain m p xs
    → All (λ x. SameInside x (x + 4) m m') xs
    → Chain m' p xs
Chain-frame m m' p [] c same = c
Chain-frame m m' p (x ∷ xs) c same =
    let e = load32_same m m' x same.0 in
    (c.0, c.1, rw e (Chain-frame m m' (load32 m x) xs c.2 same.1))

-- The chain from an address is one list only.
pub Chain-unique : (m : Mem) (p : ℕ) (xs ys : List ℕ) → Chain m p xs → Chain m p ys → xs ≡ ys
Chain-unique m p [] [] c d = refl
Chain-unique m p [] (y ∷ ys) c d = absurd (omega arith)
Chain-unique m p (x ∷ xs) [] c d = absurd (omega arith)
Chain-unique m p (x ∷ xs) (y ∷ ys) c d =
    let e : x ≡ y = omega arith in
    let rest = Chain-unique m (load32 m y) xs ys (rw e at c.2) d.2 in cc

pub Separate-middle :
    (bs : ℕ) (xs : List ℕ) (y : ℕ) (ys : List ℕ)
    → Separate bs (xs ++ (y ∷ ys))
    → All (Apart bs y) (xs ++ ys) × Separate bs (xs ++ ys)
Separate-middle bs [] y ys h = h
Separate-middle bs (x ∷ xs) y ys h =
    let rest = Separate-middle bs xs y ys h.1 in
    let here = All-middle (Apart bs x) xs y ys h.0 in
    ((Apart-sym bs x y here.0, rest.0), (here.1, rest.1))

pub Cross-nil : (bs : ℕ) (xs : List ℕ) → Cross bs xs []
Cross-nil bs [] = tt
Cross-nil bs (x ∷ xs) = (tt, Cross-nil bs xs)

-- A block that is apart from all of `xs` may join the other side.
pub Cross-grow :
    (bs x : ℕ) (xs ys : List ℕ) → All (Apart bs x) xs → Cross bs xs ys → Cross bs xs (x ∷ ys)
Cross-grow bs x [] ys h c = tt
Cross-grow bs x (y ∷ xs) ys h c = ((Apart-sym bs x y h.0, c.0), Cross-grow bs x xs ys h.1 c.1)

-- A block in the middle of the other side, taken out.
pub Cross-middle :
    (bs : ℕ) (xs l : List ℕ) (y : ℕ) (r : List ℕ)
    → Cross bs xs (l ++ (y ∷ r))
    → All (Apart bs y) xs × Cross bs xs (l ++ r)
Cross-middle bs [] l y r c = (tt, tt)
Cross-middle bs (x ∷ xs) l y r c =
    let here = All-middle (Apart bs x) l y r c.0 in
    let rest = Cross-middle bs xs l y r c.1 in ((Apart-sym bs x y here.0, rest.0), (here.1, rest.1))

-- Blocks side by side are apart, and lie where they should.
pub blocks-Apart : (bs x b n : ℕ) → x + bs ≤ b → All (Apart bs x) (blocks b bs n)
unfolding blocks
blocks-Apart bs x b zero h = tt
blocks-Apart bs x b (suc n) h = (inl h, blocks-Apart bs x (b + bs) n (omega arith))

pub blocks-Separate : (bs b n : ℕ) → Separate bs (blocks b bs n)
unfolding blocks
blocks-Separate bs b zero = tt
blocks-Separate bs b (suc n) =
    (blocks-Apart bs b (b + bs) n (omega arith), blocks-Separate bs (b + bs) n)

pub blocks-Inside :
    (buf size bs b n : ℕ)
    → buf ≤ b
    → b + n * bs ≤ buf + size
    → All (Inside buf size bs) (blocks b bs n)
unfolding blocks
blocks-Inside buf size bs b zero lo hi = tt
blocks-Inside buf size bs b (suc n) lo hi =
    ((lo, omega arith), blocks-Inside buf size bs (b + bs) n (omega arith) (omega arith))
