-- ===== src/Fifo/Ends.antt =====
-- The end of the linked list of driver/fifo.c, and a block that goes back to its pool.
use rpi_vk_driver.Base.{
  ℕ, ◌+◌, ◌≤◌, ◌<◌, ◌≡◌, ◌≢◌, refl, sym, ◌∙◌, subst, ◌⊎◌, List, [], ◌∷◌, ◌++◌, append-nil, arith,
  All, All-mono, All-zip,
}
use rpi_vk_driver.Memory.{Mem, null, load32, load32_same, store32, store32_other, SameInside}
use rpi_vk_driver.FreeList.{Apart, Separate, Cross-middle}
use rpi_vk_driver.Pool
use rpi_vk_driver.Pool.Invariant.{Holds, free-Holds}
use rpi_vk_driver.Fifo.Links.{Linked, Holds-frame}

-- The last element of the list, `prev` if there is none.
abbrev pub end_of : ℕ → List ℕ → ℕ
end_of prev [] = prev
end_of prev (x ∷ xs) = end_of x xs

pub All-end_of {κ} : (P : ℕ → Type κ) (x : ℕ) (xs : List ℕ) → All P (x ∷ xs) → P (end_of x xs)
All-end_of P x [] h = h.0
All-end_of P x (y ∷ ys) h = All-end_of P y ys h.1

-- What the last element of a linked list holds
pub Linked-end :
    (m : Mem) (prev p last e d : ℕ) (es ds : List ℕ)
    → Linked m prev p (es ++ (e ∷ [])) (ds ++ (d ∷ [])) last
    → (last ≡ e) × (e ≢ null) × (load32 m (e + 4) ≡ end_of prev es) × (load32 m (e + 8) ≡ d)
Linked-end m prev p last e d [] [] l = (l.4.1, l.1, l.2, l.3)
Linked-end m prev p last e d [] (y ∷ []) l = absurd l.4
Linked-end m prev p last e d [] (y ∷ z ∷ zs) l = absurd l.4
Linked-end m prev p last e d (x ∷ []) [] l = absurd l.4
Linked-end m prev p last e d (x ∷ z ∷ zs) [] l = absurd l.4
Linked-end m prev p last e d (x ∷ xs) (y ∷ ys) l = Linked-end m x (load32 m x) last e d xs ys l.4

-- The memory `m'` keeps the elements but for the `next` of the last, which is null.
abbrev pub Cut : Mem → Mem → List ℕ → Type 0
Cut m m' [] = Unit
Cut m m' (x ∷ []) =
    (load32 m' x ≡ null)
    × (load32 m' (x + 4) ≡ load32 m (x + 4))
    × (load32 m' (x + 8) ≡ load32 m (x + 8))
Cut m m' (x ∷ y ∷ ys) =
    ((load32 m' x ≡ load32 m x)
      × (load32 m' (x + 4) ≡ load32 m (x + 4))
      × (load32 m' (x + 8) ≡ load32 m (x + 8)))
    × Cut m m' (y ∷ ys)

-- The list without its last element
pub Linked-Cut :
    (m m' : Mem) (prev p last e d x : ℕ) (es ds : List ℕ)
    → Linked m prev p (x ∷ (es ++ (e ∷ []))) (ds ++ (d ∷ [])) last
    → Cut m m' (x ∷ es)
    → Linked m' prev p (x ∷ es) ds (end_of x es)
Linked-Cut m m' prev p last e d x [] [] l c = absurd l.4
Linked-Cut m m' prev p last e d x (z ∷ zs) [] l c = absurd l.4
Linked-Cut m m' prev p last e d x [] (y ∷ []) l c = (l.0, l.1, c.1 ∙ l.2, c.2 ∙ l.3, (c.0, refl))
Linked-Cut m m' prev p last e d x [] (y ∷ z ∷ []) l c = absurd l.4.4
Linked-Cut m m' prev p last e d x [] (y ∷ z ∷ w ∷ ws) l c = absurd l.4.4
Linked-Cut m m' prev p last e d x (z ∷ zs) (y ∷ ys) l c = (
  l.0,
  l.1,
  c.0.1 ∙ l.2,
  c.0.2 ∙ l.3,
  subst (λ q. Linked m' x q (z ∷ zs) ys (end_of z zs)) (sym c.0.0)
      (Linked-Cut m m' x (load32 m x) last e d z zs ys l.4 c.1),
)

-- A word that the two memories share
same_word : (m m' : Mem) (q : ℕ) → SameInside q (q + 4) m m' → load32 m' q ≡ load32 m q
same_word m m' q same = load32_same m m' q same

-- Elements apart from each other, in a memory that changes of them only the `next` of the last
pub Cut-elements :
    (m m' : Mem) (bs x : ℕ) (xs : List ℕ)
    → bs ≡ 12
    → Separate bs (x ∷ xs)
    → load32 m' (end_of x xs) ≡ null
    → All
        (λ z. (a : ℕ) → z ≤ a → a < z + 12 → (a < end_of x xs) ⊎ (end_of x xs + 4 ≤ a) → m' a ≡ m a)
        (x ∷ xs)
    → Cut m m' (x ∷ xs)
Cut-elements m m' bs x [] size sep cut same = (
  cut,
  same_word m m' (x + 4) (λ a lo hi. same.0 a (omega arith) (omega arith) (omega arith)),
  same_word m m' (x + 8) (λ a lo hi. same.0 a (omega arith) (omega arith) (omega arith)),
)
Cut-elements m m' bs x (y ∷ ys) size sep cut same =
    let off : (x + 12 ≤ end_of y ys) ⊎ (end_of y ys + 12 ≤ x) =
      omega (arith, size, All-end_of (Apart bs x) y ys sep.0) in
    let word : (q : ℕ) → x ≤ q → q + 4 ≤ x + 12 → load32 m' q ≡ load32 m q = λ q lo hi.
      load32_same m m' q (λ a l u. same.0 a (omega arith) (omega arith) (omega (arith, off))) in
    (
      (
        word x (omega arith) (omega arith),
        word (x + 4) (omega arith) (omega arith),
        word (x + 8) (omega arith) (omega arith),
      ),
      Cut-elements m m' bs y ys size sep.1 cut same.1,
    )

-- A block of a pool that is given back, in a memory where its link is set and the links of the other
-- free blocks are as they were
pub Holds-freed :
    (m m' : Mem) (pa : Pool.Pool) (unused l : List ℕ) (p : ℕ)
    → Holds m pa unused (l ++ (p ∷ []))
    → SameInside p (p + 4) (store32 m p pa.next_free_block) m'
    → All (λ z. SameInside z (z + 4) m m') unused
    → Holds m' (record pa { next_free_block = p }) (p ∷ unused) l
unfolding Pool.free
Holds-freed m m' pa unused l p h link same =
    let freed = (free-Holds m pa unused l p [] h).0 in
    let across = (Cross-middle pa.block_size unused l p [] h.cross_apart).0 in
    subst (Holds m' (record pa { next_free_block = p }) (p ∷ unused)) (append-nil l) (
      Holds-frame (store32 m p pa.next_free_block) m' (record pa { next_free_block = p })
        (p ∷ unused) (l ++ []) freed
        (
          link,
          All-mono (λ z. Apart pa.block_size p z × SameInside z (z + 4) m m')
              (λ z. SameInside z (z + 4) (store32 m p pa.next_free_block) m')
              (λ z h' a lo hi.
                h'.1 a lo hi
                ∙ sym (
                    store32_other m p pa.next_free_block a
                      (omega (arith, h'.0, h.buffer.room_for_link))))
              unused
              (All-zip (Apart pa.block_size p) (λ z. SameInside z (z + 4) m m') unused across same),
        ))
