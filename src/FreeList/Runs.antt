-- ===== src/FreeList/Runs.antt =====
-- Runs of neighbouring blocks in a list of free blocks, and blocks that change hands: a list of
-- blocks up to order.
use rpi_vk_driver.Base.{
  ℕ, zero, suc, ◌+◌, ◌*◌, ◌≤◌, ◌≡◌, refl, subst, ap, ◌≢◌, ◌⊎◌, inl, inr, List, [], ◌∷◌, ◌++◌, arith,
  length, All,
}
use mathlib.Core.List.{Permᴰ}
use mathlib.Core.List.Permᴰ
use rpi_vk_driver.Memory.{Mem, null, load32, SameInside, load32_same}
use rpi_vk_driver.FreeList.{Chain, Apart, Separate, Cross, Inside, blocks, Apart-sym}

pub All-Perm {κ} : (P : ℕ → Type κ) {xs ys : List ℕ} → Permᴰ xs ys → All P xs → All P ys
All-Perm P Permᴰ.nil h = tt
All-Perm P (Permᴰ.cons e d) h = (subst P e h.0, All-Perm P d h.1)
All-Perm P (Permᴰ.swap e f) h = (subst P f h.1.0, (subst P e h.0, h.1.1))
All-Perm P (Permᴰ.trans d f) h = All-Perm P f (All-Perm P d h)

pub Separate-Perm : (bs : ℕ) {xs ys : List ℕ} → Permᴰ xs ys → Separate bs xs → Separate bs ys
Separate-Perm bs Permᴰ.nil h = tt
Separate-Perm bs (Permᴰ.cons {l₂ = l} e d) h =
    (subst (λ b. All (Apart bs b) l) e (All-Perm (Apart bs _) d h.0), Separate-Perm bs d h.1)
Separate-Perm bs (Permᴰ.swap {a = a} {b = b} {a' = c} {b' = d} {l = l} e f) h = (
  (
    subst (Apart bs c) e (subst (λ x. Apart bs x a) f (Apart-sym bs a b h.0.0)),
    subst (λ x. All (Apart bs x) l) f h.1.0,
  ),
  (subst (λ x. All (Apart bs x) l) e h.0.1, h.1.1),
)
Separate-Perm bs (Permᴰ.trans d f) h = Separate-Perm bs f (Separate-Perm bs d h)

pub length-Perm : {xs ys : List ℕ} → Permᴰ xs ys → length xs ≡ length ys
length-Perm Permᴰ.nil = refl
length-Perm (Permᴰ.cons e d) = ap suc (length-Perm d)
length-Perm (Permᴰ.swap e f) = refl
length-Perm (Permᴰ.trans d f) = omega (arith, length-Perm d, length-Perm f)

pub All-left {κ} : (P : ℕ → Type κ) (xs ys : List ℕ) → All P (xs ++ ys) → All P xs
All-left P [] ys h = tt
All-left P (x ∷ xs) ys h = (h.0, All-left P xs ys h.1)

pub All-right {κ} : (P : ℕ → Type κ) (xs ys : List ℕ) → All P (xs ++ ys) → All P ys
All-right P [] ys h = h
All-right P (x ∷ xs) ys h = All-right P xs ys h.1

pub Separate-left : (bs : ℕ) (xs ys : List ℕ) → Separate bs (xs ++ ys) → Separate bs xs
Separate-left bs [] ys h = tt
Separate-left bs (x ∷ xs) ys h = (All-left (Apart bs x) xs ys h.0, Separate-left bs xs ys h.1)

pub Separate-right : (bs : ℕ) (xs ys : List ℕ) → Separate bs (xs ++ ys) → Separate bs ys
Separate-right bs [] ys h = h
Separate-right bs (x ∷ xs) ys h = Separate-right bs xs ys h.1

pub Separate-Cross : (bs : ℕ) (xs ys : List ℕ) → Separate bs (xs ++ ys) → Cross bs xs ys
Separate-Cross bs [] ys h = tt
Separate-Cross bs (x ∷ xs) ys h = (All-right (Apart bs x) xs ys h.0, Separate-Cross bs xs ys h.1)

pub Cross-left : (bs : ℕ) (xs ys zs : List ℕ) → Cross bs xs (ys ++ zs) → Cross bs xs ys
Cross-left bs [] ys zs c = tt
Cross-left bs (x ∷ xs) ys zs c = (All-left (Apart bs x) ys zs c.0, Cross-left bs xs ys zs c.1)

pub Cross-right : (bs : ℕ) (xs ys zs : List ℕ) → Cross bs xs (ys ++ zs) → Cross bs xs zs
Cross-right bs [] ys zs c = tt
Cross-right bs (x ∷ xs) ys zs c = (All-right (Apart bs x) ys zs c.0, Cross-right bs xs ys zs c.1)

-- A block that is apart from each block of a run is apart from the whole run.
pub Apart-run :
    (bs y p n : ℕ)
    → 4 ≤ bs
    → All (λ x. Apart bs x y) (blocks p bs (suc n))
    → (y + bs ≤ p) ⊎ (p + suc n * bs ≤ y)
unfolding blocks
Apart-run bs y p zero h (inl e, _) = inr (omega arith)
Apart-run bs y p zero h (inr e, _) = inl (omega arith)
Apart-run bs y p (suc n) h (inr e, _) = inl (omega arith)
Apart-run bs y p (suc n) h (inl e, rest) = elim (Apart-run bs y (p + bs) n h rest) [
  | inl low ↦ absurd (omega arith)
  | inr high ↦ inr (omega arith)
]

-- The links of a chain up to `x` are not changed, and from `x` on a new chain begins.
pub Chain-prefix :
    (m m' : Mem) (p : ℕ) (l : List ℕ) (x : ℕ) (r s : List ℕ)
    → Chain m p (l ++ (x ∷ r))
    → All (λ y. SameInside y (y + 4) m m') l
    → Chain m' (load32 m' x) s
    → Chain m' p (l ++ (x ∷ s))
Chain-prefix m m' p [] x r s c same next = (c.0, c.1, next)
Chain-prefix m m' p (y ∷ l) x r s c same next =
    let e = load32_same m m' y same.0 in
    (c.0, c.1, rw e (Chain-prefix m m' (load32 m y) l x r s c.2 same.1 next))

-- A chain, entered at a block further on
pub Chain-suffix :
    (m : Mem) (p : ℕ) (l : List ℕ) (x : ℕ) (r : List ℕ)
    → Chain m p (l ++ (x ∷ r))
    → (x ≢ null) × Chain m (load32 m x) r
Chain-suffix m p [] x r c = (c.1, c.2)
Chain-suffix m p (y ∷ l) x r c = Chain-suffix m (load32 m y) l x r c.2

-- A chain with a block in it does not start at the null pointer.
pub Chain-start :
    (m : Mem) (p : ℕ) (l : List ℕ) (x : ℕ) (r : List ℕ) → Chain m p (l ++ (x ∷ r)) → p ≢ null
Chain-start m p [] x r c e = c.1 (omega (arith, c.0))
Chain-start m p (y ∷ l) x r c e = c.1 (omega (arith, c.0))

-- A run ends where its last block does.
pub run-le :
    (buf size bs p n : ℕ)
    → All (Inside buf size bs) (blocks p bs (suc n))
    → p + suc n * bs ≤ buf + size
unfolding blocks
run-le buf size bs p zero h = omega (arith, h.0)
run-le buf size bs p (suc n) h = omega (arith, run-le buf size bs (p + bs) n h.1)

-- A chain behind a run at its head
pub Chain-run :
    (m : Mem) (bs p n : ℕ) (r : List ℕ)
    → Chain m p (blocks p bs (suc n) ++ r)
    → Chain m (load32 m (p + n * bs)) r
unfolding blocks
Chain-run m bs p zero r c = let e : p + 0 * bs ≡ p = omega arith in rw e c.2
Chain-run m bs p (suc n) r c =
    let e : p + suc n * bs ≡ p + bs + n * bs = omega arith in
    let rest : Chain m (p + bs) (blocks (p + bs) bs (suc n) ++ r) = rw c.2.0 at c.2 in
    rw e (Chain-run m bs (p + bs) n r rest)

-- Every list is empty or has a last element.
pub last_cases : (xs : List ℕ) → (xs ≡ []) ⊎ ((ys : List ℕ) × (y : ℕ) × (xs ≡ ys ++ (y ∷ [])))
last_cases [] = inl refl
last_cases (x ∷ xs) = elim (last_cases xs) [
  | inl e ↦ inr ([], x, ap (λ l. x ∷ l) e)
  | inr (ys, y, e) ↦ inr (x ∷ ys, y, ap (λ l. x ∷ l) e)
]

-- Blocks of a run move from the middle of the first list to the front of the second.
pub Perm-move : (l s r live : List ℕ) → Permᴰ ((l ++ (s ++ r)) ++ live) ((l ++ r) ++ (s ++ live))
Perm-move [] s r live = front s r live
  where
    front : (s r live : List ℕ) → Permᴰ ((s ++ r) ++ live) (r ++ (s ++ live))
    front [] r live = Permᴰ.refl (r ++ live)
    front (x ∷ s) r live =
        Permᴰ.trans (Permᴰ.cons refl (front s r live)) (Permᴰ.symm (Permᴰ.middle x r (s ++ live)))
Perm-move (x ∷ l) s r live = Permᴰ.cons refl (Perm-move l s r live)

-- The way back, from the middle of the second list
pub Perm-return :
    (a b l s r : List ℕ) → Permᴰ ((a ++ b) ++ (l ++ (s ++ r))) ((a ++ (s ++ b)) ++ (l ++ r))
Perm-return a b l s r =
    Permᴰ.trans (Permᴰ.append_left (a ++ b) (out l s r)) (Permᴰ.symm (Perm-move a s b (l ++ r)))
  where
    out : (l s r : List ℕ) → Permᴰ (l ++ (s ++ r)) (s ++ (l ++ r))
    out l [] r = Permᴰ.refl (l ++ r)
    out l (x ∷ s) r = Permᴰ.trans (Permᴰ.middle x l (s ++ r)) (Permᴰ.cons refl (out l s r))
