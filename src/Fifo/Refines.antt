-- ===== src/Fifo/Refines.antt =====
-- The queue of driver/fifo.c against a queue of values: a list of items, each the list of its bytes,
-- that grows at the front and shrinks at the end.
use rpi_vk_driver.Base.{
  ℕ, zero, suc, ◌+◌, ◌/◌, ◌<◌, ◌≡◌, refl, sym, ap, ap₂, ◌∙◌, subst, List, [], ◌∷◌, ◌++◌, arith,
  length, length-append, All,
}
use rpi_vk_driver.Memory.{Mem}
use rpi_vk_driver.Pool
use rpi_vk_driver.Fifo.{Fifo, link_first, unlink_last, add, remove}
use rpi_vk_driver.Fifo.Links.{IsFifo, Linked, SameItem}
use rpi_vk_driver.Fifo.Add.{add-IsFifo}
use rpi_vk_driver.Fifo.Order.{remove-IsFifo}
use rpi_vk_driver.Fifo.Remove.{Elsewhere}

-- `n` bytes from `p` on
abbrev pub read : Mem → ℕ → ℕ → List ℕ
read m p zero = []
read m p (suc n) = m p ∷ read m (p + 1) n

read-same :
    (m m' : Mem) (p q n : ℕ) → ((i : ℕ) → i < n → m' (q + i) ≡ m (p + i)) → read m' q n ≡ read m p n
read-same m m' p q zero same = refl
read-same m m' p q (suc n) same =
    ap₂ (λ x xs. x ∷ xs) (ap m' (omega arith) ∙ same 0 (omega arith) ∙ ap m (omega arith))
      (read-same m m' (p + 1) (q + 1) n
        (λ i h. ap m' (omega arith) ∙ same (i + 1) (omega arith) ∙ ap m (omega arith)))

abbrev pub contents : Mem → ℕ → List ℕ → List (List ℕ)
contents m n [] = []
contents m n (d ∷ ds) = read m d n ∷ contents m n ds

contents-same :
    (m m' : Mem) (n : ℕ) (ds : List ℕ)
    → All (SameItem m m' n) ds
    → contents m' n ds ≡ contents m n ds
contents-same m m' n [] same = refl
contents-same m m' n (d ∷ ds) same =
    ap₂ (λ x xs. x ∷ xs) (read-same m m' d d n (λ i h. same.0 (d + i) (omega arith) (omega arith)))
      (contents-same m m' n ds same.1)

length-contents : (m : Mem) (n : ℕ) (ds : List ℕ) → length (contents m n ds) ≡ length ds
length-contents m n [] = refl
length-contents m n (d ∷ ds) = ap suc (length-contents m n ds)

-- The memory and the queue stand for the items `q`, of at most `capacity`.
pub record Represents (capacity : ℕ) (m : Mem) (f : Fifo) (q : List (List ℕ)) : Type 0 where
  pub es : List ℕ
  pub ds : List ℕ
  pub free_elems : List ℕ
  pub free_items : List ℕ
  pub is_fifo : IsFifo m f es ds free_elems free_items
  pub elem_capacity : f.fifo_elem_buf.size / f.fifo_elem_buf.block_size ≡ capacity
  pub item_capacity : f.data_buf.size / f.data_buf.block_size ≡ capacity
  pub items : contents m f.data_size ds ≡ q

-- A linked list has as many elements as items.
Linked-length :
    (m : Mem) (prev p last : ℕ) (es ds : List ℕ)
    → Linked m prev p es ds last
    → length es ≡ length ds
Linked-length m prev p last [] [] l = refl
Linked-length m prev p last [] (d ∷ ds) l = absurd l
Linked-length m prev p last (e ∷ es) [] l = absurd l
Linked-length m prev p last (e ∷ es) (d ∷ ds) l = ap suc (Linked-length m e _ last es ds l.4)

nonempty : (xs : List ℕ) → 0 < length xs → (x : ℕ) × (ys : List ℕ) × (xs ≡ x ∷ ys)
nonempty [] h = absurd (omega arith)
nonempty (x ∷ xs) h = (x, xs, refl)

at_end : (xs : List ℕ) → 0 < length xs → (ys : List ℕ) × (x : ℕ) × (xs ≡ ys ++ (x ∷ []))
at_end [] h = absurd (omega arith)
at_end (x ∷ []) h = ([], x, refl)
at_end (x ∷ y ∷ ys) h =
    let (zs, z, e) = at_end (y ∷ ys) (omega arith) in (x ∷ zs, z, ap (λ t. x ∷ t) e)

-- The contents of a list with one more at the end
contents-end :
    (m : Mem) (n : ℕ) (ds : List ℕ) (d : ℕ)
    → contents m n (ds ++ (d ∷ [])) ≡ contents m n ds ++ (read m d n ∷ [])
contents-end m n [] d = refl
contents-end m n (x ∷ xs) d = ap (λ t. read m x n ∷ t) (contents-end m n xs d)

cons_injective {ℓ} : {A : Type ℓ} {x y : A} {xs ys : List A} → x ∷ xs ≡ y ∷ ys → (x ≡ y) × (xs ≡ ys)
cons_injective e = (cc, cc)

end_unique {ℓ} :
    {A : Type ℓ} (xs ys : List A) (x y : A) → xs ++ (x ∷ []) ≡ ys ++ (y ∷ []) → (xs ≡ ys) × (x ≡ y)
end_unique [] [] x y e = (refl, (cons_injective e).0)
end_unique [] (b ∷ bs) x y e =
    absurd (omega (arith, length-append bs (y ∷ []), ap length (cons_injective e).1))
end_unique (a ∷ rs) [] x y e =
    absurd (omega (arith, length-append rs (x ∷ []), ap length (cons_injective e).1))
end_unique (a ∷ rs) (b ∷ bs) x y e =
    let rest = end_unique rs bs x y (cons_injective e).1 in
    (ap₂ (λ z zs. z ∷ zs) (cons_injective e).0 rest.0, rest.1)

-- The two sizes of a pool that the queue's functions keep
abbrev geometry : Fifo → ℕ × ℕ × ℕ
geometry f = (
  f.fifo_elem_buf.size / f.fifo_elem_buf.block_size,
  f.data_buf.size / f.data_buf.block_size,
  f.data_size,
)

add-geometry : (m : Mem) (f : Fifo) (src : ℕ) → geometry (add m f src).2 ≡ geometry f
unfolding add link_first Pool.allocate
add-geometry m f src = ground arith

remove-geometry : (m : Mem) (f : Fifo) (out : ℕ) → geometry (remove m f out).2 ≡ geometry f
unfolding remove unlink_last Pool.free
remove-geometry m f out = ground arith

-- `fifoAdd` on memory that stands for a queue of fewer items than its capacity: it returns 1, and the
-- memory stands for the queue with the bytes at `src` in front.
pub add-Represents :
    (capacity : ℕ) (m : Mem) (f : Fifo) (q : List (List ℕ)) (src : ℕ)
    → Represents capacity m f q
    → length q < capacity
    → let (ok, m', f') = add m f src in
      (ok ≡ 1) × Represents capacity m' f' (read m src f.data_size ∷ q)
add-Represents capacity m f q src h room =
    let r = h.is_fifo in
    let len : length h.ds ≡ length q =
      sym (length-contents m f.data_size h.ds) ∙ ap length h.items in
    let same = Linked-length m 0 f.first f.last h.es h.ds r.links in
    let (e, ees, some_elem) =
      nonempty h.free_elems (omega (arith, r.elems.count, h.elem_capacity, len, same)) in
    let (d, dds, some_item) =
      nonempty h.free_items (omega (arith, r.items.count, h.item_capacity, len)) in
    let ready : IsFifo m f h.es h.ds (e ∷ ees) (d ∷ dds) =
      subst (λ x. IsFifo m f h.es h.ds x (d ∷ dds)) some_elem
        (subst (λ x. IsFifo m f h.es h.ds h.free_elems x) some_item r) in
    let done = add-IsFifo m f src e d h.es h.ds ees dds ready in
    let m' : Mem = (add m f src).1 in
    let sizes = add-geometry m f src in
    (
      done.0,
      record {
        es = e ∷ h.es;
        ds = d ∷ h.ds;
        free_elems = ees;
        free_items = dds;
        is_fifo = done.1;
        elem_capacity = ap (λ (g : ℕ × ℕ × ℕ). g.0) sizes ∙ h.elem_capacity;
        item_capacity = ap (λ (g : ℕ × ℕ × ℕ). g.1) sizes ∙ h.item_capacity;
        items =
            ap (λ k. contents m' k (d ∷ h.ds)) (ap (λ (g : ℕ × ℕ × ℕ). g.2) sizes)
            ∙ ap₂ (λ x xs. x ∷ xs) (read-same m m' src d f.data_size done.2)
                (contents-same m m' f.data_size h.ds done.3 ∙ h.items);
      },
    )

-- `fifoRemove` on memory that stands for a queue with the item `x` at its end, to a place outside the
-- pools: it returns 1, the memory stands for the queue without it, and the place holds its bytes.
pub remove-Represents :
    (capacity : ℕ) (m : Mem) (f : Fifo) (q : List (List ℕ)) (x : List ℕ) (out : ℕ)
    → Represents capacity m f (q ++ (x ∷ []))
    → Elsewhere f.fifo_elem_buf out f.data_size
    → Elsewhere f.data_buf out f.data_size
    → let (ok, m', f') = remove m f out in
      (ok ≡ 1) × Represents capacity m' f' q × (read m' out f.data_size ≡ x)
remove-Represents capacity m f q x out h no_elem no_item =
    let r = h.is_fifo in
    let n = f.data_size in
    let len : length h.ds ≡ length (q ++ (x ∷ [])) =
      sym (length-contents m n h.ds) ∙ ap length h.items in
    let same = Linked-length m 0 f.first f.last h.es h.ds r.links in
    let (ds, d, end_d) = at_end h.ds (omega (arith, len, length-append q (x ∷ []))) in
    let (es, e, end_e) = at_end h.es (omega (arith, len, same, length-append q (x ∷ []))) in
    let ready : IsFifo m f (es ++ (e ∷ [])) (ds ++ (d ∷ [])) h.free_elems h.free_items =
      subst (λ t. IsFifo m f t (ds ++ (d ∷ [])) h.free_elems h.free_items) end_e
        (subst (λ t. IsFifo m f h.es t h.free_elems h.free_items) end_d r) in
    let done = remove-IsFifo m f out e d es ds h.free_elems h.free_items ready no_elem no_item in
    let m' : Mem = (remove m f out).1 in
    let sizes = remove-geometry m f out in
    let split =
      end_unique (contents m n ds) q (read m d n) x
        (sym (contents-end m n ds d) ∙ ap (contents m n) (sym end_d) ∙ h.items) in
    (
      done.0,
      record {
        es = es;
        ds = ds;
        free_elems = e ∷ h.free_elems;
        free_items = d ∷ h.free_items;
        is_fifo = done.1;
        elem_capacity = ap (λ (g : ℕ × ℕ × ℕ). g.0) sizes ∙ h.elem_capacity;
        item_capacity = ap (λ (g : ℕ × ℕ × ℕ). g.1) sizes ∙ h.item_capacity;
        items =
            ap (λ k. contents m' k ds) (ap (λ (g : ℕ × ℕ × ℕ). g.2) sizes)
            ∙ contents-same m m' n ds done.3
            ∙ split.0;
      },
      read-same m m' d out n done.2 ∙ split.1,
    )
