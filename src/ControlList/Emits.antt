-- ===== src/ControlList/Emits.antt =====
-- What a function of the control list writer appends: its bytes, and no others.
use rpi_vk_driver.Base.{
  ℕ, ◌+◌, ◌/◌, ◌%◌, ◌^◌, ◌≤◌, ◌<◌, ◌≡◌, refl, sym, ap, ◌∙◌, subst, ◌⊎◌, inl, inr, List, [], ◌∷◌,
  ◌++◌, arith, length, length-append,
}
use rpi_vk_driver.Memory.{Mem, store8, store16, store32}
use rpi_vk_driver.ControlList.{
  ControlList, Writer, advance, next_ptr, put8, put16, put24, put32, ◌▸◌,
}

-- The memory holds these bytes from `p` up.
abbrev pub Bytes : Mem → ℕ → List ℕ → Type 0
Bytes m p [] = Unit
Bytes m p (b ∷ bs) = (m p ≡ b) × Bytes m (p + 1) bs

pub Bytes-frame :
    (m m' : Mem) (p : ℕ) (bs : List ℕ)
    → ((a : ℕ) → p ≤ a → a < p + length bs → m' a ≡ m a)
    → Bytes m p bs
    → Bytes m' p bs
Bytes-frame m m' p [] same h = tt
Bytes-frame m m' p (b ∷ bs) same h = (
  same p (omega arith) (omega arith) ∙ h.0,
  Bytes-frame m m' (p + 1) bs (λ a lo hi. same a (omega arith) (omega arith)) h.1,
)

pub Bytes-append :
    (m : Mem) (p q : ℕ) (xs ys : List ℕ)
    → p + length xs ≡ q
    → Bytes m p xs
    → Bytes m q ys
    → Bytes m p (xs ++ ys)
Bytes-append m p q [] ys e hx hy = subst (λ x. Bytes m x ys) (omega arith) hy
Bytes-append m p q (x ∷ xs) ys e hx hy =
    (hx.0, Bytes-append m (p + 1) q xs ys (omega arith) hx.1 hy)

-- Neither the offset nor the pointer wraps within the next `n` bytes.
pub record HasRoom (cl : ControlList) (n : ℕ) : Type 0 where
  pub pointer : cl.cpa + cl.next_free_byte_offset + n < 2 ^ 32

-- The list `cl` with memory `m` becomes `after` by the bytes `bs` at its end: these are written,
-- the offset moves past them, and of the rest of the memory only the byte after them may change.
pub record Appends (m : Mem) (cl : ControlList) (after : Writer) (bs : List ℕ) : Type 0 where
  pub moved : after.1 ≡ advance cl (length bs)
  pub bytes : Bytes after.0 (cl.cpa + cl.next_free_byte_offset) bs
  pub others :
      (a : ℕ)
      → (a < cl.cpa + cl.next_free_byte_offset)
        ⊎ (cl.cpa + cl.next_free_byte_offset + length bs + 1 ≤ a)
      → after.0 a ≡ m a

-- The function `f` appends the bytes `bs` to any list with room for them.
pub record Emits (f : Writer → Writer) (bs : List ℕ) : Type 0 where
  pub appends : (m : Mem) (cl : ControlList) → HasRoom cl (length bs) → Appends m cl (f (m, cl)) bs

abbrev pub byte : ℕ → ℕ → ℕ
byte v i = v / 256 ^ i % 256

abbrev pub bytes2 : ℕ → List ℕ
bytes2 v = v % 256 ∷ v / 256 % 256 ∷ []

abbrev pub bytes3 : ℕ → List ℕ
bytes3 v = v % 256 ∷ v / 256 % 256 ∷ v / 65536 % 256 ∷ []

abbrev pub bytes4 : ℕ → List ℕ
bytes4 v = v % 256 ∷ v / 256 % 256 ∷ v / 65536 % 256 ∷ v / 16777216 % 256 ∷ []

pub put8-Emits : (v : ℕ) → Emits (put8 v) (v % 256 ∷ [])
unfolding put8 store8
put8-Emits v = record {
  appends = λ m cl room.
      let here : next_ptr cl ≡ cl.cpa + cl.next_free_byte_offset = omega (arith, room.pointer) in
      record {
        moved = refl;
        bytes = (ground (arith, here), tt);
        others = λ a away. ground (arith, here);
      };
}

pub put16-Emits : (v : ℕ) → Emits (put16 v) (bytes2 v)
unfolding put16 store16
put16-Emits v = record {
  appends = λ m cl room.
      let here : next_ptr cl ≡ cl.cpa + cl.next_free_byte_offset = omega (arith, room.pointer) in
      record {
        moved = refl;
        bytes = (ground (arith, here), (ground (arith, here), tt));
        others = λ a away. ground (arith, here);
      };
}

pub put24-Emits : (v : ℕ) → Emits (put24 v) (bytes3 v)
unfolding put24 store32
put24-Emits v = record {
  appends = λ m cl room.
      let here : next_ptr cl ≡ cl.cpa + cl.next_free_byte_offset = omega (arith, room.pointer) in
      record {
        moved = refl;
        bytes = (ground (arith, here), (ground (arith, here), (ground (arith, here), tt)));
        others = λ a away. ground (arith, here);
      };
}

pub put32-Emits : (v : ℕ) → Emits (put32 v) (bytes4 v)
unfolding put32 store32
put32-Emits v = record {
  appends = λ m cl room.
      let here : next_ptr cl ≡ cl.cpa + cl.next_free_byte_offset = omega (arith, room.pointer) in
      record {
        moved = refl;
        bytes = (
          ground (arith, here),
          (ground (arith, here), (ground (arith, here), (ground (arith, here), tt))),
        );
        others = λ a away. ground (arith, here);
      };
}

-- One writer after another appends the bytes of both.
pub then-Emits :
    {f g : Writer → Writer} {xs ys : List ℕ} → Emits f xs → Emits g ys → Emits (f ▸ g) (xs ++ ys)
then-Emits {f} {g} {xs} {ys} one two = record {
  appends = λ m cl room.
      let len = length-append xs ys in
      let first = one.appends m cl (record { pointer = omega (arith, room.pointer, len) }) in
      let after = f (m, cl) in
      let there : after.1.cpa + after.1.next_free_byte_offset
          ≡ cl.cpa + cl.next_free_byte_offset + length xs =
        ap (λ (c : ControlList). c.cpa + c.next_free_byte_offset) first.moved
        ∙ omega (arith, room.pointer, len) in
      let second =
        two.appends after.0 after.1
          (record { pointer = omega (arith, room.pointer, len, there) }) in
      record {
        moved =
            second.moved
            ∙ ap (λ (c : ControlList). advance c (length ys)) first.moved
            ∙ ap (λ x. record cl { next_free_byte_offset = x }) (omega (arith, len));
        bytes =
            Bytes-append (g after).0 (cl.cpa + cl.next_free_byte_offset)
              (after.1.cpa + after.1.next_free_byte_offset) xs ys (sym there)
              (Bytes-frame after.0 (g after).0 (cl.cpa + cl.next_free_byte_offset) xs
                (λ a lo hi. second.others a (inl (omega (arith, there)))) first.bytes)
              second.bytes;
        others = λ a away. elim away [
          | inl below ↦ second.others a (inl (omega (arith, there))) ∙ first.others a (inl below)
          | inr above ↦
              second.others a (inr (omega (arith, there, len)))
              ∙ first.others a (inr (omega (arith, len)))
        ];
      };
}
