-- ===== src/Spanningtree/Bitmap.antt =====
-- The bitmaps of spanningtree/prim.c: `SETBIT` and `GETBIT` on an array of bytes. An access outside
-- of the array is a fault.
use semicomplete_googlecode.Common.{
  ℕ, zero, suc, ◌+◌, ◌*◌, ◌/◌, ◌%◌, ◌<◌, ◌≡◌, ◌≢◌, refl, ap, Bool, true, Option, some, List, arith,
  ◌==◌, ◌>>=◌, length, get_elem?, set, inl, inr, eq_or_ne, get_elem?_inside, get_elem?-set_self,
  get_elem?-set_ne, length-set,
}

-- `byte & (1 << k)` and `byte | (1 << k)`, digit by digit.
unfoldable pub bit : ℕ → ℕ → Bool
bit byte zero = byte % 2 == 1
bit byte (suc k) = bit (byte / 2) k

unfoldable pub with_bit : ℕ → ℕ → ℕ
with_bit byte zero = byte / 2 * 2 + 1
with_bit byte (suc k) = with_bit (byte / 2) k * 2 + byte % 2

-- `GETBIT` and `SETBIT`
unfoldable pub getbit : List ℕ → ℕ → Option Bool
unfolding bit
getbit f e = do byte ← get_elem? f (e / 8); some (bit byte (e % 8))

unfoldable pub setbit : List ℕ → ℕ → Option (List ℕ)
unfolding with_bit
setbit f e = do byte ← get_elem? f (e / 8); some (set f (e / 8) (with_bit byte (e % 8)))

bit-with_bit_self : (byte k : ℕ) → bit (with_bit byte k) k ≡ true
unfolding bit with_bit
bit-with_bit_self byte zero = ground arith
bit-with_bit_self byte (suc k) =
    let half : (with_bit (byte / 2) k * 2 + byte % 2) / 2 ≡ with_bit (byte / 2) k = omega arith in
    rw half (bit-with_bit_self (byte / 2) k)

bit-with_bit_ne : (byte k j : ℕ) → k ≢ j → bit (with_bit byte k) j ≡ bit byte j
unfolding bit with_bit
bit-with_bit_ne byte zero zero h = absurd (h refl)
bit-with_bit_ne byte zero (suc j) h =
    let half : (byte / 2 * 2 + 1) / 2 ≡ byte / 2 = omega arith in rw half refl
bit-with_bit_ne byte (suc k) zero h =
    let low : (with_bit (byte / 2) k * 2 + byte % 2) % 2 ≡ byte % 2 = omega arith in rw low refl
bit-with_bit_ne byte (suc k) (suc j) h =
    let half : (with_bit (byte / 2) k * 2 + byte % 2) / 2 ≡ with_bit (byte / 2) k = omega arith in
    rw half (bit-with_bit_ne (byte / 2) k j (omega arith))

-- The bit that is set reads as set, and every other bit of the array as before.
pub getbit-setbit :
    (f : List ℕ) (v : ℕ)
    → v < length f * 8
    → (after : List ℕ) × (setbit f v ≡ some after)
      × (length after ≡ length f)
      × (getbit after v ≡ some true)
      × ((e : ℕ) → v ≢ e → getbit after e ≡ getbit f e)
unfolding getbit setbit
getbit-setbit f v h =
    let (byte, there) = get_elem?_inside f (v / 8) (omega arith) in
    let after = set f (v / 8) (with_bit byte (v % 8)) in
    rw there (
      after,
      refl,
      length-set f (v / 8) _,
      rw (get_elem?-set_self f (v / 8) (with_bit byte (v % 8)) (omega arith))
          (ap (λ b. some b) (bit-with_bit_self byte (v % 8))),
      λ e ne. elim (eq_or_ne (v / 8) (e / 8)) [
        | inl same ↦
            rw (← same, get_elem?-set_self f (v / 8) (with_bit byte (v % 8)) (omega arith), there)
              (ap (λ b. some b) (bit-with_bit_ne byte (v % 8) (e % 8) (omega arith)))
        | inr apart ↦ rw (get_elem?-set_ne f (with_bit byte (v % 8)) apart) refl
      ],
    )

pub getbit_inside : (f : List ℕ) (v : ℕ) → v < length f * 8 → (b : Bool) × (getbit f v ≡ some b)
unfolding getbit
getbit_inside f v h =
    let (byte, there) = get_elem?_inside f (v / 8) (omega arith) in rw there (_, refl)
