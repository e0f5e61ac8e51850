-- ===== src/Serializable/Data.antt =====
-- `Serializable::Data` (servus/serializable.h, servus/serializable.cpp): a pointer to bytes with their
-- number, and its deep copy. A block of the heap is named by its address; one that is not allocated is
-- `none`.
use servus.Prelude.{
  ℕ, zero, suc, [], ◌∷◌, Option, none, some, ◌≡◌, ◌≢◌, refl, ◌∙◌, arith, if◌then◌else◌, ◌==◌, leb,
  length, take, length-take, take_all, Option-cases, inl, inr,
}
use servus.Bytes.{Bytes}

pub record Data : Type 0 where
  pub ptr : Option ℕ
  pub size : ℕ

abbrev pub Heap : Type 0
Heap = ℕ → Option Bytes

unfoldable pub empty : Data
empty = record { ptr = none; size = 0 }

abbrev pub write : Heap → ℕ → Bytes → Heap
write heap q block p = if p == q then some block else heap p

abbrev pub prefix : ℕ → Bytes → Option Bytes
prefix n block = if leb n (length block) then some (take n block) else none

-- The bytes that `memcpy` reads; `none` where they are not there. No bytes can be read anywhere.
unfoldable pub bytes_at : Heap → Option ℕ → ℕ → Option Bytes
bytes_at heap p zero = some []
bytes_at heap none (suc n) = none
bytes_at heap (some p) (suc n) = elim (heap p) [ none ↦ none | some block ↦ prefix (suc n) block ]

abbrev pub bytes_of : Heap → Data → Option Bytes
bytes_of heap d = bytes_at heap d.ptr d.size

-- `clone`: the copy stands in a new block at the address `q`.
unfoldable pub clone : Heap → ℕ → Data → Option (Heap × Data)
unfolding bytes_at
clone heap q d = elim (bytes_of heap d) [
  | none ↦ none
  | some bytes ↦ some (write heap q bytes, record { ptr = some q; size = d.size })
]

length-bytes_at :
    (heap : Heap) (p : Option ℕ) (n : ℕ) (bytes : Bytes)
    → bytes_at heap p n ≡ some bytes
    → length bytes ≡ n
unfolding bytes_at
length-bytes_at heap p zero bytes e = ground arith
length-bytes_at heap none (suc n) bytes e = ground arith
length-bytes_at heap (some p) (suc n) bytes e = elim (Option-cases (heap p)) [
  | inl freed ↦ ground arith
  | inr (block, h) ↦ ground (arith, length-take (suc n) block)
]

-- A block that has the bytes and no more is read whole.
bytes_at_whole :
    (heap : Heap) (q n : ℕ) (bytes : Bytes)
    → heap q ≡ some bytes
    → length bytes ≡ n
    → bytes_at heap (some q) n ≡ some bytes
unfolding bytes_at
bytes_at_whole heap q zero [] h l = refl
bytes_at_whole heap q zero (b ∷ bytes) h l = absurd (omega (arith, l))
bytes_at_whole heap q (suc n) bytes h l = ground (arith, take_all (suc n) bytes)

bytes_at_elsewhere :
    (heap : Heap) (q : ℕ) (block : Bytes) (p : Option ℕ) (n : ℕ)
    → p ≢ some q
    → bytes_at (write heap q block) p n ≡ bytes_at heap p n
unfolding bytes_at
bytes_at_elsewhere heap q block p zero h = refl
bytes_at_elsewhere heap q block none (suc n) h = refl
bytes_at_elsewhere heap q block (some p) (suc n) h = ground arith

-- If the bytes of the data are there, and the new block is another one, `clone` gives data of the same
-- size with the same bytes, which a later write to any other block leaves, that of the original
-- included; the original keeps its bytes.
pub clone_copies :
    (heap : Heap) (q : ℕ) (d : Data) (bytes : Bytes)
    → d.ptr ≢ some q
    → bytes_of heap d ≡ some bytes
    → (heap' : Heap) × (d' : Data) × (clone heap q d ≡ some (heap', d'))
      × (d'.size ≡ d.size)
      × (bytes_of heap' d' ≡ some bytes)
      × (bytes_of heap' d ≡ some bytes)
      × ((p : ℕ) (block : Bytes) → p ≢ q → bytes_of (write heap' p block) d' ≡ some bytes)
unfolding clone
clone_copies heap q d bytes other e =
    let copy : Data = record { ptr = some q; size = d.size } in
    let copied : bytes_at (write heap q bytes) (some q) d.size ≡ some bytes =
      bytes_at_whole (write heap q bytes) q d.size bytes (ground arith)
        (length-bytes_at heap d.ptr d.size bytes e) in
    (
      write heap q bytes,
      copy,
      rw (e, clone) refl,
      refl,
      copied,
      bytes_at_elsewhere heap q bytes d.ptr d.size other ∙ e,
      λ p block far.
          bytes_at_elsewhere (write heap q bytes) p block (some q) d.size
            (λ same. far (ground arith))
          ∙ copied,
    )
