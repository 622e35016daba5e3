-- ===== src/Codec/Entries.antt =====
-- The order of the keys of an object that is built, as `sortKeys` of adapters/core/typescript/src/codec.ts does it, from sorted entries.
use audr.Base.{
  ℕ, ◌≡◌, refl, Bool, true, false, ◌&&◌, Option, none, some, String, leb, arith, Bool-cases, inl,
  inr,
}
use audr.Record.{Json, Fields, end, field}
use audr.Codec.Keys.{key_leb, index_of, stands_before, add_entry}

-- By index, and without one by the order of texts.
abbrev precedes_by : Option ℕ → Option ℕ → Bool → Bool
precedes_by none none b = b
precedes_by none (some m) b = false
precedes_by (some n) none b = true
precedes_by (some n) (some m) b = leb n m

-- The order in which an object has its keys once they were written in the order of texts.
unfoldable pub precedes : String → String → Bool
unfolding key_leb index_of
precedes k l = precedes_by (index_of k) (index_of l) (key_leb k l)

precedes_by-first :
    (i j k : Option ℕ) (b c : Bool)
    → stands_before i j ≡ true
    → precedes_by j k b ≡ true
    → c ≡ true
    → precedes_by i k c ≡ true
precedes_by-first none none none b c e h g = g
precedes_by-first none none (some n) b c e h g = h
precedes_by-first none (some m) k b c e h g = absurd (ground (arith, e))
precedes_by-first (some n) none none b c e h g = refl
precedes_by-first (some n) none (some m) b c e h g = absurd (ground (arith, h))
precedes_by-first (some n) (some m) none b c e h g = refl
precedes_by-first (some n) (some m) (some o) b c e h g = ground (arith, e, h)

precedes_by-next :
    (i j : Option ℕ) (c : Bool) → stands_before i j ≡ true → c ≡ true → precedes_by i j c ≡ true
precedes_by-next none none c e g = g
precedes_by-next none (some m) c e g = absurd (ground (arith, e))
precedes_by-next (some n) none c e g = refl
precedes_by-next (some n) (some m) c e g = e

precedes_by-behind :
    (i j : Option ℕ) (c : Bool) → stands_before i j ≡ false → precedes_by j i c ≡ true
precedes_by-behind none none c e = absurd (ground (arith, e))
precedes_by-behind none (some m) c e = refl
precedes_by-behind (some n) none c e = absurd (ground (arith, e))
precedes_by-behind (some n) (some m) c e = ground (arith, e)

unfoldable pub precedes_all : String → Fields → Bool
unfolding precedes
precedes_all k end = true
precedes_all k (field l v rest) = precedes k l && precedes_all k rest

-- Every key stands before those that follow it.
unfoldable pub is_ordered : Fields → Bool
unfolding precedes_all
is_ordered end = true
is_ordered (field k v rest) = precedes_all k rest && is_ordered rest

-- A text that is not after any key of an object.
unfoldable pub leads : String → Fields → Bool
unfolding key_leb
leads k end = true
leads k (field l v rest) = key_leb k l && leads k rest

pub leads-add_entry :
    (q key : String) (v : Json) (fs : Fields)
    → leads q (add_entry key v fs) ≡ (key_leb q key && leads q fs)
unfolding leads add_entry
leads-add_entry q key v end = refl
leads-add_entry q key v (field k w rest) = ground (arith, leads-add_entry q key v rest)

precedes_all-add_entry :
    (q key : String) (v : Json) (fs : Fields)
    → precedes_all q (add_entry key v fs) ≡ (precedes q key && precedes_all q fs)
unfolding precedes_all add_entry
precedes_all-add_entry q key v end = refl
precedes_all-add_entry q key v (field k w rest) =
    ground (arith, precedes_all-add_entry q key v rest)

precedes_all-first :
    (key k : String) (rest : Fields)
    → stands_before (index_of key) (index_of k) ≡ true
    → precedes_all k rest ≡ true
    → leads key rest ≡ true
    → precedes_all key rest ≡ true
unfolding precedes_all precedes leads
precedes_all-first key k end e h g = refl
precedes_all-first key k (field l v rest) e h g =
    let now : precedes key l ≡ true =
      precedes_by-first (index_of key) (index_of k) (index_of l) (key_leb k l) (key_leb key l) e
        (ground (arith, h)) (ground (arith, g)) in
    ground (arith, now, precedes_all-first key k rest e)

pub add_entry-IsOrdered :
    (key : String) (v : Json) (fs : Fields)
    → leads key fs ≡ true
    → is_ordered fs ≡ true
    → is_ordered (add_entry key v fs) ≡ true
unfolding is_ordered add_entry leads
add_entry-IsOrdered key v end g h = refl
add_entry-IsOrdered key v (field k w rest) g h =
    elim (Bool-cases (stands_before (index_of key) (index_of k))) [
      | inl e ↦ rw e (
          let next : precedes key k ≡ true =
            precedes_by-next (index_of key) (index_of k) (key_leb key k) e (ground (arith, g)) in
          ground (arith, next, precedes_all-first key k rest e))
      | inr e ↦ rw e (
          let behind : precedes k key ≡ true =
            precedes_by-behind (index_of key) (index_of k) (key_leb k key) e in
          ground
            (arith, behind, precedes_all-add_entry k key v rest, add_entry-IsOrdered key v rest))
    ]
