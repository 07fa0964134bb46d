-- ===== src/Store/Write/Planned.antt =====
-- store/sqlite.go, the loop `NextPin`: the value `hashUpdate` is exactly the change that the
-- writes make to the hash of the points of the node.
pub mod Loop
use mathlib.Core.List.{Memᴰ}
use mathlib.Core.Path.{subst}
use simpleiot.Prelude.{
  ℕ, ◌+◌, ◌*◌, ◌%◌, ◌-◌, ◌^◌, ◌<◌, ◌≤◌, String, ◌≡◌, ◌≢◌, refl, sym, ap, ap₂, ◌∙◌, Bool, true,
  false, ◌&&◌, List, [], ◌∷◌, Option, none, some, str_eq, eq_iff, if◌then◌else◌, arith, All,
  Bool-cases, inl, inr, eq_refl, ne→str_eq, ltb,
}
use simpleiot.Prelude.Bits.{
  ◌⊕◌, zero-bit_xor, bit_xor-zero, bit_xor_assoc, bit_xor_comm, bit_xor_cancel, xor_right_comm,
  xor_exchange, bit_xor_self,
}
use simpleiot.Prelude.Perms.{AllPairs, All-mem}
use simpleiot.Data.Point.{Point, crc, unix_nano, from_unix_nano, unix_epoch}
use simpleiot.Store.{PointRow, column_form, rows_of}
use simpleiot.Store.Hash.{mark}
use simpleiot.Store.Write.{upsert, match_row}

-- The hash of the points of one node (or edge) in a table.
unfoldable pub owner_hash : List PointRow → String → ℕ
owner_hash [] n = 0
owner_hash (r ∷ rs) n = (if str_eq r.owner n then crc r.point else 0) ⊕ owner_hash rs n

unix_nano-from_unix_nano : (x : ℕ) → x < 2 ^ 64 → unix_nano (from_unix_nano x) ≡ x
unfolding unix_nano from_unix_nano
unix_nano-from_unix_nano x h = ground arith

unix_nano-lt : (t : ℕ) → unix_nano t < 2 ^ 64
unfolding unix_nano
unix_nano-lt t = omega arith

-- The database keeps all of the time that the CRC reads.
pub crc-column_form : (p : Point) → crc (column_form p) ≡ crc p
unfolding crc column_form
crc-column_form p = rw (unix_nano-from_unix_nano (unix_nano p.time) (unix_nano-lt p.time))

abbrev pub HasUniqueRows : List PointRow → Type 0
HasUniqueRows = AllPairs (λ a b. a.id ≢ b.id)

mark-xor : (b : Bool) (u v : ℕ) → mark (u ⊕ v) b ≡ mark u b ⊕ mark v b
mark-xor true u v = refl
mark-xor false u v = sym (zero-bit_xor 0)

-- A row with a new ID adds the CRC of its point to the hash of its owner.
pub owner_hash-insert :
    (o n : String) (t : List PointRow) (id : String) (p : Point)
    → All (λ r. r.id ≢ id) t
    → owner_hash (upsert o t id p) n ≡ owner_hash t n ⊕ mark (crc p) (str_eq o n)
unfolding owner_hash upsert
owner_hash-insert o n [] id p h = rw crc-column_form (bit_xor_comm _ 0)
owner_hash-insert o n (r ∷ rs) id p h =
    rw (ne→str_eq r.id id h.0) (rw (owner_hash-insert o n rs id p h.1) (sym (bit_xor_assoc _ _ _)))

replaced : (a s b : ℕ) → b ⊕ s ≡ (a ⊕ s) ⊕ (a ⊕ b)
replaced a s b = sym (
    xor_exchange a s a b
    ∙ ap (λ (t : ℕ). t ⊕ (s ⊕ b)) (bit_xor_self a)
    ∙ zero-bit_xor (s ⊕ b)
    ∙ bit_xor_comm s b)

update_head :
    (o n : String) (rs : List PointRow) (r : PointRow) (p : Point)
    → r.owner ≡ o
    → owner_hash (upsert o (r ∷ rs) r.id p) n
      ≡ owner_hash (r ∷ rs) n ⊕ mark (crc r.point ⊕ crc p) (str_eq o n)
unfolding owner_hash upsert
update_head o n rs r p w =
    rw (eq_refl r.id, w, crc-column_form p)
      (elim (Bool-cases (str_eq o n)) [
        | inl t ↦ rw t (replaced (crc r.point) (owner_hash rs n) (crc p))
        | inr t ↦ rw t (sym (bit_xor-zero _))
      ])

-- A write over the row `r` takes the CRC of the old point out and puts the new one in.
pub owner_hash-update :
    (o n : String) (t : List PointRow) (r : PointRow) (p : Point)
    → HasUniqueRows t
    → Memᴰ r t
    → r.owner ≡ o
    → owner_hash (upsert o t r.id p) n ≡ owner_hash t n ⊕ mark (crc r.point ⊕ crc p) (str_eq o n)
unfolding owner_hash upsert
owner_hash-update o n [] r p u m w = elim m [ ]
owner_hash-update o n (a ∷ l) r p u (Memᴰ.head e) w =
    subst
      (λ b.
        owner_hash (upsert o (b ∷ l) r.id p) n
        ≡ owner_hash (b ∷ l) n ⊕ mark (crc r.point ⊕ crc p) (str_eq o n))
      e (update_head o n l r p w)
owner_hash-update o n (a ∷ l) r p u (Memᴰ.tail m) w =
    rw (ne→str_eq a.id r.id (All-mem (λ s. a.id ≢ s.id) l r u.0 m))
      (rw (owner_hash-update o n l r p u.1 m w) (sym (bit_xor_assoc _ _ _)))
